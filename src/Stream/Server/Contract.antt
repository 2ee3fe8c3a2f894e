-- ===== src/Stream/Server/Contract.antt =====
-- The stream adapter (lewis/adapters/stream.py) as an adapter that a collection can run.
use lewis.Common.{ℕ, String, Option, none, some, Result, ok, err, Exec, ◌≡◌, refl, true}
use lewis.Adapters.Class.{AdapterClass, AdapterLaws}
use lewis.Stream.Handler.{thread_lock}
use lewis.Stream.Server.{
  StreamAdapter, start_server, stop_server, is_running, handle, new_server, listening, has_server,
  telnet_terminators, Server,
}

module _ {O W : Type 0} (listen : String → ℕ → Result (Unit {0}))
    (loop : Exec (StreamAdapter O W) (Unit {0})) where
  -- The collection calls `handle` with a delay of 10 ms.
  abbrev pub stream_class : AdapterClass String (StreamAdapter O W)
  stream_class = record {
    protocol = λ a. a.protocol;
    give_lock = λ a. record a { device_lock = thread_lock };
    start_server = start_server listen;
    stop_server = stop_server;
    is_running = is_running;
    handle = handle loop 10;
  }

  listening_runs :
      (r : Result (Unit {0})) (a : StreamAdapter O W)
      → (listening r a).0 ≡ ok tt
      → has_server (listening r a).1.server ≡ true
  listening_runs (ok u) a done = refl
  listening_runs (err x) a done = absurd (cc done)

  new_server_runs :
      (s : Option Server) (a : StreamAdapter O W)
      → a.server ≡ s
      → (new_server listen s a).0 ≡ ok tt
      → has_server (new_server listen s a).1.server ≡ true
  new_server_runs (some s) a e done = rw e refl
  new_server_runs none a e done =
      listening_runs (listen a.options.bind_address a.options.port)
        (record a { interface = telnet_terminators a.options.telnet_mode a.interface }) done

  listening_protocol :
      (r : Result (Unit {0})) (a : StreamAdapter O W) → (listening r a).1.protocol ≡ a.protocol
  listening_protocol (ok u) a = refl
  listening_protocol (err x) a = refl

  new_server_protocol :
      (s : Option Server) (a : StreamAdapter O W) → (new_server listen s a).1.protocol ≡ a.protocol
  new_server_protocol (some s) a = refl
  new_server_protocol none a =
      listening_protocol (listen a.options.bind_address a.options.port)
        (record a { interface = telnet_terminators a.options.telnet_mode a.interface })

  -- Whatever the socket does, the stream adapter keeps what the base class asks for: it runs once
  -- `start_server` returned, not after `stop_server`, and its protocol stays.
  pub stream_class-AdapterLaws : AdapterLaws String (StreamAdapter O W) stream_class
  unfolding start_server stop_server is_running
  stream_class-AdapterLaws = record {
    start_runs = λ a. new_server_runs a.server a refl;
    stop_stops = λ a. refl;
    start_protocol = λ a. new_server_protocol a.server a;
    stop_protocol = λ a. refl;
    lock_protocol = λ a. refl;
  }
