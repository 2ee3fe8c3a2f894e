-- ===== src/Stream/Server.antt =====
-- `StreamServer` and `StreamAdapter` of lewis/adapters/stream.py. What asyncore does between two calls
-- of `process` is the parameter `loop`, and creating and binding the socket the parameter `listen`.
pub mod Contract
use lewis.Common.{
  ℕ, ◌+◌, String, Bool, true, false, Option, none, some, List, [], ◌∷◌, ◌++◌, Result, ok, err,
  attribute_error, value_error, Exec, and_then, continue, ◌≡◌, refl, if◌then◌else◌, ◌==◌,
}
use lewis.Stream.Func.{Func}
use lewis.Stream.Values.{text_terminator}
use lewis.Stream.Handler.{Interface, Lock, thread_lock, no_lock, Handler, new_handler, process}

-- Connections are numbered as they are accepted; the number stands for the identity of the handler.
-- The lock is the one that the adapter had when the server was made.
pub record Server : Type 0 where
  pub device_lock : Lock
  pub accepted : ℕ
  pub accepted_connections : List (ℕ × Handler)

pub record StreamOptions : Type 0 where
  pub bind_address : String
  pub port : ℕ
  pub telnet_mode : Bool

-- `StreamAdapter`, with its interface and the device and interface behind it.
pub record StreamAdapter (O W : Type 0) : Type 0 where
  pub options : StreamOptions
  pub device_lock : Lock
  -- the attribute `protocol` of the interface
  pub protocol : String
  pub interface : Interface O W
  pub server : Option Server
  pub world : W

-- `default_options`: the adapter is on all addresses, port 9999, and keeps the terminators.
unfoldable pub default_options : StreamOptions
default_options = record { bind_address = "0.0.0.0"; port = 9999; telnet_mode = false }

module _ {O W : Type 0} where
  -- `handle_accept`, where the socket has a connection
  unfoldable pub handle_accept : Interface O W → Exec Server (Unit {0})
  handle_accept target s = elim (new_handler target) [
    | err e ↦ (err e, s)
    | ok h ↦ (
      ok tt,
      record s {
        accepted = s.accepted + 1;
        accepted_connections = s.accepted_connections ++ ((s.accepted, h) ∷ []);
      },
    )
  ]

abbrev pub has_server : Option Server → Bool
has_server none = false
has_server (some s) = true

-- `list.remove` raises ValueError for a connection that is not there.
abbrev remove_connection : ℕ → List (ℕ × Handler) → Result (List (ℕ × Handler))
remove_connection i [] = err value_error
remove_connection i (c ∷ cs) =
    if c.0 == i then ok cs else and_then (remove_connection i cs) (λ rest. ok (c ∷ rest))

unfoldable pub remove_handler : ℕ → Exec Server (Unit {0})
remove_handler i s = elim (remove_connection i s.accepted_connections) [
  | err e ↦ (err e, s)
  | ok cs ↦ (ok tt, record s { accepted_connections = cs })
]

module _ {O W : Type 0} (lock : Lock) (target : Interface O W) (msec : ℕ) where
  abbrev keep_first :
      ℕ × Handler
      → Result (Unit {0}) × (List (ℕ × Handler)) × W
      → Result (Unit {0}) × (List (ℕ × Handler)) × W
  keep_first c (r, cs, w) = (r, c ∷ cs, w)

  -- The loop over the connections; one that raises ends it.
  abbrev pub process_connections :
      List (ℕ × Handler) → W → Result (Unit {0}) × (List (ℕ × Handler)) × W
  process_connections [] w = (ok tt, [], w)
  process_connections ((i, h) ∷ cs) w =
      let (r, (h', w')) = process lock target msec (h, w) in
      let rest = process_connections cs w' in
      elim r [ err e ↦ (err e, (i, h') ∷ cs, w') | ok u ↦ keep_first (i, h') rest ]

module _ {O W : Type 0} where
  -- `StreamServer.process`
  unfoldable pub process_server : ℕ → Interface O W → Server → W → Result (Unit {0}) × Server × W
  process_server msec target s w =
      let (r, cs, w') = process_connections s.device_lock target msec s.accepted_connections w in
      (r, record s { accepted_connections = cs }, w')

  -- `if self._options.telnet_mode: …`; the terminators stay so when the adapter is stopped.
  abbrev pub telnet_terminators : Bool → Interface O W → Interface O W
  telnet_terminators true target = record target {
    in_terminator = text_terminator (13 ∷ 10 ∷ []);
    out_terminator = text_terminator (13 ∷ 10 ∷ []);
  }
  telnet_terminators false target = target

  abbrev pub listening : Result (Unit {0}) → Exec (StreamAdapter O W) (Unit {0})
  listening (err e) a = (err e, a)
  listening (ok u) a = (
    ok tt,
    record a {
      server =
          some (record { device_lock = a.device_lock; accepted = 0; accepted_connections = [] });
    },
  )

  abbrev pub new_server :
      (String → ℕ → Result (Unit {0})) → Option Server → Exec (StreamAdapter O W) (Unit {0})
  new_server listen (some s) a = (ok tt, a)
  new_server listen none a =
      listening (listen a.options.bind_address a.options.port)
        (record a { interface = telnet_terminators a.options.telnet_mode a.interface })

  unfoldable pub start_server :
      (String → ℕ → Result (Unit {0})) → Exec (StreamAdapter O W) (Unit {0})
  start_server listen a = new_server listen a.server a

  -- The connections are closed and forgotten with the server.
  unfoldable pub stop_server : Exec (StreamAdapter O W) (Unit {0})
  stop_server a = (ok tt, record a { server = none })

  unfoldable pub is_running : StreamAdapter O W → Bool
  is_running a = has_server a.server

  abbrev process_adapter : ℕ → Option Server → Exec (StreamAdapter O W) (Unit {0})
  process_adapter msec none a = (err attribute_error, a)
  process_adapter msec (some s) a =
      let (r, s', w) = process_server msec a.interface s a.world in
      (r, record a { server = some s'; world = w })

  -- `handle(cycle_delay)`, with the delay in milliseconds
  unfoldable pub handle :
      Exec (StreamAdapter O W) (Unit {0}) → ℕ → Exec (StreamAdapter O W) (Unit {0})
  handle loop msec a = continue (λ _ b. process_adapter msec b.server b) (loop a)
