-- ===== src/Stream/Tests.antt =====
-- Examples for the stream adapter: a device with a speed, which is the world.
use lewis.Common.{
  ℕ, true, false, ◌+◌, ◌==◌, String, Option, none, some, List, [], ◌∷◌, Result, ok, err, type_error,
  runtime_error, ◌≡◌, refl, if◌then◌else◌,
}
use lewis.Stream.Values.{
  Bytes, Value, none_value, text, object, text_terminator, bytes_terminator, reply_message,
}
use lewis.Stream.Func.{
  Expression, no_mapping, string_pattern, Func, make_func, can_process, process_request, regex,
  map_arguments, map_return_value,
}
use lewis.Stream.Commands.{
  Target, Command, cmd, var, named, nothing, callable, bind_device, patterns, bind,
}
use lewis.Stream.Commands.Distinct.{Unique, bind_device-Unique}
use lewis.Stream.Handler.{
  Interface, thread_lock, Handler, Connection, found_terminator, process, collect_incoming_data,
  push_reply, process_first, reply_to,
}
use lewis.Stream.Handler.Session.{
  Event, received, terminated, elapsed, run, spec_run, session, view, step,
}
use lewis.Stream.Handler.Session.Refinement.{run-refines}
use lewis.Stream.Handler.Packets.{Packet, arriving, packets-join}
use lewis.Stream.Handler.Replies.{found_terminator-raises}

-- A pattern is compiled to an expression that matches one byte: its group is what follows.
abbrev groups_after : ℕ → Bytes → Option (List (Value ℕ))
groups_after c [] = none
groups_after c (d ∷ rest) = if c == d then some [] else none

abbrev compile : String → Result (Expression ℕ)
compile p = ok (record { groups = 0; match_groups = groups_after 83 })

-- "speed" is an attribute of the device.
abbrev device : Target ℕ ℕ
device = record {
  find_member = λ n. nothing;
  names = "speed" ∷ [];
  documented = λ n. true;
  getattr = λ n w. (ok (object w), w);
  setattr = λ n v w. (ok tt, w);
}

abbrev interface : Target ℕ ℕ
interface = record {
  find_member = λ n.
      callable
        (record { accepts = λ k. k == 0; call = λ args w. (ok (text (79 ∷ 75 ∷ [])), w + 1) });
  names = [];
  documented = λ n. true;
  getattr = λ n w. (ok none_value, w);
  setattr = λ n v w. (ok tt, w);
}

-- "start" is a method of the interface; the second command has the pattern of the first.
abbrev commands : List (Command ℕ ℕ)
commands =
    cmd (named "start") (string_pattern "^S$") none no_mapping
    ∷ var "speed" (some (string_pattern "^V$")) (some (string_pattern "^S$")) none no_mapping
    ∷ []

-- The setter does not fit a pattern without groups.
binding_test : (bind_device compile (some commands) interface device []).0 ≡ err runtime_error
unfolding bind_device bind make_func regex
binding_test = refl

-- A property without a docstring cannot be bound.
undocumented_test :
    (bind compile
      (var "speed" (some (string_pattern "^V$")) none none no_mapping)
      (record device { documented = λ n. false }))
    ≡ err type_error
unfolding bind
undocumented_test = refl

bound_test : patterns (bind_device compile (some commands) interface device []).1 ≡ "^S$" ∷ []
unfolding bind_device bind make_func regex
bound_test = refl

bind_device-Unique_example :
    Unique (patterns (bind_device compile (some commands) interface device []).1)
bind_device-Unique_example = bind_device-Unique compile (some commands) interface device []

abbrev start_func : Func ℕ ℕ
start_func = record {
  func = record { accepts = λ k. k == 0; call = λ args w. (ok (text (79 ∷ 75 ∷ [])), w + 1) };
  matcher = record {
    pattern = "^S$";
    arg_count = 0;
    argument_mappings = none;
    matching = groups_after 83;
  };
  argument_mappings = none;
  return_mapping = no_mapping;
}

abbrev target : Interface ℕ ℕ
target = record {
  in_terminator = text_terminator (13 ∷ []);
  out_terminator = text_terminator (13 ∷ []);
  readtimeout = 100;
  bound_commands = some (start_func ∷ []);
  handle_error = λ request error w. (ok (text (69 ∷ [])), w);
}

abbrev connected : Connection ℕ
connected =
    (record { terminator = 13 ∷ []; readtimeout = 100; readtimer = 0; buffer = []; sent = [] }, 0)

-- A request in two packets, an unknown one, and one that is never completed.
abbrev events : List (Event ℕ)
events =
    received (83 ∷ [])
    ∷ received (49 ∷ [])
    ∷ terminated
    ∷ received (81 ∷ [])
    ∷ terminated
    ∷ received (83 ∷ [])
    ∷ elapsed 100
    ∷ elapsed 1
    ∷ []

replies_test :
    (run thread_lock target events connected).1.0.sent
    ≡ (79 ∷ 75 ∷ 13 ∷ []) ∷ (69 ∷ 13 ∷ []) ∷ (69 ∷ 13 ∷ []) ∷ []
unfolding run step found_terminator process_first can_process collect_incoming_data process_request
    map_arguments map_return_value push_reply reply_message process
replies_test = refl

run-refines_example :
    view (run thread_lock target events connected)
    ≡ spec_run thread_lock target events (session connected)
run-refines_example = run-refines thread_lock target events connected

-- "S" and "1", with a poll after the first that comes in time.
abbrev in_packets : List Packet
in_packets = (83 ∷ [], 60 ∷ []) ∷ (49 ∷ [], []) ∷ []

packets-join_example :
    view (run thread_lock target (arriving in_packets (terminated ∷ [])) connected)
    ≡ view (run thread_lock target (received (83 ∷ 49 ∷ []) ∷ terminated ∷ []) connected)
packets-join_example =
    packets-join thread_lock target in_packets [] connected ((refl, tt), (tt, tt))

-- The Linkam T95: replies are text, unless a command says otherwise, and their terminator is bytes.
abbrev byte_target : Interface ℕ ℕ
byte_target = record target { out_terminator = bytes_terminator (13 ∷ []) }

abbrev asked : Handler
asked = record {
  terminator = 13 ∷ [];
  readtimeout = 100;
  readtimer = 5;
  buffer = (83 ∷ []) ∷ [];
  sent = [];
}

replies_text : reply_to byte_target (83 ∷ []) 0 ≡ (ok (text (79 ∷ 75 ∷ [])), 1)
unfolding process_first process_request can_process map_arguments map_return_value
replies_text = refl

found_terminator-raises_example :
    found_terminator thread_lock byte_target (asked, 0)
    ≡ (err type_error, (record asked { readtimer = 0; buffer = [] }, 1))
found_terminator-raises_example =
    found_terminator-raises byte_target asked 0 1 (text (79 ∷ 75 ∷ [])) replies_text tt
