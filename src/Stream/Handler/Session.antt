-- ===== src/Stream/Handler/Session.antt =====
-- What a connection of lewis/adapters/stream.py promises to its client: a session that knows of the
-- pending request, not of the packets it came in, and answers it by the first command that matches.
pub mod Views
pub mod Refinement
use lewis.Common.{
  ℕ, ◌+◌, Bool, true, false, Option, none, some, List, [], ◌∷◌, ◌++◌, Exn, Result, ok, err,
  runtime_error, type_error, Exec, pure, continue, ◌>>=◌, ◌>>◌, if◌then◌else◌, not, ◌&&◌, leb, ◌==◌,
  ◌≡◌, refl, ap, sym, ◌∙◌, Bool-cases, inl, inr, append_assoc, and_then,
}
use lewis.Stream.Values.{Bytes, Value, none_value, text, bytes, object, Terminator, reply_message}
use lewis.Stream.Func.{Func, can_process, process_request}
use lewis.Stream.Handler.{
  Interface, Lock, no_lock, thread_lock, Handler, join, is_empty, Connection, push_reply,
  send_reply, push, on_world, with_lock, process_first, process_bound, or_handle_error, reply_to,
  found_terminator, collect_incoming_data, report_timeout, timed_out, check_timeout, count_time,
  process,
}

-- What asyncore makes a connection do.
pub data Event (O : Type 0) : Type 0 where
  received : Bytes → Event O
  terminated : Event O
  elapsed : ℕ → Event O
  unsolicited : Value O → Event O

module _ {O W : Type 0} (lock : Lock) (target : Interface O W) where
  unfoldable pub step : Event O → Exec (Connection W) (Unit {0})
  step (received b) c = (ok tt, collect_incoming_data b c)
  step terminated c = found_terminator lock target c
  step (elapsed msec) c = process lock target msec c
  step (unsolicited reply) c = push_reply target reply c

  unfoldable pub run : List (Event O) → Exec (Connection W) (Unit {0})
  run [] c = (ok tt, c)
  run (e ∷ es) c = continue (λ _. run es) (step e c)

-- The abstract state: the pending request, how long it has been waiting, and the replies so far.
pub record Session (W : Type 0) : Type 0 where
  pub timeout : ℕ
  pub by_silence : Bool
  pub pending : Option Bytes
  pub idle : ℕ
  pub replies : List Bytes
  pub world : W

abbrev pub pending_bytes : Option Bytes → Bytes
pending_bytes none = []
pending_bytes (some b) = b

module _ {O : Type 0} where
  abbrev pub message : Terminator → Value O → Result (List Bytes)
  message t none_value = ok []
  message t (text s) = and_then (reply_message {O = O} (text s) t) (λ b. ok (b ∷ []))
  message t (bytes s) = and_then (reply_message {O = O} (bytes s) t) (λ b. ok (b ∷ []))
  message t (object o) = and_then (reply_message (object o) t) (λ b. ok (b ∷ []))

module _ {W : Type 0} where
  abbrev pub post : Session W → Result (List Bytes) → Result (Unit {0}) × Session W
  post s (ok bs) = (ok tt, record s { replies = s.replies ++ bs })
  post s (err e) = (err e, s)

module _ {O W : Type 0} where
  -- The first command whose pattern matches.
  abbrev pub select : List (Func O W) → Bytes → Option (Func O W)
  select [] request = none
  select (f ∷ fs) request = if can_process f request then some f else select fs request

  abbrev pub attempt : Option (Func O W) → Bytes → Exec W (Value O)
  attempt none request w = (err runtime_error, w)
  attempt (some f) request w = process_request f request w

  abbrev pub respond : Interface O W → Option (List (Func O W)) → Bytes → Exec W (Value O)
  respond target none request w = target.handle_error request type_error w
  respond target (some fs) request w =
      or_handle_error target.handle_error request (attempt (select fs request) request w)

  abbrev pub answer : Terminator → Session W → Result (Value O) × W → Result (Unit {0}) × Session W
  answer t s (ok v, w) = post (record s { world = w }) (message t v)
  answer t s (err e, w) = (err e, record s { world = w })

  -- The pending request is dealt with, once.
  abbrev pub transact : Lock → Terminator → (Bytes → Exec W (Value O)) → Exec (Session W) (Unit {0})
  transact no_lock t react s = (err runtime_error, record s { pending = none; idle = 0 })
  transact thread_lock t react s =
      answer t (record s { pending = none; idle = 0 }) (react (pending_bytes s.pending) s.world)

module _ {O W : Type 0} (lock : Lock) (target : Interface O W) where
  abbrev pub reaction : Bool → Bytes → Exec W (Value O)
  reaction true request = respond target target.bound_commands request
  reaction false request = target.handle_error request runtime_error

  abbrev pub wait : Option Bytes → ℕ → Exec (Session W) (Unit {0})
  wait none msec s = (ok tt, s)
  wait (some b) msec s =
      if leb s.timeout s.idle && not (s.timeout == 0)
      then transact lock target.out_terminator (reaction s.by_silence) s
      else (ok tt, record s { idle = s.idle + msec })

  unfoldable pub spec_step : Event O → Exec (Session W) (Unit {0})
  spec_step (received b) s =
      (ok tt, record s { pending = some (pending_bytes s.pending ++ b); idle = 0 })
  spec_step terminated s = transact lock target.out_terminator (reaction true) s
  spec_step (elapsed msec) s = wait s.pending msec s
  spec_step (unsolicited reply) s =
      post s (and_then (reply_message reply target.out_terminator) (λ b. ok (b ∷ [])))

  unfoldable pub spec_run : List (Event O) → Exec (Session W) (Unit {0})
  spec_run [] s = (ok tt, s)
  spec_run (e ∷ es) s = continue (λ _. spec_run es) (spec_step e s)

abbrev pub pending_of : List Bytes → Option Bytes
pending_of [] = none
pending_of (b ∷ bs) = some (join (b ∷ bs))

-- How a connection is seen as a session.
unfoldable pub session : {W : Type 0} → Connection W → Session W
session (h, w) = record {
  timeout = h.readtimeout;
  by_silence = is_empty h.terminator;
  pending = pending_of h.buffer;
  idle = h.readtimer;
  replies = h.sent;
  world = w;
}

abbrev pub view : {A W : Type 0} → A × Connection W → A × Session W
view (r, c) = (r, session c)
