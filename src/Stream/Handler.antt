-- ===== src/Stream/Handler.antt =====
-- `StreamHandler` of lewis/adapters/stream.py: one connection. The object behind commands and errors
-- is the world `W`. What asynchat does with the socket is not modelled; it calls
-- `collect_incoming_data` and `found_terminator`, and takes what is pushed.
pub mod Session
pub mod Packets
pub mod Replies
use lewis.Common.{
  ℕ, ◌+◌, Bool, true, false, List, [], ◌∷◌, ◌++◌, Exn, Result, ok, err, runtime_error, type_error,
  Option, none, some, Exec, lift, pure, continue, ◌>>=◌, ◌>>◌, if◌then◌else◌, not, ◌&&◌, leb, ◌==◌,
}
use lewis.Stream.Values.{
  Bytes, Value, none_value, text, bytes, object, Terminator, encode_terminator, reply_message,
}
use lewis.Stream.Func.{Func, can_process, process_request}

-- `StreamInterface`, as far as a connection uses it; `handle_error` may be overridden.
pub record Interface (O W : Type 0) : Type 0 where
  pub in_terminator : Terminator
  pub out_terminator : Terminator
  pub readtimeout : ℕ
  pub bound_commands : Option (List (Func O W))
  pub handle_error : Bytes → Exn → Exec W (Value O)

-- `Adapter.device_lock`: a `NoLock` raises when it is entered.
pub data Lock : Type 0 where
  no_lock : Lock
  thread_lock : Lock

-- The terminator was given to asynchat. `sent` is what was pushed, the oldest message first.
pub record Handler : Type 0 where
  pub terminator : Bytes
  pub readtimeout : ℕ
  pub readtimer : ℕ
  pub buffer : List Bytes
  pub sent : List Bytes

abbrev pub join : List Bytes → Bytes
join [] = []
join (b ∷ bs) = b ++ join bs

abbrev pub is_empty : {A : Type 0} → List A → Bool
is_empty [] = true
is_empty (x ∷ xs) = false

-- The handler's own fields, and the device and interface.
abbrev pub Connection : Type 0 → Type 0
Connection W = Handler × W

abbrev pub timed_out : Handler → Bool
timed_out h = leb h.readtimeout h.readtimer && not (h.readtimeout == 0)

module _ {W : Type 0} where
  abbrev pub push : Bytes → Exec (Connection W) (Unit {0})
  push b (h, w) = (ok tt, (record h { sent = h.sent ++ (b ∷ []) }, w))

  unfoldable pub collect_incoming_data : Bytes → Connection W → Connection W
  collect_incoming_data received (h, w) =
      (record h { buffer = h.buffer ++ (received ∷ []); readtimer = 0 }, w)

  abbrev pub count_time : ℕ → Exec (Connection W) (Unit {0})
  count_time msec (h, w) = (
    ok tt,
    if is_empty h.buffer then (h, w) else (record h { readtimer = h.readtimer + msec }, w),
  )

module _ {O W : Type 0} where
  -- `StreamHandler.__init__`
  unfoldable pub new_handler : Interface O W → Result Handler
  new_handler target = elim (encode_terminator target.in_terminator) [
    | err e ↦ err e
    | ok t ↦ ok (record {
      terminator = t;
      readtimeout = target.readtimeout;
      readtimer = 0;
      buffer = [];
      sent = [];
    })
  ]

  -- `_push`; it is also `unsolicited_reply`
  unfoldable pub push_reply : Interface O W → Value O → Exec (Connection W) (Unit {0})
  push_reply target reply = lift (reply_message reply target.out_terminator) >>= push

  abbrev pub send_reply : Interface O W → Value O → Exec (Connection W) (Unit {0})
  send_reply target none_value = pure tt
  send_reply target (text s) = push_reply target (text s)
  send_reply target (bytes b) = push_reply target (bytes b)
  send_reply target (object o) = push_reply target (object o)

  -- What runs on the world leaves the handler as it is.
  abbrev pub on_world : Exec W (Value O) → Exec (Connection W) (Value O)
  on_world m (h, w) = let (r, w') = m w in (r, (h, w'))

  -- `with self._stream_server.device_lock:`
  abbrev pub with_lock : Lock → Exec (Connection W) (Value O) → Exec (Connection W) (Value O)
  with_lock no_lock m c = (err runtime_error, c)
  with_lock thread_lock m c = m c

  -- `next((cmd for cmd in bound_commands if cmd.can_process(request)), None)`, and what is done with it
  unfoldable pub process_first : List (Func O W) → Bytes → Exec W (Value O)
  process_first [] request w = (err runtime_error, w)
  process_first (f ∷ fs) request w =
      let others = process_first fs request w in
      if can_process f request then process_request f request w else others

  -- `except Exception as error: reply = self._handle_error(request, error)`
  abbrev pub or_handle_error :
      (Bytes → Exn → Exec W (Value O)) → Bytes → Result (Value O) × W → Result (Value O) × W
  or_handle_error handle_error request (ok v, w) = (ok v, w)
  or_handle_error handle_error request (err e, w) = handle_error request e w

  -- Before a device is bound, `bound_commands` is None, over which no loop runs.
  abbrev pub process_bound : Option (List (Func O W)) → Bytes → Exec W (Value O)
  process_bound none request w = (err type_error, w)
  process_bound (some fs) request w = process_first fs request w

  abbrev pub reply_to : Interface O W → Bytes → Exec W (Value O)
  reply_to target request w =
      or_handle_error target.handle_error request (process_bound target.bound_commands request w)

  unfoldable pub found_terminator : Lock → Interface O W → Exec (Connection W) (Unit {0})
  found_terminator lock target (h, w) =
      let request = join h.buffer in
      (with_lock lock (on_world (reply_to target request)) >>= send_reply target)
        (record h { readtimer = 0; buffer = [] }, w)

  abbrev pub report_timeout : Lock → Interface O W → Exec (Connection W) (Unit {0})
  report_timeout lock target (h, w) =
      let request = join h.buffer in
      (with_lock lock (on_world (target.handle_error request runtime_error)) >>= send_reply target)
        (record h { readtimer = 0; buffer = [] }, w)

  abbrev pub check_timeout : Lock → Interface O W → Exec (Connection W) (Unit {0})
  check_timeout lock target (h, w) =
      if timed_out h
      then (if is_empty h.terminator
          then found_terminator lock target (h, w)
          else report_timeout lock target (h, w))
      else (ok tt, (h, w))

  -- `StreamHandler.process`
  unfoldable pub process : Lock → Interface O W → ℕ → Exec (Connection W) (Unit {0})
  process lock target msec (h, w) =
      if is_empty h.buffer
      then (ok tt, (h, w))
      else (check_timeout lock target >> count_time msec) (h, w)
