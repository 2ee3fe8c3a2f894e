-- ===== src/Stream/Handler/Session/Refinement.antt =====
-- A connection implements its session, whatever happens to it (lewis/adapters/stream.py).
use lewis.Common.{
  ℕ, Bool, true, false, none, List, [], ◌∷◌, Result, ok, err, runtime_error, Exec, continue,
  if◌then◌else◌, ◌≡◌, refl, ap, ◌∙◌, Bool-cases, inl, inr,
}
use lewis.Stream.Values.{Bytes, Value, reply_message}
use lewis.Stream.Handler.{
  Interface, Lock, no_lock, thread_lock, Handler, join, is_empty, Connection, push_reply,
  send_reply, on_world, with_lock, reply_to, found_terminator, collect_incoming_data,
  report_timeout, timed_out, count_time, process,
}
use lewis.Stream.Handler.Session.{
  Event, received, terminated, elapsed, unsolicited, step, run, Session, pending_bytes, answer,
  transact, reaction, spec_step, spec_run, session, view,
}
use lewis.Stream.Handler.Session.Views.{
  reply_to-respond, push-view, settled, answer-view, answer-buffer, pending_bytes-join,
  pending-append,
}

module _ {O W : Type 0} (target : Interface O W) where
  -- The lock is taken around `m`, and its result is sent.
  locked-view :
      (lock : Lock) (react : Bytes → Exec W (Value O)) (bs : List Bytes) (h : Handler) (w : W)
      → h.buffer ≡ bs
      → view (
          continue (send_reply target) (
            with_lock lock
              (on_world (react (join bs)))
              (record h { readtimer = 0; buffer = [] }, w)))
        ≡ transact lock target.out_terminator react (session (h, w))
  unfolding session
  locked-view no_lock react bs h w e = refl
  locked-view thread_lock react bs h w e =
      rw (e, pending_bytes-join bs)
        (answer-view target (react (join bs) w) (record h { readtimer = 0; buffer = [] }))

  locked-buffer :
      (lock : Lock) (m : Exec W (Value O)) (h : Handler) (w : W)
      → (continue (send_reply target) (with_lock lock (on_world m) (h, w))).1.0.buffer ≡ h.buffer
  locked-buffer no_lock m h w = refl
  locked-buffer thread_lock m h w = answer-buffer target (m w).0 h (m w).1

module _ {O W : Type 0} (lock : Lock) (target : Interface O W) where
  transact-ext :
      (react react' : Bytes → Exec W (Value O)) (s : Session W)
      → react (pending_bytes s.pending) s.world ≡ react' (pending_bytes s.pending) s.world
      → transact lock target.out_terminator react s ≡ transact lock target.out_terminator react' s
  transact-ext react react' s e =
      elim lock
        as (λ k.
          transact k target.out_terminator react s ≡ transact k target.out_terminator react' s) [
            | no_lock ↦ refl
            | thread_lock ↦
                ap (answer target.out_terminator (record s { pending = none; idle = 0 })) e
          ]

  found_terminator-view :
      (h : Handler) (w : W)
      → view (found_terminator lock target (h, w))
        ≡ spec_step lock target terminated (session (h, w))
  unfolding found_terminator spec_step
  found_terminator-view h w =
      locked-view target lock (reply_to target) h.buffer h w refl
      ∙ transact-ext (reply_to target) (reaction lock target true) (session (h, w))
          (reply_to-respond target target.bound_commands _ _)

  found_terminator-buffer :
      (h : Handler) (w : W) → (found_terminator lock target (h, w)).1.0.buffer ≡ []
  unfolding found_terminator
  found_terminator-buffer h w =
      locked-buffer target lock (reply_to target (join h.buffer))
        (record h { readtimer = 0; buffer = [] }) w

  report_timeout-buffer :
      (h : Handler) (w : W) → (report_timeout lock target (h, w)).1.0.buffer ≡ []
  report_timeout-buffer h w =
      locked-buffer target lock (target.handle_error (join h.buffer) runtime_error)
        (record h { readtimer = 0; buffer = [] }) w

  report_timeout-view :
      (h : Handler) (w : W)
      → view (report_timeout lock target (h, w))
        ≡ transact lock target.out_terminator (reaction lock target false) (session (h, w))
  report_timeout-view h w = locked-view target lock (reaction lock target false) h.buffer h w refl

  -- A pending request whose time is up.
  timeout-view :
      (h : Handler) (w : W) (msec : ℕ) (silent : Bool)
      → view (
          continue
            (λ _. count_time msec)
            (if silent
              then found_terminator lock target (h, w)
              else report_timeout lock target (h, w)))
        ≡ transact lock target.out_terminator (reaction lock target silent) (session (h, w))
  unfolding spec_step
  timeout-view h w msec true =
      ap view (settled (found_terminator lock target (h, w)) msec (found_terminator-buffer h w))
      ∙ found_terminator-view h w
  timeout-view h w msec false =
      ap view (settled (report_timeout lock target (h, w)) msec (report_timeout-buffer h w))
      ∙ report_timeout-view h w

  process-view :
      (bs : List Bytes) (h : Handler) (w : W) (msec : ℕ)
      → h.buffer ≡ bs
      → view (process lock target msec (h, w))
        ≡ spec_step lock target (elapsed msec) (session (h, w))
  unfolding process spec_step session
  process-view [] h w msec e = rw e refl
  process-view (b ∷ bs) h w msec e = elim (Bool-cases (timed_out h)) [
    | inl due ↦
        rw e (rw due (timeout-view (record h { buffer = b ∷ bs }) w msec (is_empty h.terminator)))
    | inr early ↦ rw e (rw early refl)
  ]

  -- Every step of a connection is a step of its session.
  step-view :
      (e : Event O) (c : Connection W)
      → view (step lock target e c) ≡ spec_step lock target e (session c)
  unfolding step spec_step session collect_incoming_data push_reply reply_message
  step-view (received b) (h, w) = rw (pending-append h.buffer b) refl
  step-view terminated (h, w) = found_terminator-view h w
  step-view (elapsed msec) (h, w) = process-view h.buffer h w msec refl
  step-view (unsolicited reply) (h, w) = push-view (reply_message reply target.out_terminator) h w

  continue-refines :
      (r : Result (Unit {0}) × Connection W) (next : Exec (Connection W) (Unit {0}))
      (spec_next : Exec (Session W) (Unit {0}))
      → ((c : Connection W) → view (next c) ≡ spec_next (session c))
      → view (continue (λ _. next) r) ≡ continue (λ _. spec_next) (view r)
  continue-refines (ok a, c) next spec_next refines = refines c
  continue-refines (err x, c) next spec_next refines = refl

  -- Whatever arrives at a connection, in whatever order, it does what its session does: its replies,
  -- the device and the exception that ends it, if any, are those of the specification.
  pub run-refines :
      (es : List (Event O)) (c : Connection W)
      → view (run lock target es c) ≡ spec_run lock target es (session c)
  unfolding run spec_run
  run-refines [] c = refl
  run-refines (e ∷ es) c =
      continue-refines (step lock target e c) (run lock target es) (spec_run lock target es)
        (run-refines es)
      ∙ ap (continue (λ _. spec_run lock target es)) (step-view e c)
