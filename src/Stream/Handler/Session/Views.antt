-- ===== src/Stream/Handler/Session/Views.antt =====
-- How sending and receiving on a connection are seen in its session (lewis/adapters/stream.py).
use lewis.Common.{
  ℕ, Option, none, some, List, [], ◌∷◌, ◌++◌, Result, ok, err, continue, ◌≡◌, refl, ap, sym,
  Bool-cases, inl, inr, append_assoc, append-nil, and_then,
}
use lewis.Stream.Values.{Bytes, Value, none_value, text, bytes, object, reply_message}
use lewis.Stream.Func.{Func, can_process}
use lewis.Stream.Handler.{
  Interface, Handler, join, Connection, push_reply, send_reply, push, process_first,
  or_handle_error, process_bound, count_time,
}
use lewis.Stream.Handler.Session.{
  pending_bytes, select, attempt, respond, message, post, answer, pending_of, session, view,
}

module _ {O W : Type 0} where
  process_first-select :
      (fs : List (Func O W)) (request : Bytes) (w : W)
      → process_first fs request w ≡ attempt (select fs request) request w
  unfolding process_first
  process_first-select [] request w = refl
  process_first-select (f ∷ fs) request w = elim (Bool-cases (can_process f request)) [
    | inl fits ↦ rw fits refl
    | inr fails ↦ rw fails (process_first-select fs request w)
  ]

  pub reply_to-respond :
      (target : Interface O W) (fs : Option (List (Func O W))) (request : Bytes) (w : W)
      → or_handle_error target.handle_error request (process_bound fs request w)
        ≡ respond target fs request w
  reply_to-respond target none request w = refl
  reply_to-respond target (some fs) request w =
      ap (or_handle_error target.handle_error request) (process_first-select fs request w)

module _ {W : Type 0} where
  pub push-view :
      (r : Result Bytes) (h : Handler) (w : W)
      → view (continue push (r, (h, w))) ≡ post (session (h, w)) (and_then r (λ b. ok (b ∷ [])))
  unfolding session
  push-view (ok b) h w = refl
  push-view (err e) h w = refl

  push-buffer :
      (r : Result Bytes) (h : Handler) (w : W) → (continue push (r, (h, w))).1.0.buffer ≡ h.buffer
  push-buffer (ok b) h w = refl
  push-buffer (err e) h w = refl

  pub settled :
      (r : Result (Unit {0}) × Connection W) (msec : ℕ)
      → r.1.0.buffer ≡ []
      → continue (λ _. count_time msec) r ≡ r
  settled (ok a, (h, w)) msec empty = rw empty refl
  settled (err e, c) msec empty = refl

module _ {O W : Type 0} (target : Interface O W) where
  send-view :
      (v : Value O) (h : Handler) (w : W)
      → view (send_reply target v (h, w)) ≡ post (session (h, w)) (message target.out_terminator v)
  unfolding session push_reply
  send-view none_value h w = rw (append-nil h.sent)
  send-view (text s) h w = push-view (reply_message {O = O} (text s) target.out_terminator) h w
  send-view (bytes s) h w = push-view (reply_message {O = O} (bytes s) target.out_terminator) h w
  send-view (object o) h w = push-view (reply_message (object o) target.out_terminator) h w

  send-buffer :
      (v : Value O) (h : Handler) (w : W) → (send_reply target v (h, w)).1.0.buffer ≡ h.buffer
  unfolding push_reply
  send-buffer none_value h w = refl
  send-buffer (text s) h w = push-buffer (reply_message {O = O} (text s) target.out_terminator) h w
  send-buffer (bytes s) h w =
      push-buffer (reply_message {O = O} (bytes s) target.out_terminator) h w
  send-buffer (object o) h w = push-buffer (reply_message (object o) target.out_terminator) h w

  pub answer-view :
      (r : Result (Value O) × W) (h : Handler)
      → view (continue (send_reply target) (r.0, (h, r.1)))
        ≡ answer target.out_terminator (session (h, r.1)) r
  unfolding session
  answer-view (ok v, w) h = send-view v h w
  answer-view (err e, w) h = refl

  pub answer-buffer :
      (r : Result (Value O)) (h : Handler) (w : W)
      → (continue (send_reply target) (r, (h, w))).1.0.buffer ≡ h.buffer
  answer-buffer (ok v) h w = send-buffer v h w
  answer-buffer (err e) h w = refl

pub pending_bytes-join : (bs : List Bytes) → pending_bytes (pending_of bs) ≡ join bs
pending_bytes-join [] = refl
pending_bytes-join (b ∷ bs) = refl

join-append : (bs : List Bytes) (b : Bytes) → join (bs ++ (b ∷ [])) ≡ join bs ++ b
join-append [] b = append-nil b
join-append (x ∷ bs) b = rw (join-append bs b) (sym (append_assoc x (join bs) b))

pub pending-append :
    (bs : List Bytes) (b : Bytes)
    → pending_of (bs ++ (b ∷ [])) ≡ some (pending_bytes (pending_of bs) ++ b)
pending-append [] b = ap some (join-append [] b)
pending-append (x ∷ bs) b = ap some (join-append (x ∷ bs) b)
