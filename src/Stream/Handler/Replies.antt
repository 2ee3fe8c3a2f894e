-- ===== src/Stream/Handler/Replies.antt =====
-- Replies that do not fit the terminator (lewis/adapters/stream.py).
use lewis.Common.{ok, err, type_error, [], ◌≡◌, refl}
use lewis.Stream.Values.{
  Value, none_value, text, bytes, object, Terminator, text_terminator, bytes_terminator,
  reply_message,
}
use lewis.Stream.Handler.{
  Interface, thread_lock, Handler, join, Connection, push_reply, send_reply, reply_to,
  found_terminator,
}

-- One of the reply and the terminator is text, and the other bytes.
abbrev pub Mixed : {O : Type 0} → Value O → Terminator → Type 0
Mixed (text s) (bytes_terminator b) = Unit
Mixed (bytes b) (text_terminator t) = Unit
Mixed (text s) (text_terminator t) = ⊥
Mixed (bytes b) (bytes_terminator t) = ⊥
Mixed none_value t = ⊥
Mixed (object o) t = ⊥

reply_message-Mixed :
    {O : Type 0} (v : Value O) (t : Terminator) → Mixed v t → reply_message v t ≡ err type_error
unfolding reply_message
reply_message-Mixed (text s) (bytes_terminator b) m = refl
reply_message-Mixed (bytes b) (text_terminator t) m = refl
reply_message-Mixed (text s) (text_terminator t) m = absurd m
reply_message-Mixed (bytes b) (bytes_terminator t) m = absurd m
reply_message-Mixed none_value t m = absurd m
reply_message-Mixed (object o) t m = absurd m

module _ {O W : Type 0} (target : Interface O W) where
  send_reply-Mixed :
      (v : Value O) (c : Connection W)
      → Mixed v target.out_terminator
      → send_reply target v c ≡ (err type_error, c)
  unfolding push_reply
  send_reply-Mixed (text s) c m =
      rw (reply_message-Mixed {O = O} (text s) target.out_terminator m) refl
  send_reply-Mixed (bytes b) c m =
      rw (reply_message-Mixed {O = O} (bytes b) target.out_terminator m) refl
  send_reply-Mixed none_value c m = absurd m
  send_reply-Mixed (object o) c m = absurd m

  -- A request whose command succeeds with a text, where the terminator of replies is bytes (or the
  -- other way round), raises TypeError after the command took effect, and nothing is sent.
  pub found_terminator-raises :
      (h : Handler) (w w' : W) (reply : Value O)
      → reply_to target (join h.buffer) w ≡ (ok reply, w')
      → Mixed reply target.out_terminator
      → found_terminator thread_lock target (h, w)
        ≡ (err type_error, (record h { readtimer = 0; buffer = [] }, w'))
  unfolding found_terminator
  found_terminator-raises h w w' reply replies m =
      rw replies (send_reply-Mixed reply (record h { readtimer = 0; buffer = [] }, w') m)
