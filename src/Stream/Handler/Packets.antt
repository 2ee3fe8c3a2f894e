-- ===== src/Stream/Handler/Packets.antt =====
-- How the bytes of a request come does not matter (lewis/adapters/stream.py): in which packets, and
-- with which polls of the server between them, as long as the request does not time out. That a
-- terminator may be split between packets is asynchat's affair.
use lewis.Common.{
  ℕ, ◌+◌, false, Option, some, List, [], ◌∷◌, ◌++◌, All, ◌≡◌, refl, sym, ◌∙◌, append-nil,
  append_assoc, leb, not, ◌&&◌, ◌==◌,
}
use lewis.Stream.Values.{Bytes}
use lewis.Stream.Handler.{Interface, Lock, no_lock, thread_lock, Connection}
use lewis.Stream.Handler.Session.{
  Event, received, terminated, elapsed, run, Session, pending_bytes, spec_step, spec_run, session,
  view,
}
use lewis.Stream.Handler.Session.Refinement.{run-refines}

-- A packet, and the times that the polls after it report.
abbrev pub Packet : Type 0
Packet = Bytes × (List ℕ)

-- No poll finds that the request has waited for the timeout; a timeout of 0 is none.
abbrev pub IsPrompt : (timeout idle : ℕ) → List ℕ → Type 0
IsPrompt timeout idle [] = Unit
IsPrompt timeout idle (msec ∷ polls) =
    ((leb timeout idle && not (timeout == 0)) ≡ false) × IsPrompt timeout (idle + msec) polls

abbrev pub contents : List Packet → Bytes
contents [] = []
contents ((b, polls) ∷ packets) = b ++ contents packets

module _ {O : Type 0} where
  abbrev polled : List ℕ → List (Event O) → List (Event O)
  polled [] es = es
  polled (msec ∷ polls) es = elapsed msec ∷ polled polls es

  -- The packets and polls, and what happens after them.
  abbrev pub arriving : List Packet → List (Event O) → List (Event O)
  arriving [] es = es
  arriving ((b, polls) ∷ packets) es = received b ∷ polled polls (arriving packets es)

-- A terminated request is dealt with by its bytes alone.
terminated_request :
    {O W : Type 0} (lock : Lock) (target : Interface O W) (s : Session W) (p p' : Option Bytes)
    (i i' : ℕ) (es : List (Event O))
    → pending_bytes p ≡ pending_bytes p'
    → spec_run lock target (terminated ∷ es) (record s { pending = p; idle = i })
      ≡ spec_run lock target (terminated ∷ es) (record s { pending = p'; idle = i' })
unfolding spec_run spec_step
terminated_request no_lock target s p p' i i' es e = refl
terminated_request thread_lock target s p p' i i' es e = rw e refl

module _ {O W : Type 0} (lock : Lock) (target : Interface O W) where
  -- Polls that come in time only count.
  prompt_polls :
      (s : Session W) (b : Bytes) (idle : ℕ) (polls : List ℕ) (es : List (Event O))
      → IsPrompt s.timeout idle polls
      → (later : ℕ) × (spec_run lock target
            (polled polls es)
            (record s { pending = some b; idle = idle })
          ≡ spec_run lock target es (record s { pending = some b; idle = later }))
  unfolding spec_run spec_step
  prompt_polls s b idle [] es prompt = (idle, refl)
  prompt_polls s b idle (msec ∷ polls) es prompt =
      let (later, e) = prompt_polls s b (idle + msec) polls es prompt.1 in (later, rw prompt.0 e)

  spec_packets :
      (packets : List Packet) (es : List (Event O)) (s : Session W)
      → All (λ packet. IsPrompt s.timeout 0 packet.1) packets
      → spec_run lock target (arriving packets (terminated ∷ es)) s
        ≡ spec_run lock target
            (terminated ∷ es)
            (record s { pending = some (pending_bytes s.pending ++ contents packets); idle = 0 })
  unfolding spec_run spec_step
  spec_packets [] es s prompt =
      terminated_request lock target s s.pending _ s.idle 0 es (sym (append-nil _))
  spec_packets ((b, polls) ∷ packets) es s prompt =
      let held = pending_bytes s.pending ++ b in
      let (later, e) = prompt_polls s held 0 polls (arriving packets (terminated ∷ es)) prompt.0 in
      e
      ∙ spec_packets packets es (record s { pending = some held; idle = later }) prompt.1
      ∙ terminated_request lock target s (some (held ++ contents packets))
          (some (pending_bytes s.pending ++ (b ++ contents packets))) 0 0 es
          (append_assoc (pending_bytes s.pending) b (contents packets))

  -- A request that arrives in packets, with polls of the server after each of them none of which
  -- finds it timed out, and is then terminated, is treated as if it had come at once and been terminated
  -- at once, whatever was pending before and whatever happens afterwards.
  pub packets-join :
      (packets : List Packet) (es : List (Event O)) (c : Connection W)
      → All (λ packet. IsPrompt c.0.readtimeout 0 packet.1) packets
      → view (run lock target (arriving packets (terminated ∷ es)) c)
        ≡ view (run lock target (received (contents packets) ∷ terminated ∷ es) c)
  unfolding spec_run spec_step session
  packets-join packets es c prompt =
      run-refines lock target (arriving packets (terminated ∷ es)) c
      ∙ spec_packets packets es (session c) prompt
      ∙ sym (run-refines lock target (received (contents packets) ∷ terminated ∷ es) c)
