-- ===== src/Epics/Driver/Write.antt =====
-- Writes to PVs (lewis/adapters/epics.py).
use lewis.Common.{
  String, Bool, true, false, Option, none, some, Exn, Result, ok, err, limit_violation,
  access_violation, continue, ◌≡◌, ◌≢◌, refl, ◌⊎◌, inl, inr, Bool-cases, runtime_error,
}
use lewis.Common.Dict.{Dict, string_eq, get}
use lewis.Epics.Pv.{BoundPv, get_value, set_value}
use lewis.Epics.Driver.{Pcaspy, Lock, no_lock, thread_lock, write, write_found, written, rejected}

false-true : ◌≡◌ {A = Result Bool} (ok false) (ok true) → ⊥
false-true h = cc

module _ {P V W R : Type 0} (pcaspy : Pcaspy P V) (bound_pvs : Dict String (BoundPv W V R)) where
  -- The write was carried out: the PV can be written, it accepted the value, and the parameter of the
  -- server is what the PV reads afterwards.
  abbrev pub Accepted : String → V → W → Result Bool × P × W → Type 0
  Accepted name v w (r, ps, w') =
      (b : BoundPv W V R) × (between : W) × (seen : V) × ((r ≡ ok true)
        × (get name bound_pvs ≡ some b)
        × (b.read_only ≡ false)
        × (set_value b v w ≡ (ok tt, between))
        × (get_value b between ≡ (ok seen, w'))
        × (pcaspy.get_param name ps ≡ seen))

  -- The write was rejected or raised: the parameters of the server are as before.
  abbrev pub Rejected : P → Result Bool × P × W → Type 0
  Rejected before (r, ps, w') = (r ≢ ok true) × (ps ≡ before)

  rejected_not_true : (x : Exn) → rejected x ≢ ok true
  rejected_not_true limit_violation h = cc
  rejected_not_true access_violation h = cc
  rejected_not_true x h = cc

  module _
      (laws : (name : String) (v : V) (ps : P)
        → pcaspy.get_param name (pcaspy.set_param name v ps) ≡ v) where
    -- The results of assigning and of reading back.
    read_back :
        (name : String) (b : BoundPv W V R) (v : V) (ps : P) (w between : W)
        → get name bound_pvs ≡ some b
        → b.read_only ≡ false
        → set_value b v w ≡ (ok tt, between)
        → (r : Result V × W) → get_value b between ≡ r
        → Accepted name v w (written pcaspy name ps r) ⊎ Rejected ps (written pcaspy name ps r)
    read_back name b v ps w between found writable assigned (ok seen, w') reads =
        inl (b, between, seen, (refl, found, writable, assigned, reads, laws name seen ps))
    read_back name b v ps w between found writable assigned (err x, w') reads =
        inr (rejected_not_true x, refl)

    after_set :
        (name : String) (b : BoundPv W V R) (v : V) (ps : P) (w : W)
        → get name bound_pvs ≡ some b
        → b.read_only ≡ false
        → (r : Result (Unit {0}) × W) → set_value b v w ≡ r
        → Accepted name v w (written pcaspy name ps (continue (λ _. get_value b) r))
          ⊎ Rejected ps (written pcaspy name ps (continue (λ _. get_value b) r))
    after_set name b v ps w found writable (ok u, between) assigned =
        read_back name b v ps w between found writable assigned (get_value b between) refl
    after_set name b v ps w found writable (err x, w') assigned = inr (rejected_not_true x, refl)

    refused :
        (name : String) (b : BoundPv W V R) (v : V) (ps : P) (w : W)
        → b.read_only ≡ true
        → Rejected ps (written pcaspy name ps (continue (λ _. get_value b) (set_value b v w)))
    unfolding set_value
    refused name b v ps w closed = rw closed (rejected_not_true access_violation, refl)

    found-Accepted :
        (lock : Lock) (name : String) (o : Option (BoundPv W V R)) (v : V) (ps : P) (w : W)
        → get name bound_pvs ≡ o
        → Accepted name v w (write_found pcaspy lock name o v ps w)
          ⊎ Rejected ps (write_found pcaspy lock name o v ps w)
    found-Accepted lock name none v ps w found = inr ((λ h. false-true h), refl)
    found-Accepted no_lock name (some b) v ps w found = inr (rejected_not_true runtime_error, refl)
    found-Accepted thread_lock name (some b) v ps w found = elim (Bool-cases b.read_only) [
      | inl closed ↦ inr (refused name b v ps w closed)
      | inr writable ↦ after_set name b v ps w found writable (set_value b v w) refl
    ]

    -- Every write either is carried out, and the server then shows what the PV reads, or it is
    -- rejected or raises, and the server shows what it did before.
    pub write-Accepted :
        (lock : Lock) (name : String) (v : V) (ps : P) (w : W)
        → Accepted name v w (write pcaspy lock bound_pvs name v ps w)
          ⊎ Rejected ps (write pcaspy lock bound_pvs name v ps w)
    unfolding write
    write-Accepted lock name v ps w = found-Accepted lock name (get name bound_pvs) v ps w refl
