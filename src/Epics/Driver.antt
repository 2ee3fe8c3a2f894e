-- ===== src/Epics/Driver.antt =====
-- `PropertyExposingDriver` of lewis/adapters/epics.py. The parameters of the server are kept by pcaspy,
-- whose methods are the record `Pcaspy`; the time since the last update is an argument.
pub mod Write
pub mod Publish
use lewis.Common.{
  String, Bool, true, false, Option, none, some, List, [], ◌∷◌, ◌++◌, Exn, Result, ok, err,
  attribute_error, type_error, runtime_error, limit_violation, access_violation, Exec, pure,
  continue, ◌>>=◌, if◌then◌else◌, ◌||◌,
}
use lewis.Common.Int.{pos}
use lewis.Common.Dict.{Dict, string_eq, get, insert}
use lewis.Core.Number.{Number, le}
use lewis.Epics.Pv.{BoundPv, get_value, set_value, read_meta}

-- `getParam`, `setParam`, `setParamInfo` and `updatePVs`, and whether the fields of a PV differ from
-- a dictionary.
pub record Pcaspy (P V : Type 0) : Type 0 where
  pub get_param : String → P → V
  pub set_param : String → V → P → P
  pub info_differs : String → V → P → Bool
  pub set_param_info : String → V → P → P
  pub update_pvs : P → P

-- `with self._device_lock`
pub data Lock : Type 0 where
  no_lock : Lock
  thread_lock : Lock

-- `except (LimitViolationException, AccessViolationException)`: the write is rejected.
abbrev pub rejected : Exn → Result Bool
rejected limit_violation = ok false
rejected access_violation = ok false
rejected x = err x

module _ {P V W : Type 0} (pcaspy : Pcaspy P V) where
  abbrev pub written : String → P → Result V × W → Result Bool × P × W
  written name ps (ok v, w) = (ok true, pcaspy.set_param name v ps, w)
  written name ps (err x, w) = (rejected x, ps, w)

module _ {P V W R : Type 0} (pcaspy : Pcaspy P V) where
  abbrev pub write_found : Lock → String → Option (BoundPv W V R) → V → P → W → Result Bool × P × W
  write_found lock name none v ps w = (ok false, ps, w)
  write_found no_lock name (some b) v ps w = (err runtime_error, ps, w)
  write_found thread_lock name (some b) v ps w =
      written pcaspy name ps ((set_value b v >>= (λ _. get_value b)) w)

  -- `write(pv, value)`, with `bound_pvs` of the interface
  unfoldable pub write :
      Lock → Dict String (BoundPv W V R) → String → V → P → W → Result Bool × P × W
  write lock bound_pvs name v ps w = write_found lock name (get name bound_pvs) v ps w

-- New values and new fields, by PV.
abbrev pub Updates : Type 0 → Type 0
Updates V = Dict String V × Dict String V

-- `except (AttributeError, TypeError)`: what was found before stays found.
abbrev pub swallow : {V : Type 0} → Exn → Updates V → Result (Updates V)
swallow attribute_error u = ok u
swallow type_error u = ok u
swallow x u = err x

module _ {P V : Type 0} (pcaspy : Pcaspy P V) (force : Bool) (ps : P) where
  abbrev pub meta_update : String → V → Dict String V
  meta_update name m = if pcaspy.info_differs name m ps || force then (name, m) ∷ [] else []

module _ {P V W : Type 0} (pcaspy : Pcaspy P V) (force : Bool) (ps : P) where
  abbrev pub with_meta : String → Dict String V → Result V × W → Result (Updates V) × W
  with_meta name vals (ok m, w) = (ok (vals, meta_update pcaspy force ps name m), w)
  with_meta name vals (err x, w) = (swallow x (vals, []), w)

module _ {P V W R : Type 0} (pcaspy : Pcaspy P V) (differs : V → V → Bool) (empty : V)
    (force : Bool) (ps : P) where
  abbrev value_update : String → BoundPv W V R → V → Exec W (Dict String V)
  value_update name b v =
      if differs (pcaspy.get_param name ps) v || force
      then get_value b >>= (λ again. pure ((name, again) ∷ []))
      else pure []

  abbrev after_value : String → BoundPv W V R → Result (Dict String V) × W → Result (Updates V) × W
  after_value name b (ok vals, w) = with_meta pcaspy force ps name vals (read_meta empty b.meta w)
  after_value name b (err x, w) = (swallow x ([], []), w)

  -- The `try` statement of `process_pv_updates`.
  abbrev pub check_pv : String → BoundPv W V R → Exec W (Updates V)
  check_pv name b w = after_value name b ((get_value b >>= value_update name b) w)

module _ {P V : Type 0} (pcaspy : Pcaspy P V) where
  abbrev pub set_params : Dict String V → P → P
  set_params [] ps = ps
  set_params (i ∷ is) ps = set_params is (pcaspy.set_param i.0 i.1 ps)

  -- `_process_value_updates`
  abbrev pub process_values : Dict String V → P → P
  process_values [] ps = ps
  process_values (i ∷ is) ps = pcaspy.update_pvs (set_params (i ∷ is) ps)

  -- `_process_meta_updates`
  abbrev pub process_metas : Dict String V → P → P
  process_metas [] ps = ps
  process_metas (i ∷ is) ps = process_metas is (pcaspy.set_param_info i.0 i.1 ps)

  abbrev pub apply_updates : {S : Type 0} → P → Result (Updates V) × S → Result (Unit {0}) × P × S
  apply_updates ps (ok u, s) = (ok tt, process_metas u.1 (process_values u.0 ps), s)
  apply_updates ps (err x, s) = (err x, ps, s)

-- The number that is behind a timer, or 0.
abbrev timer : (n : Number) → Option n.R → n.R
timer n none = n.int_of (pos 0)
timer n (some t) = t

module _ (n : Number) {P V W : Type 0} (pcaspy : Pcaspy P V) (differs : V → V → Bool) (empty : V)
    (force : Bool) (dt : n.R) where
  -- One PV: its timer is advanced, and reset when the PV is due.
  abbrev pub visit : P → String → BoundPv W V n.R → Exec (Dict String n.R × W) (Updates V)
  visit ps name b (timers, w) =
      let t = n.add (timer n (get name timers)) dt in
      let (r, w') = check_pv pcaspy differs empty force ps name b w in
      if le n b.poll_interval t || force
      then (r, (insert name (n.int_of (pos 0)) timers, w'))
      else (ok ([], []), (insert name t timers, w))

  abbrev pub visit_all : P → Dict String (BoundPv W V n.R) → Exec (Dict String n.R × W) (Updates V)
  visit_all ps [] = pure ([], [])
  visit_all ps (i ∷ is) =
      visit ps i.0 i.1 >>= (λ u. visit_all ps is >>= (λ us. pure (u.0 ++ us.0, u.1 ++ us.1)))

  unfoldable pub process_pv_updates :
      Lock
      → Dict String (BoundPv W V n.R)
      → P
      → Dict String n.R × W
      → Result (Unit {0}) × P × (Dict String n.R × W)
  process_pv_updates no_lock bound_pvs ps s = (err runtime_error, ps, s)
  process_pv_updates thread_lock bound_pvs ps s = apply_updates pcaspy ps (visit_all ps bound_pvs s)
