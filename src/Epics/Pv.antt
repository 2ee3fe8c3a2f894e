-- ===== src/Epics/Pv.antt =====
-- `PV`, `BoundPV` and `EpicsInterface._bind_device` of lewis/adapters/epics.py. Values are of type `V`,
-- the world `W` is the device and its interface, and times are of type `R`. The arguments that are
-- forwarded to pcaspy and the documentation are left out.
use lewis.Common.{
  ℕ, String, Bool, true, false, Option, none, some, List, [], ◌∷◌, Result, ok, err, type_error,
  runtime_error, attribute_error, lewis_exception, access_violation, Exec, raise, pure, continue,
  and_then, ◌>>=◌, if◌then◌else◌, not, ◌==◌, ◌||◌,
}
use lewis.Common.Dict.{Dict, string_eq, insert}

-- A callable: its number of arguments without a default, `self` not counted, and what a call does.
pub record Callable (W V : Type 0) : Type 0 where
  pub n_args : ℕ
  pub call : List V → Exec W V

-- What a target has under a name: nothing, a property (with a setter or not), another attribute that is
-- not callable, or a method.
pub data Member (W V : Type 0) : Type 0 where
  absent : Member W V
  is_property : (settable : Bool) → Member W V
  plain : Member W V
  method : Callable W V → Member W V

-- The interface or the device.
pub record Target (W V : Type 0) : Type 0 where
  pub find : String → Member W V
  pub getattr : String → Exec W V
  pub setattr : String → V → Exec W (Unit {0})

-- A getter or a setter as it is specified.
pub data Accessor (W V : Type 0) : Type 0 where
  unspecified : Accessor W V
  named : String → Accessor W V
  function : Callable W V → Accessor W V

-- `PV`: `_specifications` as pairs of a getter and a setter, and the fields that binding changes
-- (`read_only`) or keeps (`poll_interval`).
pub record Pv (W V R : Type 0) : Type 0 where
  pub value : Accessor W V × Accessor W V
  pub meta : Accessor W V × Accessor W V
  pub read_only : Bool
  pub poll_interval : R

-- The object that a bound PV uses: none, a target with the name of the attribute on it, or a wrapper
-- around a getter and a setter.
pub data BoundTo (W V : Type 0) : Type 0 where
  unbound : BoundTo W V
  on_target : Target W V → String → BoundTo W V
  wrapper : Option (Callable W V) → Option (Callable W V) → BoundTo W V

pub record BoundPv (W V R : Type 0) : Type 0 where
  pub value : BoundTo W V
  pub meta : BoundTo W V
  pub read_only : Bool
  pub poll_interval : R

module _ {W V : Type 0} where
  abbrev call_getter : Option (Callable W V) → Exec W V
  call_getter none = raise attribute_error
  call_getter (some f) = f.call []

  abbrev call_setter : Option (Callable W V) → V → Exec W (Unit {0})
  call_setter none v = raise attribute_error
  call_setter (some f) v = f.call (v ∷ []) >>= (λ _. pure tt)

  -- Reading the attribute of what was bound; None has no such attribute.
  abbrev pub read_bound : BoundTo W V → Exec W V
  read_bound unbound = raise attribute_error
  read_bound (on_target t n) = t.getattr n
  read_bound (wrapper getter setter) = call_getter getter

  abbrev pub write_bound : BoundTo W V → V → Exec W (Unit {0})
  write_bound unbound v = raise attribute_error
  write_bound (on_target t n) v = t.setattr n v
  write_bound (wrapper getter setter) v = call_setter setter v

  -- `BoundPV.meta`: an empty dictionary, which is `empty`, where nothing is bound
  abbrev pub read_meta : V → BoundTo W V → Exec W V
  read_meta empty unbound = pure empty
  read_meta empty (on_target t n) = t.getattr n
  read_meta empty (wrapper getter setter) = call_getter getter

module _ {W V R : Type 0} where
  -- The property `value` of `BoundPV`, and its setter.
  unfoldable pub get_value : BoundPv W V R → Exec W V
  get_value b = read_bound b.value

  unfoldable pub set_value : BoundPv W V R → V → Exec W (Unit {0})
  set_value b v = if b.read_only then raise access_violation else write_bound b.value v

module _ {W V : Type 0} where
  abbrev is_value : Member W V → Bool
  is_value absent = false
  is_value (is_property settable) = true
  is_value plain = true
  is_value (method f) = false

  -- The first target that has a property or another value of that name.
  abbrev value_target : String → List (Target W V) → Option (Target W V)
  value_target n [] = none
  value_target n (t ∷ ts) = if is_value (t.find n) then some t else value_target n ts

  abbrev named_target : Accessor W V → List (Target W V) → Option (String × Target W V)
  named_target unspecified ts = none
  named_target (function f) ts = none
  named_target (named n) ts = elim (value_target n ts) [ none ↦ none | some t ↦ some (n, t) ]

  -- `_get_callable` for a name: the member of the first target that has one. What is not callable
  -- raises TypeError when its arguments are counted.
  abbrev named_callable : String → List (Target W V) → Result (Callable W V)
  named_callable n [] = err attribute_error
  named_callable n (t ∷ ts) = elim (t.find n) [
    | absent ↦ named_callable n ts
    | is_property settable ↦ err type_error
    | plain ↦ err type_error
    | method f ↦ ok f
  ]

  abbrev with_n_args : ℕ → Callable W V → Result (Option (Callable W V))
  with_n_args n f = if f.n_args == n then ok (some f) else err runtime_error

  -- `_create_getter` and `_create_setter`, for 0 and 1 arguments
  unfoldable pub create_accessor :
      ℕ → Accessor W V → List (Target W V) → Result (Option (Callable W V))
  create_accessor n unspecified ts = ok none
  create_accessor n (function f) ts = with_n_args n f
  create_accessor n (named name) ts = and_then (named_callable name ts) (with_n_args n)

  abbrev wrapped : Option (Callable W V) → Option (Callable W V) → BoundTo W V
  wrapped none none = unbound
  wrapped none (some g) = wrapper none (some g)
  wrapped (some f) setter = wrapper (some f) setter

  abbrev create_wrapper : Accessor W V → Accessor W V → List (Target W V) → Result (BoundTo W V)
  create_wrapper getter setter ts =
      and_then (create_accessor 0 getter ts)
        (λ f. and_then (create_accessor 1 setter ts) (λ g. ok (wrapped f g)))

  abbrev bound_target : Option (String × Target W V) → Result (BoundTo W V) → Result (BoundTo W V)
  bound_target (some (n, t)) other = ok (on_target t n)
  bound_target none other = other

  -- `_get_target`
  unfoldable pub get_target : Accessor W V × Accessor W V → List (Target W V) → Result (BoundTo W V)
  get_target (getter, setter) ts =
      bound_target (named_target getter ts) (create_wrapper getter setter ts)

  abbrev no_setter : Member W V → Bool
  no_setter absent = false
  no_setter (is_property settable) = not settable
  no_setter plain = false
  no_setter (method f) = false

  -- Where `_get_target` sets `read_only` for the value. What is not bound at all stays as it is.
  abbrev pub makes_read_only : BoundTo W V → Bool
  makes_read_only unbound = false
  makes_read_only (on_target t n) = no_setter (t.find n)
  makes_read_only (wrapper getter none) = true
  makes_read_only (wrapper getter (some g)) = false

module _ {W V R : Type 0} where
  abbrev bind_meta : BoundTo W V → List (Target W V) → Exec (Pv W V R) (BoundPv W V R)
  bind_meta value ts p =
      let read_only = p.read_only || makes_read_only value in
      (
        and_then (get_target p.meta ts) (λ meta. ok (record {
          value = value;
          meta = meta;
          read_only = read_only;
          poll_interval = p.poll_interval;
        })),
        record p { read_only = read_only },
      )

  -- `PV.bind`; `read_only` stays set in the PV for bindings to come.
  unfoldable pub bind : List (Target W V) → Exec (Pv W V R) (BoundPv W V R)
  bind ts p = continue (λ value. bind_meta value ts) (get_target p.value ts, p)

  -- `except (AttributeError, RuntimeError): raise LewisException(…)`
  abbrev bind_error : Result (BoundPv W V R) → Result (BoundPv W V R)
  bind_error (ok b) = ok b
  bind_error (err attribute_error) = err lewis_exception
  bind_error (err runtime_error) = err lewis_exception
  bind_error (err x) = err x

  -- The loop of `_bind_device`: the PVs as they are left, and what was bound.
  abbrev pub bind_each :
      Target W V
      → Target W V
      → Dict String (Pv W V R)
      → Dict String (BoundPv W V R)
      → Result (Unit {0}) × (Dict String (Pv W V R)) × (Dict String (BoundPv W V R))
  bind_each interface device [] bound = (ok tt, [], bound)
  bind_each interface device ((name, p) ∷ ps) bound =
      let (r, p') = bind (interface ∷ device ∷ []) p in
      elim (bind_error r) [
        | err x ↦ (err x, (name, p') ∷ ps, bound)
        | ok b ↦
            let (r', ps', bound') = bind_each interface device ps (insert name b bound) in
            (r', (name, p') ∷ ps', bound')
      ]

  unfoldable pub bind_device :
      Target W V
      → Target W V
      → Dict String (Pv W V R)
      → Result (Unit {0}) × (Dict String (Pv W V R)) × (Dict String (BoundPv W V R))
  bind_device interface device pvs = bind_each interface device pvs []
