-- ===== src/Devices/Builder.antt =====
-- `DeviceBuilder`, `DeviceRegistry` and `InterfaceBase` of lewis/core/devices.py. What `get_members` and
-- `get_submodules` find in a device module is the record `DeviceModule`. Types of devices are of type
-- `T`, types of interfaces `I`, protocols `K` and the constructor arguments of a device `P`.
pub mod Discovery
use lewis.Common.{
  ℕ, String, Bool, true, false, Option, none, some, List, [], ◌∷◌, ◌++◌, Exn, Result, ok, err,
  runtime_error, key_error, lewis_exception, attribute_error, Exec, continue, and_then, pure, raise,
  lift, ◌>>=◌, ◌>>◌, if◌then◌else◌, not,
}
use lewis.Common.Dict.{Keyed, string_eq, Dict, get, contains, insert, keys, member}

-- An entry of `setups`: a device type that is not given and one that is None are treated alike.
pub record Setup (T P : Type 0) : Type 0 where
  pub device_type : Option T
  pub parameters : Option P

-- A module of the package `setups`: what `getattr` finds; a device type may be given as None.
pub record SetupModule (T P : Type 0) : Type 0 where
  pub device_type : Option (Option T)
  pub parameters : Option P

pub record DeviceModule (T I P : Type 0) : Type 0 where
  pub device_members : List T
  pub devices_package : Option (List (List T))
  pub setups_package : Option (Dict String (SetupModule T P))
  pub interface_members : List I
  pub interfaces_package : Option (List (List I))

-- `_device_types`, `_setups` and `_interfaces`
pub record Builder (T I K P : Type 0) : Type 0 where
  pub device_types : List T
  pub setups : Dict String (Setup T P)
  pub interfaces : Dict K I

abbrev pub concat : {A : Type 0} → List (List A) → List A
concat [] = []
concat (xs ∷ xss) = xs ++ concat xss

abbrev pub in_package : {A : Type 0} → Option (List (List A)) → List A
in_package none = []
in_package (some xss) = concat xss

-- The only element of a list, if it has one element.
abbrev pub only : {A : Type 0} → List A → Option A
only [] = none
only (x ∷ []) = some x
only (x ∷ y ∷ xs) = none

abbrev pub or_else : {A : Type 0} → Option A → Option A → Option A
or_else none d = d
or_else (some x) d = some x

module _ {T I P : Type 0} where
  unfoldable pub discover_devices : DeviceModule T I P → List T
  discover_devices m = m.device_members ++ in_package m.devices_package

  unfoldable pub discovered_interfaces : DeviceModule T I P → List I
  discovered_interfaces m = in_package m.interfaces_package ++ m.interface_members

-- `getattr(…, default)`, or `get` of a dictionary with a default
abbrev pub given_or : {A : Type 0} → Option A → A → A
given_or none default = default
given_or (some a) default = a

module _ {T P : Type 0} where
  abbrev setup_of : Option T → P → SetupModule T P → Setup T P
  setup_of default empty m = record {
    device_type = given_or m.device_type default;
    parameters = some (given_or m.parameters empty);
  }

  -- The loop over the modules of the package `setups`.
  abbrev pub add_setups :
      Option T → P → Dict String (SetupModule T P) → Exec (Dict String (Setup T P)) (Unit {0})
  add_setups default empty [] setups = (ok tt, setups)
  add_setups default empty (i ∷ is) setups =
      let rest = add_setups default empty is (insert i.0 (setup_of default empty i.1) setups) in
      if contains i.0 setups then (err runtime_error, setups) else rest

  abbrev add_package :
      Option T
      → P
      → Option (Dict String (SetupModule T P))
      → Exec (Dict String (Setup T P)) (Unit {0})
  add_package default empty none = pure tt
  add_package default empty (some is) = add_setups default empty is

  abbrev add_default : Option T → Exec (Dict String (Setup T P)) (Unit {0})
  add_default default setups = (
    ok tt,
    if contains "default" setups
        then setups
        else insert "default" (record { device_type = default; parameters = none }) setups,
  )

  -- `_discover_setups`: the state is the dictionary `setups` of the device module, which is changed in
  -- place; where the module has none, it is a new one.
  unfoldable pub discover_setups :
      Option T
      → P
      → Option (Dict String (SetupModule T P))
      → Exec (Dict String (Setup T P)) (Unit {0})
  discover_setups default empty found = add_package default empty found >> add_default default

module _ {I K : Type 0} ⦃e : Keyed K⦄ (protocol : I → K) where
  abbrev pub add_interfaces : List I → Dict K I → Result (Dict K I)
  add_interfaces [] interfaces = ok interfaces
  add_interfaces (i ∷ is) interfaces =
      let rest = add_interfaces is (insert (protocol i) i interfaces) in
      if contains (protocol i) interfaces then err runtime_error else rest

  -- `_discover_interfaces`
  unfoldable pub discover_interfaces : {T P : Type 0} → DeviceModule T I P → Result (Dict K I)
  discover_interfaces m = add_interfaces (discovered_interfaces m) []

module _ {T I K P : Type 0} ⦃e : Keyed K⦄ (protocol : I → K) (empty : P) where
  abbrev with_interfaces : DeviceModule T I P → Exec (Dict String (Setup T P)) (Builder T I K P)
  with_interfaces m setups = (
    and_then (discover_interfaces protocol m) (λ interfaces.
        ok
          (record { device_types = discover_devices m; setups = setups; interfaces = interfaces })),
    setups,
  )

  -- `DeviceBuilder.__init__`
  unfoldable pub build : DeviceModule T I P → Exec (Dict String (Setup T P)) (Builder T I K P)
  build m =
      discover_setups (only (discover_devices m)) empty m.setups_package
      >>= (λ _. with_interfaces m)

module _ {T I K P D : Type 0} ⦃t : Keyed T⦄ (b : Builder T I K P) (empty : P)
    (construct : T → P → Result D) where
  -- `_create_device_instance`
  abbrev create_device_instance : Option T → P → Result D
  create_device_instance none p = err runtime_error
  create_device_instance (some d) p =
      if member d b.device_types then construct d p else err runtime_error

  -- `except RuntimeError: raise LewisException(…)`
  abbrev pub runtime_to_lewis : Result D → Result D
  runtime_to_lewis (ok d) = ok d
  runtime_to_lewis (err runtime_error) = err lewis_exception
  runtime_to_lewis (err x) = err x

  abbrev device_from : Option (Setup T P) → Result D
  device_from none = err lewis_exception
  device_from (some s) = runtime_to_lewis (
      create_device_instance (or_else s.device_type (only b.device_types))
        (given_or s.parameters empty))

  abbrev setup_name : Option String → String
  setup_name none = "default"
  setup_name (some n) = n

  unfoldable pub create_device : Option String → Result D
  create_device setup = device_from (get (setup_name setup) b.setups)

module _ {T I K P : Type 0} ⦃e : Keyed K⦄ (b : Builder T I K P) where
  -- The protocol that is asked for, or the only one; without either, the key is None, which is
  -- the protocol of an interface that defines none.
  abbrev chosen_protocol : K → Option K → K
  chosen_protocol no_protocol (some k) = k
  chosen_protocol no_protocol none = elim (only (keys b.interfaces)) [
    | none ↦ no_protocol
    | some k ↦ k
  ]

module _ {T I K P D : Type 0} ⦃e : Keyed K⦄ (b : Builder T I K P) where
  abbrev key_to_lewis : Result D → Result D
  key_to_lewis (ok d) = ok d
  key_to_lewis (err Exn.key_error) = err lewis_exception
  key_to_lewis (err x) = err x

  abbrev new_interface : (I → Result D) → Option I → Result D
  new_interface construct none = err Exn.key_error
  new_interface construct (some i) = construct i

  unfoldable pub create_interface : K → (I → Result D) → Option K → Result D
  create_interface no_protocol construct protocol =
      key_to_lewis
        (new_interface construct (get (chosen_protocol b no_protocol protocol) b.interfaces))

-- `DeviceRegistry.device_builder`
unfoldable pub device_builder : {B : Type 0} → Dict String B → String → Result B
device_builder devices name = elim (get name devices) [ none ↦ err lewis_exception | some b ↦ ok b ]
