-- ===== src/Devices/Setups.antt =====
-- Switching setups: `InterfaceBase.device` of lewis/core/devices.py, `AdapterCollection.set_device` of
-- lewis/core/adapters.py and `Simulation.switch_setup` of lewis/core/simulation.py. The constructor of
-- the device builder's setup is the parameter `create_device`, `_bind_device` the parameter `bind`.
pub mod Rebound
use lewis.Common.{ℕ, String, Option, none, some, List, map, Result, ok, err, Exn, Exec, continue}
use lewis.Common.Dict.{Dict}
use lewis.Core.Number.{Number}
use lewis.Core.Simulation.{Simulation}
use lewis.Adapters.Collection.{Collection, assign, for_each}

-- The device that an interface refers to, and what the interface binds to it.
pub record InterfaceBase (D B : Type 0) : Type 0 where
  pub device : Option D
  pub bindings : B

module _ {D B : Type 0} where
  -- `InterfaceBase.__init__`
  abbrev pub interface_base : B → InterfaceBase D B
  interface_base b = record { device = none; bindings = b }

  -- The setter of `device`: the device is assigned before it is bound.
  abbrev pub set_interface_device :
      (D → Exec B (Unit {0})) → D → Exec (InterfaceBase D B) (Unit {0})
  set_interface_device bind new i =
      ((bind new i.bindings).0, record { device = some new; bindings = (bind new i.bindings).1 })

-- The interface of an adapter.
pub record Slot (A D B : Type 0) : Type 0 where
  pub interface : A → InterfaceBase D B
  pub with_interface : InterfaceBase D B → A → A

-- `self._adapters.values()`
abbrev pub values : {K : Type 0} → Dict K ℕ → List ℕ
values d = map (λ p. p.1) d

module _ {K A D B : Type 0} (slot : Slot A D B) (bind : D → Exec B (Unit {0})) where
  -- `adapter.interface.device = new_device`
  abbrev pub rebind : D → ℕ → Exec (Collection K A) (Unit {0})
  rebind new i s =
      let after = set_interface_device bind new (slot.interface (s.store i)) in
      (after.0, record s { store = assign i (slot.with_interface after.1 (s.store i)) s.store })

  unfoldable pub set_device : D → Exec (Collection K A) (Unit {0})
  set_device new s = for_each (rebind new) (values s.adapters) s

-- The objects of a simulation.
pub record Parts (K A D : Type 0) : Type 0 where
  pub device : D
  pub adapters : Collection K A

module _ {n : Number} {K A D B : Type 0} (slot : Slot A D B) (bind : D → Exec B (Unit {0})) where
  abbrev pub with_device : D → Exec (Simulation n (Parts K A D)) (Unit {0})
  with_device new s =
      let after = set_device slot bind new s.device.adapters in
      (after.0, record s { device = record { device = new; adapters = after.1 } })

  abbrev pub with_created : Result D → Exec (Simulation n (Parts K A D)) (Unit {0})
  with_created (ok new) s = with_device new s
  with_created (err x) s = (err x, s)

  abbrev pub with_builder :
      Option (Option String → Result D)
      → Option String
      → Exec (Simulation n (Parts K A D)) (Unit {0})
  with_builder none new_setup s = (err Exn.attribute_error, s)
  with_builder (some create_device) new_setup s = with_created (create_device new_setup) s

  -- What is raised is logged and raised again.
  unfoldable pub switch_setup :
      Option (Option String → Result D)
      → Option String
      → Exec (Simulation n (Parts K A D)) (Unit {0})
  switch_setup builder new_setup s = with_builder builder new_setup s
