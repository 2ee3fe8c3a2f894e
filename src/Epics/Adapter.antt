-- ===== src/Epics/Adapter.antt =====
-- `EpicsAdapter` of lewis/adapters/epics.py: the server and its driver. Creating the server and its PVs
-- is the parameter `create_pvs`, and what the server does in a cycle the parameter `serve`.
use lewis.Common.{
  String, Bool, true, false, Option, none, some, [], ◌∷◌, Exn, Result, ok, err, Exec, continue, ◌≡◌,
  refl,
}
use lewis.Common.Int.{pos}
use lewis.Common.Dict.{Dict, string_eq}
use lewis.Core.Number.{Number}
use lewis.Adapters.Class.{AdapterClass, AdapterLaws}
use lewis.Epics.Pv.{BoundPv}
use lewis.Epics.Driver.{Pcaspy, Lock, thread_lock, process_pv_updates}

-- The adapter, the PVs that its interface has bound, the device behind them, and the parameters that
-- pcaspy keeps. `driver` has the lock and the timers that the driver was made with.
pub record EpicsAdapter (n : Number) (P V W : Type 0) : Type 0 where
  pub protocol : String
  pub device_lock : Lock
  pub bound_pvs : Dict String (BoundPv W V n.R)
  pub has_server : Bool
  pub driver : Option (Lock × Dict String n.R)
  pub params : P
  pub world : W

module _ (n : Number) {W V : Type 0} where
  -- `{k: 0.0 for k in bound_pvs.keys()}`
  abbrev new_timers : Dict String (BoundPv W V n.R) → Dict String n.R
  new_timers [] = []
  new_timers (i ∷ is) = (i.0, n.int_of (pos 0)) ∷ new_timers is

module _ {n : Number} {P V W : Type 0} where
  unfoldable pub stop_server : Exec (EpicsAdapter n P V W) (Unit {0})
  stop_server a = (ok tt, record a { has_server = false; driver = none })

module _ {n : Number} {P V W : Type 0} (pcaspy : Pcaspy P V) (differs : V → V → Bool)
    (empty : V) where
  abbrev updated :
      EpicsAdapter n P V W
      → Lock
      → Result (Unit {0}) × P × (Dict String n.R × W)
      → Result (Unit {0}) × EpicsAdapter n P V W
  updated a lock r = (r.0, record a { params = r.1; driver = some (lock, r.2.0); world = r.2.1 })

  -- `self._driver.process_pv_updates(force)`; None has no such method.
  abbrev pub update_driver :
      (force : Bool) (dt : n.R)
      → Option (Lock × Dict String n.R)
      → Exec (EpicsAdapter n P V W) (Unit {0})
  update_driver force dt none a = (err Exn.attribute_error, a)
  update_driver force dt (some (lock, timers)) a = updated a lock (
      process_pv_updates n pcaspy differs empty force dt lock a.bound_pvs a.params
        (timers, a.world))

  -- The server stays set when what follows raises.
  abbrev pub with_server : Result P → Exec (EpicsAdapter n P V W) (Unit {0})
  with_server (err x) a = (err x, record a { has_server = true })
  with_server (ok ps) a =
      update_driver true (n.int_of (pos 0)) (some (a.device_lock, new_timers n a.bound_pvs))
        (record a {
          has_server = true;
          params = ps;
          driver = some (a.device_lock, new_timers n a.bound_pvs);
        })

  abbrev pub unless_server : (P → Result P) → Bool → Exec (EpicsAdapter n P V W) (Unit {0})
  unless_server create_pvs true a = (ok tt, a)
  unless_server create_pvs false a = with_server (create_pvs a.params) a

  unfoldable pub start_server : (P → Result P) → Exec (EpicsAdapter n P V W) (Unit {0})
  start_server create_pvs a = unless_server create_pvs a.has_server a

  abbrev handle_server :
      Exec (EpicsAdapter n P V W) (Unit {0})
      → (dt : n.R) → Bool
      → Exec (EpicsAdapter n P V W) (Unit {0})
  handle_server serve dt false a = (ok tt, a)
  handle_server serve dt true a = continue (λ _ b. update_driver false dt b.driver b) (serve a)

  unfoldable pub handle :
      Exec (EpicsAdapter n P V W) (Unit {0}) → (dt : n.R) → Exec (EpicsAdapter n P V W) (Unit {0})
  handle serve dt a = handle_server serve dt a.has_server a

  -- `is_running` is whether there is a server; the collection calls `handle` with a delay of 10 ms.
  abbrev pub epics_class :
      (P → Result P)
      → Exec (EpicsAdapter n P V W) (Unit {0})
      → (dt : n.R) → AdapterClass String (EpicsAdapter n P V W)
  epics_class create_pvs serve dt = record {
    protocol = λ a. a.protocol;
    give_lock = λ a. record a { device_lock = thread_lock };
    start_server = start_server create_pvs;
    stop_server = stop_server;
    is_running = λ a. a.has_server;
    handle = handle serve dt;
  }

  with_server_runs :
      (r : Result P) (a : EpicsAdapter n P V W)
      → ((with_server r a).1.has_server ≡ true) × ((with_server r a).1.protocol ≡ a.protocol)
  with_server_runs (err x) a = (refl, refl)
  with_server_runs (ok ps) a = (refl, refl)

  unless_server_runs :
      (create_pvs : P → Result P) (has : Bool) (a : EpicsAdapter n P V W)
      → a.has_server ≡ has
      → ((unless_server create_pvs has a).1.has_server ≡ true)
        × ((unless_server create_pvs has a).1.protocol ≡ a.protocol)
  unless_server_runs create_pvs true a e = (e, refl)
  unless_server_runs create_pvs false a e = with_server_runs (create_pvs a.params) a

  -- The EPICS adapter keeps what the base class asks for, whatever pcaspy does.
  pub epics_class-AdapterLaws :
      (create_pvs : P → Result P) (serve : Exec (EpicsAdapter n P V W) (Unit {0})) (dt : n.R)
      → AdapterLaws String (EpicsAdapter n P V W) (epics_class create_pvs serve dt)
  unfolding start_server stop_server
  epics_class-AdapterLaws create_pvs serve dt = record {
    start_runs = λ a done. (unless_server_runs create_pvs a.has_server a refl).0;
    stop_stops = λ a. refl;
    start_protocol = λ a. (unless_server_runs create_pvs a.has_server a refl).1;
    stop_protocol = λ a. refl;
    lock_protocol = λ a. refl;
  }
