-- ===== src/Epics/Tests.antt =====
-- Examples for the EPICS driver: a device with a position, which is the world.
use lewis.Common.{
  ℕ, ltb, String, true, false, [], ◌∷◌, ok, err, limit_violation, ◌≡◌, refl, ◌⊎◌, if◌then◌else◌,
  not, ◌==◌ as same, All,
}
use lewis.Common.Int.{ℤ, pos}
use lewis.Common.Dict.{Dict, string_eq, beq_refl, ◌==◌}
use lewis.Core.Integers.{integers}
use lewis.Epics.Pv.{
  absent, is_property, Target, unspecified, named, Pv, BoundPv, on_target, bind_device, bind,
  get_target, create_accessor, get_value, set_value, unbound,
}
use lewis.Epics.Driver.{Pcaspy, thread_lock, write, process_pv_updates}
use lewis.Epics.Driver.Write.{Accepted, Rejected, write-Accepted}
use lewis.Epics.Driver.Publish.{PcaspyLaws, Readable, process_pv_updates-publishes}

-- Parameters are a function of the name; there are no fields.
abbrev Params : Type 0
Params = String → ℕ

abbrev pcaspy : Pcaspy Params ℕ
pcaspy = record {
  get_param = λ name ps. ps name;
  set_param = λ name v ps other. if name == other then v else ps other;
  info_differs = λ name m ps. false;
  set_param_info = λ name m ps. ps;
  update_pvs = λ ps. ps;
}

get_set : (name : String) (v : ℕ) (ps : Params) → (if name == name then v else ps name) ≡ v
get_set name v ps = rw (beq_refl name) refl

pcaspy_laws : PcaspyLaws Params ℕ pcaspy
pcaspy_laws = record {
  get_set = get_set;
  get_set_ne = λ name other v ps differs. rw differs refl;
  get_info = λ name other m ps. refl;
  get_update = λ name ps. refl;
}

-- "position" can be set up to 10, "speed" has no setter.
abbrev device : Target ℕ ℕ
device = record {
  find = λ n.
      if n == "position"
      then is_property true
      else if n == "speed"
      then is_property false
      else absent;
  getattr = λ n w. (ok w, w);
  setattr = λ n v w. if ltb 10 v then (err limit_violation, w) else (ok tt, v);
}

abbrev pv_of : String → Pv ℕ ℕ ℤ
pv_of n = record {
  value = (named n, unspecified);
  meta = (unspecified, unspecified);
  read_only = false;
  poll_interval = pos 1;
}

bound_test :
    (bind_device device device (("P", pv_of "position") ∷ ("S", pv_of "speed") ∷ [])).2
    ≡ (
      "P",
      record {
        value = on_target device "position";
        meta = unbound;
        read_only = false;
        poll_interval = pos 1;
      },
    )
      ∷ (
        "S",
        record {
          value = on_target device "speed";
          meta = unbound;
          read_only = true;
          poll_interval = pos 1;
        },
      )
      ∷ []
unfolding bind_device bind get_target create_accessor
bound_test = refl

abbrev bound_pvs : Dict String (BoundPv ℕ ℕ ℤ)
bound_pvs =
    (
      "P",
      record {
        value = on_target device "position";
        meta = unbound;
        read_only = false;
        poll_interval = pos 1;
      },
    )
    ∷ (
      "S",
      record {
        value = on_target device "speed";
        meta = unbound;
        read_only = true;
        poll_interval = pos 1;
      },
    )
    ∷ []

abbrev no_params : Params
no_params name = 0

written_test : (write pcaspy thread_lock bound_pvs "P" 7 no_params 1).0 ≡ ok true
unfolding write get_value set_value
written_test = refl

limit_test : (write pcaspy thread_lock bound_pvs "P" 11 no_params 1).0 ≡ ok false
unfolding write get_value set_value
limit_test = refl

read_only_test : (write pcaspy thread_lock bound_pvs "S" 7 no_params 1).0 ≡ ok false
unfolding write get_value set_value
read_only_test = refl

write-Accepted_example :
    Accepted pcaspy bound_pvs "P" 7 1 (write pcaspy thread_lock bound_pvs "P" 7 no_params 1)
    ⊎ Rejected pcaspy bound_pvs no_params (write pcaspy thread_lock bound_pvs "P" 7 no_params 1)
write-Accepted_example = write-Accepted pcaspy bound_pvs get_set thread_lock "P" 7 no_params 1

abbrev position : BoundPv ℕ ℕ ℤ
position = record {
  value = on_target device "position";
  meta = unbound;
  read_only = false;
  poll_interval = pos 1;
}

reads_position : get_value position 4 ≡ (ok 4, 4)
unfolding get_value
reads_position = refl

bound_pvs-Readable :
    All (λ i. Readable integers pcaspy (λ a b. not (same a b)) 0 (pos 0) 4 i.1) bound_pvs
unfolding get_value
bound_pvs-Readable = ((4, 0, refl, refl), ((4, 0, refl, refl), tt))

process_pv_updates-publishes_example :
    ((process_pv_updates integers pcaspy
        (λ a b. not (same a b))
        0
        true
        (pos 0)
        thread_lock
        bound_pvs
        no_params
        ([], 4)).0
      ≡ ok tt)
    × (pcaspy.get_param "P"
          (process_pv_updates integers pcaspy
            (λ a b. not (same a b))
            0
            true
            (pos 0)
            thread_lock
            bound_pvs
            no_params
            ([], 4)).1
        ≡ 4)
process_pv_updates-publishes_example =
    process_pv_updates-publishes integers pcaspy (λ a b. not (same a b)) 0 (pos 0) 4 pcaspy_laws
      bound_pvs no_params [] (refl, (refl, tt)) bound_pvs-Readable "P" position 4 refl
      reads_position
