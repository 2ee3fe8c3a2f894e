-- ===== src/Control/Tests.antt =====
-- Examples for the control server and its client: an object with a method and a property.
use lewis.Common.{
  ℕ, ◌+◌, false, Option, none, some, List, [], ◌∷◌, ◌++◌, Result, ok, err, Exec, ◌>>◌, ◌≡◌, refl,
}
use lewis.Common.Dict.{contains}
use lewis.Control.Names.{Name, name_eq}
use lewis.Control.Server.{
  Reply, value, function, Exposed, Collection, add_object, remove_object, new_collection, dispatch,
}
use lewis.Control.Server.Objects.{remove-add_object}
use lewis.Control.Client.{
  Outcome, returned, raised, protocol_exception, Response, JsonRpc, make_request, proxy_prefix,
  property_name,
}
use lewis.Control.Client.Calls.{Carries, make_request-calls}

-- "run" adds its arguments' number to the world, "pos" is the world.
abbrev run_name : Name
run_name = 114 ∷ 117 ∷ 110 ∷ []

abbrev pos_name : Name
pos_name = 112 ∷ 111 ∷ 115 ∷ []

abbrev run_method : List ℕ → Exec ℕ (Reply ℕ)
run_method args w = (ok (value w), w + 1)

abbrev exposed : Exposed ℕ ℕ
exposed = record {
  class_name = 77 ∷ [];
  lock = λ m. m;
  function_map = (run_name, function run_method) ∷ [];
}

property_test : property_name (pos_name ++ (58 ∷ 103 ∷ 101 ∷ 116 ∷ [])) ≡ pos_name
unfolding property_name
property_test = refl

-- "dev"
abbrev device_name : Name
device_name = 100 ∷ 101 ∷ 118 ∷ []

abbrev empty : Collection ℕ ℕ
unfolding new_collection
empty = new_collection

no_objects : contains device_name empty.object_map ≡ false
unfolding empty
no_objects = refl

remove-add_object_example :
    (add_object exposed device_name >> remove_object device_name) empty ≡ (ok tt, empty)
unfolding empty
remove-add_object_example = remove-add_object exposed device_name empty refl (refl, (refl, tt))

-- A manager in the same process: every request has the id 7.
abbrev reply_with : Result (Reply ℕ) × ℕ → Outcome (Response ℕ × ℕ) × ℕ
reply_with (ok v, w) = (returned (record { id = some 7; result = some v; error = none }, 7), w)
reply_with (err x, w) = (raised protocol_exception, w)

abbrev serve_call : Option (Exec ℕ (Reply ℕ)) → ℕ → Outcome (Response ℕ × ℕ) × ℕ
serve_call none w = (raised protocol_exception, w)
serve_call (some call) w = reply_with (call w)

abbrev local_rpc : Collection ℕ ℕ → JsonRpc ℕ ℕ
local_rpc s m args w = serve_call (dispatch s m args) w

local_rpc-Carries : (s : Collection ℕ ℕ) → Carries (local_rpc s) s
local_rpc-Carries s m args call w w' v offers gives = (7, rw offers (rw gives refl))

make_request-calls_example :
    make_request
      (λ n. false)
      (local_rpc (add_object exposed device_name empty).1)
      (proxy_prefix device_name)
      run_name
      (5 ∷ [])
      3
    ≡ (returned (value 3), 4)
make_request-calls_example =
    make_request-calls (λ n. false) (local_rpc (add_object exposed device_name empty).1) exposed 100
      (101 ∷ 118 ∷ []) empty no_objects (refl, tt)
      (local_rpc-Carries (add_object exposed device_name empty).1) run_name run_method refl refl
      (5 ∷ []) 3 4 (value 3) refl
