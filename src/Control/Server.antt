-- ===== src/Control/Server.antt =====
-- `ExposedObject` and `ExposedObjectCollection` of lewis/core/control_server.py. Values that go over
-- the wire are of type `V`, and calls act on the world `W`. Objects that are added to a collection are
-- exposed objects that are no collections themselves, so their API does not change.
pub mod Keys
pub mod Objects
use lewis.Common.{
  ℕ, Bool, true, false, Option, none, some, List, [], ◌∷◌, ◌++◌, Result, ok, err, type_error,
  runtime_error, attribute_error, key_error, Exec, and_then, if◌then◌else◌, not, ◌||◌,
}
use lewis.Common.Dict.{Dict, get, contains, insert, delete, keys, member}
use lewis.Control.Names.{
  Name, name_eq, startswith, colon, dot, underscore, api_name, get_suffix, set_suffix,
  get_objects_name,
}

-- What a call returns: a value of the object, the dictionary of `get_api`, or a list of names.
pub data Reply (V : Type 0) : Type 0 where
  value : V → Reply V
  api : (class_name : Name) (methods : List Name) → Reply V
  names : List Name → Reply V

abbrev pub Function : Type 0 → Type 0 → Type 0
Function W V = List V → Exec W (Reply V)

-- What probing a member finds: nothing, something that can be called, or else a property.
pub data Member (W V : Type 0) : Type 0 where
  missing : Member W V
  method : (List V → Exec W (Reply V)) → Member W V
  attribute : (read : Exec W (Reply V)) (assign : V → Exec W (Reply V)) → Member W V

-- An object: its class, `dir(obj)`, the members that its base classes list, and what is behind a name.
pub record Object (W V : Type 0) : Type 0 where
  pub class_name : Name
  pub dir : List Name
  pub inherited : List Name
  pub find : Name → Member W V

-- The entry `:api` is computed from the map at the time of the call, and `get_objects` from the objects.
pub data Entry (W V : Type 0) : Type 0 where
  function : (List V → Exec W (Reply V)) → Entry W V
  own_api : Entry W V
  own_objects : Entry W V

-- `lock` is the context that the functions run in; it is the identity where there is no lock.
pub record Exposed (W V : Type 0) : Type 0 where
  pub class_name : Name
  pub lock : Exec W (Reply V) → Exec W (Reply V)
  pub function_map : Dict Name (Entry W V)

pub record Collection (W V : Type 0) : Type 0 where
  pub function_map : Dict Name (Entry W V)
  pub object_map : Dict Name (Exposed W V)

abbrev pub public_members : List Name → List Name
public_members [] = []
public_members (n ∷ ns) =
    if startswith n (underscore ∷ []) then public_members ns else n ∷ public_members ns

-- `members if members else self._public_members()`
abbrev pub exposed_members : List Name → List Name → List Name
exposed_members [] dir = public_members dir
exposed_members (m ∷ ms) dir = m ∷ ms

module _ {W V : Type 0} where
  -- A function of no argument, and one of a single argument.
  abbrev no_args : Exec W (Reply V) → Function W V
  no_args m [] = m
  no_args m (v ∷ vs) = λ w. (err type_error, w)

  abbrev one_arg : (V → Exec W (Reply V)) → Function W V
  one_arg f [] = λ w. (err type_error, w)
  one_arg f (v ∷ []) = f v
  one_arg f (v ∷ u ∷ vs) = λ w. (err type_error, w)

  abbrev add_function : Name → Function W V → Exposed W V → Exposed W V
  add_function n f x = record x {
    function_map = insert n (function (λ args. x.lock (f args))) x.function_map;
  }

  -- `_add_member_wrappers`
  abbrev add_member : Name → Member W V → Exposed W V → Result (Exposed W V)
  add_member n missing x = err attribute_error
  add_member n (method f) x = ok (add_function n f x)
  add_member n (attribute read assign) x = ok (
      add_function (n ++ set_suffix) (one_arg assign)
        (add_function (n ++ get_suffix) (no_args read) x))

  abbrev add_members :
      List Name → List Name → (Name → Member W V) → Exposed W V → Result (Exposed W V)
  add_members [] exclude find x = ok x
  add_members (n ∷ ns) exclude find x =
      and_then (if member n exclude then ok x else add_member n (find n) x)
        (add_members ns exclude find)

  -- `ExposedObject.__init__`
  unfoldable pub expose :
      Object W V
      → (members exclude : List Name) → (exclude_inherited : Bool)
      → (Exec W (Reply V) → Exec W (Reply V))
      → Result (Exposed W V)
  expose obj members exclude exclude_inherited lock =
      add_members (exposed_members members obj.dir)
        (if exclude_inherited then exclude ++ obj.inherited else exclude) obj.find
        (record {
          class_name = obj.class_name;
          lock = lock;
          function_map = (api_name, own_api) ∷ [];
        })

  -- `self._function_map[item]`, called on an object of this class
  abbrev pub call_entry :
      Entry W V → Reply V → List Name → (Exec W (Reply V) → Exec W (Reply V)) → Function W V
  call_entry (function f) described objects lock args = f args
  call_entry own_api described objects lock args = lock (no_args (λ w. (ok described, w)) args)
  call_entry own_objects described objects lock args =
      lock (no_args (λ w. (ok (names objects), w)) args)

  -- `get_api`
  abbrev pub get_api : Exposed W V → Reply V
  get_api x = api x.class_name (keys x.function_map)

  -- `exposed_object[method_name]`, as the function that a collection keeps
  unfoldable pub method_entry : Exposed W V → Entry W V → Entry W V
  method_entry x f = function (call_entry f (get_api x) [] x.lock)

-- `name + glue + method_name`
abbrev pub full_name : Name → Name → Name
full_name name m = if startswith m (colon ∷ []) then name ++ m else name ++ (dot ∷ m)

-- "ExposedObjectCollection"
abbrev collection_class : Name
collection_class =
    69 ∷ 120 ∷ 112 ∷ 111 ∷ 115 ∷ 101 ∷ 100 ∷ 79 ∷ 98 ∷ 106 ∷ 101 ∷ 99 ∷ 116 ∷ 67 ∷ 111 ∷ 108 ∷ 108
    ∷ 101 ∷ 99 ∷ 116 ∷ 105 ∷ 111 ∷ 110 ∷ []

-- The functions that belong to an object of that name.
abbrev pub belongs : Name → Name → Bool
belongs name key = startswith key (name ++ (dot ∷ [])) || startswith key (name ++ (colon ∷ []))

module _ {W V : Type 0} where
  -- `ExposedObjectCollection` of no objects
  unfoldable pub new_collection : Collection W V
  new_collection = record {
    function_map = (api_name, own_api) ∷ (get_objects_name, own_objects) ∷ [];
    object_map = [];
  }

  abbrev pub add_methods :
      Name → Exposed W V → Dict Name (Entry W V) → Dict Name (Entry W V) → Dict Name (Entry W V)
  add_methods name x [] functions = functions
  add_methods name x (i ∷ is) functions =
      add_methods name x is (insert (full_name name i.0) (method_entry x i.1) functions)

  unfoldable pub add_object : Exposed W V → Name → Exec (Collection W V) (Unit {0})
  add_object x name s = if contains name s.object_map then (err runtime_error, s) else (
    ok tt,
    record {
      function_map = add_methods name x x.function_map s.function_map;
      object_map = insert name x s.object_map;
    },
  )

  abbrev pub remove_functions : Name → List Name → Dict Name (Entry W V) → Dict Name (Entry W V)
  remove_functions name [] functions = functions
  remove_functions name (k ∷ ks) functions =
      remove_functions name ks (if belongs name k then delete k functions else functions)

  unfoldable pub remove_object : Name → Exec (Collection W V) (Unit {0})
  remove_object name s =
      if contains name s.object_map
      then (
        ok tt,
        record {
          function_map = remove_functions name (keys s.function_map) s.function_map;
          object_map = delete name s.object_map;
        },
      )
      else (err runtime_error, s)

  unfoldable pub get_objects : Collection W V → List Name
  get_objects s = keys s.object_map

  abbrev call_found : Option (Entry W V) → Collection W V → List V → Option (Exec W (Reply V))
  call_found none s args = none
  call_found (some f) s args =
      some (call_entry f (api collection_class (keys s.function_map)) (get_objects s) (λ m. m) args)

  -- What the collection offers to the request manager for a method: nothing, or the call.
  unfoldable pub dispatch : Collection W V → Name → List V → Option (Exec W (Reply V))
  dispatch s name args = call_found (get name s.function_map) s args
