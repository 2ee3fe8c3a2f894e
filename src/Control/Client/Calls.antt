-- ===== src/Control/Client/Calls.antt =====
-- A call on a proxy reaches the object behind it (lewis/core/control_client.py and control_server.py).
use lewis.Common.{
  ℕ, Bool, false, none, some, List, [], ◌∷◌, ◌++◌, ok, Exec, ◌≡◌, refl, sym, ==_iff, append_assoc,
}
use lewis.Common.Dict.{get, contains, DistinctKeys}
use lewis.Control.Names.{Name, name_eq, colon, dot, startswith}
use lewis.Control.Server.{
  Reply, Exposed, function, Collection, add_object, dispatch, full_name, method_entry,
}
use lewis.Control.Server.Objects.{add_object-get}
use lewis.Control.Client.{returned, JsonRpc, make_request, proxy_prefix}

module _ {W V : Type 0} (json_rpc : JsonRpc W V) (s : Collection W V) where
  -- What the request manager and the transport promise: a call that the collection offers and that
  -- returns is answered by a response that carries the id of the request and the result.
  abbrev pub Carries : Type 0
  Carries =
      (m : Name) (args : List V) (call : Exec W (Reply V)) (w w' : W) (v : Reply V)
      → dispatch s m args ≡ some call
      → call w ≡ (ok v, w')
      → (id : ℕ) × (json_rpc m args w
          ≡ (returned (record { id = some id; result = some v; error = none }, id), w'))

module _ {W V : Type 0} (is_builtin : Name → Bool) (json_rpc : JsonRpc W V) where
  answered :
      (s : Collection W V)
      → Carries json_rpc s
      → (prefix m : Name) (args : List V) (call : Exec W (Reply V)) (w w' : W) (v : Reply V)
      → dispatch s (prefix ++ m) args ≡ some call
      → call w ≡ (ok v, w')
      → make_request is_builtin json_rpc prefix m args w ≡ (returned v, w')
  unfolding make_request
  answered s carries prefix m args call w w' v offers gives =
      let (id, answer) = carries (prefix ++ m) args call w w' v offers gives in
      rw answer (rw ((==_iff id id).1 refl) refl)

  dotted :
      (c : ℕ) (cs m : Name)
      → startswith m (colon ∷ []) ≡ false
      → full_name (c ∷ cs) m ≡ proxy_prefix (c ∷ cs) ++ m
  dotted c cs m plain = rw plain (sym (append_assoc (c ∷ cs) (dot ∷ []) m))

  -- A method that is called on the proxy of an object of a collection, or a getter or setter of a
  -- property, runs the function that the object exposes under that name, and the caller gets its
  -- result; this is so when the object was added under a new name and the manager carries calls.
  pub make_request-calls :
      (x : Exposed W V) (c : ℕ) (cs : Name) (s : Collection W V)
      → contains (c ∷ cs) s.object_map ≡ false
      → DistinctKeys x.function_map
      → Carries json_rpc (add_object x (c ∷ cs) s).1
      → (m : Name) (f : List V → Exec W (Reply V)) → startswith m (colon ∷ []) ≡ false
      → get m x.function_map ≡ some (function f)
      → (args : List V) (w w' : W) (v : Reply V) → f args w ≡ (ok v, w')
      → make_request is_builtin json_rpc (proxy_prefix (c ∷ cs)) m args w ≡ (returned v, w')
  unfolding dispatch method_entry
  make_request-calls x c cs s new apart carries m f plain found args w w' v gives =
      answered (add_object x (c ∷ cs) s).1 carries (proxy_prefix (c ∷ cs)) m args (f args) w w' v
        (rw (sym (dotted c cs m plain))
          (rw (add_object-get x (c ∷ cs) s m (function f) new apart found) refl))
        gives
