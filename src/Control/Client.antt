-- ===== src/Control/Client.antt =====
-- `ControlClient` and `ObjectProxy` of lewis/core/control_client.py. The request and its response
-- travel through `json_rpc`, whose sockets and encoding are not modelled; a request id is a number.

pub mod Calls
use lewis.Common.{
  ℕ, Bool, true, false, Option, none, some, List, [], ◌∷◌, ◌++◌, if◌then◌else◌, ◌||◌, not, ◌==◌,
}
use lewis.Common.Dict.{member}
use lewis.Control.Names.{
  Name, name_eq, colon, dot, api_name, get_suffix, set_suffix, occurs, startswith,
}
use lewis.Control.Server.{Reply, value, api, names}

-- What is raised to the caller: a ProtocolException, a RemoteException with the type and message of the
-- server's exception, an exception of the type that the server raised, or the KeyError or TypeError
-- where a response to a request for an API is none.
pub data Raised : Type 0 where
  protocol_exception : Raised
  remote_exception : (server_side_type server_side_message : Name) → Raised
  server_exception : (exception_type exception_message : Name) → Raised
  no_api : Raised

-- `no_answer` is the None that is returned for a response with neither a result nor an error.
pub data Outcome (A : Type 0) : Type 0 where
  returned : A → Outcome A
  no_answer : Outcome A
  raised : Raised → Outcome A

-- `response["error"]`: its message, and the type and message in its data, if there are any
pub record ErrorInfo : Type 0 where
  pub message : Name
  pub details : Option (Name × Name)

pub record Response (V : Type 0) : Type 0 where
  pub id : Option ℕ
  pub result : Option (Reply V)
  pub error : Option ErrorInfo

-- `ControlClient.json_rpc`: the response and the id of the request, or a timeout
abbrev pub JsonRpc : Type 0 → Type 0 → Type 0
JsonRpc W V = Name → List V → W → Outcome (Response V × ℕ) × W

module _ {V : Type 0} where
  abbrev raise_error : (Name → Bool) → Option (Name × Name) → Outcome (Reply V)
  raise_error is_builtin none = raised protocol_exception
  raise_error is_builtin (some (type, message)) =
      if is_builtin type
      then raised (server_exception type message)
      else raised (remote_exception type message)

  abbrev error_of : (Name → Bool) → Option ErrorInfo → Outcome (Reply V)
  error_of is_builtin none = no_answer
  error_of is_builtin (some e) = raise_error is_builtin e.details

  abbrev result_of : (Name → Bool) → Response V → Option (Reply V) → Outcome (Reply V)
  result_of is_builtin r (some v) = returned v
  result_of is_builtin r none = error_of is_builtin r.error

  -- The body of `_make_request` once `json_rpc` has returned; `is_builtin` is `hasattr(exceptions, …)`.
  abbrev pub check_response : (Name → Bool) → Response V → ℕ → Option ℕ → Outcome (Reply V)
  check_response is_builtin r request_id none = raised protocol_exception
  check_response is_builtin r request_id (some i) =
      if i == request_id then result_of is_builtin r r.result else raised protocol_exception

  abbrev pub read_response : (Name → Bool) → Outcome (Response V × ℕ) → Outcome (Reply V)
  read_response is_builtin (returned (r, request_id)) = check_response is_builtin r request_id r.id
  read_response is_builtin no_answer = no_answer
  read_response is_builtin (raised x) = raised x

module _ {W V : Type 0} (is_builtin : Name → Bool) (json_rpc : JsonRpc W V) where
  -- `_make_request`
  unfoldable pub make_request : Name → Name → List V → W → Outcome (Reply V) × W
  make_request prefix m args w =
      let (response, w') = json_rpc (prefix ++ m) args w in (read_response is_builtin response, w')

-- `s.split(c)`, the first piece and the others
abbrev split_first : ℕ → Name → Name × List Name
split_first c [] = ([], [])
split_first c (d ∷ ds) =
    let (first, others) = split_first c ds in
    if d == c then ([], first ∷ others) else (d ∷ first, others)

abbrev last_piece : Name → List Name → Name
last_piece p [] = p
last_piece p (q ∷ qs) = last_piece q qs

-- The piece before the last, `[-2]`; a name with a colon has at least two pieces.
abbrev second_last : Name → List Name → Name
second_last p [] = p
second_last p (q ∷ []) = p
second_last p (q ∷ r ∷ qs) = second_last q (r ∷ qs)

abbrev last_of_split : ℕ → Name → Name
last_of_split c s = let (p, ps) = split_first c s in last_piece p ps

-- `member.split(":")[-2].split(".")[-1]`
unfoldable pub property_name : Name → Name
property_name m = let (p, ps) = split_first colon m in last_of_split dot (second_last p ps)

abbrev pub is_accessor : Name → Bool
is_accessor m = occurs set_suffix m || occurs get_suffix m

-- The members that an `ObjectProxy` has: its methods, and the set of its properties.
pub record Proxy : Type 0 where
  pub prefix : Name
  pub methods : List Name
  pub properties : List Name

abbrev add_property : Name → Proxy → Proxy
add_property n p =
    if member n p.properties then p else record p { properties = p.properties ++ (n ∷ []) }

abbrev add_method : Name → Proxy → Proxy
add_method n p = record p { methods = p.methods ++ (n ∷ []) }

-- `_add_member_proxies`
unfoldable pub add_member_proxies : List Name → Proxy → Proxy
add_member_proxies [] p = p
add_member_proxies (m ∷ ms) p =
    add_member_proxies ms
      (if is_accessor m then add_property (property_name m) p else add_method m p)

-- `object_name + glue`
abbrev pub proxy_prefix : Name → Name
proxy_prefix [] = []
proxy_prefix (c ∷ cs) = (c ∷ cs) ++ (dot ∷ [])

module _ {V : Type 0} where
  abbrev proxy_of : Name → Option (Reply V) → Outcome Proxy
  proxy_of name none = raised protocol_exception
  proxy_of name (some (api class_name methods)) = returned (
      add_member_proxies methods
        (record { prefix = proxy_prefix name; methods = []; properties = [] }))
  proxy_of name (some (value v)) = raised no_api
  proxy_of name (some (names ns)) = raised no_api

  abbrev check_api : Name → Response V → ℕ → Option ℕ → Outcome Proxy
  check_api name r request_id none = raised no_api
  check_api name r request_id (some i) =
      if i == request_id then proxy_of name r.result else raised protocol_exception

  abbrev pub read_api : Name → Outcome (Response V × ℕ) → Outcome Proxy
  read_api name (returned (r, request_id)) = check_api name r request_id r.id
  read_api name no_answer = no_answer
  read_api name (raised x) = raised x

module _ {W V : Type 0} (json_rpc : JsonRpc W V) where
  -- `ControlClient.get_object`
  unfoldable pub get_object : Name → W → Outcome Proxy × W
  get_object name w =
      let (response, w') = json_rpc (name ++ api_name) [] w in (read_api name response, w')
