-- ===== src/Stream/Commands.antt =====
-- `Cmd`, `Var` and `StreamInterface._bind_device` of lewis/adapters/stream.py.
pub mod Distinct
use lewis.Common.{
  String, Bool, true, false, Option, none, some, List, [], ◌∷◌, ◌++◌, Result, ok, err, type_error,
  runtime_error, and_then, Exec, ◌>>=◌, if◌then◌else◌, ◌==◌,
}
use lewis.Common.Dict.{member, string_eq}
use lewis.Stream.Values.{Value, none_value}
use lewis.Stream.Func.{Expression, Callable, ReturnMapping, no_mapping, Pattern, Func, make_func}

-- What `getattr(target, name, None)` finds: nothing or None, something that is not callable, or a callable.
pub data Member (O W : Type 0) : Type 0 where
  nothing : Member O W
  not_callable : Member O W
  callable : Callable O W → Member O W

-- An object that commands are bound to, the interface or the device: its members, `dir(target)`, and
-- what reading and assigning an attribute do. `documented` is false for a data descriptor of the type
-- that inspect.getdoc finds no docstring for.
pub record Target (O W : Type 0) : Type 0 where
  pub find_member : String → Member O W
  pub names : List String
  pub documented : String → Bool
  pub getattr : String → Exec W (Value O)
  pub setattr : String → Value O → Exec W (Unit {0})

-- The parameter `func` of `Cmd`.
pub data Function (O W : Type 0) : Type 0 where
  free_function : Callable O W → Function O W
  named : String → Function O W

module _ (O W : Type 0) where
  pub data Command : Type 0 where
    cmd :
        (func : Function O W) (pattern : Pattern O)
        (argument_mappings : Option (List (Value O → Result (Value O))))
        (return_mapping : ReturnMapping O)
        → Command
    var :
        (target_member : String) (read_pattern write_pattern : Option (Pattern O))
        (argument_mappings : Option (List (Value O → Result (Value O))))
        (return_mapping : ReturnMapping O)
        → Command

abbrev pub first_arg : {O : Type 0} → List (Value O) → Value O
first_arg [] = none_value
first_arg (v ∷ rest) = v

module _ {O W : Type 0} where
  abbrev pub method_of : Function O W → Target O W → Member O W
  method_of (free_function f) target = callable f
  method_of (named name) target = target.find_member name

  abbrev pub callable_member : Member O W → Option (Callable O W)
  callable_member (callable f) = some f
  callable_member not_callable = none
  callable_member nothing = none

  -- The functions that `Var.bind` defines: each takes no argument but the setter, which takes one.
  abbrev pub getter : Target O W → String → Callable O W
  getter target name = record { accepts = λ n. n == 0; call = λ args. target.getattr name }

  abbrev pub setter : Target O W → String → Callable O W
  setter target name = record {
    accepts = λ n. n == 1;
    call = λ args. target.setattr name (first_arg args) >>= (λ _ w. (ok none_value, w));
  }

  abbrev singleton : Result (Func O W) → Result (Option (List (Func O W)))
  singleton r = and_then r (λ f. ok (some (f ∷ [])))

  -- What is left of `bound or …`: an empty list is falsy, like None.
  abbrev pub bound_or_none : Option (List (Func O W)) → List (Func O W)
  bound_or_none none = []
  bound_or_none (some fs) = fs

  abbrev pub first_bound :
      List (Func O W) → Result (Option (List (Func O W))) → Result (List (Func O W))
  first_bound (f ∷ fs) other = ok (f ∷ fs)
  first_bound [] other = and_then other (λ o. ok (bound_or_none o))

  abbrev pub patterns : List (Func O W) → List String
  patterns [] = []
  patterns (f ∷ fs) = f.matcher.pattern ∷ patterns fs

  -- The inner loop over `bound`. The set `patterns` is that of the functions appended before.
  abbrev pub append_bound : List (Func O W) → Exec (List (Func O W)) (Unit {0})
  append_bound [] bound_commands = (ok tt, bound_commands)
  append_bound (f ∷ fs) bound_commands =
      let rest = append_bound fs (bound_commands ++ (f ∷ [])) in
      if member f.matcher.pattern (patterns bound_commands)
      then (err runtime_error, bound_commands)
      else rest

  abbrev pub append_result : Result (List (Func O W)) → Exec (List (Func O W)) (Unit {0})
  append_result (err e) bound_commands = (err e, bound_commands)
  append_result (ok []) bound_commands = (err runtime_error, bound_commands)
  append_result (ok (f ∷ fs)) bound_commands = append_bound (f ∷ fs) bound_commands

module _ {O W : Type 0} (compile : String → Result (Expression O)) where
  abbrev bind_method :
      Member O W
      → Pattern O
      → Option (List (Value O → Result (Value O)))
      → ReturnMapping O
      → Result (Option (List (Func O W)))
  bind_method nothing p given ret = ok none
  bind_method not_callable p given ret = singleton (make_func compile none p given ret)
  bind_method (callable f) p given ret = singleton (make_func compile (some f) p given ret)

  -- `if pattern is not None: funcs.append(Func(…))`. For a property without a docstring, the line before,
  -- `"Getter: " + inspect.getdoc(prop)`, adds None to a text.
  abbrev optional_func :
      Bool
      → Callable O W
      → Option (Pattern O)
      → Option (List (Value O → Result (Value O)))
      → ReturnMapping O
      → Result (List (Func O W))
  optional_func documented f none given ret = ok []
  optional_func false f (some p) given ret = err type_error
  optional_func true f (some p) given ret =
      and_then (make_func compile (some f) p given ret) (λ g. ok (g ∷ []))

  abbrev bind_member :
      Target O W
      → String
      → Option (Pattern O)
      → Option (Pattern O)
      → Option (List (Value O → Result (Value O)))
      → ReturnMapping O
      → Result (List (Func O W))
  bind_member target name read write given ret =
      and_then (optional_func (target.documented name) (getter target name) read none ret) (λ gets.
        and_then (optional_func (target.documented name) (setter target name) write given ret)
          (λ sets. ok (gets ++ sets)))

  -- `Cmd.bind` and `Var.bind`
  unfoldable pub bind : Command O W → Target O W → Result (Option (List (Func O W)))
  bind (cmd f p given ret) target = bind_method (method_of f target) p given ret
  bind (var name read write given ret) target =
      if member name target.names
      then and_then (bind_member target name read write given ret) (λ fs. ok (some fs))
      else ok none

  -- `bound = cmd.bind(self) or cmd.bind(self.device) or None`
  abbrev pub bind_either : Command O W → Target O W → Target O W → Result (List (Func O W))
  bind_either c interface device =
      and_then (bind c interface) (λ o. first_bound (bound_or_none o) (bind c device))

  abbrev pub bind_commands :
      List (Command O W) → Target O W → Target O W → Exec (List (Func O W)) (Unit {0})
  bind_commands [] interface device bound_commands = (ok tt, bound_commands)
  bind_commands (c ∷ cs) interface device bound_commands =
      (append_result (bind_either c interface device) >>= (λ _. bind_commands cs interface device))
        bound_commands

  -- `_bind_device`, with the attribute `commands` of the class and `bound_commands` as the state
  unfoldable pub bind_device :
      Option (List (Command O W)) → Target O W → Target O W → Exec (List (Func O W)) (Unit {0})
  bind_device none interface device bound_commands = (err type_error, [])
  bind_device (some cs) interface device bound_commands = bind_commands cs interface device []
