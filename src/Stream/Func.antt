-- ===== src/Stream/Func.antt =====
-- Pattern matchers and the class `Func` of lewis/adapters/stream.py. Regular expressions are compiled
-- by `compile` and scanf formats by `scanf_compile`, which are parameters. Documentation is left out.
use Prim.Native.String.{◌++◌ as append_text}
use lewis.Common.{
  ℕ, String, Bool, true, false, Option, none, some, List, [], ◌∷◌, Result, ok, err, runtime_error,
  and_then, Exec, raise, lift, ◌>>=◌, if◌then◌else◌, not, ◌==◌, length,
}
use lewis.Stream.Values.{Bytes, Value}

-- `PatternMatcher`: `None` from `matching` is a request that does not match.
pub record Matcher (O : Type 0) : Type 0 where
  pub pattern : String
  pub arg_count : ℕ
  pub argument_mappings : Option (List (Value O → Result (Value O)))
  pub matching : Bytes → Option (List (Value O))

-- A compiled expression of the module `re`: its number of groups, and the groups of a match.
pub record Expression (O : Type 0) : Type 0 where
  pub groups : ℕ
  pub match_groups : Bytes → Option (List (Value O))

-- A callable object, with what `inspect.getcallargs` finds of a number of positional arguments.
pub record Callable (O W : Type 0) : Type 0 where
  pub accepts : ℕ → Bool
  pub call : List (Value O) → Exec W (Value O)

-- The parameter `return_mapping`: None, a callable, or any other value.
pub data ReturnMapping (O : Type 0) : Type 0 where
  no_mapping : ReturnMapping O
  mapping : (Value O → Result (Value O)) → ReturnMapping O
  constant : Value O → ReturnMapping O

-- A pattern is given as a matcher or as a string.
pub data Pattern (O : Type 0) : Type 0 where
  matcher_pattern : Matcher O → Pattern O
  string_pattern : String → Pattern O

pub record Func (O W : Type 0) : Type 0 where
  pub func : Callable O W
  pub matcher : Matcher O
  pub argument_mappings : Option (List (Value O → Result (Value O)))
  pub return_mapping : ReturnMapping O

abbrev generated : Bool → String → String
generated exact_match p = if exact_match then append_text "^" (append_text p "$") else p

module _ {O : Type 0} where
  unfoldable pub regex : (String → Result (Expression O)) → String → Result (Matcher O)
  regex compile p = and_then (compile p) (λ r. ok (record {
    pattern = p;
    arg_count = r.groups;
    argument_mappings = none;
    matching = r.match_groups;
  }))

  -- The pattern that the object states is the format, not the expression.
  unfoldable pub scanf :
      (String → Result (Expression O))
      → (String → Result (String × List (Value O → Result (Value O))))
      → String
      → Bool
      → Result (Matcher O)
  scanf compile scanf_compile p exact_match = and_then (scanf_compile p) (λ c.
      and_then (regex compile (generated exact_match c.0))
        (λ m. ok (record m { pattern = p; argument_mappings = some c.1 })))

  abbrev pub pattern_matcher : (String → Result (Expression O)) → Pattern O → Result (Matcher O)
  pattern_matcher compile (matcher_pattern m) = ok m
  pattern_matcher compile (string_pattern p) = regex compile p

  -- `self.matcher.argument_mappings or None`, where none were given
  abbrev pub mappings_of :
      Option (List (Value O → Result (Value O)))
      → Matcher O
      → Option (List (Value O → Result (Value O)))
  mappings_of (some fs) m = some fs
  mappings_of none m = elim m.argument_mappings [
    | none ↦ none
    | some [] ↦ none
    | some (f ∷ fs) ↦ some (f ∷ fs)
  ]

  abbrev pub wrong_count : Option (List (Value O → Result (Value O))) → ℕ → Bool
  wrong_count none n = false
  wrong_count (some fs) n = not (n == length fs)

  -- `[f(a) for f, a in zip(mappings, arguments)]`
  abbrev pub zip_map : List (Value O → Result (Value O)) → List (Value O) → Result (List (Value O))
  zip_map [] args = ok []
  zip_map (f ∷ fs) [] = ok []
  zip_map (f ∷ fs) (a ∷ args) = and_then (f a) (λ b. and_then (zip_map fs args) (λ bs. ok (b ∷ bs)))

  abbrev pub is_match : Option (List (Value O)) → Bool
  is_match none = false
  is_match (some args) = true

module _ {O W : Type 0} where
  abbrev checked_func :
      Callable O W
      → Matcher O
      → Option (List (Value O → Result (Value O)))
      → ReturnMapping O
      → Result (Func O W)
  checked_func f m mappings ret =
      if not (f.accepts m.arg_count)
      then err runtime_error
      else if wrong_count mappings m.arg_count
      then err runtime_error
      else ok (record { func = f; matcher = m; argument_mappings = mappings; return_mapping = ret })

  -- The constructor of `Func`: `none` stands for an object that is not callable.
  unfoldable pub make_func :
      (String → Result (Expression O))
      → Option (Callable O W)
      → Pattern O
      → Option (List (Value O → Result (Value O)))
      → ReturnMapping O
      → Result (Func O W)
  make_func compile none p given ret = err runtime_error
  make_func compile (some f) p given ret =
      and_then (pattern_matcher compile p) (λ m. checked_func f m (mappings_of given m) ret)

  unfoldable pub can_process : Func O W → Bytes → Bool
  can_process f request = is_match (f.matcher.matching request)

  unfoldable pub map_arguments : Func O W → List (Value O) → Result (List (Value O))
  map_arguments f args = elim f.argument_mappings [ none ↦ ok args | some fs ↦ zip_map fs args ]

  unfoldable pub map_return_value : Func O W → Value O → Result (Value O)
  map_return_value f v = elim f.return_mapping [
    | no_mapping ↦ ok v
    | mapping g ↦ g v
    | constant c ↦ ok c
  ]

  abbrev pub process_match : Func O W → Option (List (Value O)) → Exec W (Value O)
  process_match f none = raise runtime_error
  process_match f (some args) =
      (lift (map_arguments f args) >>= f.func.call) >>= (λ v. lift (map_return_value f v))

  unfoldable pub process_request : Func O W → Bytes → Exec W (Value O)
  process_request f request = process_match f (f.matcher.matching request)
