-- ===== src/Adapters/Tests.antt =====
-- Examples for the collection of adapters: two stream adapters.
use lewis.Common.{
  ℕ, String, true, false, Option, none, some, [], ◌∷◌, Result, ok, err, Exec, ◌≡◌, refl, sym, ◌∙◌,
  Bool-cases, inl, inr, if◌then◌else◌, ◌==◌ as same,
}
use lewis.Common.Dict.{string_eq, get, ◌==◌}
use lewis.Stream.Values.{text_terminator}
use lewis.Stream.Handler.{no_lock, Interface}
use lewis.Stream.Server.{StreamAdapter, start_server, is_running}
use lewis.Stream.Server.Contract.{stream_class, stream_class-AdapterLaws}
use lewis.Adapters.Class.{AdapterClass}
use lewis.Adapters.Collection.{
  Collection, add_adapter, connect, disconnect, get_adapters, start_adapter,
}
use lewis.Adapters.Collection.Invariant.{IsSound}
use lewis.Adapters.Collection.Connect.{connect-is_running, disconnect-is_running, requested}

abbrev no_commands : Interface ℕ ℕ
no_commands = record {
  in_terminator = text_terminator (13 ∷ []);
  out_terminator = text_terminator (13 ∷ []);
  readtimeout = 100;
  bound_commands = none;
  handle_error = λ request error w. (err error, w);
}

abbrev stream_adapter : String → StreamAdapter ℕ ℕ
stream_adapter p = record {
  options = record { bind_address = "0.0.0.0"; port = 9999; telnet_mode = false };
  device_lock = no_lock;
  protocol = p;
  interface = no_commands;
  server = none;
  world = 0;
}

abbrev listen : String → ℕ → Result (Unit {0})
listen address port = ok tt

abbrev loop : Exec (StreamAdapter ℕ ℕ) (Unit {0})
loop a = (ok tt, a)

abbrev streams : AdapterClass String (StreamAdapter ℕ ℕ)
streams = stream_class listen loop

abbrev adapter_store : ℕ → StreamAdapter ℕ ℕ
adapter_store i = if same i 0 then stream_adapter "a" else stream_adapter "b"

abbrev one : Collection String (StreamAdapter ℕ ℕ)
one = record { adapters = ("a", 0) ∷ []; threads = []; store = adapter_store }

added_test :
    (add_adapter streams 0
      (record { adapters = []; threads = []; store = adapter_store })).1.adapters
    ≡ ("a", 0) ∷ []
unfolding add_adapter
added_test = refl

zero_eq : (i : ℕ) → some 0 ≡ some i → i ≡ 0
zero_eq i h = cc

-- The only adapter is registered as "a".
only_one : (p : String) (i : ℕ) → get p one.adapters ≡ some i → (p ≡ "a") × (i ≡ 0)
only_one p i found = elim (Bool-cases ("a" == p)) [
  | inl this ↦ (sym ((string_eq.key_iff "a" p).0 this), zero_eq i (sym (rw this refl) ∙ found))
  | inr other ↦ absurd (none-some (sym (rw other refl) ∙ found))
]
  where
    none-some : {j : ℕ} → ◌≡◌ {A = Option ℕ} none (some j) → ⊥
    none-some h = cc

one-IsSound : IsSound streams one
unfolding is_running
one-IsSound = record {
  registered = λ p i found. let (named, first) = only_one p i found in rw named (rw first refl);
  running = λ p i found. rw (only_one p i found).1 refl;
  serving = λ p t found. absurd (cc found);
  distinct = tt;
}

connected : (connect streams ("a" ∷ []) one).0 ≡ ok tt
unfolding connect get_adapters start_adapter start_server
connected = refl

connect-is_running_example :
    IsSound streams (connect streams ("a" ∷ []) one).1
    × (is_running ((connect streams ("a" ∷ []) one).1.store 0)
        ≡ (if requested {K = String} ("a" ∷ []) "a" then true else is_running (one.store 0)))
connect-is_running_example =
    connect-is_running streams (stream_class-AdapterLaws listen loop) one ("a" ∷ []) one-IsSound
      connected "a" 0 refl

abbrev running_one : Collection String (StreamAdapter ℕ ℕ)
running_one = (connect streams ("a" ∷ []) one).1

running_one-IsSound : IsSound streams running_one
running_one-IsSound =
    (connect-is_running streams (stream_class-AdapterLaws listen loop) one ("a" ∷ []) one-IsSound
      connected "a" 0 refl).0

registered_still : get "a" running_one.adapters ≡ some 0
unfolding running_one connect get_adapters start_adapter start_server
registered_still = refl

disconnect-is_running_example :
    ((disconnect streams [] running_one).0 ≡ ok tt)
    × IsSound streams (disconnect streams [] running_one).1
    × (is_running ((disconnect streams [] running_one).1.store 0)
        ≡ (if requested {K = String} [] "a" then false else is_running (running_one.store 0)))
disconnect-is_running_example =
    disconnect-is_running streams (stream_class-AdapterLaws listen loop) running_one []
      running_one-IsSound refl "a" 0 registered_still
