-- ===== src/Adapters/Class.antt =====
-- `Adapter` of lewis/core/adapters.py: what a collection asks of an adapter, and the constructor's
-- treatment of options.
use lewis.Common.{
  String, Bool, true, false, Option, none, some, [], Result, ok, err, lewis_exception, Exec, ◌≡◌,
}
use lewis.Common.Dict.{Dict, string_eq}
use lewis.Core.Limits.{dict_strict_update}

-- The operations of an adapter class on its objects, of type `A`; protocols are of type `K`.
pub record AdapterClass (K A : Type 0) : Type 0 where
  pub protocol : A → K
  -- `adapter.device_lock = lock`
  pub give_lock : A → A
  pub start_server : Exec A (Unit {0})
  pub stop_server : Exec A (Unit {0})
  pub is_running : A → Bool
  pub handle : Exec A (Unit {0})

-- What the base class asks of the classes derived from it: `is_running` reflects the calls of
-- `start_server` and `stop_server`, and none of them changes the protocol.
pub record AdapterLaws (K A : Type 0) (c : AdapterClass K A) : Type 0 where
  pub start_runs : (a : A) → (c.start_server a).0 ≡ ok tt → c.is_running (c.start_server a).1 ≡ true
  pub stop_stops : (a : A) → c.is_running (c.stop_server a).1 ≡ false
  pub start_protocol : (a : A) → c.protocol (c.start_server a).1 ≡ c.protocol a
  pub stop_protocol : (a : A) → c.protocol (c.stop_server a).1 ≡ c.protocol a
  pub lock_protocol : (a : A) → c.protocol (c.give_lock a) ≡ c.protocol a

module _ {V : Type 0} where
  abbrev given_options : Option (Dict String V) → Dict String V
  given_options none = []
  given_options (some d) = d

  -- `except RuntimeError: raise LewisException(…)`, the only exception of `dict_strict_update`
  abbrev checked_options : Result (Unit {0}) × Dict String V → Result (Dict String V)
  checked_options (ok u, d) = ok d
  checked_options (err e, d) = err lewis_exception

  -- `Adapter.__init__`: `_options`, from `default_options` and the argument
  unfoldable pub adapter_options : Dict String V → Option (Dict String V) → Result (Dict String V)
  adapter_options default_options options =
      checked_options (dict_strict_update (given_options options) default_options)
