-- ===== src/Adapters/Collection.antt =====
-- `AdapterCollection` of lewis/core/adapters.py. Adapters are objects, which the dictionary of the
-- collection and the running threads refer to. A thread is started and joined within a call, so
-- what it does then is part of the call; between calls it serves requests (`serve`).
-- A server that starts is taken to do so within the two seconds that `_start_server` waits.
pub mod Invariant
pub mod Effects
pub mod Steps
pub mod Returns
pub mod Connect
use lewis.Common.{
  ℕ, Bool, true, false, Option, none, some, List, [], ◌∷◌, Result, ok, err, runtime_error,
  key_error, lewis_exception, Exn, and_then, Exec, lift, ◌>>=◌, ◌>>◌, if◌then◌else◌, ◌&&◌,
  ◌==◌ as same,
}
use lewis.Common.Dict.{Keyed, Dict, get, contains, insert, delete, keys}
use lewis.Adapters.Class.{AdapterClass}

-- A thread and its event, which `_threads` and `_running` keep under the same key. A thread ends
-- early when its adapter raises.
pub record Thread : Type 0 where
  pub adapter : ℕ
  pub alive : Bool
  pub running : Bool

pub record Collection (K A : Type 0) : Type 0 where
  pub adapters : Dict K ℕ
  pub threads : Dict K Thread
  pub store : ℕ → A

abbrev pub assign : {A : Type 0} → ℕ → A → (ℕ → A) → ℕ → A
assign i a store j = if same j i then a else store j

abbrev pub for_each : {S : Type 0} → (ℕ → Exec S (Unit {0})) → List ℕ → Exec S (Unit {0})
for_each f [] s = (ok tt, s)
for_each f (i ∷ is) s = (f i >> for_each f is) s

abbrev pub item : Option ℕ → Result ℕ
item none = err key_error
item (some i) = ok i

module _ {K : Type 0} ⦃e : Keyed K⦄ where
  abbrev pub all_registered : List K → Dict K ℕ → Bool
  all_registered [] d = true
  all_registered (p ∷ ps) d = contains p d && all_registered ps d

  abbrev pub items : List K → Dict K ℕ → Result (List ℕ)
  items [] d = ok []
  items (p ∷ ps) d = and_then (item (get p d)) (λ i. and_then (items ps d) (λ is. ok (i ∷ is)))

  -- `protocols or self.protocols`
  abbrev pub or_all : List K → List K → List K
  or_all [] all = all
  or_all (p ∷ ps) all = p ∷ ps

  unfoldable pub get_adapters : List K → Dict K ℕ → Result (List ℕ)
  get_adapters protocols d =
      if all_registered protocols d then items (or_all protocols (keys d)) d else err runtime_error

module _ {K A : Type 0} ⦃e : Keyed K⦄ where
  unfoldable pub remove_adapter : K → Exec (Collection K A) (Unit {0})
  remove_adapter p s =
      if contains p s.adapters
      then (ok tt, record s { adapters = delete p s.adapters })
      else (err runtime_error, s)

  -- The thread until its event is set, or until it raises.
  abbrev pub begin_loop : K → ℕ → Result (Unit {0}) × A → Exec (Collection K A) (Unit {0})
  begin_loop p i (ok u, a) s = (
    ok tt,
    record s {
      threads = insert p (record { adapter = i; alive = true; running = true }) s.threads;
      store = assign i a s.store;
    },
  )
  begin_loop p i (err x, a) s = (
    err lewis_exception,
    record s {
      threads = insert p (record { adapter = i; alive = false; running = false }) s.threads;
      store = assign i a s.store;
    },
  )

module _ {K A : Type 0} ⦃e : Keyed K⦄ (c : AdapterClass K A) where
  unfoldable pub add_adapter : ℕ → Exec (Collection K A) (Unit {0})
  add_adapter i s =
      let p = c.protocol (s.store i) in
      if contains p s.adapters
      then (err runtime_error, s)
      else (ok tt, record s { adapters = insert p i s.adapters })

  -- `_start_server`
  unfoldable pub start_adapter : ℕ → Exec (Collection K A) (Unit {0})
  start_adapter i s =
      let p = c.protocol (s.store i) in
      if contains p s.threads
      then (ok tt, s)
      else begin_loop p i (c.start_server (c.give_lock (s.store i))) s

  -- What a thread does once its event is cleared; what it raises then is lost with the thread.
  abbrev pub end_loop : Option Thread → (ℕ → A) → ℕ → A
  end_loop none store = store
  end_loop (some t) store =
      if t.alive then assign t.adapter (c.stop_server (store t.adapter)).1 store else store

  -- `_stop_server`
  unfoldable pub stop_adapter : ℕ → Exec (Collection K A) (Unit {0})
  stop_adapter i s =
      let p = c.protocol (s.store i) in
      if contains p s.threads
      then (
        ok tt,
        record s { threads = delete p s.threads; store = end_loop (get p s.threads) s.store },
      )
      else (ok tt, s)

  unfoldable pub connect : List K → Exec (Collection K A) (Unit {0})
  connect args s = (lift (get_adapters args s.adapters) >>= for_each start_adapter) s

  unfoldable pub disconnect : List K → Exec (Collection K A) (Unit {0})
  disconnect args s = (lift (get_adapters args s.adapters) >>= for_each stop_adapter) s

  -- The dictionary that `is_connected` builds.
  abbrev pub statuses : List ℕ → (ℕ → A) → Dict K Bool → Dict K Bool
  statuses [] store d = d
  statuses (i ∷ is) store d =
      statuses is store (insert (c.protocol (store i)) (c.is_running (store i)) d)

  -- A turn of the loop of a thread.
  abbrev pub serve_thread : K → Option Thread → Collection K A → Collection K A
  serve_thread p none s = s
  serve_thread p (some t) s =
      if t.alive && t.running
      then (let (r, a) = c.handle (s.store t.adapter) in
          elim r [
            | ok u ↦ record s { store = assign t.adapter a s.store }
            | err x ↦ record s {
              store = assign t.adapter a s.store;
              threads = insert p (record t { alive = false }) s.threads;
            }
          ])
      else s

  unfoldable pub serve : K → Collection K A → Collection K A
  serve p s = serve_thread p (get p s.threads) s

-- `is_connected` gives the status of a single protocol, or else a dictionary.
pub data Status (K : Type 0) : Type 0 where
  single : Bool → Status K
  several : Dict K Bool → Status K

module _ {K : Type 0} where
  abbrev first_status : Dict K Bool → Result (Status K)
  first_status [] = err Exn.index_error
  first_status (i ∷ d) = ok (single i.1)

  abbrev status_of : List K → Dict K Bool → Result (Status K)
  status_of (p ∷ []) d = first_status d
  status_of [] d = ok (several d)
  status_of (p ∷ q ∷ ps) d = ok (several d)

module _ {K A : Type 0} ⦃e : Keyed K⦄ (c : AdapterClass K A) where
  unfoldable pub is_connected : List K → Collection K A → Result (Status K)
  is_connected args s =
      and_then (get_adapters args s.adapters) (λ is. status_of args (statuses c is s.store []))
