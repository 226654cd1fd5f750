-- ===== src/Store/Calls.antt =====
-- A call of tools/msa-adjudication-workbench/src/consensus-store.js: it reads and writes the
-- database, it may throw, and at each `await` of a statement other requests may run. What is written
-- stays written when a call throws later.
use adg_lang.Common.{Option, none, some, List, [], ◌∷◌, Result, ok, err, String, Bool, true, false}
use adg_lang.Consensus.States.{TransitionError}
use adg_lang.Store.Tables.{Database}

-- `conflict` is a `ConsensusConflict` with its message, `transition` the error of
-- `assertConsensusTransition`, `constraint` the store's refusal of a batch that breaks a
-- constraint, and `type_error` the reading of a field of null.
pub data StoreError : Type 0 where
  conflict : String → StoreError
  transition : TransitionError → StoreError
  constraint type_error : StoreError

-- The database, and what other requests do at the coming waits.
pub record World : Type 0 where
  pub db : Database
  pub others : List (Database → Database)

abbrev pub M : Type 0 → Type 0
M A = World → Result StoreError A × World

abbrev pub pure : {A : Type 0} → A → M A
pure a w = (ok a, w)

abbrev pub throw : {A : Type 0} → StoreError → M A
throw e w = (err e, w)

-- What follows a call: its continuation, unless it threw.
abbrev pub resume : {A B : Type 0} → (A → M B) → Result StoreError A → M B
resume f (ok a) w = f a w
resume f (err e) w = (err e, w)

infixl 5 ◌>>=◌ ◌>>◌
abbrev pub ◌>>=◌ : {A B : Type 0} → M A → (A → M B) → M B
◌>>=◌ m f w = let (r, w') = m w in resume f r w'

abbrev pub ◌>>◌ : {A B : Type 0} → M A → M B → M B
m >> k = m >>= λ _. k

abbrev pub throw_when : Bool → StoreError → M (Unit {0})
throw_when true e = throw e
throw_when false e = pure tt

-- What other requests do while this one waits for a statement.
abbrev pub run_others : World → World
run_others w = elim w.others [ [] ↦ w | f ∷ fs ↦ record w { db = f w.db; others = fs } ]

-- A `SELECT`.
abbrev pub query : {A : Type 0} → (Database → A) → M A
query f w = let w' = run_others w in (ok (f w'.db), w')

-- `db.batch(…)`: all its statements or, where one breaks a constraint, none.
abbrev pub commit : {A : Type 0} → (Database → Option (A × Database)) → M A
commit f w = elim (f w.db) [
  | none ↦ (err constraint, w)
  | some (a, db') ↦ (ok a, record w { db = db' })
]

abbrev pub batch : {A : Type 0} → (Database → Option (A × Database)) → M A
batch f w = commit f (run_others w)
