-- ===== src/Journal/Calls.antt =====
-- A call of tools/msa-adjudication-workbench/src/database.js on the journal: it awaits statements on
-- D1 and transactions on PostgreSQL, it may throw, and other requests run at each wait. A statement
-- or a transaction may fail in two ways: it never ran, or it ran and its answer was lost.
pub mod Triples
pub mod Successes
use adg_lang.Common.{ℕ, List, [], ◌∷◌, Result, ok, err, Bool, true, false, drop}
use adg_lang.Journal.Errors.{Failure}
use adg_lang.Journal.Entries.{Journal}
use adg_lang.Journal.Postgres.{Postgres}

pub record State (S : Type 0) : Type 0 where
  pub journal : Journal
  pub pg : Postgres S

pub data Fault : Type 0 where
  fine : Fault
  lost : Failure → Fault
  unheard : Failure → Fault

-- What happens at a wait: what other requests do, and whether the statement fails.
pub record Wait (S : Type 0) : Type 0 where
  pub others : State S → State S
  pub fault : Fault

-- The state, the coming waits and the coming readings of the clock.
pub record World (S : Type 0) : Type 0 where
  pub state : State S
  pub waits : List (Wait S)
  pub times : List ℕ

abbrev pub M : Type 0 → Type 0 → Type 0
M S A = World S → Result Failure A × World S

abbrev pub reading : List ℕ → ℕ
reading [] = 0
reading (t ∷ ts) = t

module _ {S : Type 0} where
  abbrev pub pure : {A : Type 0} → A → M S A
  pure a w = (ok a, w)

  abbrev pub throw : {A : Type 0} → Failure → M S A
  throw e w = (err e, w)

  abbrev pub lift : {A : Type 0} → Result Failure A → M S A
  lift r w = (r, w)

  abbrev pub resume : {A B : Type 0} → (A → M S B) → Result Failure A → M S B
  resume f (ok a) w = f a w
  resume f (err e) w = (err e, w)

  infixl 5 ◌>>=◌ ◌>>◌
  abbrev pub ◌>>=◌ : {A B : Type 0} → M S A → (A → M S B) → M S B
  ◌>>=◌ m f w = resume f (m w).0 (m w).1

  abbrev pub ◌>>◌ : {A B : Type 0} → M S A → M S B → M S B
  m >> k = m >>= λ _. k

  abbrev pub handle : {A : Type 0} → (Failure → M S A) → Result Failure A → M S A
  handle h (ok a) w = (ok a, w)
  handle h (err e) w = h e w

  -- `try { … } catch (e) { … }`
  abbrev pub attempt : {A : Type 0} → M S A → (Failure → M S A) → M S A
  attempt m h w = handle h (m w).0 (m w).1

  abbrev pub throw_when : Bool → Failure → M S (Unit {0})
  throw_when true e = throw e
  throw_when false e = pure tt

  -- `this.clock()`
  unfoldable pub clock : M S ℕ
  clock w = (ok (reading w.times), record w { times = drop 1 w.times })

  abbrev pub perform : {A : Type 0} → Fault → (State S → Result Failure A × State S) → M S A
  perform fine f w = ((f w.state).0, record w { state = (f w.state).1 })
  perform (lost e) f w = (err e, w)
  perform (unheard e) f w = (err e, record w { state = (f w.state).1 })

  abbrev pub call : {A : Type 0} → (State S → Result Failure A × State S) → M S A
  call f w = elim w.waits [
    | [] ↦ perform fine f w
    | t ∷ ts ↦ perform t.fault f (record w { state = t.others w.state; waits = ts })
  ]

  -- A statement on D1.
  abbrev pub on_journal : {A : Type 0} → (Journal → Result Failure A × Journal) → M S A
  on_journal f = call (λ s. ((f s.journal).0, record s { journal = (f s.journal).1 }))

  -- A transaction on PostgreSQL.
  abbrev pub on_postgres : {A : Type 0} → (Postgres S → Result Failure A × Postgres S) → M S A
  on_postgres f = call (λ s. ((f s.pg).0, record s { pg = (f s.pg).1 }))

  abbrev pub modify : (Journal → Journal) → M S (Unit {0})
  modify f = on_journal (λ j. (ok tt, f j))

  abbrev pub inspect : {A : Type 0} → (Journal → A) → M S A
  inspect f = on_journal (λ j. (ok (f j), j))
