-- ===== src/Journal/Postgres/Statements.antt =====
-- What `runOperations` does to the store: the statements of a write that are executed, or the first
-- one that fails.
use adg_lang.Common.{
  ◌≡◌, refl, true, false, List, [], ◌∷◌, Bool-cases, inl, inr, Result, ok, err, ◌>>=◌,
}
use adg_lang.Journal.Errors.{Failure, plain_error}
use adg_lang.Journal.Payload.{Operation}
use adg_lang.Journal.Postgres.{RunResult, is_run, run_operations}

module _ {S : Type 0} (execute : Operation → S → Result Failure (RunResult × S)) where
  -- Each of the statements is executed once, in order, on what the one before it left.
  pub data Runs : List Operation → S → List RunResult → S → Type 0 where
    nothing_left : {s : S} → Runs [] s [] s
    next :
        {op : Operation} {ops : List Operation} {s t u : S} {r : RunResult} {rs : List RunResult}
        → is_run op.mode op.sql ≡ true
        → execute op s ≡ ok (r, t)
        → Runs ops t rs u
        → Runs (op ∷ ops) s (r ∷ rs) u

  -- A statement that reads, or that the store refuses, comes after statements that are executed.
  pub data Fails : List Operation → S → Failure → Type 0 where
    reads :
        {op : Operation} {ops : List Operation} {s : S}
        → is_run op.mode op.sql ≡ false
        → Fails
            (op ∷ ops)
            s
            (plain_error "Mutating PostgreSQL journal entries must not contain reads.")
    throws :
        {op : Operation} {ops : List Operation} {s : S} {e : Failure}
        → is_run op.mode op.sql ≡ true
        → execute op s ≡ err e
        → Fails (op ∷ ops) s e
    later :
        {op : Operation} {ops : List Operation} {s t : S} {r : RunResult} {e : Failure}
        → is_run op.mode op.sql ≡ true
        → execute op s ≡ ok (r, t)
        → Fails ops t e
        → Fails (op ∷ ops) s e

  abbrev IsOutcome : List Operation → S → Result Failure (List RunResult × S) → Type 0
  IsOutcome ops s (ok (rs, t)) = Runs ops s rs t
  IsOutcome ops s (err e) = Fails ops s e

  IsOutcome-of_rest :
      (op : Operation) (ops : List Operation) (s t : S) (r : RunResult)
      (out : Result Failure (List RunResult × S))
      → is_run op.mode op.sql ≡ true
      → execute op s ≡ ok (r, t)
      → IsOutcome ops t out
      → IsOutcome (op ∷ ops) s (out >>= λ rest. ok (r ∷ rest.0, rest.1))
  IsOutcome-of_rest op ops s t r (ok (rs, u)) w e h = next w e h
  IsOutcome-of_rest op ops s t r (err x) w e h = later w e h

  IsOutcome-of_first :
      (op : Operation) (ops : List Operation) (s : S) (out : Result Failure (RunResult × S))
      → ((t : S) → IsOutcome ops t (run_operations execute ops t))
      → is_run op.mode op.sql ≡ true
      → execute op s ≡ out
      → IsOutcome (op ∷ ops) s (
          out >>= λ done.
          run_operations execute ops done.1 >>= λ rest. ok (done.0 ∷ rest.0, rest.1))
  IsOutcome-of_first op ops s (ok (r, t)) k w e =
      IsOutcome-of_rest op ops s t r (run_operations execute ops t) w e (k t)
  IsOutcome-of_first op ops s (err x) k w e = throws w e

  run_operations-IsOutcome :
      (ops : List Operation) (s : S) → IsOutcome ops s (run_operations execute ops s)
  run_operations-IsOutcome [] s = nothing_left
  run_operations-IsOutcome (op ∷ ops) s = elim (Bool-cases (is_run op.mode op.sql)) [
    | inl w ↦
        rw w (IsOutcome-of_first op ops s (execute op s) (run_operations-IsOutcome ops) w refl)
    | inr r ↦ rw r (reads r)
  ]

  pub Runs-of :
      (ops : List Operation) (s t : S) (rs : List RunResult)
      → run_operations execute ops s ≡ ok (rs, t)
      → Runs ops s rs t
  Runs-of ops s t rs h = let k = run_operations-IsOutcome ops s in rw h at k

  pub Fails-of :
      (ops : List Operation) (s : S) (e : Failure)
      → run_operations execute ops s ≡ err e
      → Fails ops s e
  Fails-of ops s e h = let k = run_operations-IsOutcome ops s in rw h at k
