-- ===== src/Journal/Postgres/Refinement.antt =====
-- PostgreSQL with receipts implements a log of executed writes: what a call of
-- `applyMutatingOperationsWithReceipt` answers, and what it does to the log and the store.
use adg_lang.Common.{
  ℕ, suc, ◌≤◌, ◌≡◌, ◌≢◌, refl, sym, List, [], ◌∷◌, find, Option, none, some, Result, ok, err, arith,
  All, AllDistinct,
}
use adg_lang.Journal.Errors.{Failure, plain_error}
use adg_lang.Journal.Payload.{Operation}
use adg_lang.Journal.Postgres.{
  Postgres, RunResult, Mark, Applied, Write, forced_or, mismatch_error, conflict_error,
  zero_results_for_operations, apply_mutating_operations_with_receipt,
}
use adg_lang.Journal.Postgres.Receipts.{
  Cause, no_generation, other_generation, other_write, other_number, statement_failed, Step,
  refused, recalled, written, apply-Step,
}
use adg_lang.Journal.Postgres.ExactlyOnce.{request_ids, has_of_taken, weaken_bound}
use adg_lang.Journal.Postgres.Log.{
  Executed, is_request, AreReceiptsOf, IsSameWrite, IsSameWrite-iff, logged, not_logged,
  not_other_number,
}
use adg_lang.Journal.Postgres.Statements.{Runs, Fails, Runs-of, Fails-of}

module _ {S : Type 0} (execute : Operation → S → Result Failure (RunResult × S)) where
  -- The store is what the writes of the log make of the first store: all statements of the oldest
  -- write, then all of the next one.
  pub data Stored (first : S) : List Executed → S → Type 0 where
    untouched : Stored first [] first
    after :
        {log : List Executed} {s t : S} {rs : List RunResult} (w : Write) (m : Mark)
        → Stored first log s
        → Runs execute w.operations s rs t
        → Stored first (record { write = w; mark = m } ∷ log) t

  -- PostgreSQL holds this log: its receipts are the ones of the writes, with distinct request ids
  -- and numbers that were drawn, and its store is what their statements make of the first store.
  pub record Holds (first : S) (log : List Executed) (p : Postgres S) : Type 0 where
    pub receipts : AreReceiptsOf log p.receipts
    pub distinct : AllDistinct (request_ids p.receipts)
    pub bounded : All (λ r. r.receipt_seq ≤ p.last_seq) p.receipts
    pub stored : Stored first log p.store

  -- The machine that keeps a log, where this generation is current. It throws, with nothing
  -- executed, where there is no generation, where the write demands another one, where the log has
  -- a write with this request id that differs in hash, kind or number of statements, and where a
  -- statement fails. It answers with no changes and the coordinates of the write of the log that
  -- has this request id, where they do not differ. Where the log has no such write, it executes
  -- every statement, answers with the result of each, and logs the write.
  pub data Answer (current : Option ℕ) (w : Write) (log : List Executed) (s : S)
      : Result Failure Applied → List Executed → S → Type 0 where
    unset :
        current ≡ none
        → Answer current w log s
            (err (plain_error "PostgreSQL CPOLY runtime state is missing."))
            log
            s
    elsewhere :
        (g : ℕ)
        → current ≡ some g
        → forced_or w.forced_generation g ≢ g
        → Answer current w log s (err (mismatch_error (forced_or w.forced_generation g) g)) log s
    conflicting :
        (e : Executed)
        → find (is_request w.request_id) log ≡ some e
        → ¬ IsSameWrite e.write w
        → Answer current w log s (err (conflict_error w)) log s
    failing :
        (e : Failure)
        → find (is_request w.request_id) log ≡ none
        → Fails execute w.operations s e
        → Answer current w log s (err e) log s
    repeated :
        (g : ℕ) (e : Executed)
        → current ≡ some g
        → forced_or w.forced_generation g ≡ g
        → find (is_request w.request_id) log ≡ some e
        → IsSameWrite e.write w
        → Answer current w log s
            (ok (record { results = zero_results_for_operations w.operations; receipt = e.mark }))
            log
            s
    executed :
        {t : S} {rs : List RunResult} (g seq : ℕ)
        → current ≡ some g
        → forced_or w.forced_generation g ≡ g
        → find (is_request w.request_id) log ≡ none
        → Runs execute w.operations s rs t
        → Answer current w log s
            (ok (record { results = rs; receipt = record { generation = g; receipt_seq = seq } }))
            (record { write = w; mark = record { generation = g; receipt_seq = seq } } ∷ log)
            t

  -- The answer of the machine, with the log that PostgreSQL then holds.
  pub record Implements (first : S) (w : Write) (log : List Executed) (p : Postgres S)
      (o : Result Failure Applied × Postgres S) : Type 0 where
    pub after_log : List Executed
    pub answers : Answer p.current_generation w log p.store o.0 after_log o.1.store
    pub holds : Holds first after_log o.1

  keeps_holding :
      (first : S) (log : List Executed) (p : Postgres S) (n : ℕ)
      → p.last_seq ≤ n
      → Holds first log p
      → Holds first log (record p { last_seq = n })
  keeps_holding first log p n le h = record {
    receipts = h.receipts;
    distinct = h.distinct;
    bounded = weaken_bound p.last_seq n p.receipts le h.bounded;
    stored = h.stored;
  }

  cause_answers :
      (first : S) (w : Write) (log : List Executed) (p : Postgres S) (e : Failure)
      → Holds first log p
      → Cause execute w p e
      → Answer p.current_generation w log p.store (err e) log p.store
  cause_answers first w log p e h (no_generation n) = unset n
  cause_answers first w log p e h (other_generation g eg n) = elsewhere g eg λ same. ground arith
  cause_answers first w log p e h (other_write r f d) =
      let (v, found, k) = logged w.request_id log p.receipts h.receipts f in
      conflicting v found λ same. let m = (IsSameWrite-iff w k).1 same in cc
  cause_answers first w log p e h (other_number t n) =
      absurd (not_other_number w.request_id p.last_seq p.receipts h.bounded n t)
  cause_answers first w log p e h (statement_failed n q) =
      failing e (not_logged w.request_id (suc p.last_seq) log p.receipts h.receipts n)
        (Fails-of execute w.operations p.store e q)

  Implements-Step :
      (first : S) (w : Write) (now : ℕ) (log : List Executed) (p : Postgres S)
      {o : Result Failure Applied × Postgres S}
      → Holds first log p
      → Step execute w now p o
      → Implements first w log p o
  Implements-Step first w now log p h (refused e n why le) = record {
    after_log = log;
    answers = cause_answers first w log p e h why;
    holds = keeps_holding first log p n le h;
  }
  Implements-Step first w now log p h (recalled g r eg ef f m) =
      let (e, found, k) = logged w.request_id log p.receipts h.receipts f in
      record {
        after_log = log;
        answers = rw (sym k.coordinates) (repeated g e eg ef found ((IsSameWrite-iff w k).0 m));
        holds = keeps_holding first log p (suc p.last_seq) (omega arith) h;
      }
  Implements-Step first w now log p h (written g rs s eg ef n q) =
      let m : Mark = record { generation = g; receipt_seq = suc p.last_seq } in
      let runs = Runs-of execute w.operations p.store s rs q in
      record {
        after_log = record { write = w; mark = m } ∷ log;
        answers =
            executed g (suc p.last_seq) eg ef
              (not_logged w.request_id (suc p.last_seq) log p.receipts h.receipts n) runs;
        holds = record {
          receipts = (
            record {
              request_id = refl;
              payload_hash = refl;
              operation_kind = refl;
              statement_count = refl;
              coordinates = refl;
            },
            h.receipts,
          );
          distinct = (has_of_taken w.request_id (suc p.last_seq) p.receipts n, h.distinct);
          bounded = (omega arith, weaken_bound p.last_seq _ p.receipts (omega arith) h.bounded);
          stored = after w m h.stored runs;
        };
      }

  -- PostgreSQL implements a machine that keeps a log of executed writes. Where PostgreSQL holds a
  -- log (its receipts are the ones of the log's writes, and its store is what all their statements
  -- make of the first store), a call of `applyMutatingOperationsWithReceipt` leaves it with a log
  -- again. Where there is no generation or the write demands another one, the call throws, and the
  -- log and the store are unchanged. Otherwise, where the log has a write with this request id, the
  -- log and the store are unchanged too: the call gives results of no change and the coordinates of
  -- that write, if it has the same hash, kind and number of statements, and throws a conflict if
  -- not. Where the log has none, the call either executes each statement of this very write once
  -- and in order, gives the result of each, and puts the write in front of the log; or a statement
  -- reads or is refused by the store, and the call throws this error with the log and the store
  -- unchanged.
  pub apply-Implements :
      (first : S) (w : Write) (now : ℕ) (log : List Executed) (p : Postgres S)
      → Holds first log p
      → Implements first w log p (apply_mutating_operations_with_receipt execute w now p)
  apply-Implements first w now log p h =
      Implements-Step first w now log p h (apply-Step execute w now p)
