-- ===== src/Journal/Writes.antt =====
-- `executeMutatingOperations`, `executeMutatingOperation` and `ensureRecoveryJournalAvailable` of
-- tools/msa-adjudication-workbench/src/database.js: a write with its journal entry. The request id
-- is the one that the factory gives.
pub mod Faithful
pub mod NotLost
use adg_lang.Common.{
  ℕ, Bool, true, false, not, ◌&&◌, ◌||◌, List, [], ◌∷◌, String, str_eq, ltb, length, if◌then◌else◌,
  Option, none, some, Result, ok, err,
}
use adg_lang.Journal.Errors.{
  Failure, plain_error, is_ambiguous_postgres_write_error, is_terminal_postgres_write_rejection,
  journal_failure_message,
}
use adg_lang.Journal.Payload.{Operation, Codec, build_journal_payload}
use adg_lang.Journal.Entries.{
  Journal, Entry, Disposition, blocking, terminal_rejected, pending_entry,
  insert_pending_journal_entry, mark_journal_applied, mark_journal_pending, mark_journal_failed,
}
use adg_lang.Journal.Postgres.{
  RunResult, Mark, Applied, Write, apply_mutating_operations_with_receipt,
  apply_mutating_operations_direct,
}
use adg_lang.Journal.Calls.{
  M, pure, throw, lift, attempt, throw_when, clock, modify, on_journal, on_postgres, ◌>>=◌, ◌>>◌,
}

-- The fields of `JournaledPostgresD1Database`.
pub record Settings : Type 0 where
  pub disable_recovery_journal : Bool
  pub has_recovery_db : Bool
  pub recovery_master_key : String
  pub journal_max_bytes : ℕ

abbrev pub constraint_error : Failure
constraint_error = plain_error "D1_ERROR: constraint failed"

abbrev inserted : Journal → Option Journal → Result Failure (Unit {0}) × Journal
inserted j none = (err constraint_error, j)
inserted j (some j') = (ok tt, j')

-- The write that the arguments ask for.
abbrev pub write_of : Codec → String → List Operation → String → Write
write_of k request_id operations operation_kind = record {
  request_id = request_id;
  payload_hash = (build_journal_payload k request_id operation_kind operations).hash;
  operation_kind = operation_kind;
  operations = operations;
  forced_generation = none;
}

module _ {S : Type 0} where
  unfoldable pub ensure_recovery_journal_available : Settings → M S (Unit {0})
  ensure_recovery_journal_available c =
      if c.disable_recovery_journal
      then pure tt
      else if not c.has_recovery_db
      then throw (
          plain_error
            "PostgreSQL writes are blocked because the D1 recovery journal is unavailable.")
      else throw_when (str_eq c.recovery_master_key "")
          (plain_error "PostgreSQL writes are blocked because CPOLY_BACKUP_MASTER_KEY is missing.")

  abbrev pub insert_pending : Entry → M S (Unit {0})
  insert_pending e = on_journal (λ j. inserted j (insert_pending_journal_entry e j))

  -- The row of the journal gets the coordinates of the receipt.
  abbrev pub finalize : String → Mark → M S (Unit {0})
  finalize request_id receipt = clock >>= λ now.
      modify
        (mark_journal_applied request_id now (some receipt.generation) (some receipt.receipt_seq))

  abbrev pub mark_pending : String → Failure → M S (Unit {0})
  mark_pending request_id e =
      clock >>= λ now. modify (mark_journal_pending request_id (journal_failure_message e) now)

  abbrev pub mark_failed : String → Disposition → Failure → M S (Unit {0})
  mark_failed request_id disposition e = clock >>= λ now.
      modify (mark_journal_failed request_id disposition (journal_failure_message e) now)

  -- What the journal keeps of a write that threw.
  unfoldable pub record_failure : String → Failure → M S (Unit {0})
  record_failure request_id e =
      let rejected = is_terminal_postgres_write_rejection e in
      if not rejected && is_ambiguous_postgres_write_error e
      then mark_pending request_id e
      else mark_failed request_id (if rejected then terminal_rejected else blocking) e

  module _ (execute : Operation → S → Result Failure (RunResult × S)) where
    unfoldable pub apply_with_receipt : Write → M S Applied
    apply_with_receipt w =
        clock >>= λ now. on_postgres (apply_mutating_operations_with_receipt execute w now)

    abbrev pub apply_and_finalize : Write → M S (List RunResult)
    apply_and_finalize w = apply_with_receipt w >>= λ a.
        attempt (finalize w.request_id a.receipt) (λ e. pure tt) >> pure a.results

    abbrev pub send : Write → M S (List RunResult)
    send w =
        attempt (apply_and_finalize w)
          (λ e. attempt (record_failure w.request_id e) (λ e'. pure tt) >> throw e)

    -- The write, once its entry is encrypted.
    abbrev pub journal_write : Settings → Write → List ℕ → M S (List RunResult)
    journal_write c w ciphertext =
        throw_when (ltb c.journal_max_bytes (length ciphertext))
          (plain_error "PostgreSQL recovery journal payload exceeded the configured D1 cap.")
        >> (clock >>= λ now.
            insert_pending (
              pending_entry w.request_id w.payload_hash w.operation_kind (length w.operations)
                ciphertext now)
            >> send w)

    abbrev pub journaled :
        Settings → Codec → String → List Operation → String → M S (List RunResult)
    journaled c k request_id operations operation_kind =
        ensure_recovery_journal_available c
        >> (lift (k.encrypt (build_journal_payload k request_id operation_kind operations).json)
            >>= journal_write c (write_of k request_id operations operation_kind))

    unfoldable pub execute_mutating_operations :
        Settings → Codec → String → List Operation → String → M S (List RunResult)
    execute_mutating_operations c k request_id operations operation_kind =
        if c.disable_recovery_journal
        then on_postgres (apply_mutating_operations_direct execute operations)
        else journaled c k request_id operations operation_kind
