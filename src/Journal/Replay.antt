-- ===== src/Journal/Replay.antt =====
-- `replayRecoveryJournal`, `cleanupRecoveryJournal` and `completeRecoveryReplay` of
-- tools/msa-adjudication-workbench/src/database.js, and `constantTimeHexEqual` of
-- tools/msa-adjudication-workbench/src/cpoly-recovery.js. The `while (true)` of a replay runs on
-- fuel: none says that it ran out.
pub mod Faithful
pub mod Drain
use Prim.Native.Char.{code}
use Prim.Native.String
use adg_lang.Common.{
  ℕ, zero, suc, ◌+◌, Bool, true, false, not, ◌&&◌, ◌||◌, List, [], ◌∷◌, String, str_eq, leb, length,
  ◌==◌, if◌then◌else◌, Option, none, some, Result, ok, err,
}
use adg_lang.Js.{str, strict_eq}
use adg_lang.Js.Search.{lower_includes}
use adg_lang.Journal.Errors.{
  Failure, plain_error, is_ambiguous_postgres_write_error, is_terminal_postgres_write_rejection,
}
use adg_lang.Journal.Payload.{Operation, Codec, ParsedPayload, parse_journal_payload}
use adg_lang.Journal.Entries.{
  Journal, Entry, Coverage, blocking, terminal_rejected, requeue_ambiguous_failed_journal_entries,
  load_recovery_journal_candidates, load_recovery_replay_batch, count_recovery_replay_pending,
  select_covered, delete_rows,
}
use adg_lang.Journal.Postgres.{
  RunResult, Mark, Applied, promote_recovery_generation, get_current_receipt_watermark,
}
use adg_lang.Journal.Calls.{
  M, pure, throw, lift, attempt, throw_when, clock, modify, inspect, on_postgres, ◌>>=◌, ◌>>◌,
}
use adg_lang.Journal.Writes.{Settings, finalize, mark_pending, mark_failed, apply_with_receipt}

abbrev pub is_hex_digit : ℕ → Bool
is_hex_digit c = leb 48 c && leb c 57 || leb 97 c && leb c 102

abbrev pub is_hex_of : ℕ → String → Bool
is_hex_of zero String.[] = true
is_hex_of (suc n) (String.◌∷◌ c s) = is_hex_digit (code c) && is_hex_of n s
is_hex_of n s = false

-- Equal bytes have equal digits here, since the pattern admits small letters only.
unfoldable pub constant_time_hex_equal : String → String → Bool
constant_time_hex_equal left right = is_hex_of 64 left && is_hex_of 64 right && str_eq left right

abbrev pub hash_error : Failure
hash_error = plain_error "Stored PostgreSQL journal payload hash mismatch."

abbrev pub metadata_error : Failure
metadata_error = plain_error "Stored PostgreSQL journal metadata mismatch."

abbrev pub disagrees : ParsedPayload → Entry → Bool
disagrees p e =
    not (strict_eq p.operation_kind (str e.operation_kind))
    || not (length p.operations == e.statement_count)

-- A failure that no repetition mends.
unfoldable pub is_definitive : Failure → Bool
is_definitive e = e.is_receipt_conflict || lower_includes "stored postgresql journal" e.message

abbrev pub is_rejection : Failure → Bool
is_rejection e = not (is_definitive e) && is_terminal_postgres_write_rejection e

abbrev pub is_unavailable : Settings → Bool
is_unavailable c = not c.has_recovery_db || str_eq c.recovery_master_key ""

pub record Completion : Type 0 where
  pub generation : ℕ
  pub receipt_seq : ℕ
  pub replayed : ℕ
  pub pending : ℕ

module _ {S : Type 0} where
  -- The mark that a replay leaves on an entry whose write was not rejected for good.
  abbrev pub mark_blocked : String → Failure → M S (Unit {0})
  mark_blocked request_id e =
      if not (is_definitive e) && is_ambiguous_postgres_write_error e
      then mark_pending request_id e
      else mark_failed request_id blocking e

  unfoldable pub record_replay_failure : String → Failure → M S (Unit {0})
  record_replay_failure request_id e =
      if is_rejection e
      then mark_failed request_id terminal_rejected e
      else mark_blocked request_id e

  module _ (execute : Operation → S → Result Failure (RunResult × S)) (k : Codec) where
    abbrev pub apply_entry : Option ℕ → Entry → ParsedPayload → M S (Unit {0})
    apply_entry forced e payload =
        apply_with_receipt execute record {
          request_id = e.request_id;
          payload_hash = e.payload_hash;
          operation_kind = e.operation_kind;
          operations = payload.operations;
          forced_generation = forced;
        }
        >>= λ a. finalize e.request_id a.receipt

    -- One entry of the journal, read back, checked, applied and marked.
    unfoldable pub replay_entry : Option ℕ → Entry → M S (Unit {0})
    replay_entry forced e = lift (k.decrypt e.ciphertext) >>= λ json.
        throw_when (not (constant_time_hex_equal (k.sha256 json) e.payload_hash)) hash_error
        >> (lift (parse_journal_payload k json e.request_id) >>= λ payload.
            throw_when (disagrees payload e) metadata_error >> apply_entry forced e payload)

    -- 1 where the entry was replayed; a failure is kept in the journal.
    abbrev pub replay_item : Entry → M S ℕ
    replay_item e =
        attempt (replay_entry none e >> pure 1)
          (λ x. attempt (record_replay_failure e.request_id x) (λ y. pure tt) >> pure 0)

    abbrev pub replay_items : List Entry → M S ℕ
    replay_items [] = pure 0
    replay_items (e ∷ es) = replay_item e >>= λ n. replay_items es >>= λ m. pure (n + m)

    unfoldable pub replay_recovery_journal : Settings → ℕ → M S ℕ
    replay_recovery_journal c limit =
        if is_unavailable c
        then pure 0
        else (clock >>= λ now.
            modify (requeue_ambiguous_failed_journal_entries now)
            >> (inspect (load_recovery_journal_candidates limit) >>= λ candidates.
                replay_items candidates))

    -- Here a failure that is no rejection ends the replay.
    abbrev pub drain_item : ℕ → Entry → M S ℕ
    drain_item target e = attempt (replay_entry (some target) e >> pure 1) (λ x.
        if is_rejection x
        then mark_failed e.request_id terminal_rejected x >> pure 0
        else mark_blocked e.request_id x >> throw x)

    abbrev pub drain_batch : ℕ → List Entry → M S ℕ
    drain_batch target [] = pure 0
    drain_batch target (e ∷ es) =
        drain_item target e >>= λ n. drain_batch target es >>= λ m. pure (n + m)

    abbrev pub drain_next : (ℕ → M S (Option ℕ)) → ℕ → ℕ → List Entry → M S (Option ℕ)
    drain_next again target replayed [] = pure (some replayed)
    drain_next again target replayed (e ∷ es) =
        drain_batch target (e ∷ es) >>= λ n. again (replayed + n)

    unfoldable pub drain : ℕ → Coverage → ℕ → ℕ → ℕ → M S (Option ℕ)
    drain zero snapshot target limit replayed = pure none
    drain (suc fuel) snapshot target limit replayed =
        inspect (load_recovery_replay_batch snapshot target limit) >>= λ batch.
        drain_next (drain fuel snapshot target limit) target replayed batch

    abbrev pub conclude : Coverage → ℕ → Option ℕ → M S (Option Completion)
    conclude snapshot target none = pure none
    conclude snapshot target (some replayed) =
        inspect (count_recovery_replay_pending snapshot target) >>= λ pending.
        on_postgres get_current_receipt_watermark >>= λ receipt. pure (
          some (record {
            generation = receipt.generation;
            receipt_seq = receipt.receipt_seq;
            replayed = replayed;
            pending = pending;
          }))

    unfoldable pub complete_recovery_replay :
        ℕ → Settings → Coverage → ℕ → ℕ → M S (Option Completion)
    complete_recovery_replay fuel c snapshot target limit =
        if is_unavailable c
        then throw (plain_error "Recovery journal is unavailable.")
        else (clock >>= λ now.
            modify (requeue_ambiguous_failed_journal_entries now)
            >> on_postgres (promote_recovery_generation snapshot target)
            >> (drain fuel snapshot target limit 0 >>= conclude snapshot target))

  abbrev pub delete_covered : List String → M S ℕ
  delete_covered [] = pure 0
  delete_covered (i ∷ is) = modify (delete_rows (i ∷ is)) >> pure (length (i ∷ is))

  abbrev pub clean : Option Coverage → ℕ → M S ℕ
  clean none limit = pure 0
  clean (some snapshot) limit = inspect (select_covered snapshot limit) >>= delete_covered

  unfoldable pub cleanup_recovery_journal : Settings → Option Coverage → ℕ → M S ℕ
  cleanup_recovery_journal c verified limit =
      if c.has_recovery_db then clean verified limit else pure 0
