-- ===== src/Journal/Entries.antt =====
-- The table `cpoly_pg_write_journal` of D1 and the statements on it: `insertPendingJournalEntry`,
-- `markJournalApplied`, `markJournalPending`, `markJournalFailed`,
-- `requeueAmbiguousFailedJournalEntries`, `loadRecoveryJournalCandidates`,
-- `cleanupAppliedRecoveryJournal`, `loadRecoveryReplayBatch` and `countRecoveryReplayPending` of
-- tools/msa-adjudication-workbench/src/cpoly-recovery.js, with the table's constraints
-- (migrations/0005_cpoly_recovery.sql) except the form of the hash.
pub mod Cleanup
pub mod Candidates
use Prim.Native.Char.{code}
use Prim.Native.String
use adg_lang.Common.{
  ℕ, zero, suc, ◌+◌, Bool, true, false, not, ◌&&◌, ◌||◌, List, [], ◌∷◌, map, String, str_eq, leb,
  ltb, ◌==◌, any, select, take, length, if◌then◌else◌, Option, none, some,
}
use adg_lang.Js.Search.{occurs}
use adg_lang.Journal.Errors.{ambiguous_markers, bound_error_message}

pub data Status : Type 0 where
  pending applied failed : Status

pub data Disposition : Type 0 where
  blocking terminal_rejected : Disposition

pub record Entry : Type 0 where
  pub request_id : String
  pub payload_hash : String
  pub operation_kind : String
  pub statement_count : ℕ
  pub status : Status
  pub recovery_disposition : Disposition
  pub ciphertext : List ℕ
  pub attempts : ℕ
  pub last_error : String
  pub created_at : ℕ
  pub updated_at : ℕ
  pub applied_at : Option ℕ
  pub postgres_generation : Option ℕ
  pub postgres_receipt_seq : Option ℕ

abbrev pub Journal : Type 0
Journal = List Entry

abbrev pub has_id : String → Entry → Bool
has_id request_id e = str_eq e.request_id request_id

abbrev pub is_accepted : Entry → Bool
is_accepted e =
    (str_eq e.operation_kind "run" || str_eq e.operation_kind "batch")
    && leb 1 e.statement_count
    && leb e.statement_count 512
    && leb (length e.ciphertext) 1800000

abbrev pub pending_entry : String → String → String → ℕ → List ℕ → ℕ → Entry
pending_entry request_id payload_hash operation_kind statement_count ciphertext now = record {
  request_id = request_id;
  payload_hash = payload_hash;
  operation_kind = operation_kind;
  statement_count = statement_count;
  status = pending;
  recovery_disposition = blocking;
  ciphertext = ciphertext;
  attempts = 0;
  last_error = "";
  created_at = now;
  updated_at = now;
  applied_at = none;
  postgres_generation = none;
  postgres_receipt_seq = none;
}

-- None where a constraint refuses the row.
unfoldable pub insert_pending_journal_entry : Entry → Journal → Option Journal
insert_pending_journal_entry e j =
    if any (has_id e.request_id) j || not (is_accepted e) then none else some (e ∷ j)

-- `COALESCE(a, b)`
abbrev pub coalesce : Option ℕ → Option ℕ → Option ℕ
coalesce none b = b
coalesce (some n) b = some n

-- An `UPDATE … WHERE request_id = ?`
abbrev pub update : String → (Entry → Entry) → Journal → Journal
update request_id f [] = []
update request_id f (e ∷ es) = (if has_id request_id e then f e else e) ∷ update request_id f es

abbrev pub applied_entry : ℕ → Option ℕ → Option ℕ → Entry → Entry
applied_entry now generation receipt_seq e = record e {
  status = applied;
  recovery_disposition = blocking;
  attempts = e.attempts + 1;
  last_error = "";
  updated_at = now;
  applied_at = coalesce e.applied_at (some now);
  postgres_generation = coalesce generation e.postgres_generation;
  postgres_receipt_seq = coalesce receipt_seq e.postgres_receipt_seq;
}

unfoldable pub mark_journal_applied : String → ℕ → Option ℕ → Option ℕ → Journal → Journal
mark_journal_applied request_id now generation receipt_seq =
    update request_id (applied_entry now generation receipt_seq)

abbrev pub waiting_entry : String → ℕ → Entry → Entry
waiting_entry message now e = record e {
  status = pending;
  recovery_disposition = blocking;
  attempts = e.attempts + 1;
  last_error = bound_error_message message;
  updated_at = now;
}

unfoldable pub mark_journal_pending : String → String → ℕ → Journal → Journal
mark_journal_pending request_id message now = update request_id (waiting_entry message now)

abbrev pub failed_entry : Disposition → String → ℕ → Entry → Entry
failed_entry disposition message now e = record e {
  status = failed;
  recovery_disposition = disposition;
  attempts = e.attempts + 1;
  last_error = bound_error_message message;
  updated_at = now;
}

unfoldable pub mark_journal_failed : String → Disposition → String → ℕ → Journal → Journal
mark_journal_failed request_id disposition message now =
    update request_id (failed_entry disposition message now)

abbrev pub is_pending : Status → Bool
is_pending pending = true
is_pending s = false

abbrev pub is_applied : Status → Bool
is_applied applied = true
is_applied s = false

abbrev pub is_failed : Status → Bool
is_failed failed = true
is_failed s = false

abbrev pub is_blocking : Disposition → Bool
is_blocking blocking = true
is_blocking terminal_rejected = false

-- SQLite's `lower`, which maps ASCII only.
abbrev sqlite_lower : ℕ → ℕ
sqlite_lower c = if leb 65 c && leb c 90 then c + 32 else c

abbrev pub is_like_marker : String → Bool
is_like_marker message = any (λ marker. occurs sqlite_lower marker message) ambiguous_markers

abbrev pub is_requeued : Entry → Bool
is_requeued e =
    is_failed e.status && is_blocking e.recovery_disposition && is_like_marker e.last_error

abbrev pub requeued_entry : ℕ → Entry → Entry
requeued_entry now e = record e {
  status = pending;
  recovery_disposition = blocking;
  updated_at = now;
}

unfoldable pub requeue_ambiguous_failed_journal_entries : ℕ → Journal → Journal
requeue_ambiguous_failed_journal_entries now [] = []
requeue_ambiguous_failed_journal_entries now (e ∷ es) =
    (if is_requeued e then requeued_entry now e else e)
    ∷ requeue_ambiguous_failed_journal_entries now es

abbrev pub is_none : Option ℕ → Bool
is_none none = true
is_none (some n) = false

-- `ORDER BY`: rows with the same key stay in the order of the table.
abbrev pub insert_sorted : (Entry → Entry → Bool) → Entry → List Entry → List Entry
insert_sorted before e [] = e ∷ []
insert_sorted before e (f ∷ fs) =
    let later = insert_sorted before e fs in if before f e then f ∷ later else e ∷ f ∷ fs

abbrev pub sort : (Entry → Entry → Bool) → List Entry → List Entry
sort before [] = []
sort before (e ∷ es) = insert_sorted before e (sort before es)

abbrev pub is_older : Entry → Entry → Bool
is_older a b = ltb a.created_at b.created_at

abbrev pub lacks_receipt : Entry → Bool
lacks_receipt e = is_none e.postgres_generation || is_none e.postgres_receipt_seq

abbrev pub is_candidate : Entry → Bool
is_candidate e = is_pending e.status || is_applied e.status && lacks_receipt e

unfoldable pub load_recovery_journal_candidates : ℕ → Journal → List Entry
load_recovery_journal_candidates limit j = take limit (sort is_older (select is_candidate j))

-- A snapshot: the generation of PostgreSQL that it was taken of, and its newest receipt.
pub record Coverage : Type 0 where
  pub generation : ℕ
  pub watermark : ℕ

-- A comparison with NULL is not true.
abbrev pub value_or_zero : Option ℕ → ℕ
value_or_zero none = 0
value_or_zero (some n) = n

abbrev pub is_covered_at : Coverage → ℕ → ℕ → Bool
is_covered_at snapshot generation seq =
    ltb generation snapshot.generation
    || generation == snapshot.generation && leb seq snapshot.watermark

abbrev pub is_deletable : Coverage → Entry → Bool
is_deletable snapshot e =
    is_applied e.status
    && not (is_none e.postgres_receipt_seq)
    && not (is_none e.postgres_generation)
    && is_covered_at snapshot (value_or_zero e.postgres_generation)
        (value_or_zero e.postgres_receipt_seq)

-- Generation, then receipt, then time.
abbrev pub is_before : ℕ → ℕ → Bool → Bool
is_before a b later = ltb a b || a == b && later

abbrev pub precedes : Entry → Entry → Bool
precedes a b =
    is_before (value_or_zero a.postgres_generation) (value_or_zero b.postgres_generation) (
      is_before (value_or_zero a.postgres_receipt_seq) (value_or_zero b.postgres_receipt_seq)
        (is_older a b))

abbrev pub ids : List Entry → List String
ids [] = []
ids (e ∷ es) = e.request_id ∷ ids es

-- The request ids that one cleaning deletes.
unfoldable pub select_covered : Coverage → ℕ → Journal → List String
select_covered snapshot limit j =
    ids (take limit (sort precedes (select (is_deletable snapshot) j)))

abbrev pub delete_row : String → Journal → Journal
delete_row request_id j = select (λ e. not (has_id request_id e)) j

unfoldable pub delete_rows : List String → Journal → Journal
delete_rows [] j = j
delete_rows (k ∷ ks) j = delete_rows ks (delete_row k j)

-- A receipt of a generation before the target that the snapshot does not cover.
abbrev pub is_in_gap : Coverage → ℕ → ℕ → ℕ → Bool
is_in_gap snapshot target generation seq =
    ltb generation target
    && (ltb snapshot.generation generation
        || generation == snapshot.generation && ltb snapshot.watermark seq)

abbrev pub is_replayable : Coverage → ℕ → Entry → Bool
is_replayable snapshot target e =
    is_pending e.status
    || is_applied e.status
      && (lacks_receipt e
          || is_in_gap snapshot target (value_or_zero e.postgres_generation)
              (value_or_zero e.postgres_receipt_seq))

unfoldable pub load_recovery_replay_batch : Coverage → ℕ → ℕ → Journal → List Entry
load_recovery_replay_batch snapshot target limit j =
    take limit (sort is_older (select (is_replayable snapshot target) j))

abbrev pub is_unsettled : Coverage → ℕ → Entry → Bool
is_unsettled snapshot target e =
    is_failed e.status && is_blocking e.recovery_disposition || is_replayable snapshot target e

unfoldable pub count_recovery_replay_pending : Coverage → ℕ → Journal → ℕ
count_recovery_replay_pending snapshot target j = length (select (is_unsettled snapshot target) j)
