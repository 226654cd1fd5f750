-- ===== src/Tests/Journals.antt =====
-- Concrete journals and runs.
use adg_lang.Common.{
  ◌≤◌, ◌≡◌, refl, true, false, List, [], ◌∷◌, String, str_eq, ◌⊎◌, none, some, Result, ok, err,
  find, arith,
}
use adg_lang.Js.{str}
use adg_lang.Js.Search.{starts_with, lower_includes}
use adg_lang.Js.Text.{to_text}
use adg_lang.Worker.Drafts.{is_uuid}
use adg_lang.Protocol.Values.{unit_length}
use adg_lang.Journal.Errors.{
  Failure, plain_error, is_code_of, bound_error_message, is_terminal_postgres_write_rejection,
  is_ambiguous_postgres_write_error,
}
use adg_lang.Journal.Errors.Bounds.{bound_error_message-le}
use adg_lang.Journal.Payload.{
  absent, text, flag, Operation, Codec, build_journal_payload, payload_value, parse_journal_payload,
  serialize_journal_value, deserialize_journal_value,
}
use adg_lang.Journal.Payload.RoundTrip.{parse-build_journal_payload}
use adg_lang.Journal.Entries.{
  Entry, Coverage, pending_entry, applied_entry, has_id, is_deletable, select_covered, delete_rows,
  count_recovery_replay_pending, mark_journal_pending, mark_journal_failed, mark_journal_applied,
  requeue_ambiguous_failed_journal_entries, load_recovery_replay_batch,
}
use adg_lang.Journal.Entries.Cleanup.{delete_rows-select_covered}
use adg_lang.Journal.Entries.Candidates.{measure}
use adg_lang.Journal.Postgres.{
  Postgres, RunResult, Write, zero_results_for_operations, is_run,
  apply_mutating_operations_with_receipt, promote_recovery_generation,
  get_current_receipt_watermark,
}
use adg_lang.Journal.Postgres.ExactlyOnce.{same, apply-apply}
use adg_lang.Journal.Postgres.Log.{Executed}
use adg_lang.Journal.Postgres.Statements.{nothing_left, next}
use adg_lang.Journal.Postgres.Refinement.{untouched, after, Holds, Implements, apply-Implements}
use adg_lang.Journal.Calls.{State, fine, unheard, World, clock}
use adg_lang.Journal.Backed.{IsFaithful, KeepsAll}
use adg_lang.Journal.Writes.{
  Settings, write_of, send, apply_with_receipt, record_failure, execute_mutating_operations,
}
use adg_lang.Journal.Writes.Faithful.{Sent, execute_mutating_operations-IsFaithful}
use adg_lang.Journal.Writes.NotLost.{quiet, send-counted}
use adg_lang.Journal.Replay.{
  Completion, replay_entry, constant_time_hex_equal, drain, replay_recovery_journal,
  complete_recovery_replay, cleanup_recovery_journal,
}
use adg_lang.Journal.Replay.Faithful.{replay_recovery_journal-IsFaithful}
use adg_lang.Journal.Replay.Drain.Ends.{complete_recovery_replay-ends}

-- The store is the list of the statements that ran.
abbrev log_statement : Operation → List String → Result Failure (RunResult × List String)
log_statement op s = ok (record { changes = 1; last_row_id = 0 }, op.sql ∷ s)

abbrev time_out : Operation → List String → Result Failure (RunResult × List String)
time_out op s = err (plain_error "Connection timeout.")

abbrev insert_task : Operation
insert_task = record {
  mode = "run";
  sql = "INSERT INTO tasks VALUES (?, ?, ?)";
  params = text "t1" ∷ flag true ∷ absent ∷ [];
}

abbrev request : String
request = "11111111-1111-4111-8111-111111111111"

abbrev some_hash : String
some_hash = "aaaaaaaaaaaaaaaaaaaaaaaaaaaaaaaaaaaaaaaaaaaaaaaaaaaaaaaaaaaaaaaa"

abbrev no_codec : Codec
no_codec = record {
  parse_json = λ s. err (plain_error "Unexpected token");
  btoa = λ bytes. "";
  atob = λ s. err (plain_error "not encoded");
  to_number = λ v. absent;
  sha256 = λ s. some_hash;
  encrypt = λ s. ok (1 ∷ []);
  decrypt = λ bytes. ok "{}";
}

-- `JSON.parse` that knows one text.
abbrev codec : Codec
codec = record no_codec {
  parse_json = λ s. ok (payload_value no_codec request "run" (insert_task ∷ []));
}

abbrev empty_postgres : Postgres (List String)
empty_postgres = record { current_generation = some 1; last_seq = 0; receipts = []; store = [] }

abbrev write : Write
write = write_of codec request (insert_task ∷ []) "run"

abbrev entry : Entry
entry = pending_entry request some_hash "run" 1 (1 ∷ []) 10

abbrev start : State (List String)
start = record { journal = entry ∷ []; pg = empty_postgres }

abbrev clean_start : State (List String)
clean_start = record { journal = []; pg = empty_postgres }

abbrev settings : Settings
settings = record {
  disable_recovery_journal = false;
  has_recovery_db = true;
  recovery_master_key = "key";
  journal_max_bytes = 100;
}

abbrev snapshot : Coverage
snapshot = record { generation = 1; watermark = 0 }

abbrev after_write : Postgres (List String)
after_write = record {
  current_generation = some 1;
  last_seq = 1;
  receipts =
      record {
        receipt_seq = 1;
        generation = 1;
        request_id = request;
        payload_hash = some_hash;
        operation_kind = "run";
        statement_count = 1;
        applied_at = 10;
      }
      ∷ [];
  store = "INSERT INTO tasks VALUES (?, ?, ?)" ∷ [];
}

-- Another write, of two different statements.
abbrev other_write : Write
other_write = record {
  request_id = "22222222-2222-4222-8222-222222222222";
  payload_hash = some_hash;
  operation_kind = "batch";
  operations =
      record { mode = "run"; sql = "UPDATE tasks SET state = ?"; params = text "open" ∷ [] }
      ∷ record { mode = "run"; sql = "DELETE FROM drafts"; params = [] }
      ∷ [];
  forced_generation = none;
}

abbrev one_executed : List Executed
one_executed = record { write = write; mark = record { generation = 1; receipt_seq = 1 } } ∷ []

after_write-Holds : Holds log_statement [] one_executed after_write
unfolding build_journal_payload is_run
after_write-Holds = record {
  receipts = (
    record {
      request_id = refl;
      payload_hash = refl;
      operation_kind = refl;
      statement_count = refl;
      coordinates = refl;
    },
    tt,
  );
  distinct = (refl, tt);
  bounded = (omega arith, tt);
  stored = after write _ untouched (next refl refl nothing_left);
}

apply-Implements_example :
    Implements log_statement [] other_write one_executed after_write
      (apply_mutating_operations_with_receipt log_statement other_write 20 after_write)
apply-Implements_example =
    apply-Implements log_statement [] other_write 20 one_executed after_write after_write-Holds

apply-apply_example :
    apply_mutating_operations_with_receipt log_statement write 20
      (apply_mutating_operations_with_receipt log_statement write 10 empty_postgres).1
    ≡ (
      ok (record {
        results = zero_results_for_operations (insert_task ∷ []);
        receipt = record { generation = 1; receipt_seq = 1 };
      }),
      record after_write { last_seq = 2 },
    )
unfolding apply_mutating_operations_with_receipt build_journal_payload is_run
apply-apply_example =
    apply-apply log_statement write 10 20 none 1 empty_postgres
      (apply_mutating_operations_with_receipt log_statement write 10 empty_postgres).1
      (record {
        results = record { changes = 1; last_row_id = 0 } ∷ [];
        receipt = record { generation = 1; receipt_seq = 1 };
      })
      refl same refl refl

-- The answer of the transaction is lost; another request runs before.
abbrev rough_world : World (List String)
rough_world = record {
  state = clean_start;
  waits =
      record { others = λ s. s; fault = fine }
      ∷ record { others = λ s. s; fault = unheard (plain_error "Connection reset.") }
      ∷ [];
  times = 10 ∷ 11 ∷ 12 ∷ [];
}

execute_mutating_operations-IsFaithful_example :
    let (r, w') =
      execute_mutating_operations log_statement settings codec request
        (insert_task ∷ [])
        "run"
        rough_world in
    IsFaithful w'.state
    × KeepsAll rough_world.state w'.state
    × ((rs : List RunResult) → r ≡ ok rs → Sent log_statement write w'.state)
execute_mutating_operations-IsFaithful_example =
    execute_mutating_operations-IsFaithful log_statement settings codec request (insert_task ∷ [])
      "run" rough_world refl
      (record { holds = tt; fair = ((λ s i. (i, λ id r h. h)), ((λ s i. (i, λ id r h. h)), tt)) })

abbrev calm_world : World (List String)
calm_world = record { state = start; waits = []; times = [] }

replay_recovery_journal-IsFaithful_example :
    (let w' = (replay_recovery_journal log_statement codec settings 24 calm_world).1 in
      IsFaithful w'.state × KeepsAll calm_world.state w'.state)
    × (let w' =
          (complete_recovery_replay log_statement codec 2 settings snapshot 2 24 calm_world).1 in
        IsFaithful w'.state × KeepsAll calm_world.state w'.state)
    × (let w' = (cleanup_recovery_journal settings (some snapshot) 24 calm_world).1 in
        IsFaithful w'.state × KeepsAll calm_world.state w'.state)
replay_recovery_journal-IsFaithful_example =
    replay_recovery_journal-IsFaithful log_statement codec settings 2 2 24 snapshot (some snapshot)
      calm_world (record { holds = (tt, tt); fair = tt })

abbrev replayed : Completion
replayed = record { generation = 2; receipt_seq = 1; replayed = 1; pending = 0 }

complete_recovery_replay-ends_example :
    ((done : Completion) × (some replayed ≡ some done))
    × (measure snapshot 2
          (complete_recovery_replay log_statement codec 2 settings snapshot 2 24
            calm_world).1.state.journal
        ≡ 0)
unfolding complete_recovery_replay requeue_ambiguous_failed_journal_entries
    promote_recovery_generation drain load_recovery_replay_batch replay_entry
    constant_time_hex_equal parse_journal_payload deserialize_journal_value serialize_journal_value
    is_uuid to_text apply_with_receipt apply_mutating_operations_with_receipt is_run clock
    mark_journal_applied count_recovery_replay_pending get_current_receipt_watermark
complete_recovery_replay-ends_example =
    complete_recovery_replay-ends snapshot 2 log_statement codec settings 2 23 calm_world
      (record { holds = tt; fair = tt }) (omega arith) (some replayed) refl

abbrev covered_entry : Entry
covered_entry = applied_entry 12 (some 1) (some 3) entry

delete_rows-select_covered_example :
    (find (has_id request) (
        delete_rows
          (select_covered (record snapshot { watermark = 5 }) 64 (covered_entry ∷ []))
          (covered_entry ∷ []))
      ≡ some covered_entry)
    ⊎ (is_deletable (record snapshot { watermark = 5 }) covered_entry ≡ true)
delete_rows-select_covered_example =
    delete_rows-select_covered request (record snapshot { watermark = 5 }) 64 (covered_entry ∷ [])
      covered_entry (refl, tt) refl

parse-build_journal_payload_example :
    parse_journal_payload codec
      (build_journal_payload codec request "run" (insert_task ∷ [])).json
      request
    ≡ ok (record {
      request_id = str request;
      operation_kind = str "run";
      operations = insert_task ∷ [];
    })
unfolding serialize_journal_value is_uuid
parse-build_journal_payload_example =
    parse-build_journal_payload codec request "run" insert_task [] refl refl refl
      ((refl, (tt, (tt, (tt, tt)))), tt)

bound_error_message-le_example :
    (unit_length (bound_error_message "Connection timeout.") ≤ 400)
    × (str_eq "Connection timeout." "" ≡ false
        → unit_length "Connection timeout." ≤ 400
        → bound_error_message "Connection timeout." ≡ "Connection timeout.")
bound_error_message-le_example = bound_error_message-le "Connection timeout."

send-counted_example :
    1
    ≤ count_recovery_replay_pending snapshot 2
        (send time_out write (quiet start (10 ∷ []))).1.state.journal
unfolding apply_mutating_operations_with_receipt is_run apply_with_receipt clock record_failure
    mark_journal_pending mark_journal_failed is_terminal_postgres_write_rejection
    is_ambiguous_postgres_write_error build_journal_payload starts_with lower_includes is_code_of
send-counted_example =
    send-counted time_out snapshot 2 write start (10 ∷ []) (plain_error "Connection timeout.") refl
      refl refl

-- PostgreSQL has a receipt beyond the snapshot, and the journal has its entry: each round takes the
-- entry again, since its receipt keeps its generation.
abbrev gap_world : World (List String)
gap_world = record calm_world {
  state = record { journal = applied_entry 12 (some 1) (some 1) entry ∷ []; pg = after_write };
}

endless_replay :
    (complete_recovery_replay log_statement codec 5 settings snapshot 2 24 gap_world).0 ≡ ok none
unfolding complete_recovery_replay requeue_ambiguous_failed_journal_entries
    promote_recovery_generation drain load_recovery_replay_batch replay_entry
    constant_time_hex_equal parse_journal_payload deserialize_journal_value serialize_journal_value
    is_uuid to_text apply_with_receipt apply_mutating_operations_with_receipt is_run clock
    mark_journal_applied count_recovery_replay_pending get_current_receipt_watermark
endless_replay = refl
