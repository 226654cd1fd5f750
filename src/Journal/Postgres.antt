-- ===== src/Journal/Postgres.antt =====
-- The transactions on PostgreSQL of `PostgresD1Database` in
-- tools/msa-adjudication-workbench/src/database.js: `applyMutatingOperationsWithReceipt`,
-- `applyMutatingOperationsDirect`, `promoteRecoveryGeneration` and `getCurrentReceiptWatermark`, on
-- the tables `cpoly_runtime_state` and `cpoly_write_receipts` and a store of all other tables.
-- What one statement does to the store is a parameter: it leaves these two tables alone.
pub mod Receipts
pub mod ExactlyOnce
pub mod Log
pub mod Statements
pub mod Refinement
use adg_lang.Common.{
  ℕ, zero, suc, ◌+◌, Bool, true, false, not, ◌&&◌, ◌||◌, List, [], ◌∷◌, map, String, str_eq, ltb,
  ◌==◌, any, find, length, if◌then◌else◌, Option, none, some, Result, ok, err, ◌>>=◌,
}
use Prim.Native.Char.{code}
use Prim.Native.String
use Prim.Native.String.{◌++◌}
use adg_lang.Js.Text.{show_ℕ}
use adg_lang.Js.Search.{begins, lower_code}
use adg_lang.Journal.Entries.{Coverage}
use adg_lang.Journal.Errors.{Failure, plain_error, receipt_conflict}
use adg_lang.Journal.Payload.{Operation, map_ok}

pub record Receipt : Type 0 where
  pub receipt_seq : ℕ
  pub generation : ℕ
  pub request_id : String
  pub payload_hash : String
  pub operation_kind : String
  pub statement_count : ℕ
  pub applied_at : ℕ

-- `last_seq` is the sequence of `receipt_seq`: a number that was drawn is not drawn again, also
-- where the row is not inserted or the transaction is rolled back.
pub record Postgres (S : Type 0) : Type 0 where
  pub current_generation : Option ℕ
  pub last_seq : ℕ
  pub receipts : List Receipt
  pub store : S

pub record RunResult : Type 0 where
  pub changes : ℕ
  pub last_row_id : ℕ

pub record Mark : Type 0 where
  pub generation : ℕ
  pub receipt_seq : ℕ

pub record Applied : Type 0 where
  pub results : List RunResult
  pub receipt : Mark

-- The argument of `applyMutatingOperationsWithReceipt`.
pub record Write : Type 0 where
  pub request_id : String
  pub payload_hash : String
  pub operation_kind : String
  pub operations : List Operation
  pub forced_generation : Option ℕ

abbrev zero_result : Operation → RunResult
zero_result op = record { changes = 0; last_row_id = 0 }

abbrev pub zero_results_for_operations : List Operation → List RunResult
zero_results_for_operations = map zero_result

-- The characters of `\s`.
abbrev is_space : ℕ → Bool
is_space c =
    c == 32
    || not (ltb c 9) && not (ltb 13 c)
    || c == 160
    || c == 5760
    || not (ltb c 8192) && not (ltb 8202 c)
    || c == 8232
    || c == 8233
    || c == 8239
    || c == 8287
    || c == 12288
    || c == 65279

-- A letter that `/[a-z]/iu` matches, as a small one; the long s becomes S in capitals.
abbrev fold : ℕ → ℕ
fold c = if c == 383 then 115 else lower_code c

abbrev is_letter : ℕ → Bool
is_letter c = not (ltb (fold c) 97) && not (ltb 122 (fold c))

-- The letters at the front are this word, whatever their case.
abbrev is_keyword : String → String → Bool
is_keyword String.[] String.[] = true
is_keyword String.[] (String.◌∷◌ d s) = not (is_letter (code d))
is_keyword (String.◌∷◌ c w) String.[] = false
is_keyword (String.◌∷◌ c w) (String.◌∷◌ d s) = code c == fold (code d) && is_keyword w s

abbrev starts_read : String → Bool
starts_read s =
    is_keyword "select" s || is_keyword "pragma" s || is_keyword "explain" s || is_keyword "with" s

-- `inferStatementMode(sql) === "all"`
unfoldable pub is_read : String → Bool
is_read String.[] = false
is_read (String.◌∷◌ c s) =
    let rest = is_read s in if is_space (code c) then rest else starts_read (String.◌∷◌ c s)

-- The text in small letters is the word.
abbrev is_word : String → String → Bool
is_word String.[] String.[] = true
is_word (String.◌∷◌ c w) (String.◌∷◌ d s) = code c == lower_code (code d) && is_word w s
is_word w s = false

-- `normalizeStatementMode(mode, sql) === "run"`
unfoldable pub is_run : String → String → Bool
unfolding is_read
is_run mode sql =
    if str_eq mode "" then not (is_read sql) else not (is_word "first" mode || is_word "all" mode)

-- The transaction with what its body gave: what it wrote is undone where it threw.
abbrev pub begin :
    {S A : Type 0} → Postgres S → Result Failure A × Postgres S → Result Failure A × Postgres S
begin p (ok a, p') = (ok a, p')
begin p (err e, p') = (err e, record p { last_seq = p'.last_seq })

abbrev pub taken : String → ℕ → Receipt → Bool
taken request_id seq r = r.receipt_seq == seq || str_eq r.request_id request_id

abbrev pub is_of : String → Receipt → Bool
is_of request_id r = str_eq r.request_id request_id

abbrev pub is_same_write : Write → Receipt → Bool
is_same_write w r =
    str_eq r.payload_hash w.payload_hash
    && str_eq r.operation_kind w.operation_kind
    && r.statement_count == length w.operations

abbrev pub max_seq : List Receipt → ℕ
max_seq [] = 0
max_seq (r ∷ rs) = let rest = max_seq rs in if ltb rest r.receipt_seq then r.receipt_seq else rest

abbrev pub forced_or : Option ℕ → ℕ → ℕ
forced_or none g = g
forced_or (some n) g = n

abbrev pub conflict_error : Write → Failure
conflict_error w =
    receipt_conflict ("PostgreSQL write receipt conflict for request " ++ w.request_id ++ ".")

abbrev pub mismatch_error : ℕ → ℕ → Failure
mismatch_error expected found = plain_error (
    "PostgreSQL recovery generation mismatch: expected "
    ++ show_ℕ expected
    ++ " but found "
    ++ show_ℕ found
    ++ ".")

abbrev pub snapshot_error : Coverage → ℕ → Failure
snapshot_error snapshot found = plain_error (
    "PostgreSQL recovery generation mismatch: expected snapshot generation "
    ++ show_ℕ snapshot.generation
    ++ " but found "
    ++ show_ℕ found
    ++ ".")

abbrev pub watermark_error : Coverage → ℕ → Failure
watermark_error snapshot found = plain_error (
    "PostgreSQL receipt watermark "
    ++ show_ℕ found
    ++ " did not cover snapshot watermark "
    ++ show_ℕ snapshot.watermark
    ++ ".")

-- The receipt that is there already, where it is of the same write.
abbrev pub recall : Write → Option Receipt → Result Failure Applied
recall w none = err (conflict_error w)
recall w (some r) =
    if is_same_write w r
    then ok record {
      results = zero_results_for_operations w.operations;
      receipt = record { generation = r.generation; receipt_seq = r.receipt_seq };
    }
    else err (conflict_error w)

abbrev pub new_receipt : Write → ℕ → ℕ → ℕ → Receipt
new_receipt w seq generation now = record {
  receipt_seq = seq;
  generation = generation;
  request_id = w.request_id;
  payload_hash = w.payload_hash;
  operation_kind = w.operation_kind;
  statement_count = length w.operations;
  applied_at = now;
}

module _ {S : Type 0} where
  -- The write, after its receipt was inserted.
  abbrev pub write_claimed :
      Receipt
      → Postgres S
      → Result Failure (List RunResult × S)
      → Result Failure Applied × Postgres S
  write_claimed r p (err e) = (err e, p)
  write_claimed r p (ok (rs, s)) = (
    ok record {
      results = rs;
      receipt = record { generation = r.generation; receipt_seq = r.receipt_seq };
    },
    record p { receipts = r ∷ p.receipts; store = s },
  )

  abbrev store_direct :
      Postgres S
      → Result Failure (List RunResult × S)
      → Result Failure (List RunResult) × Postgres S
  store_direct p (err e) = (err e, p)
  store_direct p (ok (rs, s)) = (ok rs, record p { store = s })

  abbrev pub promote_from :
      Coverage → ℕ → Postgres S → Option ℕ → Result Failure (Unit {0}) × Postgres S
  promote_from snapshot target p none =
      (err (plain_error "PostgreSQL CPOLY runtime state is missing."), p)
  promote_from snapshot target p (some current) =
      if current == target
      then (ok tt, p)
      else if not (current == snapshot.generation)
      then (err (snapshot_error snapshot current), p)
      else if ltb (max_seq p.receipts) snapshot.watermark
      then (err (watermark_error snapshot (max_seq p.receipts)), p)
      else (ok tt, record p { current_generation = some target })

  unfoldable pub promote_recovery_generation :
      Coverage → ℕ → Postgres S → Result Failure (Unit {0}) × Postgres S
  promote_recovery_generation snapshot target p =
      promote_from snapshot target p p.current_generation

  abbrev pub watermark_of : Postgres S → Option ℕ → Result Failure Mark
  watermark_of p none = err (plain_error "PostgreSQL CPOLY runtime state is missing.")
  watermark_of p (some g) = ok (record { generation = g; receipt_seq = max_seq p.receipts })

  unfoldable pub get_current_receipt_watermark : Postgres S → Result Failure Mark × Postgres S
  get_current_receipt_watermark p = (watermark_of p p.current_generation, p)

module _ {S : Type 0} (execute : Operation → S → Result Failure (RunResult × S)) where
  -- The operations of a write, one after the other, up to the first that throws.
  abbrev pub run_operations : List Operation → S → Result Failure (List RunResult × S)
  run_operations [] s = ok ([], s)
  run_operations (op ∷ ops) s =
      if is_run op.mode op.sql
      then (execute op s >>= λ done.
          run_operations ops done.1 >>= λ rest. ok (done.0 ∷ rest.0, rest.1))
      else err (plain_error "Mutating PostgreSQL journal entries must not contain reads.")

  abbrev run_direct : List Operation → S → Result Failure (List RunResult × S)
  run_direct [] s = ok ([], s)
  run_direct (op ∷ ops) s =
      execute op s >>= λ done. run_direct ops done.1 >>= λ rest. ok (done.0 ∷ rest.0, rest.1)

  abbrev pub claim : Write → ℕ → ℕ → Postgres S → Result Failure Applied × Postgres S
  claim w generation now p =
      if any (taken w.request_id (suc p.last_seq)) p.receipts
      then (recall w (find (is_of w.request_id) p.receipts), record p { last_seq = suc p.last_seq })
      else write_claimed (new_receipt w (suc p.last_seq) generation now)
          (record p { last_seq = suc p.last_seq }) (run_operations w.operations p.store)

  abbrev pub apply_body : Write → ℕ → Postgres S → Option ℕ → Result Failure Applied × Postgres S
  apply_body w now p none = (err (plain_error "PostgreSQL CPOLY runtime state is missing."), p)
  apply_body w now p (some current) =
      if current == forced_or w.forced_generation current
      then claim w current now p
      else (err (mismatch_error (forced_or w.forced_generation current) current), p)

  unfoldable pub apply_mutating_operations_with_receipt :
      Write → ℕ → Postgres S → Result Failure Applied × Postgres S
  apply_mutating_operations_with_receipt w now p = begin p (apply_body w now p p.current_generation)

  unfoldable pub apply_mutating_operations_direct :
      List Operation → Postgres S → Result Failure (List RunResult) × Postgres S
  apply_mutating_operations_direct ops p = store_direct p (run_direct ops p.store)
