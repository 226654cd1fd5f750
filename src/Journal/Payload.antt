-- ===== src/Journal/Payload.antt =====
-- What the journal keeps of a write, encrypted: `buildJournalPayload`, `parseJournalPayload`,
-- `serializeJournalValue` and `deserializeJournalValue` of
-- tools/msa-adjudication-workbench/src/cpoly-recovery.js. Encryption, `JSON.parse`, `btoa` of bytes,
-- `atob`, `Number` of a value and SHA-256 are parameters.
pub mod RoundTrip
use adg_lang.Common.{
  ℕ, Bool, true, false, not, ◌&&◌, ◌||◌, List, [], ◌∷◌, map, String, str_eq, length, ◌==◌,
  if◌then◌else◌, Option, none, some, Result, ok, err, ◌>>=◌, ◌>>◌, throw_if,
}
use adg_lang.Js.{
  ℤ, pos, negsuc, Number, whole, Value, undefined, null, bool, num, str, arr, obj, array, prop, end,
  get, is_array, truthy, is_text, is_nullish, strict_eq,
}
use adg_lang.Js.Text.{to_text, show_number, stringify}
use adg_lang.Consensus.Coverage.{array_items}
use adg_lang.Worker.Drafts.{is_uuid}
use adg_lang.Journal.Errors.{Failure, plain_error, or_text}

-- A parameter of a statement: null or undefined, a text, a finite number, NaN or an infinity with
-- its text, a `bigint`, a Boolean, bytes, or an object or array.
pub data Param : Type 0 where
  absent : Param
  text : String → Param
  number : Number → Param
  unbounded : String → Param
  big : ℤ → Param
  flag : Bool → Param
  blob : List ℕ → Param
  structure : Value → Param

pub record Operation : Type 0 where
  pub mode : String
  pub sql : String
  pub params : List Param

-- What is not in the repository.
pub record Codec : Type 0 where
  pub parse_json : String → Result Failure Value
  pub btoa : List ℕ → String
  pub atob : String → Result Failure (List ℕ)
  pub to_number : Value → Param
  pub sha256 : String → String
  pub encrypt : String → Result Failure (List ℕ)
  pub decrypt : List ℕ → Result Failure String

abbrev typed : String → Value → Value
typed type value = obj (prop "type" (str type) (prop "value" value end))

unfoldable pub serialize_journal_value : Codec → Param → Value
serialize_journal_value k absent = typed "null" null
serialize_journal_value k (text s) = typed "string" (str s)
serialize_journal_value k (number n) = typed "number" (num n)
serialize_journal_value k (unbounded s) = typed "number" (str s)
serialize_journal_value k (big z) = typed "bigint" (str (show_number (whole z)))
serialize_journal_value k (flag b) = typed "boolean" (bool b)
serialize_journal_value k (blob bytes) = typed "blob" (str (k.btoa bytes))
serialize_journal_value k (structure v) = typed "json" (str (stringify v))

abbrev pub is_object : Value → Bool
is_object (obj ps) = true
is_object v = false

-- `String(v ?? other)` and `String(v || other)`
abbrev pub text_unless_nullish : Value → String → String
text_unless_nullish v other = if is_nullish v then other else to_text v

abbrev pub text_if_truthy : Value → String → String
text_if_truthy v other = if truthy v then to_text v else other

-- A value that was read, as a parameter.
abbrev pub value_param : Value → Param
value_param undefined = absent
value_param null = absent
value_param (bool b) = flag b
value_param (num n) = number n
value_param (str s) = text s
value_param v = structure v

abbrev number_param : Codec → Value → Param
number_param k (num n) = number n
number_param k v = k.to_number v

abbrev deserialize_typed : Codec → Value → Value → Result Failure Param
deserialize_typed k type value =
    if is_text type "null"
    then ok absent
    else if is_text type "string"
    then ok (text (text_unless_nullish value ""))
    else if is_text type "number"
    then ok (number_param k value)
    else if is_text type "bigint"
    then ok (text (text_unless_nullish value "0"))
    else if is_text type "boolean"
    then ok (flag (truthy value))
    else if is_text type "blob"
    then (k.atob (text_if_truthy value "") >>= λ bytes. ok (blob bytes))
    else if is_text type "json"
    then (k.parse_json (text_if_truthy value "null") >>= λ v. ok (value_param v))
    else err (plain_error "Stored PostgreSQL journal parameter type was invalid.")

unfoldable pub deserialize_journal_value : Codec → Value → Result Failure Param
deserialize_journal_value k v =
    if not (is_object v)
    then err (plain_error "Stored PostgreSQL journal parameter was invalid.")
    else deserialize_typed k (get v "type") (get v "value")

abbrev pub journal_schema : String
journal_schema = "adg-cpoly-postgres-journal-v1"

abbrev pub operation_value : Codec → Operation → Value
operation_value k op = obj (
    prop "mode" (str (or_text op.mode "run")) (
      prop "sql" (str op.sql)
        (prop "params" (arr (array (map (serialize_journal_value k) op.params))) end)))

abbrev pub payload_value : Codec → String → String → List Operation → Value
payload_value k request_id operation_kind operations = obj (
    prop "schema" (str journal_schema) (
      prop "requestId" (str request_id) (
        prop "operationKind" (str operation_kind)
          (prop "operations" (arr (array (map (operation_value k) operations))) end))))

pub record JournalPayload : Type 0 where
  pub json : String
  pub hash : String
  pub statement_count : ℕ

unfoldable pub build_journal_payload : Codec → String → String → List Operation → JournalPayload
build_journal_payload k request_id operation_kind operations =
    let json = stringify (payload_value k request_id operation_kind operations) in
    record { json = json; hash = k.sha256 json; statement_count = length operations }

pub record ParsedPayload : Type 0 where
  pub request_id : Value
  pub operation_kind : Value
  pub operations : List Operation

-- `values.map(read)`, up to the first that throws.
abbrev pub map_ok {ℓ κ} :
    {A : Type ℓ} {B : Type κ} → (A → Result Failure B) → List A → Result Failure (List B)
map_ok read [] = ok []
map_ok read (v ∷ vs) = read v >>= λ b. map_ok read vs >>= λ bs. ok (b ∷ bs)

abbrev pub parse_operation : Codec → Value → Result Failure Operation
parse_operation k v =
    throw_if (is_nullish v) (plain_error "Cannot read properties of null (reading 'mode')")
    >> (map_ok (deserialize_journal_value k) (array_items (get v "params")) >>= λ params.
        ok record {
          mode = text_if_truthy (get v "mode") "run";
          sql = text_if_truthy (get v "sql") "";
          params = params;
        })

abbrev is_write_kind : String → Bool
is_write_kind kind = str_eq kind "run" || str_eq kind "batch"

abbrev is_empty : List Value → Bool
is_empty [] = true
is_empty (v ∷ vs) = false

abbrev pub is_invalid_payload : Value → Bool
is_invalid_payload v =
    not (truthy v)
    || not (is_text (get v "schema") journal_schema)
    || not (is_uuid (str (text_if_truthy (get v "requestId") "")))
    || not (is_write_kind (text_if_truthy (get v "operationKind") ""))
    || not (is_array (get v "operations"))
    || is_empty (array_items (get v "operations"))

abbrev pub caught_json : Result Failure Value → Result Failure Value
caught_json (ok v) = ok v
caught_json (err e) = err (plain_error "Stored PostgreSQL journal payload is not valid JSON.")

abbrev pub read_payload : Codec → Value → String → Result Failure ParsedPayload
read_payload k v expected =
    throw_if (is_invalid_payload v) (plain_error "Stored PostgreSQL journal payload is invalid.")
    >> (throw_if (not (str_eq expected "") && not (strict_eq (get v "requestId") (str expected)))
          (plain_error "Stored PostgreSQL journal request ID did not match.")
        >> (map_ok (parse_operation k) (array_items (get v "operations")) >>= λ operations.
            ok record {
              request_id = get v "requestId";
              operation_kind = get v "operationKind";
              operations = operations;
            }))

-- An expected request id that is missing is empty.
unfoldable pub parse_journal_payload : Codec → String → String → Result Failure ParsedPayload
parse_journal_payload k json expected =
    caught_json (k.parse_json json) >>= λ v. read_payload k v expected
