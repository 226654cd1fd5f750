-- ===== src/Journal/Errors.antt =====
-- The errors of a write: `isAmbiguousPostgresWriteError`, `isTerminalPostgresWriteRejection` and
-- `journalFailureMessage` of tools/msa-adjudication-workbench/src/database.js, the markers and
-- `boundErrorMessage` of tools/msa-adjudication-workbench/src/cpoly-recovery.js.
pub mod Bounds
use Prim.Native.Char.{code}
use Prim.Native.String
use adg_lang.Common.{
  ℕ, zero, suc, ◌-◌, Bool, true, false, not, ◌&&◌, ◌||◌, List, [], ◌∷◌, String, str_eq, leb, ltb,
  any, ◌==◌, if◌then◌else◌,
}
use adg_lang.Js.Search.{starts_with, lower_includes}

-- The fields that are read of an error; a text that is missing is empty. The flag
-- `is_receipt_conflict` says that it is a `WriteReceiptConflictError`.
pub record Failure : Type 0 where
  pub is_receipt_conflict : Bool
  pub retryable : Bool
  pub status : ℕ
  pub code : String
  pub message : String
  pub provider_last_error : String

-- `new Error(message)`
abbrev pub plain_error : String → Failure
plain_error message = record {
  is_receipt_conflict = false;
  retryable = false;
  status = 0;
  code = "";
  message = message;
  provider_last_error = "";
}

abbrev pub receipt_conflict : String → Failure
receipt_conflict message = record (plain_error message) { is_receipt_conflict = true }

abbrev pub ambiguous_markers : List String
ambiguous_markers =
    "timeout" ∷ "network" ∷ "connection" ∷ "disconnect" ∷ "socket" ∷ "econn"
    ∷ "temporarily unavailable" ∷ "try again" ∷ "provider request failed with status 5" ∷ []

abbrev pub has_marker : String → Bool
has_marker message = any (λ marker. lower_includes marker message) ambiguous_markers

abbrev is_digit : ℕ → Bool
is_digit c = leb 48 c && leb c 57

abbrev is_capital : ℕ → Bool
is_capital c = leb 65 c && leb c 90

-- As many characters as counted, each a digit or a capital.
unfoldable pub is_code_of : ℕ → String → Bool
is_code_of zero String.[] = true
is_code_of zero (String.◌∷◌ c s) = false
is_code_of (suc n) String.[] = false
is_code_of (suc n) (String.◌∷◌ c s) = (is_digit (code c) || is_capital (code c)) && is_code_of n s

abbrev pub ambiguous_status : ℕ → Bool
ambiguous_status status = status == 408 || status == 425 || status == 429 || leb 500 status

abbrev pub ambiguous_code : String → Bool
ambiguous_code c = starts_with "08" c || str_eq c "57P01" || str_eq c "57P02" || str_eq c "57P03"

unfoldable pub is_ambiguous_postgres_write_error : Failure → Bool
is_ambiguous_postgres_write_error e =
    if e.is_receipt_conflict
    then false
    else if e.retryable || ambiguous_status e.status
    then true
    else if is_code_of 5 e.code
    then ambiguous_code e.code
    else has_marker e.message

-- `/^23[0-9A-Z]{3}$/` on the code in capitals.
unfoldable pub is_capital_code_of : ℕ → String → Bool
is_capital_code_of zero String.[] = true
is_capital_code_of zero (String.◌∷◌ c s) = false
is_capital_code_of (suc n) String.[] = false
is_capital_code_of (suc n) (String.◌∷◌ c s) =
    (is_digit (code c) || is_capital (code c) || is_capital (code c - 32) && leb 97 (code c))
    && is_capital_code_of n s

abbrev pub constraint_code : String → Bool
constraint_code c = starts_with "23" c && is_capital_code_of 5 c

abbrev pub constraint_diagnostics : List String
constraint_diagnostics =
    "duplicate key value violates unique constraint" ∷ "violates foreign key constraint"
    ∷ "violates not-null constraint" ∷ "violates check constraint" ∷ "violates exclusion constraint"
    ∷ []

unfoldable pub is_terminal_postgres_write_rejection : Failure → Bool
is_terminal_postgres_write_rejection e =
    if e.is_receipt_conflict
    then false
    else constraint_code e.code
      || any (λ text. lower_includes text e.provider_last_error) constraint_diagnostics

-- `a || b` on texts
abbrev pub or_text : String → String → String
or_text a b = if str_eq a "" then b else a

-- `error` itself as a text is left out: an error of this program has a message.
unfoldable pub journal_failure_message : Failure → String
journal_failure_message e = or_text e.provider_last_error e.message

-- As many UTF-16 units from the front as counted. Of a character of two units of which only the
-- first would fit, nothing is kept: half of it is no text that the table can hold.
unfoldable pub first_units : ℕ → String → String
first_units zero s = ""
first_units (suc n) String.[] = ""
first_units (suc zero) (String.◌∷◌ c s) = if ltb (code c) 65536 then String.◌∷◌ c String.[] else ""
first_units (suc (suc n)) (String.◌∷◌ c s) =
    let one = first_units (suc n) s in
    let two = first_units n s in if ltb (code c) 65536 then String.◌∷◌ c one else String.◌∷◌ c two

unfoldable pub bound_error_message : String → String
unfolding first_units
bound_error_message message = first_units 400 (or_text message "Recovery operation failed.")
