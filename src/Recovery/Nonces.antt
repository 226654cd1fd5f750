-- ===== src/Recovery/Nonces.antt =====
-- The check of a signed request: `verifySignedCpolyRequest`, `buildCpolyCanonicalText` and
-- `pruneSignedNonces` of tools/msa-adjudication-workbench/src/cpoly-recovery.js, on the table
-- `cpoly_signed_api_nonces` with its constraints (migrations/0005_cpoly_recovery.sql). SHA-256 and
-- HMAC are parameters.
pub mod Once
use Prim.Native.Char.{code}
use Prim.Native.String
use Prim.Native.String.{◌++◌}
use adg_lang.Common.{
  ℕ, zero, suc, ◌+◌, ◌-◌, ◌*◌, Bool, true, false, not, ◌&&◌, ◌||◌, List, [], ◌∷◌, String, str_eq,
  leb, ltb, ◌==◌, any, select, take, has, if◌then◌else◌, Option, none, some, Result, ok, err,
}
use adg_lang.Js.{ℤ, pos, negsuc, whole, str}
use adg_lang.Js.Case.{to_lower_case}
use adg_lang.Js.Integers.{parse_int, safe_integer}
use adg_lang.Js.Text.{show_number}
use adg_lang.Protocol.Values.{trim}
use adg_lang.Worker.Drafts.{is_uuid}
use adg_lang.Journal.Replay.{constant_time_hex_equal, is_hex_of}

-- The headers, empty where they are missing, the method as an ASCII token in capitals, and the body.
pub record SignedRequest : Type 0 where
  pub timestamp : String
  pub nonce : String
  pub content_sha256 : String
  pub signature : String
  pub method : String
  pub path : String
  pub body : List ℕ

pub record Signing : Type 0 where
  pub sha256 : List ℕ → String
  pub hmac_sha256 : String → String

pub record NonceRow : Type 0 where
  pub nonce : String
  pub request_method : String
  pub request_path : String
  pub body_sha256 : String
  pub created_at : ℕ
  pub expires_at : ℕ

pub record RouteError : Type 0 where
  pub message : String
  pub status : ℕ

abbrev pub route_error : String → ℕ → RouteError
route_error message status = record { message = message; status = status }

abbrev pub signature_window : ℕ
signature_window = 300000

-- `trim().toLowerCase()`
abbrev pub normalized : String → String
normalized s = to_lower_case (trim s)

-- `String(timestamp || "")`
abbrev timestamp_text : ℤ → String
timestamp_text (pos zero) = ""
timestamp_text z = show_number (whole z)

unfoldable pub build_cpoly_canonical_text : String → String → ℤ → String → String → String
build_cpoly_canonical_text method path timestamp nonce body_hash =
    (if str_eq method "" then "GET" else method)
    ++ "\n"
    ++ path
    ++ "\n"
    ++ timestamp_text timestamp
    ++ "\n"
    ++ nonce
    ++ "\n"
    ++ body_hash

abbrev difference : ℕ → ℕ → ℕ
difference a b = (a - b) + (b - a)

-- `Math.abs(now - timestamp)`
abbrev pub distance : ℕ → ℤ → ℕ
distance now (pos n) = difference now n
distance now (negsuc n) = now + suc n

-- `timestamp + CPOLY_SIGNATURE_WINDOW_MS`, which is not negative for a time in the window.
abbrev pub expires_at : ℤ → ℕ
expires_at (pos n) = n + signature_window
expires_at (negsuc n) = signature_window - suc n

abbrev pub is_row_of : String → NonceRow → Bool
is_row_of nonce r = str_eq r.nonce nonce

-- The `INSERT … WHERE NOT EXISTS`, with the constraint that a nonce expires after it was made.
abbrev pub claim_nonce : NonceRow → List NonceRow → Result RouteError (Unit {0}) × List NonceRow
claim_nonce r rows =
    if any (is_row_of r.nonce) rows
    then (err (route_error "CPOLY backup request nonce was already used." 409), rows)
    else if leb r.expires_at r.created_at
    then (err (route_error "D1_ERROR: CHECK constraint failed" 500), rows)
    else (ok tt, r ∷ rows)

abbrev headers_invalid : String → String → String → Bool
headers_invalid nonce body_hash signature =
    not (is_uuid (str nonce)) || not (is_hex_of 64 body_hash) || not (is_hex_of 64 signature)

module _ (k : Signing) where
  -- What is checked of a request before its nonce is claimed, with its timestamp.
  abbrev pub check_request : SignedRequest → ℤ → ℕ → Result RouteError (Unit {0})
  check_request r timestamp now =
      if headers_invalid (normalized r.nonce) (normalized r.content_sha256) (normalized r.signature)
      then err (route_error "CPOLY backup signature headers were invalid." 401)
      else if ltb signature_window (distance now timestamp)
      then err (route_error "CPOLY backup request timestamp was outside the allowed window." 401)
      else if not (constant_time_hex_equal (k.sha256 r.body) (normalized r.content_sha256))
      then err (route_error "CPOLY backup request body hash did not match." 401)
      else if not (
          constant_time_hex_equal
            (k.hmac_sha256 (
              build_cpoly_canonical_text r.method r.path timestamp (normalized r.nonce)
                (normalized r.content_sha256)))
            (normalized r.signature))
      then err (route_error "CPOLY backup request signature was invalid." 401)
      else ok tt

  abbrev pub row_of : SignedRequest → ℤ → ℕ → NonceRow
  row_of r timestamp now = record {
    nonce = normalized r.nonce;
    request_method = r.method;
    request_path = r.path;
    body_sha256 = normalized r.content_sha256;
    created_at = now;
    expires_at = expires_at timestamp;
  }

  abbrev pub claim_checked :
      NonceRow
      → List NonceRow
      → Result RouteError (Unit {0})
      → Result RouteError (Unit {0}) × List NonceRow
  claim_checked row rows (err e) = (err e, rows)
  claim_checked row rows (ok u) = claim_nonce row rows

  abbrev pub verify_at :
      SignedRequest → ℕ → List NonceRow → Option ℤ → Result RouteError (Unit {0}) × List NonceRow
  verify_at r now rows none =
      (err (route_error "CPOLY backup signature headers were invalid." 401), rows)
  verify_at r now rows (some timestamp) =
      claim_checked (row_of r timestamp now) rows (check_request r timestamp now)

  -- The store is there.
  unfoldable pub verify_signed_cpoly_request :
      SignedRequest → ℕ → List NonceRow → Result RouteError (Unit {0}) × List NonceRow
  verify_signed_cpoly_request r now rows =
      verify_at r now rows (safe_integer (parse_int r.timestamp))

abbrev pub insert_by_expiry : NonceRow → List NonceRow → List NonceRow
insert_by_expiry r [] = r ∷ []
insert_by_expiry r (q ∷ qs) =
    let later = insert_by_expiry r qs in
    if ltb q.expires_at r.expires_at then q ∷ later else r ∷ q ∷ qs

abbrev pub by_expiry : List NonceRow → List NonceRow
by_expiry [] = []
by_expiry (r ∷ rs) = insert_by_expiry r (by_expiry rs)

abbrev pub nonces : List NonceRow → List String
nonces [] = []
nonces (r ∷ rs) = r.nonce ∷ nonces rs

abbrev pub expired : ℕ → NonceRow → Bool
expired now r = leb r.expires_at now

unfoldable pub prune_signed_nonces : ℕ → ℕ → List NonceRow → List NonceRow
prune_signed_nonces now limit rows =
    let gone = nonces (take limit (by_expiry (select (expired now) rows))) in
    select (λ r. not (has r.nonce gone)) rows
