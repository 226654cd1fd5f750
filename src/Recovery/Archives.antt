-- ===== src/Recovery/Archives.antt =====
-- The description of an uploaded backup: `normalizeBackupArchiveMetadata`,
-- `normalizeBackupChunkDescriptors` and the helpers that they call, of
-- tools/msa-adjudication-workbench/src/cpoly-recovery.js. Integers from 10^21 on, whose text has an
-- exponent, do not occur.
pub mod Chunks
use Prim.Native.Char.{code}
use Prim.Native.String
use Prim.Native.String.{◌++◌}
use adg_lang.Common.{
  ℕ, zero, suc, ◌+◌, ◌-◌, Bool, true, false, not, ◌&&◌, ◌||◌, List, [], ◌∷◌, String, str_eq, leb,
  ltb, ◌==◌, any, length, if◌then◌else◌, Option, none, some, Result, ok, err, ◌>>=◌, ◌>>◌, throw_if,
}
use adg_lang.Js.{ℤ, pos, negsuc, Value, arr, obj, get, items, is_nullish, is_text}
use adg_lang.Js.Case.{to_lower_case}
use adg_lang.Js.Integers.{parse_int, safe_integer}
use adg_lang.Js.Search.{occurs}
use adg_lang.Js.Text.{to_text, show_ℕ}
use adg_lang.Protocol.Values.{trim, unit_length}
use adg_lang.Journal.Payload.{text_if_truthy}
use adg_lang.Journal.Replay.{is_hex_of}
use adg_lang.Recovery.Nonces.{RouteError, route_error}

abbrev pub invalid : {A : Type 0} → String → Result RouteError A
invalid field_name = err (route_error (field_name ++ " is invalid.") 400)

abbrev pub normalize_object : Value → String → Result RouteError Value
normalize_object (obj ps) field_name = ok (obj ps)
normalize_object v field_name = invalid field_name

abbrev pub normalize_array : Value → String → Result RouteError (List Value)
normalize_array (arr vs) field_name = ok (items vs)
normalize_array v field_name = invalid field_name

unfoldable pub normalize_non_empty_string : Value → String → ℕ → Result RouteError String
normalize_non_empty_string v field_name max_length =
    let text = trim (text_if_truthy v "") in
    if str_eq text "" || ltb max_length (unit_length text) then invalid field_name else ok text

-- null is none.
unfoldable pub normalize_optional_string : Value → String → ℕ → Result RouteError (Option String)
unfolding normalize_non_empty_string
normalize_optional_string v field_name max_length =
    if is_nullish v || is_text v ""
    then ok none
    else (normalize_non_empty_string v field_name max_length >>= λ text. ok (some text))

abbrev is_safe_code : ℕ → Bool
is_safe_code c =
    leb 65 c && leb c 90
    || leb 97 c && leb c 122
    || leb 48 c && leb c 57
    || c == 46
    || c == 95
    || c == 45

abbrev all_safe : String → Bool
all_safe String.[] = true
all_safe (String.◌∷◌ c s) = is_safe_code (code c) && all_safe s

abbrev includes : String → String → Bool
includes part text = occurs (λ c. c) part text

-- Without a required suffix.
unfoldable pub normalize_safe_file_name : Value → String → Result RouteError String
normalize_safe_file_name v field_name = normalize_non_empty_string v field_name 256 >>= λ text.
    if not (all_safe text) || includes ".." text || includes "/" text || includes "\\" text
    then invalid field_name
    else ok text

unfoldable pub normalize_sha256_hex : Value → String → Result RouteError String
normalize_sha256_hex v field_name =
    let text = to_lower_case (trim (text_if_truthy v "")) in
    if is_hex_of 64 text then ok text else invalid field_name

abbrev within_bounds : String → ℕ → ℕ → Option ℤ → Result RouteError ℕ
within_bounds field_name min max none = invalid field_name
within_bounds field_name min max (some (negsuc n)) = invalid field_name
within_bounds field_name min max (some (pos n)) =
    if ltb n min || ltb max n then invalid field_name else ok n

unfoldable pub positive_integer : Value → String → ℕ → ℕ → Result RouteError ℕ
positive_integer v field_name min max =
    within_bounds field_name min max (safe_integer (parse_int (to_text v)))

pub record Limits : Type 0 where
  pub max_chunk_bytes : ℕ
  pub max_backup_bytes : ℕ
  pub max_backup_chunks : ℕ

pub record Archive : Type 0 where
  pub file_name : String
  pub size_bytes : ℕ
  pub sha256 : String
  pub chunk_count : ℕ
  pub chunk_size_bytes : ℕ
  pub content_type : String
  pub encryption_format : String
  pub database : Option String
  pub format : Option String

abbrev encryption_format_name : String
encryption_format_name = "openpgp-symmetric-aes256"

abbrev encrypted_formats : List String
encrypted_formats =
    encryption_format_name ∷ "aes256-openpgp" ∷ "gpg-aes256-symmetric" ∷ "openpgp-aes256-symmetric"
    ∷ []

abbrev plain_formats : List String
plain_formats = "none" ∷ "plaintext" ∷ "custom-dump" ∷ "postgres-custom" ∷ []

unfoldable pub normalize_archive_encryption_format : Value → Result RouteError String
normalize_archive_encryption_format v =
    let name = to_lower_case (trim (text_if_truthy v "none")) in
    if any (λ f. str_eq f name) encrypted_formats
    then ok encryption_format_name
    else if any (λ f. str_eq f name) plain_formats
    then ok "none"
    else err (route_error "Backup archive encryption format was invalid." 400)

abbrev or_default : Option String → String → String
or_default none other = other
or_default (some s) other = s

abbrev or_value : Value → Value → Value
or_value v other = if is_nullish v then other else v

unfoldable pub normalize_backup_archive_metadata : Value → Limits → Result RouteError Archive
normalize_backup_archive_metadata v limits = normalize_object v "archive" >>= λ o.
    normalize_safe_file_name (get o "fileName") "archive.fileName" >>= λ file_name.
    normalize_optional_string (get o "format") "archive.format" 128 >>= λ format.
    normalize_optional_string (get o "database") "archive.database" 256 >>= λ database.
    positive_integer (get o "sizeBytes") "archive.sizeBytes" 1 limits.max_backup_bytes
    >>= λ size_bytes. normalize_sha256_hex (get o "sha256") "archive.sha256" >>= λ sha256.
        positive_integer (get o "chunkCount") "archive.chunkCount" 1 limits.max_backup_chunks
        >>= λ chunk_count.
            positive_integer (get o "chunkSizeBytes") "archive.chunkSizeBytes" 1
              limits.max_chunk_bytes
            >>= λ chunk_size_bytes.
                normalize_optional_string (get o "contentType") "archive.contentType" 128
                >>= λ content_type.
                    normalize_archive_encryption_format
                      (or_value (get o "encryptionFormat") (get o "ciphertextFormat"))
                    >>= λ encryption_format. ok (record {
                      file_name = file_name;
                      size_bytes = size_bytes;
                      sha256 = sha256;
                      chunk_count = chunk_count;
                      chunk_size_bytes = chunk_size_bytes;
                      content_type = or_default content_type "application/octet-stream";
                      encryption_format = encryption_format;
                      database = database;
                      format = format;
                    })

pub record Chunk : Type 0 where
  pub index : ℕ
  pub size_bytes : ℕ
  pub sha256 : String

abbrev pub chunk_field : ℕ → String → String
chunk_field i name = "chunks[" ++ show_ℕ i ++ "]" ++ name

abbrev pub index_error : RouteError
index_error = route_error "Backup chunk indexes must be contiguous and zero-based." 400

abbrev pub size_error : RouteError
size_error = route_error "All non-final backup chunks must use archive.chunkSizeBytes." 400

abbrev pub count_error : RouteError
count_error = route_error "Backup chunk descriptors did not match archive.chunkCount." 400

abbrev pub total_error : RouteError
total_error = route_error "Backup chunk descriptors did not sum to archive.sizeBytes." 400

-- The chunk at the index; `is_last` says that it is the last one.
unfoldable pub normalize_chunk : Archive → Limits → ℕ → Bool → Value → Result RouteError Chunk
normalize_chunk archive limits index is_last v = normalize_object v (chunk_field index "") >>= λ o.
    positive_integer (get o "index") (chunk_field index ".index") 0 limits.max_backup_chunks
    >>= λ chunk_index.
        throw_if (not (chunk_index == index)) index_error
        >> (positive_integer (get o "sizeBytes") (chunk_field index ".sizeBytes") 1
              archive.chunk_size_bytes
            >>= λ size_bytes.
                throw_if (not is_last && not (size_bytes == archive.chunk_size_bytes)) size_error
                >> (normalize_sha256_hex (get o "sha256") (chunk_field index ".sha256")
                    >>= λ sha256.
                        ok (record {
                          index = chunk_index;
                          size_bytes = size_bytes;
                          sha256 = sha256;
                        })))

abbrev pub is_nil : List Value → Bool
is_nil [] = true
is_nil (v ∷ vs) = false

unfoldable pub normalize_chunks : Archive → Limits → ℕ → List Value → Result RouteError (List Chunk)
unfolding normalize_chunk
normalize_chunks archive limits index [] = ok []
normalize_chunks archive limits index (v ∷ vs) =
    normalize_chunk archive limits index (is_nil vs) v >>= λ c.
    normalize_chunks archive limits (suc index) vs >>= λ cs. ok (c ∷ cs)

abbrev pub total_bytes : List Chunk → ℕ
total_bytes [] = 0
total_bytes (c ∷ cs) = c.size_bytes + total_bytes cs

unfoldable pub normalize_backup_chunk_descriptors :
    Value → Archive → Limits → Result RouteError (List Chunk)
normalize_backup_chunk_descriptors v archive limits = normalize_array v "chunks" >>= λ values.
    throw_if (not (length values == archive.chunk_count)) count_error
    >> (normalize_chunks archive limits 0 values >>= λ chunks.
        throw_if (not (total_bytes chunks == archive.size_bytes)) total_error >> ok chunks)
