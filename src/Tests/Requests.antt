-- ===== src/Tests/Requests.antt =====
-- Concrete requests of the backup service.
use adg_lang.Common.{
  ℕ, ◌≤◌, ◌≡◌, refl, false, true, List, [], ◌∷◌, String, any, length, none, some, arith, ◌==◌,
}
use adg_lang.Js.{Value, pos, whole, num, str, arr, obj, prop, end, array}
use adg_lang.Js.Case.{to_lower_case}
use adg_lang.Js.Integers.{parse_int}
use adg_lang.Js.Text.{to_text, show_number}
use adg_lang.Protocol.Values.{trim}
use adg_lang.Recovery.Nonces.{SignedRequest, Signing, NonceRow, verify_signed_cpoly_request}
use adg_lang.Recovery.OpenPgp.{
  Packet, is_data_tag, parse_open_pgp_packet_header, looks_like_open_pgp_ciphertext,
}
use adg_lang.Recovery.OpenPgp.Packets.{
  IsWithin, Chain, parse_open_pgp_packet_header-IsWithin, looks_like_open_pgp_ciphertext-Chain,
}
use adg_lang.Recovery.OpenPgp.Headers.{new_packet, parse_open_pgp_packet_header-new_packet}
use adg_lang.Recovery.Archives.{
  Limits, Archive, Chunk, normalize_backup_chunk_descriptors, normalize_chunks, positive_integer,
  normalize_sha256_hex,
}
use adg_lang.Recovery.Archives.Chunks.{IsCover, normalize_backup_chunk_descriptors-IsCover}

abbrev hash : String
hash = "aaaaaaaaaaaaaaaaaaaaaaaaaaaaaaaaaaaaaaaaaaaaaaaaaaaaaaaaaaaaaaaa"

abbrev signing : Signing
signing = record { sha256 = λ b. hash; hmac_sha256 = λ s. hash }

abbrev signed_request : SignedRequest
signed_request = record {
  timestamp = "1000000";
  nonce = "11111111-1111-4111-8111-111111111111";
  content_sha256 = hash;
  signature = hash;
  method = "POST";
  path = "/api/internal/cpoly-backups";
  body = [];
}

abbrev accepted_table : List NonceRow
accepted_table = (verify_signed_cpoly_request signing signed_request 1000000 []).1

-- A session key and encrypted data, each of one byte.
abbrev ciphertext : List ℕ
ciphertext = 195 ∷ 1 ∷ 7 ∷ 210 ∷ 1 ∷ 8 ∷ []

abbrev key_packet : Packet
key_packet = record { tag = 3; next_offset = 3; partial_body = false }

parse_open_pgp_packet_header-IsWithin_example : IsWithin ciphertext 0 key_packet
unfolding parse_open_pgp_packet_header
parse_open_pgp_packet_header-IsWithin_example =
    parse_open_pgp_packet_header-IsWithin ciphertext 0 true key_packet refl

looks_like_open_pgp_ciphertext-Chain_example :
    (4 ≤ length ciphertext)
    × ((tags : List ℕ) × Chain ciphertext 0 tags
        × (any (λ t. t == 3) tags ≡ true)
        × (any is_data_tag tags ≡ true)
        × (length tags ≤ 32))
unfolding looks_like_open_pgp_ciphertext parse_open_pgp_packet_header
looks_like_open_pgp_ciphertext-Chain_example = looks_like_open_pgp_ciphertext-Chain ciphertext refl

-- A packet behind three other bytes, with one byte after it.
parse_open_pgp_packet_header-new_packet_example :
    parse_open_pgp_packet_header (193 ∷ 1 ∷ 5 ∷ new_packet 3 (7 ∷ []) (210 ∷ [])) 3 false
    ≡ some (record { tag = 3; next_offset = 6; partial_body = false })
parse_open_pgp_packet_header-new_packet_example =
    parse_open_pgp_packet_header-new_packet 3 (193 ∷ 1 ∷ 5 ∷ []) (7 ∷ []) (210 ∷ []) (omega arith)
      (omega arith) (omega arith) (omega arith)

-- A partial body length is refused, though RFC 4880 has it.
partial_length_refused : parse_open_pgp_packet_header (210 ∷ 224 ∷ 7 ∷ 1 ∷ 8 ∷ []) 0 true ≡ none
unfolding parse_open_pgp_packet_header
partial_length_refused = refl

abbrev limits : Limits
limits = record { max_chunk_bytes = 10; max_backup_bytes = 100; max_backup_chunks = 4 }

abbrev archive : Archive
archive = record {
  file_name = "backup.gpg";
  size_bytes = 15;
  sha256 = hash;
  chunk_count = 2;
  chunk_size_bytes = 10;
  content_type = "application/octet-stream";
  encryption_format = "none";
  database = none;
  format = none;
}

abbrev chunk_value : ℕ → ℕ → Value
chunk_value i size = obj (
    prop "index" (num (whole (pos i)))
      (prop "sizeBytes" (num (whole (pos size))) (prop "sha256" (str hash) end)))

abbrev chunks : List Chunk
chunks =
    record { index = 0; size_bytes = 10; sha256 = hash }
    ∷ record { index = 1; size_bytes = 5; sha256 = hash }
    ∷ []

normalize_backup_chunk_descriptors-IsCover_example : IsCover archive chunks
unfolding normalize_backup_chunk_descriptors positive_integer normalize_sha256_hex parse_int trim
    to_lower_case to_text show_number normalize_chunks
normalize_backup_chunk_descriptors-IsCover_example =
    normalize_backup_chunk_descriptors-IsCover
      (arr (array (chunk_value 0 10 ∷ chunk_value 1 5 ∷ []))) archive limits chunks refl
