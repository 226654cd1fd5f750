-- ===== src/Recovery/OpenPgp.antt =====
-- The test for an OpenPGP ciphertext: `looksLikeOpenPgpCiphertext` and `parseOpenPgpPacketHeader` of
-- tools/msa-adjudication-workbench/src/cpoly-recovery.js, on bytes, which are below 256.
pub mod Packets
pub mod Places
pub mod Headers
use adg_lang.Common.{
  ℕ, zero, suc, ◌+◌, ◌-◌, ◌*◌, ◌/◌, ◌%◌, Bool, true, false, not, ◌&&◌, ◌||◌, List, [], ◌∷◌, leb,
  ltb, ◌==◌, length, if◌then◌else◌, Option, none, some,
}
use adg_lang.Js.Integers.{max_safe}

pub record Packet : Type 0 where
  pub tag : ℕ
  pub next_offset : ℕ
  pub partial_body : Bool

-- `bytes[i]`, which is read only where it is there.
abbrev pub byte_at : List ℕ → ℕ → ℕ
byte_at [] i = 0
byte_at (b ∷ bs) zero = b
byte_at (b ∷ bs) (suc i) = byte_at bs i

-- The four bytes from `i` on.
abbrev pub word_at : List ℕ → ℕ → ℕ
word_at bytes i =
    byte_at bytes i * 16777216
    + byte_at bytes (i + 1) * 65536
    + byte_at bytes (i + 2) * 256
    + byte_at bytes (i + 3)

-- The lengths of the header and of the body.
abbrev pub Lengths : Type 0
Lengths = Option (ℕ × ℕ)

-- The length octet of the new format, at `offset + 1`.
abbrev pub new_lengths : List ℕ → ℕ → ℕ → Lengths
new_lengths bytes offset octet =
    if ltb octet 192
    then some (2, octet)
    else if ltb octet 224
    then (if leb (length bytes) (offset + 2)
        then none
        else some (3, (octet - 192) * 256 + byte_at bytes (offset + 2) + 192))
    else if octet == 255
    then (if leb (length bytes) (offset + 5) then none else some (6, word_at bytes (offset + 2)))
    else none

abbrev pub old_lengths : List ℕ → ℕ → ℕ → Lengths
old_lengths bytes offset length_type =
    if length_type == 0
    then (if leb (length bytes) (offset + 1) then none else some (2, byte_at bytes (offset + 1)))
    else if length_type == 1
    then (if leb (length bytes) (offset + 2)
        then none
        else some (3, byte_at bytes (offset + 1) * 256 + byte_at bytes (offset + 2)))
    else if length_type == 2
    then (if leb (length bytes) (offset + 4) then none else some (5, word_at bytes (offset + 1)))
    else none

abbrev pub packet_to : List ℕ → Bool → ℕ → ℕ → ℕ → Option Packet
packet_to bytes allow tag body next =
    if not (leb next max_safe) || body == 0
    then none
    else if ltb (length bytes) next
    then (if allow
        then some (record { tag = tag; next_offset = next; partial_body = true })
        else none)
    else some (record { tag = tag; next_offset = next; partial_body = false })

abbrev pub packet_of : List ℕ → Bool → ℕ → ℕ → Lengths → Option Packet
packet_of bytes allow offset tag none = none
packet_of bytes allow offset tag (some (header, body)) =
    packet_to bytes allow tag body (offset + header + body)

abbrev pub parse_format : List ℕ → ℕ → Bool → ℕ → Option Packet
parse_format bytes offset allow first =
    if first / 64 % 2 == 1
    then (if leb (length bytes) (offset + 1)
        then none
        else packet_of bytes allow offset (first % 64)
            (new_lengths bytes offset (byte_at bytes (offset + 1))))
    else packet_of bytes allow offset (first / 4 % 16) (old_lengths bytes offset (first % 4))

unfoldable pub parse_open_pgp_packet_header : List ℕ → ℕ → Bool → Option Packet
parse_open_pgp_packet_header bytes offset allow_truncated_body =
    if leb (length bytes) offset || byte_at bytes offset / 128 % 2 == 0
    then none
    else parse_format bytes offset allow_truncated_body (byte_at bytes offset)

abbrev pub is_data_tag : ℕ → Bool
is_data_tag tag = tag == 18 || tag == 20

-- What a packet makes of what was seen, and the rest of the loop.
abbrev pub scan_packet : (ℕ → Bool → Bool → Bool) → Bool → Bool → Option Packet → Bool
scan_packet rest saw_key saw_data none = false
scan_packet rest saw_key saw_data (some p) =
    let key = saw_key || p.tag == 3 in
    let data' = saw_data || is_data_tag p.tag in
    if is_data_tag p.tag && saw_key
    then true
    else if p.partial_body
    then key && data'
    else rest p.next_offset key data'

-- The loop, for at most as many packets as counted.
unfoldable pub scan : ℕ → List ℕ → ℕ → Bool → Bool → Bool
scan zero bytes offset saw_key saw_data = saw_key && saw_data
scan (suc n) bytes offset saw_key saw_data =
    let step =
      scan_packet (scan n bytes) saw_key saw_data
        (parse_open_pgp_packet_header bytes offset true) in
    if leb (length bytes) offset then saw_key && saw_data else step

unfoldable pub looks_like_open_pgp_ciphertext : List ℕ → Bool
unfolding scan
looks_like_open_pgp_ciphertext bytes =
    if ltb (length bytes) 4 then false else scan 32 bytes 0 false false
