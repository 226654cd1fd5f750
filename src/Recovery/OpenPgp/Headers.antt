-- ===== src/Recovery/OpenPgp/Headers.antt =====
-- Headers in the new format of RFC 4880, with one-, two- and five-octet lengths, are read back.
use adg_lang.Common.{
  ℕ, suc, ◌+◌, ◌-◌, ◌*◌, ◌/◌, ◌%◌, ◌≤◌, ◌<◌, ◌≡◌, refl, true, false, List, [], ◌∷◌, ◌++◌, leb, ltb,
  ◌==◌, length, length-append, if◌then◌else◌, Bool-cases, inl, inr, some, arith,
}
use adg_lang.Js.Integers.{max_safe}
use adg_lang.Recovery.OpenPgp.{byte_at, new_lengths, packet_to, parse_open_pgp_packet_header}
use adg_lang.Recovery.OpenPgp.Places.{parse_behind}

-- The shortest length octets of a body (RFC 4880, 4.2.2.1 to 4.2.2.3), for a body of less than 2^32
-- bytes.
abbrev pub length_octets : ℕ → List ℕ
length_octets n =
    if ltb n 192
    then n ∷ []
    else if ltb n 8384
    then (192 + (n - 192) / 256) ∷ ((n - 192) % 256) ∷ []
    else 255 ∷ (n / 16777216) ∷ (n / 65536 % 256) ∷ (n / 256 % 256) ∷ (n % 256) ∷ []

-- A packet with its tag, its body, and what follows it.
abbrev pub new_packet : ℕ → List ℕ → List ℕ → List ℕ
new_packet tag body rest = (192 + tag) ∷ (length_octets (length body) ++ (body ++ rest))

is_new : (tag : ℕ) → tag < 64 → ((192 + tag) / 128 % 2 == 0) ≡ false
is_new tag h = ground arith

is_new_format : (tag : ℕ) → tag < 64 → ((192 + tag) / 64 % 2 == 1) ≡ true
is_new_format tag h = ground arith

tag_back : (tag : ℕ) → tag < 64 → (192 + tag) % 64 ≡ tag
tag_back tag h = omega arith

leb-false : (m n : ℕ) → n < m → leb m n ≡ false
leb-false m n h = ground arith

ltb-false : (m n : ℕ) → n ≤ m → ltb m n ≡ false
ltb-false m n h = ground arith

ends_within :
    (octets body rest : List ℕ) → length octets + length body ≤ length (octets ++ (body ++ rest))
ends_within octets body rest =
    omega (arith, length-append octets (body ++ rest), length-append body rest)

whole_packet :
    (bytes : List ℕ) (tag body next : ℕ)
    → next ≤ max_safe
    → 1 ≤ body
    → next ≤ length bytes
    → packet_to bytes false tag body next
      ≡ some (record { tag = tag; next_offset = next; partial_body = false })
whole_packet bytes tag body next s b l =
    let s' : leb next max_safe ≡ true = ground arith in
    let b' : (body == 0) ≡ false = ground arith in rw (s', b', ltb-false (length bytes) next l) refl

read_back :
    (tag : ℕ) (octets body rest : List ℕ)
    → tag < 64
    → 1 ≤ length body
    → length body < 4294967296
    → length octets ≤ 6
    → new_lengths
        ((192 + tag) ∷ (octets ++ (body ++ rest)))
        0
        (byte_at (octets ++ (body ++ rest)) 0)
      ≡ some (suc (length octets), length body)
    → parse_open_pgp_packet_header ((192 + tag) ∷ (octets ++ (body ++ rest))) 0 false
      ≡ some (record {
        tag = tag;
        next_offset = 0 + suc (length octets) + length body;
        partial_body = false;
      })
unfolding parse_open_pgp_packet_header
read_back tag octets body rest t b c o h =
    let bytes = (192 + tag) ∷ (octets ++ (body ++ rest)) in
    let l = ends_within octets body rest in
    rw
      (
        leb-false (length bytes) 0 (omega arith),
        is_new tag t,
        is_new_format tag t,
        tag_back tag t,
        leb-false (length bytes) 1 (omega arith),
        h,
      )
      (whole_packet bytes tag (length body) (0 + suc (length octets) + length body) (omega arith) b
        (omega arith))

abbrev tail_of : ℕ → ℕ → List ℕ → List ℕ → List ℕ
tail_of tag n body rest = (192 + tag) ∷ (length_octets n ++ (body ++ rest))

two_back : (n : ℕ) → 192 ≤ n → (192 + (n - 192) / 256 - 192) * 256 + (n - 192) % 256 + 192 ≡ n
two_back n h = omega arith

four_back :
    (n : ℕ) → n / 16777216 * 16777216 + n / 65536 % 256 * 65536 + n / 256 % 256 * 256 + n % 256 ≡ n
four_back n = omega arith

octets_back :
    (tag n : ℕ) (body rest : List ℕ)
    → length body ≡ n
    → 1 ≤ n
    → new_lengths (tail_of tag n body rest) 0 (byte_at (length_octets n ++ (body ++ rest)) 0)
      ≡ some (suc (length (length_octets n)), n)
octets_back tag n body rest e b = elim (Bool-cases (ltb n 192)) [
  | inl t ↦ rw (t, t) refl
  | inr f ↦ elim (Bool-cases (ltb n 8384)) [
    | inl u ↦
        let a : ltb (192 + (n - 192) / 256) 192 ≡ false = ground arith in
        let c : ltb (192 + (n - 192) / 256) 224 ≡ true = ground arith in
        rw
          (
            f,
            u,
            a,
            c,
            leb-false (suc (suc (suc (length (body ++ rest))))) 2 (omega arith),
            two_back n (ground arith),
          )
          refl
    | inr g ↦
        rw
          (
            f,
            g,
            leb-false (suc (suc (suc (suc (suc (suc (length (body ++ rest)))))))) 5 (omega arith),
            four_back n,
          )
          refl
  ]
]

octets_few : (n : ℕ) → length (length_octets n) ≤ 6
octets_few n = ground arith

-- A packet with a tag below 64 and a body of 1 to 2^32 - 1 bytes, whose header is in the new format
-- of RFC 4880 with the shortest of the one-, two- and five-octet lengths for its body, is read at
-- any place of the bytes (whose offsets up to its end are safe integers): `parseOpenPgpPacketHeader`
-- gives its tag and the offset of what follows it. A header with a partial body length is not one
-- of these.
pub parse_open_pgp_packet_header-new_packet :
    (tag : ℕ) (before body rest : List ℕ)
    → tag < 64
    → 1 ≤ length body
    → length body < 4294967296
    → length before + (1 + length (length_octets (length body)) + length body) ≤ max_safe
    → parse_open_pgp_packet_header (before ++ new_packet tag body rest) (length before) false
      ≡ some (record {
        tag = tag;
        next_offset = length before + (1 + length (length_octets (length body)) + length body);
        partial_body = false;
      })
parse_open_pgp_packet_header-new_packet tag before body rest t b c s =
    let octets = length_octets (length body) in
    let e : 0 + suc (length octets) + length body ≡ 1 + length octets + length body = omega arith in
    let read =
      read_back tag octets body rest t b c (octets_few (length body))
        (octets_back tag (length body) body rest refl b) in
    parse_behind before (new_packet tag body rest) (rw e at read) s
