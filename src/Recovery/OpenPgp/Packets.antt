-- ===== src/Recovery/OpenPgp/Packets.antt =====
-- What the test for a ciphertext has read when it succeeds.
use adg_lang.Common.{
  ℕ, zero, suc, ◌+◌, ◌/◌, ◌%◌, ◌≤◌, ◌<◌, ◌≡◌, refl, subst, Bool, true, false, not, ◌&&◌, ◌||◌, List,
  [], ◌∷◌, leb, ltb, ◌==◌, any, length, if◌then◌else◌, Bool-cases, inl, inr, Option, none, some,
  arith,
}
use adg_lang.Js.Integers.{max_safe}
use adg_lang.Recovery.OpenPgp.{
  Packet, Lengths, byte_at, packet_to, packet_of, parse_format, parse_open_pgp_packet_header,
  is_data_tag, scan_packet, scan, looks_like_open_pgp_ciphertext,
}

-- The packet starts in the bytes, and its next one after it, in the bytes or at their end unless the
-- body is cut off.
pub record IsWithin (bytes : List ℕ) (offset : ℕ) (p : Packet) : Type 0 where
  pub starts : offset < length bytes
  pub advances : offset < p.next_offset
  pub ends : p.partial_body ≡ false → p.next_offset ≤ length bytes
  pub cut : p.partial_body ≡ true → length bytes < p.next_offset

some_eq : {p q : Packet} → some p ≡ some q → p ≡ q
some_eq h = cc

cut-IsWithin :
    (bytes : List ℕ) (offset tag next : ℕ) (allow : Bool) (p : Packet)
    → offset < length bytes
    → ltb (length bytes) next ≡ true
    → (if allow then some (record { tag = tag; next_offset = next; partial_body = true }) else none)
      ≡ some p
    → IsWithin bytes offset p
cut-IsWithin bytes offset tag next false p s l h = absurd cc
cut-IsWithin bytes offset tag next true p s l h =
    subst (λ x. IsWithin bytes offset x) (some_eq h)
      (record {
        starts = s;
        advances = ground arith;
        ends = λ e. absurd cc;
        cut = λ e. ground arith;
      })

packet-IsWithin :
    (bytes : List ℕ) (offset tag body header : ℕ) (allow : Bool) (p : Packet)
    → offset < length bytes
    → packet_to bytes allow tag body (offset + header + body) ≡ some p
    → IsWithin bytes offset p
packet-IsWithin bytes offset tag body header allow p s h =
    let next = offset + header + body in
    elim (Bool-cases (not (leb next max_safe) || body == 0)) [
      | inl t ↦ absurd (let c = rw t at h in cc)
      | inr f ↦ elim (Bool-cases (ltb (length bytes) next)) [
        | inl l ↦ cut-IsWithin bytes offset tag next allow p s l (rw l at (rw f at h))
        | inr g ↦
            subst (λ x. IsWithin bytes offset x) (some_eq (rw g at (rw f at h)))
              (record {
                starts = s;
                advances = ground arith;
                ends = λ e. ground arith;
                cut = λ e. absurd cc;
              })
      ]
    ]

lengths-IsWithin :
    (bytes : List ℕ) (allow : Bool) (offset tag : ℕ) (l : Lengths) (p : Packet)
    → offset < length bytes
    → packet_of bytes allow offset tag l ≡ some p
    → IsWithin bytes offset p
lengths-IsWithin bytes allow offset tag none p s h = absurd cc
lengths-IsWithin bytes allow offset tag (some (header, body)) p s h =
    packet-IsWithin bytes offset tag body header allow p s h

format-IsWithin :
    (bytes : List ℕ) (offset : ℕ) (allow : Bool) (first : ℕ) (p : Packet)
    → offset < length bytes
    → parse_format bytes offset allow first ≡ some p
    → IsWithin bytes offset p
format-IsWithin bytes offset allow first p s h = elim (Bool-cases (first / 64 % 2 == 1)) [
  | inr f ↦ lengths-IsWithin bytes allow offset _ _ p s (rw f at h)
  | inl t ↦ elim (Bool-cases (leb (length bytes) (offset + 1))) [
    | inl l ↦ absurd (let c = rw l at (rw t at h) in cc)
    | inr g ↦ lengths-IsWithin bytes allow offset _ _ p s (rw g at (rw t at h))
  ]
]

-- A packet that `parseOpenPgpPacketHeader` finds starts in the bytes and goes on after its start; it
-- ends in the bytes unless its body is cut off, and then it ends behind them.
pub parse_open_pgp_packet_header-IsWithin :
    (bytes : List ℕ) (offset : ℕ) (allow : Bool) (p : Packet)
    → parse_open_pgp_packet_header bytes offset allow ≡ some p
    → IsWithin bytes offset p
unfolding parse_open_pgp_packet_header
parse_open_pgp_packet_header-IsWithin bytes offset allow p h =
    elim (Bool-cases (leb (length bytes) offset || byte_at bytes offset / 128 % 2 == 0)) [
      | inl t ↦ absurd (let c = rw t at h in cc)
      | inr f ↦
          format-IsWithin bytes offset allow (byte_at bytes offset) p (ground arith) (rw f at h)
    ]

-- Packets one after the other, with their tags.
pub data Chain (bytes : List ℕ) : ℕ → List ℕ → Type 0 where
  start : {offset : ℕ} → Chain bytes offset []
  packet :
      {offset : ℕ} {tags : List ℕ} (p : Packet)
      → parse_open_pgp_packet_header bytes offset true ≡ some p
      → Chain bytes p.next_offset tags
      → Chain bytes offset (p.tag ∷ tags)

-- Packets from the offset on that, with what was seen before, have a session key and data.
abbrev pub Seen : List ℕ → ℕ → ℕ → Bool → Bool → Type 0
Seen bytes n offset key data' =
    (tags : List ℕ) × Chain bytes offset tags
    × ((key || any (λ t. t == 3) tags) ≡ true)
    × ((data' || any is_data_tag tags) ≡ true)
    × (length tags ≤ n)

nothing_more :
    (bytes : List ℕ) (n offset : ℕ) (key data' : Bool)
    → (key && data') ≡ true
    → Seen bytes n offset key data'
nothing_more bytes n offset key data' h = ([], start, ground arith, ground arith, omega arith)

one_more :
    (bytes : List ℕ) (n offset : ℕ) (key data' : Bool) (p : Packet)
    → parse_open_pgp_packet_header bytes offset true ≡ some p
    → Seen bytes n p.next_offset (key || p.tag == 3) (data' || is_data_tag p.tag)
    → Seen bytes (suc n) offset key data'
one_more bytes n offset key data' p e (tags, c, k, d, l) =
    (p.tag ∷ tags, packet p e c, ground arith, ground arith, omega arith)

packet-Seen :
    (bytes : List ℕ) (n offset : ℕ) (key data' : Bool)
    → ((o : ℕ) (x y : Bool) → scan n bytes o x y ≡ true → Seen bytes n o x y)
    → (r : Option Packet) → parse_open_pgp_packet_header bytes offset true ≡ r
    → scan_packet (scan n bytes) key data' r ≡ true
    → Seen bytes (suc n) offset key data'
packet-Seen bytes n offset key data' again none e q = absurd cc
packet-Seen bytes n offset key data' again (some p) e q =
    one_more bytes n offset key data' p e (elim (Bool-cases (is_data_tag p.tag && key)) [
      | inl t ↦ nothing_more bytes n p.next_offset _ _ (ground arith)
      | inr f ↦ elim (Bool-cases p.partial_body) [
        | inl b ↦ nothing_more bytes n p.next_offset _ _ (rw b at (rw f at q))
        | inr b ↦ again p.next_offset _ _ (rw b at (rw f at q))
      ]
    ])

scan-Seen :
    (bytes : List ℕ) (n offset : ℕ) (key data' : Bool)
    → scan n bytes offset key data' ≡ true
    → Seen bytes n offset key data'
unfolding scan
scan-Seen bytes zero offset key data' h = nothing_more bytes zero offset key data' h
scan-Seen bytes (suc n) offset key data' h = elim (Bool-cases (leb (length bytes) offset)) [
  | inl t ↦ nothing_more bytes (suc n) offset key data' (rw t at h)
  | inr f ↦
      packet-Seen bytes n offset key data' (scan-Seen bytes n)
        (parse_open_pgp_packet_header bytes offset true) refl (rw f at h)
]

le_of_ltb : (m n : ℕ) → ltb m n ≡ false → n ≤ m
le_of_ltb m n h = ground arith

-- What `looksLikeOpenPgpCiphertext` accepts has at least four bytes and begins with at most 32
-- packets, each where the one before it ends, of which one is a session key of tag 3 and one is
-- encrypted data of tag 18 or 20.
pub looks_like_open_pgp_ciphertext-Chain :
    (bytes : List ℕ)
    → looks_like_open_pgp_ciphertext bytes ≡ true
    → (4 ≤ length bytes)
      × ((tags : List ℕ) × Chain bytes 0 tags
          × (any (λ t. t == 3) tags ≡ true)
          × (any is_data_tag tags ≡ true)
          × (length tags ≤ 32))
unfolding looks_like_open_pgp_ciphertext
looks_like_open_pgp_ciphertext-Chain bytes h = elim (Bool-cases (ltb (length bytes) 4)) [
  | inl t ↦ absurd (let c = rw t at h in cc)
  | inr f ↦ (le_of_ltb (length bytes) 4 f, scan-Seen bytes 32 0 false false (rw f at h))
]
