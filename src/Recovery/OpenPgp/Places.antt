-- ===== src/Recovery/OpenPgp/Places.antt =====
-- What `parseOpenPgpPacketHeader` reads does not depend on the bytes before its offset.
use adg_lang.Common.{
  ℕ, suc, ◌+◌, ◌/◌, ◌%◌, ◌≤◌, ◌≡◌, refl, false, not, ◌||◌, List, [], ◌∷◌, ◌++◌, leb, ltb, ◌==◌,
  length, Bool-cases, inl, inr, none, some, arith,
}
use adg_lang.Js.Integers.{max_safe}
use adg_lang.Recovery.OpenPgp.{
  Packet, Lengths, byte_at, new_lengths, old_lengths, packet_to, packet_of, parse_format,
  parse_open_pgp_packet_header,
}

suc_plus : (a b : ℕ) → suc a + b ≡ suc (a + b)
suc_plus a b = omega arith

leb-suc : (a b : ℕ) → leb (suc a) (suc b) ≡ leb a b
leb-suc a b = ground arith

ltb-suc : (a b : ℕ) → ltb (suc a) (suc b) ≡ ltb a b
ltb-suc a b = ground arith

-- With a byte in front, what is read one byte further on is the same.
module _ (c : ℕ) (bytes : List ℕ) where
  moved_to :
      (tag body next : ℕ) {p : Packet}
      → packet_to bytes false tag body next ≡ some p
      → suc p.next_offset ≤ max_safe
      → packet_to (c ∷ bytes) false tag body (suc next)
        ≡ some (record p { next_offset = suc p.next_offset })
  moved_to tag body next {p} h s = elim (Bool-cases (not (leb next max_safe) || body == 0)) [
    | inl t ↦ absurd (let h' = rw t at h in cc)
    | inr f ↦
        let h' = rw f at h in
        elim (Bool-cases (ltb (length bytes) next)) [
          | inl t ↦ absurd (let k = rw t at h' in cc)
          | inr g ↦
              let k = rw g at h' in
              let e : p ≡ record { tag = tag; next_offset = next; partial_body = false } = cc in
              let s' = rw e at s in
              let l : (not (leb (suc next) max_safe) || body == 0) ≡ false = ground arith in
              rw (e, l, ltb-suc (length bytes) next, g) refl
        ]
  ]

  moved_of :
      (offset tag : ℕ) (l : Lengths) {p : Packet}
      → packet_of bytes false offset tag l ≡ some p
      → suc p.next_offset ≤ max_safe
      → packet_of (c ∷ bytes) false (suc offset) tag l
        ≡ some (record p { next_offset = suc p.next_offset })
  moved_of offset tag none h s = absurd cc
  moved_of offset tag (some (header, body)) h s =
      rw (suc_plus, suc_plus) (moved_to tag body (offset + header + body) h s)

  new_lengths_moved :
      (offset octet : ℕ)
      → new_lengths (c ∷ bytes) (suc offset) octet ≡ new_lengths bytes offset octet
  new_lengths_moved offset octet = simp (suc_plus, leb-suc) refl

  old_lengths_moved :
      (offset kind : ℕ) → old_lengths (c ∷ bytes) (suc offset) kind ≡ old_lengths bytes offset kind
  old_lengths_moved offset kind = simp (suc_plus, leb-suc) refl

  parse_format_moved :
      (offset first : ℕ) {p : Packet}
      → parse_format bytes offset false first ≡ some p
      → suc p.next_offset ≤ max_safe
      → parse_format (c ∷ bytes) (suc offset) false first
        ≡ some (record p { next_offset = suc p.next_offset })
  parse_format_moved offset first h s = elim (Bool-cases (first / 64 % 2 == 1)) [
    | inl t ↦
        let h' = rw t at h in
        elim (Bool-cases (leb (length bytes) (offset + 1))) [
          | inl u ↦ absurd (let k = rw u at h' in cc)
          | inr g ↦
              let k = rw g at h' in
              rw
                (
                  t,
                  suc_plus offset 1,
                  leb-suc (length bytes) (offset + 1),
                  g,
                  new_lengths_moved offset (byte_at bytes (offset + 1)),
                )
                (moved_of offset (first % 64) _ k s)
        ]
    | inr f ↦
        let h' = rw f at h in
        rw (f, old_lengths_moved offset (first % 4)) (moved_of offset (first / 4 % 16) _ h' s)
  ]

  parse_moved :
      (offset : ℕ) {p : Packet}
      → parse_open_pgp_packet_header bytes offset false ≡ some p
      → suc p.next_offset ≤ max_safe
      → parse_open_pgp_packet_header (c ∷ bytes) (suc offset) false
        ≡ some (record p { next_offset = suc p.next_offset })
  unfolding parse_open_pgp_packet_header
  parse_moved offset h s =
      elim (Bool-cases (leb (length bytes) offset || byte_at bytes offset / 128 % 2 == 0)) [
        | inl t ↦ absurd (let h' = rw t at h in cc)
        | inr f ↦
            let h' = rw f at h in
            rw (leb-suc (length bytes) offset, f)
              (parse_format_moved offset (byte_at bytes offset) h' s)
      ]

pub parse_behind :
    (before bytes : List ℕ) {p : Packet}
    → parse_open_pgp_packet_header bytes 0 false ≡ some p
    → length before + p.next_offset ≤ max_safe
    → parse_open_pgp_packet_header (before ++ bytes) (length before) false
      ≡ some (record p { next_offset = length before + p.next_offset })
parse_behind [] bytes {p} h s = let e : 0 + p.next_offset ≡ p.next_offset = omega arith in rw e h
parse_behind (c ∷ before) bytes {p} h s = rw (suc_plus (length before) p.next_offset) (
    parse_moved c (before ++ bytes) (length before) (parse_behind before bytes h (omega arith))
      (omega arith))
