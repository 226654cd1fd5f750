-- ===== src/Recovery/Archives/Chunks.antt =====
-- The chunks of an accepted backup cover its archive.
use adg_lang.Common.{
  ℕ, suc, ◌*◌, ◌-◌, ◌≤◌, ◌<◌, ◌≡◌, refl, ap, Bool, true, false, not, ◌&&◌, ◌||◌, List, [], ◌∷◌,
  String, ltb, ◌==◌, length, Bool-cases, inl, inr, Option, none, some, ok, >>=-eq-ok, ok-injective,
  arith, Returns, then-Returns, throw_if-Returns, ok-Returns,
}
use adg_lang.Js.{ℤ, pos, negsuc, Value, get}
use adg_lang.Js.Integers.{parse_int, safe_integer}
use adg_lang.Js.Text.{to_text}
use adg_lang.Recovery.Archives.{
  Limits, Archive, Chunk, within_bounds, positive_integer, normalize_object, normalize_array,
  normalize_sha256_hex, normalize_chunk, is_nil, normalize_chunks, total_bytes,
  normalize_backup_chunk_descriptors, chunk_field, index_error, size_error, count_error,
  total_error,
}

-- A chunk at its place, of the full size or, where it is the last, of at most that.
pub record Fits (archive : Archive) (i : ℕ) (is_last : Bool) (c : Chunk) : Type 0 where
  pub place : c.index ≡ i
  pub some_bytes : 1 ≤ c.size_bytes
  pub at_most : c.size_bytes ≤ archive.chunk_size_bytes
  pub full : is_last ≡ false → c.size_bytes ≡ archive.chunk_size_bytes

abbrev pub is_end : List Chunk → Bool
is_end [] = true
is_end (c ∷ cs) = false

-- The chunks from the place on.
abbrev pub AllFit : Archive → ℕ → List Chunk → Type 0
AllFit archive i [] = Unit
AllFit archive i (c ∷ cs) = Fits archive i (is_end cs) c × AllFit archive (suc i) cs

bounds_checked :
    (field : String) (min max : ℕ) (z : Option ℤ) (n : ℕ)
    → within_bounds field min max z ≡ ok n
    → (min ≤ n) × (n ≤ max)
bounds_checked field min max none n h = absurd cc
bounds_checked field min max (some (negsuc m)) n h = absurd cc
bounds_checked field min max (some (pos m)) n h = elim (Bool-cases (ltb m min || ltb max m)) [
  | inl t ↦ absurd (let c = rw t at h in cc)
  | inr f ↦ let e : m ≡ n = ok-injective (rw f at h) in (ground arith, ground arith)
]

positive_integer_bounds :
    (v : Value) (field : String) (min max n : ℕ)
    → positive_integer v field min max ≡ ok n
    → (min ≤ n) × (n ≤ max)
unfolding positive_integer
positive_integer_bounds v field min max n h =
    bounds_checked field min max (safe_integer (parse_int (to_text v))) n h

same_of : (a b : ℕ) → not (a == b) ≡ false → a ≡ b
same_of a b h = ground arith

chunk-Fits :
    (archive : Archive) (limits : Limits) (i : ℕ) (is_last : Bool) (v : Value)
    → Returns (Fits archive i is_last) (normalize_chunk archive limits i is_last v)
unfolding normalize_chunk
chunk-Fits archive limits i is_last v =
    then-Returns {m = normalize_object v (chunk_field i "")} λ o ho.
      then-Returns
        {m = positive_integer (get o "index") (chunk_field i ".index") 0 limits.max_backup_chunks}
        λ n hn. throw_if-Returns (not (n == i)) index_error λ place.
          then-Returns
            {m = positive_integer (get o "sizeBytes") (chunk_field i ".sizeBytes") 1
              archive.chunk_size_bytes}
            λ s hs.
              throw_if-Returns (not is_last && not (s == archive.chunk_size_bytes)) size_error
                λ full.
                  then-Returns {m = normalize_sha256_hex (get o "sha256") (chunk_field i ".sha256")}
                    λ x hx. ok-Returns (
                      let b =
                        positive_integer_bounds (get o "sizeBytes") (chunk_field i ".sizeBytes") 1
                          archive.chunk_size_bytes s hs in
                      record {
                        place = same_of n i place;
                        some_bytes = b.0;
                        at_most = b.1;
                        full = λ e. same_of s archive.chunk_size_bytes (rw e at full);
                      })

same_end :
    (archive : Archive) (limits : Limits) (i : ℕ) (vs : List Value) (cs : List Chunk)
    → normalize_chunks archive limits i vs ≡ ok cs
    → (is_nil vs ≡ is_end cs) × (length cs ≡ length vs)
unfolding normalize_chunks
same_end archive limits i [] cs h = let e : [] ≡ cs = ok-injective h in rw⁻¹ e (refl, refl)
same_end archive limits i (v ∷ vs) cs h =
    let (c, hc, h1) = >>=-eq-ok (normalize_chunk archive limits i (is_nil vs) v) _ h in
    let (ds, hd, h2) = >>=-eq-ok (normalize_chunks archive limits (suc i) vs) _ h1 in
    let e : c ∷ ds ≡ cs = ok-injective h2 in
    rw⁻¹ e (refl, ap suc (same_end archive limits (suc i) vs ds hd).1)

chunks-AllFit :
    (archive : Archive) (limits : Limits) (i : ℕ) (vs : List Value)
    → Returns (AllFit archive i) (normalize_chunks archive limits i vs)
unfolding normalize_chunks
chunks-AllFit archive limits i [] = ok-Returns tt
chunks-AllFit archive limits i (v ∷ vs) =
    then-Returns {m = normalize_chunk archive limits i (is_nil vs) v} λ c hc.
      then-Returns {m = normalize_chunks archive limits (suc i) vs} λ cs hcs. ok-Returns (
        rw⁻¹ (same_end archive limits (suc i) vs cs hcs).0
            ((chunk-Fits archive limits i (is_nil vs) v).value c hc),
        (chunks-AllFit archive limits (suc i) vs).value cs hcs,
      )

total_bounds :
    (archive : Archive) (i : ℕ) (c : Chunk) (cs : List Chunk)
    → AllFit archive i (c ∷ cs)
    → (length cs * archive.chunk_size_bytes < total_bytes (c ∷ cs))
      × (total_bytes (c ∷ cs) ≤ suc (length cs) * archive.chunk_size_bytes)
total_bounds archive i c [] (f, h) = (omega (arith, f.some_bytes), omega (arith, f.at_most))
total_bounds archive i c (d ∷ ds) (f, h) =
    let (lo, hi) = total_bounds archive (suc i) d ds h in
    let e = f.full refl in (omega arith, omega arith)

-- What `normalizeBackupChunkDescriptors` makes of a list of chunks.
pub record IsCover (archive : Archive) (cs : List Chunk) : Type 0 where
  pub count : length cs ≡ archive.chunk_count
  pub chunks : AllFit archive 0 cs
  pub total : total_bytes cs ≡ archive.size_bytes
  pub few : archive.size_bytes ≤ archive.chunk_count * archive.chunk_size_bytes
  pub enough :
      1 ≤ archive.chunk_count
      → (archive.chunk_count - 1) * archive.chunk_size_bytes < archive.size_bytes

covered :
    (archive : Archive) (cs : List Chunk)
    → length cs ≡ archive.chunk_count
    → AllFit archive 0 cs
    → total_bytes cs ≡ archive.size_bytes
    → IsCover archive cs
covered archive [] n f s = record {
  count = n;
  chunks = f;
  total = s;
  few = omega arith;
  enough = λ h. absurd (omega arith);
}
covered archive (c ∷ cs) n f s =
    let (lo, hi) = total_bounds archive 0 c cs f in
    let one : archive.chunk_count - 1 ≡ length cs = omega arith in
    record {
      count = n;
      chunks = f;
      total = s;
      few = rw⁻¹ n (omega arith);
      enough = λ h. rw one (omega arith);
    }

descriptors-IsCover :
    (v : Value) (archive : Archive) (limits : Limits)
    → Returns (IsCover archive) (normalize_backup_chunk_descriptors v archive limits)
unfolding normalize_backup_chunk_descriptors
descriptors-IsCover v archive limits = then-Returns {m = normalize_array v "chunks"} λ vs hv.
    throw_if-Returns (not (length vs == archive.chunk_count)) count_error λ n.
      then-Returns {m = normalize_chunks archive limits 0 vs} λ cs hc.
        throw_if-Returns (not (total_bytes cs == archive.size_bytes)) total_error λ s. ok-Returns (
          covered archive cs
            (let e = (same_end archive limits 0 vs cs hc).1 in
              let m = same_of (length vs) archive.chunk_count n in omega arith)
            ((chunks-AllFit archive limits 0 vs).value cs hc)
            (same_of (total_bytes cs) archive.size_bytes s))

-- Where `normalizeBackupChunkDescriptors` accepts a list of chunks, there are as many as the archive
-- says; each has its own place as its index and at least one byte, all but the last one have the
-- chunk size of the archive, and the last one no more; together they have the bytes of the archive,
-- which need this many chunks and no more.
pub normalize_backup_chunk_descriptors-IsCover :
    (v : Value) (archive : Archive) (limits : Limits) (cs : List Chunk)
    → normalize_backup_chunk_descriptors v archive limits ≡ ok cs
    → IsCover archive cs
normalize_backup_chunk_descriptors-IsCover v archive limits cs h =
    (descriptors-IsCover v archive limits).value cs h
