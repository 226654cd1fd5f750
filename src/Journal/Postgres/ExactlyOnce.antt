-- ===== src/Journal/Postgres/ExactlyOnce.antt =====
-- A write reaches PostgreSQL once, however often it is sent: the receipts tell what was executed.
use adg_lang.Common.{
  ℕ, suc, ◌≤◌, ◌≡◌, refl, sym, true, false, List, [], ◌∷◌, String, str_eq, any, find, ◌==◌,
  Bool-cases, inl, inr, Option, none, some, Result, ok, arith, eq_iff, eq_refl, has, All,
}
use adg_lang.Journal.Errors.{Failure}
use adg_lang.Journal.Entries.{Coverage}
use adg_lang.Journal.Payload.{Operation}
use adg_lang.Journal.Postgres.{
  Receipt, Postgres, RunResult, Mark, Applied, Write, taken, is_of, is_same_write, forced_or,
  new_receipt, zero_results_for_operations, apply_mutating_operations_with_receipt, promote_from,
  promote_recovery_generation,
}
use adg_lang.Journal.Postgres.Receipts.{Step, refused, recalled, written, apply-Step}

abbrev pub request_ids : List Receipt → List String
request_ids [] = []
request_ids (r ∷ rs) = r.request_id ∷ request_ids rs

-- No receipt has this request id, where none has it or the number.
pub has_of_taken :
    (id : String) (n : ℕ) (rs : List Receipt)
    → any (taken id n) rs ≡ false
    → has id (request_ids rs) ≡ false
has_of_taken id n [] h = refl
has_of_taken id n (r ∷ rs) h =
    ground (arith, eq_iff id r.request_id, eq_iff r.request_id id, has_of_taken id n rs)

not_taken_of_find :
    (id : String) (n : ℕ) (rs : List Receipt) {r : Receipt}
    → find (is_of id) rs ≡ some r
    → any (taken id n) rs ≡ true
not_taken_of_find id n [] h = cc
not_taken_of_find id n (q ∷ rs) h = elim (Bool-cases (str_eq q.request_id id)) [
  | inl t ↦ rw t (ground arith)
  | inr f ↦ ground (arith, not_taken_of_find id n rs (rw f at h))
]

pub weaken_bound :
    (n m : ℕ) (rs : List Receipt)
    → n ≤ m
    → All (λ r. r.receipt_seq ≤ n) rs
    → All (λ r. r.receipt_seq ≤ m) rs
weaken_bound n m [] h k = tt
weaken_bound n m (r ∷ rs) h k = (omega (arith, k.0), weaken_bound n m rs h k.1)

module _ {S : Type 0} where
  pub promoted_receipts :
      (snapshot : Coverage) (target : ℕ) (p : Postgres S) (g : Option ℕ)
      → (promote_from snapshot target p g).1.receipts ≡ p.receipts
  promoted_receipts snapshot target p none = refl
  promoted_receipts snapshot target p (some g) = ground arith

  pub kept_by_promotion :
      (id : String) (snapshot : Coverage) (target : ℕ) (p : Postgres S) {r : Receipt}
      → find (is_of id) p.receipts ≡ some r
      → find (is_of id) (promote_recovery_generation snapshot target p).1.receipts ≡ some r
  unfolding promote_recovery_generation
  kept_by_promotion id snapshot target p h =
      rw (promoted_receipts snapshot target p p.current_generation) h

module _ {S : Type 0} (execute : Operation → S → Result Failure (RunResult × S)) where
  -- PostgreSQL after other writes with receipts and promotions.
  pub data Later (p : Postgres S) : Postgres S → Type 0 where
    same : Later p p
    after_write :
        {q : Postgres S} (w : Write) (now : ℕ)
        → Later p q
        → Later p (apply_mutating_operations_with_receipt execute w now q).1
    after_promotion :
        {q : Postgres S} (snapshot : Coverage) (target : ℕ)
        → Later p q
        → Later p (promote_recovery_generation snapshot target q).1

  kept-Step :
      (id : String) (w : Write) (now : ℕ) (p : Postgres S) {r : Receipt}
      {o : Result Failure Applied × Postgres S}
      → find (is_of id) p.receipts ≡ some r
      → Step execute w now p o
      → find (is_of id) o.1.receipts ≡ some r
  kept-Step id w now p h (refused e n why le) = h
  kept-Step id w now p h (recalled g r eg ef e m) = h
  kept-Step id w now p h (written g rs s eg ef n q) = elim (Bool-cases (str_eq w.request_id id)) [
    | inl t ↦
        let e : id ≡ w.request_id = ground (arith, eq_iff w.request_id id) in
        absurd
          (let k = not_taken_of_find w.request_id (suc p.last_seq) p.receipts (rw e at h) in cc)
    | inr f ↦ rw f h
  ]

  -- A receipt stays, whatever is written after it.
  pub kept_by_write :
      (id : String) (w : Write) (now : ℕ) (p : Postgres S) {r : Receipt}
      → find (is_of id) p.receipts ≡ some r
      → find (is_of id) (apply_mutating_operations_with_receipt execute w now p).1.receipts ≡ some r
  kept_by_write id w now p h = kept-Step id w now p h (apply-Step execute w now p)

  kept_later :
      (id : String) {p q : Postgres S} {r : Receipt}
      → find (is_of id) p.receipts ≡ some r
      → Later p q
      → find (is_of id) q.receipts ≡ some r
  kept_later id h same = h
  kept_later id h (after_write {q} w now l) = kept_by_write id w now q (kept_later id h l)
  kept_later id h (after_promotion {q} snapshot target l) =
      kept_by_promotion id snapshot target q (kept_later id h l)

-- PostgreSQL holds the receipt of the write, with these coordinates.
pub record Recorded {S : Type 0} (w : Write) (m : Mark) (p : Postgres S) : Type 0 where
  pub receipt : Receipt
  pub found : find (is_of w.request_id) p.receipts ≡ some receipt
  pub same_write : is_same_write w receipt ≡ true
  pub coordinates :
      m ≡ record { generation = receipt.generation; receipt_seq = receipt.receipt_seq }

same_as_itself : (w : Write) (seq g now : ℕ) → is_same_write w (new_receipt w seq g now) ≡ true
same_as_itself w seq g now = ground (arith, eq_refl w.payload_hash, eq_refl w.operation_kind)

applied_injective :
    {a b : Applied} → ◌≡◌ {A = Result Failure Applied} (ok a) (ok b) → a.receipt ≡ b.receipt
applied_injective h = cc

module _ {S : Type 0} (execute : Operation → S → Result Failure (RunResult × S)) where
  Recorded-Step :
      (w : Write) (now : ℕ) (p : Postgres S) (a : Applied) {o : Result Failure Applied × Postgres S}
      → Step execute w now p o
      → o.0 ≡ ok a
      → Recorded w a.receipt o.1
  Recorded-Step w now p a (refused e n why le) h = cc
  Recorded-Step w now p a (recalled g r eg ef e m) h = record {
    receipt = r;
    found = e;
    same_write = m;
    coordinates = sym (applied_injective h);
  }
  Recorded-Step w now p a (written g rs s eg ef n q) h = record {
    receipt = new_receipt w (suc p.last_seq) g now;
    found = rw (eq_refl w.request_id) refl;
    same_write = same_as_itself w (suc p.last_seq) g now;
    coordinates = sym (applied_injective h);
  }

  pub Recorded-of_apply :
      (w : Write) (now : ℕ) (p : Postgres S) (a : Applied)
      → (apply_mutating_operations_with_receipt execute w now p).0 ≡ ok a
      → Recorded w a.receipt (apply_mutating_operations_with_receipt execute w now p).1
  Recorded-of_apply w now p a h = Recorded-Step w now p a (apply-Step execute w now p) h

  -- If `applyMutatingOperationsWithReceipt` succeeds and the same request is sent again later, after
  -- any other writes with receipts and promotions of the generation and perhaps with a forced
  -- generation that is the one then current, the repetition succeeds with results of no change and
  -- the coordinates of the first receipt, and changes nothing but the sequence of receipt numbers.
  pub apply-apply :
      (w : Write) (now later : ℕ) (forced : Option ℕ) (g : ℕ) (p q : Postgres S) (a : Applied)
      → (apply_mutating_operations_with_receipt execute w now p).0 ≡ ok a
      → Later execute (apply_mutating_operations_with_receipt execute w now p).1 q
      → q.current_generation ≡ some g
      → forced_or forced g ≡ g
      → apply_mutating_operations_with_receipt execute
          (record w { forced_generation = forced })
          later
          q
        ≡ (
          ok (record { results = zero_results_for_operations w.operations; receipt = a.receipt }),
          record q { last_seq = suc q.last_seq },
        )
  unfolding apply_mutating_operations_with_receipt
  apply-apply w now later forced g p q a h l e f =
      let c = Recorded-of_apply w now p a h in
      let k = kept_later execute w.request_id c.found l in
      let t = not_taken_of_find w.request_id (suc q.last_seq) q.receipts k in
      let same : (g == forced_or forced g) ≡ true = ground arith in
      rw (e, same, t, k, c.same_write, c.coordinates) refl
