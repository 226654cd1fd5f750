-- ===== src/Journal/Postgres/Log.antt =====
-- The log of executed writes that the rows of `cpoly_write_receipts` stand for.
use adg_lang.Common.{
  ℕ, suc, ◌≤◌, ◌≡◌, refl, sym, ◌∙◌, ◌↔◌, Bool, true, false, ◌&&◌, List, [], ◌∷◌, String, str_eq,
  any, find, ◌==◌, ==_iff, Bool-cases, inl, inr, none, some, arith, eq_iff, length, All,
}
use adg_lang.Journal.Postgres.{Receipt, Mark, Write, taken, is_of, is_same_write}

-- A write that was executed, with the coordinates of its receipt.
pub record Executed : Type 0 where
  pub write : Write
  pub mark : Mark

abbrev pub is_request : String → Executed → Bool
is_request request_id e = str_eq e.write.request_id request_id

-- The receipt is the one of this write.
pub record IsReceiptOf (e : Executed) (r : Receipt) : Type 0 where
  pub request_id : r.request_id ≡ e.write.request_id
  pub payload_hash : r.payload_hash ≡ e.write.payload_hash
  pub operation_kind : r.operation_kind ≡ e.write.operation_kind
  pub statement_count : r.statement_count ≡ length e.write.operations
  pub coordinates : e.mark ≡ record { generation = r.generation; receipt_seq = r.receipt_seq }

-- One receipt for each write of the log, in its order.
abbrev pub AreReceiptsOf : List Executed → List Receipt → Type 0
AreReceiptsOf [] [] = Unit
AreReceiptsOf (e ∷ log) (r ∷ rs) = IsReceiptOf e r × AreReceiptsOf log rs
AreReceiptsOf log rs = ⊥

-- The receipt that a request finds is the one of the write that it finds in the log.
pub logged :
    (id : String) (log : List Executed) (rs : List Receipt) {r : Receipt}
    → AreReceiptsOf log rs
    → find (is_of id) rs ≡ some r
    → (e : Executed) × (find (is_request id) log ≡ some e) × IsReceiptOf e r
logged id [] [] h f = cc
logged id [] (q ∷ rs) h f = absurd h
logged id (e ∷ log) [] h f = absurd h
logged id (e ∷ log) (q ∷ rs) {r} h f = elim (Bool-cases (str_eq q.request_id id)) [
  | inl t ↦
      let t' : str_eq e.write.request_id id ≡ true = rw h.0.request_id at t in
      (e, rw t' refl, let same = rw t at f in let u : q ≡ r = cc in let k = h.0 in rw u at k)
  | inr n ↦
      let n' : str_eq e.write.request_id id ≡ false = rw h.0.request_id at n in
      let (e', found, k) = logged id log rs h.1 (rw n at f) in (e', rw n' found, k)
]

pub not_logged :
    (id : String) (n : ℕ) (log : List Executed) (rs : List Receipt)
    → AreReceiptsOf log rs
    → any (taken id n) rs ≡ false
    → find (is_request id) log ≡ none
not_logged id n [] rs h f = refl
not_logged id n (e ∷ log) [] h f = absurd h
not_logged id n (e ∷ log) (q ∷ rs) h f =
    let other : str_eq q.request_id id ≡ false = ground arith in
    let other' : str_eq e.write.request_id id ≡ false = rw h.0.request_id at other in
    let rest : any (taken id n) rs ≡ false = ground arith in
    rw other' (not_logged id n log rs h.1 rest)

-- No receipt has a number that was not drawn yet.
pub not_other_number :
    (id : String) (n : ℕ) (rs : List Receipt)
    → All (λ r. r.receipt_seq ≤ n) rs
    → find (is_of id) rs ≡ none
    → any (taken id (suc n)) rs ≡ true
    → ⊥
not_other_number id n [] h f t = cc
not_other_number id n (r ∷ rs) h f t = elim (Bool-cases (str_eq r.request_id id)) [
  | inl same ↦ let f' = rw same at f in cc
  | inr other ↦ ground (arith, h.0, not_other_number id n rs h.1 (rw other at f))
]

-- Two writes that are not told apart: their hash, kind and number of statements.
pub record IsSameWrite (v w : Write) : Type 0 where
  pub payload_hash : v.payload_hash ≡ w.payload_hash
  pub operation_kind : v.operation_kind ≡ w.operation_kind
  pub statement_count : length v.operations ≡ length w.operations

three_true : (x y z : Bool) → (x && y && z) ≡ true → (x ≡ true) × (y ≡ true) × (z ≡ true)
three_true true true true h = (refl, refl, refl)
three_true x y z h = cc

pub IsSameWrite-iff :
    (w : Write) {e : Executed} {r : Receipt}
    → IsReceiptOf e r
    → (is_same_write w r ≡ true) ↔ IsSameWrite e.write w
IsSameWrite-iff w {e} {r} k = (there, back)
  where
    there : is_same_write w r ≡ true → IsSameWrite e.write w
    there m =
        let (hash, kind, count) =
          three_true (str_eq r.payload_hash w.payload_hash)
            (str_eq r.operation_kind w.operation_kind) (r.statement_count == length w.operations)
            m in
        record {
          payload_hash = sym k.payload_hash ∙ (eq_iff _ _).0 hash;
          operation_kind = sym k.operation_kind ∙ (eq_iff _ _).0 kind;
          statement_count = sym k.statement_count ∙ (==_iff _ _).0 count;
        }

    back : IsSameWrite e.write w → is_same_write w r ≡ true
    back s =
        rw
          (
            (eq_iff _ _).1 (k.payload_hash ∙ s.payload_hash),
            (eq_iff _ _).1 (k.operation_kind ∙ s.operation_kind),
            (==_iff _ _).1 (k.statement_count ∙ s.statement_count),
          )
          refl
