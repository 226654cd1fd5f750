-- ===== src/Journal/Backed.antt =====
-- The journal and PostgreSQL agree: an entry with the coordinates of a receipt has that receipt.
pub mod Statements
use adg_lang.Common.{
  ℕ, suc, ◌≡◌, refl, sym, ap, ◌∙◌, subst, Bool, true, false, not, ◌||◌, ◌&&◌, List, [], ◌∷◌, String,
  str_eq, any, find, select, if◌then◌else◌, Bool-cases, inl, inr, Option, none, some, Result, ok,
  err, arith, eq_iff, All,
}
use adg_lang.Journal.Errors.{Failure}
use adg_lang.Journal.Payload.{Operation}
use adg_lang.Journal.Entries.{
  Journal, Entry, Disposition, Coverage, has_id, update, applied_entry, waiting_entry, failed_entry,
  insert_pending_journal_entry, mark_journal_applied, mark_journal_pending, mark_journal_failed,
  is_requeued, requeued_entry, requeue_ambiguous_failed_journal_entries, delete_row, delete_rows,
}
use adg_lang.Journal.Postgres.{
  Receipt, Postgres, RunResult, Mark, Applied, Write, is_of, apply_mutating_operations_with_receipt,
  apply_mutating_operations_direct, promote_recovery_generation,
}
use adg_lang.Journal.Postgres.ExactlyOnce.{
  Recorded, kept_by_write, kept_by_promotion, Recorded-of_apply,
}
use adg_lang.Journal.Calls.{State}
use adg_lang.Journal.Calls.Triples.{Rely}

-- PostgreSQL holds the receipt of this request with these coordinates.
pub record HasReceipt {S : Type 0} (p : Postgres S) (request_id : String) (g n : ℕ) : Type 0 where
  pub receipt : Receipt
  pub found : find (is_of request_id) p.receipts ≡ some receipt
  pub generation : receipt.generation ≡ g
  pub seq : receipt.receipt_seq ≡ n

module _ {S : Type 0} where
  -- The receipt of the coordinates, where the entry has both.
  abbrev pub Backs : Postgres S → String → Option ℕ → Option ℕ → Type 0
  Backs p request_id (some g) (some n) = HasReceipt p request_id g n
  Backs p request_id none n = Unit
  Backs p request_id g none = Unit

  abbrev pub IsBacked : Postgres S → Entry → Type 0
  IsBacked p e = Backs p e.request_id e.postgres_generation e.postgres_receipt_seq

  abbrev pub AllBacked : Postgres S → Journal → Type 0
  AllBacked p j = All (IsBacked p) j

  -- Each receipt that was there is there.
  abbrev pub KeepsReceipts : Postgres S → Postgres S → Type 0
  KeepsReceipts p q =
      (id : String) (r : Receipt)
      → find (is_of id) p.receipts ≡ some r
      → find (is_of id) q.receipts ≡ some r

  Backs-kept :
      (p q : Postgres S) (id : String) (g n : Option ℕ)
      → KeepsReceipts p q
      → Backs p id g n
      → Backs q id g n
  Backs-kept p q id (some g) (some n) k b = record {
    receipt = b.receipt;
    found = k id b.receipt b.found;
    generation = b.generation;
    seq = b.seq;
  }
  Backs-kept p q id none n k b = tt
  Backs-kept p q id (some g) none k b = tt

  pub AllBacked-kept :
      (p q : Postgres S) (j : Journal) → KeepsReceipts p q → AllBacked p j → AllBacked q j
  AllBacked-kept p q [] k b = tt
  AllBacked-kept p q (e ∷ es) k b = (
    Backs-kept p q e.request_id e.postgres_generation e.postgres_receipt_seq k b.0,
    AllBacked-kept p q es k b.1,
  )

  update-AllBacked :
      (p : Postgres S) (id : String) (f : Entry → Entry) (j : Journal)
      → ((e : Entry) → e.request_id ≡ id → IsBacked p e → IsBacked p (f e))
      → AllBacked p j
      → AllBacked p (update id f j)
  update-AllBacked p id f [] h b = tt
  update-AllBacked p id f (e ∷ es) h b = elim (Bool-cases (has_id id e)) [
    | inl t ↦
        rw t (h e (ground (arith, eq_iff e.request_id id)) b.0, update-AllBacked p id f es h b.1)
    | inr n ↦ rw n (b.0, update-AllBacked p id f es h b.1)
  ]

  pub pending-AllBacked :
      (p : Postgres S) (id message : String) (now : ℕ) (j : Journal)
      → AllBacked p j
      → AllBacked p (mark_journal_pending id message now j)
  unfolding mark_journal_pending
  pending-AllBacked p id message now j =
      update-AllBacked p id (waiting_entry message now) j λ e q b. b

  pub failed-AllBacked :
      (p : Postgres S) (id : String) (d : Disposition) (message : String) (now : ℕ) (j : Journal)
      → AllBacked p j
      → AllBacked p (mark_journal_failed id d message now j)
  unfolding mark_journal_failed
  failed-AllBacked p id d message now j =
      update-AllBacked p id (failed_entry d message now) j λ e q b. b

  pub applied-AllBacked :
      (p : Postgres S) (id : String) (now g n : ℕ) (j : Journal)
      → HasReceipt p id g n
      → AllBacked p j
      → AllBacked p (mark_journal_applied id now (some g) (some n) j)
  unfolding mark_journal_applied
  applied-AllBacked p id now g n j h =
      update-AllBacked p id (applied_entry now (some g) (some n)) j λ e q b. rw q h

  pub requeue-AllBacked :
      (p : Postgres S) (now : ℕ) (j : Journal)
      → AllBacked p j
      → AllBacked p (requeue_ambiguous_failed_journal_entries now j)
  unfolding requeue_ambiguous_failed_journal_entries
  requeue-AllBacked p now [] b = tt
  requeue-AllBacked p now (e ∷ es) b = elim (Bool-cases (is_requeued e)) [
    | inl t ↦ rw t (b.0, requeue-AllBacked p now es b.1)
    | inr n ↦ rw n (b.0, requeue-AllBacked p now es b.1)
  ]

  select-AllBacked :
      (p : Postgres S) (keep : Entry → Bool) (j : Journal)
      → AllBacked p j
      → AllBacked p (select keep j)
  select-AllBacked p keep [] b = tt
  select-AllBacked p keep (e ∷ es) b = elim (Bool-cases (keep e)) [
    | inl t ↦ rw t (b.0, select-AllBacked p keep es b.1)
    | inr n ↦ rw n (select-AllBacked p keep es b.1)
  ]

  pub delete-AllBacked :
      (p : Postgres S) (is : List String) (j : Journal)
      → AllBacked p j
      → AllBacked p (delete_rows is j)
  unfolding delete_rows
  delete-AllBacked p [] j b = b
  delete-AllBacked p (i ∷ is) j b =
      delete-AllBacked p is (delete_row i j) (select-AllBacked p (λ e. not (has_id i e)) j b)

  abbrev pub IsFaithful : State S → Type 0
  IsFaithful s = AllBacked s.pg s.journal

  abbrev pub KeepsAll : State S → State S → Type 0
  KeepsAll s t = KeepsReceipts s.pg t.pg

-- Requests rely on each other to keep the receipts, and the agreement of the journal with them.
abbrev pub receipts_kept : (S : Type 0) → Rely S
receipts_kept S = record {
  Inv = IsFaithful;
  Rel = KeepsAll;
  reflexive = λ s id r h. h;
  transitive = λ k l id r h. l id r (k id r h);
}
