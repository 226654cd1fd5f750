-- ===== src/Journal/Backed/Statements.antt =====
-- What the statements of the journal and the transactions on PostgreSQL keep, as calls.
use adg_lang.Common.{ℕ, sym, ap, List, String, Result}
use adg_lang.Journal.Errors.{Failure}
use adg_lang.Journal.Payload.{Operation}
use adg_lang.Journal.Entries.{
  Journal, Disposition, Coverage, requeue_ambiguous_failed_journal_entries, delete_rows,
}
use adg_lang.Journal.Postgres.{
  Postgres, RunResult, Mark, Write, apply_mutating_operations_with_receipt,
  promote_recovery_generation, get_current_receipt_watermark,
}
use adg_lang.Journal.Postgres.ExactlyOnce.{
  Recorded, kept_by_write, kept_by_promotion, Recorded-of_apply,
}
use adg_lang.Journal.Calls.{State, M, ◌>>=◌, clock, on_postgres, modify, inspect}
use adg_lang.Journal.Calls.Triples.{Always, Does, IsStable, Does-clock, Does-bind, Does-call}
use adg_lang.Journal.Backed.{
  AllBacked, KeepsReceipts, AllBacked-kept, receipts_kept, pending-AllBacked, failed-AllBacked,
  applied-AllBacked, requeue-AllBacked, delete-AllBacked,
}
use adg_lang.Journal.Writes.{finalize, mark_pending, mark_failed, apply_with_receipt}

module _ {S : Type 0} where
  abbrev pub K : {A : Type 0} → M S A → Type 0
  K m = Does (receipts_kept S) (Always (receipts_kept S)) m (λ a. Always (receipts_kept S))

  -- The receipt of the write is there.
  abbrev pub Done : Write → Mark → State S → Type 0
  Done w m s = Recorded w m s.pg

  pub stable_always : IsStable (receipts_kept S) (Always (receipts_kept S))
  stable_always s t r u = tt

  pub Done-IsStable : (w : Write) (m : Mark) → IsStable (receipts_kept S) (Done w m)
  Done-IsStable w m s t r d = record {
    receipt = d.receipt;
    found = r w.request_id d.receipt d.found;
    same_write = d.same_write;
    coordinates = d.coordinates;
  }

  K-modify :
      (f : Journal → Journal)
      → ((p : Postgres S) (j : Journal) → AllBacked p j → AllBacked p (f j))
      → K (modify f)
  K-modify f h =
      Does-call (receipts_kept S) _ stable_always
        (λ s i u. (h s.pg s.journal i, λ id r q. q, λ a e. tt))

  pub K-inspect : {A : Type 0} (f : Journal → A) → K (inspect f)
  K-inspect f = Does-call (receipts_kept S) _ stable_always (λ s i u. (i, λ id r q. q, λ a e. tt))

  pub K-at_clock : {A : Type 0} (f : ℕ → M S A) → ((now : ℕ) → K (f now)) → K (clock >>= f)
  K-at_clock f h = Does-bind (receipts_kept S) clock f (Does-clock (receipts_kept S)) h

  pub K-mark_pending : (id : String) (e : Failure) → K (mark_pending id e)
  K-mark_pending id e = K-at_clock _ λ now. K-modify _ λ p j. pending-AllBacked p id _ now j

  pub K-mark_failed : (id : String) (d : Disposition) (e : Failure) → K (mark_failed id d e)
  K-mark_failed id d e = K-at_clock _ λ now. K-modify _ λ p j. failed-AllBacked p id d _ now j

  pub K-requeue : (now : ℕ) → K (modify (requeue_ambiguous_failed_journal_entries now))
  K-requeue now = K-modify _ λ p j. requeue-AllBacked p now j

  pub K-delete : (is : List String) → K (modify (delete_rows is))
  K-delete is = K-modify _ λ p j. delete-AllBacked p is j

  pub K-promote :
      (c : Coverage) (target : ℕ) → K (on_postgres (promote_recovery_generation c target))
  K-promote c target = Does-call (receipts_kept S) _ stable_always (λ s i u.
      let k : KeepsReceipts s.pg (promote_recovery_generation c target s.pg).1 =
        λ id r h. kept_by_promotion id c target s.pg h in
      (AllBacked-kept s.pg _ s.journal k i, k, λ a e. tt))

  pub K-watermark : K (on_postgres get_current_receipt_watermark)
  unfolding get_current_receipt_watermark
  K-watermark = Does-call (receipts_kept S) _ stable_always (λ s i u. (i, λ id r q. q, λ a e. tt))

  -- The coordinates that the journal gets are those of a receipt that is there.
  pub finalize-Done :
      (w : Write) (m : Mark)
      → Does (receipts_kept S) (Done w m) (finalize w.request_id m) (λ u. Done w m)
  finalize-Done w m = Does-bind (receipts_kept S) clock _ (Does-clock (receipts_kept S)) λ now.
      Does-call (receipts_kept S) _ (Done-IsStable w m) (λ s i d. (
        applied-AllBacked s.pg w.request_id now m.generation m.receipt_seq s.journal
            (record {
              receipt = d.receipt;
              found = d.found;
              generation = ap (λ x. x.generation) (sym d.coordinates);
              seq = ap (λ x. x.receipt_seq) (sym d.coordinates);
            })
            i,
        λ id r q. q,
        λ a e. d,
      ))

  module _ (execute : Operation → S → Result Failure (RunResult × S)) where
    pub apply-Done :
        (w : Write)
        → Does
            (receipts_kept S)
            (Always (receipts_kept S))
            (apply_with_receipt execute w)
            (λ a. Done w a.receipt)
    unfolding apply_with_receipt
    apply-Done w = Does-bind (receipts_kept S) clock _ (Does-clock (receipts_kept S)) λ now.
        Does-call (receipts_kept S) _ stable_always (λ s i u.
          let k : KeepsReceipts s.pg (apply_mutating_operations_with_receipt execute w now s.pg).1 =
            λ id r h. kept_by_write execute id w now s.pg h in
          (AllBacked-kept s.pg _ s.journal k i, k, λ a e. Recorded-of_apply execute w now s.pg a e))
