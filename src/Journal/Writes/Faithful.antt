-- ===== src/Journal/Writes/Faithful.antt =====
-- A write that is reported as done is in PostgreSQL, and the journal agrees with PostgreSQL.
use adg_lang.Common.{
  ℕ, ◌≡◌, refl, false, ◌||◌, ◌&&◌, not, List, String, Bool-cases, inl, inr, any, none, Result, ok,
}
use adg_lang.Journal.Errors.{
  Failure, is_ambiguous_postgres_write_error, is_terminal_postgres_write_rejection,
}
use adg_lang.Journal.Payload.{Operation, Codec}
use adg_lang.Journal.Entries.{Journal, Entry, insert_pending_journal_entry, has_id, is_accepted}
use adg_lang.Journal.Postgres.{Postgres, RunResult, Mark, Write}
use adg_lang.Journal.Calls.{State, World, pure, throw, throw_when}
use adg_lang.Journal.Calls.Triples.{
  Rely, Always, Does, IsSteady, Does-pure, Does-throw, Does-lift, Does-throw_when, Does-clock,
  Does-bind, Does-attempt, Does-if, Does-call,
}
use adg_lang.Journal.Backed.{AllBacked, IsFaithful, KeepsAll, receipts_kept}
use adg_lang.Journal.Backed.Statements.{
  K, Done, Done-IsStable, stable_always, K-mark_pending, K-mark_failed, finalize-Done, apply-Done,
}
use adg_lang.Journal.Writes.{
  Settings, inserted, ensure_recovery_journal_available, insert_pending, mark_pending, mark_failed,
  record_failure, apply_and_finalize, send, journal_write, write_of, journaled,
  execute_mutating_operations,
}

module _ {S : Type 0} where
  abbrev R : Rely S
  R = receipts_kept S

  K-record_failure : (id : String) (e : Failure) → K {S = S} (record_failure id e)
  unfolding record_failure
  K-record_failure id e =
      Does-if R
        (not (is_terminal_postgres_write_rejection e) && is_ambiguous_postgres_write_error e)
        (mark_pending id e) (mark_failed id _ e) (λ t. K-mark_pending id e)
        (λ f. K-mark_failed id _ e)

  inserted-AllBacked :
      (p : Postgres S) (e : Entry) (j : Journal)
      → e.postgres_generation ≡ none
      → AllBacked p j
      → AllBacked p (inserted j (insert_pending_journal_entry e j)).1
  unfolding insert_pending_journal_entry
  inserted-AllBacked p e j n b =
      elim (Bool-cases (any (has_id e.request_id) j || not (is_accepted e))) [
        | inl t ↦ rw t b
        | inr f ↦ rw f (rw n tt, b)
      ]

  K-insert : (e : Entry) → e.postgres_generation ≡ none → K {S = S} (insert_pending e)
  K-insert e n =
      Does-call R _ stable_always
        (λ s i u. (inserted-AllBacked s.pg e s.journal n i, λ id r q. q, λ a h. tt))

  module _ (execute : Operation → S → Result Failure (RunResult × S)) where
    -- Some receipt of the write is there.
    abbrev pub Sent : Write → State S → Type 0
    Sent w s = (m : Mark) × Done w m s

    finalized : (w : Write) → Does R (Always R) (apply_and_finalize execute w) (λ rs. Sent w)
    finalized w = Does-bind R _ _ (apply-Done execute w) λ a.
        Does-bind R {Mid = λ u. Done w a.receipt} _ _
          (Does-attempt R _ _ (Done-IsStable w a.receipt) (finalize-Done w a.receipt)
            λ e. Does-pure R tt (λ s d. d))
          λ u. Does-pure R a.results (λ s d. (a.receipt, d))

    sent : (w : Write) → Does R (Always R) (send execute w) (λ rs. Sent w)
    sent w = Does-attempt R _ _ stable_always (finalized w) λ e.
        Does-bind R _ _
          (Does-attempt R _ _ stable_always (K-record_failure w.request_id e)
            λ e'. Does-pure R tt (λ s u. tt))
          λ u. Does-throw R e

    K-ensure : (c : Settings) → K {S = S} (ensure_recovery_journal_available c)
    unfolding ensure_recovery_journal_available
    K-ensure c =
        Does-if R c.disable_recovery_journal (pure tt) _ (λ t. Does-pure R tt (λ s u. u))
          λ f.
            Does-if R (not c.has_recovery_db) (throw _) (throw_when _ _) (λ t. Does-throw R _)
              (λ f. Does-throw_when R _ _)

    journal_write-Sent :
        (c : Settings) (w : Write) (bytes : List ℕ)
        → Does R (Always R) (journal_write execute c w bytes) (λ rs. Sent w)
    journal_write-Sent c w bytes =
        Does-bind R _ _ (Does-throw_when R _ _)
          λ u. Does-bind R _ _ (Does-clock R) λ now. Does-bind R _ _ (K-insert _ refl) λ u. sent w

    journaled-Sent :
        (c : Settings) (k : Codec) (id : String) (ops : List Operation) (kind : String)
        → Does R
            (Always R)
            (journaled execute c k id ops kind)
            (λ rs. Sent (write_of k id ops kind))
    journaled-Sent c k id ops kind =
        Does-bind R _ _ (K-ensure c)
          λ u. Does-bind R _ _ (Does-lift R _) (journal_write-Sent c (write_of k id ops kind))

    executed :
        (c : Settings) (k : Codec) (id : String) (ops : List Operation) (kind : String)
        → c.disable_recovery_journal ≡ false
        → Does R
            (Always R)
            (execute_mutating_operations execute c k id ops kind)
            (λ rs. Sent (write_of k id ops kind))
    unfolding execute_mutating_operations
    executed c k id ops kind d =
        Does-if R c.disable_recovery_journal _ (journaled execute c k id ops kind) (λ t. absurd cc)
          (λ f. journaled-Sent c k id ops kind)

    -- With the journal in use, `executeMutatingOperations` keeps every receipt and the agreement of
    -- the journal with PostgreSQL, whatever fails in it and whatever other requests do that keep
    -- both; and where it returns results, PostgreSQL holds the receipt of this very write.
    pub execute_mutating_operations-IsFaithful :
        (c : Settings) (k : Codec) (id : String) (ops : List Operation) (kind : String)
        (w : World S)
        → c.disable_recovery_journal ≡ false
        → IsSteady (receipts_kept S) w
        → let (r, w') = execute_mutating_operations execute c k id ops kind w in
          IsFaithful w'.state
          × KeepsAll w.state w'.state
          × ((rs : List RunResult) → r ≡ ok rs → Sent (write_of k id ops kind) w'.state)
    execute_mutating_operations-IsFaithful c k id ops kind w d s =
        let (s', l, f) = (executed c k id ops kind d).after w s tt in (s'.holds, l, f)
