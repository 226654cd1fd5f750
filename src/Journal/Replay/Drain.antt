-- ===== src/Journal/Replay/Drain.antt =====
-- What other requests may do while `completeRecoveryReplay` runs, and the steps that settle an entry.
pub mod Ends
use adg_lang.Common.{
  ℕ, zero, suc, ◌+◌, ◌≤◌, ◌<◌, ◌≡◌, refl, sym, ap, subst, Bool, true, false, not, ◌&&◌, ◌||◌, List,
  [], ◌∷◌, String, find, length, if◌then◌else◌, ◌⊎◌, inl, inr, Option, none, some, Result, ok, err,
  arith, All, find-All, ok-injective, ◌-◌,
}
use adg_lang.Journal.Errors.{Failure, is_ambiguous_postgres_write_error, plain_error}
use adg_lang.Journal.Payload.{Operation, Codec, ParsedPayload, parse_journal_payload}
use adg_lang.Journal.Entries.{
  Journal, Entry, Coverage, blocking, terminal_rejected, update, applied_entry, failed_entry,
  is_in_gap, mark_journal_applied, mark_journal_failed, load_recovery_replay_batch,
  count_recovery_replay_pending, requeue_ambiguous_failed_journal_entries,
}
use adg_lang.Journal.Entries.Candidates.{
  measure, unsettled, IsSettling, applied-IsSettling, failed-IsSettling, measure-update-le,
  measure-update-lt, unsettled-update, length-update, length-requeue, length-select-le,
  unsettled_of_batch, none_of_batch,
}
use adg_lang.Journal.Postgres.{
  Receipt, Postgres, RunResult, Mark, Applied, Write, is_of, apply_mutating_operations_with_receipt,
  promote_recovery_generation, get_current_receipt_watermark, promote_from, forced_or,
}
use adg_lang.Journal.Postgres.Receipts.{Step, refused, recalled, written, apply-Step}
use adg_lang.Journal.Postgres.ExactlyOnce.{promoted_receipts}
use adg_lang.Journal.Calls.{
  State, World, M, pure, throw, clock, modify, inspect, on_postgres, call, ◌>>=◌, ◌>>◌,
}
use adg_lang.Journal.Calls.Triples.{
  Rely, Always, Condition, Does, IsSteady, IsStable, Does-pure, Does-throw, Does-lift,
  Does-throw_when, Does-if, Does-bind, Does-attempt, Does-weaken, Does-clock, Does-call, Does-given,
}
use adg_lang.Journal.Calls.Successes.{
  Gives, Gives-of_Does, Gives-pure, Gives-throw, Gives-never, Gives-clock, Gives-if, Gives-bind,
  Gives-attempt, Gives-call, Gives-weaken,
}
use adg_lang.Journal.Writes.{Settings, finalize, mark_failed, apply_with_receipt}
use adg_lang.Journal.Replay.{
  Completion, is_rejection, is_definitive, is_unavailable, mark_blocked, apply_entry, replay_entry,
  drain_item, drain_batch, drain_next, drain, conclude, complete_recovery_replay,
}

module _ {S : Type 0} (v : Coverage) (target : ℕ) where
  -- No receipt is of a generation before the target and beyond the snapshot.
  abbrev pub IsClear : State S → Type 0
  IsClear s = All (λ r. is_in_gap v target r.generation r.receipt_seq ≡ false) s.pg.receipts

  -- No entry is added to the journal, and one that waits for the replay stays or is settled.
  pub record Settles (s t : State S) : Type 0 where
    pub entries : length t.journal ≤ length s.journal
    pub waiting : measure v target t.journal ≤ measure v target s.journal
    pub left :
        (id : String)
        → unsettled v target id s.journal ≡ true
        → (unsettled v target id t.journal ≡ true)
          ⊎ (measure v target t.journal < measure v target s.journal)

  pub Settles-refl : (s : State S) → Settles s s
  Settles-refl s = record { entries = omega arith; waiting = omega arith; left = λ id h. inl h }

  pub Settles-trans : {s t u : State S} → Settles s t → Settles t u → Settles s u
  Settles-trans {s} {t} {u} a b = record {
    entries = omega (arith, a.entries, b.entries);
    waiting = omega (arith, a.waiting, b.waiting);
    left = λ id h. elim (a.left id h) [
      | inr lt ↦ inr (omega (arith, b.waiting))
      | inl k ↦ elim (b.left id k) [ inl l ↦ inl l | inr lt ↦ inr (omega (arith, a.waiting)) ]
    ];
  }

  -- The other requests write no receipt into the gap and settle entries only.
  abbrev pub settling : Rely S
  settling = record {
    Inv = IsClear;
    Rel = Settles;
    reflexive = Settles-refl;
    transitive = Settles-trans;
  }

  abbrev pub R : Rely S
  R = settling

  -- Fewer entries are left than `n`; or at most as many, and one of this request is among them.
  abbrev pub Left : ℕ → String → State S → Type 0
  Left n id s =
      (measure v target s.journal < n)
      ⊎ ((measure v target s.journal ≤ n) × (unsettled v target id s.journal ≡ true))

  abbrev pub Fewer : ℕ → State S → Type 0
  Fewer n s = measure v target s.journal < n

  abbrev pub Few : ℕ → State S → Type 0
  Few n s = measure v target s.journal ≤ n

  pub Left-IsStable : (n : ℕ) (id : String) → IsStable R (Left n id)
  Left-IsStable n id s t r (inl h) = inl (omega (arith, r.waiting))
  Left-IsStable n id s t r (inr (h, u)) = elim (r.left id u) [
    | inl k ↦ inr (omega (arith, r.waiting), k)
    | inr lt ↦ inl (omega arith)
  ]

  pub Fewer-IsStable : (n : ℕ) → IsStable R (Fewer n)
  Fewer-IsStable n s t r h = omega (arith, r.waiting)

  settled_update :
      (n : ℕ) (id : String) (f : Entry → Entry) (s : State S)
      → IsSettling v target f
      → Left n id s
      → Settles s (record s { journal = update id f s.journal })
        × Fewer n (record s { journal = update id f s.journal })
  settled_update n id f s h l = (
    record {
      entries = omega (arith, length-update v target id f s.journal);
      waiting = measure-update-le v target f h id s.journal;
      left = λ other u. unsettled-update v target f h id other s.journal u;
    },
    elim l [
      | inl k ↦ omega (arith, measure-update-le v target f h id s.journal)
      | inr (k, u) ↦ omega (arith, measure-update-lt v target f h id s.journal u)
    ],
  )

  pub IsClear-Step :
      (execute : Operation → S → Result Failure (RunResult × S)) (w : Write) (now : ℕ) (s : State S)
      {o : Result Failure Applied × Postgres S}
      → w.forced_generation ≡ some target
      → IsClear s
      → Step execute w now s.pg o
      → IsClear (record s { pg = o.1 })
        × ((a : Applied)
            → o.0 ≡ ok a
            → is_in_gap v target a.receipt.generation a.receipt.receipt_seq ≡ false)
  IsClear-Step execute w now s f c (refused e n why le) = (c, λ a q. absurd cc)
  IsClear-Step execute w now s f c (recalled g r eg ef e m) = (
    c,
    λ a q.
        let k =
          find-All (λ r. is_in_gap v target r.generation r.receipt_seq ≡ false) (is_of w.request_id)
            s.pg.receipts c e in
        subst (λ x. is_in_gap v target x.receipt.generation x.receipt.receipt_seq ≡ false)
          (ok-injective q) k,
  )
  IsClear-Step execute w now s f c (written g rs t eg ef n q) =
      let same : target ≡ g = rw f at ef in
      let out : is_in_gap v target g (suc s.pg.last_seq) ≡ false = rw⁻¹ same (ground arith) in
      (
        (out, c),
        λ a h.
            subst (λ x. is_in_gap v target x.receipt.generation x.receipt.receipt_seq ≡ false)
              (ok-injective h) out,
      )

  module _ (n : ℕ) (id : String) where
    pub finalize-Fewer :
        (m : Mark)
        → is_in_gap v target m.generation m.receipt_seq ≡ false
        → Does R (Left n id) (finalize id m) (λ u. Fewer n)
    unfolding mark_journal_applied
    finalize-Fewer m g = Does-bind R clock _ (Does-clock R) λ now.
        Does-call R _ (Left-IsStable n id) (λ s i l.
          let (r, k) =
            settled_update n id (applied_entry now (some m.generation) (some m.receipt_seq)) s
              (applied-IsSettling v target now m.generation m.receipt_seq g) l in
          (i, r, λ a e. k))

    pub mark_failed-Fewer :
        (x : Failure) → Does R (Left n id) (mark_failed id terminal_rejected x) (λ u. Fewer n)
    unfolding mark_journal_failed
    mark_failed-Fewer x = Does-bind R clock _ (Does-clock R) λ now.
        Does-call R _ (Left-IsStable n id) (λ s i l.
          let (r, k) =
            settled_update n id _ s (failed-IsSettling v target terminal_rejected _ now) l in
          (i, r, λ a e. k))
