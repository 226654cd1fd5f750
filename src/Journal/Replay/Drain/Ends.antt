-- ===== src/Journal/Replay/Drain/Ends.antt =====
-- The rounds of `completeRecoveryReplay` come to an end.
use adg_lang.Common.{
  ℕ, zero, suc, ◌+◌, ◌≤◌, ◌<◌, ◌≡◌, refl, false, List, [], ◌∷◌, String, length, inl, inr, Option,
  none, some, Result, ok, arith, ok-injective, ◌-◌,
}
use adg_lang.Journal.Errors.{Failure}
use adg_lang.Journal.Payload.{Operation, Codec, ParsedPayload, parse_journal_payload}
use adg_lang.Journal.Entries.{
  Entry, Coverage, is_replayable, terminal_rejected, is_in_gap, load_recovery_replay_batch,
  requeue_ambiguous_failed_journal_entries,
}
use adg_lang.Journal.Entries.Candidates.{
  measure, length-requeue, length-select-le, unsettled_of_batch, none_of_batch,
}
use adg_lang.Journal.Postgres.{
  RunResult, Mark, Write, promote_recovery_generation, get_current_receipt_watermark,
}
use adg_lang.Journal.Postgres.Receipts.{apply-Step}
use adg_lang.Journal.Postgres.ExactlyOnce.{promoted_receipts}
use adg_lang.Journal.Calls.{State, World, M, pure, throw, clock, modify, on_postgres, ◌>>◌}
use adg_lang.Journal.Calls.Triples.{
  Rely, Does, IsSteady, IsStable, Does-pure, Does-lift, Does-throw_when, Does-bind, Does-clock,
  Does-call, Does-given,
}
use adg_lang.Journal.Calls.Successes.{
  Gives, Gives-of_Does, Gives-pure, Gives-throw, Gives-never, Gives-clock, Gives-if, Gives-bind,
  Gives-attempt, Gives-call, Gives-weaken,
}
use adg_lang.Journal.Writes.{Settings, mark_failed, apply_with_receipt}
use adg_lang.Journal.Replay.{
  Completion, is_rejection, is_unavailable, mark_blocked, apply_entry, replay_entry, drain_item,
  drain_batch, drain_next, drain, conclude, complete_recovery_replay,
}
use adg_lang.Journal.Replay.Drain.{
  settling, Left, Fewer, Few, Left-IsStable, Fewer-IsStable, IsClear-Step, finalize-Fewer,
  mark_failed-Fewer,
}

module _ {S : Type 0} (v : Coverage) (target : ℕ) where
  abbrev Q : Rely S
  Q = settling v target

  module _ (execute : Operation → S → Result Failure (RunResult × S)) (k : Codec) where
    -- A mark outside the gap.
    abbrev Outside : Mark → Type 0
    Outside m = is_in_gap v target m.generation m.receipt_seq ≡ false

    apply_Left :
        (n : ℕ) (id : String) (w : Write)
        → w.forced_generation ≡ some target
        → Does Q
            (Left v target n id)
            (apply_with_receipt execute w)
            (λ a s. Outside a.receipt × Left v target n id s)
    unfolding apply_with_receipt
    apply_Left n id w f = Does-bind Q clock _ (Does-clock Q) λ now.
        Does-call Q _ (Left-IsStable v target n id) (λ s c l.
          let (c', out) =
            IsClear-Step v target execute w now s f c (apply-Step execute w now s.pg) in
          (
            c',
            record { entries = omega arith; waiting = omega arith; left = λ i h. inl h },
            λ a e. (out a e, l),
          ))

    apply_entry-Fewer :
        (n : ℕ) (e : Entry) (p : ParsedPayload)
        → Does Q
            (Left v target n e.request_id)
            (apply_entry execute k (some target) e p)
            (λ u. Fewer v target n)
    apply_entry-Fewer n e p =
        Does-bind Q _ _ (apply_Left n e.request_id _ refl)
          λ a. Does-given Q (finalize-Fewer v target n e.request_id a.receipt)

    replay_entry-Fewer :
        (n : ℕ) (e : Entry)
        → Does Q
            (Left v target n e.request_id)
            (replay_entry execute k (some target) e)
            (λ u. Fewer v target n)
    unfolding replay_entry
    replay_entry-Fewer n e = Does-bind Q _ _ (Does-lift Q (k.decrypt e.ciphertext)) λ json.
        Does-bind Q _ _ (Does-throw_when Q _ _) λ u.
          Does-bind Q _ _ (Does-lift Q (parse_journal_payload k json e.request_id))
            λ p. Does-bind Q _ _ (Does-throw_when Q _ _) λ u. apply_entry-Fewer n e p

    drain_item-Fewer :
        (n : ℕ) (e : Entry)
        → Gives Q
            (Left v target n e.request_id)
            (drain_item execute k target e)
            (λ m. Fewer v target n)
    drain_item-Fewer n e =
        Gives-attempt Q _ _ (Left-IsStable v target n e.request_id)
          (Does-bind Q _ _ (replay_entry-Fewer n e) λ u. Does-pure Q 1 (λ s h. h))
          λ x.
            Gives-if Q (is_rejection x) (mark_failed e.request_id terminal_rejected x >> pure 0)
              (mark_blocked e.request_id x >> throw x)
              (λ t. Gives-of_Does Q (
                Does-bind Q _ _ (mark_failed-Fewer v target n e.request_id x)
                  λ u. Does-pure Q 0 (λ s h. h)))
              (λ f. Gives-never Q (mark_blocked e.request_id x) x)

    drain_batch-Fewer :
        (n : ℕ) (es : List Entry)
        → Gives Q (Fewer v target n) (drain_batch execute k target es) (λ m. Fewer v target n)
    drain_batch-Fewer n [] = Gives-pure Q 0 (λ s h. h)
    drain_batch-Fewer n (e ∷ es) =
        Gives-bind Q _ _ (Gives-weaken Q (drain_item-Fewer n e) (λ s h. inl h) (λ m s h. h))
          λ m. Gives-bind Q _ _ (drain_batch-Fewer n es) λ m'. Gives-pure Q _ (λ s h. h)

    -- A batch settles one entry at least.
    drain_batch-Fewer_first :
        (n : ℕ) (e : Entry) (es : List Entry)
        → Gives Q
            (Left v target n e.request_id)
            (drain_batch execute k target (e ∷ es))
            (λ m. Fewer v target n)
    drain_batch-Fewer_first n e es =
        Gives-bind Q _ _ (drain_item-Fewer n e)
          λ m. Gives-bind Q _ _ (drain_batch-Fewer n es) λ m'. Gives-pure Q _ (λ s h. h)

    -- The rounds ended, and no entry is left.
    abbrev Drained : {A : Type 0} → Option A → State S → Type 0
    Drained {A} r s = ((a : A) × (r ≡ some a)) × (measure v target s.journal ≡ 0)

    abbrev Loaded : ℕ → ℕ → List Entry → State S → Type 0
    Loaded n limit batch s =
        (load_recovery_replay_batch v target (suc limit) s.journal ≡ batch) × Few v target n s

    drain_next-Drained :
        (again : ℕ → M S (Option ℕ)) (n limit replayed : ℕ) (batch : List Entry)
        → ((m : ℕ) → Gives Q (Fewer v target n) (again m) Drained)
        → Gives Q (Loaded n limit batch) (drain_next execute k again target replayed batch) Drained
    drain_next-Drained again n limit replayed [] h =
        Gives-pure Q _ (λ s l. ((replayed, refl), none_of_batch v target limit s.journal l.0))
    drain_next-Drained again n limit replayed (e ∷ es) h =
        Gives-bind Q _ _
          (Gives-weaken Q (drain_batch-Fewer_first n e es)
            (λ s l. inr (l.1, unsettled_of_batch v target (suc limit) s.journal e es l.0))
            (λ m s h. h))
          λ m. h (replayed + m)

    drain-Drained :
        (fuel n limit replayed : ℕ)
        → n ≤ fuel
        → Gives Q (Fewer v target n) (drain execute k fuel v target (suc limit) replayed) Drained
    unfolding drain
    drain-Drained zero n limit replayed le = Gives-pure Q _ (λ s h. absurd (omega arith))
    drain-Drained (suc fuel) n limit replayed le =
        Gives-bind Q _ _
          (Gives-call Q {Post = Loaded (n - 1) limit} _ (Fewer-IsStable v target n)
            (λ s i h b e. (i, (ok-injective e, omega arith))))
          λ batch.
            drain_next-Drained _ (n - 1) limit replayed batch
              (λ m. drain-Drained fuel (n - 1) limit m (omega arith))

    Drained-IsStable : (n : ℕ) → IsStable Q (Drained (some n))
    Drained-IsStable n s t r (h, z) = (h, omega (arith, r.waiting))

    conclude-Drained : (r : Option ℕ) → Gives Q (Drained r) (conclude execute k v target r) Drained
    unfolding get_current_receipt_watermark
    conclude-Drained none = Gives-pure Q none (λ s d. absurd cc)
    conclude-Drained (some n) =
        Gives-bind Q _ _
          (Gives-call Q {Post = λ m. Drained (some n)} _ (Drained-IsStable n) (λ s i d b e. (i, d)))
          λ pending.
            Gives-bind Q _ _
              (Gives-call Q {Post = λ m. Drained (some n)} _ (Drained-IsStable n)
                (λ s i d b e. (i, d)))
              λ receipt. Gives-pure Q _ (λ s d. ((_, refl), d.1))

    -- Fewer entries than the fuel.
    abbrev Short : ℕ → State S → Type 0
    Short fuel s = length s.journal < fuel

    Short-IsStable : (fuel : ℕ) → IsStable Q (Short fuel)
    Short-IsStable fuel s t r h = omega (arith, r.entries)

    requeue_Short :
        (fuel now : ℕ)
        → Gives Q
            (Short fuel)
            (modify (requeue_ambiguous_failed_journal_entries now))
            (λ u. Short fuel)
    requeue_Short fuel now =
        Gives-call Q _ (Short-IsStable fuel)
          (λ s i h u e. (i, rw (length-requeue v target now s.journal) h))

    promote_Short :
        (fuel : ℕ)
        → Gives Q
            (Short fuel)
            (on_postgres (promote_recovery_generation v target))
            (λ u. Short fuel)
    unfolding promote_recovery_generation
    promote_Short fuel =
        Gives-call Q _ (Short-IsStable fuel)
          (λ s i h u e. (rw (promoted_receipts v target s.pg s.pg.current_generation) i, h))

    ended :
        (fuel limit : ℕ) (c : Settings)
        → Gives Q
            (Short fuel)
            (complete_recovery_replay execute k fuel c v target (suc limit))
            Drained
    unfolding complete_recovery_replay
    ended fuel limit c =
        Gives-if Q (is_unavailable c) (throw _) _ (λ t. Gives-throw Q _)
          λ f. Gives-bind Q clock _ (Gives-clock Q) λ now.
            Gives-bind Q _ _ (Gives-bind Q _ _ (requeue_Short fuel now) λ u. promote_Short fuel)
              λ u.
                Gives-bind Q _ _
                  (Gives-weaken Q (drain-Drained fuel fuel limit 0 (omega arith))
                    (λ s h. omega (arith, length-select-le (is_replayable v target) s.journal))
                    (λ r s d. d))
                  conclude-Drained

    -- `completeRecoveryReplay` ends: where it does not throw, as many rounds as the journal has
    -- entries, and one more, are enough, it returns a completion, and no entry of the journal is
    -- left to replay. This is so whatever fails in it, if its limit is not 0, no receipt of
    -- PostgreSQL is of a generation before the target and beyond the snapshot, and the other
    -- requests write no such receipt, add no entry and make none wait again.
    pub complete_recovery_replay-ends :
        (c : Settings) (fuel limit : ℕ) (w : World S)
        → IsSteady (settling v target) w
        → length w.state.journal < fuel
        → (r : Option Completion)
        → (complete_recovery_replay execute k fuel c v target (suc limit) w).0 ≡ ok r
        → ((done : Completion) × (r ≡ some done))
          × (measure v target
                (complete_recovery_replay execute k fuel c v target (suc limit) w).1.state.journal
              ≡ 0)
    complete_recovery_replay-ends c fuel limit w s h r e =
        let (s', d) = (ended fuel limit c).after w s h r e in d
