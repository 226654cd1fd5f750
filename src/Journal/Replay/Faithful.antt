-- ===== src/Journal/Replay/Faithful.antt =====
-- The replay of the journal and its cleaning keep the agreement of the journal with PostgreSQL.
use adg_lang.Common.{
  ℕ, zero, suc, ◌+◌, not, ◌&&◌, List, [], ◌∷◌, String, Option, none, some, Result,
}
use adg_lang.Journal.Errors.{Failure, is_ambiguous_postgres_write_error}
use adg_lang.Journal.Payload.{Operation, Codec, ParsedPayload, parse_journal_payload}
use adg_lang.Journal.Entries.{
  Entry, Coverage, blocking, terminal_rejected, load_recovery_journal_candidates,
  load_recovery_replay_batch, select_covered, count_recovery_replay_pending,
}
use adg_lang.Journal.Postgres.{RunResult}
use adg_lang.Journal.Calls.{World, M, pure, throw, ◌>>◌}
use adg_lang.Journal.Calls.Triples.{
  Rely, IsSteady, Does-pure, Does-throw, Does-lift, Does-throw_when, Does-if, Does-bind,
  Does-attempt, Does-weaken,
}
use adg_lang.Journal.Backed.{IsFaithful, KeepsAll, receipts_kept}
use adg_lang.Journal.Backed.Statements.{
  K, stable_always, K-at_clock, K-inspect, K-mark_pending, K-mark_failed, K-requeue, K-delete,
  K-promote, K-watermark, finalize-Done, apply-Done,
}
use adg_lang.Journal.Writes.{Settings, mark_pending, mark_failed}
use adg_lang.Journal.Replay.{
  is_rejection, is_definitive, is_unavailable, mark_blocked, record_replay_failure, apply_entry,
  replay_entry, replay_item, replay_items, replay_recovery_journal, drain_item, drain_batch,
  drain_next, drain, conclude, complete_recovery_replay, delete_covered, clean,
  cleanup_recovery_journal,
}

module _ {S : Type 0} where
  abbrev R : Rely S
  R = receipts_kept S

  K-pure : {A : Type 0} (a : A) → K {S = S} (pure a)
  K-pure a = Does-pure R a (λ s u. u)

  K-then : {A B : Type 0} (m : M S A) (n : M S B) → K m → K n → K (m >> n)
  K-then m n hm hn = Does-bind R m _ hm (λ a. hn)

  K-mark_blocked : (id : String) (e : Failure) → K {S = S} (mark_blocked id e)
  K-mark_blocked id e =
      Does-if R (not (is_definitive e) && is_ambiguous_postgres_write_error e) (mark_pending id e)
        (mark_failed id blocking e) (λ t. K-mark_pending id e) (λ f. K-mark_failed id blocking e)

  K-record_replay_failure : (id : String) (e : Failure) → K {S = S} (record_replay_failure id e)
  unfolding record_replay_failure
  K-record_replay_failure id e =
      Does-if R (is_rejection e) (mark_failed id terminal_rejected e) (mark_blocked id e)
        (λ t. K-mark_failed id terminal_rejected e) (λ f. K-mark_blocked id e)

  K-delete_covered : (is : List String) → K {S = S} (delete_covered is)
  K-delete_covered [] = K-pure 0
  K-delete_covered (i ∷ is) = K-then _ _ (K-delete (i ∷ is)) (K-pure _)

  K-clean : (v : Option Coverage) (limit : ℕ) → K {S = S} (clean v limit)
  K-clean none limit = K-pure 0
  K-clean (some snapshot) limit =
      Does-bind R _ _ (K-inspect (select_covered snapshot limit)) K-delete_covered

  K-cleanup :
      (c : Settings) (v : Option Coverage) (limit : ℕ)
      → K {S = S} (cleanup_recovery_journal c v limit)
  unfolding cleanup_recovery_journal
  K-cleanup c v limit =
      Does-if R c.has_recovery_db (clean v limit) (pure 0) (λ t. K-clean v limit) (λ f. K-pure 0)

  module _ (execute : Operation → S → Result Failure (RunResult × S)) (k : Codec) where
    K-apply_entry :
        (forced : Option ℕ) (e : Entry) (p : ParsedPayload) → K (apply_entry execute k forced e p)
    K-apply_entry forced e p =
        Does-bind R _ _ (apply-Done execute _)
          λ a. Does-weaken R (finalize-Done _ a.receipt) (λ s d. d) (λ u s d. tt)

    K-replay_entry : (forced : Option ℕ) (e : Entry) → K (replay_entry execute k forced e)
    unfolding replay_entry
    K-replay_entry forced e = Does-bind R _ _ (Does-lift R (k.decrypt e.ciphertext)) λ json.
        K-then _ _ (Does-throw_when R _ _) (
          Does-bind R _ _ (Does-lift R (parse_journal_payload k json e.request_id))
            λ p. K-then _ _ (Does-throw_when R _ _) (K-apply_entry forced e p))

    K-replay_item : (e : Entry) → K (replay_item execute k e)
    K-replay_item e =
        Does-attempt R _ _ stable_always (K-then _ _ (K-replay_entry none e) (K-pure 1)) λ x.
          K-then _ _
            (Does-attempt R _ _ stable_always (K-record_replay_failure e.request_id x)
              λ y. K-pure tt)
            (K-pure 0)

    K-replay_items : (es : List Entry) → K (replay_items execute k es)
    K-replay_items [] = K-pure 0
    K-replay_items (e ∷ es) =
        Does-bind R _ _ (K-replay_item e)
          λ n. Does-bind R _ _ (K-replay_items es) λ m. K-pure (n + m)

    K-replay : (c : Settings) (limit : ℕ) → K (replay_recovery_journal execute k c limit)
    unfolding replay_recovery_journal
    K-replay c limit =
        Does-if R (is_unavailable c) (pure 0) _ (λ t. K-pure 0)
          λ f. K-at_clock _ λ now. K-then _ _ (K-requeue now) (
            Does-bind R _ _ (K-inspect (load_recovery_journal_candidates limit))
              (λ es. K-replay_items es))

    K-drain_item : (target : ℕ) (e : Entry) → K (drain_item execute k target e)
    K-drain_item target e =
        Does-attempt R _ _ stable_always (K-then _ _ (K-replay_entry (some target) e) (K-pure 1))
          λ x.
            Does-if R (is_rejection x) (mark_failed e.request_id terminal_rejected x >> pure 0)
              (mark_blocked e.request_id x >> throw x)
              (λ t. K-then _ _ (K-mark_failed e.request_id terminal_rejected x) (K-pure 0))
              (λ f. K-then _ _ (K-mark_blocked e.request_id x) (Does-throw R x))

    K-drain_batch : (target : ℕ) (es : List Entry) → K (drain_batch execute k target es)
    K-drain_batch target [] = K-pure 0
    K-drain_batch target (e ∷ es) =
        Does-bind R _ _ (K-drain_item target e)
          λ n. Does-bind R _ _ (K-drain_batch target es) λ m. K-pure (n + m)

    K-drain_next :
        (again : ℕ → M S (Option ℕ)) (target replayed : ℕ) (es : List Entry)
        → ((n : ℕ) → K (again n))
        → K (drain_next execute k again target replayed es)
    K-drain_next again target replayed [] h = K-pure _
    K-drain_next again target replayed (e ∷ es) h =
        Does-bind R _ _ (K-drain_batch target (e ∷ es)) λ n. h (replayed + n)

    K-drain :
        (fuel : ℕ) (c : Coverage) (target limit replayed : ℕ)
        → K (drain execute k fuel c target limit replayed)
    unfolding drain
    K-drain zero c target limit replayed = K-pure _
    K-drain (suc fuel) c target limit replayed =
        Does-bind R _ _ (K-inspect (load_recovery_replay_batch c target limit))
          λ batch. K-drain_next _ target replayed batch (K-drain fuel c target limit)

    K-conclude : (c : Coverage) (target : ℕ) (r : Option ℕ) → K (conclude execute k c target r)
    K-conclude c target none = K-pure none
    K-conclude c target (some n) =
        Does-bind R _ _ (K-inspect (count_recovery_replay_pending c target))
          λ pending. Does-bind R _ _ K-watermark λ receipt. K-pure _

    K-complete :
        (fuel : ℕ) (c : Settings) (v : Coverage) (target limit : ℕ)
        → K (complete_recovery_replay execute k fuel c v target limit)
    unfolding complete_recovery_replay
    K-complete fuel c v target limit =
        Does-if R (is_unavailable c) (throw _) _ (λ t. Does-throw R _)
          λ f. K-at_clock _ λ now.
            K-then _ _ (K-then _ _ (K-requeue now) (K-promote v target))
              (Does-bind R _ _ (K-drain fuel v target limit 0) (K-conclude v target))

    -- `replayRecoveryJournal`, `completeRecoveryReplay` (with any bound on its rounds) and
    -- `cleanupRecoveryJournal` keep every receipt of PostgreSQL, and keep that each entry of the
    -- journal with the coordinates of a receipt has that receipt there; whatever fails in them, and
    -- whatever other requests do in between that keep both.
    pub replay_recovery_journal-IsFaithful :
        (c : Settings) (fuel target limit : ℕ) (v : Coverage) (verified : Option Coverage)
        (w : World S)
        → IsSteady (receipts_kept S) w
        → (let w' = (replay_recovery_journal execute k c limit w).1 in
            IsFaithful w'.state × KeepsAll w.state w'.state)
          × (let w' = (complete_recovery_replay execute k fuel c v target limit w).1 in
              IsFaithful w'.state × KeepsAll w.state w'.state)
          × (let w' = (cleanup_recovery_journal c verified limit w).1 in
              IsFaithful w'.state × KeepsAll w.state w'.state)
    replay_recovery_journal-IsFaithful c fuel target limit v verified w s =
        let (a, b, x) = (K-replay c limit).after w s tt in
        let (a', b', x') = (K-complete fuel c v target limit).after w s tt in
        let (a'', b'', x'') = (K-cleanup c verified limit).after w s tt in
        ((a.holds, b), (a'.holds, b'), (a''.holds, b''))
