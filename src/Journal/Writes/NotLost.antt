-- ===== src/Journal/Writes/NotLost.antt =====
-- A write that failed stays in the journal as one to settle, unless a constraint refused it.
use adg_lang.Common.{
  ℕ, ◌≤◌, ◌≡◌, refl, true, false, List, [], ◌∷◌, String, any, drop, Bool-cases, inl, inr, Result,
  ok, err, arith,
}
use adg_lang.Journal.Errors.{
  Failure, is_ambiguous_postgres_write_error, is_terminal_postgres_write_rejection,
}
use adg_lang.Journal.Payload.{Operation}
use adg_lang.Journal.Entries.{
  Journal, Entry, Coverage, blocking, has_id, update, is_unsettled, waiting_entry, failed_entry,
  mark_journal_pending, mark_journal_failed, count_recovery_replay_pending,
}
use adg_lang.Journal.Postgres.{RunResult, Applied, Write, apply_mutating_operations_with_receipt}
use adg_lang.Journal.Calls.{
  State, World, M, pure, throw, attempt, handle, resume, ◌>>◌, clock, reading,
}
use adg_lang.Journal.Writes.{record_failure, apply_with_receipt, send}

count_update :
    (v : Coverage) (target : ℕ) (id : String) (f : Entry → Entry) (j : Journal)
    → ((e : Entry) → is_unsettled v target (f e) ≡ true)
    → any (has_id id) j ≡ true
    → 1 ≤ count_recovery_replay_pending v target (update id f j)
unfolding count_recovery_replay_pending
count_update v target id f [] h a = absurd cc
count_update v target id f (e ∷ es) h a = elim (Bool-cases (has_id id e)) [
  | inl t ↦ rw (t, h e) (omega arith)
  | inr n ↦ rw n (ground (arith, count_update v target id f es h (rw n at a)))
]

module _ {S : Type 0} where
  -- No other request runs, and no statement fails on its way.
  abbrev pub quiet : State S → List ℕ → World S
  quiet s ts = record { state = s; waits = []; times = ts }

  Counts : Coverage → ℕ → World S → Type 0
  Counts v target w = 1 ≤ count_recovery_replay_pending v target w.state.journal

  recorded_counts :
      (v : Coverage) (target : ℕ) (id : String) (x : Failure) (s : State S) (ts : List ℕ)
      → any (has_id id) s.journal ≡ true
      → is_terminal_postgres_write_rejection x ≡ false
      → Counts v target (record_failure id x (quiet s ts)).1
  unfolding Counts record_failure clock mark_journal_pending mark_journal_failed
  recorded_counts v target id x s ts a n = elim (Bool-cases (is_ambiguous_postgres_write_error x)) [
    | inl t ↦ rw (n, t) (count_update v target id (waiting_entry _ _) s.journal (λ e. refl) a)
    | inr f ↦
        rw (n, f) (count_update v target id (failed_entry blocking _ _) s.journal (λ e. refl) a)
  ]

  -- A mark of the journal, whatever becomes of it, does not hide the error.
  kept_error :
      (m : M S (Unit {0})) (y : Failure) (w : World S)
      → (attempt m (λ e. pure tt) >> throw {A = List RunResult} y) w ≡ (err y, (m w).1)
  kept_error m y w = go (m w).0 (m w).1
    where
      go :
          (r : Result Failure (Unit {0})) (w' : World S)
          → resume
              (λ u. throw {A = List RunResult} y)
              (handle (λ e. pure tt) r w').0
              (handle (λ e. pure tt) r w').1
            ≡ (err y, w')
      go (ok u) w' = refl
      go (err x) w' = refl

  module _ (execute : Operation → S → Result Failure (RunResult × S)) where
    -- If the write that `executeMutatingOperations` sends throws, on a journal that has its entry,
    -- with no other request running and no statement lost on its way, then
    -- `countRecoveryReplayPending` counts an entry, whatever the snapshot and the target, unless the
    -- error is a constraint that PostgreSQL found broken.
    pub send-counted :
        (v : Coverage) (target : ℕ) (w : Write) (s : State S) (ts : List ℕ) (x : Failure)
        → any (has_id w.request_id) s.journal ≡ true
        → (send execute w (quiet s ts)).0 ≡ err x
        → is_terminal_postgres_write_rejection x ≡ false
        → 1 ≤ count_recovery_replay_pending v target (send execute w (quiet s ts)).1.state.journal
    unfolding apply_with_receipt clock Counts
    send-counted v target w s ts x a =
        go (apply_mutating_operations_with_receipt execute w (reading ts) s.pg).0 refl
      where
        Fails : Result Failure (List RunResult) × World S → Type 0
        Fails o = o.0 ≡ err x → is_terminal_postgres_write_rejection x ≡ false → Counts v target o.1

        go :
            (r : Result Failure Applied)
            → (apply_mutating_operations_with_receipt execute w (reading ts) s.pg).0 ≡ r
            → Fails (send execute w (quiet s ts))
        go (ok b) e = rw e (λ h n. absurd cc)
        go (err y) e =
            rw (e, kept_error (record_failure w.request_id y) y)
              (λ h n.
                let same : y ≡ x = cc in
                recorded_counts v target w.request_id y
                  (record s {
                    pg = (apply_mutating_operations_with_receipt execute w (reading ts) s.pg).1;
                  })
                  (drop 1 ts) a (rw same n))
