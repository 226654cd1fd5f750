-- ===== src/Journal/Entries/Candidates.antt =====
-- The entries that a replay has to take, and how their number goes down.
use adg_lang.Common.{
  ℕ, zero, suc, ◌≤◌, ◌<◌, ◌≡◌, refl, sym, ◌∙◌, ap, Bool, true, false, ◌&&◌, ◌||◌, List, [], ◌∷◌,
  String, str_eq, any, select, take, length, Bool-cases, ◌⊎◌, inl, inr, some, arith, eq_iff,
  eq_refl,
}
use adg_lang.Journal.Entries.{
  Journal, Entry, Disposition, Coverage, has_id, update, applied_entry, failed_entry, insert_sorted,
  sort, is_older, is_replayable, is_in_gap, requeue_ambiguous_failed_journal_entries,
  load_recovery_replay_batch,
}

module _ {ℓ} {A : Type ℓ} where
  any_of_take : (p : A → Bool) (n : ℕ) (xs : List A) → any p (take n xs) ≡ true → any p xs ≡ true
  any_of_take p zero xs h = cc
  any_of_take p (suc n) [] h = cc
  any_of_take p (suc n) (x ∷ xs) h = ground (arith, any_of_take p n xs)

  any_of_select :
      (p keep : A → Bool) (xs : List A)
      → any p (select keep xs) ≡ true
      → any (λ x. p x && keep x) xs ≡ true
  any_of_select p keep [] h = cc
  any_of_select p keep (x ∷ xs) h = ground (arith, any_of_select p keep xs)

  nil_of_take : (n : ℕ) (xs : List A) → take (suc n) xs ≡ [] → xs ≡ []
  nil_of_take n [] h = refl
  nil_of_take n (x ∷ xs) h = absurd cc

  pub length-select-le : (keep : A → Bool) (xs : List A) → length (select keep xs) ≤ length xs
  length-select-le keep [] = omega arith
  length-select-le keep (x ∷ xs) = ground (arith, length-select-le keep xs)

pub any-insert_sorted :
    (p : Entry → Bool) (before : Entry → Entry → Bool) (e : Entry) (xs : List Entry)
    → any p (insert_sorted before e xs) ≡ (p e || any p xs)
any-insert_sorted p before e [] = refl
any-insert_sorted p before e (x ∷ xs) = ground (arith, any-insert_sorted p before e xs)

pub any-sort :
    (p : Entry → Bool) (before : Entry → Entry → Bool) (xs : List Entry)
    → any p (sort before xs) ≡ any p xs
any-sort p before [] = refl
any-sort p before (x ∷ xs) =
    any-insert_sorted p before x (sort before xs) ∙ ap (λ b. p x || b) (any-sort p before xs)

always : Entry → Bool
always e = true

nil_of_any : (xs : List Entry) → any always xs ≡ false → xs ≡ []
unfolding always
nil_of_any [] h = refl
nil_of_any (x ∷ xs) h = absurd cc

nil_of_sort : (before : Entry → Entry → Bool) (xs : List Entry) → sort before xs ≡ [] → xs ≡ []
nil_of_sort before xs h = nil_of_any xs (sym (any-sort always before xs) ∙ ap (any always) h)

module _ (v : Coverage) (target : ℕ) where
  abbrev pub measure : Journal → ℕ
  measure j = length (select (is_replayable v target) j)

  -- The journal has an entry of this request that is still to be replayed.
  abbrev pub unsettled : String → Journal → Bool
  unsettled id j = any (λ e. has_id id e && is_replayable v target e) j

  pub record IsSettling (f : Entry → Entry) : Type 0 where
    pub same_id : (e : Entry) → (f e).request_id ≡ e.request_id
    pub settled : (e : Entry) → is_replayable v target (f e) ≡ false

  pub applied-IsSettling :
      (now g n : ℕ)
      → is_in_gap v target g n ≡ false
      → IsSettling (applied_entry now (some g) (some n))
  applied-IsSettling now g n h = record { same_id = λ e. refl; settled = λ e. h }

  pub failed-IsSettling :
      (d : Disposition) (message : String) (now : ℕ) → IsSettling (failed_entry d message now)
  failed-IsSettling d message now = record { same_id = λ e. refl; settled = λ e. refl }

  module _ (f : Entry → Entry) (s : IsSettling f) (id : String) where
    pub measure-update-le : (j : Journal) → measure (update id f j) ≤ measure j
    measure-update-le [] = omega arith
    measure-update-le (e ∷ es) = ground (arith, measure-update-le es, s.settled e)

    pub measure-update-lt :
        (j : Journal) → unsettled id j ≡ true → measure (update id f j) < measure j
    measure-update-lt [] h = cc
    measure-update-lt (e ∷ es) h =
        ground (arith, measure-update-le es, measure-update-lt es, s.settled e)

    other_unsettled :
        (other : String) (j : Journal)
        → str_eq other id ≡ false
        → unsettled other j ≡ true
        → unsettled other (update id f j) ≡ true
    other_unsettled other [] n h = cc
    other_unsettled other (e ∷ es) n h = elim (Bool-cases (has_id id e)) [
      | inl t ↦ rw t (
          ground (
            arith,
            other_unsettled other es n,
            eq_iff e.request_id id,
            eq_iff e.request_id other,
            eq_iff other id,
          ))
      | inr k ↦ rw k (ground (arith, other_unsettled other es n))
    ]

    pub unsettled-update :
        (other : String) (j : Journal)
        → unsettled other j ≡ true
        → (unsettled other (update id f j) ≡ true) ⊎ (measure (update id f j) < measure j)
    unsettled-update other j h = elim (Bool-cases (str_eq other id)) [
      | inl t ↦
          let e : other ≡ id = ground (arith, eq_iff other id) in
          inr (measure-update-lt j (rw e at h))
      | inr n ↦ inl (other_unsettled other j n h)
    ]

  pub length-update :
      (id : String) (f : Entry → Entry) (j : Journal) → length (update id f j) ≡ length j
  length-update id f [] = refl
  length-update id f (e ∷ es) = ap suc (length-update id f es)

  pub length-requeue :
      (now : ℕ) (j : Journal) → length (requeue_ambiguous_failed_journal_entries now j) ≡ length j
  unfolding requeue_ambiguous_failed_journal_entries
  length-requeue now [] = refl
  length-requeue now (e ∷ es) = ap suc (length-requeue now es)

  pub unsettled_of_batch :
      (limit : ℕ) (j : Journal) (e : Entry) (es : List Entry)
      → load_recovery_replay_batch v target limit j ≡ e ∷ es
      → unsettled e.request_id j ≡ true
  unfolding load_recovery_replay_batch
  unsettled_of_batch limit j e es h =
      let xs = sort is_older (select (is_replayable v target) j) in
      any_of_select (has_id e.request_id) (is_replayable v target) j (
        sym (any-sort (has_id e.request_id) is_older (select (is_replayable v target) j))
        ∙ any_of_take (has_id e.request_id) limit xs (rw h (rw (eq_refl e.request_id) refl)))

  pub none_of_batch :
      (limit : ℕ) (j : Journal)
      → load_recovery_replay_batch v target (suc limit) j ≡ []
      → measure j ≡ 0
  unfolding load_recovery_replay_batch
  none_of_batch limit j h = ap length (nil_of_sort is_older _ (nil_of_take limit _ h))
