-- ===== src/Store/Registration/Keys.antt =====
-- What `INSERT OR IGNORE` does to rows with a primary key and unique keys, and the keys of the
-- tables `task_versions`, `task_rounds` and `task_events`.
use adg_lang.Common.{
  ◌≡◌, refl, sym, arith, Bool, true, false, ◌&&◌, ◌||◌, List, [], ◌∷◌, ◌++◌, ◌⊎◌, inl, inr, ◌↔◌,
  str_eq, eq_iff, ==_iff, ◌==◌, any, All, Any, Any-of_any, if◌then◌else◌, Bool-cases,
}
use adg_lang.Store.Tables.{Task, Round, Event}

module _ {A : Type 0} where
  -- No two of the rows share a key.
  abbrev pub Apart : (A → A → Type 0) → List A → Type 0
  Apart SameKey [] = Unit
  Apart SameKey (x ∷ xs) = All (λ y. ¬ SameKey x y) xs × Apart SameKey xs

  -- The rows after a row was inserted, where `more` are the rows with it: they are as they were
  -- where one of them shares a key with the row.
  pub data Inserted (SameKey : A → A → Type 0) (x : A) (xs more : List A) : List A → Type 0 where
    ignored : Any (λ y. SameKey y x) xs → Inserted SameKey x xs more xs
    added : All (λ y. ¬ SameKey y x) xs → Inserted SameKey x xs more more

module _ {A : Type 0} (SameKey : A → A → Type 0) (x : A) where
  module _ (test : A → Bool) (correct : (y : A) → (test y ≡ true) ↔ SameKey y x) where
    pub any_of_Any : (xs : List A) → Any (λ y. SameKey y x) xs → any test xs ≡ true
    any_of_Any [] h = absurd h
    any_of_Any (y ∷ xs) (inl s) = let t = (correct y).1 s in rw t refl
    any_of_Any (y ∷ xs) (inr h) = let k = any_of_Any xs h in ground arith

    All-of_any : (xs : List A) → any test xs ≡ false → All (λ y. ¬ SameKey y x) xs
    All-of_any [] h = tt
    All-of_any (y ∷ xs) h =
        let f : test y ≡ false = ground arith in
        let k : any test xs ≡ false = ground arith in
        (λ s. let t = (correct y).1 s in cc, All-of_any xs k)

    pub Inserted-if :
        (xs more : List A) → Inserted SameKey x xs more (if any test xs then xs else more)
    Inserted-if xs more = elim (Bool-cases (any test xs)) [
      | inl t ↦ rw t (ignored (Any-of_any _ test xs (λ y. (correct y).0) t))
      | inr f ↦ rw f (added (All-of_any xs f))
    ]

    -- With the row or one of its keys there, the test finds it.
    pub any-Inserted_end :
        (xs : List A) {ys : List A}
        → SameKey x x
        → Inserted SameKey x xs (xs ++ x ∷ []) ys
        → any test ys ≡ true
    any-Inserted_end xs r (ignored s) = any_of_Any xs s
    any-Inserted_end xs r (added n) = at_end xs
      where
        at_end : (xs : List A) → any test (xs ++ x ∷ []) ≡ true
        at_end [] = let t = (correct x).1 r in rw t refl
        at_end (y ∷ xs) = let k = at_end xs in ground arith

    pub any-Inserted_front :
        (xs : List A) {ys : List A}
        → SameKey x x
        → Inserted SameKey x xs (x ∷ xs) ys
        → any test ys ≡ true
    any-Inserted_front xs r (ignored s) = any_of_Any xs s
    any-Inserted_front xs r (added n) = let t = (correct x).1 r in rw t refl

  All-end : (P : A → Type 0) (xs : List A) → All P xs → P x → All P (xs ++ x ∷ [])
  All-end P [] h p = (p, tt)
  All-end P (z ∷ xs) h p = (h.0, All-end P xs h.1 p)

  Apart-end :
      (xs : List A) → All (λ y. ¬ SameKey y x) xs → Apart SameKey xs → Apart SameKey (xs ++ x ∷ [])
  Apart-end [] h k = (tt, tt)
  Apart-end (y ∷ xs) h k = (All-end (λ z. ¬ SameKey y z) xs k.0 h.0, Apart-end xs h.1 k.1)

  pub Inserted-Apart_end :
      (xs : List A) {ys : List A}
      → Apart SameKey xs
      → Inserted SameKey x xs (xs ++ x ∷ []) ys
      → Apart SameKey ys
  Inserted-Apart_end xs h (ignored s) = h
  Inserted-Apart_end xs h (added n) = Apart-end xs n h

  flipped :
      (xs : List A)
      → ((y : A) → SameKey x y → SameKey y x)
      → All (λ y. ¬ SameKey y x) xs
      → All (λ y. ¬ SameKey x y) xs
  flipped [] swap h = tt
  flipped (y ∷ xs) swap h = (λ s. h.0 (swap y s), flipped xs swap h.1)

  pub Inserted-Apart_front :
      (xs : List A) {ys : List A}
      → ((y : A) → SameKey x y → SameKey y x)
      → Apart SameKey xs
      → Inserted SameKey x xs (x ∷ xs) ys
      → Apart SameKey ys
  Inserted-Apart_front xs swap h (ignored s) = h
  Inserted-Apart_front xs swap h (added n) = (flipped xs swap n, h)

abbrev pub SameTask : Task → Task → Type 0
SameTask u t =
    (u.id ≡ t.id)
    ⊎ (((u.task_id ≡ t.task_id) × (u.task_version ≡ t.task_version)) ⊎ (u.packet_id ≡ t.packet_id))

abbrev pub SameRound : Round → Round → Type 0
SameRound s r =
    (s.id ≡ r.id) ⊎ ((s.task_version_id ≡ r.task_version_id) × (s.round_number ≡ r.round_number))

abbrev pub SameEvent : Event → Event → Type 0
SameEvent f e = (f.id ≡ e.id) ⊎ (f.idempotency_key ≡ e.idempotency_key)

pub SameEvent-swap : (f e : Event) → SameEvent f e → SameEvent e f
SameEvent-swap f e (inl h) = inl (sym h)
SameEvent-swap f e (inr h) = inr (sym h)

pub SameTask-iff :
    (t u : Task)
    → ((str_eq u.id t.id
          || str_eq u.task_id t.task_id && u.task_version == t.task_version
          || str_eq u.packet_id t.packet_id)
        ≡ true)
      ↔ SameTask u t
SameTask-iff t u = ground (
  arith,
  eq_iff u.id t.id,
  eq_iff u.task_id t.task_id,
  ==_iff u.task_version t.task_version,
  eq_iff u.packet_id t.packet_id,
)

pub SameRound-iff :
    (r s : Round)
    → ((str_eq s.id r.id
          || str_eq s.task_version_id r.task_version_id && s.round_number == r.round_number)
        ≡ true)
      ↔ SameRound s r
SameRound-iff r s = ground (
  arith,
  eq_iff s.id r.id,
  eq_iff s.task_version_id r.task_version_id,
  ==_iff s.round_number r.round_number,
)

pub SameEvent-iff :
    (e f : Event)
    → ((str_eq f.id e.id || str_eq f.idempotency_key e.idempotency_key) ≡ true) ↔ SameEvent f e
SameEvent-iff e f = ground (arith, eq_iff f.id e.id, eq_iff f.idempotency_key e.idempotency_key)
