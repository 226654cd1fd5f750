-- ===== src/Journal/Entries/Cleanup.antt =====
-- What `cleanupAppliedRecoveryJournal` deletes.
use adg_lang.Common.{
  ℕ, zero, suc, ◌≡◌, refl, sym, ◌∙◌, ap, Bool, true, false, List, [], ◌∷◌, String, str_eq, has,
  AllDistinct, any, find, select, take, if◌then◌else◌, Bool-cases, ◌⊎◌, inl, inr, some, arith,
  eq_iff,
}
use adg_lang.Journal.Entries.{
  Journal, Entry, Coverage, has_id, ids, is_deletable, precedes, sort, select_covered, delete_row,
  delete_rows,
}
use adg_lang.Journal.Entries.Candidates.{any-sort}

has-take :
    (id : String) (n : ℕ) (xs : List Entry)
    → has id (ids (take n xs)) ≡ true
    → any (has_id id) xs ≡ true
has-take id zero xs h = cc
has-take id (suc n) [] h = cc
has-take id (suc n) (x ∷ xs) h =
    ground (arith, has-take id n xs, eq_iff id x.request_id, eq_iff x.request_id id)

has_of_any : (id : String) (xs : List Entry) → any (has_id id) xs ≡ true → has id (ids xs) ≡ true
has_of_any id [] h = cc
has_of_any id (x ∷ xs) h =
    ground (arith, has_of_any id xs, eq_iff id x.request_id, eq_iff x.request_id id)

any_of_select :
    (id : String) (keep : Entry → Bool) (xs : List Entry)
    → any (has_id id) (select keep xs) ≡ true
    → any (has_id id) xs ≡ true
any_of_select id keep [] h = cc
any_of_select id keep (x ∷ xs) h = ground (arith, any_of_select id keep xs)

skip_select :
    (id : String) (keep : Entry → Bool) (x : Entry) (xs : List Entry)
    → has_id id x ≡ false
    → any (has_id id) (select keep (x ∷ xs)) ≡ true
    → any (has_id id) (select keep xs) ≡ true
skip_select id keep x xs n h = ground arith

-- With distinct ids, an id that a selection has is the id of an entry that it keeps.
kept_of_select :
    (id : String) (keep : Entry → Bool) (xs : List Entry) {e : Entry}
    → AllDistinct (ids xs)
    → any (has_id id) (select keep xs) ≡ true
    → find (has_id id) xs ≡ some e
    → keep e ≡ true
kept_of_select id keep [] d h f = cc
kept_of_select id keep (x ∷ xs) {e} d h f = elim (Bool-cases (has_id id x)) [
  | inl t ↦ elim (Bool-cases (keep x)) [
    | inl y ↦ let same : x ≡ e = cc (rw t at f) in rw⁻¹ same y
    | inr n ↦ absurd (
        let a = has_of_any id xs (any_of_select id keep xs (rw n at h)) in
        let i : id ≡ x.request_id = ground (arith, eq_iff x.request_id id) in
        let b = d.0 in let c = rw i at a in cc)
  ]
  | inr n ↦ kept_of_select id keep xs d.1 (skip_select id keep x xs n h) (rw n at f)
]

find-delete_row :
    (id other : String) (xs : List Entry)
    → str_eq id other ≡ false
    → find (has_id id) (delete_row other xs) ≡ find (has_id id) xs
find-delete_row id other [] n = refl
find-delete_row id other (x ∷ xs) n = elim (Bool-cases (has_id other x)) [
  | inl t ↦
      let k : has_id id x ≡ false =
        ground (arith, eq_iff x.request_id id, eq_iff x.request_id other, eq_iff id other) in
      rw (t, k) (find-delete_row id other xs n)
  | inr f ↦ rw f (ap (λ o. if has_id id x then some x else o) (find-delete_row id other xs n))
]

find-delete_rows :
    (id : String) (ks : List String) (xs : List Entry)
    → has id ks ≡ false
    → find (has_id id) (delete_rows ks xs) ≡ find (has_id id) xs
unfolding delete_rows
find-delete_rows id [] xs h = refl
find-delete_rows id (k ∷ ks) xs h =
    find-delete_rows id ks (delete_row k xs) (ground arith) ∙ find-delete_row id k xs (ground arith)

selected_deletable :
    (id : String) (v : Coverage) (limit : ℕ) (j : Journal) {e : Entry}
    → AllDistinct (ids j)
    → has id (select_covered v limit j) ≡ true
    → find (has_id id) j ≡ some e
    → is_deletable v e ≡ true
unfolding select_covered
selected_deletable id v limit j d h f =
    let xs = select (is_deletable v) j in
    kept_of_select id (is_deletable v) j d
      (sym (any-sort (has_id id) precedes xs) ∙ has-take id limit (sort precedes xs) h) f

-- A cleaning of a journal with distinct request ids keeps each entry as it was, or the entry is
-- applied with coordinates that the verified snapshot covers.
pub delete_rows-select_covered :
    (id : String) (v : Coverage) (limit : ℕ) (j : Journal) (e : Entry)
    → AllDistinct (ids j)
    → find (has_id id) j ≡ some e
    → (find (has_id id) (delete_rows (select_covered v limit j) j) ≡ some e)
      ⊎ (is_deletable v e ≡ true)
delete_rows-select_covered id v limit j e d f =
    elim (Bool-cases (has id (select_covered v limit j))) [
      | inl t ↦ inr (selected_deletable id v limit j d t f)
      | inr n ↦ inl (find-delete_rows id (select_covered v limit j) j n ∙ f)
    ]
