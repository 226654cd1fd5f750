-- ===== src/Store/Keeps.antt =====
-- Invariants of the database across a call, with other requests running at its waits.
use adg_lang.Common.{
  ◌≡◌, refl, Bool, true, false, Option, none, some, List, [], ◌∷◌, Result, ok, err, All,
}
use adg_lang.Store.Tables.{Database}
use adg_lang.Store.Calls.{
  StoreError, World, M, pure, throw, throw_when, query, batch, commit, run_others, resume, ◌>>=◌,
}

module _ (Inv : Database → Type 0) where
  -- What another request may do: anything that keeps the invariant.
  abbrev pub IsFair : (Database → Database) → Type 0
  IsFair f = (db : Database) → Inv db → Inv (f db)

  pub record IsSteady (w : World) : Type 0 where
    pub holds : Inv w.db
    pub fair : All IsFair w.others

  pub record Keeps {A : Type 0} (m : M A) : Type 0 where
    pub after : (w : World) → IsSteady w → IsSteady (m w).1

  pub Keeps-pure : {A : Type 0} (a : A) → Keeps (pure a)
  Keeps-pure a = record { after = λ w h. h }

  pub Keeps-throw : {A : Type 0} (e : StoreError) → Keeps (throw {A = A} e)
  Keeps-throw e = record { after = λ w h. h }

  pub Keeps-throw_when : (c : Bool) (e : StoreError) → Keeps (throw_when c e)
  Keeps-throw_when true e = record { after = λ w h. h }
  Keeps-throw_when false e = record { after = λ w h. h }

  IsSteady-run :
      (fs : List (Database → Database)) (db : Database)
      → Inv db
      → All IsFair fs
      → IsSteady (run_others (record { db = db; others = fs }))
  IsSteady-run [] db i h = record { holds = i; fair = tt }
  IsSteady-run (f ∷ fs) db i h = record { holds = h.0 db i; fair = h.1 }

  pub Keeps-query : {A : Type 0} (f : Database → A) → Keeps (query f)
  Keeps-query f = record { after = λ w h. IsSteady-run w.others w.db h.holds h.fair }

  pub Keeps-batch :
      {A : Type 0} (f : Database → Option (A × Database))
      → ((db db' : Database) (a : A) → f db ≡ some (a, db') → Inv db → Inv db')
      → Keeps (batch f)
  Keeps-batch {A} f h = record {
    after = λ w s.
        let w' = run_others w in go w' (f w'.db) refl (IsSteady-run w.others w.db s.holds s.fair);
  }
    where
      go :
          (w : World) (r : Option (A × Database))
          → f w.db ≡ r
          → IsSteady w
          → IsSteady (commit f w).1
      go w none e s = rw (e, commit) s
      go w (some (a, db')) e s =
          rw (e, commit) (record { holds = h w.db db' a e s.holds; fair = s.fair })

  pub Keeps-bind :
      {A B : Type 0} (m : M A) (f : A → M B) → Keeps m → ((a : A) → Keeps (f a)) → Keeps (m >>= f)
  Keeps-bind {A} {B} m f hm hf = record { after = λ w s. go (m w).0 (m w).1 (hm.after w s) }
    where
      go : (r : Result StoreError A) (w : World) → IsSteady w → IsSteady (resume f r w).1
      go (ok a) w s = (hf a).after w s
      go (err x) w s = s
