-- ===== src/Journal/Calls/Successes.antt =====
-- What a call has done where it did not throw.
use adg_lang.Common.{
  ◌≡◌, refl, subst, Bool, true, false, List, [], ◌∷◌, Result, ok, err, All, ok-injective,
  if◌then◌else◌,
}
use adg_lang.Journal.Errors.{Failure}
use adg_lang.Journal.Calls.{
  State, Fault, fine, lost, unheard, Wait, World, M, pure, throw, resume, ◌>>=◌, ◌>>◌, handle,
  attempt, clock, perform, call,
}
use adg_lang.Journal.Calls.Triples.{Rely, IsFair, IsSteady, Condition, IsStable, Does}

module _ {S : Type 0} (R : Rely S) where
  -- From a state of the first condition, a success keeps the invariant and gives the second.
  pub record Gives {A : Type 0} (Pre : Condition R) (m : M S A) (Post : A → Condition R)
      : Type 0 where
    pub after :
        (w : World S)
        → IsSteady R w
        → Pre w.state
        → (a : A) → (m w).0 ≡ ok a
        → IsSteady R (m w).1 × Post a (m w).1.state

  module _ {Pre : Condition R} where
    pub Gives-of_Does :
        {A : Type 0} {Post : A → Condition R} {m : M S A} → Does R Pre m Post → Gives Pre m Post
    Gives-of_Does d = record { after = λ w s p a e. let (s', l, k) = d.after w s p in (s', k a e) }

    pub Gives-pure :
        {A : Type 0} {Post : A → Condition R} (a : A)
        → ((s : State S) → Pre s → Post a s)
        → Gives Pre (pure a) Post
    Gives-pure {Post = Post} a h = record {
      after = λ w s p b e. (s, subst (λ x. Post x w.state) (ok-injective e) (h w.state p));
    }

    pub Gives-throw :
        {A : Type 0} {Post : A → Condition R} (e : Failure) → Gives Pre (throw {A = A} e) Post
    Gives-throw e = record { after = λ w s p b q. absurd cc }

    -- A call that ends with a throw does not succeed.
    pub Gives-never :
        {A B : Type 0} {Post : B → Condition R} (m : M S A) (e : Failure)
        → Gives Pre (m >> throw e) Post
    Gives-never {A} {B} m e = record { after = λ w s p b q. absurd (go (m w).0 (m w).1 b q) }
      where
        go :
            (r : Result Failure A) (w : World S) (b : B)
            → (resume {B = B} (λ a. throw e) r w).0 ≡ ok b
            → ⊥
        go (ok a) w b q = cc
        go (err x) w b q = cc

    pub Gives-clock : Gives Pre clock (λ now. Pre)
    unfolding clock
    Gives-clock = record { after = λ w s p b e. (record { holds = s.holds; fair = s.fair }, p) }

    pub Gives-if :
        {A : Type 0} {Post : A → Condition R} (b : Bool) (m n : M S A)
        → (b ≡ true → Gives Pre m Post)
        → (b ≡ false → Gives Pre n Post)
        → Gives Pre (if b then m else n) Post
    Gives-if true m n h k = h refl
    Gives-if false m n h k = k refl

    pub Gives-bind :
        {A B : Type 0} {Mid : A → Condition R} {Post : B → Condition R} (m : M S A) (f : A → M S B)
        → Gives Pre m Mid
        → ((a : A) → Gives (Mid a) (f a) Post)
        → Gives Pre (m >>= f) Post
    Gives-bind {A} {B} {Mid} {Post} m f hm hf = record {
      after = λ w s p. go (m w).0 (m w).1 (hm.after w s p);
    }
      where
        go :
            (r : Result Failure A) (w : World S)
            → ((a : A) → r ≡ ok a → IsSteady R w × Mid a w.state)
            → (b : B) → (resume f r w).0 ≡ ok b
            → IsSteady R (resume f r w).1 × Post b (resume f r w).1.state
        go (ok a) w k b e = let (s, p) = k a refl in (hf a).after w s p b e
        go (err x) w k b e = absurd cc

    -- A handler starts where the body stopped, and its condition is one that the body keeps.
    pub Gives-attempt :
        {A : Type 0} {Post : A → Condition R} (m : M S A) (h : Failure → M S A)
        → IsStable R Pre
        → Does R Pre m Post
        → ((e : Failure) → Gives Pre (h e) Post)
        → Gives Pre (attempt m h) Post
    Gives-attempt {A} {Post} m h stable hm hh = record {
      after = λ w s p.
          let (s', l, k) = hm.after w s p in
          go (m w).0 (m w).1 s' (stable w.state (m w).1.state l p) k;
    }
      where
        go :
            (r : Result Failure A) (w : World S)
            → IsSteady R w
            → Pre w.state
            → ((a : A) → r ≡ ok a → Post a w.state)
            → (a : A) → (handle h r w).0 ≡ ok a
            → IsSteady R (handle h r w).1 × Post a (handle h r w).1.state
        go (ok b) w s p k a e = (s, k a e)
        go (err x) w s p k a e = (hh x).after w s p a e

    pub Gives-call :
        {A : Type 0} {Post : A → Condition R} (f : State S → Result Failure A × State S)
        → IsStable R Pre
        → ((s : State S)
            → R.Inv s
            → Pre s
            → (a : A) → (f s).0 ≡ ok a
            → R.Inv (f s).1 × Post a (f s).1)
        → Gives Pre (call f) Post
    Gives-call {A} {Post} f stable h = record { after = λ w s p. go w w.waits s.holds s.fair p }
      where
        Done : Result Failure A × World S → Type 0
        Done o = (a : A) → o.0 ≡ ok a → IsSteady R o.1 × Post a o.1.state

        run : (t : Fault) (w : World S) → IsSteady R w → Pre w.state → Done (perform t f w)
        run fine w s p a e =
            let (i, k) = h w.state s.holds p a e in (record { holds = i; fair = s.fair }, k)
        run (lost x) w s p a e = absurd cc
        run (unheard x) w s p a e = absurd cc

        go :
            (w : World S) (ts : List (Wait S))
            → R.Inv w.state
            → All (IsFair R) ts
            → Pre w.state
            → Done (call f (record w { waits = ts }))
        go w [] i fs p = run fine (record w { waits = [] }) (record { holds = i; fair = tt }) p
        go w (t ∷ ts) i fs p =
            let (i', r) = fs.0 w.state i in
            run t.fault (record w { state = t.others w.state; waits = ts })
              (record { holds = i'; fair = fs.1 }) (stable w.state (t.others w.state) r p)

    pub Gives-weaken :
        {A : Type 0} {Early : Condition R} {Mid Post : A → Condition R} {m : M S A}
        → Gives Early m Mid
        → ((s : State S) → Pre s → Early s)
        → ((a : A) (s : State S) → Mid a s → Post a s)
        → Gives Pre m Post
    Gives-weaken d before later = record {
      after = λ w s p a e. let (s', k) = d.after w s (before w.state p) a e in (s', later a _ k);
    }
