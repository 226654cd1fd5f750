-- ===== src/Journal/Calls/Triples.antt =====
-- What a call does between fair requests: an invariant of the state, a relation between the states
-- before and after, and a condition on its value.
use adg_lang.Common.{
  ◌≡◌, refl, subst, Bool, true, false, List, [], ◌∷◌, Result, ok, err, All, ok-injective,
  if◌then◌else◌,
}
use adg_lang.Journal.Errors.{Failure}
use adg_lang.Journal.Calls.{
  State, Fault, fine, lost, unheard, Wait, World, M, pure, throw, lift, resume, ◌>>=◌, handle,
  attempt, throw_when, clock, perform, call,
}

-- What the requests share: an invariant, and what each may rely on of the others.
pub record Rely (S : Type 0) : Type 1 where
  pub Inv : State S → Type 0
  pub Rel : State S → State S → Type 0
  pub reflexive : (s : State S) → Rel s s
  pub transitive : {s t u : State S} → Rel s t → Rel t u → Rel s u

module _ {S : Type 0} (R : Rely S) where
  abbrev pub IsFair : Wait S → Type 0
  IsFair t = (s : State S) → R.Inv s → R.Inv (t.others s) × R.Rel s (t.others s)

  -- The invariant holds, and the other requests keep it and the relation.
  pub record IsSteady (w : World S) : Type 0 where
    pub holds : R.Inv w.state
    pub fair : All IsFair w.waits

  abbrev pub Condition : Type 1
  Condition = State S → Type 0

  abbrev pub Always : Condition
  Always s = Unit

  -- From a state of the first condition the call keeps the invariant and the relation, and where it
  -- does not throw its value satisfies the second.
  pub record Does {A : Type 0} (Pre : Condition) (m : M S A) (Post : A → Condition) : Type 0 where
    pub after :
        (w : World S)
        → IsSteady w
        → Pre w.state
        → IsSteady (m w).1
          × R.Rel w.state (m w).1.state
          × ((a : A) → (m w).0 ≡ ok a → Post a (m w).1.state)

  abbrev pub IsStable : Condition → Type 0
  IsStable P = (s t : State S) → R.Rel s t → P s → P t

  module _ {Pre : Condition} where
    pub Does-pure :
        {A : Type 0} {Post : A → Condition} (a : A)
        → ((s : State S) → Pre s → Post a s)
        → Does Pre (pure a) Post
    Does-pure {Post = Post} a h = record {
      after = λ w s p. (
        s,
        R.reflexive w.state,
        λ b e. subst (λ x. Post x w.state) (ok-injective e) (h w.state p),
      );
    }

    pub Does-throw :
        {A : Type 0} {Post : A → Condition} (e : Failure) → Does Pre (throw {A = A} e) Post
    Does-throw e = record { after = λ w s p. (s, R.reflexive w.state, λ b q. cc) }

    pub Does-lift : {A : Type 0} (r : Result Failure A) → Does Pre (lift r) (λ a. Pre)
    Does-lift r = record { after = λ w s p. (s, R.reflexive w.state, λ b q. p) }

    pub Does-throw_when : (c : Bool) (e : Failure) → Does Pre (throw_when c e) (λ u. Pre)
    Does-throw_when true e = Does-throw e
    Does-throw_when false e = Does-pure tt (λ s p. p)

    pub Does-if :
        {A : Type 0} {Post : A → Condition} (b : Bool) (m n : M S A)
        → (b ≡ true → Does Pre m Post)
        → (b ≡ false → Does Pre n Post)
        → Does Pre (if b then m else n) Post
    Does-if true m n h k = h refl
    Does-if false m n h k = k refl

    pub Does-clock : Does Pre clock (λ now. Pre)
    unfolding clock
    Does-clock = record {
      after = λ w s p. (record { holds = s.holds; fair = s.fair }, R.reflexive w.state, λ now e. p);
    }

    pub Does-bind :
        {A B : Type 0} {Mid : A → Condition} {Post : B → Condition} (m : M S A) (f : A → M S B)
        → Does Pre m Mid
        → ((a : A) → Does (Mid a) (f a) Post)
        → Does Pre (m >>= f) Post
    Does-bind {A} {B} {Mid} {Post} m f hm hf = record {
      after = λ w s p. let (s', l, k) = hm.after w s p in go w.state (m w).0 (m w).1 s' l k;
    }
      where
        go :
            (start : State S) (r : Result Failure A) (w : World S)
            → IsSteady w
            → R.Rel start w.state
            → ((a : A) → r ≡ ok a → Mid a w.state)
            → IsSteady (resume f r w).1
              × R.Rel start (resume f r w).1.state
              × ((b : B) → (resume f r w).0 ≡ ok b → Post b (resume f r w).1.state)
        go start (ok a) w s l k =
            let (s', l', k') = (hf a).after w s (k a refl) in (s', R.transitive l l', k')
        go start (err e) w s l k = (s, l, λ b q. cc)

    pub Does-attempt :
        {A : Type 0} {Post : A → Condition} (m : M S A) (h : Failure → M S A)
        → IsStable Pre
        → Does Pre m Post
        → ((e : Failure) → Does Pre (h e) Post)
        → Does Pre (attempt m h) Post
    Does-attempt {A} {Post} m h stable hm hh = record {
      after = λ w s p. let (s', l, k) = hm.after w s p in go w.state (m w).0 (m w).1 s' l p k;
    }
      where
        go :
            (start : State S) (r : Result Failure A) (w : World S)
            → IsSteady w
            → R.Rel start w.state
            → Pre start
            → ((a : A) → r ≡ ok a → Post a w.state)
            → IsSteady (handle h r w).1
              × R.Rel start (handle h r w).1.state
              × ((a : A) → (handle h r w).0 ≡ ok a → Post a (handle h r w).1.state)
        go start (ok a) w s l p k = (s, l, k)
        go start (err e) w s l p k =
            let (s', l', k') = (hh e).after w s (stable start w.state l p) in
            (s', R.transitive l l', k')

    -- A statement or transaction, where the condition outlives what other requests do.
    pub Does-call :
        {A : Type 0} {Post : A → Condition} (f : State S → Result Failure A × State S)
        → IsStable Pre
        → ((s : State S)
            → R.Inv s
            → Pre s
            → R.Inv (f s).1 × R.Rel s (f s).1 × ((a : A) → (f s).0 ≡ ok a → Post a (f s).1))
        → Does Pre (call f) Post
    Does-call {A} {Post} f stable h = record { after = λ w s p. go w w.waits s.holds s.fair p }
      where
        Done : State S → Result Failure A × World S → Type 0
        Done start o =
            IsSteady o.1 × R.Rel start o.1.state × ((a : A) → o.0 ≡ ok a → Post a o.1.state)

        run :
            (start : State S) (t : Fault) (w : World S)
            → IsSteady w
            → R.Rel start w.state
            → Pre w.state
            → Done start (perform t f w)
        run start fine w s l p =
            let (i, r, k) = h w.state s.holds p in
            (record { holds = i; fair = s.fair }, R.transitive l r, k)
        run start (lost e) w s l p = (s, l, λ a q. cc)
        run start (unheard e) w s l p =
            let (i, r, k) = h w.state s.holds p in
            (record { holds = i; fair = s.fair }, R.transitive l r, λ a q. cc)

        go :
            (w : World S) (ts : List (Wait S))
            → R.Inv w.state
            → All IsFair ts
            → Pre w.state
            → Done w.state (call f (record w { waits = ts }))
        go w [] i fs p =
            run w.state fine (record w { waits = [] }) (record { holds = i; fair = tt })
              (R.reflexive w.state) p
        go w (t ∷ ts) i fs p =
            let (i', r) = fs.0 w.state i in
            run w.state t.fault (record w { state = t.others w.state; waits = ts })
              (record { holds = i'; fair = fs.1 }) r (stable w.state (t.others w.state) r p)

    -- The conditions of a call may be strengthened before and weakened after.
    pub Does-weaken :
        {A : Type 0} {Early : Condition} {Mid Post : A → Condition} {m : M S A}
        → Does Early m Mid
        → ((s : State S) → Pre s → Early s)
        → ((a : A) (s : State S) → Mid a s → Post a s)
        → Does Pre m Post
    Does-weaken d before later = record {
      after = λ w s p.
          let (s', l, k) = d.after w s (before w.state p) in (s', l, λ a e. later a _ (k a e));
    }

    -- A fact that does not speak of the state.
    pub Does-given :
        {A G : Type 0} {Post : A → Condition} {m : M S A}
        → (G → Does Pre m Post)
        → Does (λ s. G × Pre s) m Post
    Does-given h = record { after = λ w s p. (h p.0).after w s p.1 }
