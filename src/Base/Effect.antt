-- ===== src/Base/Effect.antt =====
-- Code that calls services: a state goes through, and each call returns a value or an error. The rules
-- below prove what holds after a chain of such calls, also where one of them fails.
use mathlib.Core.Path.{◌≡◌, refl}
use mathlib.Core.Bool.{Bool, true, false}
use mathlib.Core.List.{List, [], ◌∷◌}
use Prim.Native.String.{String}
use tapr.Base.Tests.{if◌then◌else◌}

-- `not_found` is what `apierrors.IsNotFound` tells.
pub record Error : Type 0 where
  pub not_found : Bool
  pub text : String

abbrev pub failure : String → Error
failure text = record { not_found = false; text = text }

pub data Result (A : Type 0) : Type 0 where
  ok : A → Result A
  err : Error → Result A

abbrev pub Eff : Type 0 → Type 0 → Type 0
Eff S A = S → S × Result A

module _ {S A B : Type 0} where
  abbrev pub chain : S × Result A → (A → Eff S B) → S × Result B
  chain (s, ok a) f = f a s
  chain (s, err e) f = (s, err e)

  -- `x, err := m; if err != nil { return err }`
  infixl 5 ◌>>=◌
  abbrev pub ◌>>=◌ : Eff S A → (A → Eff S B) → Eff S B
  ◌>>=◌ m f s = chain (m s) f

module _ {S A : Type 0} where
  abbrev pub pure : A → Eff S A
  pure a s = (s, ok a)

  abbrev pub fail : Error → Eff S A
  fail e s = (s, err e)

module _ {S A B : Type 0} where
  abbrev pub resolve : (A → Eff S B) → (Error → Eff S B) → S × Result A → S × Result B
  resolve f g (s, ok a) = f a s
  resolve f g (s, err e) = g e s

  -- `x, err := m`, and what the code does with resolve.
  abbrev pub catching : Eff S A → (A → Eff S B) → (Error → Eff S B) → Eff S B
  catching m f g s = resolve f g (m s)

  -- A call whose value and error are not used.
  abbrev pub ignoring : Eff S A → Eff S B → Eff S B
  ignoring m n = catching m (λ a. n) (λ e. n)

-- What holds after a call: of the value and the state, or of the state where it failed.
module _ {S A : Type 0} where
  abbrev pub Post : (A → S → Type 0) → (S → Type 0) → S × Result A → Type 0
  Post Q R (s, ok a) = Q a s
  Post Q R (s, err e) = R s

  pub record Ensures (P : S → Type 0) (m : Eff S A) (Q : A → S → Type 0) (R : S → Type 0)
      : Type 0 where
    pub run : (s : S) → P s → Post Q R (m s)

  Post-weaken :
      (Q Q' : A → S → Type 0) (R R' : S → Type 0) (o : S × Result A)
      → ((a : A) (s : S) → Q a s → Q' a s)
      → ((s : S) → R s → R' s)
      → Post Q R o
      → Post Q' R' o
  Post-weaken Q Q' R R' (s, ok a) f g h = f a s h
  Post-weaken Q Q' R R' (s, err e) f g h = g s h

  pub Ensures-weaken :
      {P P' : S → Type 0} {Q Q' : A → S → Type 0} {R R' : S → Type 0} {m : Eff S A}
      → Ensures P m Q R
      → ((s : S) → P' s → P s)
      → ((a : A) (s : S) → Q a s → Q' a s)
      → ((s : S) → R s → R' s)
      → Ensures P' m Q' R'
  Ensures-weaken {P} {P'} {Q} {Q'} {R} {R'} {m} h before f g = record {
    run = λ s p. Post-weaken Q Q' R R' (m s) f g (h.run s (before s p));
  }

  pub Ensures-pure :
      {P : S → Type 0} {R : S → Type 0} {a : A} {Q : A → S → Type 0}
      → ((s : S) → P s → Q a s)
      → Ensures P (pure a) Q R
  Ensures-pure h = record { run = λ s p. h s p }

  pub Ensures-fail :
      {P : S → Type 0} {R : S → Type 0} {e : Error} {Q : A → S → Type 0}
      → ((s : S) → P s → R s)
      → Ensures P (fail e) Q R
  Ensures-fail h = record { run = λ s p. h s p }

  -- A fact that does not depend on the state.
  pub Ensures-with :
      {X : Type 0} {P : S → Type 0} {R : S → Type 0} {Q : A → S → Type 0} {m : Eff S A}
      → (X → Ensures P m Q R)
      → Ensures (λ s. X × P s) m Q R
  Ensures-with f = record { run = λ s p. (f p.0).run s p.1 }

  pub Ensures-if :
      {P : S → Type 0} {R : S → Type 0} {Q : A → S → Type 0} (b : Bool) {m n : Eff S A}
      → (b ≡ true → Ensures P m Q R)
      → (b ≡ false → Ensures P n Q R)
      → Ensures P (if b then m else n) Q R
  Ensures-if true f g = f refl
  Ensures-if false f g = g refl

module _ {S A B : Type 0} where
  Post-chain :
      (Q : A → S → Type 0) (Q' : B → S → Type 0) (R : S → Type 0) (o : S × Result A)
      (f : A → Eff S B)
      → Post Q R o
      → ((a : A) (s : S) → Q a s → Post Q' R (f a s))
      → Post Q' R (chain o f)
  Post-chain Q Q' R (s, ok a) f h k = k a s h
  Post-chain Q Q' R (s, err e) f h k = h

  -- The rule for a chain.
  pub Ensures->>= :
      {P : S → Type 0} {Q : A → S → Type 0} {Q' : B → S → Type 0} {R : S → Type 0} {m : Eff S A}
      {f : A → Eff S B}
      → Ensures P m Q R
      → ((a : A) → Ensures (Q a) (f a) Q' R)
      → Ensures P (m >>= f) Q' R
  Ensures->>= {P} {Q} {Q'} {R} {m} {f} h k = record {
    run = λ s p. Post-chain Q Q' R (m s) f (h.run s p) (λ a t q. (k a).run t q);
  }

module _ {S A B : Type 0} where
  Post-resolve :
      (Q : A → S → Type 0) (R : S → Type 0) (Q' : B → S → Type 0) (R' : S → Type 0)
      (o : S × Result A) (f : A → Eff S B) (g : Error → Eff S B)
      → Post Q R o
      → ((a : A) → Ensures (Q a) (f a) Q' R')
      → ((e : Error) → Ensures R (g e) Q' R')
      → Post Q' R' (resolve f g o)
  Post-resolve Q R Q' R' (s, ok a) f g h k l = (k a).run s h
  Post-resolve Q R Q' R' (s, err e) f g h k l = (l e).run s h

  -- The rule for a call whose error the code looks at.
  pub Ensures-catching :
      {P : S → Type 0} {Q : A → S → Type 0} {R : S → Type 0} {Q' : B → S → Type 0} {R' : S → Type 0}
      {m : Eff S A} {f : A → Eff S B} {g : Error → Eff S B}
      → Ensures P m Q R
      → ((a : A) → Ensures (Q a) (f a) Q' R')
      → ((e : Error) → Ensures R (g e) Q' R')
      → Ensures P (catching m f g) Q' R'
  Ensures-catching {P} {Q} {R} {Q'} {R'} {m} {f} {g} h k l = record {
    run = λ s p. Post-resolve Q R Q' R' (m s) f g (h.run s p) k l;
  }

-- What a call keeps, whatever it returns.
module _ {S : Type 0} (K : S → Type 0) where
  kept_Post : {A : Type 0} (o : S × Result A) → K o.0 → Post (λ a. K) K o
  kept_Post (s, ok a) k = k
  kept_Post (s, err e) k = k

  pub Ensures-kept :
      {A : Type 0} {m : Eff S A} → ((s : S) → K s → K (m s).0) → Ensures K m (λ a. K) K
  Ensures-kept {A} {m} h = record { run = λ s k. kept_Post (m s) (h s k) }

-- A call of which it is known what its success means, and what it keeps.
module _ {S A : Type 0} where
  told_Post :
      (Q : A → S → Type 0) (R : S → Type 0) (m : Eff S A) (s t : S) (r : Result A)
      → m s ≡ (t, r)
      → ((a : A) → m s ≡ (t, ok a) → Q a t)
      → R t
      → Post Q R (t, r)
  told_Post Q R m s t (ok a) e q k = q a e
  told_Post Q R m s t (err x) e q k = k

  pub Ensures-told :
      {P : S → Type 0} {Q : A → S → Type 0} {R : S → Type 0} {m : Eff S A}
      → ((s t : S) (a : A) → P s → m s ≡ (t, ok a) → Q a t)
      → ((s : S) → P s → R (m s).0)
      → Ensures P m Q R
  Ensures-told {P} {Q} {R} {m} q k = record {
    run = λ s p. told_Post Q R m s (m s).0 (m s).1 refl (λ a. q s (m s).0 a p) (k s p);
  }

-- A result that is there already.
abbrev pub lift : {S A : Type 0} → Result A → Eff S A
lift r s = (s, r)

pub lift_Ensures :
    {S A : Type 0} {P : S → Type 0} (r : Result A) → Ensures P (lift r) (λ a s. (r ≡ ok a) × P s) P
lift_Ensures (ok a) = record { run = λ s p. (refl, p) }
lift_Ensures (err e) = record { run = λ s p. p }

-- Two things that hold after a call.
both_Post :
    {S A : Type 0} (Q Q' : A → S → Type 0) (R R' : S → Type 0) (o : S × Result A)
    → Post Q R o
    → Post Q' R' o
    → Post (λ a s. Q a s × Q' a s) (λ s. R s × R' s) o
both_Post Q Q' R R' (s, ok a) h k = (h, k)
both_Post Q Q' R R' (s, err e) h k = (h, k)

pub Ensures-both :
    {S A : Type 0} {P : S → Type 0} {Q Q' : A → S → Type 0} {R R' : S → Type 0} {m : Eff S A}
    → Ensures P m Q R
    → Ensures P m Q' R'
    → Ensures P m (λ a s. Q a s × Q' a s) (λ s. R s × R' s)
Ensures-both {S} {A} {P} {Q} {Q'} {R} {R'} {m} h k = record {
  run = λ s p. both_Post Q Q' R R' (m s) (h.run s p) (k.run s p);
}

-- What holds of the state in both cases.
pub Post-state : {S A : Type 0} (K : S → Type 0) (o : S × Result A) → Post (λ a. K) K o → K o.0
Post-state K (s, ok a) k = k
Post-state K (s, err e) k = k

-- A loop over a slice that stops at the first error.
module _ {S A : Type 0} where
  unfoldable pub for_each : (A → Eff S (Unit {0})) → List A → Eff S (Unit {0})
  for_each f [] = pure tt
  for_each f (x ∷ xs) = f x >>= λ u. for_each f xs

  -- The rule for a loop: the invariant speaks of the elements that are left.
  pub Ensures-for_each :
      (P : List A → S → Type 0) (R : S → Type 0) (f : A → Eff S (Unit {0}))
      → ((x : A) (xs : List A) → Ensures (P (x ∷ xs)) (f x) (λ u. P xs) R)
      → (xs : List A) → Ensures (P xs) (for_each f xs) (λ u. P []) R
  unfolding for_each
  Ensures-for_each P R f h [] = Ensures-pure (λ s p. p)
  Ensures-for_each P R f h (x ∷ xs) = Ensures->>= (h x xs) (λ u. Ensures-for_each P R f h xs)

-- A condition that is called again and again, until it is true, fails, or the time is over.
module _ {S : Type 0} (check : Eff S Bool) where
  pub data Polled : S → S → Result (Unit {0}) → Type 0 where
    done : (s t : S) → check s ≡ (t, ok true) → Polled s t (ok tt)
    failed : (s t : S) (e : Error) → check s ≡ (t, err e) → Polled s t (err e)
    again :
        (s u t : S) (r : Result (Unit {0})) → check s ≡ (u, ok false) → Polled u t r → Polled s t r
    timeout : (s : S) (e : Error) → Polled s s (err e)

  -- What `wait.PollWithContext` is documented to do.
  abbrev pub IsPoll : Eff S (Unit {0}) → Type 0
  IsPoll poll = (s : S) → Polled s (poll s).0 (poll s).1

-- The rule for it: an invariant that a false answer keeps.
abbrev pub Answer {ℓ} : {S : Type ℓ} → (S → Type 0) → (S → Type 0) → Bool → S → Type 0
Answer P Q true = Q
Answer P Q false = P

module _ {S : Type 0} (P : S → Type 0) (Q : S → Type 0) (R : S → Type 0) {check : Eff S Bool} where
  Polled-ends :
      Ensures P check (Answer P Q) R
      → ((s : S) → P s → R s)
      → {s t : S} {r : Result (Unit {0})} → Polled check s t r
      → P s
      → Post (λ u. Q) R (t, r)
  Polled-ends h late (done s t e) p = rw e at (h.run s p)
  Polled-ends h late (failed s t x e) p = rw e at (h.run s p)
  Polled-ends h late (again s u t r e more) p = Polled-ends h late more (rw e at (h.run s p))
  Polled-ends h late (timeout s e) p = late s p

  pub Ensures-poll :
      {poll : Eff S (Unit {0})}
      → IsPoll check poll
      → Ensures P check (Answer P Q) R
      → ((s : S) → P s → R s)
      → Ensures P poll (λ u. Q) R
  Ensures-poll polls h late = record { run = λ s p. Polled-ends h late (polls s) p }
