-- ===== src/Requests/Missing.antt =====
-- Deletions that have nothing to do where the administrator of a service is not found.
use tapr.Base.{true, ◌≡◌, refl, ap, ◌∙◌, ◌⊎◌, inl, inr, if◌then◌else◌, Bool-cases}
use tapr.Base.Effect.{
  Error, Result, ok, err, Eff, ◌>>=◌, chain, pure, fail, catching, resolve, Post, Ensures,
}

-- The call fails in this world, since what it asks for is not found.
abbrev pub NotFound : {W A : Type 0} → Eff W A → W → Type 0
NotFound {W} m s = (t : W) × (e : Error) × (m s ≡ (t, err e)) × (e.not_found ≡ true)

module _ {W A B : Type 0} where
  chain_failed :
      (s t : W) (e : Error) (m : Eff W A) (k : A → Eff W B) (o : W × Result A)
      → m s ≡ o
      → chain o k ≡ (t, err e)
      → (m s ≡ (t, err e)) ⊎ ((v : W) × (a : A) × (m s ≡ (v, ok a)) × (k a v ≡ (t, err e)))
  chain_failed s t e m k (v, ok a) h f = inr (v, a, h, f)
  chain_failed s t e m k (v, err x) h f = inl (h ∙ ap as_failed f)
    where
      as_failed : W × Result B → W × Result A
      as_failed (u, ok b) = (u, err e)
      as_failed (u, err y) = (u, err y)

  -- Of two calls in a row one was the one that failed.
  pub NotFound->>= :
      (m : Eff W A) (k : A → Eff W B) (s : W)
      → NotFound (m >>= k) s
      → NotFound m s ⊎ ((v : W) × (a : A) × (m s ≡ (v, ok a)) × NotFound (k a) v)
  NotFound->>= m k s (t, e, h, found) = elim (chain_failed s t e m k (m s) refl h) [
    | inl f ↦ inl (t, e, f, found)
    | inr f ↦ inr (f.0, f.1, f.2, (t, e, f.3, found))
  ]

  pure_found : (f : A → B) (v : W) (a : A) → NotFound (pure {S = W} (f a)) v → ⊥
  pure_found f v a (t, e, h, found) = cc

  pub NotFound-pure :
      (m : Eff W A) (f : A → B) (s : W) → NotFound (m >>= λ a. pure (f a)) s → NotFound m s
  NotFound-pure m f s h = elim (NotFound->>= m (λ a. pure (f a)) s h) [
    | inl n ↦ n
    | inr n ↦ absurd (pure_found f n.0 n.1 n.3)
  ]

-- `U` is what holds before anything is done.
module _ {W A : Type 0} (m : Eff W A) (f : A → Eff W (Unit {0})) (g : Error → Error)
    (U : W → Type 0) (Q R : W → Type 0) (s : W) where
  missing_Post :
      (o : W × Result A)
      → m s ≡ o
      → Post (λ a. U) U o
      → ((a : A) → Ensures U (f a) (λ u. Q) R)
      → (NotFound m s → (w : W) → U w → Q w)
      → ((w : W) → U w → R w)
      → Post (λ u. Q) R (resolve f (λ e. if e.not_found then pure tt else fail (g e)) o)
  missing_Post (t, ok a) h u found missing failed = (found a).run t u
  missing_Post (t, err e) h u found missing failed = elim (Bool-cases e.not_found) [
    | inl n ↦ rw n (missing (t, e, h, n) t u)
    | inr n ↦ rw n (failed t u)
  ]

  pub missing-Post :
      Ensures U m (λ a. U) U
      → U s
      → ((a : A) → Ensures U (f a) (λ u. Q) R)
      → (NotFound m s → (w : W) → U w → Q w)
      → ((w : W) → U w → R w)
      → Post (λ u. Q) R (catching m f (λ e. if e.not_found then pure tt else fail (g e)) s)
  missing-Post quiet u = missing_Post (m s) refl (quiet.run s u)
