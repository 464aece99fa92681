-- ===== src/Requests/Facts.antt =====
-- Rules for code that makes things in a service one after the other. A service is seen as a table of
-- facts, by which `holds` tells what there is; seen by its negation, the same rules are about removal.
use tapr.Base.{Bool, true, List, [], ◌∷◌, ◌≡◌, All}
use tapr.Base.Effect.{
  ok, Eff, Ensures, Ensures->>=, Ensures-pure, Ensures-told, Ensures-kept, Ensures-weaken, for_each,
}

module _ {W F : Type 0} (holds : W → F → Bool) where
  abbrev pub Holds : List F → W → Type 0
  Holds fs w = All (λ f. holds w f ≡ true) fs

  -- Nothing is lost.
  abbrev pub Kept : W → W → Type 0
  Kept s t = (f : F) → holds s f ≡ true → holds t f ≡ true

  abbrev pub Grows : {A : Type 0} → Eff W A → Type 0
  Grows m = (w : W) → Kept w (m w).0

  abbrev pub Makes : {A : Type 0} → Eff W A → F → Type 0
  Makes {A} m f = (w t : W) (a : A) → m w ≡ (t, ok a) → holds t f ≡ true

  -- A condition that more facts do not spoil.
  abbrev pub Stable : (W → Type 0) → Type 0
  Stable K = (s t : W) → Kept s t → K s → K t

  pub Kept-Stable : (s : W) → Stable (Kept s)
  Kept-Stable s u t h k f e = h f (k f e)

  All-Kept : (fs : List F) (s t : W) → Kept s t → Holds fs s → Holds fs t
  All-Kept [] s t k h = tt
  All-Kept (f ∷ fs) s t k h = (k f h.0, All-Kept fs s t k h.1)

  pub Holds-Stable : (fs : List F) (K : W → Type 0) → Stable K → Stable (λ w. Holds fs w × K w)
  Holds-Stable fs K stable s t k (h, l) = (All-Kept fs s t k h, stable s t k l)

  pub each_Kept :
      {X : Type 0} (facts : X → List F) (xs : List X) (s t : W)
      → Kept s t
      → All (λ x. Holds (facts x) s) xs
      → All (λ x. Holds (facts x) t) xs
  each_Kept facts [] s t k h = tt
  each_Kept facts (x ∷ xs) s t k h = (All-Kept (facts x) s t k h.0, each_Kept facts xs s t k h.1)

  module _ {K : W → Type 0} (stable : Stable K) {A : Type 0} {m : Eff W A} (grows : Grows m) where
    pub grow_Ensures : Ensures K m (λ a. K) K
    grow_Ensures = Ensures-kept K (λ w k. stable w (m w).0 (grows w) k)

    pub make_Ensures : (f : F) → Makes m f → Ensures K m (λ a w. (holds w f ≡ true) × K w) K
    make_Ensures f makes =
        Ensures-told (λ w t a k e. (makes w t a e, rw e at (stable w (m w).0 (grows w) k)))
          (λ w k. stable w (m w).0 (grows w) k)

  -- A loop in which each turn makes its own facts.
  module _ {X : Type 0} (step : X → Eff W (Unit {0})) (facts : X → List F) (P : X → Type 0)
      (turn : (K : W → Type 0)
        → Stable K
        → (x : X) → P x
        → Ensures K (step x) (λ u w. Holds (facts x) w × K w) K) where
    pub each_Ensures :
        (K R : W → Type 0)
        → Stable K
        → ((w : W) → K w → R w)
        → (xs : List X) → All P xs
        → Ensures K (for_each step xs) (λ u w. All (λ x. Holds (facts x) w) xs × K w) R
    unfolding for_each
    each_Ensures K R stable weak [] p = Ensures-pure (λ w k. (tt, k))
    each_Ensures K R stable weak (x ∷ xs) (p, ps) =
        Ensures->>= (Ensures-weaken (turn K stable x p) (λ w k. k) (λ u w q. q) weak) λ u.
          Ensures-weaken
            (each_Ensures (λ w. Holds (facts x) w × K w) R (Holds-Stable (facts x) K stable)
              (λ w (h, k). weak w k) xs ps)
            (λ w k. k) (λ u w (all, (h, k)). ((h, all), k)) (λ w r. r)
