-- ===== src/Base/Dict.antt =====
-- Go maps as association lists. A map has each key once; `Nodup` of the keys is a hypothesis where it
-- matters. Go iterates in any order: the order of the list stands for the order of one iteration.
use mathlib.Core.Path.{◌≡◌, refl}
use mathlib.Core.Bool.{false}
use mathlib.Core.Logic.{◌≢◌, ◌⊎◌, inl, inr}
use mathlib.Core.Option
use mathlib.Core.Option.{Option, none, some}
use mathlib.Core.List.{List, [], ◌∷◌}
use native.Mathlib.Omega.{arith}
use tapr.Base.Equality.{Eq, ◌==◌}
use tapr.Base.Lists.{All, is_empty}
use tapr.Base.Tests.{if◌then◌else◌}

abbrev pub Dict {ℓ κ} : Type ℓ → Type κ → Type (ℓ ⊔ κ)
Dict K V = List (K × V)

module _ {ℓ κ} {K : Type ℓ} {V : Type κ} where
  abbrev pub keys : Dict K V → List K
  keys [] = []
  keys ((k, v) ∷ d) = k ∷ keys d

module _ {ℓ κ} {K : Type ℓ} {V : Type κ} ⦃e : Eq K⦄ where
  unfoldable pub lookup : K → Dict K V → Option V
  lookup k [] = none
  lookup k ((j, v) ∷ d) = if k == j then some v else lookup k d

  -- `m[k] = v`
  unfoldable pub insert : K → V → Dict K V → Dict K V
  insert k v [] = (k, v) ∷ []
  insert k v ((j, w) ∷ d) = if k == j then (k, v) ∷ d else (j, w) ∷ insert k v d

  -- `delete(m, k)`
  unfoldable pub erase : K → Dict K V → Dict K V
  erase k [] = []
  erase k ((j, w) ∷ d) = let rest = erase k d in if k == j then rest else (j, w) ∷ rest

  -- No key is listed twice.
  abbrev pub NodupKeys : Dict K V → Type κ
  NodupKeys [] = Unit
  NodupKeys ((k, _) ∷ d) = (lookup k d ≡ none) × NodupKeys d

  pub lookup-insert :
      (j k : K) (v : V) (d : Dict K V)
      → lookup j (insert k v d) ≡ (if j == k then some v else lookup j d)
  unfolding insert lookup
  lookup-insert j k v [] = refl
  lookup-insert j k v (_ ∷ d) = ground (arith, lookup-insert j k v d)

  pub lookup-erase :
      (j k : K) (d : Dict K V) → lookup j (erase k d) ≡ (if j == k then none else lookup j d)
  unfolding erase lookup
  lookup-erase j k [] = ground arith
  lookup-erase j k (_ ∷ d) = ground (arith, lookup-erase j k d)

  pub lookup-insert_other :
      (k j : K) (v : V) (d : Dict K V) → j ≢ k → lookup j (insert k v d) ≡ lookup j d
  lookup-insert_other k j v d ne = ground (arith, lookup-insert j k v d)

  pub lookup-insert_self : (k : K) (v : V) (d : Dict K V) → lookup k (insert k v d) ≡ some v
  lookup-insert_self k v d = ground (arith, lookup-insert k k v d)

  pub lookup-erase_other : (k j : K) (d : Dict K V) → j ≢ k → lookup j (erase k d) ≡ lookup j d
  lookup-erase_other k j d ne = ground (arith, lookup-erase j k d)

  pub lookup-erase_self : (k : K) (d : Dict K V) → lookup k (erase k d) ≡ none
  lookup-erase_self k d = ground (arith, lookup-erase k k d)

  pub insert-NodupKeys : (k : K) (v : V) (d : Dict K V) → NodupKeys d → NodupKeys (insert k v d)
  unfolding insert lookup
  insert-NodupKeys k v [] u = (refl, tt)
  insert-NodupKeys k v ((j, _) ∷ d) (fresh, u) =
      ground (arith, insert-NodupKeys k v d u, lookup-insert j k v d)

  pub erase-NodupKeys : (k : K) (d : Dict K V) → NodupKeys d → NodupKeys (erase k d)
  unfolding erase
  erase-NodupKeys k [] u = tt
  erase-NodupKeys k ((j, _) ∷ d) (fresh, u) =
      ground (arith, erase-NodupKeys k d u, lookup-erase j k d)

module _ {ℓ κ} {K : Type ℓ} {V : Type κ} ⦃e : Eq K⦄ where
  pub lookup_cases :
      (k j : K) {v w : V} (d : Dict K V)
      → lookup k ((j, w) ∷ d) ≡ some v
      → ((k ≡ j) × (w ≡ v)) ⊎ (lookup k d ≡ some v)
  unfolding lookup
  lookup_cases k j d found = ground arith

  pub lookup_later :
      (k j : K) {v : V} (w : V) (d : Dict K V)
      → lookup j d ≡ none
      → lookup k d ≡ some v
      → lookup k ((j, w) ∷ d) ≡ some v
  unfolding lookup
  lookup_later k j w d fresh found = ground arith

  pub lookup_head : (k : K) (v : V) (d : Dict K V) → lookup k ((k, v) ∷ d) ≡ some v
  unfolding lookup
  lookup_head k v d = ground arith

-- Predicates on the entries of a map.
module _ {ℓ κ μ} {K : Type ℓ} {V : Type κ} ⦃e : Eq K⦄ (P : K × V → Type μ) where
  pub All-lookup : (k : K) {v : V} (d : Dict K V) → All P d → lookup k d ≡ some v → P (k, v)
  unfolding lookup
  All-lookup k [] h found = cc
  All-lookup k {v} ((j, w) ∷ d) (p, h) found = elim (lookup_cases k j d found) [
    | inl (same, stored) ↦ rw (same, ← stored) p
    | inr later ↦ All-lookup k d h later
  ]

  pub All-of_lookup :
      (d : Dict K V) → NodupKeys d → ((k : K) (v : V) → lookup k d ≡ some v → P (k, v)) → All P d
  All-of_lookup [] u h = tt
  All-of_lookup ((j, w) ∷ d) (fresh, u) h = (
    h j w (lookup_head j w d),
    All-of_lookup d u (λ k v found. h k v (lookup_later k j w d fresh found)),
  )

  pub All-insert : (k : K) (v : V) (d : Dict K V) → P (k, v) → All P d → All P (insert k v d)
  unfolding insert
  All-insert k v [] p h = (p, tt)
  All-insert k v ((j, w) ∷ d) p (q, h) = ground (arith, All-insert k v d p h)

  pub All-erase : (k : K) (d : Dict K V) → All P d → All P (erase k d)
  unfolding erase
  All-erase k [] h = tt
  All-erase k ((j, w) ∷ d) (q, h) = ground (arith, All-erase k d h)

module _ {ℓ κ} {K : Type ℓ} {V : Type κ} ⦃e : Eq K⦄ where
  pub insert_nonempty : (k : K) (v : V) (d : Dict K V) → is_empty (insert k v d) ≡ false
  unfolding insert
  insert_nonempty k v [] = refl
  insert_nonempty k v ((j, w) ∷ d) = ground arith

-- A change of the value that is stored under a key, in place.
module _ {ℓ κ} {K : Type ℓ} {V : Type κ} ⦃e : Eq K⦄ where
  unfoldable pub adjust : K → (V → V) → Dict K V → Dict K V
  adjust k f [] = []
  adjust k f ((j, v) ∷ d) = (j, if j == k then f v else v) ∷ adjust k f d

  pub lookup-adjust :
      (j k : K) (f : V → V) (d : Dict K V)
      → lookup j (adjust k f d) ≡ (if j == k then Option.map f (lookup j d) else lookup j d)
  unfolding adjust lookup
  lookup-adjust j k f [] = ground arith
  lookup-adjust j k f (_ ∷ d) = ground (arith, lookup-adjust j k f d)

  pub adjust-NodupKeys : (k : K) (f : V → V) (d : Dict K V) → NodupKeys d → NodupKeys (adjust k f d)
  unfolding adjust
  adjust-NodupKeys k f [] u = tt
  adjust-NodupKeys k f ((j, v) ∷ d) (fresh, u) =
      (ground (arith, lookup-adjust j k f d), adjust-NodupKeys k f d u)

  pub is_empty-adjust : (k : K) (f : V → V) (d : Dict K V) → is_empty (adjust k f d) ≡ is_empty d
  unfolding adjust
  is_empty-adjust k f [] = refl
  is_empty-adjust k f (_ ∷ d) = refl

module _ {ℓ κ μ} {K : Type ℓ} {V : Type κ} ⦃e : Eq K⦄ (P : K × V → Type μ) where
  pub All-adjust :
      (k : K) (f : V → V) (d : Dict K V)
      → ((j : K) (v : V) → P (j, v) → P (j, f v))
      → All P d
      → All P (adjust k f d)
  unfolding adjust
  All-adjust k f [] keep h = tt
  All-adjust k f ((j, v) ∷ d) keep (p, h) = (ground (arith, keep j v p), All-adjust k f d keep h)
