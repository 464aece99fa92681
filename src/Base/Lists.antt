-- ===== src/Base/Lists.antt =====
-- Lists measured by native numbers, filtered by Boolean tests, and predicates on them.
use Prim.Native.Nat.{ℕ, zero, suc, ◌+◌, ◌≤◌}
use mathlib.Core.Path.{◌≡◌, refl, ap}
use mathlib.Core.Bool.{Bool, true, false, ◌&&◌, ◌||◌}
use mathlib.Core.List.{List, [], ◌∷◌, ◌++◌}
use native.Mathlib.Omega.{arith}
use tapr.Base.Tests.{if◌then◌else◌}
use tapr.Base.Equality.{Eq, contains, ==_refl}

module _ {ℓ} {A : Type ℓ} where
  abbrev pub length : List A → ℕ
  length [] = 0
  length (x ∷ xs) = suc (length xs)

  abbrev pub is_empty : List A → Bool
  is_empty [] = true
  is_empty (x ∷ xs) = false

  pub length-append : (xs ys : List A) → length (xs ++ ys) ≡ length xs + length ys
  length-append [] ys = omega arith
  length-append (x ∷ xs) ys = omega (arith, length-append xs ys)

  unfoldable pub filter : (A → Bool) → List A → List A
  filter p [] = []
  filter p (x ∷ xs) = let rest = filter p xs in if p x then x ∷ rest else rest

  unfoldable pub any : (A → Bool) → List A → Bool
  any p [] = false
  any p (x ∷ xs) = p x || any p xs

  pub any-append : (p : A → Bool) (xs ys : List A) → any p (xs ++ ys) ≡ (any p xs || any p ys)
  unfolding any
  any-append p [] ys = refl
  any-append p (x ∷ xs) ys = ground (arith, any-append p xs ys)

  pub any-filter : (p q : A → Bool) (xs : List A) → any p (filter q xs) ≡ any (λ x. q x && p x) xs
  unfolding any filter
  any-filter p q [] = refl
  any-filter p q (x ∷ xs) = ground (arith, any-filter p q xs)

  pub length-filter-le : (p : A → Bool) (xs : List A) → length (filter p xs) ≤ length xs
  unfolding filter
  length-filter-le p [] = omega arith
  length-filter-le p (x ∷ xs) = ground (arith, length-filter-le p xs)

-- A predicate at every element.
abbrev pub All {ℓ κ} : {A : Type ℓ} → (A → Type κ) → List A → Type κ
All P [] = Unit
All P (x ∷ xs) = P x × All P xs

pub All-append {ℓ κ} :
    {A : Type ℓ} (P : A → Type κ) (xs ys : List A) → All P xs → All P ys → All P (xs ++ ys)
All-append P [] ys hx hy = hy
All-append P (x ∷ xs) ys hx hy = (hx.0, All-append P xs ys hx.1 hy)

pub All-filter {ℓ κ} :
    {A : Type ℓ} (P : A → Type κ) (p : A → Bool) (xs : List A) → All P xs → All P (filter p xs)
unfolding filter
All-filter P p [] h = tt
All-filter P p (x ∷ xs) h = ground (arith, All-filter P p xs h.1)

pub All-weaken {ℓ κ} :
    {A : Type ℓ} {P Q : A → Type κ} → ((x : A) → P x → Q x) → (xs : List A) → All P xs → All Q xs
All-weaken f [] h = tt
All-weaken f (x ∷ xs) (p, h) = (f x p, All-weaken f xs h)

-- A list contains each of its elements.
pub All-contains {ℓ} :
    {A : Type ℓ} ⦃e : Eq A⦄ (xs ys : List A)
    → ((a : A) → contains ys a ≡ true → contains xs a ≡ true)
    → All (λ a. contains xs a ≡ true) ys
All-contains xs [] h = tt
All-contains xs (y ∷ ys) h =
    (h y (rw (==_refl y) refl), All-contains xs ys (λ a e. h a (ground arith)))

module _ {ℓ} {A : Type ℓ} where
  abbrev pub take : ℕ → List A → List A
  take zero xs = []
  take (suc n) [] = []
  take (suc n) (x ∷ xs) = x ∷ take n xs

  abbrev pub drop : ℕ → List A → List A
  drop zero xs = xs
  drop (suc n) [] = []
  drop (suc n) (x ∷ xs) = drop n xs

  pub take-length : (xs : List A) → take (length xs) xs ≡ xs
  take-length [] = refl
  take-length (x ∷ xs) = ap (◌∷◌ x) (take-length xs)

  pub take-length-append : (xs ys : List A) → take (length xs) (xs ++ ys) ≡ xs
  take-length-append [] ys = refl
  take-length-append (x ∷ xs) ys = ap (◌∷◌ x) (take-length-append xs ys)

  pub filter-All : (p : A → Bool) (xs : List A) → All (λ x. p x ≡ true) xs → filter p xs ≡ xs
  unfolding filter
  filter-All p [] h = refl
  filter-All p (x ∷ xs) (px, h) = ground (arith, filter-All p xs h)

pub All-drop {ℓ κ} :
    {A : Type ℓ} (P : A → Type κ) (n : ℕ) (xs : List A) → All P xs → All P (drop n xs)
All-drop P zero xs h = h
All-drop P (suc n) [] h = tt
All-drop P (suc n) (x ∷ xs) h = All-drop P n xs h.1

pub All-map_of {ℓ κ μ} :
    {A : Type ℓ} (P : A → Type κ) (Q : A → Type μ) (xs : List A)
    → ((x : A) → P x → Q x)
    → All P xs
    → All Q xs
All-map_of P Q [] f h = tt
All-map_of P Q (x ∷ xs) f (p, h) = (f x p, All-map_of P Q xs f h)
