-- ===== src/Nats/Names.antt =====
-- Subject names of pkg/workload/nats/helper.go.
use Prim.Native.Char.{code, Char}
use text.Mathlib.TextLemmas
use tapr.Base.{
  String, ◌<>◌, false, List, [], ◌∷◌, ◌≡◌, refl, ◌∙◌, ap, sym, if◌then◌else◌, ◌==◌, nat_eq,
  starts_with, Bool-cases, inl, inr,
}

unfoldable pub make_real_subject_name : String → String → String
make_real_subject_name subject app_namespace = app_namespace <> "." <> subject

unfoldable pub make_real_ref_name : String → String → String → String
make_real_ref_name ref_namespace subject owner =
    let ns =
      if starts_with ref_namespace "user-space"
      then "user-space-" <> owner
      else if starts_with ref_namespace "user-system"
      then "user-system-" <> owner
      else ref_namespace in
    ns <> "." <> subject

-- `strings.Split(s, "-")`: never empty.
abbrev push : Char → List String → List String
push c [] = String.◌∷◌ c "" ∷ []
push c (p ∷ ps) = String.◌∷◌ c p ∷ ps

unfoldable pub split_dash : String → List String
split_dash String.[] = "" ∷ []
split_dash (String.◌∷◌ c s) =
    let rest = split_dash s in if code c == b'-' then "" ∷ rest else push c rest

unfoldable pub last : List String → String
last [] = ""
last (p ∷ []) = p
last (p ∷ q ∷ ps) = last (q ∷ ps)

-- `GetOwnerNameFromNs`
unfoldable pub owner_of_ns : String → String
unfolding split_dash last
owner_of_ns ns = last (split_dash ns)

abbrev pub NoDash : String → Type 0
NoDash String.[] = Unit
NoDash (String.◌∷◌ c s) = ((code c == b'-') ≡ false) × NoDash s

split-NoDash : (s : String) → NoDash s → split_dash s ≡ s ∷ []
unfolding split_dash
split-NoDash String.[] h = refl
split-NoDash (String.◌∷◌ c s) (d, h) = rw (d, split-NoDash s h, split_dash)

split_nonempty : (s : String) → (p : String) × (ps : List String) × (split_dash s ≡ p ∷ ps)
unfolding split_dash
split_nonempty String.[] = ("", [], refl)
split_nonempty (String.◌∷◌ c s) =
    let (p, ps, e) = split_nonempty s in
    elim (Bool-cases (code c == b'-')) [
      | inl dash ↦ ("", split_dash s, rw (dash, split_dash))
      | inr other ↦ (String.◌∷◌ c p, ps, rw (other, e, split_dash))
    ]

abbrev EndsLike : String → List String → Type 0
EndsLike t ps =
    (p q : String) × (qs : List String) × (ps ≡ p ∷ q ∷ qs) × (last (q ∷ qs) ≡ last (split_dash t))

split-append_dash : (s t : String) → EndsLike t (split_dash (s <> ("-" <> t)))
unfolding split_dash nat_eq last
split-append_dash String.[] t =
    let (p, ps, e) = split_nonempty t in
    rw (TextLemmas.nil-append ("-" <> t), TextLemmas.cons-append _ "" t, TextLemmas.nil-append t)
      ("", p, ps, ap (◌∷◌ "") e, ap last (sym e))
split-append_dash (String.◌∷◌ c s) t =
    let (p, q, qs, e, ends) = split-append_dash s t in
    rw (TextLemmas.cons-append c s ("-" <> t)) (elim (Bool-cases (code c == b'-')) [
      | inl dash ↦ rw (dash, split_dash) ("", p, q ∷ qs, ap (◌∷◌ "") e, ends)
      | inr other ↦ rw (other, e, split_dash) (String.◌∷◌ c p, q, qs, refl, ends)
    ])

-- A namespace that ends in a dash and a name without dashes belongs to the owner of that name.
pub owner_of_ns-append :
    (prefix owner : String) → NoDash owner → owner_of_ns (prefix <> ("-" <> owner)) ≡ owner
unfolding owner_of_ns
owner_of_ns-append prefix owner h =
    let (p, q, qs, e, ends) = split-append_dash prefix owner in
    rw e (ends ∙ rw (split-NoDash owner h))
