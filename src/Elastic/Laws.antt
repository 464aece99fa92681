-- ===== src/Elastic/Laws.antt =====
-- The indexes that a request owns, and the pattern by which it owns those of its namespace.
use Prim.Native.Char.{char, code}
use text.Mathlib.TextEquality.{starts_with_iff}
use text.Mathlib.TextBridge.{IsPrefix}
use text.Mathlib.TextLemmas.{cons-append, append_assoc, append_cancel_left}
use tapr.Base.{
  ℕ, String, ◌<>◌, Bool, false, ◌≡◌, sym, ap, ◌∙◌, inl, inr, starts_with, Bool-cases, arith,
}
use tapr.Elastic.{get_index_name, namespace_pattern}

-- How Elasticsearch is documented to read a pattern that ends in a star.
abbrev pub IsMatching : (String → String → Bool) → Type 0
IsMatching matches = (prefix name : String) → matches (prefix <> "*") name ≡ starts_with name prefix

first_code : String → ℕ
first_code String.[] = 0
first_code (String.◌∷◌ c s) = code c

first_code-append : (s t : String) → "_" <> s ≡ "-" <> t → ◌≡◌ {A = ℕ} 95 45
unfolding first_code
first_code-append s t e =
    sym (ap first_code (cons-append (char 95 tt) "" s))
    ∙ ap first_code e
    ∙ ap first_code (cons-append (char 45 tt) "" t)

-- A name of the namespace has a dash where the pattern has an underscore.
no_prefix : (namespace rest : String) → IsPrefix (namespace <> "_") (namespace <> "-" <> rest) → ⊥
no_prefix namespace rest (u, e) = absurd (
    omega (
      arith,
      first_code-append u rest (
          append_cancel_left namespace ("_" <> u) ("-" <> rest)
            (sym (append_assoc namespace "_" u) ∙ e)),
    ))

-- For a service that reads patterns as it is documented to do: the pattern by which a request owns, and a
-- deletion removes, the indexes of its namespace fits no index that a request of this namespace names.
pub namespace_pattern-misses :
    (matches : String → String → Bool)
    → IsMatching matches
    → (namespace name : String)
    → matches (namespace_pattern namespace) (get_index_name namespace name) ≡ false
unfolding namespace_pattern get_index_name
namespace_pattern-misses matches reads namespace name =
    ap (λ p. matches p (namespace <> "-" <> name)) (sym (append_assoc namespace "_" "*"))
    ∙ reads (namespace <> "_") (namespace <> "-" <> name)
    ∙ elim (Bool-cases (starts_with (namespace <> "-" <> name) (namespace <> "_"))) [
      | inl found ↦ absurd (no_prefix namespace name ((starts_with_iff _ _).0 found))
      | inr missing ↦ missing
    ]
