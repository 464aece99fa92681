-- ===== src/Requests/Password.antt =====
-- The password of a request (`GetVarValue` of pkg/apis/apr/v1alpha1/types.go): what holds after it.
use tapr.Base.{String, Option, none, some, not, ◌==◌, string_eq}
use tapr.Base.Dict.{Dict}
use tapr.Base.Effect.{Eff, Ensures, Ensures->>=, Ensures-if, Ensures-pure, Ensures-fail}
use tapr.Backup.Types.{Password}
use tapr.Backup.Services.{get_var_value, read_from}

-- What the reading of a secret keeps, the reading of a password keeps.
module _ {S : Type 0} (K : S → Type 0) (secret : String → String → Eff S (Dict String String))
    (namespace : String) (p : Password)
    (quiet : (name : String) → Ensures K (secret namespace name) (λ d. K) K) where
  read_from-Ensures :
      (v : Option (String × String)) → Ensures K (read_from secret namespace v) (λ a. K) K
  unfolding read_from
  read_from-Ensures none = Ensures-fail (λ s k. k)
  read_from-Ensures (some (name, key)) = Ensures->>= (quiet name) (λ d. Ensures-pure (λ s k. k))

  pub get_var_value-Ensures : Ensures K (get_var_value secret namespace p) (λ a. K) K
  unfolding get_var_value
  get_var_value-Ensures =
      Ensures-if (not (p.value == "")) (λ e. Ensures-pure (λ s k. k))
        (λ e. read_from-Ensures p.value_from)
