-- ===== src/Elastic/Tests.antt =====
-- Patterns read by their beginning, a service that keeps what it is told, and the theorems there.
use Prim.Native.Char.{char, code}
use std.Path.{fun_ext}
use text.Mathlib.TextLemmas.{cons-append, append_assoc, append_cancel_left}
use tapr.Base.{
  ℕ, String, ◌<>◌, Bool, true, false, Option, none, some, List, [], ◌∷◌, ◌≡◌, ◌≢◌, refl, sym, ap,
  ◌∙◌, ◌⊎◌, inl, inr, starts_with, ◌==◌, ==_refl, nat_eq, string_eq, ◌||◌, ◌&&◌, filter,
  if◌then◌else◌, Bool-cases, arith,
}
use tapr.Base.Http.{HttpReply}
use tapr.Base.Effect.{Result, ok, err, Post}
use tapr.Backup.Services.{get_var_value}
use tapr.Elastic.{
  ElasticRequest, ElasticPlatform, get_index_name, namespace_pattern, user_body, role_name,
  create_or_update_elasticsearch_request,
}
use tapr.Elastic.Laws.{namespace_pattern-misses}
use tapr.Elastic.Service.{View, IsElastic, On}
use tapr.Elastic.Create
use tapr.Elastic.Create.{create_or_update_elasticsearch_request-IsServed}

-- All but the last character.
pub beginning : String → String
beginning String.[] = ""
beginning (String.◌∷◌ c String.[]) = ""
beginning (String.◌∷◌ c (String.◌∷◌ d s)) = String.◌∷◌ c (beginning (String.◌∷◌ d s))

beginning-append : (s : String) → beginning (s <> "*") ≡ s
unfolding beginning
beginning-append String.[] = refl
beginning-append (String.◌∷◌ c String.[]) = rw (cons-append c "" "*") refl
beginning-append (String.◌∷◌ c (String.◌∷◌ d s)) =
    let rest : beginning (String.◌∷◌ d (s <> "*")) ≡ String.◌∷◌ d s =
      rw (cons-append d s "*") at (beginning-append (String.◌∷◌ d s)) in
    rw (cons-append c (String.◌∷◌ d s) "*")
      (rw (cons-append d s "*") (ap (λ x. String.◌∷◌ c x) rest))

abbrev pub matches : String → String → Bool
matches text name = starts_with name (beginning text)

namespace_pattern-misses_example :
    matches (namespace_pattern "app") (get_index_name "app" "logs") ≡ false
namespace_pattern-misses_example =
    namespace_pattern-misses matches
      (λ prefix name. ap (starts_with name) (beginning-append prefix)) "app" "logs"

-- Two texts that JSON holds as they are.
abbrev pub IsPlain : String → Type 0
IsPlain s = (s ≡ "secret") ⊎ (s ≡ "role-alice")

pub record World : Type 0 where
  pub indexes : String → Bool
  pub passwords : String → Option String
  pub given : String → List String
  pub defined : String → Option String

abbrev quoted : String → String
quoted s = "\"" <> s <> "\""

abbrev roles_text : String → String
roles_text r = "{\"roles\":[" <> quoted r <> "]}"

unfoldable pub read_password : String → Option String
unfolding user_body
read_password b =
    if b == user_body "secret"
    then some "secret"
    else if b == user_body "role-alice"
    then some "role-alice"
    else none

unfoldable pub read_roles : String → List String
read_roles b =
    if b == roles_text "secret"
    then "secret" ∷ []
    else if b == roles_text "role-alice"
    then "role-alice" ∷ []
    else []

abbrev or_old : Option String → Option String → Option String
or_old none old = old
or_old (some p) old = some p

abbrev updated : String → String → World → World
updated u b w = record w {
  passwords = λ n. if n == u then or_old (read_password b) (w.passwords n) else w.passwords n;
  given = λ n. if n == u then read_roles b else w.given n;
}

abbrev with_role : String → String → World → World
with_role r b w = record w { defined = λ n. if n == r then some b else w.defined n }

abbrev with_index : String → World → World
with_index i w = record w { indexes = λ j. (j == i) || w.indexes j }

abbrev pub without_user : String → World → World
without_user u w = record w { passwords = λ n. if n == u then none else w.passwords n }

abbrev pub without_role : String → World → World
without_role r w = record w { defined = λ n. if n == r then none else w.defined n }

abbrev pub without_index : String → World → World
without_index i w = record w { indexes = λ j. if j == i then false else w.indexes j }

abbrev pub listed : String → World → List String
listed p w = filter (λ n. matches p n && w.indexes n) ("app-logs" ∷ "app_raw" ∷ [])

abbrev pub reply : ℕ → HttpReply (Unit {0})
reply n = record { status = n; body = ""; value = tt }

abbrev pub platform : ElasticPlatform World
platform = record {
  secret = λ namespace name w. (w, ok (("username", "elastic") ∷ ("password", "root") ∷ []));
  connect = λ endpoint user password w. (w, ok tt);
  marshal = λ names. ok "[]";
  quoted = quoted;
  put_user = λ u b w. (updated u b w, ok (reply 200));
  delete_user = λ u w. (without_user u w, ok (reply 200));
  put_role = λ r b w. (with_role r b w, ok (reply 200));
  delete_role = λ r w. (without_role r w, ok (reply 200));
  index_exists = λ i w. (w, ok (reply (if w.indexes i then 200 else 404)));
  create_index = λ i w. (with_index i w, ok (reply 200));
  delete_index = λ i w. (without_index i w, ok (reply (if w.indexes i then 200 else 404)));
  cat_indices = λ p w. (w, ok (record { status = 200; body = ""; value = ok (listed p w) }));
}

abbrev pub view : View World
view = record {
  contents = λ w. record { has_index = w.indexes; password = w.passwords };
  roles = λ w. w.given;
  role = λ w. w.defined;
}

-- The state after a call that succeeded.
abbrev after : {A : Type 0} → World × Result A → World
after o = o.0

read_password-plain : (p : String) → IsPlain p → read_password (user_body p) ≡ some p
unfolding read_password user_body string_eq
read_password-plain p (inl e) = rw e refl
read_password-plain p (inr e) = rw e refl

read_roles-plain : (r : String) → IsPlain r → read_roles (roles_text r) ≡ r ∷ []
unfolding read_roles string_eq
read_roles-plain r (inl e) = rw e refl
read_roles-plain r (inr e) = rw e refl

-- A body with roles is no body with a password.
second_code : String → ℕ
second_code String.[] = 0
second_code (String.◌∷◌ c s) = code c

roles_no-password : (x y : String) → "{\"roles\":[" <> x ≡ "{\"password\":\"" <> y → ⊥
unfolding second_code
roles_no-password x y e =
    let rest : "roles\":[" <> x ≡ "password\":\"" <> y =
      append_cancel_left "{\"" ("roles\":[" <> x) ("password\":\"" <> y)
        (sym (append_assoc "{\"" "roles\":[" x) ∙ e ∙ append_assoc "{\"" "password\":\"" y) in
    let codes : ◌≡◌ {A = ℕ} 114 112 =
      sym (ap second_code (cons-append (char 114 tt) "oles\":[" x))
      ∙ ap second_code rest
      ∙ ap second_code (cons-append (char 112 tt) "assword\":\"" y) in
    absurd (omega (arith, codes))

differ : (s t : String) → (s ≡ t → ⊥) → (s == t) ≡ false
differ s t ne = ground arith

read_password-roles : (r : String) → read_password (roles_text r) ≡ none
unfolding read_password user_body
read_password-roles r =
    let first : (roles_text r == user_body "secret") ≡ false =
      differ (roles_text r) (user_body "secret")
        (roles_no-password (quoted r <> "]}") ("secret" <> "\",\"roles\":[]}")) in
    let second : (roles_text r == user_body "role-alice") ≡ false =
      differ (roles_text r) (user_body "role-alice")
        (roles_no-password (quoted r <> "]}") ("role-alice" <> "\",\"roles\":[]}")) in
    rw (first, second) refl

same_passwords : (u r : String) (w : World) → (updated u (roles_text r) w).passwords ≡ w.passwords
same_passwords u r w = fun_ext λ n.
    rw (read_password-roles r)
      (elim (Bool-cases (n == u)) [ inl e ↦ rw e refl | inr e ↦ rw e refl ])

pub others : (u n : String) (a b : Option String) → n ≢ u → (if n == u then a else b) ≡ b
others u n a b ne = ground arith

found_200 :
    (i : String) (w t : World) (r : HttpReply (Unit {0}))
    → platform.index_exists i w ≡ (t, ok r)
    → (r.status == 200) ≡ true
    → w.indexes i ≡ true
found_200 i w t r e is_200 = elim (Bool-cases (w.indexes i)) [
  | inl h ↦ h
  | inr h ↦ absurd (missing (rw h at (ap read_status e)))
]
  where
    read_status : World × Result (HttpReply (Unit {0})) → ℕ
    read_status (u, ok a) = a.status
    read_status (u, err x) = 0

    missing : ◌≡◌ {A = ℕ} 404 r.status → ⊥
    missing s = grind (arith, s, is_200)

or_right : (a b : Bool) → b ≡ true → (a || b) ≡ true
or_right a b e = ground arith

pub reached : {A : Type 0} {o : World × Result A} {t : World} {r : Result A} → o ≡ (t, r) → t ≡ o.0
reached e = ap (λ x. x.0) (sym e)

pub laws : IsElastic view IsPlain platform
laws = record {
  secret_quiet = λ namespace name w. refl;
  connect_quiet = λ a b c w. refl;
  index_exists_quiet = λ i w. refl;
  put_role_quiet = λ r b w. refl;
  put_roles_quiet =
      λ u r w. ap (λ p. record { has_index = w.indexes; password = p }) (same_passwords u r w);
  put_user_indexes = λ u b w. refl;
  put_user_others = λ u b n w ne. others u n _ _ ne;
  put_user_sets = λ u p plain w t r e good.
      rw (reached e) (rw (==_refl u) (rw (read_password-plain p plain) refl));
  put_roles_sets =
      λ u r plain w t a e good. rw (reached e) (rw (==_refl u) (read_roles-plain r plain));
  put_user_role = λ u b w. refl;
  put_role_sets = λ r b w t a e good. rw (reached e) (rw (==_refl r) refl);
  create_index_users = λ i w. refl;
  create_index_keeps = λ i j w e. or_right (j == i) (w.indexes j) e;
  create_index_makes = λ i w t a e good. rw (reached e) (rw (==_refl i) refl);
  index_exists_tells = found_200;
}

abbrev pub request : ElasticRequest
request = record {
  namespace = "user-space-a";
  app_namespace = "app";
  user = "alice";
  password = record { value = "secret"; value_from = none };
  indexes = "logs" ∷ "traces" ∷ [];
  allow_namespace_indexes = true;
}

abbrev blank : World
blank = record {
  indexes = λ i. i == "app-logs";
  passwords = λ n. none;
  given = λ n. [];
  defined = λ n. none;
}

request-ArePlain : Create.ArePlain view IsPlain platform laws request blank
unfolding get_var_value string_eq role_name
request-ArePlain = ((λ p (v, u, e). inl (sym (ap read_value e))), inr refl)
  where
    read_value : World × Result String → String
    read_value (u, ok p) = p
    read_value (u, err x) = "secret"

create_or_update_elasticsearch_request-IsServed_example :
    Post
      (λ u w.
        Create.IsServed view IsPlain platform laws request blank w
        × On view (Create.Spared view IsPlain platform laws request blank) w)
      (On view (Create.Spared view IsPlain platform laws request blank))
      (create_or_update_elasticsearch_request platform request blank)
create_or_update_elasticsearch_request-IsServed_example =
    create_or_update_elasticsearch_request-IsServed view IsPlain platform laws request blank
      request-ArePlain
