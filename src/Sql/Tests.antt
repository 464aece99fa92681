-- ===== src/Sql/Tests.antt =====
-- A server in which everything is there or nothing, and the theorems at requests to it.
use Prim.Native.Char.{code}
use text.Mathlib.TextLemmas.{cons-append}
use tapr.Base.{
  ℕ, suc, String, ◌<>◌, Bool, true, false, not, none, [], ◌∷◌, ◌≡◌, refl, if◌then◌else◌, nat_eq,
  string_eq, ◌==◌, arith,
}
use tapr.Base.Effect.{failure, Result, ok, err, Post}
use tapr.Backup.Services.{get_var_value}
use tapr.Requests.Facts.{Kept}
use tapr.Sql.{
  SqlRequest, SqlPlatform, mysql, mariadb, sql_database_names, sql_database_name, create_user_text,
  create_database_text, grant_text, drop_user_text, drop_database_text,
  create_or_update_sql_request, delete_sql_request,
}
use tapr.Sql.Laws.{SqlFact, IsName, IsLiteral, IsSql}
use tapr.Sql.Create
use tapr.Sql.Create.{create_or_update_sql_request-IsServed}
use tapr.Sql.Delete
use tapr.Sql.Delete.{delete_sql_request-spares}

abbrev first : String → ℕ
first String.[] = 0
first (String.◌∷◌ c s) = code c

first-append : (n : ℕ) (s t : String) → first s ≡ suc n → first (s <> t) ≡ suc n
first-append n String.[] t e = absurd (omega arith)
first-append n (String.◌∷◌ c s) t e = rw (cons-append c s t) e

abbrev dropping : Bool → Bool × Result (Unit {0})
dropping true = (true, err (failure "Access denied"))
dropping false = (false, ok tt)

-- By the first letter of the statement: "D" and "F", or else.
abbrev exec_by : ℕ → Bool → Bool × Result (Unit {0})
exec_by n w = if n == 68 then dropping w else if n == 70 then (w, ok tt) else (true, ok tt)

abbrev platform : SqlPlatform Bool
platform = record {
  secret = λ namespace name w. (w, ok (("username", "root") ∷ ("password", "root") ∷ []));
  open_db = λ dsn w. (w, ok tt);
  exec = λ text. exec_by (first text);
}

abbrev holds : Bool → SqlFact → Bool
holds w f = w

first_user : (u p : String) → first (create_user_text u p) ≡ 67
unfolding create_user_text
first_user u p =
    first-append 66 "CREATE USER IF NOT EXISTS `" (u <> "` IDENTIFIED BY '" <> p <> "'") refl

first_database : (d : String) → first (create_database_text d) ≡ 67
unfolding create_database_text
first_database d = first-append 66 "CREATE DATABASE IF NOT EXISTS `" (d <> "`") refl

first_grant : (d u : String) → first (grant_text d u) ≡ 71
unfolding grant_text
first_grant d u = first-append 70 "GRANT ALL PRIVILEGES ON `" (d <> "`.* TO `" <> u <> "`") refl

first_drop_user : (u : String) → first (drop_user_text u) ≡ 68
unfolding drop_user_text
first_drop_user u = first-append 67 "DROP USER IF EXISTS `" (u <> "`") refl

first_drop_database : (d : String) → first (drop_database_text d) ≡ 68
unfolding drop_database_text
first_drop_database d = first-append 67 "DROP DATABASE IF EXISTS `" (d <> "`") refl

dropping_quiet : (w : Bool) → (dropping w).0 ≡ w
dropping_quiet true = refl
dropping_quiet false = refl

dropping_gone : (w t : Bool) → dropping w ≡ (t, ok tt) → not t ≡ true
dropping_gone true t e = ground arith
dropping_gone false t e = ground arith

laws : IsSql holds platform
unfolding nat_eq
laws = record {
  secret_quiet = λ namespace name w. refl;
  open_quiet = λ dsn w. refl;
  flush_quiet = λ w. refl;
  create_user_grows = λ u p a b w f e. rw (first_user u p) refl;
  create_user_makes = λ u p a b w t z e. ground (arith, first_user u p);
  create_database_grows = λ d a w f e. rw (first_database d) refl;
  create_database_makes = λ d a w t z e. ground (arith, first_database d);
  grant_grows = λ d u a b w f e. rw (first_grant d u) refl;
  grant_makes = λ d u a b w t z e. ground (arith, first_grant d u);
  drop_user_grows = λ u a w f e. rw (first_drop_user u) (rw (dropping_quiet w) e);
  drop_user_makes = λ u a w t z e. dropping_gone w t (rw (first_drop_user u) at e);
  drop_user_spares = λ u a w f e. rw (first_drop_user u) (dropping_quiet w);
  drop_database_grows = λ d a w f e. rw (first_drop_database d) (rw (dropping_quiet w) e);
  drop_database_makes = λ d a w t z e. dropping_gone w t (rw (first_drop_database d) at e);
  drop_database_spares = λ d a w f e. rw (first_drop_database d) (dropping_quiet w);
}

abbrev request : SqlRequest
request = record {
  namespace = "user-space-a";
  app_namespace = "app";
  user = "alice";
  password = record { value = "secret"; value_from = none };
  databases = "a" ∷ "b" ∷ [];
}

IsLiteral-of :
    {v u : Bool} (p : String)
    → ◌≡◌ {A = Bool × Result String} (v, ok "secret") (u, ok p)
    → IsLiteral p
unfolding nat_eq
IsLiteral-of p e = rw (← same) (refl, refl)
  where
    same : "secret" ≡ p
    same = cc

user_name : IsName request.user
unfolding nat_eq
user_name = refl

create_or_update_sql_request-IsServed_example :
    Post
      (λ u w. Create.IsServed holds laws mysql request user_name false w × Kept holds false w)
      (Kept holds false)
      (create_or_update_sql_request platform mysql request false)
unfolding sql_database_names sql_database_name get_var_value string_eq nat_eq
create_or_update_sql_request-IsServed_example =
    create_or_update_sql_request-IsServed holds laws mysql request user_name false
      (refl, (refl, tt)) (λ v u p e. IsLiteral-of p e)

delete_sql_request-spares_example :
    Post
      (λ u w.
        Delete.IsDone holds laws mariadb request user_name false w
        × Delete.Spared holds laws mariadb request user_name false w)
      (Delete.Spared holds laws mariadb request user_name false)
      (delete_sql_request platform mariadb request false)
unfolding sql_database_names sql_database_name nat_eq
delete_sql_request-spares_example =
    delete_sql_request-spares holds laws mariadb request user_name false (refl, (refl, tt))
