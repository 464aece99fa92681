-- ===== src/Sql/Laws.antt =====
-- What MySQL and MariaDB are documented to do, and what they have after a request.
use Prim.Native.Char.{code}
use tapr.Base.{
  ℕ, String, Bool, false, not, ◌||◌, List, [], ◌∷◌, ◌≡◌, arith, ◌==◌, string_eq, nat_eq,
}
use tapr.Base.Effect.{Eff}
use tapr.Requests.Facts.{Grows, Makes}
use tapr.Sql.{
  SqlPlatform, create_user_text, create_database_text, grant_text, drop_user_text,
  drop_database_text,
}

-- What there may be in a server: users, databases, and all privileges on a database for a user.
pub data SqlFact : Type 0 where
  account : String → SqlFact
  database : String → SqlFact
  privileges : String → String → SqlFact

-- A text in which a character stands; a name without a backquote and a password without a quote or a
-- backslash can be quoted as the statements do it.
abbrev pub has_char : ℕ → String → Bool
has_char n String.[] = false
has_char n (String.◌∷◌ c s) = code c == n || has_char n s

abbrev pub IsName : String → Type 0
IsName s = has_char 96 s ≡ false

abbrev pub IsLiteral : String → Type 0
IsLiteral s = (has_char 39 s ≡ false) × (has_char 92 s ≡ false)

-- What belongs to a user.
abbrev pub of_user : String → SqlFact → Bool
of_user u (account v) = v == u
of_user u (database d) = false
of_user u (privileges d v) = v == u

abbrev pub of_database : String → SqlFact → Bool
of_database d (account v) = false
of_database d (database e) = e == d
of_database d (privileges e v) = false

abbrev pub any_of : List String → SqlFact → Bool
any_of [] f = false
any_of (d ∷ ds) f = of_database d f || any_of ds f

pub or_left : (a b : Bool) → (a || b) ≡ false → a ≡ false
or_left a b h = ground arith

pub or_right : (a b : Bool) → (a || b) ≡ false → b ≡ false
or_right a b h = ground arith

module _ {W : Type 0} (holds : W → SqlFact → Bool) where
  abbrev pub gone : W → SqlFact → Bool
  gone w f = not (holds w f)

  abbrev pub Quiet : {A : Type 0} → Eff W A → Type 0
  Quiet m = (w : W) → holds (m w).0 ≡ holds w

  pub record IsSql (platform : SqlPlatform W) : Type 0 where
    pub secret_quiet : (namespace name : String) → Quiet (platform.secret namespace name)
    pub open_quiet : (dsn : String) → Quiet (platform.open_db dsn)
    pub flush_quiet : Quiet (platform.exec "FLUSH PRIVILEGES")
    pub create_user_grows :
        (u p : String) → IsName u → IsLiteral p → Grows holds (platform.exec (create_user_text u p))
    pub create_user_makes :
        (u p : String)
        → IsName u
        → IsLiteral p
        → Makes holds (platform.exec (create_user_text u p)) (account u)
    pub create_database_grows :
        (d : String) → IsName d → Grows holds (platform.exec (create_database_text d))
    pub create_database_makes :
        (d : String) → IsName d → Makes holds (platform.exec (create_database_text d)) (database d)
    pub grant_grows :
        (d u : String) → IsName d → IsName u → Grows holds (platform.exec (grant_text d u))
    pub grant_makes :
        (d u : String)
        → IsName d
        → IsName u
        → Makes holds (platform.exec (grant_text d u)) (privileges d u)
    pub drop_user_grows : (u : String) → IsName u → Grows gone (platform.exec (drop_user_text u))
    pub drop_user_makes :
        (u : String) → IsName u → Makes gone (platform.exec (drop_user_text u)) (account u)
    pub drop_user_spares :
        (u : String)
        → IsName u
        → (w : W) (f : SqlFact) → of_user u f ≡ false
        → holds (platform.exec (drop_user_text u) w).0 f ≡ holds w f
    pub drop_database_grows :
        (d : String) → IsName d → Grows gone (platform.exec (drop_database_text d))
    pub drop_database_makes :
        (d : String) → IsName d → Makes gone (platform.exec (drop_database_text d)) (database d)
    pub drop_database_spares :
        (d : String)
        → IsName d
        → (w : W) (f : SqlFact) → of_database d f ≡ false
        → holds (platform.exec (drop_database_text d) w).0 f ≡ holds w f
