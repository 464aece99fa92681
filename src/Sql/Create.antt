-- ===== src/Sql/Create.antt =====
-- What MySQL and MariaDB have after a request was created or updated.
use tapr.Base.{String, Bool, true, List, [], ◌∷◌, ◌≡◌, All, string_eq, nat_eq}
use tapr.Base.Effect.{
  ok, Eff, Post, Ensures, Ensures->>=, Ensures-pure, Ensures-told, Ensures-kept, Ensures-weaken,
  Ensures-with, Post-state,
}
use tapr.Backup.Services.{get_var_value}
use tapr.Requests.Password.{get_var_value-Ensures}
use tapr.Requests.Facts.{Holds, Kept, Stable, Kept-Stable, Holds-Stable, make_Ensures, each_Ensures}
use tapr.Sql.{
  Flavour, SqlRequest, SqlPlatform, sql_database_names, find_sql_admin_user, create_and_grant,
  create_with_admin, create_or_update_sql_request,
}
use tapr.Sql.Laws.{SqlFact, account, database, privileges, IsName, IsLiteral, Quiet, IsSql}

module _ {W : Type 0} (holds : W → SqlFact → Bool) where
  module _ {platform : SqlPlatform W} (laws : IsSql holds platform) (flavour : Flavour)
      (req : SqlRequest) (user_name : IsName req.user) (s : W) where
    abbrev pub NamesAre : Type 0
    NamesAre = All IsName (sql_database_names req)

    -- Whatever the password is, it can be quoted.
    abbrev pub PasswordIs : Type 0
    PasswordIs =
        (v u : W) (password : String)
        → get_var_value platform.secret req.namespace req.password v ≡ (u, ok password)
        → IsLiteral password

    Quiet-Ensures :
        {A : Type 0} {m : Eff W A}
        → Quiet holds m
        → Ensures (Kept holds s) m (λ a. Kept holds s) (Kept holds s)
    Quiet-Ensures q = Ensures-kept (Kept holds s) (λ w k. rw (q w) k)

    abbrev pub database_facts : String → List SqlFact
    database_facts d = database d ∷ privileges d req.user ∷ []

    -- A database with the privileges on it.
    turn :
        (K : W → Type 0)
        → Stable holds K
        → (d : String) → IsName d
        → Ensures K
            (create_and_grant platform req.user d)
            (λ u w. Holds holds (database_facts d) w × K w)
            K
    unfolding create_and_grant
    turn K stable d name =
        Ensures->>=
          (make_Ensures holds stable (laws.create_database_grows d name) (database d)
            (laws.create_database_makes d name))
          λ u.
            Ensures-weaken
              (make_Ensures holds (Holds-Stable holds (database d ∷ []) K stable)
                (laws.grant_grows d req.user d_name user_name) (privileges d req.user)
                (laws.grant_makes d req.user d_name user_name))
              (λ w (h, k). ((h, tt), k)) (λ u w (p, ((h, z), k)). ((h, (p, tt)), k))
              (λ w ((h, z), k). k)
      where
        d_name : IsName d
        d_name = name

    abbrev pub IsServed : W → Type 0
    IsServed w =
        (holds w (account req.user) ≡ true)
        × All (λ d. Holds holds (database_facts d) w) (sql_database_names req)

    admin_Ensures :
        Ensures
          (Kept holds s)
          (find_sql_admin_user platform flavour)
          (λ a. Kept holds s)
          (Kept holds s)
    unfolding find_sql_admin_user
    admin_Ensures =
        Ensures->>= (Quiet-Ensures (laws.secret_quiet flavour.namespace flavour.secret))
          (λ entries. Ensures-pure (λ w k. k))

    password_Ensures :
        PasswordIs
        → Ensures
            (Kept holds s)
            (get_var_value platform.secret req.namespace req.password)
            (λ password w. IsLiteral password × Kept holds s w)
            (Kept holds s)
    password_Ensures literal =
        Ensures-told (λ w t password k e. (literal w t password e, rw e at (kept w k))) kept
      where
        kept :
            (w : W)
            → Kept holds s w
            → Kept holds s (get_var_value platform.secret req.namespace req.password w).0
        kept w k =
            Post-state (Kept holds s) (get_var_value platform.secret req.namespace req.password w) (
              (get_var_value-Ensures (Kept holds s) platform.secret req.namespace req.password
                  (λ name. Quiet-Ensures (laws.secret_quiet req.namespace name))).run
                w k)

    create_Ensures :
        NamesAre
        → PasswordIs
        → Ensures
            (Kept holds s)
            (create_or_update_sql_request platform flavour req)
            (λ u w. IsServed w × Kept holds s w)
            (Kept holds s)
    unfolding create_or_update_sql_request create_with_admin
    create_Ensures names literal = Ensures->>= admin_Ensures λ admin.
        Ensures->>= (password_Ensures literal) λ password. Ensures-with λ p.
          Ensures->>= (Quiet-Ensures (laws.open_quiet _)) λ u.
            Ensures->>=
              (make_Ensures holds (Kept-Stable holds s)
                (laws.create_user_grows req.user password user_name p) (account req.user)
                (laws.create_user_makes req.user password user_name p))
              λ u.
                Ensures->>=
                  (each_Ensures holds (create_and_grant platform req.user) database_facts IsName
                    turn (λ w. (holds w (account req.user) ≡ true) × Kept holds s w) (Kept holds s)
                    (λ v w k (h, l). (k (account req.user) h, λ f e. k f (l f e))) (λ w (h, k). k)
                    (sql_database_names req) names)
                  λ u.
                    Ensures-told
                      (λ w t u (all, (h, k)) e.
                        let same : holds t ≡ holds w = rw e at (laws.flush_quiet w) in
                        rw same ((h, all), k))
                      (λ w (all, (h, k)). rw (laws.flush_quiet w) k)

    -- For a Kubernetes and a server that do what they are documented to do, and names and a password that
    -- can be quoted: after a request to MySQL or MariaDB that returns no error its user, its databases
    -- and the user's privileges on each of them are there. Whatever it returns, nothing is lost.
    pub create_or_update_sql_request-IsServed :
        NamesAre
        → PasswordIs
        → Post
            (λ u w. IsServed w × Kept holds s w)
            (Kept holds s)
            (create_or_update_sql_request platform flavour req s)
    create_or_update_sql_request-IsServed names literal =
        (create_Ensures names literal).run s (λ f e. e)
