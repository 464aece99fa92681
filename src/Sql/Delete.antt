-- ===== src/Sql/Delete.antt =====
-- What MySQL and MariaDB have after a request was deleted.
use tapr.Base.{
  String, Bool, true, false, ◌||◌, List, [], ◌∷◌, ◌≡◌, refl, ◌∙◌, arith, ◌⊎◌, inl, inr, All,
  string_eq, nat_eq,
}
use tapr.Base.Effect.{
  Post, Ensures, Ensures->>=, Ensures-pure, Ensures-told, Ensures-kept, Ensures-weaken,
  Ensures-both, for_each,
}
use tapr.Requests.Facts.{Holds, Stable, make_Ensures, each_Ensures}
use tapr.Backup.Services.{read_key}
use tapr.Requests.Missing.{NotFound, NotFound-pure, missing-Post}
use tapr.Sql.{
  Flavour, SqlRequest, SqlPlatform, sql_database_names, drop_user_text, drop_database_text,
  find_sql_admin_user, drop_database, drop_with_admin, delete_sql_request, dsn_of,
}
use tapr.Sql.Laws.{
  SqlFact, account, database, IsName, of_user, any_of, or_left, or_right, gone, IsSql,
}

module _ {W : Type 0} (holds : W → SqlFact → Bool) where
  module _ {platform : SqlPlatform W} (laws : IsSql holds platform) (flavour : Flavour)
      (req : SqlRequest) (user_name : IsName req.user) (s : W) where
    abbrev pub NamesAre : Type 0
    NamesAre = All IsName (sql_database_names req)

    -- A deletion leaves what is neither of the user nor one of the databases.
    abbrev pub is_target : SqlFact → Bool
    is_target f = of_user req.user f || any_of (sql_database_names req) f

    abbrev pub Spared : W → Type 0
    Spared w = (f : SqlFact) → is_target f ≡ false → holds w f ≡ holds s f

    abbrev pub IsGone : W → Type 0
    IsGone w =
        All (λ d. Holds (gone holds) (database d ∷ []) w) (sql_database_names req)
        × (holds w (account req.user) ≡ false)

    -- The rules for removal keep both.
    not_gone : (w : W) (f : SqlFact) → gone holds w f ≡ true → holds w f ≡ false
    not_gone w f e = ground arith

    drop_each-Spared :
        (ds : List String)
        → All IsName ds
        → ((f : SqlFact) → is_target f ≡ false → any_of ds f ≡ false)
        → Ensures Spared (for_each (drop_database platform) ds) (λ u. Spared) Spared
    unfolding for_each drop_database
    drop_each-Spared [] names h = Ensures-pure (λ w k. k)
    drop_each-Spared (d ∷ ds) (name, names) h =
        Ensures->>= {m = platform.exec (drop_database_text d)}
          (Ensures-kept Spared
            (λ w k f e. laws.drop_database_spares d name w f (or_left _ _ (h f e)) ∙ k f e))
          λ u. drop_each-Spared ds names (λ f e. or_right _ _ (h f e))

    turn_gone :
        (K : W → Type 0)
        → Stable (gone holds) K
        → (d : String) → IsName d
        → Ensures K
            (drop_database platform d)
            (λ u w. Holds (gone holds) (database d ∷ []) w × K w)
            K
    unfolding drop_database
    turn_gone K stable d name =
        Ensures-weaken
          (make_Ensures (gone holds) stable (laws.drop_database_grows d name) (database d)
            (laws.drop_database_makes d name))
          (λ w k. k) (λ u w (h, k). ((h, tt), k)) (λ w k. k)

    abbrev pub Untouched : W → Type 0
    Untouched w = holds w ≡ holds s

    untouched : (w : W) → Untouched w → Spared w
    untouched w e f z = rw e refl

    drop_IsGone :
        NamesAre
        → (admin : String × String)
        → Ensures Untouched
            (drop_with_admin platform flavour req admin)
            (λ u. IsGone)
            (λ w. Unit {0})
    unfolding drop_with_admin
    drop_IsGone names admin =
        Ensures->>= {Q = λ u w. Unit {0}} {m = platform.open_db (dsn_of flavour admin)}
          (Ensures-told (λ w t u k e. tt) (λ w k. tt))
          λ u.
            Ensures->>= {Q = λ u w. gone holds w (account req.user) ≡ true}
              {m = platform.exec (drop_user_text req.user)}
              (Ensures-told (λ w t u k e. laws.drop_user_makes req.user user_name w t tt e)
                (λ w k. tt))
              λ u.
                Ensures-weaken
                  (each_Ensures (gone holds) (drop_database platform) (λ d. database d ∷ []) IsName
                    turn_gone (λ w. gone holds w (account req.user) ≡ true) (λ w. Unit {0})
                    (λ v w k h. k (account req.user) h) (λ w h. tt) (sql_database_names req) names)
                  (λ w h. h) (λ u w (all, h). (all, not_gone w (account req.user) h)) (λ w h. h)

    drop_Spared :
        NamesAre
        → (admin : String × String)
        → Ensures Untouched (drop_with_admin platform flavour req admin) (λ u. Spared) Spared
    unfolding drop_with_admin
    drop_Spared names admin =
        Ensures->>= {Q = λ u. Spared} {m = platform.open_db (dsn_of flavour admin)}
          (Ensures-told (λ w t u k e. rw e at (opened w k)) opened)
          λ u.
            Ensures->>= {m = platform.exec (drop_user_text req.user)}
              (Ensures-kept Spared
                (λ w k f e. laws.drop_user_spares req.user user_name w f (or_left _ _ e) ∙ k f e))
              λ u. drop_each-Spared (sql_database_names req) names (λ f e. or_right _ _ e)
      where
        opened : (w : W) → Untouched w → Spared (platform.open_db (dsn_of flavour admin) w).0
        opened w k = untouched _ (laws.open_quiet (dsn_of flavour admin) w ∙ k)

    admin_Untouched :
        Ensures Untouched (find_sql_admin_user platform flavour) (λ a. Untouched) Untouched
    unfolding find_sql_admin_user
    admin_Untouched =
        Ensures->>= {m = platform.secret flavour.namespace flavour.secret}
          (Ensures-kept Untouched (λ w k. laws.secret_quiet flavour.namespace flavour.secret w ∙ k))
          (λ entries. Ensures-pure (λ w k. k))

    -- The secret of the administrator is not there.
    abbrev pub Unserved : Type 0
    Unserved = NotFound (platform.secret flavour.namespace flavour.secret) s

    abbrev pub IsDone : W → Type 0
    IsDone w = IsGone w ⊎ (Unserved × Untouched w)

    missing_admin : NotFound (find_sql_admin_user platform flavour) s → Unserved
    unfolding find_sql_admin_user
    missing_admin =
        NotFound-pure (platform.secret flavour.namespace flavour.secret)
          (λ entries. (read_key "username" entries, read_key "password" entries)) s

    -- For a Kubernetes and a server that do what they are documented to do, and names that can be quoted:
    -- after a deletion from MySQL or MariaDB that returns no error the user of the request and its
    -- databases are gone, or the secret of the administrator was not found, and then nothing has
    -- changed. Whatever it returns, all else is as it was: other users, other databases and the
    -- privileges of other users.
    pub delete_sql_request-spares :
        NamesAre
        → Post (λ u w. IsDone w × Spared w) Spared (delete_sql_request platform flavour req s)
    unfolding delete_sql_request
    delete_sql_request-spares names =
        missing-Post (find_sql_admin_user platform flavour) (drop_with_admin platform flavour req)
          (λ e. e) Untouched (λ w. IsDone w × Spared w) Spared s admin_Untouched refl
          (λ admin.
            Ensures-weaken (Ensures-both (drop_IsGone names admin) (drop_Spared names admin))
              (λ w k. k) (λ u w (g, k). (inl g, k)) (λ w (z, k). k))
          (λ n w k. (inr (missing_admin n, k), untouched w k)) untouched
