-- ===== src/Postgres/Request/Steps.antt =====
-- The calls of the client against the databases that the nodes have.
use tapr.Base.{ℕ, String, true, List, [], ◌∷◌, ◌++◌, ◌≡◌, refl, ◌==◌, string_eq, nat_eq, is_empty}
use tapr.Base.Effect.{
  Error, Result, ok, err, Post, Ensures, Ensures-weaken, Ensures-pure, Ensures-fail, Ensures-if,
  Ensures-catching, Ensures->>=,
}
use tapr.Postgres.Client.{
  Connection, limit_role, grant_files, create_database, create_extension, create_citus,
  extension_name, aggregate, is_first, find_database_text, find_user_text, text_of, role_statement,
  script_of, run, create_or_update_user, create_database_if_not_exists, create_extensions,
  execute_script, set_master_node,
}
use tapr.Postgres.Request.{Database, PgRequest, Platform, real_name, fill_database}
use tapr.Postgres.Request.Laws.{
  Have-Stable, View, Spares, Stable, IsPostgres, Have, Keeps, Keeps-of, run-Keeps,
}

module _ {W : Type 0} (has : View W) {IsName : String → Type 0} (platform : Platform W)
    (pg : IsPostgres has IsName platform) where
  module _ (hs : List (String × String)) where
    role_statement-Spares :
        (rows : List String) (user pwd d : String) → Spares (role_statement rows user pwd) d
    role_statement-Spares [] user pwd d = tt
    role_statement-Spares (r ∷ rs) user pwd d = tt

    pub create_or_update_user-Keeps :
        (c : Connection) (user pwd : String)
        → Keeps has hs (create_or_update_user platform.driver c user pwd)
    unfolding create_or_update_user
    create_or_update_user-Keeps c user pwd =
        Ensures->>=
          (Keeps-of has hs (platform.driver.query c find_user_text user)
            (pg.query_stable c find_user_text user))
          λ rows.
            Ensures->>=
              (run-Keeps has platform pg hs c (role_statement rows user pwd)
                (role_statement-Spares rows user pwd))
              λ u.
                Ensures->>= (run-Keeps has platform pg hs c (limit_role user) (λ d. tt))
                  λ u. run-Keeps has platform pg hs c (grant_files user) (λ d. tt)

    aggregate-Keeps : (es : List Error) → Keeps has hs (aggregate es)
    aggregate-Keeps [] = Ensures-pure (λ s h. h)
    aggregate-Keeps (e ∷ []) = Ensures-fail (λ s h. h)
    aggregate-Keeps (e ∷ f ∷ es) = Ensures-fail (λ s h. h)

    create_extensions-Keeps :
        (c : Connection) (errs : List Error) (es : List String)
        → Keeps has hs (create_extensions platform.driver c errs es)
    unfolding create_extensions
    create_extensions-Keeps c errs [] = aggregate-Keeps errs
    create_extensions-Keeps c errs (e ∷ es) =
        Ensures-catching
          (run-Keeps has platform pg hs c (create_extension (extension_name e)) (λ d. tt))
          (λ u. create_extensions-Keeps c errs es)
          λ x. create_extensions-Keeps c (errs ++ (x ∷ [])) es

    master_node-Keeps :
        (c : Connection) (host : String) → Keeps has hs (set_master_node platform.driver c host)
    unfolding set_master_node
    master_node-Keeps c host = Keeps-of has hs _ (pg.node_stable c _ host 5432)

    execute_script-Keeps :
        (c : Connection) (db user : String) (scripts : List String)
        → Stable has (platform.driver.exec c (script_of db user scripts))
        → Keeps has hs (execute_script platform.driver c db user scripts)
    unfolding execute_script
    execute_script-Keeps c db user scripts st = Keeps-of has hs _ st

    pub fill_database-Keeps :
        (req : PgRequest) (db : Database) (i : ℕ) (host : String) (c : Connection)
        → Stable has (platform.driver.exec c (script_of (real_name req db) req.user db.scripts))
        → Keeps has hs (fill_database platform req db i host c)
    unfolding fill_database
    fill_database-Keeps req db i host c script =
        Ensures->>=
          (Ensures-if db.distributed
            (λ h. Ensures->>= (run-Keeps has platform pg hs c create_citus (λ d. tt)) λ u.
              Ensures-if (i == 0) (λ h. master_node-Keeps c host) (λ h. Ensures-pure (λ s h. h)))
            λ h. Ensures-pure (λ s h. h))
          λ u.
            Ensures->>=
              (Ensures-if (is_empty db.extensions) (λ h. Ensures-pure (λ s h. h))
                λ h. create_extensions-Keeps c [] db.extensions)
              λ u.
                Ensures-if (is_empty db.scripts) (λ h. Ensures-pure (λ s h. h))
                  λ h. execute_script-Keeps c (real_name req db) req.user db.scripts script

    creates-Post :
        (c : Connection) (db owner : String) (u : W) (o : Result (Unit {0})) (w : W)
        → IsName db
        → platform.driver.exec c (text_of (create_database db owner)) w ≡ (u, o)
        → Have has hs u
        → Post (λ v. Have has ((c.host, db) ∷ hs)) (Have has hs) (u, o)
    creates-Post c db owner u (ok v) w n e h = (pg.exec_creates c db owner w u n e, h)
    creates-Post c db owner u (err x) w n e h = h

    create_database-Have :
        (c : Connection) (db owner : String)
        → IsName db
        → Ensures
            (Have has hs)
            (run platform.driver c (create_database db owner))
            (λ v. Have has ((c.host, db) ∷ hs))
            (Have has hs)
    unfolding run
    create_database-Have c db owner n = record {
      run = λ w h.
          creates-Post c db owner (run platform.driver c (create_database db owner) w).0
            (run platform.driver c (create_database db owner) w).1 w n refl
            (Have-Stable has hs (run platform.driver c (create_database db owner))
              (λ x a b k. pg.exec_spares c (create_database db owner) x a b tt k) w h);
    }

    finds-Post :
        (c : Connection) (db : String) (u : W) (o : Result (List String)) (w : W)
        → platform.driver.query c find_database_text db w ≡ (u, o)
        → Have has hs u
        → Post
            (λ rows v. (is_first db rows ≡ true → has v c.host db) × Have has hs v)
            (Have has hs)
            (u, o)
    finds-Post c db u (ok rows) w e h = (λ f. pg.query_finds c db w u rows e f, h)
    finds-Post c db u (err x) w e h = h

    query_finds-Have :
        (c : Connection) (db : String)
        → Ensures
            (Have has hs)
            (platform.driver.query c find_database_text db)
            (λ rows v. (is_first db rows ≡ true → has v c.host db) × Have has hs v)
            (Have has hs)
    query_finds-Have c db = record {
      run = λ w h.
          finds-Post c db (platform.driver.query c find_database_text db w).0
            (platform.driver.query c find_database_text db w).1 w refl
            (Have-Stable has hs (platform.driver.query c find_database_text db)
              (pg.query_stable c find_database_text db) w h);
    }

    pub create_if_not_exists-Have :
        (c : Connection) (db owner : String)
        → IsName db
        → Ensures
            (Have has hs)
            (create_database_if_not_exists platform.driver c db owner)
            (λ v. Have has ((c.host, db) ∷ hs))
            (Have has hs)
    unfolding create_database_if_not_exists
    create_if_not_exists-Have c db owner n =
        Ensures-if (db == "") (λ h. Ensures-fail (λ w h. h))
          λ h. Ensures->>= (query_finds-Have c db) λ rows.
            Ensures-if (is_first db rows) (λ f. Ensures-pure (λ w p. (p.0 f, p.1)))
              λ f.
                Ensures-weaken (create_database-Have c db owner n) (λ w p. p.1) (λ a w q. q)
                  (λ w r. r)
