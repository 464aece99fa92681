-- ===== src/Postgres/Client.antt =====
-- The client of a PostgreSQL node, pkg/postgres/client.go: the statements that it sends, as texts. The
-- driver is a parameter. Its debug log and the closing of connections are left out.
use tapr.Base.{
  ℕ, String, ◌<>◌, Bool, false, none, some, List, [], ◌∷◌, ◌++◌, if◌then◌else◌, ◌==◌, string_eq,
}
use tapr.Base.Text.{replace_all, ends_with_semicolon}
use tapr.Base.Dict.{Dict, lookup}
use tapr.Base.Effect.{Error, failure, Eff, ◌>>=◌, pure, fail, catching, for_each}

-- `clientBuilder`, which is the connection that it builds.
pub record Connection : Type 0 where
  pub user : String
  pub password : String
  pub host : String
  pub port : ℕ
  pub database : String

-- `NewClientBuidler`
abbrev pub connection_to : String → String → String → Connection
connection_to user password host = record {
  user = user;
  password = password;
  host = host;
  port = 5432;
  database = "postgres";
}

-- `query` has one named argument, and returns the one column that its rows have.
pub record Driver (W : Type 0) : Type 0 where
  pub connect : Connection → Eff W (Unit {0})
  pub exec : Connection → String → Eff W (Unit {0})
  pub query : Connection → String → String → Eff W (List String)
  pub citus_node : Connection → String → String → ℕ → Eff W (Unit {0})

-- What is executed, but the scripts.
pub data Statement : Type 0 where
  create_role : String → String → Statement
  alter_role : String → String → Statement
  limit_role : String → Statement
  grant_files : String → Statement
  drop_role : String → Statement
  create_database : String → String → Statement
  drop_database : String → Statement
  terminate_backend : String → Statement
  create_extension : String → Statement
  create_citus : Statement

unfoldable pub text_of : Statement → String
text_of (create_role user pwd) = "create role " <> user <> " with login password '" <> pwd <> "'"
text_of (alter_role user pwd) = "alter role " <> user <> " with password '" <> pwd <> "'"
text_of (limit_role user) = "alter role " <> user <> " connection limit 30"
text_of (grant_files user) = "grant pg_write_server_files, pg_read_server_files to " <> user
text_of (drop_role user) = "drop role if exists " <> user
text_of (create_database db owner) =
    "create database " <> db <> (if owner == "" then "" else " owner " <> owner)
text_of (drop_database db) = "drop database if exists " <> db
text_of (terminate_backend pid) = "SELECT pg_terminate_backend(" <> pid <> ")"
text_of (create_extension e) = "create extension if not exists " <> e <> " cascade;"
text_of create_citus = "create extension if not exists citus"

abbrev pub find_user_text : String
find_user_text = "select usename from pg_catalog.pg_user where usename=:user"

abbrev pub find_database_text : String
find_database_text =
    "select datname as name from pg_catalog.pg_database where datname=:name ORDER BY 1"

abbrev pub list_owned_text : String
list_owned_text =
    "select datname as name from pg_catalog.pg_database where pg_catalog.pg_get_userbyid(datdba)=:owner"

abbrev pub list_backends_text : String
list_backends_text = "SELECT pid from pg_stat_activity where datname=:db"

abbrev pub extension_map : Dict String String
extension_map =
    ("pgvector", "vector")
    ∷ ("vector", "vector")
    ∷ ("vectors", "vectors")
    ∷ ("pgvecto.rs", "vectors")
    ∷ []

abbrev pub extension_name : String → String
extension_name e = elim (lookup e extension_map) [ none ↦ e | some name ↦ name ]

-- `ExecuteScript`: one text of all commands, with the names of the database and of the user put in.
unfoldable pub script_of : String → String → List String → String
script_of db user [] = ""
script_of db user (cmd ∷ cmds) =
    let named = replace_all (replace_all cmd "$databasename" db) "$dbusername" user in
    named <> (if ends_with_semicolon named then "" else ";") <> script_of db user cmds

-- `utils.AggregateErrs`, for more than one error the texts with a tab between them.
unfoldable pub tabbed : List String → String
tabbed [] = ""
tabbed (t ∷ []) = t
tabbed (t ∷ u ∷ more) = t <> "\t" <> tabbed (u ∷ more)

abbrev pub texts : List Error → List String
texts [] = []
texts (e ∷ es) = e.text ∷ texts es

abbrev pub aggregate : {S : Type 0} → List Error → Eff S (Unit {0})
aggregate [] = pure tt
aggregate (e ∷ []) = fail e
aggregate (e ∷ f ∷ more) = fail (failure (tabbed (texts (e ∷ f ∷ more))))

abbrev pub role_statement : List String → String → String → Statement
role_statement [] user pwd = create_role user pwd
role_statement (r ∷ rs) user pwd = alter_role user pwd

abbrev pub is_first : String → List String → Bool
is_first db [] = false
is_first db (r ∷ rs) = r == db

module _ {W : Type 0} (driver : Driver W) where
  unfoldable pub run : Connection → Statement → Eff W (Unit {0})
  run c s = driver.exec c (text_of s)

  -- `SwitchDatabase`, which changes the builder that the client holds.
  unfoldable pub switch_database : Connection → String → Eff W Connection
  switch_database c db =
      driver.connect (record c { database = db }) >>= λ u. pure (record c { database = db })

  unfoldable pub create_or_update_user : Connection → String → String → Eff W (Unit {0})
  unfolding run
  create_or_update_user c user pwd = driver.query c find_user_text user >>= λ rows.
      run c (role_statement rows user pwd) >>= λ u.
      run c (limit_role user) >>= λ u. run c (grant_files user)

  -- The database is created unless the first row has its name.
  unfoldable pub create_database_if_not_exists : Connection → String → String → Eff W (Unit {0})
  unfolding run
  create_database_if_not_exists c db owner =
      if db == ""
      then fail (failure "databaseName is empty")
      else (driver.query c find_database_text db >>= λ rows.
          if is_first db rows then pure tt else run c (create_database db owner))

  -- Every extension is tried, and the errors are returned together.
  unfoldable pub create_extensions : Connection → List Error → List String → Eff W (Unit {0})
  unfolding run
  create_extensions c errs [] = aggregate errs
  create_extensions c errs (e ∷ es) =
      catching (run c (create_extension (extension_name e))) (λ u. create_extensions c errs es)
        λ x. create_extensions c (errs ++ (x ∷ [])) es

  unfoldable pub execute_script : Connection → String → String → List String → Eff W (Unit {0})
  unfolding script_of
  execute_script c db user scripts = driver.exec c (script_of db user scripts)

  unfoldable pub list_database_by_owner : Connection → String → Eff W (List String)
  list_database_by_owner c owner = driver.query c list_owned_text owner

  -- `DropDatabase`, which ends the sessions of the database first.
  unfoldable pub drop : Connection → String → Eff W (Unit {0})
  unfolding run
  drop c db = driver.query c list_backends_text db >>= λ pids.
      for_each (λ pid. run c (terminate_backend pid)) pids >>= λ u. run c (drop_database db)

  unfoldable pub delete_user : Connection → String → Eff W (Unit {0})
  unfolding run
  delete_user c user = run c (drop_role user)

  unfoldable pub set_master_node : Connection → String → Eff W (Unit {0})
  set_master_node c host =
      driver.citus_node c "SELECT citus_set_coordinator_host(:node_addr, :node_port);" host 5432

  unfoldable pub add_worker_node : Connection → String → Eff W (Unit {0})
  add_worker_node c host =
      driver.citus_node c "SELECT * from citus_add_node(:node_addr, :node_port);" host 5432
