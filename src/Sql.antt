-- ===== src/Sql.antt =====
-- What a MiddlewareRequest for MySQL or MariaDB makes of users, databases and privileges:
-- handler_mysql.go and handler_mariadb.go of cmd/middleware/operator/middleware-request, with
-- pkg/workload/mysql and pkg/workload/mariadb. The two differ in where they are found only.
pub mod Laws
pub mod Create
pub mod Delete
mod Tests
use tapr.Base.{String, ◌<>◌, Option, none, some, List, [], ◌∷◌, if◌then◌else◌, map}
use tapr.Base.Dict.{Dict}
use tapr.Base.Effect.{
  Error, failure, Result, ok, err, Eff, ◌>>=◌, chain, pure, fail, catching, resolve, for_each,
}
use tapr.Backup.Types.{Password}
use tapr.Backup.Services.{read_key, get_var_value}

-- Where the server and the secret of its administrator are.
pub record Flavour : Type 0 where
  pub namespace : String
  pub secret : String
  pub host : String

abbrev pub mysql : Flavour
mysql = record {
  namespace = "mysql-middleware";
  secret = "mysql-mysql-account-root";
  host = "mysql-mysql-headless.mysql-middleware.svc.cluster.local:3306";
}

abbrev pub mariadb : Flavour
mariadb = record {
  namespace = "mariadb-middleware";
  secret = "mariadb-mariadb-account-root";
  host = "mariadb-mariadb-headless.mariadb-middleware.svc.cluster.local:3306";
}

-- What a MiddlewareRequest says of MySQL or of MariaDB.
pub record SqlRequest : Type 0 where
  pub namespace : String
  pub app_namespace : String
  pub user : String
  pub password : Password
  pub databases : List String

-- `open_db` is `sql.Open`, by the data source name, and `exec` `db.ExecContext`.
pub record SqlPlatform (W : Type 0) : Type 0 where
  pub secret : String → String → Eff W (Dict String String)
  pub open_db : String → Eff W (Unit {0})
  pub exec : String → Eff W (Unit {0})

-- `GetDatabaseName`
unfoldable pub sql_database_name : String → String → String
sql_database_name namespace name = namespace <> "_" <> name

unfoldable pub sql_database_names : SqlRequest → List String
unfolding sql_database_name
sql_database_names req = map (sql_database_name req.app_namespace) req.databases

unfoldable pub dsn_of : Flavour → String × String → String
dsn_of flavour (user, password) = user <> ":" <> password <> "@tcp(" <> flavour.host <> ")/"

-- The statements.
unfoldable pub create_user_text : String → String → String
create_user_text user password =
    "CREATE USER IF NOT EXISTS `" <> user <> "` IDENTIFIED BY '" <> password <> "'"

unfoldable pub create_database_text : String → String
create_database_text name = "CREATE DATABASE IF NOT EXISTS `" <> name <> "`"

unfoldable pub grant_text : String → String → String
grant_text name user = "GRANT ALL PRIVILEGES ON `" <> name <> "`.* TO `" <> user <> "`"

unfoldable pub drop_user_text : String → String
drop_user_text user = "DROP USER IF EXISTS `" <> user <> "`"

unfoldable pub drop_database_text : String → String
drop_database_text name = "DROP DATABASE IF EXISTS `" <> name <> "`"

module _ {W : Type 0} (platform : SqlPlatform W) where
  unfoldable pub create_and_grant : String → String → Eff W (Unit {0})
  create_and_grant user name =
      platform.exec (create_database_text name) >>= λ u. platform.exec (grant_text name user)

  unfoldable pub drop_database : String → Eff W (Unit {0})
  drop_database name = platform.exec (drop_database_text name)

module _ {W : Type 0} (platform : SqlPlatform W) (flavour : Flavour) where
  -- `FindMysqlAdminUser`, `FindMariaDBAdminUser`
  unfoldable pub find_sql_admin_user : Eff W (String × String)
  find_sql_admin_user = platform.secret flavour.namespace flavour.secret >>= λ entries.
      pure (read_key "username" entries, read_key "password" entries)

  unfoldable pub create_with_admin : SqlRequest → String × String → Eff W (Unit {0})
  create_with_admin req admin =
      get_var_value platform.secret req.namespace req.password >>= λ password.
      platform.open_db (dsn_of flavour admin) >>= λ u.
      platform.exec (create_user_text req.user password) >>= λ u.
      for_each (create_and_grant platform req.user) (sql_database_names req) >>= λ u.
      platform.exec "FLUSH PRIVILEGES"

  unfoldable pub create_or_update_sql_request : SqlRequest → Eff W (Unit {0})
  create_or_update_sql_request req = find_sql_admin_user >>= create_with_admin req

  unfoldable pub drop_with_admin : SqlRequest → String × String → Eff W (Unit {0})
  drop_with_admin req admin = platform.open_db (dsn_of flavour admin) >>= λ u.
      platform.exec (drop_user_text req.user) >>= λ u.
      for_each (drop_database platform) (sql_database_names req)

  -- Without the administrator's secret there is nothing to clean up.
  unfoldable pub delete_sql_request : SqlRequest → Eff W (Unit {0})
  delete_sql_request req =
      catching find_sql_admin_user (drop_with_admin req)
        λ e. if e.not_found then pure tt else fail e

module _ {W : Type 0} (platform : SqlPlatform W) where
  -- `createOrUpdateMysqlRequest`
  unfoldable pub create_or_update_mysql_request : SqlRequest → Eff W (Unit {0})
  create_or_update_mysql_request = create_or_update_sql_request platform mysql

  -- `deleteMysqlRequest`
  unfoldable pub delete_mysql_request : SqlRequest → Eff W (Unit {0})
  delete_mysql_request = delete_sql_request platform mysql

  -- `createOrUpdateMariaDBRequest`
  unfoldable pub create_or_update_mariadb_request : SqlRequest → Eff W (Unit {0})
  create_or_update_mariadb_request = create_or_update_sql_request platform mariadb

  -- `deleteMariaDBRequest`
  unfoldable pub delete_mariadb_request : SqlRequest → Eff W (Unit {0})
  delete_mariadb_request = delete_sql_request platform mariadb
