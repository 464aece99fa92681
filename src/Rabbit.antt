-- ===== src/Rabbit.antt =====
-- What a MiddlewareRequest for RabbitMQ makes of users, virtual hosts and permissions:
-- cmd/middleware/operator/middleware-request/handler_rabbitmq.go, with pkg/workload/rabbitmq/helper.go.
pub mod Laws
pub mod Create
pub mod Delete
mod Tests
use tapr.Base.{
  ℕ, String, ◌<>◌, ◌||◌, Option, none, some, List, [], ◌∷◌, if◌then◌else◌, ◌==◌, nat_eq, map,
}
use tapr.Base.Dict.{Dict}
use tapr.Base.Http.{HttpReply}
use tapr.Base.Effect.{
  Error, failure, Result, ok, err, Eff, ◌>>=◌, chain, pure, fail, catching, resolve, for_each,
}
use tapr.Backup.Types.{Password}
use tapr.Backup.Services.{read_key, get_var_value}

-- What a MiddlewareRequest says of RabbitMQ.
pub record RabbitRequest : Type 0 where
  pub namespace : String
  pub app_namespace : String
  pub user : String
  pub password : Password
  pub vhosts : List String

-- The calls of Kubernetes and of the client; `update_permissions` gives all permissions.
pub record RabbitPlatform (W : Type 0) : Type 0 where
  pub secret : String → String → Eff W (Dict String String)
  pub connect : String → String → Eff W (Unit {0})
  pub put_user : String → String → Eff W (HttpReply (Unit {0}))
  pub put_vhost : String → Eff W (HttpReply (Unit {0}))
  pub update_permissions : String → String → Eff W (HttpReply (Unit {0}))
  pub clear_permissions : String → String → Eff W (HttpReply (Unit {0}))
  pub delete_user : String → Eff W (HttpReply (Unit {0}))
  pub delete_vhost : String → Eff W (HttpReply (Unit {0}))

-- `GetVhostName`
unfoldable pub get_vhost_name : String → String → String
get_vhost_name namespace vhost = namespace <> "-" <> vhost

unfoldable pub vhost_names : RabbitRequest → List String
unfolding get_vhost_name
vhost_names req = map (get_vhost_name req.app_namespace) req.vhosts

module _ {W : Type 0} where
  -- 201 or 204.
  unfoldable pub stored : String → HttpReply (Unit {0}) → Eff W (Unit {0})
  stored text reply =
      if reply.status == 201 || reply.status == 204
      then pure tt
      else fail (failure (text <> reply.body))

  -- 404 or 204.
  unfoldable pub removed : String → HttpReply (Unit {0}) → Eff W (Unit {0})
  removed text reply =
      if reply.status == 404
      then pure tt
      else if reply.status == 204
      then pure tt
      else fail (failure (text <> reply.body))

  -- An error is wrapped by its text only.
  unfoldable pub described : {A : Type 0} → String → Eff W A → Eff W A
  described text m = catching m pure λ e. fail (failure (text <> e.text))

module _ {W : Type 0} (platform : RabbitPlatform W) where
  -- `newRabbitMQClient` with `FindRabbitMQAdminUser`
  unfoldable pub new_rabbit_client : Eff W (Unit {0})
  new_rabbit_client =
      platform.secret "rabbitmq-middleware" "rabbitmq-rabbitmq-account-root" >>= λ entries.
      platform.connect (read_key "username" entries) (read_key "password" entries)

  -- `createOrUpdateRabbitUser`
  unfoldable pub create_or_update_rabbit_user : String → String → Eff W (Unit {0})
  create_or_update_rabbit_user user password =
      platform.put_user user password >>= stored "create user failed "

  -- `ensureRabbitVhost`
  unfoldable pub ensure_rabbit_vhost : String → Eff W (Unit {0})
  ensure_rabbit_vhost vhost =
      described ("failed to put vhost " <> vhost <> ", ") (platform.put_vhost vhost)
      >>= stored "create vhost failed "

  -- `setRabbitPermissions`
  unfoldable pub set_rabbit_permissions : String → String → Eff W (Unit {0})
  set_rabbit_permissions user vhost =
      described ("failed to update vhost " <> vhost <> " user " <> user <> " ")
        (platform.update_permissions vhost user)
      >>= stored "set permission failed "

  unfoldable pub ensure_with_permissions : String → String → Eff W (Unit {0})
  ensure_with_permissions user vhost =
      ensure_rabbit_vhost vhost >>= λ u. set_rabbit_permissions user vhost

  -- `createOrUpdateRabbitMQRequest`
  unfoldable pub create_or_update_rabbit_request : RabbitRequest → Eff W (Unit {0})
  create_or_update_rabbit_request req = new_rabbit_client >>= λ u.
      get_var_value platform.secret req.namespace req.password >>= λ password.
      create_or_update_rabbit_user req.user password >>= λ u.
      for_each (ensure_with_permissions req.user) (vhost_names req)

  -- `deleteRabbitPermissions`
  unfoldable pub delete_rabbit_permissions : String → String → Eff W (Unit {0})
  delete_rabbit_permissions user vhost =
      described ("failed to clear permission user " <> user <> " vhost " <> vhost <> " ")
        (platform.clear_permissions vhost user)
      >>= removed "delete permission failed "

  -- `deleteRabbitVhost`
  unfoldable pub delete_rabbit_vhost : String → Eff W (Unit {0})
  delete_rabbit_vhost vhost =
      described ("failed to delete vhost " <> vhost <> " ") (platform.delete_vhost vhost)
      >>= removed ("delete vhost " <> vhost <> " failed ")

  -- `deleteRabbitUser`
  unfoldable pub delete_rabbit_user : String → Eff W (Unit {0})
  delete_rabbit_user user =
      described ("failed to delete user " <> user <> " ") (platform.delete_user user)
      >>= removed ("delete user " <> user <> " failed ")

  unfoldable pub delete_with_permissions : String → String → Eff W (Unit {0})
  delete_with_permissions user vhost = delete_rabbit_permissions user vhost >>= λ u.
      described ("failed to delete vhost " <> vhost <> " ") (delete_rabbit_vhost vhost)

  unfoldable pub delete_with_client : RabbitRequest → Eff W (Unit {0})
  delete_with_client req = for_each (delete_with_permissions req.user) (vhost_names req) >>= λ u.
      described ("failed to delete rabbitmq user " <> req.user <> " ") (delete_rabbit_user req.user)

  -- `deleteRabbitMQRequest`: without the administrator's secret there is nothing to clean up.
  unfoldable pub delete_rabbit_request : RabbitRequest → Eff W (Unit {0})
  delete_rabbit_request req =
      catching new_rabbit_client (λ u. delete_with_client req)
        λ e. if e.not_found then pure tt else fail e
