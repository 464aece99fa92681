-- ===== src/Minio.antt =====
-- What a MiddlewareRequest for MinIO makes of users, buckets and policies:
-- cmd/middleware/operator/middleware-request/handler_minio.go, with pkg/workload/minio/helper.go.
pub mod Laws
pub mod Policy
pub mod Create
pub mod Delete
mod Tests
use tapr.Base.{
  String, ◌<>◌, Bool, true, false, Option, none, some, List, [], ◌∷◌, ◌++◌, if◌then◌else◌, ◌==◌,
  string_eq, contains, starts_with, map, not,
}
use tapr.Base.Dict.{Dict}
use tapr.Base.Effect.{
  Error, failure, Result, ok, err, Eff, ◌>>=◌, chain, pure, fail, ignoring, catching, resolve,
  for_each, lift,
}
use tapr.Backup.Types.{Password}
use tapr.Backup.Services.{always, read_key, get_var_value}

-- What a MiddlewareRequest says of MinIO.
pub record MinioRequest : Type 0 where
  pub namespace : String
  pub app_namespace : String
  pub user : String
  pub password : Password
  pub buckets : List String
  pub allow_namespace_buckets : Bool

-- A statement of a policy; its effect is "Allow".
pub record Grant : Type 0 where
  pub actions : List String
  pub resources : List String

-- The calls of Kubernetes and of MinIO's two clients. `list_objects` is what the channel delivers.
pub record MinioPlatform (W : Type 0) : Type 0 where
  pub secret : String → String → Eff W (Dict String String)
  pub connect : String → String → String → Eff W (Unit {0})
  pub connect_admin : String → String → String → Eff W (Unit {0})
  pub add_user : String → String → Eff W (Unit {0})
  pub list_users : Eff W (List String)
  pub remove_user : String → Eff W (Unit {0})
  pub make_bucket : String → Eff W (Unit {0})
  pub bucket_exists : String → Eff W Bool
  pub list_buckets : Eff W (List String)
  pub remove_bucket : String → Eff W (Unit {0})
  pub list_objects : String → W → W × List (Result String)
  pub remove_object : String → String → Eff W (Unit {0})
  pub marshal : List Grant → Result String
  pub add_canned_policy : String → String → Eff W (Unit {0})
  pub set_policy : String → String → Eff W (Unit {0})
  pub remove_canned_policy : String → Eff W (Unit {0})

-- `GetBucketName`
unfoldable pub get_bucket_name : String → String → String
get_bucket_name namespace db = namespace <> "-" <> db

unfoldable pub policy_name : MinioRequest → String
policy_name req = req.user <> "-policy"

unfoldable pub bucket_names : MinioRequest → List String
unfolding get_bucket_name
bucket_names req = map (get_bucket_name req.app_namespace) req.buckets

abbrev pub arn : String
arn = "arn:aws:s3:::"

unfoldable pub bucket_resources : List String → List String
bucket_resources [] = []
bucket_resources (b ∷ bs) = (arn <> b) ∷ (arn <> b <> "/*") ∷ bucket_resources bs

-- The statements of `setBucketPolicyForUser`.
unfoldable pub policy_of : MinioRequest → List String → List Grant
unfolding bucket_resources
policy_of req buckets =
    let listing : Grant = record {
      actions = "s3:ListAllMyBuckets" ∷ "s3:HeadBucket" ∷ "s3:GetBucketLocation" ∷ [];
      resources = (arn <> "*") ∷ [];
    } in
    let own : Grant = record { actions = "s3:*" ∷ []; resources = bucket_resources buckets } in
    let prefixed : Grant = record {
      actions = "s3:*" ∷ [];
      resources = (arn <> req.app_namespace <> "-*") ∷ [];
    } in
    let objects : Grant = record {
      actions = "s3:*" ∷ [];
      resources = (arn <> req.app_namespace <> "-*/*") ∷ [];
    } in
    (listing ∷ own ∷ []) ++ (if req.allow_namespace_buckets then prefixed ∷ objects ∷ [] else [])

module _ {W A : Type 0} where
  -- `fmt.Errorf` with `%w`, which keeps what the error is, and with `%v`, which does not.
  unfoldable pub wrapping : String → Eff W A → Eff W A
  wrapping text m =
      catching m pure λ e. fail (record { not_found = e.not_found; text = text <> e.text })

  unfoldable pub describing : String → Eff W A → Eff W A
  describing text m = catching m pure λ e. fail (failure (text <> e.text))

abbrev pub minio_endpoint : String
minio_endpoint = "minio-minio.minio-middleware.svc.cluster.local:9000"

module _ {W : Type 0} (platform : MinioPlatform W) where
  -- `FindMinioAdminUser`
  unfoldable pub find_minio_admin_user : String → Eff W (String × String)
  find_minio_admin_user namespace =
      platform.secret namespace "minio-minio-account-root" >>= λ entries.
      pure (read_key "username" entries, read_key "password" entries)

  unfoldable pub connect_both : String × String → Eff W (Unit {0})
  connect_both (user, password) =
      wrapping "failed to create minio client: " (platform.connect minio_endpoint user password)
      >>= λ u.
          describing "failed to create minio admin client: "
            (platform.connect_admin minio_endpoint user password)

  -- `createOrUpdateMinioUser`
  unfoldable pub create_or_update_minio_user : String → String → Eff W (Unit {0})
  create_or_update_minio_user user password =
      describing "failed to add/update user: " (platform.add_user user password)

  unfoldable pub unless_exists : String → Error → Bool → Eff W (Unit {0})
  unless_exists name e true = pure tt
  unless_exists name e false = fail (record {
    not_found = e.not_found;
    text = "failed to create bucket " <> name <> ": " <> e.text;
  })

  -- A bucket that cannot be made is looked up.
  unfoldable pub make_bucket : String → Eff W (Unit {0})
  make_bucket name = catching (platform.make_bucket name) pure λ e.
      wrapping ("failed to check bucket name: " <> name <> ", existence: ")
        (platform.bucket_exists name)
      >>= unless_exists name e

  -- `setBucketPolicyForUser`
  unfoldable pub set_bucket_policy_for_user : List String → MinioRequest → Eff W (Unit {0})
  set_bucket_policy_for_user buckets req =
      wrapping "failed to marshal bucket policy: " (lift (platform.marshal (policy_of req buckets)))
      >>= λ policy.
          wrapping "failed to add canned policy: "
            (platform.add_canned_policy (policy_name req) policy)
          >>= λ u.
              describing
                ("failed to set policy: "
                  <> policy_name req
                  <> " for user: "
                  <> req.user
                  <> ", err ")
                (platform.set_policy (policy_name req) req.user)

  -- `createOrUpdateMinioRequest`
  unfoldable pub create_or_update_minio_request : MinioRequest → Eff W (Unit {0})
  create_or_update_minio_request req =
      wrapping "failed to find minio admin credentials: " (find_minio_admin_user "minio-middleware")
      >>= connect_both
      >>= λ u.
          wrapping "failed to get user password: "
            (get_var_value platform.secret req.namespace req.password)
          >>= λ password.
              wrapping "failed to create or update minio user: "
                (create_or_update_minio_user req.user password)
              >>= λ u. for_each make_bucket (bucket_names req) >>= λ u.
                  wrapping "failed to set bucket policy: "
                    (set_bucket_policy_for_user (bucket_names req) req)

  unfoldable pub remove_listed : String → Result String → Eff W (Unit {0})
  remove_listed bucket (ok key) = ignoring (platform.remove_object bucket key) (pure tt)
  remove_listed bucket (err e) = fail e

  -- `removeAllObjectsInBucket`
  unfoldable pub remove_all_objects_in_bucket : String → Eff W (Unit {0})
  remove_all_objects_in_bucket bucket =
      always (platform.list_objects bucket) >>= for_each (remove_listed bucket)

  -- A failure is only logged.
  unfoldable pub delete_bucket : String → Eff W (Unit {0})
  delete_bucket name =
      ignoring (remove_all_objects_in_bucket name)
        (ignoring (platform.remove_bucket name) (pure tt))

  unfoldable pub delete_if_prefixed : String → String → Eff W (Unit {0})
  delete_if_prefixed prefix name = if starts_with name prefix then delete_bucket name else pure tt

  -- The buckets of the namespace that the request does not name.
  unfoldable pub delete_prefixed : MinioRequest → Eff W (Unit {0})
  delete_prefixed req =
      if req.allow_namespace_buckets
      then catching platform.list_buckets (for_each (delete_if_prefixed (req.app_namespace <> "-")))
          (λ e. pure tt)
      else pure tt

  -- `deleteMinioUser`
  unfoldable pub delete_minio_user : String → Eff W (Unit {0})
  delete_minio_user user = describing "failed to list users: " platform.list_users >>= λ users.
      if contains users user
      then describing ("failed to remove user " <> user <> ": ") (platform.remove_user user)
      else pure tt

  unfoldable pub delete_with_admin : MinioRequest → String × String → Eff W (Unit {0})
  delete_with_admin req admin = connect_both admin >>= λ u.
      for_each delete_bucket (bucket_names req) >>= λ u. delete_prefixed req >>= λ u.
      wrapping "failed to delete minio user: " (delete_minio_user req.user) >>= λ u.
      ignoring (platform.remove_canned_policy (policy_name req)) (pure tt)

  -- `deleteMinioRequest`: without the admin's secret there is nothing to clean up.
  unfoldable pub delete_minio_request : MinioRequest → Eff W (Unit {0})
  delete_minio_request req =
      catching (find_minio_admin_user "minio-middleware") (delete_with_admin req) λ e.
        if e.not_found
        then pure tt
        else fail (failure ("failed to find minio admin credentials: " <> e.text))
