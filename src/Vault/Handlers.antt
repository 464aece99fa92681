-- ===== src/Vault/Handlers.antt =====
-- The handlers of `secretController` (pkg/vault/infisical/controllers/secret.go). The values that the
-- middleware puts into the context are there; only the token may be missing.
use tapr.Base.{ℕ, String, ◌<>◌, Option, none, some, List, if◌then◌else◌, ◌==◌, string_eq, map}
use tapr.Base.Effect.{failure, Result, ok, err, Eff, pure, fail, catching}
use tapr.Vault.Secrets.{
  Infisical, user_workspace_name, is_not_found, get_workspace, create_workspace, get_workspace_key,
  create_secret_in_workspace, get_secret_in_workspace, list_secret_in_workspace,
  delete_secret_in_workspace, update_secret_in_workspace,
}

-- `Secret`
pub record Secret : Type 0 where
  pub name : String
  pub value : String
  pub environment : String

-- A request: its body as it was decoded, and the values of its context.
pub record SecretRequest : Type 0 where
  pub token : Option String
  pub body : Result Secret
  pub workspace : String
  pub org : String
  pub private_key : String
  pub user_name : String

-- An answer: nothing, a code with a message, or secrets.
pub data Answered : Type 0 where
  silent : Answered
  message : ℕ → String → Answered
  one : Secret → Answered
  many : List Secret → Answered

module _ {W : Type 0} where
  -- An error is told to the client.
  unfoldable pub telling : {A : Type 0} → String → Eff W A → (A → Eff W Answered) → Eff W Answered
  telling text m k = catching m k λ e. pure (message 500 (text <> e.text))

  unfoldable pub in_workspace :
      SecretRequest → (String → Secret → Eff W Answered) → String → Secret → Eff W Answered
  in_workspace req k token secret =
      if req.workspace == ""
      then pure (message 400 "invalid request, none of the workspace param")
      else k token secret

  unfoldable pub with_body : Result Secret → (Secret → Eff W Answered) → Eff W Answered
  with_body (ok secret) k = k secret
  with_body (err e) k = fail e

  unfoldable pub with_token : Option String → (String → Eff W Answered) → Eff W Answered
  with_token none k = fail (failure "no auth token")
  with_token (some token) k = k token

  -- The checks that every handler starts with.
  unfoldable pub checked_request :
      SecretRequest → (String → Secret → Eff W Answered) → Eff W Answered
  unfolding in_workspace with_body with_token
  checked_request req k =
      with_token req.token λ token. with_body req.body λ secret. in_workspace req k token secret

unfoldable pub workspace_of : SecretRequest → String
unfolding user_workspace_name
workspace_of req = user_workspace_name req.workspace req.user_name

module _ {W : Type 0} (server : Infisical W) where
  unfoldable pub with_key :
      SecretRequest → String → (String → Eff W Answered) → String → Eff W Answered
  unfolding get_workspace_key telling
  with_key req token k id =
      telling "get user workspace key error, " (get_workspace_key server token id req.private_key) k

  -- The workspace of the request, which is created if it is not found.
  unfoldable pub or_created : SecretRequest → String → (String → Eff W Answered) → Eff W Answered
  unfolding get_workspace create_workspace is_not_found telling workspace_of
  or_created req token k = catching (get_workspace server token req.org (workspace_of req)) k λ e.
      if is_not_found e
      then telling "create user workspace error, "
          (create_workspace server token req.org (workspace_of req)) k
      else pure (message 500 ("get user workspace error, " <> e.text))

  -- The workspace of the request and its key.
  unfoldable pub in_found :
      SecretRequest → String → (String → String → Eff W Answered) → Eff W Answered
  unfolding get_workspace telling with_key workspace_of
  in_found req token k =
      telling "get user workspace error, " (get_workspace server token req.org (workspace_of req))
        λ id. with_key req token (k id) id

  -- `CreateSecret`, which answers nothing when it succeeds.
  unfoldable pub create_secret : SecretRequest → Eff W Answered
  unfolding checked_request or_created with_key create_secret_in_workspace telling
  create_secret req = checked_request req λ token secret. or_created req token λ id.
      with_key req token
        (λ project_key.
          telling "create user secret error, "
            (create_secret_in_workspace server token id project_key secret.name secret.value
              secret.environment)
            λ u. pure silent)
        id

  -- `RetrieveSecret`
  unfoldable pub retrieve_secret : SecretRequest → Eff W Answered
  unfolding checked_request in_found get_secret_in_workspace telling
  retrieve_secret req = checked_request req λ token secret. in_found req token λ id project_key.
      telling "retrieve secret key error, "
        (get_secret_in_workspace server token id project_key secret.environment secret.name)
        λ (name, value).
          pure (one (record { name = name; value = value; environment = secret.environment }))

  -- `ListSecret`
  unfoldable pub list_secret : SecretRequest → Eff W Answered
  unfolding checked_request in_found list_secret_in_workspace telling
  list_secret req = checked_request req λ token secret. in_found req token λ id project_key.
      telling "list secret keys error, "
        (list_secret_in_workspace server token id project_key secret.environment)
        λ all. pure (
          many (
            map
              (λ (p : String × String).
                let s : Secret = record {
                  name = p.0;
                  value = p.1;
                  environment = secret.environment;
                } in
                s)
              all))

  -- `DeleteSecret`
  unfoldable pub delete_secret : SecretRequest → Eff W Answered
  unfolding checked_request in_found delete_secret_in_workspace telling
  delete_secret req = checked_request req λ token secret. in_found req token λ id project_key.
      telling "delete secret error, "
        (delete_secret_in_workspace server token id secret.environment secret.name)
        λ u. pure (message 0 "delete secret succeed")

  -- `UpdateSecret`
  unfoldable pub update_secret : SecretRequest → Eff W Answered
  unfolding checked_request in_found update_secret_in_workspace telling
  update_secret req = checked_request req λ token secret. in_found req token λ id project_key.
      telling "update user secret error, "
        (update_secret_in_workspace server token id project_key secret.name secret.value
          secret.environment)
        λ u. pure (message 0 "update secret succeed")
