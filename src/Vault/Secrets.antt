-- ===== src/Vault/Secrets.antt =====
-- The clients of pkg/vault/infisical/controllers: `secretClient` (secret.go), `workspaceClient`
-- (workspace.go) and `GetUserOrganizationId` (user.go), over an arbitrary Infisical server.
pub mod Laws
pub mod Roundtrip
use tapr.Base.{
  ℕ, String, ◌<>◌, Bool, Option, none, some, List, [], ◌∷◌, if◌then◌else◌, ◌==◌, string_eq, nat_eq,
  starts_with, map,
}
use tapr.Base.Dict.{Dict}
use tapr.Base.Effect.{
  Error, failure, Result, ok, err, Eff, ◌>>=◌, chain, pure, fail, catching, resolve, for_each,
}
use tapr.Base.Http.{HttpReply}
use tapr.Backup.Services.{read_key}
use tapr.Vault.Crypto.{Crypto, Sealed, encrypt, decrypt, decrypt_asymmetric}

pub record Workspace : Type 0 where
  pub id : String
  pub name : String

pub record EncryptedKey : Type 0 where
  pub encrypted_key : String
  pub nonce : String
  pub sender : String

-- Where a secret stands; every call says that its type is "shared".
pub record Place : Type 0 where
  pub workspace : String
  pub environment : String
  pub name : String

-- A secret as the server has it. A name that an update does not send is `none`.
pub record SecretBody : Type 0 where
  pub key : Option Sealed
  pub value : Sealed

-- The requests, by token. A secret comes as the texts of its JSON object.
pub record Infisical (W : Type 0) : Type 0 where
  pub crypto : Crypto W
  pub organizations : String → Eff W (HttpReply (List String))
  pub workspaces : String → String → Eff W (HttpReply (List Workspace))
  pub post_workspace : String → String → Eff W (HttpReply (Option Workspace))
  pub delete_workspace : String → String → Eff W (HttpReply (Unit {0}))
  pub encrypted_key : String → String → Eff W (HttpReply EncryptedKey)
  pub post_secret : String → Place → SecretBody → Eff W (HttpReply (Unit {0}))
  pub get_secret : String → Place → Eff W (HttpReply (Dict String String))
  pub list_secrets : String → String → String → Eff W (HttpReply (List (Dict String String)))
  pub patch_secret : String → Place → SecretBody → Eff W (HttpReply (Unit {0}))
  pub delete_secret : String → Place → Eff W (HttpReply (Unit {0}))

-- `DefaulSecretEnv`
unfoldable pub environment_of : String → String
environment_of env = if env == "" then "prod" else env

unfoldable pub place_of : String → String → String → Place
unfolding environment_of
place_of workspace env name = record {
  workspace = workspace;
  environment = environment_of env;
  name = name;
}

-- `UserWorkspaceName`
unfoldable pub user_workspace_name : String → String → String
user_workspace_name workflow user = workflow <> "-" <> user

-- `IsNotFound`
unfoldable pub is_not_found : Error → Bool
is_not_found e = starts_with e.text "not found"

module _ {W : Type 0} where
  -- The check of the status.
  unfoldable pub accepted : {A : Type 0} → HttpReply A → Eff W A
  accepted reply = if reply.status == 200 then pure reply.value else fail (failure reply.body)

  unfoldable pub first_id : List String → Eff W String
  first_id [] = fail (failure "user doesn't has organizations")
  first_id (id ∷ ids) = pure id

  unfoldable pub find_workspace : String → List Workspace → Eff W String
  find_workspace name [] = fail (failure ("not found the workspace: " <> name))
  find_workspace name (w ∷ ws) = if w.name == name then pure w.id else find_workspace name ws

  -- An empty list has an error of its own.
  unfoldable pub among : (List Workspace → Eff W String) → List Workspace → Eff W String
  among f [] = fail (failure "not found the workspaces of user org")
  among f (w ∷ ws) = f (w ∷ ws)

  unfoldable pub names_among : List Workspace → Eff W (List String)
  names_among [] = fail (failure "not found the workspaces of user org")
  names_among (w ∷ ws) = pure (map (λ (x : Workspace). x.name) (w ∷ ws))

  -- A project that the answer does not name is followed as a nil pointer.
  unfoldable pub project_id : Option Workspace → Eff W String
  project_id none = fail (failure "nil pointer dereference")
  project_id (some w) = pure w.id

-- The parts of a secret in its JSON object.
unfoldable pub key_of : Dict String String → Sealed
key_of r = record {
  ciphertext = read_key "secretKeyCiphertext" r;
  iv = read_key "secretKeyIV" r;
  tag = read_key "secretKeyTag" r;
}

unfoldable pub value_of : Dict String String → Sealed
value_of r = record {
  ciphertext = read_key "secretValueCiphertext" r;
  iv = read_key "secretValueIV" r;
  tag = read_key "secretValueTag" r;
}

module _ {W : Type 0} (server : Infisical W) where
  -- `GetUserOrganizationId`
  unfoldable pub get_user_organization_id : String → Eff W String
  unfolding accepted first_id
  get_user_organization_id token = server.organizations token >>= accepted >>= first_id

  -- `GetWorkspace`
  unfoldable pub get_workspace : String → String → String → Eff W String
  unfolding accepted among find_workspace
  get_workspace token org name =
      server.workspaces token org >>= accepted >>= among (find_workspace name)

  -- `ListWorkspace`
  unfoldable pub list_workspace : String → String → Eff W (List String)
  unfolding accepted names_among
  list_workspace token org = server.workspaces token org >>= accepted >>= names_among

  unfoldable pub create_project : String → String → Eff W String
  unfolding accepted project_id
  create_project token name = server.post_workspace token name >>= accepted >>= project_id

  -- `CreateWorkspace`: its mutex lets one client create at a time.
  unfoldable pub create_workspace : String → String → String → Eff W String
  unfolding get_workspace create_project is_not_found
  create_workspace token org name =
      catching (get_workspace token org name) pure
        λ e. if is_not_found e then create_project token name else fail e

  -- `DeleteWorkspace`
  unfoldable pub delete_workspace : String → String → Eff W (Unit {0})
  unfolding accepted
  delete_workspace token id = server.delete_workspace token id >>= accepted

  -- `GetWorkspaceKey`
  unfoldable pub get_workspace_key : String → String → String → Eff W String
  unfolding accepted decrypt_asymmetric
  get_workspace_key token id private_key = server.encrypted_key token id >>= accepted >>= λ key.
      decrypt_asymmetric server.crypto key.encrypted_key key.nonce key.sender private_key

  -- `CreateSecretInWorkspace`
  unfoldable pub create_secret_in_workspace :
      String → String → String → String → String → String → Eff W (Unit {0})
  unfolding accepted place_of
  create_secret_in_workspace token workspace project_key name value env =
      encrypt server.crypto name project_key >>= λ key.
      encrypt server.crypto value project_key >>= λ sealed.
      server.post_secret token (place_of workspace env name)
        (record { key = some key; value = sealed })
      >>= accepted

  -- The name and the value of a secret.
  unfoldable pub decrypted : String → Dict String String → Eff W (String × String)
  unfolding key_of value_of
  decrypted project_key r = decrypt server.crypto (key_of r) project_key >>= λ name.
      decrypt server.crypto (value_of r) project_key >>= λ value. pure (name, value)

  -- `GetSecretInWorkspace`
  unfoldable pub get_secret_in_workspace :
      String → String → String → String → String → Eff W (String × String)
  unfolding accepted place_of
  get_secret_in_workspace token workspace project_key env name =
      server.get_secret token (place_of workspace env name) >>= accepted >>= decrypted project_key

  unfoldable pub decrypted_all : String → List (Dict String String) → Eff W (List (String × String))
  unfolding decrypted
  decrypted_all project_key [] = pure []
  decrypted_all project_key (r ∷ rs) = decrypted project_key r >>= λ secret.
      decrypted_all project_key rs >>= λ secrets. pure (secret ∷ secrets)

  -- `ListSecretInWorkspace`
  unfoldable pub list_secret_in_workspace :
      String → String → String → String → Eff W (List (String × String))
  unfolding accepted decrypted_all environment_of
  list_secret_in_workspace token workspace project_key env =
      server.list_secrets token workspace (environment_of env)
      >>= accepted
      >>= decrypted_all project_key

  -- `DeleteSecretInWorkspace`
  unfoldable pub delete_secret_in_workspace : String → String → String → String → Eff W (Unit {0})
  unfolding accepted place_of
  delete_secret_in_workspace token workspace env name =
      server.delete_secret token (place_of workspace env name) >>= accepted

  -- `UpdateSecretInWorkspace`
  unfoldable pub update_secret_in_workspace :
      String → String → String → String → String → String → Eff W (Unit {0})
  unfolding accepted place_of
  update_secret_in_workspace token workspace project_key name value env =
      encrypt server.crypto value project_key >>= λ sealed.
      server.patch_secret token (place_of workspace env name)
        (record { key = none; value = sealed })
      >>= accepted
