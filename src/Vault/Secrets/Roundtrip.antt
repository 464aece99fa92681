-- ===== src/Vault/Secrets/Roundtrip.antt =====
-- A secret that was created or updated is read again.
use tapr.Base.{String, ◌≡◌}
use tapr.Base.Dict.{Dict}
use tapr.Base.Effect.{ok}
use tapr.Vault.Crypto.{Bytes}
use tapr.Vault.Crypto.Laws.{IsCrypto}
use tapr.Base.Http.{HttpReply}
use tapr.Vault.Secrets.{
  Infisical, place_of, create_secret_in_workspace, get_secret_in_workspace,
  update_secret_in_workspace,
}
use tapr.Vault.Secrets.Laws.{SecretTable, IsInfisical, Holds, create-Holds, update-Holds, get-Holds}

module _ {W : Type 0} (table : SecretTable W) (server : Infisical W) (public : Bytes → Bytes)
    (crypto_laws : IsCrypto server.crypto public) (laws : IsInfisical table server)
    (workspace project_key name env : String) where
  -- For ciphers and a server that do what they are documented to do: once a secret was created, and while
  -- the server has it as it was, every retrieval that the server answers returns its name and value.
  pub get_secret-create_secret :
      (token token' value : String) (s t u v : W) (reply : HttpReply (Dict String String))
      → create_secret_in_workspace server token workspace project_key name value env s ≡ (t, ok tt)
      → table u (place_of workspace env name) ≡ table t (place_of workspace env name)
      → server.get_secret token' (place_of workspace env name) u ≡ (v, ok reply)
      → reply.status ≡ 200
      → get_secret_in_workspace server token' workspace project_key env name u
        ≡ (v, ok (name, value))
  get_secret-create_secret token token' value s t u v reply created same asked good =
      let (k, x, e, dk, dx) = kept in
      get-Holds table server public crypto_laws laws token' workspace project_key name value env u v
        reply (k, x, rw same e, dk, dx) asked good
    where
      kept :
          Holds table server public crypto_laws laws project_key
            (place_of workspace env name)
            name
            value
            t
      kept = rw created at (
          (create-Holds table server public crypto_laws laws token workspace project_key name value
              env).run
            s tt)

  -- For ciphers and a server that do what they are documented to do: once a secret that was created
  -- before has been updated, and while the server has it as it was then, every retrieval that the server
  -- answers returns its name and the new value.
  pub get_secret-update_secret :
      (token token' token'' old value : String) (q s r t u v : W)
      (reply : HttpReply (Dict String String))
      → create_secret_in_workspace server token workspace project_key name old env q ≡ (s, ok tt)
      → table r (place_of workspace env name) ≡ table s (place_of workspace env name)
      → update_secret_in_workspace server token' workspace project_key name value env r ≡ (t, ok tt)
      → table u (place_of workspace env name) ≡ table t (place_of workspace env name)
      → server.get_secret token'' (place_of workspace env name) u ≡ (v, ok reply)
      → reply.status ≡ 200
      → get_secret_in_workspace server token'' workspace project_key env name u
        ≡ (v, ok (name, value))
  get_secret-update_secret token token' token'' old value q s r t u v reply created same updated
        same' asked good =
      let (k, x, e, dk, dx) = kept in
      let (k', x', e', dk', dx') = changed (k, x, rw same e, dk, dx) in
      get-Holds table server public crypto_laws laws token'' workspace project_key name value env u
        v reply (k', x', rw same' e', dk', dx') asked good
    where
      kept :
          Holds table server public crypto_laws laws project_key
            (place_of workspace env name)
            name
            old
            s
      kept = rw created at (
          (create-Holds table server public crypto_laws laws token workspace project_key name old
              env).run
            q tt)

      changed :
          Holds table server public crypto_laws laws project_key
            (place_of workspace env name)
            name
            old
            r
          → Holds table server public crypto_laws laws project_key
              (place_of workspace env name)
              name
              value
              t
      changed h = rw updated at (
          (update-Holds table server public crypto_laws laws token' workspace project_key name old
              value env).run
            r h)
