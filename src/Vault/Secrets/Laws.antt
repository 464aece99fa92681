-- ===== src/Vault/Secrets/Laws.antt =====
-- The secrets of a workspace, against the table that the server keeps of them.
use tapr.Base.{
  ℕ, String, true, Option, none, some, ◌≡◌, refl, ap, ◌==◌, string_eq, nat_eq, Bool-cases, inl, inr,
  arith,
}
use tapr.Base.Dict.{Dict}
use tapr.Base.Effect.{
  Result, ok, err, ◌>>=◌, chain, Post, Ensures, Ensures->>=, Ensures-with, Ensures-weaken,
}
use tapr.Vault.Crypto.{Bytes, Sealed, encrypt}
use tapr.Vault.Crypto.Laws.{IsCrypto, Decrypts, encrypt-Ensures, world-encrypt}
use tapr.Base.Http.{HttpReply}
use tapr.Vault.Secrets.{
  Place, Infisical, place_of, accepted, key_of, value_of, create_secret_in_workspace,
  get_secret_in_workspace, update_secret_in_workspace, decrypted,
}

-- The secrets that the server has: the name and the value of each, encrypted.
abbrev pub SecretTable : Type 0 → Type 0
SecretTable W = W → Place → Option (Sealed × Sealed)

-- What the server is documented to do with a secret if it answers 200.
pub record IsInfisical {W : Type 0} (table : SecretTable W) (server : Infisical W) : Type 0 where
  pub post_stores :
      (token : String) (p : Place) (k v : Sealed) (s t : W) (reply : HttpReply (Unit {0}))
      → server.post_secret token p (record { key = some k; value = v }) s ≡ (t, ok reply)
      → reply.status ≡ 200
      → table t p ≡ some (k, v)
  pub get_finds :
      (token : String) (p : Place) (s t : W) (reply : HttpReply (Dict String String))
      → server.get_secret token p s ≡ (t, ok reply)
      → reply.status ≡ 200
      → table s p ≡ some (key_of reply.value, value_of reply.value)
  pub patch_stores :
      (token : String) (p : Place) (v : Sealed) (s t : W) (reply : HttpReply (Unit {0}))
      → server.patch_secret token p (record { key = none; value = v }) s ≡ (t, ok reply)
      → reply.status ≡ 200
      → (k v' : Sealed) → table s p ≡ some (k, v')
      → table t p ≡ some (k, v)
  pub random_quiet : (n : ℕ) (s : W) → table (server.crypto.random n s).0 ≡ table s

module _ {W : Type 0} (table : SecretTable W) (server : Infisical W) (public : Bytes → Bytes)
    (crypto_laws : IsCrypto server.crypto public) (laws : IsInfisical table server) where
  -- The server has the secret, and the key opens it.
  abbrev pub Holds : String → Place → String → String → W → Type 0
  Holds project_key p name value w =
      (k : Sealed) × (v : Sealed) × (table w p ≡ some (k, v))
      × Decrypts crypto_laws name project_key k
      × Decrypts crypto_laws value project_key v

  is_200 : (n : ℕ) → (n == 200) ≡ true → n ≡ 200
  unfolding nat_eq
  is_200 n e = ground arith

  -- A call whose answer is checked: what holds if it was accepted.
  accepted_Post :
      {A : Type 0} (Q : A → W → Type 0) (t : W) (r : Result (HttpReply A))
      → ((reply : HttpReply A) → r ≡ ok reply → reply.status ≡ 200 → Q reply.value t)
      → Post Q (λ u. Unit {0}) (chain (t, r) accepted)
  unfolding accepted
  accepted_Post Q t (err e) h = tt
  accepted_Post Q t (ok reply) h = elim (Bool-cases (reply.status == 200)) [
    | inl e ↦ rw e (h reply refl (is_200 reply.status e))
    | inr e ↦ rw e tt
  ]

  post-Ensures :
      (token : String) (p : Place) (k v : Sealed)
      → Ensures
          (λ w. Unit {0})
          (server.post_secret token p (record { key = some k; value = v }) >>= accepted)
          (λ u w. table w p ≡ some (k, v))
          (λ w. Unit {0})
  post-Ensures token p k v = record {
    run = λ s h.
        let call : W × Result (HttpReply (Unit {0})) =
          server.post_secret token p (record { key = some k; value = v }) s in
        accepted_Post (λ u w. table w p ≡ some (k, v)) call.0 call.1
          (λ reply e. laws.post_stores token p k v s call.0 reply (ap (λ r. (call.0, r)) e));
  }

  pub create-Holds :
      (token workspace project_key name value env : String)
      → Ensures
          (λ w. Unit {0})
          (create_secret_in_workspace server token workspace project_key name value env)
          (λ u. Holds project_key (place_of workspace env name) name value)
          (λ w. Unit {0})
  unfolding create_secret_in_workspace
  create-Holds token workspace project_key name value env =
      Ensures->>= (encrypt-Ensures crypto_laws name project_key) λ k. Ensures-with λ dk.
        Ensures->>= (encrypt-Ensures crypto_laws value project_key) λ v. Ensures-with λ dv.
          Ensures-weaken (post-Ensures token (place_of workspace env name) k v) (λ w h. h)
            (λ u w e. (k, v, e, dk, dv)) (λ w h. h)

  patch-Ensures :
      (token : String) (p : Place) (k v' v : Sealed)
      → Ensures
          (λ w. table w p ≡ some (k, v'))
          (server.patch_secret token p (record { key = none; value = v }) >>= accepted)
          (λ u w. table w p ≡ some (k, v))
          (λ w. Unit {0})
  patch-Ensures token p k v' v = record {
    run = λ s h.
        let call : W × Result (HttpReply (Unit {0})) =
          server.patch_secret token p (record { key = none; value = v }) s in
        accepted_Post (λ u w. table w p ≡ some (k, v)) call.0 call.1
          (λ reply e ok_status.
            laws.patch_stores token p v s call.0 reply (ap (λ r. (call.0, r)) e) ok_status k v' h);
  }

  encrypt_Post :
      (D : Sealed → Type 0) (K : W → Type 0) (o : W × Result Sealed)
      → Post (λ c w. D c × Unit {0}) (λ w. Unit {0}) o
      → K o.0
      → Post (λ c w. D c × K w) (λ w. Unit {0}) o
  encrypt_Post D K (w, ok c) h k = (h.0, k)
  encrypt_Post D K (w, err e) h k = tt

  encrypt-kept :
      (p : Place) (x : Option (Sealed × Sealed)) (text project_key : String)
      → Ensures
          (λ w. table w p ≡ x)
          (encrypt server.crypto text project_key)
          (λ c w. Decrypts crypto_laws text project_key c × (table w p ≡ x))
          (λ w. Unit {0})
  encrypt-kept p x text project_key = record {
    run = λ s h.
        encrypt_Post (Decrypts crypto_laws text project_key) (λ w. table w p ≡ x)
          (encrypt server.crypto text project_key s)
          ((encrypt-Ensures crypto_laws text project_key).run s tt)
          (rw (world-encrypt server.crypto text project_key s) (rw (laws.random_quiet 16 s) h));
  }

  updated-Holds :
      (token workspace project_key name value env : String) (k v' : Sealed)
      → Decrypts crypto_laws name project_key k
      → Ensures
          (λ w. table w (place_of workspace env name) ≡ some (k, v'))
          (update_secret_in_workspace server token workspace project_key name value env)
          (λ u. Holds project_key (place_of workspace env name) name value)
          (λ w. Unit {0})
  unfolding update_secret_in_workspace
  updated-Holds token workspace project_key name value env k v' dk =
      Ensures->>= (encrypt-kept (place_of workspace env name) (some (k, v')) value project_key) λ v.
        Ensures-with λ dv.
          Ensures-weaken (patch-Ensures token (place_of workspace env name) k v' v) (λ w h. h)
            (λ u w e. (k, v, e, dk, dv)) (λ w h. h)

  pub update-Holds :
      (token workspace project_key name old value env : String)
      → Ensures
          (Holds project_key (place_of workspace env name) name old)
          (update_secret_in_workspace server token workspace project_key name value env)
          (λ u. Holds project_key (place_of workspace env name) name value)
          (λ w. Unit {0})
  update-Holds token workspace project_key name old value env = record {
    run = λ s (k, v', e, dk, dv').
        (updated-Holds token workspace project_key name value env k v' dk).run s e;
  }

  decrypted_lem :
      (project_key name value : String) (r : Dict String String) (u : W)
      → Decrypts crypto_laws name project_key (key_of r)
      → Decrypts crypto_laws value project_key (value_of r)
      → decrypted server project_key r u ≡ (u, ok (name, value))
  unfolding decrypted
  decrypted_lem project_key name value r u dk dv = rw (dk u) (rw (dv u) refl)

  -- Whoever asks for a secret that the server holds gets its name and value, if the server answers.
  pub get-Holds :
      (token workspace project_key name value env : String) (u v : W)
      (reply : HttpReply (Dict String String))
      → Holds project_key (place_of workspace env name) name value u
      → server.get_secret token (place_of workspace env name) u ≡ (v, ok reply)
      → reply.status ≡ 200
      → get_secret_in_workspace server token workspace project_key env name u
        ≡ (v, ok (name, value))
  unfolding get_secret_in_workspace accepted nat_eq
  get-Holds token workspace project_key name value env u v reply (k, sealed, e, dk, dv) asked good =
      let found : table u (place_of workspace env name)
          ≡ some (key_of reply.value, value_of reply.value) =
        laws.get_finds token (place_of workspace env name) u v reply asked good in
      let keys : k ≡ key_of reply.value = cc in
      let values : sealed ≡ value_of reply.value = cc in
      rw asked (
        rw good
          (decrypted_lem project_key name value reply.value v (rw keys at dk) (rw values at dv)))
