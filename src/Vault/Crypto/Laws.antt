-- ===== src/Vault/Crypto/Laws.antt =====
-- What was encrypted is decrypted again.
use tapr.Base.{
  ℕ, zero, suc, String, some, List, [], ◌∷◌, ◌++◌, ◌≡◌, refl, ap, ◌∙◌, nat_eq, length, take, drop,
  leb, arith, Bool-cases, inl, inr,
}
use tapr.Base.Effect.{
  Result, ok, err, Eff, ◌>>=◌, chain, pure, Post, Ensures, Ensures->>=, Ensures-with, Ensures-pure,
  Ensures-fail, Ensures-if, lift, lift_Ensures,
}
use tapr.Vault.Crypto.{
  Bytes, Crypto, Sealed, split_at, zeros, copied, sealed_of, encrypt, open_checked, decrypt,
  encrypt_asymmetric, opened, decrypt_asymmetric,
}

-- What base64, AES-GCM and the conversions are documented to do. `public` is the public key of a
-- private one.
pub record IsCrypto {W : Type 0} (crypto : Crypto W) (public : Bytes → Bytes) : Type 0 where
  pub text_of-bytes_of : (s : String) → crypto.text_of (crypto.bytes_of s) ≡ s
  pub unbase64-base64 : (b : Bytes) → crypto.unbase64 (crypto.base64 b) ≡ ok b
  pub length-random : (n : ℕ) (s t : W) (b : Bytes) → crypto.random n s ≡ (t, ok b) → length b ≡ n
  pub open-seal :
      (key nonce plain : Bytes)
      → crypto.new_cipher key ≡ ok tt
      → length nonce ≡ 16
      → crypto.open_sealed key nonce (crypto.seal key nonce plain) ≡ ok plain
  pub open_box-seal_box :
      (plain nonce a b : Bytes)
      → length nonce ≡ 24
      → crypto.open_box (crypto.seal_box plain nonce (public b) a) nonce (public a) b ≡ some plain

take-drop {ℓ} : {A : Type ℓ} (n : ℕ) (xs : List A) → take n xs ++ drop n xs ≡ xs
take-drop zero xs = refl
take-drop (suc n) [] = refl
take-drop (suc n) (x ∷ xs) = ap (◌∷◌ x) (take-drop n xs)

-- A copy of something that has the array's length is that thing.
take-append {ℓ} : {A : Type ℓ} (n : ℕ) (xs ys : List A) → length xs ≡ n → take n (xs ++ ys) ≡ xs
take-append zero [] ys e = refl
take-append zero (x ∷ xs) ys e = absurd (omega arith)
take-append (suc n) [] ys e = absurd (omega arith)
take-append (suc n) (x ∷ xs) ys e = ap (◌∷◌ x) (take-append n xs ys (omega arith))

copied_lem : (n : ℕ) (b : Bytes) → length b ≡ n → copied n b ≡ b
unfolding copied
copied_lem n b e = take-append n b (drop (length b) (zeros n)) e

abbrev Top : {S : Type 0} → S → Type 0
Top s = Unit {0}

module _ {W : Type 0} {crypto : Crypto W} {public : Bytes → Bytes}
    (laws : IsCrypto crypto public) where
  random_Post :
      (n : ℕ) (s t : W) (r : Result Bytes)
      → crypto.random n s ≡ (t, r)
      → Post (λ b u. (length b ≡ n) × Unit {0}) Top (t, r)
  random_Post n s t (ok b) e = (laws.length-random n s t b e, tt)
  random_Post n s t (err x) e = tt

  random-Ensures : (n : ℕ) → Ensures Top (crypto.random n) (λ b u. (length b ≡ n) × Unit {0}) Top
  random-Ensures n = record {
    run = λ s p. random_Post n s (crypto.random n s).0 (crypto.random n s).1 refl;
  }

  split_at-Ensures :
      (n : ℕ) (b : Bytes)
      → Ensures {S = W} Top (split_at n b) (λ parts u. (parts.0 ++ parts.1 ≡ b) × Unit {0}) Top
  unfolding split_at
  split_at-Ensures n b =
      Ensures-if (leb n (length b)) (λ e. Ensures-pure (λ s p. (take-drop n b, tt)))
        (λ e. Ensures-fail (λ s p. tt))

  open_checked_lem :
      (key nonce plain : Bytes) (u : W)
      → crypto.new_cipher key ≡ ok tt
      → length nonce ≡ 16
      → open_checked crypto key nonce (crypto.seal key nonce plain) u ≡ (u, ok plain)
  unfolding open_checked nat_eq
  open_checked_lem key nonce plain u k n = rw n (rw (laws.open-seal key nonce plain k n) refl)

  -- It can be read with the same key.
  abbrev pub Decrypts : String → String → Sealed → Type 0
  Decrypts text secret c = (u : W) → decrypt crypto c secret u ≡ (u, ok text)

  sealed_of-Decrypts :
      (text secret : String) (nonce : Bytes) (parts : Bytes × Bytes)
      → length nonce ≡ 16
      → crypto.new_cipher (crypto.bytes_of secret) ≡ ok tt
      → parts.0 ++ parts.1 ≡ crypto.seal (crypto.bytes_of secret) nonce (crypto.bytes_of text)
      → Decrypts text secret (sealed_of crypto nonce parts)
  unfolding decrypt sealed_of
  sealed_of-Decrypts text secret nonce (body, tag) n k e u = rw (laws.unbase64-base64 nonce) (
      rw k (
        rw (laws.unbase64-base64 body) (
          rw (laws.unbase64-base64 tag) (
            rw e (
              rw (open_checked_lem (crypto.bytes_of secret) nonce (crypto.bytes_of text) u k n)
                (rw (laws.text_of-bytes_of text) refl))))))

  pub encrypt-Ensures :
      (text secret : String)
      → Ensures Top (encrypt crypto text secret) (λ c u. Decrypts text secret c × Unit {0}) Top
  unfolding encrypt
  encrypt-Ensures text secret = Ensures->>= (random-Ensures 16) λ nonce. Ensures-with λ n.
      Ensures->>= (lift_Ensures (crypto.new_cipher (crypto.bytes_of secret))) λ u. Ensures-with λ k.
        Ensures->>= (split_at-Ensures _ _) λ parts. Ensures-with λ e.
          Ensures-pure λ s p. (sealed_of-Decrypts text secret nonce parts n (cipher_ok u k) e, tt)
    where
      cipher_ok :
          (u : Unit {0})
          → crypto.new_cipher (crypto.bytes_of secret) ≡ ok u
          → crypto.new_cipher (crypto.bytes_of secret) ≡ ok tt
      cipher_ok tt e = e

  -- The message of one key pair to another.
  pub encrypt_asymmetric-Ensures :
      (text : String) (a b : Bytes)
      → length a ≡ 32
      → length b ≡ 32
      → length (public a) ≡ 32
      → length (public b) ≡ 32
      → Ensures Top
          (encrypt_asymmetric crypto text (crypto.base64 (public b)) (crypto.base64 a))
          (λ c u.
            (v : W)
            → decrypt_asymmetric crypto c.0 c.1 (crypto.base64 (public a)) (crypto.base64 b) v
              ≡ (v, ok text))
          Top
  unfolding encrypt_asymmetric decrypt_asymmetric opened
  encrypt_asymmetric-Ensures text a b la lb lpa lpb = Ensures->>= (random-Ensures 24) λ nonce.
      Ensures-with λ n. rw (laws.unbase64-base64 (public b)) (
        rw (laws.unbase64-base64 a) (
          Ensures-pure λ s p v.
            rw (copied_lem 32 (public b) lpb) (rw (copied_lem 32 a la) (decrypts nonce n v))))
    where
      decrypts :
          (nonce : Bytes)
          → length nonce ≡ 24
          → (v : W)
          → decrypt_asymmetric crypto
              (crypto.base64 (crypto.seal_box (crypto.bytes_of text) nonce (public b) a))
              (crypto.base64 nonce)
              (crypto.base64 (public a))
              (crypto.base64 b)
              v
            ≡ (v, ok text)
      decrypts nonce n v =
          rw (laws.unbase64-base64 (crypto.seal_box (crypto.bytes_of text) nonce (public b) a)) (
            rw (laws.unbase64-base64 nonce) (
              rw (laws.unbase64-base64 (public a)) (
                rw (laws.unbase64-base64 b) (
                  rw (copied_lem 24 nonce n) (
                    rw (copied_lem 32 (public a) lpa) (
                      rw (copied_lem 32 b lb) (
                        rw (laws.open_box-seal_box (crypto.bytes_of text) nonce a b n)
                          (rw (laws.text_of-bytes_of text) refl))))))))

-- Encryption changes the world by the random number that it takes, and by nothing else.
module _ {W A B : Type 0} where
  world-chain :
      (o : W × Result A) (f : A → Eff W B) → ((a : A) (s : W) → (f a s).0 ≡ s) → (chain o f).0 ≡ o.0
  world-chain (s, ok a) f h = h a s
  world-chain (s, err e) f h = refl

world-split_at : {W : Type 0} (n : ℕ) (b : Bytes) (s : W) → (split_at n b s).0 ≡ s
unfolding split_at
world-split_at n b s = elim (Bool-cases (leb n (length b))) [
  | inl e ↦ rw e refl
  | inr e ↦ rw e refl
]

pub world-encrypt :
    {W : Type 0} (crypto : Crypto W) (text secret : String) (s : W)
    → (encrypt crypto text secret s).0 ≡ (crypto.random 16 s).0
unfolding encrypt
world-encrypt {W} crypto text secret s =
    world-chain (crypto.random 16 s)
      (λ nonce. lift (crypto.new_cipher (crypto.bytes_of secret)) >>= λ u.
        split_at (length (crypto.bytes_of text))
          (crypto.seal (crypto.bytes_of secret) nonce (crypto.bytes_of text))
        >>= λ parts. pure (sealed_of crypto nonce parts))
      λ nonce t.
        world-chain (lift (crypto.new_cipher (crypto.bytes_of secret)) t)
          (λ u.
            split_at (length (crypto.bytes_of text))
              (crypto.seal (crypto.bytes_of secret) nonce (crypto.bytes_of text))
            >>= λ parts. pure (sealed_of crypto nonce parts))
          λ u v.
            world-chain
              (split_at (length (crypto.bytes_of text))
                (crypto.seal (crypto.bytes_of secret) nonce (crypto.bytes_of text)) v)
              (λ parts. pure (sealed_of crypto nonce parts)) (λ parts w. refl)
            ∙ world-split_at (length (crypto.bytes_of text))
                (crypto.seal (crypto.bytes_of secret) nonce (crypto.bytes_of text)) v
