-- ===== src/Vault/Crypto.antt =====
-- pkg/vault/infisical/crypto: aes-256-gcm.go and nacl-box.go over the primitives of Go's libraries.
pub mod Laws
pub mod Roundtrip
use tapr.Base.{
  ℕ, zero, suc, String, Option, none, some, List, [], ◌∷◌, ◌++◌, ◌≡◌, refl, ◌≤◌, if◌then◌else◌,
  ◌==◌, nat_eq, length, take, drop, leb, take-length, take-length-append,
}
use tapr.Base.Effect.{failure, Result, ok, err, Eff, ◌>>=◌, chain, pure, fail, lift}

abbrev pub Bytes : Type 0
Bytes = List ℕ

-- `bytes_of` and `text_of` are the conversions between `string` and `[]byte`, `new_cipher` is
-- `aes.NewCipher` with `cipher.NewGCMWithNonceSize`. `open_box` takes the key of the sender, and its own.
pub record Crypto (W : Type 0) : Type 0 where
  pub random : ℕ → Eff W Bytes
  pub bytes_of : String → Bytes
  pub text_of : Bytes → String
  pub base64 : Bytes → String
  pub unbase64 : String → Result Bytes
  pub new_cipher : Bytes → Result (Unit {0})
  pub seal : Bytes → Bytes → Bytes → Bytes
  pub open_sealed : Bytes → Bytes → Bytes → Result Bytes
  pub seal_box : Bytes → Bytes → Bytes → Bytes → Bytes
  pub open_box : Bytes → Bytes → Bytes → Bytes → Option Bytes

-- A text that was encrypted, in base64.
pub record Sealed : Type 0 where
  pub ciphertext : String
  pub iv : String
  pub tag : String

abbrev pub block_size_bytes : ℕ
block_size_bytes = 16

abbrev pub nacl_nonce_size_bytes : ℕ
nacl_nonce_size_bytes = 24

-- `ret[:n]` and `ret[n:]`; Go panics where the slice is too short.
unfoldable pub split_at : {S : Type 0} → ℕ → Bytes → Eff S (Bytes × Bytes)
split_at n b =
    if leb n (length b)
    then pure (take n b, drop n b)
    else fail (failure "slice bounds out of range")

abbrev pub zeros : ℕ → Bytes
zeros zero = []
zeros (suc n) = 0 ∷ zeros n

-- `copy` into an array of `n` zeros.
unfoldable pub copied : ℕ → Bytes → Bytes
copied n b = take n (b ++ drop (length b) (zeros n))

module _ {W : Type 0} (crypto : Crypto W) where
  unfoldable pub sealed_of : Bytes → Bytes × Bytes → Sealed
  sealed_of nonce (body, tag) = record {
    ciphertext = crypto.base64 body;
    iv = crypto.base64 nonce;
    tag = crypto.base64 tag;
  }

  -- `Encrypt`
  unfoldable pub encrypt : String → String → Eff W Sealed
  unfolding split_at sealed_of
  encrypt text secret = crypto.random block_size_bytes >>= λ nonce.
      lift (crypto.new_cipher (crypto.bytes_of secret)) >>= λ u.
      split_at (length (crypto.bytes_of text))
        (crypto.seal (crypto.bytes_of secret) nonce (crypto.bytes_of text))
      >>= λ parts. pure (sealed_of nonce parts)

  -- `aesgcm.Open`, which panics on a nonce of another size.
  unfoldable pub open_checked : Bytes → Bytes → Bytes → Eff W Bytes
  open_checked key nonce input =
      if length nonce == block_size_bytes
      then lift (crypto.open_sealed key nonce input)
      else fail (failure "crypto/cipher: incorrect nonce length given to GCM")

  -- `Decrypt`
  unfoldable pub decrypt : Sealed → String → Eff W String
  unfolding open_checked
  decrypt c secret = lift (crypto.unbase64 c.iv) >>= λ nonce.
      lift (crypto.new_cipher (crypto.bytes_of secret)) >>= λ u.
      lift (crypto.unbase64 c.ciphertext) >>= λ body. lift (crypto.unbase64 c.tag) >>= λ tag.
      open_checked (crypto.bytes_of secret) nonce (body ++ tag) >>= λ plain.
      pure (crypto.text_of plain)

  -- `EncryptAssymmetric`
  unfoldable pub encrypt_asymmetric : String → String → String → Eff W (String × String)
  unfolding copied
  encrypt_asymmetric plaintext public_key private_key =
      crypto.random nacl_nonce_size_bytes >>= λ nonce. lift (crypto.unbase64 public_key) >>= λ pk.
      lift (crypto.unbase64 private_key) >>= λ sk. pure (
        crypto.base64
            (crypto.seal_box (crypto.bytes_of plaintext) nonce (copied 32 pk) (copied 32 sk)),
        crypto.base64 nonce,
      )

  unfoldable pub opened : Option Bytes → Eff W String
  opened none = fail (failure "decrypt key error")
  opened (some plain) = pure (crypto.text_of plain)

  -- `DecryptAsymmetric`
  unfoldable pub decrypt_asymmetric : String → String → String → String → Eff W String
  unfolding copied opened
  decrypt_asymmetric ciphertext nonce public_key private_key =
      lift (crypto.unbase64 ciphertext) >>= λ input. lift (crypto.unbase64 nonce) >>= λ n.
      lift (crypto.unbase64 public_key) >>= λ pk. lift (crypto.unbase64 private_key) >>= λ sk.
      opened (crypto.open_box input (copied 24 n) (copied 32 pk) (copied 32 sk))
