-- ===== src/Vault/Crypto/Roundtrip.antt =====
-- The two ciphers of the vault.
use tapr.Base.{String, ◌≡◌, length}
use tapr.Base.Effect.{ok}
use tapr.Vault.Crypto.{
  Bytes, Crypto, Sealed, encrypt, decrypt, encrypt_asymmetric, decrypt_asymmetric,
}
use tapr.Vault.Crypto.Laws.{IsCrypto, encrypt-Ensures, encrypt_asymmetric-Ensures}

module _ {W : Type 0} (crypto : Crypto W) (public : Bytes → Bytes)
    (laws : IsCrypto crypto public) where
  -- For ciphers that do what they are documented to do: what `Encrypt` returned, `Decrypt` turns back
  -- with the same key, and what `EncryptAssymmetric` made for the owner of `b` by the key `a`,
  -- `DecryptAsymmetric` turns back for the owner of `b`, if the keys have 32 bytes.
  pub decrypt-encrypt :
      (text secret : String) (a b : Bytes) (s t v : W) (c : Sealed) (box : String × String)
      (r u : W)
      → length a ≡ 32
      → length b ≡ 32
      → length (public a) ≡ 32
      → length (public b) ≡ 32
      → encrypt crypto text secret s ≡ (t, ok c)
      → encrypt_asymmetric crypto text (crypto.base64 (public b)) (crypto.base64 a) r ≡ (u, ok box)
      → (decrypt crypto c secret v ≡ (v, ok text))
        × (decrypt_asymmetric crypto box.0 box.1 (crypto.base64 (public a)) (crypto.base64 b) v
            ≡ (v, ok text))
  decrypt-encrypt text secret a b s t v c box r u la lb lpa lpb sealed boxed = (
    (rw sealed at ((encrypt-Ensures laws text secret).run s tt)).0 v,
    (rw boxed at ((encrypt_asymmetric-Ensures laws text a b la lb lpa lpb).run r tt)) v,
  )
