-- ===== src/Vault/Tests.antt =====
-- A server that has room for one secret, with a cipher that adds a tag, and the theorems there.
use Prim.Native.Char.{Char, char, code, nul}
use Prim.Native.Nat.{Ordering, compare}
use text.Mathlib.TextEquality.{Char-path}
use tapr.Base.{
  ℕ, zero, suc, ◌+◌, String, true, false, Option, none, some, [], ◌∷◌, ◌≡◌, refl, ap, ◌∙◌, ◌==◌,
  nat_eq, string_eq, length, arith,
}
use tapr.Base.Dict.{Dict, lookup}
use tapr.Base.Effect.{failure, Result, ok, err}
use tapr.Vault.Crypto.{
  Bytes, Crypto, Sealed, zeros, encrypt, decrypt, encrypt_asymmetric, decrypt_asymmetric, sealed_of,
  split_at, copied,
}
use tapr.Vault.Crypto.Laws.{IsCrypto}
use tapr.Vault.Crypto.Roundtrip.{decrypt-encrypt}
use tapr.Base.Http.{HttpReply}
use tapr.Vault.Secrets.{
  Infisical, create_secret_in_workspace, update_secret_in_workspace, get_secret_in_workspace,
  accepted, key_of, value_of,
}
use tapr.Vault.Secrets.Laws.{SecretTable, IsInfisical}
use tapr.Vault.Secrets.Roundtrip.{get_secret-create_secret, get_secret-update_secret}

-- The three comparisons by which a number is that of a character.
abbrev IsLow : Ordering → Type 0
IsLow Ordering.lt = Unit
IsLow Ordering.eq = ⊥
IsLow Ordering.gt = ⊥

abbrev AreLow : Ordering → Ordering → Type 0
AreLow Ordering.lt o = IsLow o
AreLow Ordering.eq _ = ⊥
AreLow Ordering.gt _ = ⊥

abbrev Scalar : Ordering → Ordering → Ordering → Type 0
Scalar Ordering.lt _ _ = Unit
Scalar Ordering.eq o p = AreLow o p
Scalar Ordering.gt o p = AreLow o p

abbrev find_low : (o p : Ordering) → Option (AreLow o p)
find_low Ordering.lt Ordering.lt = some tt
find_low Ordering.lt Ordering.eq = none
find_low Ordering.lt Ordering.gt = none
find_low Ordering.eq p = none
find_low Ordering.gt p = none

abbrev find_scalar : (o p q : Ordering) → Option (Scalar o p q)
find_scalar Ordering.lt p q = some tt
find_scalar Ordering.eq p q = find_low p q
find_scalar Ordering.gt p q = find_low p q

found_low : (o p : Ordering) → AreLow o p → (r : AreLow o p) × (find_low o p ≡ some r)
found_low Ordering.lt Ordering.lt h = (tt, refl)
found_low Ordering.lt Ordering.eq h = elim h [ ]
found_low Ordering.lt Ordering.gt h = elim h [ ]
found_low Ordering.eq p h = elim h [ ]
found_low Ordering.gt p h = elim h [ ]

found_scalar : (o p q : Ordering) → Scalar o p q → (r : Scalar o p q) × (find_scalar o p q ≡ some r)
found_scalar Ordering.lt p q h = (tt, refl)
found_scalar Ordering.eq p q h = found_low p q h
found_scalar Ordering.gt p q h = found_low p q h

abbrev char_or_nul :
    (n : ℕ) → Option (Scalar (compare n 55296) (compare 57343 n) (compare n 1114112)) → Char
char_or_nul n none = nul
char_or_nul n (some p) = char n p

abbrev char_of : ℕ → Char
char_of n = char_or_nul n (find_scalar (compare n 55296) (compare 57343 n) (compare n 1114112))

char_of-code : (c : Char) → char_of (code c) ≡ c
char_of-code (char n p) =
    let (r, e) = found_scalar (compare n 55296) (compare 57343 n) (compare n 1114112) p in
    ap (char_or_nul n) e ∙ Char-path (char n r) (char n p) refl

abbrev codes : String → Bytes
codes String.[] = []
codes (String.◌∷◌ c s) = code c ∷ codes s

abbrev chars : Bytes → String
chars [] = ""
chars (n ∷ ns) = String.◌∷◌ (char_of n) (chars ns)

chars-codes : (s : String) → chars (codes s) ≡ s
chars-codes String.[] = refl
chars-codes (String.◌∷◌ c s) = rw (char_of-code c) (rw (chars-codes s) refl)

-- A number as so many letters "a" and one "b".
abbrev unary : ℕ → String → String
unary zero s = String.◌∷◌ (char 98 tt) s
unary (suc n) s = String.◌∷◌ (char 97 tt) (unary n s)

abbrev written : Bytes → String
written [] = ""
written (n ∷ ns) = unary n (written ns)

abbrev read : ℕ → String → Bytes
read n String.[] = []
read n (String.◌∷◌ c s) = elim (code c == 97) [ true ↦ read (suc n) s | false ↦ n ∷ read 0 s ]

read-unary : (m n : ℕ) (s : String) → read m (unary n s) ≡ (m + n) ∷ read 0 s
unfolding nat_eq
read-unary m zero s = ap (λ k. k ∷ read 0 s) (omega arith)
read-unary m (suc n) s = rw (read-unary (suc m) n s) (ap (λ k. k ∷ read 0 s) (omega arith))

read-written : (b : Bytes) → read 0 (written b) ≡ b
read-written [] = refl
read-written (n ∷ ns) =
    rw (read-unary 0 n (written ns)) (rw (read-written ns) (ap (λ k. k ∷ ns) (omega arith)))

length-zeros : (n : ℕ) → length (zeros n) ≡ n
length-zeros zero = refl
length-zeros (suc n) = omega (arith, length-zeros n)

abbrev World : Type 0
World = Option (Sealed × Sealed)

abbrev untagged : Bytes → Result Bytes
untagged [] = err (failure "cipher: message authentication failed")
untagged (n ∷ ns) = ok ns

abbrev crypto : Crypto World
crypto = record {
  random = λ n w. (w, ok (zeros n));
  bytes_of = codes;
  text_of = chars;
  base64 = written;
  unbase64 = λ s. ok (read 0 s);
  new_cipher = λ key. ok tt;
  seal = λ key nonce plain. 0 ∷ plain;
  open_sealed = λ key nonce input. untagged input;
  seal_box = λ plain nonce pk sk. plain;
  open_box = λ input nonce pk sk. some input;
}

ok_eq : {a b : Bytes} → ◌≡◌ {A = Result Bytes} (ok a) (ok b) → a ≡ b
ok_eq e = cc

crypto_laws : IsCrypto crypto (λ b. b)
crypto_laws = record {
  text_of-bytes_of = chars-codes;
  unbase64-base64 = λ b. rw (read-written b) refl;
  length-random =
      λ n s t b e. rw (← (ok_eq (ap (λ (x : World × Result Bytes). x.1) e))) (length-zeros n);
  open-seal = λ key nonce plain k n. refl;
  open_box-seal_box = λ plain nonce a b n. refl;
}

abbrev reply : {A : Type 0} → A → HttpReply A
reply a = record { status = 200; body = ""; value = a }

abbrev json_of : Sealed → Sealed → Dict String String
json_of k v =
    ("secretKeyCiphertext", k.ciphertext)
    ∷ ("secretKeyIV", k.iv)
    ∷ ("secretKeyTag", k.tag)
    ∷ ("secretValueCiphertext", v.ciphertext)
    ∷ ("secretValueIV", v.iv)
    ∷ ("secretValueTag", v.tag)
    ∷ []

abbrev finding : World → World × Result (HttpReply (Dict String String))
finding none = (none, ok (record { status = 404; body = "no such secret"; value = [] }))
finding (some (k, v)) = (some (k, v), ok (reply (json_of k v)))

abbrev storing : Option Sealed → Sealed → World → World × Result (HttpReply (Unit {0}))
storing none v none = (none, ok (record { status = 404; body = "no such secret"; value = tt }))
storing none v (some (k, old)) = (some (k, v), ok (reply tt))
storing (some k) v w = (some (k, v), ok (reply tt))

abbrev server : Infisical World
server = record {
  crypto = crypto;
  organizations = λ token w. (w, ok (reply ("org" ∷ [])));
  workspaces = λ token org w. (w, ok (reply []));
  post_workspace = λ token name w. (w, ok (reply none));
  delete_workspace = λ token id w. (w, ok (reply tt));
  encrypted_key = λ token id w. (w, err (failure "no key"));
  post_secret = λ token p b. storing b.key b.value;
  get_secret = λ token p. finding;
  list_secrets = λ token id env w. (w, ok (reply []));
  patch_secret = λ token p b. storing b.key b.value;
  delete_secret = λ token p w. (none, ok (reply tt));
}

abbrev table : SecretTable World
table w p = w

finds :
    (s t : World) (r : HttpReply (Dict String String))
    → finding s ≡ (t, ok r)
    → r.status ≡ 200
    → s ≡ some (key_of r.value, value_of r.value)
unfolding key_of value_of lookup string_eq
finds none t r e good = absurd (ground arith)
finds (some (k, v)) t r e good = let same : json_of k v ≡ r.value = ground arith in rw (← same) refl

patches :
    (v : Sealed) (s t : World) (r : HttpReply (Unit {0}))
    → storing none v s ≡ (t, ok r)
    → r.status ≡ 200
    → (k v' : Sealed) → s ≡ some (k, v')
    → t ≡ some (k, v)
patches v none t r e good k v' h = absurd (ground arith)
patches v (some (x, y)) t r e good k v' h = ground arith

server_laws : IsInfisical table server
server_laws = record {
  post_stores = λ token p k v s t r e good. ground arith;
  get_finds = λ token p s t r. finds s t r;
  patch_stores = λ token p v s t r. patches v s t r;
  random_quiet = λ n s. refl;
}

abbrev name_sealed : Sealed
name_sealed = record {
  ciphertext = written (0 ∷ codes "nam");
  iv = written (zeros 16);
  tag = written (codes "e");
}

abbrev value_sealed : Sealed
value_sealed = record {
  ciphertext = written (0 ∷ codes "pas");
  iv = written (zeros 16);
  tag = written (codes "s");
}

abbrev new_sealed : Sealed
new_sealed = record {
  ciphertext = written (0 ∷ codes "ne");
  iv = written (zeros 16);
  tag = written (codes "w");
}

abbrev created : World
created = some (name_sealed, value_sealed)

abbrev updated : World
updated = some (name_sealed, new_sealed)

get_secret-create_secret_example :
    get_secret_in_workspace server "b" "workspace" "key" "" "name" created
    ≡ (created, ok ("name", "pass"))
unfolding create_secret_in_workspace encrypt split_at sealed_of accepted nat_eq
get_secret-create_secret_example =
    get_secret-create_secret table server (λ b. b) crypto_laws server_laws "workspace" "key" "name"
      "" "a" "b" "pass" none created created created (reply (json_of name_sealed value_sealed)) refl
      refl refl refl

get_secret-update_secret_example :
    get_secret_in_workspace server "b" "workspace" "key" "" "name" updated
    ≡ (updated, ok ("name", "new"))
unfolding create_secret_in_workspace update_secret_in_workspace encrypt split_at sealed_of accepted
    nat_eq
get_secret-update_secret_example =
    get_secret-update_secret table server (λ b. b) crypto_laws server_laws "workspace" "key" "name"
      "" "a" "a" "b" "pass" "new" none created created updated updated updated
      (reply (json_of name_sealed new_sealed)) refl refl refl refl refl refl

decrypt-encrypt_example :
    (decrypt crypto name_sealed "key" none ≡ (none, ok "name"))
    × (decrypt_asymmetric crypto
          (written (codes "name"))
          (written (zeros 24))
          (written (zeros 32))
          (written (zeros 32))
          none
        ≡ (none, ok "name"))
unfolding encrypt encrypt_asymmetric split_at sealed_of copied nat_eq
decrypt-encrypt_example =
    decrypt-encrypt crypto (λ b. b) crypto_laws "name" "key" (zeros 32) (zeros 32) none none none
      name_sealed (written (codes "name"), written (zeros 24)) none none refl refl refl refl refl
      refl
