-- ===== src/Corefile/Address/Decimal.antt =====
-- The decimal numerals of `strconv.FormatInt`: two numbers of at most 20 digits never share one.
use Prim.Native.Char.{char, code}
use text.Mathlib.TextLemmas.{cons-append, nil-append}
use tapr.Base.{
  ℕ, zero, suc, ◌+◌, ◌-◌, ◌*◌, ◌/◌, ◌%◌, ◌<◌, String, ◌<>◌, ◌≡◌, refl, sym, ap, ◌∙◌, ltb, nat_eq,
  arith, Bool-cases, inl, inr,
}
use tapr.Corefile.Address.{digit, digits, decimal}

-- What a numeral reads as, after the number `acc`.
read_from : ℕ → String → ℕ
read_from acc String.[] = acc
read_from acc (String.◌∷◌ c s) = read_from (acc * 10 + (code c - 48)) s

ten : ℕ → ℕ
ten zero = 1
ten (suc k) = 10 * ten k

read_from-digit :
    (acc d : ℕ) (s : String) → d < 10 → read_from acc (digit d <> s) ≡ read_from (acc * 10 + d) s
unfolding read_from nat_eq
read_from-digit acc zero s h = rw (cons-append (char 48 tt) "" s, nil-append s) refl
read_from-digit acc (suc zero) s h = rw (cons-append (char 49 tt) "" s, nil-append s) refl
read_from-digit acc (suc (suc zero)) s h = rw (cons-append (char 50 tt) "" s, nil-append s) refl
read_from-digit acc (suc (suc (suc zero))) s h =
    rw (cons-append (char 51 tt) "" s, nil-append s) refl
read_from-digit acc (suc (suc (suc (suc zero)))) s h =
    rw (cons-append (char 52 tt) "" s, nil-append s) refl
read_from-digit acc (suc (suc (suc (suc (suc zero))))) s h =
    rw (cons-append (char 53 tt) "" s, nil-append s) refl
read_from-digit acc (suc (suc (suc (suc (suc (suc zero)))))) s h =
    rw (cons-append (char 54 tt) "" s, nil-append s) refl
read_from-digit acc (suc (suc (suc (suc (suc (suc (suc zero))))))) s h =
    rw (cons-append (char 55 tt) "" s, nil-append s) refl
read_from-digit acc (suc (suc (suc (suc (suc (suc (suc (suc zero)))))))) s h =
    rw (cons-append (char 56 tt) "" s, nil-append s) refl
read_from-digit acc (suc (suc (suc (suc (suc (suc (suc (suc (suc zero))))))))) s h =
    rw (cons-append (char 57 tt) "" s, nil-append s) refl
read_from-digit acc (suc (suc (suc (suc (suc (suc (suc (suc (suc (suc n)))))))))) s h =
    absurd (omega (arith, h))

read_from-digits :
    (fuel n : ℕ) (s : String) → n < ten fuel → read_from 0 (digits fuel n s) ≡ read_from n s
unfolding digits ten
read_from-digits zero n s h = ap (λ k. read_from k s) (omega (arith, h))
read_from-digits (suc fuel) n s h = elim (Bool-cases (ltb n 10)) [
  | inl small ↦
      rw small (read_from-digit 0 (n % 10) s (omega arith) ∙ ap (λ k. read_from k s) (ground arith))
  | inr large ↦ rw large (
      read_from-digits fuel (n / 10) (digit (n % 10) <> s) (omega (arith, h))
      ∙ read_from-digit (n / 10) (n % 10) s (omega arith)
      ∙ ap (λ k. read_from k s) (omega arith))
]

read_from-decimal : (n : ℕ) → n < ten 20 → read_from 0 (decimal n) ≡ n
unfolding decimal read_from
read_from-decimal n h = read_from-digits 20 n "" h

ten_20 : ten 20 ≡ 100000000000000000000
unfolding ten
ten_20 = refl

pub decimal-injective : (i j : ℕ) → i < 4194304 → j < 4194304 → decimal i ≡ decimal j → i ≡ j
decimal-injective i j a b e =
    sym (read_from-decimal i (omega (arith, ten_20, a)))
    ∙ ap (read_from 0) e
    ∙ read_from-decimal j (omega (arith, ten_20, b))
