-- ===== src/Corefile/Address/Laws.antt =====
-- The addresses of the users: each inside the network, no two the same.
use native.Mathlib.Nat.{
  mul-add, add-mul, one-mul, mul-one, mul-le-mul_left, mul-le-mul_right, le_of_mul-le-mul_right,
}
use mathlib.Core.Option.{some-injective}
use tapr.Base.Dict.{Dict, lookup}
use tapr.Corefile.Address.Decimal.{decimal-injective}
use tapr.Base.{
  String, Option, false, sym, string_eq, ==_refl, ℕ, zero, suc, ◌+◌, ◌-◌, ◌*◌, ◌/◌, ◌%◌, ◌≤◌, ◌<◌,
  some, List, [], ◌∷◌, ◌≡◌, refl, ◌∙◌, ap, ◌==◌, nat_eq, leb, arith, Bool-cases, inl, inr,
}
use tapr.Corefile.Address.{
  Ip, shift_one, log_from, ceil_log, free_bits, add_offset, base_ip, next_ip, first_usable,
  sub_dns_split, subnets, decimal,
}

-- The number that the bytes stand for.
abbrev pub ip_number : Ip → ℕ
ip_number [] = 0
ip_number (b ∷ bs) = b + 256 * ip_number bs

-- 100.64.0.0
abbrev pub base_number : ℕ
base_number = 1681915904

add_zero : (bs : List ℕ) → add_offset 0 bs ≡ bs
unfolding add_offset
add_zero [] = refl
add_zero (b ∷ bs) = ground arith

add_step :
    (offset b : ℕ) (bs : List ℕ)
    → (b + offset % 256) < 256
    → add_offset offset (b ∷ bs) ≡ (b + offset % 256) ∷ add_offset (offset / 256) bs
unfolding add_offset
add_step offset b bs small = elim (Bool-cases (offset == 0)) [
  | inl e ↦ ground (arith, add_zero bs)
  | inr e ↦ ground arith
]

add_offset_base :
    (offset : ℕ)
    → offset < 4194304
    → add_offset offset base_ip
      ≡ (0 + offset % 256)
        ∷ (0 + offset / 256 % 256)
        ∷ (64 + offset / 256 / 256 % 256)
        ∷ (100 + offset / 256 / 256 / 256 % 256)
        ∷ []
unfolding add_offset
add_offset_base offset bound =
    add_step offset 0 _ (omega arith)
    ∙ ap (◌∷◌ (0 + offset % 256)) (
        add_step (offset / 256) 0 _ (omega arith)
        ∙ ap (◌∷◌ (0 + offset / 256 % 256)) (
            add_step (offset / 256 / 256) 64 _ (omega arith)
            ∙ ap (◌∷◌ (64 + offset / 256 / 256 % 256))
                (add_step (offset / 256 / 256 / 256) 100 [] (omega arith) ∙ refl)))

even_number :
    (offset h : ℕ)
    → offset ≡ h + h
    → offset < 4194304
    → ip_number (next_ip (add_offset (offset % 4294967296) base_ip)) ≡ base_number + offset + 1
even_number offset h even bound =
    let e : offset % 4294967296 ≡ offset = omega arith in
    rw (e, add_offset_base offset bound) (omega arith)

-- For a subnet of an even size whose offset is inside the network, the first usable address is one
-- above the offset from the start of the network.
ip_number-first_usable :
    (half i : ℕ)
    → i * (half + half) < 4194304
    → ip_number (first_usable (half + half) i) ≡ base_number + i * (half + half) + 1
unfolding first_usable
ip_number-first_usable half i bound =
    even_number (i * (half + half)) (i * half) (mul-add i half half) bound

suc_add : (a b : ℕ) → suc a + b ≡ suc (a + b)
suc_add a b = omega arith

shift_one-add : (a b : ℕ) → shift_one a * shift_one b ≡ shift_one (a + b)
unfolding shift_one
shift_one-add zero b = one-mul (shift_one b) ∙ ap shift_one (omega arith)
shift_one-add (suc a) b =
    add-mul (shift_one a) (shift_one a) (shift_one b)
    ∙ rw (suc_add a b) (omega (arith, shift_one-add a b))

shift_one_pos : (k : ℕ) → 0 < shift_one k
unfolding shift_one
shift_one_pos zero = omega arith
shift_one_pos (suc k) = omega (arith, shift_one_pos k)

-- The search finds an exponent that is large enough, and the least one.
log_from_least :
    (fuel k n m : ℕ)
    → k ≤ m
    → m ≤ k + fuel
    → n ≤ shift_one m
    → (n ≤ shift_one (log_from fuel k n)) × (log_from fuel k n ≤ m)
unfolding log_from
log_from_least zero k n m low high h = let e : m ≡ k = omega arith in (rw (← e) h, low)
log_from_least (suc fuel) k n m low high h = elim (Bool-cases (leb n (shift_one k))) [
  | inl here ↦ rw (here, log_from) (ground arith, low)
  | inr later ↦
      let higher : suc k ≤ m = ground arith in
      rw (later, log_from) (log_from_least fuel (suc k) n m higher (omega arith) h)
]

offset_inside : (size count i : ℕ) → count * size ≡ 4194304 → i < count → i * size + size ≤ 4194304
offset_inside size count i full small =
    let step : (i + 1) * size ≤ count * size = mul-le-mul_right size (omega arith) in
    omega (arith, add-mul i 1 size, one-mul size, step, full)

first_usable-injective :
    (half i j : ℕ)
    → 0 < half
    → i * (half + half) < 4194304
    → j * (half + half) < 4194304
    → first_usable (half + half) i ≡ first_usable (half + half) j
    → i ≡ j
first_usable-injective half i j pos inside inside' same =
    let e : i * (half + half) ≡ j * (half + half) = omega (
      arith,
      ip_number-first_usable half i inside,
      ip_number-first_usable half j inside',
      ap ip_number same,
    ) in
    let lower : i ≤ j = le_of_mul-le-mul_right {k = half + half} (omega (arith, e)) (omega arith) in
    let upper : j ≤ i = le_of_mul-le-mul_right {k = half + half} (omega (arith, e)) (omega arith) in
    omega arith

-- The address that the map has for the decimal text of an index.
abbrev pub address_of : Dict String Ip → ℕ → Option Ip
address_of addresses i = lookup (decimal i) addresses

-- A map with an address for each index, each with a subnet of `size` to itself.
abbrev pub AreAddresses : ℕ → ℕ → Dict String Ip → Type 0
AreAddresses size count addresses =
    ((i : ℕ)
      → i < count
      → (ip : Ip) × (address_of addresses i ≡ some ip)
        × (ip_number ip ≡ base_number + i * size + 1)
        × (i * size + 1 < 4194304))
    × ((i j : ℕ) → i < count → j < count → address_of addresses i ≡ address_of addresses j → i ≡ j)

-- The map has under the text of each index the first address of its subnet.
lookup-subnets :
    (size rounds i j : ℕ)
    → i ≤ j
    → j < i + rounds
    → i + rounds ≤ 4194304
    → lookup (decimal j) (subnets size rounds i) ≡ some (first_usable size j)
unfolding subnets lookup
lookup-subnets size zero i j low high bound = absurd (omega (arith, low, high))
lookup-subnets size (suc rounds) i j low high bound = elim (string_eq.dec (decimal j) (decimal i)) [
  | yes e ↦
      let same : j ≡ i =
        decimal-injective j i (omega (arith, high, bound)) (omega (arith, bound)) e in
      rw same (rw (==_refl (decimal i)) refl)
  | no ne ↦
      let later : suc i ≤ j = later_than i j low (λ same. ne (ap decimal (sym same))) in
      rw (differs (decimal j) (decimal i) ne)
        (lookup-subnets size rounds (suc i) j later (omega (arith, high)) (omega (arith, bound)))
]
  where
    later_than : (m n : ℕ) → m ≤ n → (m ≡ n → ⊥) → suc m ≤ n
    later_than m n h ne = ground arith

    differs : (s t : String) → (s ≡ t → ⊥) → (s == t) ≡ false
    differs s t ne = ground arith

even_subnets :
    (half count : ℕ)
    → 0 < half
    → count * (half + half) ≡ 4194304
    → AreAddresses (half + half) count (subnets (half + half) count 0)
even_subnets half count pos full = (
  λ i small. (
    first_usable (half + half) i,
    there i small,
    ip_number-first_usable half i (low i small),
    high i small,
  ),
  λ i j a b same.
      first_usable-injective half i j pos (low i a) (low j b)
        (some-injective _ _ (sym (there i a) ∙ same ∙ there j b)),
)
  where
    low : (i : ℕ) → i < count → i * (half + half) < 4194304
    low i small = omega (arith, offset_inside (half + half) count i full small)

    high : (i : ℕ) → i < count → i * (half + half) + 1 < 4194304
    high i small = omega (arith, offset_inside (half + half) count i full small)

    positive : 1 ≤ half + half
    positive = omega (arith, pos)

    least : count ≤ 4194304
    least = omega (arith, mul-le-mul_left count positive, mul-one count, full)

    there :
        (i : ℕ)
        → i < count
        → lookup (decimal i) (subnets (half + half) count 0) ≡ some (first_usable (half + half) i)
    there i small =
        lookup-subnets (half + half) count 0 i (omega arith) (omega (arith, small))
          (omega (arith, least))

shift_one-suc : (k : ℕ) → shift_one (suc k) ≡ shift_one k + shift_one k
unfolding shift_one
shift_one-suc k = refl

shift_one_22 : shift_one 22 ≡ 4194304
unfolding shift_one
shift_one_22 = refl

sizes_even : (k : ℕ) → k ≤ 21 → shift_one (free_bits - k) ≡ shift_one (21 - k) + shift_one (21 - k)
sizes_even k least =
    let e : free_bits - k ≡ suc (21 - k) = omega arith in rw e (shift_one-suc (21 - k))

sizes_full : (k : ℕ) → k ≤ 21 → shift_one k * shift_one (free_bits - k) ≡ 4194304
sizes_full k least =
    let e : k + (free_bits - k) ≡ 22 = omega arith in
    shift_one-add k (free_bits - k) ∙ rw e shift_one_22

ceil_log_least : (n : ℕ) → n ≤ 2097152 → (n ≤ shift_one (ceil_log n)) × (ceil_log n ≤ 21)
unfolding ceil_log shift_one
ceil_log_least n low = log_from_least 63 0 n 21 (omega arith) (omega arith) low

-- For 1 to 2 ^ 21 users `subDNSSplit` does not panic, and its map has an address under the decimal text
-- of each of at least as many indexes. The address of an index is one above the start of its subnet
-- and lies inside 100.64.0.0/10, and two indexes never share one.
pub sub_dns_split-AreAddresses :
    (n : ℕ)
    → 0 < n
    → n ≤ 2097152
    → (size count : ℕ) × (addresses : Dict String Ip) × (sub_dns_split n ≡ some addresses)
      × (n ≤ count)
      × AreAddresses size count addresses
unfolding sub_dns_split
sub_dns_split-AreAddresses n pos low =
    let k : ℕ = ceil_log n in
    let (enough, least) = ceil_log_least n low in
    (
      shift_one (free_bits - k),
      shift_one k,
      subnets (shift_one (free_bits - k)) (shift_one k) 0,
      ground arith,
      enough,
      rw (sizes_even k least) (
          even_subnets (shift_one (21 - k)) (shift_one k) (shift_one_pos (21 - k))
            (rw (← sizes_even k least) (sizes_full k least))),
    )
