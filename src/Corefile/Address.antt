-- ===== src/Corefile/Address.antt =====
-- `subDNSSplit` and `getUserLocalIp` of cmd/sys-event/watchers/corefile.go: the address of a user
-- inside 100.64.0.0/10. The bytes of an address stand from the last one to the first.
pub mod Decimal
pub mod Laws
use tapr.Base.{
  ℕ, zero, suc, ◌+◌, ◌-◌, ◌*◌, ◌/◌, ◌%◌, String, ◌<>◌, Bool, true, false, Option, none, some, List,
  [], ◌∷◌, if◌then◌else◌, ◌==◌, string_eq, nat_eq, leb, ltb,
}
use tapr.Base.Dict.{Dict, lookup}
use tapr.Base.Panic.{◌>>=◌}

abbrev pub Ip : Type 0
Ip = List ℕ

-- `1 << k`
unfoldable pub shift_one : ℕ → ℕ
shift_one zero = 1
shift_one (suc k) = let half = shift_one k in half + half

-- `int(math.Ceil(math.Log2(n)))` for a positive n: the least k with n ≤ 2 ^ k, sought from `k` on.
unfoldable pub log_from : ℕ → ℕ → ℕ → ℕ
unfolding shift_one
log_from zero k n = k
log_from (suc fuel) k n =
    let later = log_from fuel (suc k) n in if leb n (shift_one k) then k else later

-- More than the 22 free bits make the shift by `32 - newMaskLen` panic.
abbrev pub free_bits : ℕ
free_bits = 22

unfoldable pub ceil_log : ℕ → ℕ
unfolding log_from
ceil_log n = log_from 63 0 n

-- The loop that adds the bytes of the offset, and the one that is added last.
unfoldable pub add_offset : ℕ → List ℕ → List ℕ
add_offset offset [] = []
add_offset offset (b ∷ bs) =
    let rest = add_offset (offset / 256) bs in
    if offset == 0 then b ∷ bs else (b + offset % 256) % 256 ∷ rest

abbrev pub base_ip : Ip
base_ip = 0 ∷ 0 ∷ 64 ∷ 100 ∷ []

abbrev pub next_ip : Ip → Ip
next_ip [] = []
next_ip (b ∷ bs) = (b + 1) % 256 ∷ bs

unfoldable pub first_usable : ℕ → ℕ → Ip
unfolding add_offset
first_usable size i = next_ip (add_offset ((i * size) % 4294967296) base_ip)

-- `strconv.FormatInt(i, 10)`
abbrev pub digit : ℕ → String
digit n =
    if n == 0
    then "0"
    else if n == 1
    then "1"
    else if n == 2
    then "2"
    else if n == 3
    then "3"
    else if n == 4
    then "4"
    else if n == 5
    then "5"
    else if n == 6
    then "6"
    else if n == 7
    then "7"
    else if n == 8
    then "8"
    else "9"

unfoldable pub digits : ℕ → ℕ → String → String
digits zero n text = text
digits (suc fuel) n text =
    let longer = digit (n % 10) <> text in
    let more = digits fuel (n / 10) longer in if ltb n 10 then longer else more

unfoldable pub decimal : ℕ → String
unfolding digits
decimal n = digits 20 n ""

-- `IP.String()`
unfoldable pub ip_text : Ip → String
unfolding decimal
ip_text [] = ""
ip_text (b ∷ []) = decimal b
ip_text (b ∷ c ∷ bs) = ip_text (c ∷ bs) <> "." <> decimal b

-- The entries of the map from the index `i` on.
unfoldable pub subnets : ℕ → ℕ → ℕ → Dict String Ip
unfolding decimal first_usable
subnets size zero i = []
subnets size (suc rounds) i = (decimal i, first_usable size i) ∷ subnets size rounds (suc i)

-- `none` is a panic. For n = 0, the logarithm is -Inf, and the shift by its integer panics.
unfoldable pub sub_dns_split : ℕ → Option (Dict String Ip)
unfolding ceil_log subnets
sub_dns_split n =
    let k = ceil_log n in
    if n == 0
    then none
    else if leb k free_bits
    then some (subnets (shift_one (free_bits - k)) (shift_one k) 0)
    else none

-- `max_users` is what `strconv.ParseInt` makes of OLARES_MAX_USERS, or of "1024" where that is not
-- set; `index` is the user's annotation, "" where it is missing. Failures and panics are `none`; a
-- user without an index has no address.
unfoldable pub get_user_local_ip : Option ℕ → String → Option (Option Ip)
unfolding sub_dns_split
get_user_local_ip max_users index =
    if index == ""
    then some none
    else (do n ← max_users; subnets' ← sub_dns_split n; ip ← lookup index subnets'; some (some ip))
