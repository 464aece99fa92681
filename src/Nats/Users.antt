-- ===== src/Nats/Users.antt =====
-- The user list: the loop of `createOrUpdateUser` and `DeleteUser`.

pub mod Delete
use mathlib.Core.List.{append-nil}
use tapr.Base.{
  ℕ, zero, suc, ◌+◌, ◌-◌, String, Bool, true, false, not, ◌||◌, Option, none, some, List, [], ◌∷◌,
  ◌++◌, ◌≡◌, refl, if◌then◌else◌, ◌==◌, string_eq, ltb, arith, length, take, drop, any, Bool-cases,
  inl, inr,
}
use tapr.Nats.Types.{User}

-- The range loop replaces every user of that name.
unfoldable pub replace_user : User → List User → List User
replace_user u [] = []
replace_user u (c ∷ cs) = (if c.username == u.username then u else c) ∷ replace_user u cs

unfoldable pub has_user : String → List User → Bool
has_user name [] = false
has_user name (c ∷ cs) = c.username == name || has_user name cs

unfoldable pub upsert_user : User → List User → List User
upsert_user u us = replace_user u us ++ (if has_user u.username us then [] else u ∷ [])

-- The first user of a name, which is what the server authenticates against.
unfoldable pub find_user : String → List User → Option User
find_user name [] = none
find_user name (c ∷ cs) = if name == c.username then some c else find_user name cs

abbrev pub NodupNames : List User → Type 0
NodupNames [] = Unit
NodupNames (c ∷ cs) = (find_user c.username cs ≡ none) × NodupNames cs

-- What the array holds from the place of a deleted element on, once the `window` elements behind it
-- have moved up: `append` copies them in place, and the rest of the array stays as it was.
abbrev pub shift_up : ℕ → User → List User → List User
shift_up window u behind = take window behind ++ drop window (u ∷ behind)

-- The range loop of `DeleteUser`: its bounds are those of the slice at the start, while the deletion
-- moves the elements of the shared array. `front` and `rest` are the array before and from the
-- loop's index, `len` is the length of the current slice, and `none` a slice bound out of range.
unfoldable pub delete_loop : String → ℕ → List User → List User → ℕ → Option (List User)
delete_loop name zero front rest len = some (take len (front ++ rest))
delete_loop name (suc rounds) front [] len = some (take len front)
delete_loop name (suc rounds) front (u ∷ behind) len = elim (u.username == name) [
  | false ↦ delete_loop name rounds (front ++ (u ∷ [])) behind len
  | true ↦ elim (ltb len (length front + 1)) [
    | true ↦ none
    | false ↦ elim (shift_up (len - (length front + 1)) u behind) [
      | [] ↦ none
      | v ∷ rest ↦ delete_loop name rounds (front ++ (v ∷ [])) rest (len - 1)
    ]
  ]
]

unfoldable pub delete_user : String → List User → Option (List User)
delete_user name us = delete_loop name (length us) [] us (length us)

lookup_append :
    (name : String) (us vs : List User)
    → find_user name (us ++ vs)
      ≡ (if has_user name us then find_user name us else find_user name vs)
unfolding find_user has_user
lookup_append name [] vs = refl
lookup_append name (c ∷ us) vs = ground (arith, lookup_append name us vs)

find-replace_user :
    (name : String) (u : User) (us : List User)
    → find_user name (replace_user u us) ≡ (
        if name == u.username
        then (if has_user name us then some u else none)
        else find_user name us)
unfolding find_user replace_user has_user
find-replace_user name u [] = ground arith
find-replace_user name u (c ∷ us) = ground (arith, find-replace_user name u us)

has-replace_user :
    (name : String) (u : User) (us : List User)
    → has_user name (replace_user u us) ≡ has_user name us
unfolding has_user replace_user
has-replace_user name u [] = refl
has-replace_user name u (c ∷ us) = ground (arith, has-replace_user name u us)

has_find : (name : String) (us : List User) → has_user name us ≡ false → find_user name us ≡ none
unfolding has_user find_user
has_find name [] h = refl
has_find name (c ∷ us) h = ground (arith, has_find name us)

-- After `createOrUpdateUser` the user has the new entry, and every other name the one it had.
pub find_user-upsert_user :
    (name : String) (u : User) (us : List User)
    → find_user name (upsert_user u us) ≡ (if name == u.username then some u else find_user name us)
unfolding upsert_user find_user
find_user-upsert_user name u us = ground (
  arith,
  lookup_append name (replace_user u us) (if has_user u.username us then [] else u ∷ []),
  find-replace_user name u us,
  has-replace_user name u us,
  has_find name us,
)

append-NodupNames :
    (u : User) (us : List User)
    → NodupNames us
    → find_user u.username us ≡ none
    → NodupNames (us ++ (u ∷ []))
unfolding find_user
append-NodupNames u [] n fresh = (refl, tt)
append-NodupNames u (c ∷ us) (fresh_c, n) fresh = (
  ground (arith, lookup_append c.username us (u ∷ []), has_find c.username us),
  append-NodupNames u us n (ground arith),
)

found_has : (name : String) (us : List User) → find_user name us ≡ none → has_user name us ≡ false
unfolding has_user find_user
found_has name [] h = refl
found_has name (c ∷ us) h = ground (arith, found_has name us)

replace_user-NodupNames :
    (u : User) (us : List User) → NodupNames us → NodupNames (replace_user u us)
unfolding replace_user
replace_user-NodupNames u [] n = tt
replace_user-NodupNames u (c ∷ us) (fresh, n) = (
  ground (
    arith,
    find-replace_user c.username u us,
    find-replace_user u.username u us,
    found_has c.username us,
  ),
  replace_user-NodupNames u us n,
)

-- In a list without repeated names, no name stands twice after `createOrUpdateUser` has updated it.
pub upsert_user-NodupNames :
    (u : User) (us : List User) → NodupNames us → NodupNames (upsert_user u us)
unfolding upsert_user
upsert_user-NodupNames u us n = elim (Bool-cases (has_user u.username us)) [
  | inl old ↦ rw (old, upsert_user, append-nil) (replace_user-NodupNames u us n)
  | inr new ↦
      rw (new, upsert_user)
        (append-NodupNames u (replace_user u us) (replace_user-NodupNames u us n)
          (ground (arith, find-replace_user u.username u us)))
]
