-- ===== src/Nats/Users/Delete.antt =====
-- `DeleteUser` on a list without repeated names.
use mathlib.Core.List.{append_assoc, append-nil}
use tapr.Base.{
  ℕ, ◌+◌, ◌-◌, String, Bool, true, false, not, none, some, List, [], ◌∷◌, ◌++◌, ◌≡◌, refl, ◌∙◌, ap,
  sym, ◌==◌, string_eq, ltb, arith, length, length-append, take, drop, filter, filter-All,
  take-length, take-length-append, All, All-append, All-drop, Bool-cases, inl, inr,
}
use tapr.Nats.Types.{User}
use tapr.Nats.Users.{find_user, NodupNames, shift_up, delete_loop, delete_user}

length_last {ℓ} : {A : Type ℓ} (a : A) (xs : List A) → length (drop (length xs) (a ∷ xs)) ≡ 1
length_last a [] = refl
length_last a (b ∷ xs) = length_last b xs

module _ (name : String) where
  abbrev other : User → Bool
  other u = not (u.username == name)

  abbrev Others : List User → Type 0
  Others = All (λ u. other u ≡ true)

  Others-of_absent : (us : List User) → find_user name us ≡ none → Others us
  unfolding find_user
  Others-of_absent [] h = tt
  Others-of_absent (u ∷ us) h = (ground arith, Others-of_absent us (ground arith))

  -- Where no element from the index on has the name, the slice stays as it is.
  loop_of_Others :
      (front rest : List User) (len : ℕ)
      → Others rest
      → delete_loop name (length rest) front rest len ≡ some (take len (front ++ rest))
  unfolding delete_loop
  loop_of_Others front [] len h = refl
  loop_of_Others front (u ∷ rest) len (o, h) =
      let e : (u.username == name) ≡ false = ground arith in
      rw (e, delete_loop)
        (loop_of_Others (front ++ (u ∷ [])) rest len h
          ∙ ap (λ (us : List User). some (take len us)) (append_assoc front (u ∷ []) rest))

  -- The last element is copied up and left behind once.
  after_match :
      (u : User) (behind : List User)
      → Others behind
      → (v : User) × (rest : List User) × (shift_up (length behind) u behind ≡ v ∷ rest)
        × (length rest ≡ length behind)
        × Others rest
        × (ws : List User) × (v ∷ rest ≡ behind ++ ws)
  after_match u [] h = (u, [], refl, refl, tt, u ∷ [], refl)
  after_match u (b ∷ behind) (o, h) =
      let ws : List User = drop (length behind) (b ∷ behind) in
      (
        b,
        take (length behind) behind ++ ws,
        refl,
        omega (
          arith,
          length-append {0} (take (length behind) behind) ws,
          ap length (take-length behind),
          length_last b behind,
        ),
        All-append _ (take (length behind) behind) ws (rw (take-length behind) h)
            (All-drop _ (length behind) (b ∷ behind) (o, h)),
        ws,
        ap (λ (us : List User). b ∷ (us ++ ws)) (take-length behind),
      )

  take-after_match :
      (front behind ws rest : List User) (v : User) (len : ℕ)
      → v ∷ rest ≡ behind ++ ws
      → len ≡ length front + length behind
      → take len ((front ++ (v ∷ [])) ++ rest) ≡ front ++ behind
  take-after_match front behind ws rest v len split e =
      rw (append_assoc front (v ∷ []) rest, split, ← append_assoc front behind ws, e)
        (rw (← length-append front behind) (take-length-append (front ++ behind) ws))

  delete_loop-filter :
      (front rest : List User) (len : ℕ)
      → len ≡ length front + length rest
      → NodupNames rest
      → delete_loop name (length rest) front rest len ≡ some (front ++ filter other rest)
  unfolding delete_loop filter
  delete_loop-filter front [] len e n =
      let e' : len ≡ length front = omega (arith, e) in
      ap some (rw (e', append-nil) (take-length front))
  delete_loop-filter front (u ∷ behind) len e (fresh, n) = elim (Bool-cases (u.username == name)) [
    | inr differ ↦
        rw (differ, delete_loop)
          (delete_loop-filter (front ++ (u ∷ [])) behind len
              (omega (arith, e, length-append {0} front (u ∷ []))) n
            ∙ ap some (append_assoc front (u ∷ []) (filter other behind)))
    | inl same ↦
        let h : Others behind = Others-of_absent behind (ground arith) in
        let (v, rest, shifted, size, left, ws, split) = after_match u behind h in
        let room : ltb len (length front + 1) ≡ false = ground arith in
        let window : len - (length front + 1) ≡ length behind = omega (arith, e) in
        rw (same, delete_loop)
          (rw (room, window, shifted)
            (rw (← size) (
              loop_of_Others (front ++ (v ∷ [])) rest (len - 1) left
              ∙ ap some (
                  take-after_match front behind ws rest v (len - 1) split (omega (arith, e))
                  ∙ ap (◌++◌ front) (sym (filter-All other behind h))))))
  ]

-- On a list without repeated names `DeleteUser` stays within the bounds of its slices, and leaves
-- exactly the users of other names, in their order.
pub delete_user-filter :
    (name : String) (us : List User)
    → NodupNames us
    → delete_user name us ≡ some (filter (λ u. not (u.username == name)) us)
unfolding delete_user
delete_user-filter name us n = delete_loop-filter name [] us (length us) (omega arith) n
