-- ===== src/Ws/Table.antt =====
-- The table of users and connections as a map from a user and a connection id.
use mathlib.Core.Option
use mathlib.Core.Option.{some-injective}
use tapr.Base.{
  String, Bool, false, Option, none, some, List, [], ◌∷◌, ◌≡◌, refl, ◌&&◌, if◌then◌else◌, ◌==◌,
  contains, string_eq, is_empty, arith, inl, inr, Option-cases, All,
}
use tapr.Base.Dict.{
  Dict, lookup, erase, NodupKeys, lookup-insert, lookup-erase, insert-NodupKeys, erase-NodupKeys,
  All-lookup, All-of_lookup, All-insert, All-erase, insert_nonempty,
}
use tapr.Ws.Types.{Client, Conn, User, lookup_conn}
use tapr.Ws.Server.{add_client, close_each, sweep, erase_all, remove_conns}

-- A client stands under its own connection's id, and under its own user.
abbrev pub IsOwn : String → String × Client → Type 0
IsOwn name (id, c) = (k : Conn) × (c.conn ≡ some k) × (k.user ≡ name) × (k.conn_id ≡ id)

pub record IsValidUser (entry : String × User) : Type 0 where
  pub named : entry.1.name ≡ entry.0
  pub nodup : NodupKeys entry.1.conns
  pub inhabited : is_empty entry.1.conns ≡ false
  pub own : All (IsOwn entry.0) entry.1.conns

pub record IsValid (users : Dict String User) : Type 0 where
  pub nodup : NodupKeys users
  pub each : All IsValidUser users

-- A new connection is found under its user and id, and every other one stays as it was.
pub lookup_conn-add_client :
    (user id name i : String) (c : Client) (users : Dict String User)
    → lookup_conn user id (add_client name i c users)
      ≡ (if user == name && id == i then some c else lookup_conn user id users)
unfolding add_client lookup
lookup_conn-add_client user id name i c users = elim (Option-cases (lookup name users)) [
  | inl e ↦ rw (e, add_client) rw lookup-insert (ground (arith, lookup-insert id i c []))
  | inr (u, e) ↦ rw (e, add_client) rw lookup-insert (ground (arith, lookup-insert id i c u.conns))
]

-- On a well-formed table, a connection that is added under its own user and id leaves a well-formed
-- table, also where that user has connections already or the id is taken.
pub add_client-IsValid :
    (k : Conn) (users : Dict String User)
    → IsValid users
    → IsValid (add_client k.user k.conn_id (record { conn = some k }) users)
unfolding add_client
add_client-IsValid k users v = elim (Option-cases (lookup k.user users)) [
  | inl e ↦
      rw (e, add_client)
        (record {
          nodup = insert-NodupKeys _ _ users v.nodup;
          each =
              All-insert IsValidUser _ _ users
                (record {
                  named = refl;
                  nodup = insert-NodupKeys _ _ [] tt;
                  inhabited = insert_nonempty k.conn_id _ [];
                  own = All-insert (IsOwn k.user) _ _ [] (k, refl, refl, refl) tt;
                })
                v.each;
        })
  | inr (u, e) ↦
      rw (e, add_client)
        (let w = All-lookup IsValidUser k.user users v.each e in
          record {
            nodup = insert-NodupKeys _ _ users v.nodup;
            each =
                All-insert IsValidUser _ _ users
                  (record {
                    named = w.named;
                    nodup = insert-NodupKeys _ _ u.conns w.nodup;
                    inhabited = insert_nonempty k.conn_id _ u.conns;
                    own = All-insert (IsOwn k.user) _ _ u.conns (k, refl, refl, refl) w.own;
                  })
                  v.each;
          })
]

close_each-lookup :
    (name j : String) (ids : List String) (conns : Dict String Client)
    → All (IsOwn name) conns
    → lookup j (close_each ids conns).0 ≡ (if contains ids j then none else lookup j conns)
unfolding close_each
close_each-lookup name j [] conns own = refl
close_each-lookup name j (id ∷ ids) conns own = elim (Option-cases (lookup id conns)) [
  | inl e ↦ rw (e, close_each) ground (arith, close_each-lookup name j ids conns own)
  | inr (c, e) ↦
      let (k, stored, _, _) = All-lookup (IsOwn name) id conns own e in
      rw (e, stored, close_each)
        (ground (
          arith,
          close_each-lookup name j ids (erase id conns) (All-erase (IsOwn name) id conns own),
          lookup-erase j id conns,
        ))
]

close_each-NodupKeys :
    (ids : List String) (conns : Dict String Client)
    → NodupKeys conns
    → NodupKeys (close_each ids conns).0
unfolding close_each
close_each-NodupKeys [] conns u = u
close_each-NodupKeys (id ∷ ids) conns u = ground (
  arith,
  close_each-NodupKeys ids conns u,
  close_each-NodupKeys ids (erase id conns) (erase-NodupKeys id conns u),
)

close_each-IsOwn :
    (name : String) (ids : List String) (conns : Dict String Client)
    → All (IsOwn name) conns
    → All (IsOwn name) (close_each ids conns).0
unfolding close_each
close_each-IsOwn name [] conns own = own
close_each-IsOwn name (id ∷ ids) conns own = ground (
  arith,
  close_each-IsOwn name ids conns own,
  close_each-IsOwn name ids (erase id conns) (All-erase (IsOwn name) id conns own),
)

-- What is left of a user by the sweep.
abbrev swept : List String → User → User
swept ids u = record u { conns = (close_each ids u.conns).0 }

lookup-sweep :
    (name : String) (ids : List String) (users : Dict String User)
    → lookup name (sweep ids users).0 ≡ Option.map (swept ids) (lookup name users)
unfolding sweep lookup
lookup-sweep name ids [] = refl
lookup-sweep name ids ((n, u) ∷ users) = ground (arith, lookup-sweep name ids users)

sweep-NodupKeys :
    (ids : List String) (users : Dict String User) → NodupKeys users → NodupKeys (sweep ids users).0
unfolding sweep
sweep-NodupKeys ids [] u = tt
sweep-NodupKeys ids ((n, u) ∷ users) (fresh, rest) =
    (ground (arith, lookup-sweep n ids users), sweep-NodupKeys ids users rest)

abbrev left_empty : List String → Option User → Bool
left_empty ids none = false
left_empty ids (some u) = is_empty (close_each ids u.conns).0

contains-sweep :
    (name : String) (ids : List String) (users : Dict String User)
    → NodupKeys users
    → contains (sweep ids users).1 name ≡ left_empty ids (lookup name users)
unfolding sweep lookup
contains-sweep name ids [] u = refl
contains-sweep name ids ((n, w) ∷ users) (fresh, rest) =
    ground (arith, contains-sweep name ids users rest)

module _ {ℓ} {V : Type ℓ} where
  lookup-erase_all :
      (k : String) (ks : List String) (d : Dict String V)
      → lookup k (erase_all ks d) ≡ (if contains ks k then none else lookup k d)
  unfolding erase_all
  lookup-erase_all k [] d = refl
  lookup-erase_all k (j ∷ ks) d =
      ground (arith, lookup-erase_all k ks (erase j d), lookup-erase k j d)

  erase_all-NodupKeys :
      (ks : List String) (d : Dict String V) → NodupKeys d → NodupKeys (erase_all ks d)
  unfolding erase_all
  erase_all-NodupKeys [] d u = u
  erase_all-NodupKeys (j ∷ ks) d u = erase_all-NodupKeys ks (erase j d) (erase-NodupKeys j d u)

lookup-remove_conns :
    (name : String) (ids : List String) (users : Dict String User)
    → NodupKeys users
    → lookup name (remove_conns ids users).0 ≡ (
        if left_empty ids (lookup name users)
        then none
        else Option.map (swept ids) (lookup name users))
unfolding remove_conns
lookup-remove_conns name ids users u = ground (
  arith,
  lookup-erase_all name (sweep ids users).1 (sweep ids users).0,
  contains-sweep name ids users u,
  lookup-sweep name ids users,
)

-- On a well-formed table: after the removal a connection is found unless its id is listed, and it is
-- the one that was found before.
pub lookup_conn-remove_conns :
    (user id : String) (ids : List String) (users : Dict String User)
    → IsValid users
    → lookup_conn user id (remove_conns ids users).0
      ≡ (if contains ids id then none else lookup_conn user id users)
unfolding lookup
lookup_conn-remove_conns user id ids users v =
    rw (lookup-remove_conns user ids users v.nodup) (elim (Option-cases (lookup user users)) [
      | inl e ↦ ground arith
      | inr (u, e) ↦ ground (
        arith,
        close_each-lookup user id ids u.conns (All-lookup IsValidUser user users v.each e).own,
      )
    ])

remove_conns_found :
    (name : String) (ids : List String) (users : Dict String User) {w : User}
    → NodupKeys users
    → lookup name (remove_conns ids users).0 ≡ some w
    → (u : User) × (lookup name users ≡ some u)
      × (is_empty (close_each ids u.conns).0 ≡ false)
      × (w ≡ swept ids u)
remove_conns_found name ids users n found = elim (Option-cases (lookup name users)) [
  | inl e ↦ absurd (ground (arith, lookup-remove_conns name ids users n))
  | inr (u, e) ↦ (
    u,
    e,
    ground (arith, lookup-remove_conns name ids users n),
    ground (arith, lookup-remove_conns name ids users n),
  )
]

remove_conns-NodupKeys :
    (ids : List String) (users : Dict String User)
    → NodupKeys users
    → NodupKeys (remove_conns ids users).0
unfolding remove_conns
remove_conns-NodupKeys ids users n =
    erase_all-NodupKeys (sweep ids users).1 _ (sweep-NodupKeys ids users n)

swept-IsValidUser :
    (name : String) (ids : List String) (u : User)
    → IsValidUser (name, u)
    → is_empty (close_each ids u.conns).0 ≡ false
    → IsValidUser (name, swept ids u)
swept-IsValidUser name ids u v inhabited = record {
  named = v.named;
  nodup = close_each-NodupKeys ids u.conns v.nodup;
  inhabited = inhabited;
  own = close_each-IsOwn name ids u.conns v.own;
}

-- Whatever ids are removed, a well-formed table stays well formed; so no user without connections is
-- left.
pub remove_conns-IsValid :
    (ids : List String) (users : Dict String User)
    → IsValid users
    → IsValid (remove_conns ids users).0
remove_conns-IsValid ids users v = record {
  nodup = remove_conns-NodupKeys ids users v.nodup;
  each = All-of_lookup IsValidUser _ (remove_conns-NodupKeys ids users v.nodup) (λ name w found.
      let (u, e, inhabited, same) = remove_conns_found name ids users v.nodup found in
      rw same
        (swept-IsValidUser name ids u (All-lookup IsValidUser name users v.each e) inhabited));
}
