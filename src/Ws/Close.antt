-- ===== src/Ws/Close.antt =====
-- `closeConns` of pkg/ws/server.go: it never panics on a well-formed table, and it removes exactly
-- the connections that its message selects.
use tapr.Base.{
  ℕ, String, Bool, true, false, none, some, List, [], ◌∷◌, ◌++◌, ◌≡◌, refl, ◌∙◌, ◌&&◌,
  if◌then◌else◌, ◌==◌, contains, ==_refl, string_eq, arith, Bool-cases, sym, inl, inr, Option-cases,
  or_cases, All,
}
use tapr.Base.Dict.{Dict, lookup, NodupKeys, lookup_head, lookup_later}
use tapr.Base.Panic.{>>=-eq-some}
use tapr.Ws.Types.{CloseMessage, Client, Conn, User, lookup_conn}
use tapr.Ws.Filter.{Fields, fields_of_conns, new_filter, bool_text, result}
use tapr.Ws.Server.{select_fields, close_targets, close_listed, close_conns}
use tapr.Ws.Select.{selects, any_client, any_conn, contains-select}
use tapr.Ws.Table.{IsOwn, IsValidUser, IsValid, lookup_conn-remove_conns, remove_conns-IsValid}

-- A connection id belongs to one user.
abbrev pub IsUnique : Dict String User → Type 0
IsUnique users =
    (u w id : String) (c d : Client)
    → lookup_conn u id users ≡ some c
    → lookup_conn w id users ≡ some d
    → u ≡ w

fields_of_conns_total :
    (name : String) (conns : Dict String Client)
    → All (IsOwn name) conns
    → (fs : List Fields) × (fields_of_conns name conns ≡ some fs)
unfolding fields_of_conns
fields_of_conns_total name [] own = ([], refl)
fields_of_conns_total name ((id, c) ∷ conns) ((k, e, _, _), own) =
    let (fs, e') = fields_of_conns_total name conns own in
    (
      record {
        user = name;
        token = k.token;
        conn_id = id;
        public = bool_text k.access_public;
        client = c;
      }
          ∷ fs,
      rw (e, e'),
    )

pub new_filter_total :
    (users : Dict String User)
    → All IsValidUser users
    → (fs : List Fields) × (new_filter users ≡ some fs)
unfolding new_filter
new_filter_total [] v = ([], refl)
new_filter_total ((name, u) ∷ users) (w, v) =
    let (here, e) = fields_of_conns_total name u.conns w.own in
    let (more, e') = new_filter_total users v in (here ++ more, rw (e, e'))

lookup_conn_later :
    (u id name : String) (w : User) (users : Dict String User) {c : Client}
    → lookup name users ≡ none
    → lookup_conn u id users ≡ some c
    → lookup_conn u id ((name, w) ∷ users) ≡ some c
lookup_conn_later u id name w users fresh found =
    let (x, e, e') = >>=-eq-some (lookup u users) _ found in
    rw (lookup_later u name w users fresh e) e'

module _ (p : String → String → Conn → Bool) where
  any_client_found :
      (u id : String) (k : Conn) (c : Client) (conns : Dict String Client)
      → c.conn ≡ some k
      → p u id k ≡ true
      → lookup id conns ≡ some c
      → any_client (p u) conns ≡ true
  unfolding any_client lookup
  any_client_found u id k c [] e t found = cc
  any_client_found u id k c ((i, d) ∷ conns) e t found =
      ground (arith, any_client_found u id k c conns e t)

  pub any_conn_found :
      (u id : String) (k : Conn) (c : Client) (users : Dict String User)
      → c.conn ≡ some k
      → p u id k ≡ true
      → lookup_conn u id users ≡ some c
      → any_conn p users ≡ true
  unfolding any_conn lookup
  any_conn_found u id k c [] e t found = cc
  any_conn_found u id k c ((name, w) ∷ users) e t found =
      ground (arith, any_client_found u id k c w.conns e t, any_conn_found u id k c users e t)

  client_witness :
      (u id : String) (c : Client)
      → elim c.conn [ none ↦ false | some k ↦ p u id k ] ≡ true
      → (k : Conn) × (c.conn ≡ some k) × (p u id k ≡ true)
  client_witness u id c t = elim (Option-cases c.conn) [
    | inl e ↦ absurd (ground arith)
    | inr (k, e) ↦ (k, e, ground arith)
  ]

  any_client_witness :
      (u : String) (conns : Dict String Client)
      → NodupKeys conns
      → any_client (p u) conns ≡ true
      → (id : String) × (c : Client) × (k : Conn) × (lookup id conns ≡ some c)
        × (c.conn ≡ some k)
        × (p u id k ≡ true)
  unfolding any_client
  any_client_witness u [] n t = cc
  any_client_witness u ((i, d) ∷ conns) (fresh, n) t = elim (or_cases _ _ t) [
    | inl here ↦
        let (k, e, t') = client_witness u i d here in (i, d, k, lookup_head i d conns, e, t')
    | inr later ↦
        let (id, c, k, found, e, t') = any_client_witness u conns n later in
        (id, c, k, lookup_later id i d conns fresh found, e, t')
  ]

  pub any_conn_witness :
      (users : Dict String User)
      → IsValid users
      → any_conn p users ≡ true
      → (u id : String) × (c : Client) × (k : Conn) × (lookup_conn u id users ≡ some c)
        × (c.conn ≡ some k)
        × (p u id k ≡ true)
  unfolding any_conn
  any_conn_witness [] v t = cc
  any_conn_witness ((name, w) ∷ users) v t = elim (or_cases _ _ t) [
    | inl here ↦
        let (id, c, k, found, e, t') = any_client_witness name w.conns v.each.0.nodup here in
        (name, id, c, k, rw lookup_head found, e, t')
    | inr later ↦
        let (u, id, c, k, found, e, t') =
          any_conn_witness users (record { nodup = v.nodup.1; each = v.each.1 }) later in
        (u, id, c, k, lookup_conn_later u id name w users v.nodup.0 found, e, t')
  ]

conn_eq :
    (u w id i : String) (users : Dict String User) (c : Client) (k l : Conn)
    → w ≡ u
    → id ≡ i
    → lookup_conn w i users ≡ some c
    → c.conn ≡ some l
    → lookup_conn u id users ≡ some (record { conn = some k })
    → l ≡ k
conn_eq u w id i users c k l eu ei f e g =
    let f' : lookup_conn u id users ≡ some c = rw (← eu, ei) f in ground arith

-- With ids that belong to one user, a test of the connections with an id is a test of that one.
pub any_conn_unique :
    (here : String → String → Conn → Bool) (users : Dict String User) (u id : String) (k : Conn)
    → IsValid users
    → IsUnique users
    → lookup_conn u id users ≡ some (record { conn = some k })
    → any_conn (λ w i l. here w i l && id == i) users ≡ here u id k
any_conn_unique here users u id k v unique found = elim (Bool-cases (here u id k)) [
  | inl s ↦ any_conn_found p u id k _ users refl (rw (s, ==_refl)) found ∙ sym s
  | inr s ↦ elim (Bool-cases (any_conn p users)) [
    | inr f ↦ f ∙ sym s
    | inl t ↦
        let (w, i, c, l, found', e', t') = any_conn_witness p users v t in
        let ei : id ≡ i = ground arith in
        let eu : w ≡ u = unique w u id c _ (rw ei found') found in
        let ek : l ≡ k = conn_eq u w id i users c k l eu ei found' e' found in absurd (ground arith)
  ]
]
  where
    p : String → String → Conn → Bool
    p w i l = here w i l && id == i

-- So an id is chosen exactly when its connection is selected.
pub contains-chosen :
    (us : List String) (access : ℕ) (tokens ids : List String) (users : Dict String User)
    (fs : List Fields) (u id : String) (k : Conn)
    → IsValid users
    → IsUnique users
    → new_filter users ≡ some fs
    → lookup_conn u id users ≡ some (record { conn = some k })
    → contains (result (select_fields us access tokens ids fs)) id
      ≡ selects us access tokens ids u id k
contains-chosen us access tokens ids users fs u id k v unique e found =
    contains-select us access tokens ids users fs id e
    ∙ any_conn_unique (selects us access tokens ids) users u id k v unique found

pub lookup_conn-close_listed :
    (u id : String) (ids : List String) (users : Dict String User)
    → IsValid users
    → lookup_conn u id (close_listed ids users).0
      ≡ (if contains ids id then none else lookup_conn u id users)
lookup_conn-close_listed u id [] users v = refl
lookup_conn-close_listed u id (i ∷ ids) users v = lookup_conn-remove_conns u id (i ∷ ids) users v

pub close_listed-IsValid :
    (ids : List String) (users : Dict String User)
    → IsValid users
    → IsValid (close_listed ids users).0
close_listed-IsValid [] users v = v
close_listed-IsValid (i ∷ ids) users v = remove_conns-IsValid (i ∷ ids) users v

-- On a well-formed table whose connection ids are unique, `closeConns` does not panic, keeps the
-- table well formed, removes a connection exactly when the message selects it, and adds none.
pub close_conns-selects :
    (m : CloseMessage) (users : Dict String User)
    → IsValid users
    → IsUnique users
    → (users' : Dict String User) × (closed : List Client) × (close_conns m users
        ≡ some (users', closed))
      × IsValid users'
      × ((u id : String) (k : Conn)
          → lookup_conn u id users ≡ some (record { conn = some k })
          → lookup_conn u id users' ≡ (
              if selects m.users m.users_access_type m.tokens m.conn_ids u id k
              then none
              else some (record { conn = some k })))
      × ((u id : String) → lookup_conn u id users ≡ none → lookup_conn u id users' ≡ none)
unfolding close_conns close_targets
close_conns-selects m users v unique =
    let (fs, e) = new_filter_total users v.each in
    let r : List String =
      result (select_fields m.users m.users_access_type m.tokens m.conn_ids fs) in
    (
      (close_listed r users).0,
      (close_listed r users).1,
      rw (e, close_conns),
      close_listed-IsValid r users v,
      λ u id k found. rw (
        lookup_conn-close_listed u id r users v,
        contains-chosen m.users m.users_access_type m.tokens m.conn_ids users fs u id k v unique e
            found,
        found,
      ),
      λ u id absent. rw (lookup_conn-close_listed u id r users v) (ground arith),
    )
