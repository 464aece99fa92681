-- ===== src/Ws/Loop/Safety.antt =====
-- What holds of the server at every point of a run.
use tapr.Base.{
  ℕ, ◌≤◌, String, none, some, List, [], ◌∷◌, ◌≡◌, refl, string_eq, arith, ap, inl, inr, length,
  length-append, Option-cases,
}
use tapr.Base.Dict.{Dict, lookup, lookup-adjust, adjust-NodupKeys, is_empty-adjust, All-adjust}
use tapr.Ws.Types.{Client, Conn, User, lookup_conn, queue_size}
use tapr.Ws.Filter.{Fields, new_filter}
use tapr.Ws.Server.{add_client, close_listed}
use tapr.Ws.Table.{IsOwn, IsValidUser, IsValid, lookup_conn-add_client, add_client-IsValid}
use tapr.Ws.Close.{IsUnique, new_filter_total, close_listed-IsValid, lookup_conn-close_listed}
use tapr.Ws.Loop.{
  refresh, refresh_user, update_expiration, State, Step, connect, ping, ask_close, ask_write, tell,
  take_close, finish_close, take_write, take_read, Reach, here, next, init,
}

pub record Inv {J : Type 0} (s : State J) : Type 0 where
  pub valid : IsValid s.users
  pub unique : IsUnique s.users
  pub read_bound : length s.read_queue ≤ queue_size
  pub write_bound : length s.write_queue ≤ queue_size
  pub close_bound : length s.close_queue ≤ queue_size

-- A table with no new places inherits the uniqueness of ids.
IsUnique-of_places :
    (users users' : Dict String User)
    → ((u id : String) (c : Client)
        → lookup_conn u id users' ≡ some c
        → (d : Client) × (lookup_conn u id users ≡ some d))
    → IsUnique users
    → IsUnique users'
IsUnique-of_places users users' old unique u w id c d p q =
    let (c', p') = old u id c p in let (d', q') = old w id d q in unique u w id c' d' p' q'

add_client-IsUnique :
    (k : Conn) (users : Dict String User)
    → ((u : String) → lookup_conn u k.conn_id users ≡ none)
    → IsUnique users
    → IsUnique (add_client k.user k.conn_id (record { conn = some k }) users)
add_client-IsUnique k users fresh unique u w id c d p q = ground (
  arith,
  lookup_conn-add_client u id k.user k.conn_id (record { conn = some k }) users,
  lookup_conn-add_client w id k.user k.conn_id (record { conn = some k }) users,
  fresh u,
  fresh w,
  unique u w id c d,
)

refresh-IsOwn :
    (name id : String) (now : ℕ) (c : Client) → IsOwn name (id, c) → IsOwn name (id, refresh now c)
refresh-IsOwn name id now c (k, e, named, own) = (record k { expired = some now }, rw e, named, own)

refresh_user-IsValidUser :
    (name id : String) (now : ℕ) (u : User)
    → IsValidUser (name, u)
    → IsValidUser (name, refresh_user id now u)
refresh_user-IsValidUser name id now u v = record {
  named = v.named;
  nodup = adjust-NodupKeys id _ u.conns v.nodup;
  inhabited = rw is_empty-adjust v.inhabited;
  own = All-adjust (IsOwn name) id _ u.conns (λ j c. refresh-IsOwn name j now c) v.own;
}

update_expiration-IsValid :
    (user id : String) (now : ℕ) (users : Dict String User)
    → IsValid users
    → IsValid (update_expiration user id now users)
unfolding update_expiration
update_expiration-IsValid user id now users v = record {
  nodup = adjust-NodupKeys user _ users v.nodup;
  each =
      All-adjust IsValidUser user _ users (λ name u. refresh_user-IsValidUser name id now u) v.each;
}

update_expiration_places :
    (user i : String) (now : ℕ) (users : Dict String User) (u id : String) (c : Client)
    → lookup_conn u id (update_expiration user i now users) ≡ some c
    → (d : Client) × (lookup_conn u id users ≡ some d)
unfolding update_expiration
update_expiration_places user i now users u id c p = elim (Option-cases (lookup_conn u id users)) [
  | inr found ↦ found
  | inl absent ↦ elim (Option-cases (lookup u users)) [
    | inl e ↦ absurd (ground (arith, lookup-adjust u user (refresh_user i now) users))
    | inr (x, e) ↦ absurd (
        ground (
          arith,
          lookup-adjust u user (refresh_user i now) users,
          lookup-adjust id i (refresh now) x.conns,
        ))
  ]
]

close_listed_places :
    (ids : List String) (users : Dict String User) (u id : String) (c : Client)
    → IsValid users
    → lookup_conn u id (close_listed ids users).0 ≡ some c
    → (d : Client) × (lookup_conn u id users ≡ some d)
close_listed_places ids users u id c v p =
    (c, ground (arith, lookup_conn-close_listed u id ids users v))

same_table :
    {J : Type 0} (s t : State J)
    → Inv s
    → t.users ≡ s.users
    → length t.read_queue ≤ queue_size
    → length t.write_queue ≤ queue_size
    → length t.close_queue ≤ queue_size
    → Inv t
same_table s t i e r w c = record {
  valid = rw e i.valid;
  unique = rw e i.unique;
  read_bound = r;
  write_bound = w;
  close_bound = c;
}

length_rest :
    {M : Type 0} (m : M) (rest : List M) {q : List M}
    → q ≡ m ∷ rest
    → length q ≤ queue_size
    → length rest ≤ queue_size
length_rest m rest e bound = omega (arith, ap length e)

no_places : IsUnique []
unfolding lookup
no_places u w id c d p q = cc

-- Every step keeps the table well formed, the ids unique and the queues within their capacity.
module _ {J : Type 0} where
  pub Step-Inv : {s t : State J} → Step s t → Inv s → Inv t
  Step-Inv {s} (connect k fresh e) i = rw e (record {
    valid = add_client-IsValid k s.users i.valid;
    unique = add_client-IsUnique k s.users fresh i.unique;
    read_bound = i.read_bound;
    write_bound = i.write_bound;
    close_bound = i.close_bound;
  })
  Step-Inv {s} (ping user id now e) i = rw e (record {
    valid = update_expiration-IsValid user id now s.users i.valid;
    unique = IsUnique-of_places s.users _ (update_expiration_places user id now s.users) i.unique;
    read_bound = i.read_bound;
    write_bound = i.write_bound;
    close_bound = i.close_bound;
  })
  Step-Inv {s} (ask_close m room e) i = rw e (
      same_table s _ i refl i.read_bound i.write_bound
        (omega (arith, length-append {0} s.close_queue (m ∷ []))))
  Step-Inv {s} (ask_write m room e) i = rw e (
      same_table s _ i refl i.read_bound (omega (arith, length-append {0} s.write_queue (m ∷ [])))
        i.close_bound)
  Step-Inv {s} (tell m room e) i = rw e (
      same_table s _ i refl (omega (arith, length-append {0} s.read_queue (m ∷ []))) i.write_bound
        i.close_bound)
  Step-Inv {s} (take_close m rest ids idle e found e') i =
      rw e' (same_table s _ i refl i.read_bound i.write_bound (length_rest m rest e i.close_bound))
  Step-Inv {s} (finish_close ids e e') i = rw e' (record {
    valid = close_listed-IsValid ids s.users i.valid;
    unique =
        IsUnique-of_places s.users _ (λ u id c. close_listed_places ids s.users u id c i.valid)
          i.unique;
    read_bound = i.read_bound;
    write_bound = i.write_bound;
    close_bound = i.close_bound;
  })
  Step-Inv {s} (take_write m rest e e') i =
      rw e' (same_table s _ i refl i.read_bound (length_rest m rest e i.write_bound) i.close_bound)
  Step-Inv {s} (take_read m rest e e') i =
      rw e' (same_table s _ i refl (length_rest m rest e i.read_bound) i.write_bound i.close_bound)

  pub Reach-Inv : {s t : State J} → Inv s → Reach s t → Inv t
  Reach-Inv i here = i
  Reach-Inv i (next r st) = Step-Inv st (Reach-Inv i r)

  pub init-Inv : Inv (init {J = J})
  init-Inv = record {
    valid = record { nodup = tt; each = tt };
    unique = no_places;
    read_bound = omega arith;
    write_bound = omega arith;
    close_bound = omega arith;
  }

  -- From the start, whatever the handlers, routines and clients do and however they interleave: the
  -- table is well formed, no id belongs to two users, no queue is above its capacity, and the filter
  -- that `closeConns`, `routineWrite` and `checkExpired` build does not panic.
  pub Reach-safe :
      {t : State J} → Reach init t → Inv t × ((fs : List Fields) × (new_filter t.users ≡ some fs))
  Reach-safe r = let i = Reach-Inv init-Inv r in (i, new_filter_total _ i.valid.each)
