-- ===== src/Ws/Select.antt =====
-- Which connections the filters of pkg/ws choose, said of the table and not of the filter's records.
use tapr.Base.{
  ℕ, String, Bool, true, false, none, some, List, [], ◌∷◌, ◌≡◌, refl, ◌∙◌, ◌&&◌, ◌||◌, not,
  if◌then◌else◌, ◌==◌, contains, string_eq, nat_eq, is_empty, any, any-append, any-filter, arith,
  Bool-cases, ap, sym, inl, inr, and_assoc,
}
use mathlib.Core.Path.{fun_ext}
use tapr.Base.Dict.{Dict}
use tapr.Base.Panic.{>>=-eq-some}
use tapr.Ws.Types.{Client, Conn, User}
use tapr.Ws.Filter.{
  Fields, bool_text, fields_of_conns, new_filter, result, filter_by, filter_by_users,
  filter_by_publics_only, filter_by_privates_only,
}
use tapr.Ws.Server.{select_fields}

abbrev pub access_ok : ℕ → Bool → Bool
access_ok access public = if access == 1 then not public else if access == 2 then public else true

-- The connection `id` of `user` meets every criterion that is given. The access level counts only
-- beside a list of users.
unfoldable pub selects : List String → ℕ → List String → List String → String → String → Conn → Bool
selects users access tokens ids user id k =
    (is_empty users || (contains users user && access_ok access k.access_public))
    && (is_empty tokens || contains tokens k.token)
    && (is_empty ids || contains ids id)

-- A test that some connection of the table meets.
unfoldable pub any_client : (String → Conn → Bool) → Dict String Client → Bool
any_client p [] = false
any_client p ((id, c) ∷ conns) =
    elim c.conn [ none ↦ false | some k ↦ p id k ] || any_client p conns

unfoldable pub any_conn : (String → String → Conn → Bool) → Dict String User → Bool
any_conn p [] = false
any_conn p ((name, u) ∷ users) = any_client (p name) u.conns || any_conn p users

abbrev pub to_fields : String → String → Conn → Fields
to_fields user id k = record {
  user = user;
  token = k.token;
  conn_id = id;
  public = bool_text k.access_public;
  client = record { conn = some k };
}

any-fields_of_conns :
    (q : Fields → Bool) (name : String) (conns : Dict String Client) (fs : List Fields)
    → fields_of_conns name conns ≡ some fs
    → any q fs ≡ any_client (λ id k. q (to_fields name id k)) conns
unfolding fields_of_conns any any_client
any-fields_of_conns q name [] fs h = ground arith
any-fields_of_conns q name ((id, c) ∷ conns) fs h =
    let (k, e, h') = >>=-eq-some c.conn _ h in
    let (more, e', h'') = >>=-eq-some (fields_of_conns name conns) _ h' in
    ground (arith, any-fields_of_conns q name conns more e', e, h'')

pub any-new_filter :
    (q : Fields → Bool) (users : Dict String User) (fs : List Fields)
    → new_filter users ≡ some fs
    → any q fs ≡ any_conn (λ u id k. q (to_fields u id k)) users
unfolding new_filter any any_conn
any-new_filter q [] fs h = ground arith
any-new_filter q ((name, u) ∷ users) fs h =
    let (here, e, h') = >>=-eq-some (fields_of_conns name u.conns) _ h in
    let (more, e', h'') = >>=-eq-some (new_filter users) _ h' in
    ground (
      arith,
      any-fields_of_conns q name u.conns here e,
      any-new_filter q users more e',
      any-append q here more,
      h'',
    )

pub contains-result :
    (id : String) (ds : List Fields) → contains (result ds) id ≡ any (λ d. id == d.conn_id) ds
unfolding result any
contains-result id [] = refl
contains-result id (d ∷ ds) = ground (arith, contains-result id ds)

any-false : (ds : List Fields) → any (λ d. false) ds ≡ false
unfolding any
any-false [] = refl
any-false (d ∷ ds) = any-false ds

module _ (p : Fields → Bool) where
  any-filter_by :
      (list : List String) (value : Fields → String) (ds : List Fields)
      → any p (filter_by list value ds) ≡ any (λ d. contains list (value d) && p d) ds
  unfolding filter_by any
  any-filter_by [] value ds = sym (any-false ds)
  any-filter_by (x ∷ xs) value ds = any-filter p (λ d. contains (x ∷ xs) (value d)) ds

  any_given :
      (list : List String) (value : Fields → String) (ds : List Fields)
      → any p (if is_empty list then ds else filter_by list value ds)
        ≡ any (λ d. (is_empty list || contains list (value d)) && p d) ds
  any_given [] value ds = refl
  any_given (x ∷ xs) value ds = any-filter_by (x ∷ xs) value ds

abbrev access_text : ℕ → Fields → Bool
access_text access d =
    if access == 1
    then contains ("false" ∷ []) d.public
    else if access == 2
    then contains ("true" ∷ []) d.public
    else true

-- The test of a record of the filter that stands for all the filters that are applied.
abbrev chosen : List String → ℕ → List String → List String → Fields → Bool
chosen users access tokens ids d =
    (is_empty users || (contains users d.user && access_text access d))
    && (is_empty tokens || contains tokens d.token)
    && (is_empty ids || contains ids d.conn_id)

abbrev by_access : ℕ → List Fields → List Fields
by_access access ds =
    if access == 1
    then filter_by_privates_only ds
    else if access == 2
    then filter_by_publics_only ds
    else ds

any-by_access :
    (p : Fields → Bool) (access : ℕ) (ds : List Fields)
    → any p (by_access access ds) ≡ any (λ d. access_text access d && p d) ds
any-by_access p access ds = elim (Bool-cases (access == 1)) [
  | inl e ↦ rw e (any-filter_by p ("false" ∷ []) (λ d. d.public) ds)
  | inr e ↦ rw e (elim (Bool-cases (access == 2)) [
    | inl f ↦ rw f (any-filter_by p ("true" ∷ []) (λ d. d.public) ds)
    | inr f ↦ rw f
  ])
]

any-by_users :
    (p : Fields → Bool) (users : List String) (access : ℕ) (ds : List Fields)
    → any p (if is_empty users then ds else by_access access (filter_by_users users ds))
      ≡ any (λ d. (is_empty users || (contains users d.user && access_text access d)) && p d) ds
any-by_users p [] access ds = refl
any-by_users p (u ∷ us) access ds =
    any-by_access p access (filter_by_users (u ∷ us) ds)
    ∙ any-filter_by (λ d. access_text access d && p d) (u ∷ us) (λ d. d.user) ds
    ∙ simp and_assoc

any-select_fields :
    (p : Fields → Bool) (users : List String) (access : ℕ) (tokens ids : List String)
    (fs : List Fields)
    → any p (select_fields users access tokens ids fs)
      ≡ any (λ d. chosen users access tokens ids d && p d) fs
unfolding select_fields
any-select_fields p users access tokens ids fs =
    any_given p ids (λ d. d.conn_id) _
    ∙ any_given _ tokens (λ d. d.token) _
    ∙ any-by_users _ users access fs
    ∙ simp and_assoc

-- Pointwise equal tests choose alike.
any_conn-congr :
    (p q : String → String → Conn → Bool) (users : Dict String User)
    → ((u id : String) (k : Conn) → p u id k ≡ q u id k)
    → any_conn p users ≡ any_conn q users
any_conn-congr p q users h =
    ap (λ (r : String → String → Conn → Bool). any_conn r users)
      (fun_ext (λ u. fun_ext (λ id. fun_ext (h u id))))

private_text : (b : Bool) → contains ("false" ∷ []) (bool_text b) ≡ not b
unfolding string_eq
private_text true = refl
private_text false = refl

public_text : (b : Bool) → contains ("true" ∷ []) (bool_text b) ≡ b
unfolding string_eq
public_text true = refl
public_text false = refl

chosen-to_fields :
    (us : List String) (access : ℕ) (tokens ids : List String) (u id : String) (k : Conn)
    → chosen us access tokens ids (to_fields u id k) ≡ selects us access tokens ids u id k
unfolding selects
chosen-to_fields us access tokens ids u id k =
    rw (private_text k.access_public, public_text k.access_public)

pub contains-select :
    (us : List String) (access : ℕ) (tokens ids : List String) (users : Dict String User)
    (fs : List Fields) (id : String)
    → new_filter users ≡ some fs
    → contains (result (select_fields us access tokens ids fs)) id
      ≡ any_conn (λ u i k. selects us access tokens ids u i k && id == i) users
contains-select us access tokens ids users fs id h =
    contains-result id _
    ∙ any-select_fields _ us access tokens ids fs
    ∙ any-new_filter _ users fs h
    ∙ any_conn-congr _ _ users (λ u i k. rw chosen-to_fields)
