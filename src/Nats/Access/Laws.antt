-- ===== src/Nats/Access/Laws.antt =====
-- Which subjects the user of a request is allowed.
use mathlib.Core.Option.{some-injective}
use tapr.Base.{
  Bool, any, ◌==◌, ◌<>◌, String, true, not, ◌&&◌, ◌||◌, some, List, [], ◌∷◌, ◌++◌, ◌≡◌, refl, ◌∙◌,
  if◌then◌else◌, string_eq, contains, contains-append, is_empty, arith, sym, Bool-cases, inl, inr,
  All, All-append, All-map_of,
}
use tapr.Base.Dict.{lookup}
use tapr.Base.Panic.{>>=-eq-some}
use tapr.Nats.Types.{Subject, RefSubject, Ref, Request}
use tapr.Nats.Names.{make_real_subject_name, make_real_ref_name, owner_of_ns}
use tapr.Nats.Access.{
  Kind, publish, subscribe, kind_text, Export, ExportMap, Lists, grants, grant_kind, grant_subject,
  grant_subjects, grant_refs, own_subjects, export_map, with_defaults, default_pub_perm,
  default_sub_perm, get_allow, subject_perm,
}
use tapr.Nats.Access.Exports.{in_map, in_map-export_map, exported, is_empty-grants, contains-grants}

abbrev pub perms : Kind → Lists → List String
perms publish l = l.pubs
perms subscribe l = l.subs

abbrev pub defaults : Kind → List String
defaults publish = default_pub_perm
defaults subscribe = default_sub_perm

-- The full names of the referenced subjects that a request asks a permission for.
abbrev asked_one : Kind → RefSubject → String → List String
asked_one kind s name = if contains s.perm (kind_text kind) then name ∷ [] else []

unfoldable pub asked_subjects : Kind → String → String → List RefSubject → List String
asked_subjects kind owner ns [] = []
asked_subjects kind owner ns (s ∷ ss) =
    asked_one kind s (make_real_ref_name ns s.name owner) ++ asked_subjects kind owner ns ss

unfoldable pub asked : Kind → String → List Ref → List String
unfolding asked_subjects
asked kind owner [] = []
asked kind owner (r ∷ rs) =
    asked_subjects kind owner r.app_namespace r.subjects ++ asked kind owner rs

module _ (kind : Kind) (app owner : String) (m : ExportMap) where
  -- What was asked is added, and every bit of it is exported.
  abbrev Granted : List String → List String → List String → Type 0
  Granted before after names =
      ((n : String) → contains after n ≡ (contains before n || contains names n))
      × All (λ n. in_map kind app n m ≡ true) names

  Granted-none : (l : List String) → Granted l l []
  Granted-none l = (λ n. ground arith, tt)

  Granted-both :
      (a b c xs ys : List String) → Granted a b xs → Granted b c ys → Granted a c (xs ++ ys)
  Granted-both a b c xs ys (f, h) (g, k) =
      (λ n. ground (arith, f n, g n, contains-append xs ys n), All-append _ xs ys h k)

  grant_kind-Granted :
      (s : RefSubject) (name : String) (es : List Export) (acc acc' : List String)
      → lookup app m ≡ some es
      → grant_kind kind s name es acc ≡ some acc'
      → Granted acc acc' (asked_one kind s name)
  unfolding grant_kind
  grant_kind-Granted s name es acc acc' found h =
      elim (Bool-cases (contains s.perm (kind_text kind))) [
        | inr quiet ↦ rw quiet (λ n. ground arith, tt)
        | inl wanted ↦ rw wanted (
          λ n. ground (
            arith,
            contains-append acc (grants kind name es) n,
            contains-grants kind app name n es,
            is_empty-grants kind app name es,
          ),
          (ground (arith, is_empty-grants kind app name es), tt),
        )
      ]

-- The same for a referenced subject, for one reference and for all of them.
module _ (app owner : String) (m : ExportMap) where
  abbrev Grants : Lists → Lists → (Kind → List String) → Type 0
  Grants l l' names =
      (kind : Kind) → Granted kind app owner m (perms kind l) (perms kind l') (names kind)

  grant_subject-Grants :
      (s : RefSubject) (name : String) (l l' : Lists)
      → grant_subject app m s name l ≡ some l'
      → Grants l l' (λ kind. asked_one kind s name)
  unfolding grant_subject
  grant_subject-Grants s name l l' h =
      let (es, found, h₁) = >>=-eq-some (lookup app m) _ h in
      let (pubs, e, h₂) = >>=-eq-some (grant_kind publish s name es l.pubs) _ h₁ in
      let (subs, e', h₃) = >>=-eq-some (grant_kind subscribe s name es l.subs) _ h₂ in
      rw (← some-injective _ _ h₃) (elim [
        | publish ↦ grant_kind-Granted publish app owner m s name es l.pubs pubs found e
        | subscribe ↦ grant_kind-Granted subscribe app owner m s name es l.subs subs found e'
      ])

  grant_subjects-Grants :
      (ns : String) (ss : List RefSubject) (l l' : Lists)
      → grant_subjects app owner m ns ss l ≡ some l'
      → Grants l l' (λ kind. asked_subjects kind owner ns ss)
  unfolding grant_subjects asked_subjects
  grant_subjects-Grants ns [] l l' h kind =
      rw (← some-injective _ _ h) (Granted-none kind app owner m (perms kind l))
  grant_subjects-Grants ns (s ∷ ss) l l' h kind =
      let name : String = make_real_ref_name ns s.name owner in
      let (k, e, h') = >>=-eq-some (grant_subject app m s name l) _ h in
      Granted-both kind app owner m (perms kind l) (perms kind k) (perms kind l')
        (asked_one kind s name) (asked_subjects kind owner ns ss)
        (grant_subject-Grants s name l k e kind) (grant_subjects-Grants ns ss k l' h' kind)

  grant_refs-Grants :
      (rs : List Ref) (l l' : Lists)
      → grant_refs app owner m rs l ≡ some l'
      → Grants l l' (λ kind. asked kind owner rs)
  unfolding grant_refs asked
  grant_refs-Grants [] l l' h kind =
      rw (← some-injective _ _ h) (Granted-none kind app owner m (perms kind l))
  grant_refs-Grants (r ∷ rs) l l' h kind =
      let (k, e, h') = >>=-eq-some (grant_subjects app owner m r.app_namespace r.subjects l) _ h in
      Granted-both kind app owner m (perms kind l) (perms kind k) (perms kind l')
        (asked_subjects kind owner r.app_namespace r.subjects) (asked kind owner rs)
        (grant_subjects-Grants r.app_namespace r.subjects l k e kind)
        (grant_refs-Grants rs k l' h' kind)

abbrev completed : Lists → Lists
completed k = record {
  pubs = with_defaults k.pubs default_pub_perm;
  subs = with_defaults k.subs default_sub_perm;
}

contains-with_defaults :
    (base ds : List String) (n : String)
    → contains (with_defaults base ds) n
      ≡ (contains base n || (not (is_empty (with_defaults base ds)) && contains ds n))
contains-with_defaults [] ds n = refl
contains-with_defaults (b ∷ base) ds n = contains-append (b ∷ base) ds n

-- What the list of a kind says, from the list before the defaults.
summary :
    (kind : Kind) (app owner : String) (rs : List Request) (refs own base ds : List String)
    → Granted kind app owner (export_map rs []) own base refs
    → ((n : String)
        → contains (with_defaults base ds) n ≡ (
            contains own n
            || contains refs n
            || (not (is_empty (with_defaults base ds)) && contains ds n)))
      × All (λ n. exported kind app n rs ≡ true) refs
summary kind app owner rs refs own base ds (f, k) = (
  λ n. contains-with_defaults base ds n ∙ rw (f n),
  All-map_of _ _ refs (λ n h. sym (in_map-export_map kind app n rs) ∙ h) k,
)

-- A subject of the request itself has this full name, and its permission of the kind is "allow".
abbrev pub is_own : Kind → Request → String → Bool
is_own kind r n =
    any (λ s. (subject_perm kind s == "allow") && (n == r.app_namespace <> "." <> s.name))
      r.subjects

contains-own_subjects :
    (kind : Kind) (ns n : String) (ss : List Subject)
    → contains (own_subjects kind ns ss) n
      ≡ any (λ s. (subject_perm kind s == "allow") && (n == ns <> "." <> s.name)) ss
unfolding own_subjects any make_real_subject_name
contains-own_subjects kind ns n [] = refl
contains-own_subjects kind ns n (s ∷ ss) = ground (arith, contains-own_subjects kind ns n ss)

listed_grants :
    (rs : List Request) (r : Request) (l : Lists) (kind : Kind)
    → get_allow (some rs) r ≡ some l
    → let own = own_subjects kind r.app_namespace r.subjects in
      let refs = asked kind (owner_of_ns r.namespace) r.refs in
      ((n : String)
        → contains (perms kind l) n ≡ (
            contains own n
            || contains refs n
            || (not (is_empty (perms kind l)) && contains (defaults kind) n)))
      × All (λ n. exported kind r.app n rs ≡ true) refs
unfolding get_allow
listed_grants rs r l kind h =
    let owner : String = owner_of_ns r.namespace in
    let (k, e, h') = >>=-eq-some (grant_refs r.app owner (export_map rs []) r.refs _) _ h in
    let granted = grant_refs-Grants r.app owner (export_map rs []) r.refs _ k e in
    rw (← some-injective _ _ h') (
      (elim kind
        as (λ x.
          ((n : String)
            → contains (perms x (completed k)) n ≡ (
                contains (own_subjects x r.app_namespace r.subjects) n
                || contains (asked x owner r.refs) n
                || (not (is_empty (perms x (completed k))) && contains (defaults x) n)))
          × All (λ n. exported x r.app n rs ≡ true) (asked x owner r.refs)) [
            | publish ↦ summary publish r.app owner rs _ _ k.pubs default_pub_perm (granted publish)
            | subscribe ↦
                summary subscribe r.app owner rs _ _ k.subs default_sub_perm (granted subscribe)
          ]))

-- If the permissions of a request can be computed, its user is allowed a subject of either kind
-- exactly if it is an own subject that the request allows, or a referenced one that it asks for, or
-- a default while the list is not empty; and each referenced one is exported to the request's app,
-- with that permission, by some NATS request of the cluster.
pub get_allow-grants :
    (rs : List Request) (r : Request) (l : Lists) (kind : Kind)
    → get_allow (some rs) r ≡ some l
    → let refs = asked kind (owner_of_ns r.namespace) r.refs in
      ((n : String)
        → contains (perms kind l) n ≡ (
            is_own kind r n
            || contains refs n
            || (not (is_empty (perms kind l)) && contains (defaults kind) n)))
      × All (λ n. exported kind r.app n rs ≡ true) refs
get_allow-grants rs r l kind h =
    let (f, k) = listed_grants rs r l kind h in
    (λ n. rw (← contains-own_subjects kind r.app_namespace n r.subjects) (f n), k)
