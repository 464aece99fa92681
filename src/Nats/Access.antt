-- ===== src/Nats/Access.antt =====
-- `getAllowPubSubSubjectFromMR` and `createOrUpdateUser` of pkg/workload/nats/helper.go: the subjects
-- that the user of a request may publish and subscribe to. The list of all requests of the cluster
-- comes from the API server, as an argument; `none` where reading it fails.
pub mod Exports
pub mod Laws
pub mod Stored
use tapr.Base.{
  ℕ, String, Bool, true, false, not, ◌&&◌, ◌||◌, Option, none, some, List, [], ◌∷◌, ◌++◌, ◌≡◌, refl,
  if◌then◌else◌, ◌==◌, string_eq, contains, is_empty, filter, map,
}
use tapr.Base.Dict.{Dict, lookup, insert}
use tapr.Base.Panic.{◌>>=◌}
use tapr.Nats.Types.{User, Config, Permission, Subject, RefSubject, Ref, Request}
use tapr.Nats.Names.{make_real_subject_name, make_real_ref_name, owner_of_ns}
use tapr.Nats.Users.{upsert_user}

abbrev pub allow : String
allow = "allow"

abbrev pub default_pub_perm : List String
default_pub_perm =
    "$JS.API.INFO" ∷ "$JS.API.STREAM.NAMES" ∷ "$JS.API.CONSUMER.CREATE.>" ∷ "_INBOX.>" ∷ "$JS.ACK.>"
    ∷ "$SYS.ACCOUNT.*.CONNECT" ∷ "$SYS.ACCOUNT.*.DISCONNECT" ∷ "$JS.FC.>" ∷ "$SYS._INBOX_.>"
    ∷ "$SYS.SERVER.*.CLIENT.AUTH.ERR" ∷ "$SYS.REQ.SERVER.PING.>" ∷ []

abbrev pub default_sub_perm : List String
default_sub_perm =
    "$JS.API.STREAM.NAMES" ∷ "$JS.API.CONSUMER.CREATE.>" ∷ "_INBOX.>" ∷ "$SYS.ACCOUNT.*.CONNECT"
    ∷ "$SYS.ACCOUNT.*.DISCONNECT" ∷ "$JS.FC.>" ∷ "$SYS._INBOX_.>" ∷ "$SYS.SERVER.*.CLIENT.AUTH.ERR"
    ∷ "$SYS.REQ.SERVER.PING.>" ∷ []

pub record Export : Type 0 where
  pub subject_name : String
  pub app_name : String
  pub pub_perm : String
  pub sub_perm : String

-- The permission under one of the two names.
pub data Kind : Type 0 where
  publish subscribe : Kind

abbrev pub kind_text : Kind → String
kind_text publish = "pub"
kind_text subscribe = "sub"

abbrev pub subject_perm : Kind → Subject → String
subject_perm publish s = s.permission.pub_perm
subject_perm subscribe s = s.permission.sub_perm

abbrev pub export_perm : Kind → Export → String
export_perm publish e = e.pub_perm
export_perm subscribe e = e.sub_perm

-- The request's own subjects that its permission allows, under their full names.
unfoldable pub own_subjects : Kind → String → List Subject → List String
own_subjects kind ns [] = []
own_subjects kind ns (s ∷ ss) =
    let rest = own_subjects kind ns ss in
    if subject_perm kind s == allow then make_real_subject_name s.name ns ∷ rest else rest

abbrev ExportMap : Type 0
ExportMap = Dict String (List Export)

-- A missing key reads as the nil slice.
abbrev pub or_empty : Option (List Export) → List Export
or_empty none = []
or_empty (some es) = es

-- `appExportMap[e.AppName] = append(appExportMap[e.AppName], …)`
unfoldable pub add_export : Export → ExportMap → ExportMap
add_export e m = insert e.app_name (or_empty (lookup e.app_name m) ++ (e ∷ [])) m

unfoldable pub add_exports : String → String → List Permission → ExportMap → ExportMap
unfolding add_export
add_exports ns name [] m = m
add_exports ns name (p ∷ ps) m = add_exports ns name ps (
    add_export
      (record {
        subject_name = make_real_subject_name name ns;
        app_name = p.app_name;
        pub_perm = p.pub_perm;
        sub_perm = p.sub_perm;
      })
      m)

unfoldable pub add_subjects : String → List Subject → ExportMap → ExportMap
unfolding add_exports
add_subjects ns [] m = m
add_subjects ns (s ∷ ss) m = add_subjects ns ss (add_exports ns s.name s.exports m)

unfoldable pub export_map : List Request → ExportMap → ExportMap
unfolding add_subjects
export_map [] m = m
export_map (r ∷ rs) m =
    export_map rs (if r.middleware == "nats" then add_subjects r.app_namespace r.subjects m else m)

-- The inner loop over the exports: one entry for each that grants the subject.
unfoldable pub grants : Kind → String → List Export → List String
grants kind name [] = []
grants kind name (e ∷ es) =
    let rest = grants kind name es in
    if name == e.subject_name && export_perm kind e == allow then name ∷ rest else rest

-- One permission of a referenced subject: refused unless some export grants it.
unfoldable pub grant_kind :
    Kind → RefSubject → String → List Export → List String → Option (List String)
unfolding grants
grant_kind kind s name es acc =
    if contains s.perm (kind_text kind)
    then (let granted = grants kind name es in
        if is_empty granted then none else some (acc ++ granted))
    else some acc

abbrev pub Lists : Type 0
Lists = record { pubs : List String; subs : List String }

unfoldable pub grant_subject : String → ExportMap → RefSubject → String → Lists → Option Lists
unfolding grant_kind
grant_subject app m s name l = do
  es ← lookup app m
  pubs ← grant_kind publish s name es l.pubs
  subs ← grant_kind subscribe s name es l.subs
  some (record { pubs = pubs; subs = subs })

unfoldable pub grant_subjects :
    String → String → ExportMap → String → List RefSubject → Lists → Option Lists
unfolding grant_subject
grant_subjects app owner m ns [] l = some l
grant_subjects app owner m ns (s ∷ ss) l = do
  l' ← grant_subject app m s (make_real_ref_name ns s.name owner) l
  grant_subjects app owner m ns ss l'

unfoldable pub grant_refs : String → String → ExportMap → List Ref → Lists → Option Lists
unfolding grant_subjects
grant_refs app owner m [] l = some l
grant_refs app owner m (r ∷ rs) l = do
  l' ← grant_subjects app owner m r.app_namespace r.subjects l
  grant_refs app owner m rs l'

abbrev pub with_defaults : List String → List String → List String
with_defaults perms defaults = if is_empty perms then perms else perms ++ defaults

unfoldable pub get_allow : Option (List Request) → Request → Option Lists
unfolding own_subjects export_map grant_refs
get_allow requests r = do
  rs ← requests
  l ← grant_refs r.app (owner_of_ns r.namespace) (export_map rs []) r.refs (record {
    pubs = own_subjects publish r.app_namespace r.subjects;
    subs = own_subjects subscribe r.app_namespace r.subjects;
  })
  some (record {
    pubs = with_defaults l.pubs default_pub_perm;
    subs = with_defaults l.subs default_sub_perm;
  })

-- `createOrUpdateUser`: `encrypt` is bcrypt, `config` what `loadConfig` reads; both can fail.
unfoldable pub create_or_update_user :
    (String → Option String)
    → Option (List Request)
    → Option Config
    → Request
    → String
    → Option Config
create_or_update_user encrypt requests config r password = do
  encrypted ← encrypt password
  l ← get_allow requests r
  c ← config
  some (record c {
    users =
        upsert_user
          (record {
            username = r.user;
            password = encrypted;
            publish_allow = l.pubs;
            subscribe_allow = l.subs;
          })
          c.users;
  })
