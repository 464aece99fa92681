-- ===== src/Corefile/Regenerate/Laws.antt =====
-- A regenerated file is a fixed point: its own default plugins are those of the file before.
use mathlib.Core.List.{append-nil}
use mathlib.Core.Option.{some-injective}
use tapr.Base.{
  ℕ, suc, String, false, Option, none, some, List, [], ◌∷◌, ◌++◌, ◌≡◌, refl, ◌∙◌, ap, ◌==◌,
  string_eq, arith, filter, contains, All, All-append, Bool-cases, Option-cases, inl, inr,
}
use tapr.Base.Panic.{◌>>=◌, >>=-eq-some}
use tapr.Corefile.Types.{Plugin, Server, Corefile}
use tapr.Corefile.Address.{get_user_local_ip, Ip}
use tapr.Corefile.Templates.{add_user_templates, user_templates}
use tapr.Corefile.Zones.{shared_zone_of}
use tapr.Corefile.Regenerate.{
  Node, Object, Application, Cluster, Views, no_views, read, zone_key, index_key, default_names,
  default_plugins, add_user, add_users, place_user, entrance_plugins, app_plugins, apps_plugins,
  shared_plugins, is_shared, first_ip, incluster_expr, view, servers_of, master_ip, regenerate,
}

abbrev pub AreTemplates : List Plugin → Type 0
AreTemplates = All (λ p. p.name ≡ "template")

default_plugins-append :
    (ps qs : List Plugin) → default_plugins (ps ++ qs) ≡ default_plugins ps ++ default_plugins qs
unfolding default_plugins filter
default_plugins-append [] qs = refl
default_plugins-append (p ∷ ps) qs = ground (arith, default_plugins-append ps qs)

default_plugins_again :
    (ps : List Plugin) → default_plugins (default_plugins ps) ≡ default_plugins ps
unfolding default_plugins filter
default_plugins_again [] = refl
default_plugins_again (p ∷ ps) = elim (Bool-cases (contains default_names p.name)) [
  | inl h ↦ rw (h, filter) (rw h (ap (◌∷◌ p) (default_plugins_again ps)))
  | inr h ↦ rw (h, filter) (default_plugins_again ps)
]

no_template : contains default_names "template" ≡ false
unfolding string_eq
no_template = refl

default_plugins-AreTemplates : (ps : List Plugin) → AreTemplates ps → default_plugins ps ≡ []
unfolding default_plugins filter
default_plugins-AreTemplates [] h = refl
default_plugins-AreTemplates (p ∷ ps) (e, h) =
    let out : contains default_names p.name ≡ false = rw e no_template in
    rw (out, filter) (default_plugins-AreTemplates ps h)

default_plugins-view :
    (name expr : String) (ps : List Plugin)
    → default_plugins (view name expr ∷ ps) ≡ default_plugins ps
unfolding default_plugins filter string_eq
default_plugins-view name expr ps = refl

add_user_templates-AreTemplates :
    (zone ip : String) (ps : List Plugin)
    → AreTemplates ps
    → AreTemplates (add_user_templates zone ip ps)
unfolding add_user_templates
add_user_templates-AreTemplates zone ip ps h =
    All-append _ ps (user_templates zone ip) h (refl, (refl, tt))

abbrev WhenSome : {A : Type 0} → (A → Type 0) → Option A → Type 0
WhenSome P none = Unit
WhenSome P (some a) = P a

WhenSome-some :
    {A : Type 0} (P : A → Type 0) (o : Option A) (a : A) → WhenSome P o → o ≡ some a → P a
WhenSome-some P none a h e = cc
WhenSome-some P (some b) a h e = rw (← some-injective _ _ e) h

abbrev Good : Views → Type 0
Good v = AreTemplates v.incluster

module _ (c : Cluster) (master : String) where
  add_user-Good : (u : Object) (v : Views) → Good v → WhenSome Good (add_user c master u v)
  unfolding add_user
  add_user-Good u v h = elim (Bool-cases (read zone_key u.entries == "")) [
    | inl skip ↦ rw skip h
    | inr zone ↦
        rw zone (elim (Option-cases (get_user_local_ip c.max_users (read index_key u.entries))) [
          | inl e ↦ rw e tt
          | inr (found, e) ↦ rw e (elim (Option-cases found) [
            | inl f ↦ rw f h
            | inr (ip, f) ↦ rw f (elim (Option-cases (c.ingress u.name)) [
              | inl g ↦ rw g tt
              | inr (text, g) ↦ rw g (with_ingress ip text)
            ])
          ])
        ])
  ]
    where
      with_ingress :
          (ip : Ip) (text : String)
          → WhenSome Good
              (◌>>=◌ {B = Views} (some text) (place_user master u (read zone_key u.entries) ip v))
      with_ingress ip text = elim (Bool-cases (text == "")) [
        | inl a ↦ rw a h
        | inr a ↦ rw a (elim (Bool-cases (master == "")) [
          | inl b ↦ rw b (add_user_templates-AreTemplates _ text v.incluster h)
          | inr b ↦ rw b (add_user_templates-AreTemplates _ text v.incluster h)
        ])
      ]

  add_users-AreTemplates :
      (us : List Object) (v w : Views)
      → AreTemplates v.incluster
      → add_users c master us v ≡ some w
      → AreTemplates w.incluster
  unfolding add_users
  add_users-AreTemplates [] v w h e = rw (← some-injective _ _ e) h
  add_users-AreTemplates (u ∷ us) v w h e =
      let (x, e', e'') = >>=-eq-some (add_user c master u v) _ e in
      add_users-AreTemplates us x w
        (WhenSome-some Good (add_user c master u v) x (add_user-Good u v h) e') e''

module _ (md5_start : String → String) (c : Cluster) where
  entrances-AreTemplates :
      (zone : String) (app : Application) (i : ℕ) (host : String) (nss : List Object)
      → AreTemplates (entrance_plugins md5_start c zone app i host nss)
  unfolding entrance_plugins
  entrances-AreTemplates zone app i host [] = tt
  entrances-AreTemplates zone app i host (ns ∷ nss) = elim (Option-cases (c.service ns.name host)) [
    | inl e ↦ rw (e, entrance_plugins) (entrances-AreTemplates zone app i host nss)
    | inr (ip, e) ↦ elim (Bool-cases (ip == "")) [
      | inl f ↦ rw (e, entrance_plugins) rw f (entrances-AreTemplates zone app i host nss)
      | inr f ↦ rw (e, entrance_plugins) rw f (refl, entrances-AreTemplates zone app i host nss)
    ]
  ]

  app-AreTemplates :
      (zone : String) (app : Application) (nss : List Object) (i : ℕ) (hosts : List String)
      → AreTemplates (app_plugins md5_start c zone app nss i hosts)
  unfolding app_plugins
  app-AreTemplates zone app nss i [] = tt
  app-AreTemplates zone app nss i (host ∷ hosts) =
      All-append _ (entrance_plugins md5_start c zone app i host nss) _
        (entrances-AreTemplates zone app i host nss) (app-AreTemplates zone app nss (suc i) hosts)

  apps-AreTemplates :
      (zone : String) (nss : List Object) (apps : List (Option Application))
      → AreTemplates (apps_plugins md5_start c zone nss apps)
  unfolding apps_plugins
  apps-AreTemplates zone nss [] = tt
  apps-AreTemplates zone nss (none ∷ apps) = apps-AreTemplates zone nss apps
  apps-AreTemplates zone nss (some app ∷ apps) =
      All-append _
        (app_plugins md5_start c zone app (filter (is_shared md5_start c zone app) nss) 0
          app.shared_entrances)
        _ (app-AreTemplates zone app _ 0 app.shared_entrances) (apps-AreTemplates zone nss apps)

  shared-WhenSome : (us : List Object) → WhenSome AreTemplates (shared_plugins md5_start c us)
  unfolding shared_plugins
  shared-WhenSome [] = tt
  shared-WhenSome (u ∷ us) = elim (Option-cases (shared_zone_of (read zone_key u.entries))) [
    | inl f ↦ rw (f, shared_plugins) tt
    | inr (zone, f) ↦
        rw (f, shared_plugins)
          (elim (Option-cases c.applications) [
            | inl g ↦ rw g tt
            | inr (apps, g) ↦ rw g (elim (Option-cases c.namespaces) [
              | inl k ↦ rw k tt
              | inr (nss, k) ↦ rw k (apps-AreTemplates zone nss apps)
            ])
          ])
  ]

-- The default plugins of the first server that is written are those of the server before.
default_plugins-servers :
    (first : Server) (adguard : String) (shared : List Plugin) (v : Views)
    → AreTemplates v.incluster
    → AreTemplates shared
    → default_plugins (
        view "incluster" (incluster_expr adguard)
        ∷ (default_plugins first.plugins ++ (v.incluster ++ shared)))
      ≡ default_plugins first.plugins
default_plugins-servers first adguard shared v h k =
    default_plugins-view "incluster" (incluster_expr adguard) _
    ∙ default_plugins-append (default_plugins first.plugins) (v.incluster ++ shared)
    ∙ rw
        (
          default_plugins_again,
          default_plugins-AreTemplates (v.incluster ++ shared)
              (All-append _ v.incluster shared h k),
        )
        (append-nil (default_plugins first.plugins))

written_again :
    (md5_start : String → String) (c : Cluster) (first : Server) (us : List Object)
    (nodes : List Node) (v : Views) (shared : List Plugin)
    → c.users ≡ some us
    → c.nodes ≡ some nodes
    → add_users c (master_ip nodes "") us no_views ≡ some v
    → shared_plugins md5_start c us ≡ some shared
    → let file : Corefile = record {
      servers = servers_of first (master_ip nodes "") (first_ip c.adguard) shared v;
    } in
      regenerate md5_start c file ≡ some (some file)
unfolding regenerate
written_again md5_start c first us nodes v shared e₁ e₂ e₃ e₄ =
    rw (e₁, regenerate) rw e₂ rw e₃ rw e₄
      (rw (
        default_plugins-servers first (first_ip c.adguard) shared v
          (add_users-AreTemplates c (master_ip nodes "") us no_views v tt e₃)
          (WhenSome-some AreTemplates (shared_plugins md5_start c us) shared
            (shared-WhenSome md5_start c us) e₄)))

regenerate_again :
    (md5_start : String → String) (c : Cluster) (ss : List Server) (written : Corefile)
    → regenerate md5_start c (record { servers = ss }) ≡ some (some written)
    → regenerate md5_start c written ≡ some (some written)
unfolding regenerate
regenerate_again md5_start c [] written e = cc
regenerate_again md5_start c (first ∷ rest) written e =
    let (us, e₁, f₁) = >>=-eq-some c.users _ e in
    let (nodes, e₂, f₂) = >>=-eq-some c.nodes _ f₁ in
    let master : String = master_ip nodes "" in
    let (v, e₃, f₃) = >>=-eq-some (add_users c master us no_views) _ f₂ in
    let (shared, e₄, f₄) = >>=-eq-some (shared_plugins md5_start c us) _ f₃ in
    rw (← some-injective _ _ (some-injective _ _ f₄))
      (written_again md5_start c first us nodes v shared e₁ e₂ e₃ e₄)

-- To regenerate a file that was regenerated, while the cluster answers the same, writes the same file
-- again.
pub regenerate-regenerate :
    (md5_start : String → String) (c : Cluster) (file written : Corefile)
    → regenerate md5_start c file ≡ some (some written)
    → regenerate md5_start c written ≡ some (some written)
regenerate-regenerate md5_start c file written e =
    regenerate_again md5_start c file.servers written e
