-- ===== src/Corefile/Regenerate.antt =====
-- `RegenerateCorefile` of cmd/sys-event/watchers/corefile.go. What the API server answers is a record
-- of the lists that the code reads, `none` where a call fails. The file that is written is the
-- result; the update of the config map is left out.
pub mod Laws
use tapr.Base.{
  ℕ, suc, String, ◌<>◌, Bool, true, false, ◌&&◌, Option, none, some, List, [], ◌∷◌, ◌++◌,
  if◌then◌else◌, ◌==◌, string_eq, is_empty, filter, contains,
}
use tapr.Base.Dict.{Dict, lookup}
use tapr.Base.Panic.{◌>>=◌}
use tapr.Corefile.Types.{Directive, Plugin, Server, Corefile}
use tapr.Corefile.Address.{Ip, get_user_local_ip, ip_text, decimal}
use tapr.Corefile.Templates.{add_user_templates, answer_options, template}
use tapr.Corefile.Zones.{shared_zone_of}

-- An object's name with its annotations or labels.
pub record Object : Type 0 where
  pub name : String
  pub entries : Dict String String

pub record Node : Type 0 where
  pub labels : Dict String String
  pub addresses : List (String × String)

pub record Application : Type 0 where
  pub name : String
  pub appid : String
  pub owner : String
  pub shared_entrances : List String

-- `applications` has `none` for an object that is no application, `service` gives the cluster IP of a
-- namespace and a host, `ingress` the IP of a user's `bfl-0` pod, `adguard` the IPs of its pods.
pub record Cluster : Type 0 where
  pub users : Option (List Object)
  pub nodes : Option (List Node)
  pub max_users : Option ℕ
  pub ingress : String → Option String
  pub applications : Option (List (Option Application))
  pub namespaces : Option (List Object)
  pub service : String → String → Option String
  pub adguard : Option (List String)

-- A missing key reads as "".
abbrev pub read : String → Dict String String → String
read key entries = elim (lookup key entries) [ none ↦ "" | some v ↦ v ]

abbrev pub zone_key : String
zone_key = "bytetrade.io/zone"

abbrev pub index_key : String
index_key = "bytetrade.io/user-index"

abbrev pub has_key : String → Dict String String → Bool
has_key key entries = elim (lookup key entries) [ none ↦ false | some v ↦ true ]

-- The first address of that type, and the last master node that has one.
unfoldable pub internal_ip : List (String × String) → Option String
internal_ip [] = none
internal_ip ((kind, address) ∷ more) =
    let later = internal_ip more in if kind == "InternalIP" then some address else later

unfoldable pub master_ip : List Node → String → String
unfolding internal_ip
master_ip [] found = found
master_ip (n ∷ ns) found = master_ip ns (
    if has_key "node-role.kubernetes.io/control-plane" n.labels
    then elim (internal_ip n.addresses) [ none ↦ found | some address ↦ address ]
    else found)

abbrev pub default_names : List String
default_names =
    "errors" ∷ "health" ∷ "ready" ∷ "kubernetes" ∷ "prometheus" ∷ "forward" ∷ "cache" ∷ "loop"
    ∷ "reload" ∷ "loadbalance" ∷ []

unfoldable pub default_plugins : List Plugin → List Plugin
default_plugins = filter (λ p. contains default_names p.name)

-- The four lists of templates: `vpn` is `templatesPlugins`.
pub record Views : Type 0 where
  pub vpn : List Plugin
  pub incluster : List Plugin
  pub local : List Plugin
  pub local_domain : List Plugin

-- The end of a turn of the loop over the users, from the ingress address on.
unfoldable pub place_user : String → Object → String → Ip → Views → String → Option Views
place_user master u zone ip v ingress_ip =
    let w = record v {
      vpn = add_user_templates zone (ip_text ip) v.vpn;
      incluster = add_user_templates zone ingress_ip v.incluster;
    } in
    some (
      if ingress_ip == "" then v else if master == "" then w else record w {
        local = add_user_templates zone master v.local;
        local_domain = add_user_templates (u.name <> ".olares.local") master v.local_domain;
      })

module _ (c : Cluster) (master : String) where
  -- One turn of the loop over the users; `none` is an error.
  unfoldable pub add_user : Object → Views → Option Views
  unfolding place_user
  add_user u v =
      let zone = read zone_key u.entries in
      if zone == "" then some v else (do
        local_ip ← get_user_local_ip c.max_users (read index_key u.entries)
        elim local_ip [
          | none ↦ some v
          | some ip ↦ do ingress_ip ← c.ingress u.name; place_user master u zone ip v ingress_ip
        ])

  unfoldable pub add_users : List Object → Views → Option Views
  unfolding add_user
  add_users [] v = some v
  add_users (u ∷ us) v = do w ← add_user u v; add_users us w

-- The shared entrances: `md5_start` gives the first eight digits of the digest.
module _ (md5_start : String → String) (c : Cluster) (zone : String) where
  abbrev pub is_shared : Application → Object → Bool
  is_shared app ns =
      read "applications.app.bytetrade.io/name" ns.entries == app.name
      && read "bytetrade.io/ns-shared" ns.entries == "true"
      && read "applications.app.bytetrade.io/install_user" ns.entries == app.owner

  abbrev pub entrance_plugin : Application → ℕ → String → Plugin
  entrance_plugin app i ip =
      let id = md5_start (app.appid <> "shared") <> decimal i in
      template "A" (id <> "." <> zone)
        (answer_options ("\"" <> id <> ".?(" <> zone <> "\\.)$\"") ip)

  unfoldable pub entrance_plugins : Application → ℕ → String → List Object → List Plugin
  entrance_plugins app i host [] = []
  entrance_plugins app i host (ns ∷ nss) =
      let rest = entrance_plugins app i host nss in
      elim (c.service ns.name host) [
        | none ↦ rest
        | some ip ↦ if ip == "" then rest else entrance_plugin app i ip ∷ rest
      ]

  unfoldable pub app_plugins : Application → List Object → ℕ → List String → List Plugin
  unfolding entrance_plugins
  app_plugins app nss i [] = []
  app_plugins app nss i (host ∷ hosts) =
      entrance_plugins app i host nss ++ app_plugins app nss (suc i) hosts

  unfoldable pub apps_plugins : List Object → List (Option Application) → List Plugin
  unfolding app_plugins
  apps_plugins nss [] = []
  apps_plugins nss (none ∷ apps) = apps_plugins nss apps
  apps_plugins nss (some app ∷ apps) =
      app_plugins app (filter (is_shared app) nss) 0 app.shared_entrances ++ apps_plugins nss apps

-- The zone of the first user, if there is one, decides.
unfoldable pub shared_plugins : (String → String) → Cluster → List Object → Option (List Plugin)
unfolding apps_plugins
shared_plugins md5_start c [] = some []
shared_plugins md5_start c (u ∷ us) = elim (shared_zone_of (read zone_key u.entries)) [
  | none ↦ some []
  | some zone ↦ do
    apps ← c.applications
    nss ← c.namespaces
    some (apps_plugins md5_start c zone nss apps)
]

abbrev pub first_ip : Option (List String) → String
first_ip none = ""
first_ip (some []) = ""
first_ip (some (ip ∷ ips)) = ip

abbrev pub incluster_expr : String → String
incluster_expr adguard =
    let inside : String = "incidr(client_ip(), '10.233.0.0/16')" in
    if adguard == "" then inside else "( " <> inside <> " && client_ip() != '" <> adguard <> "' )"

abbrev pub vpn_expr : String → String
vpn_expr master = "incidr(client_ip(), '100.64.0.0/16') || client_ip() == '" <> master <> "'"

abbrev pub view : String → String → Plugin
view name expr = record {
  name = "view";
  args = name ∷ [];
  options = record { name = "expr"; args = expr ∷ [] } ∷ [];
}

-- The three servers. The slices that share `defaultPlugins` are copied before the next one is made.
abbrev pub servers_of : Server → String → String → List Plugin → Views → List Server
servers_of first master adguard shared v =
    let defaults = default_plugins first.plugins in
    record {
      dom_ports = first.dom_ports;
      plugins = view "incluster" (incluster_expr adguard) ∷ (defaults ++ (v.incluster ++ shared));
    }
    ∷ record {
      dom_ports = first.dom_ports;
      plugins = view "vpn" (vpn_expr master) ∷ (defaults ++ v.vpn);
    }
    ∷ record { dom_ports = first.dom_ports; plugins = defaults ++ (v.local ++ v.local_domain) }
    ∷ []

abbrev pub no_views : Views
no_views = record { vpn = []; incluster = []; local = []; local_domain = [] }

-- `some none` leaves the file as it is.
unfoldable pub regenerate : (String → String) → Cluster → Corefile → Option (Option Corefile)
unfolding add_users shared_plugins master_ip default_plugins
regenerate md5_start c file = elim file.servers [
  | [] ↦ some none
  | first ∷ rest ↦ do
    users ← c.users
    nodes ← c.nodes
    let master = master_ip nodes ""
    v ← add_users c master users no_views
    shared ← shared_plugins md5_start c users
    some (some (record { servers = servers_of first master (first_ip c.adguard) shared v }))
]

-- From the text of the config map to the text that is written.
unfoldable pub regenerate_corefile :
    (String → Option Corefile)
    → (Corefile → String)
    → (String → String)
    → Cluster
    → String
    → Option (Option String)
unfolding regenerate
regenerate_corefile parse print md5_start c data_ = do
  file ← parse data_
  written ← regenerate md5_start c file
  elim written [ none ↦ some none | some file' ↦ some (some (print file')) ]
