-- ===== src/Corefile/Tests.antt =====
-- The Corefile model on small inputs.
use tapr.Base.{
  ℕ, String, ◌<>◌, Bool, true, false, Option, none, some, List, [], ◌∷◌, ◌++◌, ◌≡◌, refl, arith,
  is_empty, All, map, string_eq, ◌<◌, ◌+◌, ◌*◌, filter, not, ◌≤◌,
}
use tapr.Base.Dict.{Dict, lookup}
use tapr.Corefile.Types.{Plugin, Corefile}
use tapr.Corefile.Address.{Ip, sub_dns_split, ip_text, get_user_local_ip}
use tapr.Corefile.Address.Laws.{AreAddresses, sub_dns_split-AreAddresses}
use tapr.Corefile.Templates.{
  new_options, any_options, template, upsert_plugins, remove_plugins, user_templates,
}
use tapr.Corefile.Templates.Laws.{
  options_of, updated, added, is_user_template, options_of-upsert_plugins,
  options_of-remove_plugins, remove_plugins-filter,
}
use tapr.Corefile.Zones.{shared_zone_of}
use tapr.Corefile.Regenerate.{Object, Cluster, regenerate}
use tapr.Corefile.Regenerate.Laws.{regenerate-regenerate}

-- The second of the four subnets.
local_ip : get_user_local_ip (some 4) "1" ≡ some (some (1 ∷ 0 ∷ 80 ∷ 100 ∷ []))
unfolding string_eq get_user_local_ip tapr.Base.nat_eq lookup
local_ip = refl

local_text : ip_text (1 ∷ 0 ∷ 80 ∷ 100 ∷ []) ≡ "100.80.0.1"
unfolding ip_text tapr.Base.nat_eq
local_text = refl

sub_dns_split-AreAddresses_example :
    (size count : ℕ) × (addresses : Dict String Ip) × (sub_dns_split 3 ≡ some addresses)
    × (3 ≤ count)
    × AreAddresses size count addresses
sub_dns_split-AreAddresses_example = sub_dns_split-AreAddresses 3 (omega arith) (omega arith)

abbrev plugins : List Plugin
plugins =
    record { name = "errors"; args = []; options = [] }
    ∷ template "A" "bob.example.com" (new_options "bob.example.com" "100.64.0.1")
    ∷ template "A" "eve.example.com" (new_options "eve.example.com" "100.80.0.1")
    ∷ []

removed :
    remove_plugins "bob.example.com" plugins
    ≡ record { name = "errors"; args = []; options = [] } ∷ []
unfolding string_eq remove_plugins
removed = refl

options_of-upsert_plugins_example :
    options_of "A" "eve.example.com" (upsert_plugins "bob.example.com" "100.96.0.1" plugins)
    ≡ map
        (updated "bob.example.com" "100.96.0.1" "A" "eve.example.com")
        (options_of "A" "eve.example.com" plugins)
      ++ added "bob.example.com" "100.96.0.1" "A" "eve.example.com" plugins
options_of-upsert_plugins_example =
    options_of-upsert_plugins "bob.example.com" "100.96.0.1" "A" "eve.example.com" plugins

options_of-remove_plugins_example :
    options_of "A" "eve.example.com" (remove_plugins "bob.example.com" plugins) ≡ []
options_of-remove_plugins_example =
    options_of-remove_plugins "bob.example.com" "A" "eve.example.com" plugins

remove_plugins-filter_example :
    remove_plugins "bob.example.com" plugins ≡ filter (λ p. not (is_user_template p)) plugins
remove_plugins-filter_example = remove_plugins-filter "bob.example.com" plugins

shared_zone : shared_zone_of "bob.example.com" ≡ some "shared.example.com"
unfolding string_eq shared_zone_of tapr.Base.nat_eq
shared_zone = refl

abbrev bob : Object
bob = record {
  name = "bob";
  entries = ("bytetrade.io/zone", "bob.example.com") ∷ ("bytetrade.io/user-index", "0") ∷ [];
}

abbrev cluster : Cluster
cluster = record {
  users = some (bob ∷ []);
  nodes = some (
      record {
        labels = ("node-role.kubernetes.io/control-plane", "") ∷ [];
        addresses = ("InternalIP", "192.168.1.2") ∷ [];
      }
      ∷ []);
  max_users = some 4;
  ingress = λ name. some "10.233.0.9";
  applications = some [];
  namespaces = some [];
  service = λ ns host. none;
  adguard = none;
}

abbrev digest : String → String
digest s = "12345678"

abbrev errors : Plugin
errors = record { name = "errors"; args = []; options = [] }

abbrev file : Corefile
file = record { servers = record { dom_ports = ".:53" ∷ []; plugins = errors ∷ [] } ∷ [] }

abbrev view_of : String → String → Plugin
view_of name expr = record {
  name = "view";
  args = name ∷ [];
  options = record { name = "expr"; args = expr ∷ [] } ∷ [];
}

abbrev written : Corefile
written = record {
  servers =
      record {
        dom_ports = ".:53" ∷ [];
        plugins =
            view_of "incluster" "incidr(client_ip(), '10.233.0.0/16')"
            ∷ errors
            ∷ user_templates "bob.example.com" "10.233.0.9";
      }
      ∷ record {
        dom_ports = ".:53" ∷ [];
        plugins =
            view_of "vpn" "incidr(client_ip(), '100.64.0.0/16') || client_ip() == '192.168.1.2'"
            ∷ errors
            ∷ user_templates "bob.example.com" "100.64.0.1";
      }
      ∷ record {
        dom_ports = ".:53" ∷ [];
        plugins =
            errors
            ∷ (user_templates "bob.example.com" "192.168.1.2"
                ++ user_templates "bob.olares.local" "192.168.1.2");
      }
      ∷ [];
}

regenerated : regenerate digest cluster file ≡ some (some written)
unfolding string_eq regenerate lookup get_user_local_ip tapr.Base.nat_eq shared_zone_of filter
    tapr.Corefile.Templates.add_user_templates ip_text
regenerated = refl

regenerate-regenerate_example : regenerate digest cluster written ≡ some (some written)
regenerate-regenerate_example = regenerate-regenerate digest cluster file written regenerated
