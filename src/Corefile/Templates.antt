-- ===== src/Corefile/Templates.antt =====
-- `addUserTemplates`, `UpsertCorefile` and `RemoveTemplateFromCorefile` of
-- cmd/sys-event/watchers/corefile.go.
pub mod Laws
use tapr.Base.{
  String, ◌<>◌, Bool, true, false, ◌&&◌, ◌||◌, Option, none, some, List, [], ◌∷◌, ◌++◌,
  if◌then◌else◌, ◌==◌, string_eq, map,
}
use tapr.Base.Panic.{◌>>=◌}
use tapr.Corefile.Types.{Directive, Plugin, Server, Corefile}

abbrev pub answer_text : String → String
answer_text ip = "\"{{ .Name }} 60 IN A " <> ip <> "\""

abbrev pub match_text : String → String
match_text zone = "\"\\w*\\.?(" <> zone <> "\\.)$\""

abbrev pub answer_options : String → String → List Directive
answer_options pattern ip =
    record { name = "match"; args = pattern ∷ [] }
    ∷ record { name = "answer"; args = answer_text ip ∷ [] }
    ∷ record { name = "fallthrough"; args = [] }
    ∷ []

-- `newOptions` and `anyOptions`
abbrev pub new_options : String → String → List Directive
new_options zone ip = answer_options (match_text zone) ip

abbrev pub any_options : List Directive
any_options = record { name = "rcode"; args = "NOERROR" ∷ [] } ∷ []

abbrev pub template : String → String → List Directive → Plugin
template kind zone options = record {
  name = "template";
  args = "IN" ∷ kind ∷ zone ∷ [];
  options = options;
}

abbrev pub user_templates : String → String → List Plugin
user_templates zone ip =
    template "A" zone (new_options zone ip) ∷ template "ANY" zone any_options ∷ []

unfoldable pub add_user_templates : String → String → List Plugin → List Plugin
add_user_templates zone ip plugins = plugins ++ user_templates zone ip

-- `strings.Join(args, " ")`
unfoldable pub join_space : List String → String
join_space [] = ""
join_space (a ∷ []) = a
join_space (a ∷ b ∷ more) = a <> " " <> join_space (b ∷ more)

-- The arguments of another user's template become one string again.
unfoldable pub fix_option : Directive → Directive
unfolding join_space
fix_option o =
    if o.name == "match" || o.name == "answer"
    then record o { args = ("\"" <> join_space o.args <> "\"") ∷ [] }
    else o

abbrev pub fix_options : List Directive → List Directive
fix_options = map fix_option

abbrev pub three_args : List String → Option (String × String × String)
three_args [] = none
three_args (a ∷ []) = none
three_args (a ∷ b ∷ []) = none
three_args (a ∷ b ∷ c ∷ []) = some (a, b, c)
three_args (a ∷ b ∷ c ∷ d ∷ more) = none

-- One turn of the loop over the plugins: the plugin that is kept, and whether the zone was found.
unfoldable pub upsert_plugin : String → String → Plugin → Plugin × Bool
unfolding fix_option
upsert_plugin zone ip p =
    if p.name == "template"
    then elim (three_args p.args) [
      | none ↦ (p, false)
      | some (class, kind, z) ↦
          if z == zone && kind == "A"
          then (record p { options = new_options zone ip }, true)
          else if z == zone && kind == "ANY"
          then (record p { options = any_options }, false)
          else (record p { options = fix_options p.options }, false)
    ]
    else (p, false)

unfoldable pub upsert_each : String → String → List Plugin → List Plugin × Bool
unfolding upsert_plugin
upsert_each zone ip [] = ([], false)
upsert_each zone ip (p ∷ ps) =
    let (q, here) = upsert_plugin zone ip p in
    let (qs, later) = upsert_each zone ip ps in (q ∷ qs, here || later)

unfoldable pub upsert_plugins : String → String → List Plugin → List Plugin
unfolding upsert_each
upsert_plugins zone ip ps =
    let (qs, found) = upsert_each zone ip ps in if found then qs else qs ++ user_templates zone ip

-- Whether the zone is the given one or not, nothing appends the plugin.
unfoldable pub remove_plugins : String → List Plugin → List Plugin
remove_plugins zone [] = []
remove_plugins zone (p ∷ ps) =
    let rest = remove_plugins zone ps in
    if p.name == "template"
    then elim (three_args p.args) [
      | none ↦ p ∷ rest
      | some (class, kind, z) ↦ if z == zone then rest else rest
    ]
    else p ∷ rest

-- A file with other than one server is left as it is.
unfoldable pub on_only_server : (List Plugin → List Plugin) → Corefile → Option Corefile
on_only_server f file = elim file.servers [
  | [] ↦ none
  | s ∷ ss ↦ elim ss [
    | [] ↦ some (record { servers = record s { plugins = f s.plugins } ∷ [] })
    | _ ∷ _ ↦ none
  ]
]

module _ (parse : String → Option Corefile) (print : Corefile → String) where
  abbrev edited : (List Plugin → List Plugin) → String → Option String
  edited f data_ = do
    file ← parse data_
    elim (on_only_server f file) [ none ↦ some data_ | some file' ↦ some (print file') ]

  unfoldable pub upsert_corefile : String → String → String → Option String
  unfolding upsert_plugins on_only_server
  upsert_corefile data_ zone ip = edited (upsert_plugins zone ip) data_

  unfoldable pub remove_template_from_corefile : String → String → Option String
  unfolding remove_plugins on_only_server
  remove_template_from_corefile data_ zone = edited (remove_plugins zone) data_
