-- ===== src/Corefile/Templates/Laws.antt =====
-- What an update and a removal do to the templates of each zone.
use mathlib.Core.List.{append-nil}
use tapr.Base.{
  String, Bool, true, false, not, ◌&&◌, Option, none, some, List, [], ◌∷◌, ◌++◌, ◌≡◌, refl, ◌∙◌, ap,
  if◌then◌else◌, ◌==◌, string_eq, arith, is_empty, All, All-append, filter, map, Bool-cases,
  Option-cases, inl, inr,
}
use tapr.Corefile.Types.{Directive, Plugin}
use tapr.Corefile.Templates.{
  three_args, new_options, any_options, fix_options, user_templates, upsert_plugin, upsert_each,
  upsert_plugins, remove_plugins,
}

abbrev pub args_for : String → String → Option (String × String × String) → Bool
args_for kind zone none = false
args_for kind zone (some (_, k, z)) = k == kind && z == zone

-- The options of the templates of a query type and a zone.
unfoldable pub options_of : String → String → List Plugin → List (List Directive)
options_of kind zone [] = []
options_of kind zone (p ∷ ps) =
    let rest = options_of kind zone ps in
    if p.name == "template" && args_for kind zone (three_args p.args)
    then p.options ∷ rest
    else rest

abbrev pub is_user_template : Plugin → Bool
is_user_template p =
    p.name == "template" && elim (three_args p.args) [ none ↦ false | some _ ↦ true ]

options_of-append :
    (kind zone : String) (ps qs : List Plugin)
    → options_of kind zone (ps ++ qs) ≡ options_of kind zone ps ++ options_of kind zone qs
unfolding options_of
options_of-append kind zone [] qs = refl
options_of-append kind zone (p ∷ ps) qs = ground (arith, options_of-append kind zone ps qs)

-- What the options become: all those of the zone's own templates are set.
abbrev pub updated : String → String → String → String → List Directive → List Directive
updated zone ip kind z options =
    if z == zone && kind == "A"
    then new_options zone ip
    else if z == zone && kind == "ANY"
    then any_options
    else fix_options options

abbrev is_for : String → String → Plugin → Bool
is_for kind zone p = p.name == "template" && args_for kind zone (three_args p.args)

is_for-upsert_plugin :
    (zone ip kind z : String) (p : Plugin)
    → is_for kind z (upsert_plugin zone ip p).0 ≡ is_for kind z p
unfolding upsert_plugin
is_for-upsert_plugin zone ip kind z p = elim (Option-cases (three_args p.args)) [
  | inl e ↦ rw (e, upsert_plugin) ground arith
  | inr (t, e) ↦ rw (e, upsert_plugin) ground arith
]

options-upsert_plugin :
    (zone ip kind z : String) (p : Plugin)
    → is_for kind z p ≡ true
    → (upsert_plugin zone ip p).0.options ≡ updated zone ip kind z p.options
unfolding upsert_plugin
options-upsert_plugin zone ip kind z p h = elim (Option-cases (three_args p.args)) [
  | inl e ↦ ground arith
  | inr (t, e) ↦ rw (e, upsert_plugin) ground arith
]

options_of-upsert_each :
    (zone ip kind z : String) (ps : List Plugin)
    → options_of kind z (upsert_each zone ip ps).0
      ≡ map (updated zone ip kind z) (options_of kind z ps)
unfolding options_of upsert_each
options_of-upsert_each zone ip kind z [] = refl
options_of-upsert_each zone ip kind z (p ∷ ps) = elim (Bool-cases (is_for kind z p)) [
  | inl h ↦
      rw (is_for-upsert_plugin zone ip kind z p, h, options-upsert_plugin zone ip kind z p h)
        (ap (◌∷◌ (updated zone ip kind z p.options)) (options_of-upsert_each zone ip kind z ps))
  | inr h ↦ rw (is_for-upsert_plugin zone ip kind z p, h) (options_of-upsert_each zone ip kind z ps)
]

found-upsert_each :
    (zone ip : String) (ps : List Plugin)
    → (upsert_each zone ip ps).1 ≡ not (is_empty (options_of "A" zone ps))
unfolding options_of upsert_each upsert_plugin
found-upsert_each zone ip [] = refl
found-upsert_each zone ip (p ∷ ps) = ground (arith, found-upsert_each zone ip ps)

-- The templates that are new: both, if the file had none of type A for the zone.
abbrev pub added : String → String → String → String → List Plugin → List (List Directive)
added zone ip kind z ps =
    if is_empty (options_of "A" zone ps) then options_of kind z (user_templates zone ip) else []

-- `UpsertCorefile` leaves the templates of every query type and zone in their order. Those of the
-- given zone get the new options, by their type; those of other zones and types only have the text
-- of their match and answer mended. If there was no A template of the zone, the two for it are added.
pub options_of-upsert_plugins :
    (zone ip kind z : String) (ps : List Plugin)
    → options_of kind z (upsert_plugins zone ip ps)
      ≡ map (updated zone ip kind z) (options_of kind z ps) ++ added zone ip kind z ps
unfolding upsert_plugins
options_of-upsert_plugins zone ip kind z ps =
    elim (Bool-cases (is_empty (options_of "A" zone ps))) [
      | inl fresh ↦
          let e : (upsert_each zone ip ps).1 ≡ false =
            found-upsert_each zone ip ps ∙ ap not fresh in
          rw (e, fresh, upsert_plugins)
            (options_of-append kind z (upsert_each zone ip ps).0 (user_templates zone ip)
              ∙ rw (options_of-upsert_each zone ip kind z ps))
      | inr old ↦
          let e : (upsert_each zone ip ps).1 ≡ true = found-upsert_each zone ip ps ∙ ap not old in
          rw (e, old, upsert_plugins) rw append-nil (options_of-upsert_each zone ip kind z ps)
    ]

All-updated :
    (zone ip : String) (os : List (List Directive))
    → All (λ o. o ≡ new_options zone ip) (map (updated zone ip "A" zone) os)
All-updated zone ip [] = tt
All-updated zone ip (o ∷ os) = (ground arith, All-updated zone ip os)

answers_of :
    (zone ip : String) (os : List (List Directive)) (more : List (List Directive))
    → more ≡ (if is_empty os then new_options zone ip ∷ [] else [])
    → All (λ o. o ≡ new_options zone ip) (map (updated zone ip "A" zone) os ++ more)
      × (is_empty (map (updated zone ip "A" zone) os ++ more) ≡ false)
answers_of zone ip [] more e = rw e ((refl, tt), refl)
answers_of zone ip (o ∷ os) more e = rw e (
  All-append _ (map (updated zone ip "A" zone) (o ∷ os)) [] (All-updated zone ip (o ∷ os)) tt,
  refl,
)

differ : (◌==◌ {A = String} "ANY" "A") ≡ false
unfolding string_eq
differ = refl

own_templates :
    (zone ip : String) → options_of "A" zone (user_templates zone ip) ≡ new_options zone ip ∷ []
unfolding options_of
own_templates zone ip = ground (arith, differ)

-- After `UpsertCorefile` the file has a template of type A for the given zone, and each of them
-- answers with the given address.
pub upsert_plugins-answers :
    (zone ip : String) (ps : List Plugin)
    → All (λ o. o ≡ new_options zone ip) (options_of "A" zone (upsert_plugins zone ip ps))
      × (is_empty (options_of "A" zone (upsert_plugins zone ip ps)) ≡ false)
upsert_plugins-answers zone ip ps = rw (options_of-upsert_plugins zone ip "A" zone ps) (
    answers_of zone ip (options_of "A" zone ps) (added zone ip "A" zone ps)
      (rw (own_templates zone ip)))

-- No template of three arguments is left, of whatever zone and query type; the rest is kept in order.
pub remove_plugins-filter :
    (zone : String) (ps : List Plugin)
    → remove_plugins zone ps ≡ filter (λ p. not (is_user_template p)) ps
unfolding remove_plugins filter
remove_plugins-filter zone [] = refl
remove_plugins-filter zone (p ∷ ps) = elim (Option-cases (three_args p.args)) [
  | inl e ↦ ground (arith, remove_plugins-filter zone ps)
  | inr (t, e) ↦ ground (arith, remove_plugins-filter zone ps)
]

-- After `RemoveTemplateFromCorefile` no zone has a template of any query type: those of all other
-- users are removed too.
pub options_of-remove_plugins :
    (zone kind z : String) (ps : List Plugin) → options_of kind z (remove_plugins zone ps) ≡ []
unfolding options_of remove_plugins
options_of-remove_plugins zone kind z [] = refl
options_of-remove_plugins zone kind z (p ∷ ps) = elim (Option-cases (three_args p.args)) [
  | inl e ↦ rw (e, remove_plugins) ground (arith, options_of-remove_plugins zone kind z ps)
  | inr (t, e) ↦ rw (e, remove_plugins) ground (arith, options_of-remove_plugins zone kind z ps)
]
