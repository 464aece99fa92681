-- ===== src/Nats/Access/Exports.antt =====
-- The export map holds exactly what the NATS requests of the cluster export.
use mathlib.Core.Bool.{or_assoc}
use tapr.Base.{
  String, Bool, false, not, ◌&&◌, ◌||◌, none, some, List, [], ◌∷◌, ◌++◌, ◌≡◌, refl, ◌∙◌, ◌==◌,
  string_eq, contains, is_empty, arith, any, any-append,
}
use tapr.Base.Dict.{lookup, lookup-insert}
use tapr.Nats.Types.{Permission, Subject, Request}
use tapr.Nats.Names.{make_real_subject_name}
use tapr.Nats.Access.{
  Kind, publish, subscribe, Export, ExportMap, allow, export_perm, add_export, add_exports,
  add_subjects, export_map, grants, or_empty,
}

abbrev pub permission_of : Kind → Permission → String
permission_of publish p = p.pub_perm
permission_of subscribe p = p.sub_perm

abbrev export_of : String → String → Permission → Export
export_of ns subject p = record {
  subject_name = make_real_subject_name subject ns;
  app_name = p.app_name;
  pub_perm = p.pub_perm;
  sub_perm = p.sub_perm;
}

-- Some NATS request exports the subject of that full name to the app, with the permission.
module _ (kind : Kind) (app name : String) where
  abbrev pub exports_to : String → String → Permission → Bool
  exports_to ns subject p =
      app == p.app_name
      && name == make_real_subject_name subject ns
      && permission_of kind p == allow

  unfoldable pub exported_subjects : String → List Subject → Bool
  exported_subjects ns = any (λ s. any (exports_to ns s.name) s.exports)

  unfoldable pub exported : List Request → Bool
  unfolding exported_subjects
  exported = any (λ r. r.middleware == "nats" && exported_subjects r.app_namespace r.subjects)

  abbrev pub gives : Export → Bool
  gives e = name == e.subject_name && export_perm kind e == allow

  -- What the map says.
  abbrev pub in_map : ExportMap → Bool
  in_map m = elim (lookup app m) [ none ↦ false | some es ↦ any gives es ]

  in_map-add_export :
      (e : Export) (m : ExportMap)
      → in_map (add_export e m) ≡ (in_map m || (app == e.app_name && gives e))
  unfolding add_export any
  in_map-add_export e m = ground (
    arith,
    lookup-insert app e.app_name (or_empty (lookup e.app_name m) ++ (e ∷ [])) m,
    any-append gives (or_empty (lookup e.app_name m)) (e ∷ []),
  )

  in_map-add_exports :
      (ns subject : String) (ps : List Permission) (m : ExportMap)
      → in_map (add_exports ns subject ps m) ≡ (in_map m || any (exports_to ns subject) ps)
  unfolding add_exports any
  in_map-add_exports ns subject [] m = ground arith
  in_map-add_exports ns subject (p ∷ ps) m = ground (
    arith,
    in_map-add_exports ns subject ps (add_export (export_of ns subject p) m),
    in_map-add_export (export_of ns subject p) m,
  )

  in_map-add_subjects :
      (ns : String) (ss : List Subject) (m : ExportMap)
      → in_map (add_subjects ns ss m) ≡ (in_map m || exported_subjects ns ss)
  unfolding add_subjects exported_subjects any
  in_map-add_subjects ns [] m = ground arith
  in_map-add_subjects ns (s ∷ ss) m =
      in_map-add_subjects ns ss (add_exports ns s.name s.exports m)
      ∙ rw (in_map-add_exports ns s.name s.exports m)
          (or_assoc (in_map m) (any (exports_to ns s.name) s.exports) (exported_subjects ns ss))

  in_map-export_map_onto :
      (rs : List Request) (m : ExportMap) → in_map (export_map rs m) ≡ (in_map m || exported rs)
  unfolding export_map exported any
  in_map-export_map_onto [] m = ground arith
  in_map-export_map_onto (r ∷ rs) m = ground (
    arith,
    in_map-export_map_onto rs m,
    in_map-export_map_onto rs (add_subjects r.app_namespace r.subjects m),
    in_map-add_subjects r.app_namespace r.subjects m,
  )

  -- The app finds a granting export of a subject in the map exactly when some request makes one.
  pub in_map-export_map : (rs : List Request) → in_map (export_map rs []) ≡ exported rs
  unfolding lookup
  in_map-export_map rs = in_map-export_map_onto rs []

  pub is_empty-grants : (es : List Export) → is_empty (grants kind name es) ≡ not (any gives es)
  unfolding grants any
  is_empty-grants [] = refl
  is_empty-grants (e ∷ es) = ground (arith, is_empty-grants es)

  pub contains-grants :
      (n : String) (es : List Export)
      → contains (grants kind name es) n ≡ (any gives es && n == name)
  unfolding grants any
  contains-grants n [] = refl
  contains-grants n (e ∷ es) = ground (arith, contains-grants n es)
