-- ===== src/Tests/Locks.antt =====
-- The dependency closure of a lock file with four packages, one of them outside.
use symaira_corekit.Base.{
  ◌≡◌, refl, ◌⊎◌, list_beq, option_beq, List, [], ◌∷◌, none, some, Text, str, Option,
}
use symaira_corekit.Base.Sorting.{text_le, sorted}
use symaira_corekit.Lock.{
  Package, Error, ok, err, ambiguous_edge, not_local, parse_edge, resolve, local_root, resolve_all,
  same_key, edges, package_le, visit, closure, closure_from,
}
use symaira_corekit.Lock.Edges.{print_edge, edge_of, parse_edge-print_edge}
use symaira_corekit.Lock.Loop.{Fault}
use symaira_corekit.Lock.Closure.{IsClosure, RootFault, closure-cases}

abbrev registry : Option Text
registry = some (str "registry")

abbrev app : Package
app = record {
  name = str "app";
  version = str "0";
  source = none;
  dependencies = str "log" ∷ str "net 2" ∷ [];
}

abbrev log : Package
log = record { name = str "log"; version = str "1"; source = registry; dependencies = [] }

abbrev net : Package
net = record {
  name = str "net";
  version = str "2";
  source = registry;
  dependencies = str "log 1 (registry)" ∷ [];
}

abbrev old_net : Package
old_net = record {
  name = str "net";
  version = str "1";
  source = registry;
  dependencies = str "gone" ∷ [];
}

abbrev packages : List Package
packages = net ∷ app ∷ old_net ∷ log ∷ []

program : Unit {0}
unfolding closure closure_from visit resolve_all resolve local_root same_key edges package_le sorted
    text_le str parse_edge list_beq option_beq
program = tt

closure-app : closure packages (str "app" ∷ []) ≡ ok (app ∷ log ∷ net ∷ [])
unfolding program
closure-app = refl

closure_ambiguous : closure (app ∷ log ∷ []) (str "app" ∷ []) ≡ err (ambiguous_edge (str "net 2"))
unfolding program
closure_ambiguous = refl

closure_registry_root : closure packages (str "log" ∷ []) ≡ err (not_local (str "log"))
unfolding program
closure_registry_root = refl

closure-cases_example :
    ((out : List Package) × (closure packages (str "app" ∷ []) ≡ ok out)
      × IsClosure packages (str "app" ∷ []) out)
    ⊎ ((e : Error) × (closure packages (str "app" ∷ []) ≡ err e)
        × (RootFault packages (str "app" ∷ []) e ⊎ Fault packages (str "app" ∷ []) e))
closure-cases_example = closure-cases packages (str "app" ∷ []) (λ h. cc)

parse_edge-print_edge_example :
    parse_edge (print_edge (str "net") (some (str "2", some (str "registry"))))
    ≡ edge_of (str "net") (some (str "2", some (str "registry")))
unfolding str
parse_edge-print_edge_example =
    parse_edge-print_edge (str "net") (some (str "2", some (str "registry"))) refl refl
