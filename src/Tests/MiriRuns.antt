-- ===== src/Tests/MiriRuns.antt =====
-- The Miri gate over a workspace with exactly its packages.
use symaira_corekit.Base.{◌≡◌, refl, some, List, [], ◌∷◌, Text, list_beq}
use symaira_corekit.Base.Strings.{strip}
use symaira_corekit.Json.{Items, arr, as_list, cons, end, get, get_in, nil, obj, text}
use symaira_corekit.MiriGate.{Host, all_packages, finished, main, packages_of_gate, run_gate}
use symaira_corekit.MiriGate.Laws.{IsMiriRun, main-IsMiriRun}
use symaira_corekit.Tests.Consumers.{entry}

abbrev named : List Text → Items
named [] = nil
named (t ∷ ts) = cons (obj (entry "name" (text t) end)) (named ts)

abbrev host : Host
host = record {
  run = λ command flags. finished 0 [];
  json_loads = λ t. some (obj (entry "packages" (arr (named (all_packages packages_of_gate))) end));
  lower = λ t. t;
}

passing_run : main host run_gate ≡ some 0
unfolding main get list_beq as_list get_in strip packages_of_gate
passing_run = refl

main-IsMiriRun_example : IsMiriRun host packages_of_gate
main-IsMiriRun_example = main-IsMiriRun host passing_run
