-- ===== src/Consumer/Snapshot.antt =====
-- `_check_checkout_snapshot` of port/consumer/verify.py.
pub mod Laws
use mathlib.Core.List.{reverse}
use symaira_corekit.Base.{
  Bool, true, false, not, ◌&&◌, ◌||◌, none, some, List, [], ◌∷◌, ◌++◌, Text, str, contains,
  flat_map, if◌then◌else◌, is_empty, length, ltb, ◌==◌, nat_eq, list_eq, option_eq, bool_eq,
  pair_eq,
}
use symaira_corekit.Base.Strings.{join, starts_with}
use symaira_corekit.Consumer.Findings.{Report, add, need}
use symaira_corekit.Consumer.Go.{ls_files}
use symaira_corekit.Consumer.Paths.{forbidden_parts}
use symaira_corekit.Consumer.Patterns.{is_revision}
use symaira_corekit.Consumer.Release.{checked, repository_of}
use symaira_corekit.Consumer.Reports.{regular_file}
use symaira_corekit.Consumer.World.{
  Branches, Location, Tree, World, branch, folder, git, no_branch, prints, succeeds, symlink,
}
use symaira_corekit.Json.{Fields, Value, get}

abbrev source_names : List Text
source_names = str "go.mod" ∷ str "go.work" ∷ str "Cargo.toml" ∷ str "Cargo.lock" ∷ []

-- The suffix of a name: a name that is nothing but `.go` has none.
unfoldable pub has_suffix : Text → Text → Bool
unfolding starts_with
has_suffix suffix name =
    ltb (length suffix) (length name) && starts_with (reverse suffix) (reverse name)

unfoldable pub is_source : Text → Bool
unfolding has_suffix str
is_source name =
    contains source_names name || has_suffix (str ".go") name || has_suffix (str ".rs") name

-- A tree that the walk leaves out.
unfoldable pub is_excluded : Text → Bool
unfolding forbidden_parts str
is_excluded name = name == str ".git" || contains forbidden_parts name

unfoldable pub is_link : World → Location → Bool
is_link w path = elim (w.lstat path) [ symlink ↦ true | _ ↦ false ]

-- The loop over the directories, at the directory `at` below the checkout.
unfoldable pub check_directories : World → Text → Location → Location → Branches → Report
unfolding is_excluded is_link
check_directories w repository checkout at no_branch = []
check_directories w repository checkout at (branch name t bs) =
    need (is_excluded name || not (is_link w (checkout ++ (at ++ name ∷ []))))
      (add repository (str "checkout.path"))
    ++ check_directories w repository checkout at bs

-- `git ls-files --error-unmatch -- relative`
unfoldable pub is_tracked : World → Location → Text → Bool
unfolding succeeds str
is_tracked w checkout relative =
    succeeds w (str "ls-files" ∷ str "--error-unmatch" ∷ str "--" ∷ relative ∷ []) checkout

unfoldable pub check_source : World → Text → Location → Location → Text → Report
unfolding is_source is_tracked join str
check_source w repository checkout at name =
    need (not (is_source name) || is_tracked w checkout (join (str "/") (at ++ name ∷ [])))
      (add repository (str "checkout.untracked_source"))

-- The walk, from the top down; it enters the directories that are kept.
unfoldable mutual
  unfolding check_directories check_source

  pub walk : World → Text → Location → Location → Tree → Report
  walk w repository checkout at (folder bs files) =
      check_directories w repository checkout at bs
      ++ (flat_map (check_source w repository checkout at) files
          ++ walk_below w repository checkout at bs)

  pub walk_below : World → Text → Location → Location → Branches → Report
  walk_below w repository checkout at no_branch = []
  walk_below w repository checkout at (branch name t bs) =
      let inside = walk w repository checkout (at ++ name ∷ []) t in
      (if is_excluded name || is_link w (checkout ++ (at ++ name ∷ [])) then [] else inside)
      ++ walk_below w repository checkout at bs

-- A tracked path.
unfoldable pub check_path : World → Text → Location → Text → Report
unfolding regular_file
check_path w repository checkout relative = elim (regular_file w checkout relative) [
  | none ↦ add repository (str "checkout.path")
  | some path ↦ []
]

unfoldable pub check_paths : World → Text → Location → Report
unfolding ls_files check_path
check_paths w repository checkout = elim (ls_files w checkout []) [
  | none ↦ add repository (str "checkout.paths")
  | some paths ↦ flat_map (check_path w repository checkout) paths
]

unfoldable pub check_head : World → Text → Location → Value → Report
unfolding checked prints
check_head w repository checkout expected = elim (checked is_revision expected) [
  | none ↦ add repository (str "checkout.commit")
  | some commit ↦
      need (prints w (str "rev-parse" ∷ str "--verify" ∷ str "HEAD^{commit}" ∷ []) checkout commit)
        (add repository (str "checkout.commit"))
]

abbrev pub status_command : List Text
status_command = str "status" ∷ str "--porcelain=v1" ∷ str "--untracked-files=all" ∷ []

-- A dirty checkout ends the check.
unfoldable pub check_tree : World → Text → Location → Report
unfolding succeeds git walk check_paths
check_tree w repository checkout =
    let rest =
      walk w repository checkout [] (w.tree checkout) ++ check_paths w repository checkout in
    if not (succeeds w status_command checkout)
    then add repository (str "checkout.status") ++ rest
    else if not (is_empty (git w status_command checkout).stdout)
    then add repository (str "checkout.dirty")
    else rest

unfoldable pub check_checkout_snapshot : World → Fields → Location → Report
unfolding check_head check_tree
check_checkout_snapshot w record' checkout =
    let repository = repository_of record' in
    check_head w repository checkout (get record' (str "checkout_commit"))
    ++ check_tree w repository checkout
