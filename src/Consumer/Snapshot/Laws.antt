-- ===== src/Consumer/Snapshot/Laws.antt =====
-- What a clean snapshot shows (`_check_checkout_snapshot` of port/consumer/verify.py).
use symaira_corekit.Base.{
  ◌≡◌, sym, subst, inl, inr, true, false, not, ◌||◌, some, List, [], ◌∷◌, ◌++◌, arith, Text, str,
  All, All-map, Bool-cases, Option-cases, append-eq-nil, contains, flat_map, flat_map-eq-nil,
  if◌then◌else◌, is_empty, is_empty_iff, list_beq_iff, ◌==◌, nat_eq, list_eq, option_eq, bool_eq,
  pair_eq,
}
use symaira_corekit.Base.Strings.{join}
use symaira_corekit.Consumer.Findings.{Report, add, need}
use symaira_corekit.Consumer.Go.{ls_files}
use symaira_corekit.Consumer.Patterns.{is_revision}
use symaira_corekit.Consumer.Release.{checked, repository_of}
use symaira_corekit.Consumer.Release.Laws.{Answers, checked_iff, prints_iff, succeeds_iff}
use symaira_corekit.Consumer.Reports.{regular_file}
use symaira_corekit.Consumer.Snapshot.{
  check_checkout_snapshot, check_directories, check_head, check_path, check_paths, check_source,
  check_tree, is_excluded, is_link, is_source, is_tracked, status_command, walk, walk_below,
}
use symaira_corekit.Consumer.World.{Branches, Location, Tree, World, branch, folder, git, succeeds}
use symaira_corekit.Json.{Fields, get, text}

pub data Below : Branches → Text → Tree → Type 0 where
  first : {name : Text} {t : Tree} {bs : Branches} → Below (branch name t bs) name t
  later :
      {m name : Text} {u t : Tree} {bs : Branches} → Below bs name t → Below (branch m u bs) name t

-- A file of the checkout that the walk comes to: no directory on the way is excluded.
pub data Walked : Location → Tree → Location → Text → Type 0 where
  file :
      {at : Location} {bs : Branches} {files : List Text} {name : Text}
      → contains files name ≡ true
      → Walked at (folder bs files) at name
  inside :
      {at place : Location} {bs : Branches} {files : List Text} {part name : Text} {t : Tree}
      → Below bs part t
      → is_excluded part ≡ false
      → Walked (at ++ part ∷ []) t place name
      → Walked at (folder bs files) place name

contains_clean :
    (f : Text → Report) (files : List Text) (name : Text)
    → flat_map f files ≡ []
    → contains files name ≡ true
    → f name ≡ []
contains_clean f [] name h m = absurd (ground (arith, m))
contains_clean f (x ∷ files) name h m =
    let (p, q) = (append-eq-nil (f x) (flat_map f files)).0 h in
    elim (Bool-cases (name == x)) [
      | inl e ↦ subst (λ y. f y ≡ []) (sym ((list_beq_iff name x).0 e)) p
      | inr e ↦ contains_clean f files name q (ground (arith, m, e))
    ]

-- A directory that is kept is no link, and is walked.
below_lem :
    {bs : Branches} {part : Text} {t : Tree} (w : World) (repository : Text)
    (checkout at : Location)
    → Below bs part t
    → is_excluded part ≡ false
    → check_directories w repository checkout at bs ≡ []
    → walk_below w repository checkout at bs ≡ []
    → walk w repository checkout (at ++ part ∷ []) t ≡ []
unfolding check_directories walk
below_lem w repository checkout at (first {name} {t} {bs}) kept d h =
    elim (Bool-cases (is_link w (checkout ++ (at ++ name ∷ [])))) [
      | inl e ↦ absurd (ground (arith, d, kept, e))
      | inr e ↦ ground (arith, h, kept, e)
    ]
below_lem w repository checkout at (later {m} {name} {u} {t} {bs} b) kept d h =
    let test =
      need (is_excluded m || not (is_link w (checkout ++ (at ++ m ∷ []))))
        (add repository (str "checkout.path")) in
    let (_, rest) = (append-eq-nil test (check_directories w repository checkout at bs)).0 d in
    let deeper : Report =
      if is_excluded m || is_link w (checkout ++ (at ++ m ∷ []))
      then []
      else walk w repository checkout (at ++ m ∷ []) u in
    let (_, below) = (append-eq-nil deeper (walk_below w repository checkout at bs)).0 h in
    below_lem w repository checkout at b kept rest below

source_lem :
    (w : World) (repository : Text) (checkout at : Location) (name : Text)
    → check_source w repository checkout at name ≡ []
    → is_source name ≡ true
    → is_tracked w checkout (join (str "/") (at ++ name ∷ [])) ≡ true
unfolding check_source
source_lem w repository checkout at name h s = ground (arith, h, s)

walked_lem :
    {at place : Location} {t : Tree} {name : Text} (w : World) (repository : Text)
    (checkout : Location)
    → Walked at t place name
    → walk w repository checkout at t ≡ []
    → is_source name ≡ true
    → is_tracked w checkout (join (str "/") (place ++ name ∷ [])) ≡ true
unfolding walk
walked_lem w repository checkout (file {at} {bs} {files} {name} m) h s =
    let (_, tail) = (append-eq-nil (check_directories w repository checkout at bs) _).0 h in
    let (sources, _) =
      (append-eq-nil (flat_map (check_source w repository checkout at) files)
          (walk_below w repository checkout at bs)).0
        tail in
    source_lem w repository checkout at name
      (contains_clean (check_source w repository checkout at) files name sources m) s
walked_lem w repository checkout (inside {at} {place} {bs} {files} {part} {name} {t} b kept deeper)
      h s =
    let (directories, tail) =
      (append-eq-nil (check_directories w repository checkout at bs) _).0 h in
    let (_, below) =
      (append-eq-nil (flat_map (check_source w repository checkout at) files)
          (walk_below w repository checkout at bs)).0
        tail in
    walked_lem w repository checkout deeper
      (below_lem w repository checkout at b kept directories below) s

-- The checkout is the recorded commit, unchanged, with no source beside it.
pub record IsSnapshot (w : World) (record' : Fields) (checkout : Location) : Type 0 where
  pub commit : Text
  pub paths : List Text
  pub commit_field : get record' (str "checkout_commit") ≡ text commit
  pub full : is_revision commit ≡ true
  pub head : Answers w (str "rev-parse" ∷ str "--verify" ∷ str "HEAD^{commit}" ∷ []) checkout commit
  pub unchanged : Answers w status_command checkout []
  pub sources :
      (place : Location) (name : Text)
      → Walked [] (w.tree checkout) place name
      → is_source name ≡ true
      → is_tracked w checkout (join (str "/") (place ++ name ∷ [])) ≡ true
  pub tracked : ls_files w checkout [] ≡ some paths
  pub regular_paths : All (λ p. (path : Location) × (regular_file w checkout p ≡ some path)) paths

path_lem :
    (w : World) (repository : Text) (checkout : Location) (p : Text)
    → check_path w repository checkout p ≡ []
    → (path : Location) × (regular_file w checkout p ≡ some path)
unfolding check_path
path_lem w repository checkout p h = elim (Option-cases (regular_file w checkout p)) [
  | inl e ↦ absurd (ground (arith, h, e))
  | inr (path, e) ↦ (path, e)
]

paths_lem :
    (w : World) (repository : Text) (checkout : Location)
    → check_paths w repository checkout ≡ []
    → (paths : List Text) × (ls_files w checkout [] ≡ some paths)
      × All (λ p. (path : Location) × (regular_file w checkout p ≡ some path)) paths
unfolding check_paths
paths_lem w repository checkout h = elim (Option-cases (ls_files w checkout [])) [
  | inl e ↦ absurd (ground (arith, h, e))
  | inr (paths, e) ↦
      let clean : flat_map (check_path w repository checkout) paths ≡ [] = ground (arith, h, e) in
      (
        paths,
        e,
        All-map (path_lem w repository checkout) paths
            ((flat_map-eq-nil (check_path w repository checkout) paths).0 clean),
      )
]

tree_lem :
    (w : World) (repository : Text) (checkout : Location)
    → check_tree w repository checkout ≡ []
    → Answers w status_command checkout []
      × (walk w repository checkout [] (w.tree checkout) ≡ [])
      × (check_paths w repository checkout ≡ [])
unfolding check_tree
tree_lem w repository checkout h =
    let done : succeeds w status_command checkout ≡ true = ground (arith, h) in
    let blank : is_empty (git w status_command checkout).stdout ≡ true = ground (arith, h) in
    let rest : walk w repository checkout [] (w.tree checkout) ++ check_paths w repository checkout
        ≡ [] =
      ground (arith, h, done, blank) in
    let (walked, paths) = (append-eq-nil _ (check_paths w repository checkout)).0 rest in
    (
      record {
        success = (succeeds_iff w status_command checkout).0 done;
        output = (is_empty_iff (git w status_command checkout).stdout).0 blank;
      },
      walked,
      paths,
    )

-- A clean check of a checkout shows that HEAD is the recorded full commit, that Git reports no change and no
-- untracked file, that every source file below the checkout that the walk comes to (no excluded
-- directory on the way) is tracked, and that every tracked path is a guarded regular file.
pub check_checkout_snapshot-IsSnapshot :
    (w : World) (record' : Fields) (checkout : Location)
    → check_checkout_snapshot w record' checkout ≡ []
    → IsSnapshot w record' checkout
unfolding check_checkout_snapshot check_head
check_checkout_snapshot-IsSnapshot w record' checkout h =
    let repository = repository_of record' in
    let (head, tree) =
      (append-eq-nil (check_head w repository checkout (get record' (str "checkout_commit")))
          (check_tree w repository checkout)).0
        h in
    elim (Option-cases (checked is_revision (get record' (str "checkout_commit")))) [
      | inl e ↦ absurd (ground (arith, head, e))
      | inr (commit, e) ↦
          let (field', full) =
            (checked_iff is_revision (get record' (str "checkout_commit")) commit).0 e in
          let (unchanged, walked, clean_paths) = tree_lem w repository checkout tree in
          let (paths, tracked, regular_paths) = paths_lem w repository checkout clean_paths in
          record {
            commit = commit;
            paths = paths;
            commit_field = field';
            full = full;
            head = (prints_iff w _ checkout commit).0 (ground (arith, head, e));
            unchanged = unchanged;
            sources = λ place name m s. walked_lem w repository checkout m walked s;
            tracked = tracked;
            regular_paths = regular_paths;
          }
    ]
