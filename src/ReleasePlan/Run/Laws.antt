-- ===== src/ReleasePlan/Run/Laws.antt =====
-- What a successful dry run shows (port/release/verify.py).
use symaira_corekit.Base.{
  ℕ, ◌≡◌, sym, subst, ◌≢◌, inl, inr, true, not, Option, some, List, [], ◌∷◌, arith, Text, All,
  Option-cases, is_empty, is_empty_iff, length,
}
use symaira_corekit.Base.Strings.{strip}
use symaira_corekit.Base.Verdict.{accepts, and_then-accepts, require-accepts}
use symaira_corekit.Consumer.World.{Location}
use symaira_corekit.Json.{Fields, Value}
use symaira_corekit.ReleasePlan.{Plan, validate_manifest_shape}
use symaira_corekit.ReleasePlan.Run.{
  Summary, archive_of, check_input, check_sources, dry_run, dry_run_package, dry_run_packages,
  input_digests, input_files, pack, package_candidates, package_command,
}
use symaira_corekit.ReleasePlan.Shape.{IsPlan, validate_manifest_shape-IsPlan}
use symaira_corekit.ReleasePlan.Sources.{
  Machine, cargo_metadata, every, read_json, runs, validate_adoption, validate_clean_source,
  validate_git_provenance, validate_workspace,
}
use symaira_corekit.ReleasePlan.Sources.Laws.{
  IsCheckout, IsWorkspace, clean_source_lem, every-All, release_status,
  validate_git_provenance-IsCheckout, validate_workspace-IsWorkspace,
}

-- One archive for every candidate, with the digest of its bytes.
pub data Archived (m : Machine) : List (Text × Fields) → List (Text × Text) → Type 0 where
  all_archived : Archived m [] []
  archived :
      {name digest : Text} {crate : Fields} {cs : List (Text × Fields)}
      {results : List (Text × Text)}
      → runs m (package_command m name) ≡ true
      → m.is_file (archive_of m name crate) ≡ true
      → m.file_digest (archive_of m name crate) ≡ some digest
      → Archived m cs results
      → Archived m ((name, crate) ∷ cs) ((name, digest) ∷ results)

dry_run_package_lem :
    (m : Machine) (name : Text) (crate : Fields) (result : Text × Text)
    → dry_run_package m (name, crate) ≡ accepts result
    → (digest : Text) × (result ≡ (name, digest))
      × (runs m (package_command m name) ≡ true)
      × (m.is_file (archive_of m name crate) ≡ true)
      × (m.file_digest (archive_of m name crate) ≡ some digest)
unfolding dry_run_package
dry_run_package_lem m name crate result h =
    elim (Option-cases (m.file_digest (archive_of m name crate))) [
      | inl e ↦ absurd (ground (arith, h, e))
      | inr (digest, e) ↦
          (digest, ground (arith, h, e), ground (arith, h, e), ground (arith, h, e), e)
    ]

archives_lem :
    (m : Machine) (cs : List (Text × Fields)) (results : List (Text × Text))
    → dry_run_packages m cs ≡ accepts results
    → Archived m cs results
unfolding dry_run_packages
archives_lem m [] results h =
    let e : [] ≡ results = ground (arith, h) in subst (Archived m []) e all_archived
archives_lem m ((name, crate) ∷ cs) results h =
    let (result, e, k) = and_then-accepts (dry_run_package m (name, crate)) _ results h in
    let (rest, f, l) = and_then-accepts (dry_run_packages m cs) _ results k in
    let (digest, same, ran, there, measured) = dry_run_package_lem m name crate result e in
    let together : (name, digest) ∷ rest ≡ results = ground (arith, l, same) in
    subst (Archived m ((name, crate) ∷ cs)) together
      (archived ran there measured (archives_lem m cs rest f))

-- A release that is ready, and not published.
pub record IsReady (m : Machine) (manifest_path : Location) (selected : Option Text)
    (summary : Summary) : Type 0 where
  pub manifest : Fields
  pub plan : Plan
  pub metadata : List Value
  pub status : Text
  pub loaded : read_json m (m.resolve manifest_path) ≡ accepts manifest
  pub planned : IsPlan m.format manifest plan
  pub workspace : IsWorkspace m plan metadata
  pub checkout : IsCheckout m plan.release selected summary.revision
  pub status_output : m.run release_status ≡ some status
  pub clean : strip status ≡ []
  pub inputs : All (λ v. check_input m v ≡ accepts tt) (input_files plan.release)
  pub candidates : summary.candidates ≡ package_candidates plan
  pub some_candidate : package_candidates plan ≢ []
  pub archives : Archived m (package_candidates plan) summary.archives

pack_lem :
    (m : Machine) (plan : Plan) (revision : Text) (packages : ℕ) (summary : Summary)
    → pack m plan revision packages ≡ accepts summary
    → (package_candidates plan ≢ [])
      × (summary.revision ≡ revision)
      × (summary.candidates ≡ package_candidates plan)
      × Archived m (package_candidates plan) summary.archives
unfolding pack
pack_lem m plan revision packages summary h =
    let candidates = package_candidates plan in
    let (some_candidate, k) = require-accepts (not (is_empty candidates)) _ summary h in
    let (archives, e, l) = and_then-accepts (dry_run_packages m candidates) _ summary k in
    let (inputs, f, n) =
      and_then-accepts (input_digests m (input_files plan.release)) _ summary l in
    let same : archives ≡ summary.archives = ground (arith, n) in
    (
      λ none_left.
          let gone = (is_empty_iff candidates).1 none_left in
          absurd (ground (arith, some_candidate, gone)),
      ground (arith, n),
      ground (arith, n),
      subst (Archived m candidates) same (archives_lem m candidates archives e),
    )

-- The tests of the sources, one by one.
sources_lem :
    (m : Machine) (plan : Plan) (selected : Option Text) (metadata : List Value) (revision : Text)
    → check_sources m plan selected metadata ≡ accepts revision
    → IsWorkspace m plan metadata
      × IsCheckout m plan.release selected revision
      × ((status : Text) × (m.run release_status ≡ some status) × (strip status ≡ []))
      × All (λ v. check_input m v ≡ accepts tt) (input_files plan.release)
unfolding check_sources
sources_lem m plan selected metadata revision h =
    let (u, e, k) = and_then-accepts (validate_workspace m plan metadata) _ revision h in
    let (v, f, l) = and_then-accepts (validate_adoption m plan) _ revision k in
    let (found, g, n) =
      and_then-accepts (validate_git_provenance m plan.release selected) _ revision l in
    let (c, i, o) = and_then-accepts (validate_clean_source m) _ revision n in
    let (d, j, p) =
      and_then-accepts (every (check_input m) (input_files plan.release)) _ revision o in
    let same : found ≡ revision = ground (arith, p) in
    (
      validate_workspace-IsWorkspace m plan metadata u e,
      subst (IsCheckout m plan.release selected) same
          (validate_git_provenance-IsCheckout m plan.release selected found g),
      clean_source_lem m c i,
      every-All (check_input m) (input_files plan.release) d j,
    )

-- A successful dry run read a manifest that plans an unpublished release; the crates of the plan are the
-- packages of the workspace, the checkout is clean, has no Rust tag and is the revision that the release names,
-- every input file is a file below the root, and Cargo made an archive of each of the candidates, of which there is one.
pub dry_run-IsReady :
    (m : Machine) (manifest_path : Location) (selected : Option Text) (summary : Summary)
    → dry_run m manifest_path selected ≡ accepts summary
    → IsReady m manifest_path selected summary
unfolding dry_run
dry_run-IsReady m manifest_path selected summary h =
    let (manifest, e, k) = and_then-accepts (read_json m (m.resolve manifest_path)) _ summary h in
    let (plan, f, l) = and_then-accepts (validate_manifest_shape m.format manifest) _ summary k in
    let (metadata, g, n) = and_then-accepts (cargo_metadata m) _ summary l in
    let (revision, i, o) = and_then-accepts (check_sources m plan selected metadata) _ summary n in
    let (workspace, checkout, (status, status_output, clean), inputs) =
      sources_lem m plan selected metadata revision i in
    let (some_candidate, same, candidates, archives) =
      pack_lem m plan revision (length metadata) summary o in
    record {
      manifest = manifest;
      plan = plan;
      metadata = metadata;
      status = status;
      loaded = e;
      planned = validate_manifest_shape-IsPlan m.format manifest plan f;
      workspace = workspace;
      checkout = subst (IsCheckout m plan.release selected) (sym same) checkout;
      status_output = status_output;
      clean = clean;
      inputs = inputs;
      candidates = candidates;
      some_candidate = some_candidate;
      archives = archives;
    }
