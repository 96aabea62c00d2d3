-- ===== src/MiriGate/Laws.antt =====
-- What the Miri gate shows (scripts/rust-port/miri_gate.py).
use symaira_corekit.Base.{
  ℕ, ◌≡◌, refl, sym, ap, ◌∙◌, subst, ◌⊎◌, inl, inr, true, false, ◌||◌, none, some, List, [], ◌∷◌,
  ◌++◌, arith, Text, str, All, Bool-cases, all, all-contains, all_iff, contains, contains-append,
  list_beq_iff, nat_beq_iff, ◌==◌, nat_eq, list_eq, option_eq, bool_eq, pair_eq,
}
use symaira_corekit.Base.Verdict.{
  Verdict-cases, accepts, and_then-accepts, require, require-accepts, ◌and_then◌,
}
use symaira_corekit.MiriGate.{
  Flags, Host, Partition, Ran, all_packages, cargo_packages, checked_run, excluded_names,
  expensive_test, finished, is_documented, is_exhaustive, is_reason, isolation_disabled, main,
  miri_command, negative_package, not_started, overlaps, packages_of_gate, removed, run_chosen,
  run_gate, run_gate_command, run_mode, selection, set_to, timed_out, validate_package_partition,
}

-- Every package of the workspace is in exactly one of the sets, and the sets have no other.
pub record IsPartition (p : Partition) (expected : List Text) : Type 0 where
  pub exhaustive :
      (t : Text)
      → contains expected t ≡ (
          contains p.pure t
          || (contains p.non_isolated t || contains (excluded_names p.excluded) t))
  pub pure_only :
      (t : Text)
      → contains p.pure t ≡ true
      → (contains p.non_isolated t ≡ false) × (contains (excluded_names p.excluded) t ≡ false)
  pub non_isolated_only :
      (t : Text) → contains p.non_isolated t ≡ true → contains (excluded_names p.excluded) t ≡ false
  pub reasons : All (λ e. is_reason e ≡ true) p.excluded
  pub probe : contains p.non_isolated negative_package ≡ true

overlaps_lem :
    (xs ys : List Text) (t : Text)
    → overlaps xs ys ≡ false
    → contains xs t ≡ true
    → contains ys t ≡ false
overlaps_lem [] ys t h m = absurd (ground (arith, m))
overlaps_lem (x ∷ xs) ys t h m = elim (Bool-cases (t == x)) [
  | inl e ↦ subst (λ y. contains ys y ≡ false) (sym ((list_beq_iff t x).0 e)) (ground (arith, h))
  | inr e ↦ overlaps_lem xs ys t (ground (arith, h)) (ground (arith, m, e))
]

same_lem :
    (xs ys : List Text) (t : Text)
    → all (contains ys) xs ≡ true
    → all (contains xs) ys ≡ true
    → contains ys t ≡ contains xs t
same_lem xs ys t h k = elim (Bool-cases (contains xs t)) [
  | inl e ↦ all-contains (contains ys) xs t h e ∙ sym e
  | inr e ↦ elim (Bool-cases (contains ys t)) [
    | inl f ↦ let bad = all-contains (contains xs) ys t k f in absurd (ground (arith, bad, e))
    | inr f ↦ f ∙ sym e
  ]
]

partition_lem :
    (p : Partition) (expected : List Text)
    → is_documented p ≡ true
    → is_exhaustive p expected ≡ true
    → IsPartition p expected
unfolding is_documented is_exhaustive
partition_lem p expected h k =
    let names = excluded_names p.excluded in
    let one : overlaps p.pure p.non_isolated ≡ false = ground (arith, h) in
    let two : overlaps p.pure names ≡ false = ground (arith, h) in
    let three : overlaps p.non_isolated names ≡ false = ground (arith, h) in
    let inside : all (contains expected) (all_packages p) ≡ true = ground (arith, k) in
    let covered : all (contains (all_packages p)) expected ≡ true = ground (arith, k) in
    record {
      exhaustive = λ t. ground (
        arith,
        same_lem (all_packages p) expected t inside covered,
        contains-append p.pure (p.non_isolated ++ names) t,
        contains-append p.non_isolated names t,
      );
      pure_only =
          λ t m. (overlaps_lem p.pure p.non_isolated t one m, overlaps_lem p.pure names t two m);
      non_isolated_only = λ t m. overlaps_lem p.non_isolated names t three m;
      reasons = (all_iff is_reason p.excluded).0 (ground (arith, h));
      probe = ground (arith, k);
    }

contains-selection :
    (names : List Text) (t : Text) → contains names t ≡ true → contains (selection names) t ≡ true
unfolding selection
contains-selection [] t m = absurd (ground (arith, m))
contains-selection (name ∷ names) t m = elim (Bool-cases (t == name)) [
  | inl e ↦ ground (arith, e)
  | inr e ↦ let rest = contains-selection names t (ground (arith, m, e)) in ground (arith, rest)
]

-- The command takes every package of its list.
contains-miri_command :
    (names : List Text) (t : Text)
    → contains names t ≡ true
    → contains (miri_command names none) t ≡ true
unfolding miri_command
contains-miri_command names t m =
    let command : List Text = str "cargo" ∷ str "+nightly" ∷ str "miri" ∷ str "test" ∷ [] in
    let tail : List Text =
      str "--all-features" ∷ str "--locked" ∷ str "--" ∷ str "--skip" ∷ expensive_test ∷ [] in
    ground (
      arith,
      contains-append command (selection names ++ tail) t,
      contains-append (selection names) tail t,
      contains-selection names t m,
    )

-- A package is in one of the two commands or has a reason to be left out.
pub data Covered (p : Partition) (t : Text) : Type 0 where
  in_pure : contains (miri_command p.pure none) t ≡ true → Covered p t
  in_non_isolated : contains (miri_command p.non_isolated none) t ≡ true → Covered p t
  left_out : contains (excluded_names p.excluded) t ≡ true → Covered p t

covered_lem :
    (p : Partition) (expected : List Text) (t : Text)
    → IsPartition p expected
    → contains expected t ≡ true
    → Covered p t
covered_lem p expected t parts m =
    let union = parts.exhaustive t in
    elim (Bool-cases (contains p.pure t)) [
      | inl e ↦ in_pure (contains-miri_command p.pure t e)
      | inr e ↦ elim (Bool-cases (contains p.non_isolated t)) [
        | inl f ↦ in_non_isolated (contains-miri_command p.non_isolated t f)
        | inr f ↦ left_out (ground (arith, union, m, e, f))
      ]
    ]

Ran-cases :
    (r : Ran)
    → ((code : ℕ) × (output : Text) × (r ≡ finished code output))
      ⊎ ((r ≡ timed_out) ⊎ (r ≡ not_started))
Ran-cases (finished code output) = inl (code, output, refl)
Ran-cases timed_out = inr (inl refl)
Ran-cases not_started = inr (inr refl)

checked_run_lem :
    (m : Host) (command : List Text) (flags : Flags) (output : Text)
    → checked_run m command flags ≡ accepts output
    → m.run command flags ≡ finished 0 output
unfolding checked_run
checked_run_lem m command flags output h = elim (Ran-cases (m.run command flags)) [
  | inl (code, text', e) ↦
      let (zero_code, k) =
        require-accepts (code == 0) (accepts text') output (ground (arith, h, e)) in
      let same : text' ≡ output = ground (arith, k) in
      let none_left : code ≡ 0 = (nat_beq_iff code 0).0 zero_code in
      e ∙ (ap (λ c. finished c text') none_left ∙ ap (finished 0) same)
  | inr (inl e) ↦ absurd (ground (arith, h, e))
  | inr (inr e) ↦ absurd (ground (arith, h, e))
]

-- A run of the gate that passes.
pub record IsMiriRun (m : Host) (p : Partition) : Type 0 where
  pub expected : List Text
  pub pure_output : Text
  pub other_output : Text
  pub asked : cargo_packages m ≡ accepts expected
  pub partition : IsPartition p expected
  pub isolated : m.run (miri_command p.pure none) removed ≡ finished 0 pure_output
  pub not_isolated :
      m.run (miri_command p.non_isolated none) (set_to isolation_disabled) ≡ finished 0 other_output
  pub covered : (t : Text) → contains expected t ≡ true → Covered p t

gate_command_lem :
    (m : Host) (command : List Text) (flags : Flags) (u : Unit)
    → run_gate_command m command flags ≡ accepts u
    → (output : Text) × (m.run command flags ≡ finished 0 output)
unfolding run_gate_command
gate_command_lem m command flags u h =
    let (output, e, k) =
      and_then-accepts (checked_run m command flags) (λ output. accepts tt) u h in
    (output, checked_run_lem m command flags output e)

run_mode_lem :
    (m : Host) (p : Partition) (u : Unit) → run_mode m p run_gate ≡ accepts u → IsMiriRun m p
unfolding run_mode run_chosen validate_package_partition
run_mode_lem m p u h =
    let (v, e, k) =
      and_then-accepts (validate_package_partition m p) (λ done. run_chosen m p run_gate) u h in
    let (documented, o) =
      require-accepts (is_documented p)
        (cargo_packages m and_then λ expected. require (is_exhaustive p expected) (accepts tt)) v
        e in
    let (expected, asked, parted) =
      and_then-accepts (cargo_packages m)
        (λ expected. require (is_exhaustive p expected) (accepts tt)) v o in
    let (exhaustive, _) = require-accepts (is_exhaustive p expected) (accepts tt) v parted in
    let (w, f, l) =
      and_then-accepts (run_gate_command m (miri_command p.pure none) removed)
        (λ done. run_gate_command m (miri_command p.non_isolated none) (set_to isolation_disabled))
        u k in
    let (pure_output, isolated) = gate_command_lem m (miri_command p.pure none) removed w f in
    let (other_output, not_isolated) =
      gate_command_lem m (miri_command p.non_isolated none) (set_to isolation_disabled) u l in
    let partition = partition_lem p expected documented exhaustive in
    record {
      expected = expected;
      pure_output = pure_output;
      other_output = other_output;
      asked = asked;
      partition = partition;
      isolated = isolated;
      not_isolated = not_isolated;
      covered = λ t found. covered_lem p expected t partition found;
    }

-- When the gate's run returns 0, every package of the workspace is in exactly one of the three sets, both Miri
-- commands finished with the status 0, the first isolated and the second not, and every package is an argument of
-- one of the two commands or is an excluded package, each of which has its reason.
pub main-IsMiriRun : (m : Host) → main m run_gate ≡ some 0 → IsMiriRun m packages_of_gate
unfolding main
main-IsMiriRun m h = elim (Verdict-cases (run_mode m packages_of_gate run_gate)) [
  | inl (u, e) ↦ run_mode_lem m packages_of_gate u e
  | inr (inl e) ↦ absurd (ground (arith, h, e))
  | inr (inr e) ↦ absurd (ground (arith, h, e))
]
