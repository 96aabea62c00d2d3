-- ===== src/Consumer/Go/Pins.antt =====
-- What a clean check of one declared Go manifest shows (`_check_go` of port/consumer/verify.py).
use symaira_corekit.Base.{
  ◌≡◌, refl, ap, ◌∙◌, subst, true, Option, none, some, List, [], ◌∷◌, arith, Text, str, All, all,
  flat_map, list_beq_iff, ◌==◌, nat_eq, list_eq, option_eq, bool_eq, pair_eq,
}
use symaira_corekit.Consumer.Findings.{Check, Raised, raises, returns}
use symaira_corekit.Consumer.Go.{
  PinFile, check_pin, check_requirements, pin_file, pin_versions, readable, refused_pin,
}
use symaira_corekit.Consumer.GoMod.{parse_go_pins, parse_go_requirements, valid_pins}
use symaira_corekit.Consumer.Paths.{
  Guarded, failed, regular_non_symlink, safe, safe_non_symlink_child, unsafe,
}
use symaira_corekit.Consumer.Release.Laws.{Answers, prints_iff}
use symaira_corekit.Consumer.World.{Contents, Location, World, contents, undecodable, unreadable}
use symaira_corekit.Json.{Value, arr, bool, int, neg, null, obj, text}

-- A declared manifest, a tracked regular file with exactly one CoreKit requirement, of the version.
pub record HasPin (w : World) (checkout : Location) (version : Text) (v : Value) : Type 0 where
  pub relative : Text
  pub path : Location
  pub contents_of : Text
  pub declared : v ≡ text relative
  pub guarded : safe_non_symlink_child w checkout (text relative) ≡ safe path
  pub is_regular : regular_non_symlink w path ≡ true
  pub tracked :
      Answers w
        (str "ls-files" ∷ str "--error-unmatch" ∷ str "--" ∷ relative ∷ [])
        checkout
        relative
  pub readback : w.read_text path ≡ contents contents_of
  pub sole : parse_go_requirements contents_of ≡ some version ∷ []

-- A file that the program reads under the guard.
record ReadsPin (w : World) (checkout : Location) (v : Value) (t : Text) : Type 0 where
  pub relative : Text
  pub path : Location
  pub declared : v ≡ text relative
  pub guarded : safe_non_symlink_child w checkout (text relative) ≡ safe path
  pub is_regular : regular_non_symlink w path ≡ true
  pub tracked :
      Answers w
        (str "ls-files" ∷ str "--error-unmatch" ∷ str "--" ∷ relative ∷ [])
        checkout
        relative
  pub readback : w.read_text path ≡ contents t

pub data GuardedCase (g : Guarded) : Type 0 where
  is_safe : (path : Location) → g ≡ safe path → GuardedCase g
  is_unsafe : g ≡ unsafe → GuardedCase g
  is_failed : g ≡ failed → GuardedCase g

pub Guarded-cases : (g : Guarded) → GuardedCase g
Guarded-cases (safe path) = is_safe path refl
Guarded-cases unsafe = is_unsafe refl
Guarded-cases failed = is_failed refl

pub data ContentsCase (c : Contents) : Type 0 where
  is_contents : (t : Text) → c ≡ contents t → ContentsCase c
  is_unreadable : c ≡ unreadable → ContentsCase c
  is_undecodable : c ≡ undecodable → ContentsCase c

pub Contents-cases : (c : Contents) → ContentsCase c
Contents-cases (contents t) = is_contents t refl
Contents-cases unreadable = is_unreadable refl
Contents-cases undecodable = is_undecodable refl

pin_file_lem :
    (w : World) (checkout : Location) (v : Value) (t : Text)
    → pin_file w checkout v ≡ returns (readable t)
    → ReadsPin w checkout v t
unfolding pin_file
pin_file_lem w checkout (text relative) t h =
    elim (Guarded-cases (safe_non_symlink_child w checkout (text relative))) [
      | is_unsafe e ↦ absurd (ground (arith, h, e))
      | is_failed e ↦ absurd (ground (arith, h, e))
      | is_safe path e ↦ elim (Contents-cases (w.read_text path)) [
        | is_unreadable f ↦ absurd (ground (arith, h, e, f))
        | is_undecodable f ↦ absurd (ground (arith, h, e, f))
        | is_contents u f ↦
            let same : u ≡ t = ground (arith, h, e, f) in
            record {
              relative = relative;
              path = path;
              declared = refl;
              guarded = e;
              is_regular = ground (arith, h, e);
              tracked = (prints_iff w _ checkout relative).0 (ground (arith, h, e));
              readback = f ∙ ap contents same;
            }
      ]
    ]
pin_file_lem w checkout null t h = absurd (ground (arith, h))
pin_file_lem w checkout (bool b) t h = absurd (ground (arith, h))
pin_file_lem w checkout (int n) t h = absurd (ground (arith, h))
pin_file_lem w checkout (neg n) t h = absurd (ground (arith, h))
pin_file_lem w checkout (arr l) t h = absurd (ground (arith, h))
pin_file_lem w checkout (obj d) t h = absurd (ground (arith, h))

-- One declaration, and it is valid.
requirements_lem :
    (repository : Text) (l : List (Option Text))
    → check_requirements repository l ≡ []
    → (version : Text) × (l ≡ some version ∷ [])
unfolding check_requirements
requirements_lem repository [] h = absurd (ground (arith, h))
requirements_lem repository (none ∷ l) h = absurd (ground (arith, h))
requirements_lem repository (some version ∷ []) h = (version, refl)
requirements_lem repository (some version ∷ a ∷ l) h = absurd (ground (arith, h))

data PinFileCase (c : Check PinFile) : Type 0 where
  is_readable : (t : Text) → c ≡ returns (readable t) → PinFileCase c
  is_refused_pin : (code : Text) → c ≡ returns (refused_pin code) → PinFileCase c
  is_raised : (e : Raised) → c ≡ raises e → PinFileCase c

PinFile-cases : (c : Check PinFile) → PinFileCase c
PinFile-cases (returns (readable t)) = is_readable t refl
PinFile-cases (returns (refused_pin code)) = is_refused_pin code refl
PinFile-cases (raises e) = is_raised e refl

abbrev pub OnePin : World → Location → Value → Type 0
OnePin w checkout v =
    (version : Text) × HasPin w checkout version v × (pin_versions w checkout v ≡ version ∷ [])

pub pin_lem :
    (w : World) (repository : Text) (checkout : Location) (v : Value)
    → check_pin w repository checkout v ≡ returns []
    → OnePin w checkout v
unfolding check_pin pin_versions parse_go_pins valid_pins
pin_lem w repository checkout v h = elim (PinFile-cases (pin_file w checkout v)) [
  | is_raised x e ↦ absurd (ground (arith, h, e))
  | is_refused_pin code e ↦ absurd (ground (arith, h, e))
  | is_readable t e ↦
      let clean : check_requirements repository (parse_go_requirements t) ≡ [] =
        ground (arith, h, e) in
      let (version, sole) = requirements_lem repository (parse_go_requirements t) clean in
      let r = pin_file_lem w checkout v t e in
      (
        version,
        record {
          relative = r.relative;
          path = r.path;
          contents_of = t;
          declared = r.declared;
          guarded = r.guarded;
          is_regular = r.is_regular;
          tracked = r.tracked;
          readback = r.readback;
          sole = sole;
        },
        ground (arith, e, sole),
      )
]

-- All pins give the version that the test compares with.
pub same_versions :
    (w : World) (checkout : Location) (version : Text) (pins : List Value)
    → All (OnePin w checkout) pins
    → all (λ x. x == version) (flat_map (pin_versions w checkout) pins) ≡ true
    → All (HasPin w checkout version) pins
same_versions w checkout version [] pinned h = tt
same_versions w checkout version (v ∷ pins) ((u, pin, found), pinned) h =
    let same : u ≡ version = (list_beq_iff u version).0 (ground (arith, h, found)) in
    (
      subst (λ x. HasPin w checkout x v) same pin,
      same_versions w checkout version pins pinned (ground (arith, h, found)),
    )
