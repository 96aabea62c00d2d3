-- ===== src/Lock/Edges.antt =====
-- The edge syntax of Cargo.lock: `name`, `name version` and `name version (source)`.
use symaira_corekit.Base.{
  ℕ, Bool, false, ◌≡◌, refl, [], ◌∷◌, ◌++◌, Option, none, some, Text, arith, nat_eq, contains, ap,
}
use symaira_corekit.Lock.{Edge, split_space, parse_edge, drop_last}

abbrev space : ℕ
space = 32

-- What Cargo writes for a dependency. A source is written only behind a version.
pub print_edge : Text → Option (Text × Option Text) → Text
print_edge name none = name
print_edge name (some (version, none)) = name ++ space ∷ version
print_edge name (some (version, some source)) =
    name ++ space ∷ (version ++ space ∷ (40 ∷ (source ++ 41 ∷ [])))

abbrev pub edge_of : Text → Option (Text × Option Text) → Edge
edge_of name none = record { name = name; version = none; source = none }
edge_of name (some (version, source)) = record {
  name = name;
  version = some version;
  source = source;
}

abbrev pub has_space : Option (Text × Option Text) → Bool
has_space none = false
has_space (some (version, _)) = contains version space

split_space-plain : (s : Text) → contains s space ≡ false → split_space s ≡ (s, none)
unfolding split_space
split_space-plain [] h = refl
split_space-plain (c ∷ s) h = ground (arith, split_space-plain s)

split_space-append :
    (s t : Text) → contains s space ≡ false → split_space (s ++ space ∷ t) ≡ (s, some t)
unfolding split_space
split_space-append [] t h = refl
split_space-append (c ∷ s) t h = ground (arith, split_space-append s t)

drop_last-append : (s : Text) (c : ℕ) → drop_last (s ++ c ∷ []) ≡ s
drop_last-append [] c = refl
drop_last-append (d ∷ []) c = refl
drop_last-append (d ∷ e ∷ s) c = ap (λ t. d ∷ t) (drop_last-append (e ∷ s) c)

-- Each edge that Cargo writes is read back as its name, version and source, if name and version
-- hold no space.
pub parse_edge-print_edge :
    (name : Text) (rest : Option (Text × Option Text))
    → contains name space ≡ false
    → has_space rest ≡ false
    → parse_edge (print_edge name rest) ≡ edge_of name rest
unfolding parse_edge print_edge
parse_edge-print_edge name none h k = ground (arith, split_space-plain name h)
parse_edge-print_edge name (some (version, none)) h k =
    ground (arith, split_space-append name version h, split_space-plain version k)
parse_edge-print_edge name (some (version, some source)) h k =
    let tail = 40 ∷ (source ++ 41 ∷ []) in
    ground (
      arith,
      split_space-append name (version ++ space ∷ tail) h,
      split_space-append version tail k,
      drop_last-append source 41,
    )
