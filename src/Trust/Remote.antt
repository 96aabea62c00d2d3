-- ===== src/Trust/Remote.antt =====
-- What `repository_slug_from_remote` of scripts/rust-port/trust.py takes away from a remote.
use mathlib.Core.List.{reverse, append_assoc, append-nil, reverse-append, reverse-reverse}
use symaira_corekit.Base.{
  ℕ, ◌≡◌, refl, sym, ap, ◌∙◌, subst, ◌⊎◌, inl, inr, Bool, true, some, List, [], ◌∷◌, ◌++◌, arith,
  Text, str, Bool-cases, all, all-append, drop, if◌then◌else◌, ◌==◌, nat_eq, list_eq, option_eq,
  bool_eq, pair_eq,
}
use symaira_corekit.Base.Cuts.{Behind, cut_lem, join-split_on, prefix_lem}
use symaira_corekit.Base.Strings.{cut_at, join, remove_prefix, split_on, starts_with}
use symaira_corekit.Trust.{allowed_remote, skip_slashes, slug_of, trimmed}

-- The spellings of the address of a repository on GitHub.
pub record IsAddress (remote repository : Text) : Type 0 where
  pub host : Text
  pub ending : Text
  pub slashes : Text
  pub tail : Text
  pub parts : remote ≡ host ++ (repository ++ (ending ++ (slashes ++ tail)))
  pub known_host :
      (host ≡ str "git@github.com:")
      ⊎ ((host ≡ str "https://github.com/") ⊎ (host ≡ str "http://github.com/"))
  pub git_ending : (ending ≡ []) ⊎ (ending ≡ str ".git")
  pub only_slashes : all (λ c. c == b'/') slashes ≡ true
  pub query : (tail ≡ []) ⊎ ((t : Text) × ((tail ≡ b'?' ∷ t) ⊎ (tail ≡ b'#' ∷ t)))

allowed_lem :
    (remote value : Text)
    → allowed_remote remote ≡ some value
    → (host : Text) × (remote ≡ host ++ value)
      × ((host ≡ str "git@github.com:")
          ⊎ ((host ≡ str "https://github.com/") ⊎ (host ≡ str "http://github.com/")))
unfolding allowed_remote
allowed_lem remote value h =
    let ssh = str "git@github.com:" in
    let https = str "https://github.com/" in
    let http = str "http://github.com/" in
    elim (Bool-cases (starts_with ssh remote)) [
      | inl e ↦
          let rest : remove_prefix ssh remote ≡ value = ground (arith, h, e) in
          (ssh, prefix_lem ssh remote e ∙ ap (λ v. ssh ++ v) rest, inl refl)
      | inr e ↦ elim (Bool-cases (starts_with https remote)) [
        | inl f ↦
            let rest : remove_prefix https remote ≡ value = ground (arith, h, e, f) in
            (https, prefix_lem https remote f ∙ ap (λ v. https ++ v) rest, inr (inl refl))
        | inr f ↦ elim (Bool-cases (starts_with http remote)) [
          | inl g ↦
              let rest : remove_prefix http remote ≡ value = ground (arith, h, e, f, g) in
              (http, prefix_lem http remote g ∙ ap (λ v. http ++ v) rest, inr (inr refl))
          | inr g ↦ absurd (ground (arith, h, e, f, g))
        ]
      ]
    ]

skip_slashes_lem :
    (s : Text)
    → (slashes : Text) × (s ≡ slashes ++ skip_slashes s) × (all (λ c. c == b'/') slashes ≡ true)
unfolding skip_slashes
skip_slashes_lem [] = ([], refl, refl)
skip_slashes_lem (c ∷ s) = elim (Bool-cases (c == b'/')) [
  | inl e ↦
      let (slashes, parts, only) = skip_slashes_lem s in
      (c ∷ slashes, rw e (ap (λ t. c ∷ t) parts), ground (arith, e, only))
  | inr e ↦ ([], rw e refl, refl)
]

all-reverse : (p : ℕ → Bool) (s : Text) → all p s ≡ true → all p (reverse s) ≡ true
all-reverse p [] h = refl
all-reverse p (c ∷ s) h =
    subst (λ t. all p t ≡ true) (sym (reverse-append (c ∷ []) s))
      (ground (arith, all-append p (reverse s) (c ∷ []), all-reverse p s, h))

ending_parts :
    (s : Text)
    → starts_with (str "tig.") s ≡ true
    → reverse (remove_prefix (str "tig.") s) ++ reverse (str "tig.")
      ≡ reverse (drop 4 s) ++ str ".git"
unfolding str remove_prefix starts_with
ending_parts [] h = absurd (ground (arith, h))
ending_parts (a ∷ []) h = absurd (ground (arith, h))
ending_parts (a ∷ b ∷ []) h = absurd (ground (arith, h))
ending_parts (a ∷ b ∷ c ∷ []) h = absurd (ground (arith, h))
ending_parts (a ∷ b ∷ c ∷ d ∷ s) h = ground (arith, h)

-- The text behind the owner and the name, read backwards: an ending and slashes.
ending_lem :
    (s : Text)
    → (ending : Text) × (reverse s
        ≡ reverse (if starts_with (str "tig.") s then drop 4 s else s) ++ ending)
      × ((ending ≡ []) ⊎ (ending ≡ str ".git"))
ending_lem s = elim (Bool-cases (starts_with (str "tig.") s)) [
  | inl e ↦ (
    str ".git",
    rw e (
        ap reverse (prefix_lem (str "tig.") s e)
        ∙ (reverse-append (str "tig.") (remove_prefix (str "tig.") s) ∙ ending_parts s e)),
    inr refl,
  )
  | inr e ↦ ([], rw e (sym (append-nil (reverse s))), inl refl)
]

tail_lem :
    (between' behind : Text)
    → Behind b'#' between'
    → Behind b'?' behind
    → (between' ++ behind ≡ [])
      ⊎ ((t : Text) × ((between' ++ behind ≡ b'?' ∷ t) ⊎ (between' ++ behind ≡ b'#' ∷ t)))
tail_lem between' behind (inl e) (inl f) = inl (ground (arith, e, f))
tail_lem between' behind (inl e) (inr (t, f)) = inr (t, inl (ground (arith, e, f)))
tail_lem between' behind (inr (t, e)) q = inr (t ++ behind, inr (ap (λ s. s ++ behind) e))

trimmed_lem :
    (value : Text)
    → (ending slashes tail : Text) × (value ≡ trimmed value ++ (ending ++ (slashes ++ tail)))
      × ((ending ≡ []) ⊎ (ending ≡ str ".git"))
      × (all (λ c. c == b'/') slashes ≡ true)
      × ((tail ≡ []) ⊎ ((t : Text) × ((tail ≡ b'?' ∷ t) ⊎ (tail ≡ b'#' ∷ t))))
unfolding trimmed
trimmed_lem value =
    let outer = cut_at (str "?") value in
    let inner = cut_at (str "#") outer in
    let backwards = skip_slashes (reverse inner) in
    let (behind, value_parts, question) = cut_lem b'?' value in
    let (between', outer_parts, number) = cut_lem b'#' outer in
    let (slashes, back_parts, only) = skip_slashes_lem (reverse inner) in
    let (ending, ending_parts', git_ending) = ending_lem backwards in
    let inner_parts : inner ≡ reverse backwards ++ reverse slashes =
      sym (reverse-reverse inner) ∙ (ap reverse back_parts ∙ reverse-append slashes backwards) in
    (
      ending,
      reverse slashes,
      between' ++ behind,
      value_parts
          ∙ (ap (λ t. t ++ behind) outer_parts
              ∙ (ap (λ t. (t ++ between') ++ behind) inner_parts
                  ∙ (ap (λ t. ((t ++ reverse slashes) ++ between') ++ behind) ending_parts'
                      ∙ simp append_assoc))),
      git_ending,
      all-reverse (λ c. c == b'/') slashes only,
      tail_lem between' behind number question,
    )

slug_parts :
    (parts : List Text) (slug : Text) → slug_of parts ≡ some slug → join (b'/' ∷ []) parts ≡ slug
unfolding slug_of join
slug_parts [] slug h = absurd (ground (arith, h))
slug_parts (owner ∷ []) slug h = absurd (ground (arith, h))
slug_parts (owner ∷ name ∷ []) slug h =
    let same : owner ++ b'/' ∷ name ≡ slug = ground (arith, h) in
    append_assoc owner (b'/' ∷ []) name ∙ same
slug_parts (owner ∷ name ∷ other ∷ rest) slug h = absurd (ground (arith, h))

pub address_lem :
    (remote value repository : Text)
    → allowed_remote remote ≡ some value
    → slug_of (split_on b'/' (trimmed value)) ≡ some repository
    → IsAddress remote repository
address_lem remote value repository allowed slug =
    let (host, host_parts, known_host) = allowed_lem remote value allowed in
    let (ending, slashes, tail, value_parts, git_ending, only_slashes, query) = trimmed_lem value in
    let same : trimmed value ≡ repository =
      sym (join-split_on b'/' (trimmed value))
      ∙ slug_parts (split_on b'/' (trimmed value)) repository slug in
    record {
      host = host;
      ending = ending;
      slashes = slashes;
      tail = tail;
      parts =
          host_parts
          ∙ (ap (λ v. host ++ v) value_parts
              ∙ ap (λ r. host ++ (r ++ (ending ++ (slashes ++ tail)))) same);
      known_host = known_host;
      git_ending = git_ending;
      only_slashes = only_slashes;
      query = query;
    }
