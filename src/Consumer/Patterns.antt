-- ===== src/Consumer/Patterns.antt =====
-- The regular expressions of port/consumer/verify.py.
pub mod Laws
use symaira_corekit.Base.{
  ℕ, Bool, true, ◌&&◌, ◌||◌, ◌==◌, nat_eq, Text, str, [], ◌∷◌, contains, not, leb, List,
}
use symaira_corekit.Regex.{
  Regex, empty, set, seq, alt, star, between, char, literal, optional, plus, times, fullmatch,
}

abbrev pub digit : ℕ → Bool
digit c = between b'0' b'9' c

-- `[0-9a-f]`
abbrev pub is_hex : ℕ → Bool
is_hex c = digit c || between b'a' b'f' c

-- `[0-9A-Za-z-]`
abbrev pub is_ident : ℕ → Bool
is_ident c = digit c || between b'A' b'Z' c || between b'a' b'z' c || c == b'-'

-- `[A-Za-z-]`
abbrev pub is_non_digit : ℕ → Bool
is_non_digit c = between b'A' b'Z' c || between b'a' b'z' c || c == b'-'

-- `(?:0|[1-9][0-9]*)`
abbrev pub number : Regex
number = alt (char b'0') (seq (set (between b'1' b'9')) (star (set digit)))

-- Three numbers with dots between.
abbrev pub triple : Regex
triple = seq number (seq (char b'.') (seq number (seq (char b'.') number)))

-- `REVISION_RE`, and the digests `[0-9a-f]{64}`
abbrev pub revision_re : Regex
revision_re = times 40 (set is_hex)

abbrev pub digest_re : Regex
digest_re = times 64 (set is_hex)

-- `RELEASE_TAG_RE`
abbrev pub release_tag_re : Regex
release_tag_re = seq (char b'v') triple

-- `GO_VERSION_RE`
abbrev pub go_version_re : Regex
go_version_re = seq (char b'v') (
    seq triple (
      seq (optional (seq (char b'-') (plus (set (λ c. is_ident c || c == b'.')))))
        (optional (seq (char b'+') (plus (set (λ c. is_ident c || c == b'.')))))))

-- A part of a pre-release: a number, or what holds a letter or a dash.
abbrev pre_part : Regex
pre_part = alt number (seq (star (set is_ident)) (seq (set is_non_digit) (star (set is_ident))))

-- `SEMVER_RE`
abbrev pub semver_re : Regex
semver_re = seq triple (
    seq (optional (seq (char b'-') (seq pre_part (star (seq (char b'.') pre_part))))) (
      optional (
        seq (char b'+')
          (seq (plus (set is_ident)) (star (seq (char b'.') (plus (set is_ident))))))))

-- `https://index\.crates\.io/[A-Za-z0-9._/-]+`
unfoldable pub index_re : Regex
unfolding str
index_re =
    seq (literal (str "https://index.crates.io/"))
      (plus (set (λ c. is_ident c || c == b'.' || c == b'_' || c == b'/')))

unfoldable pub is_revision : Text → Bool
unfolding fullmatch
is_revision s = fullmatch revision_re s

unfoldable pub is_digest : Text → Bool
unfolding fullmatch
is_digest s = fullmatch digest_re s

unfoldable pub is_release_tag : Text → Bool
unfolding fullmatch
is_release_tag s = fullmatch release_tag_re s

unfoldable pub is_go_version : Text → Bool
unfolding fullmatch
is_go_version s = fullmatch go_version_re s

unfoldable pub is_semver : Text → Bool
unfolding fullmatch
is_semver s = fullmatch semver_re s

unfoldable pub is_index_url : Text → Bool
unfolding fullmatch index_re
is_index_url s = fullmatch index_re s
