-- ===== src/Consumer/World.antt =====
-- What the verifier asks of Git, of the file system and of the decoders. The answers do not change
-- while it runs.
use symaira_corekit.Base.{
  ℕ, ◌≡◌, Bool, ◌&&◌, Option, List, ◌++◌, Text, str, ◌==◌, nat_eq, list_eq, option_eq, bool_eq,
  pair_eq,
}
use symaira_corekit.Base.Strings.{strip}
use symaira_corekit.Consumer.Findings.{Raised}
use symaira_corekit.Json.{Value, text}

-- The parts of an absolute path below the root directory.
abbrev pub Location : Type 0
Location = List Text

-- `lstat`: a directory entry as it stands, with no link followed.
pub data Entry : Type 0 where
  missing refused symlink regular directory : Entry

pub record Completed : Type 0 where
  pub returncode : ℕ
  pub stdout : Text
  pub stderr : Text

-- `read_text`
pub data Contents : Type 0 where
  contents : Text → Contents
  unreadable undecodable : Contents

-- What `os.walk` lists of a directory: the directories and the links to directories, each with what
-- stands below it, and the names of all else.
mutual
  pub data Tree : Type 0 where
    folder : Branches → List Text → Tree

  pub data Branches : Type 0 where
    no_branch : Branches
    branch : Text → Tree → Branches → Branches

-- `isalpha` and `isalnum` outside ASCII.
pub record Letters : Type 0 where
  pub alpha : ℕ → Bool
  pub alnum : ℕ → Bool

pub record World : Type 0 where
  -- `subprocess.run(["git", *args], cwd=cwd)`
  pub run_git : List Text → Location → Completed
  pub lstat : Location → Entry
  -- `path.resolve()`
  pub resolve : Location → Location
  pub is_dir : Location → Bool
  pub is_file : Location → Bool
  pub read_text : Location → Contents
  pub tree : Location → Tree
  pub letters : Letters
  -- `path.parent.mkdir(parents=True, exist_ok=True)` and `path.write_text(...)` raise no OSError.
  pub is_writable : Location → Bool
  -- `tomllib.loads` and `json.loads`; `none` is a decoding error.
  pub toml_loads : Text → Option Value
  pub json_loads : Text → Option Value
  -- What else `json.loads` raises: the ValueError of a number with too many digits, or the RecursionError, a
  -- RuntimeError, of a nesting that is too deep. The limits of `tomllib.loads` are left out.
  pub json_limit : Text → Option Raised
  -- `hashlib.sha256(b).hexdigest()` of the bytes of a file, unless it cannot be read, and of an encoded
  -- text, unless UTF-8 has no encoding of it.
  pub file_digest : Location → Option Text
  pub text_digest : Text → Option Text
  -- `str(v)`
  pub format : Value → Text
  pub format-text : (t : Text) → format (text t) ≡ t

-- `_git`: the status and the two outputs, stripped.
unfoldable pub git : World → List Text → Location → Completed
unfolding strip
git w args cwd =
    let done = w.run_git args cwd in
    record { returncode = done.returncode; stdout = strip done.stdout; stderr = strip done.stderr }

-- `code, out, _ = _git(...)`, where the program tests `not code`, and `out == expected`.
unfoldable pub succeeds : World → List Text → Location → Bool
unfolding git
succeeds w args cwd = (git w args cwd).returncode == 0

unfoldable pub prints : World → List Text → Location → Text → Bool
unfolding succeeds
prints w args cwd expected = succeeds w args cwd && (git w args cwd).stdout == expected

-- The full name of a tag's commit, and of a revision's.
unfoldable pub tag_commit : Text → Text
unfolding str
tag_commit tag = str "refs/tags/" ++ tag ++ str "^{commit}"

unfoldable pub commit_of : Text → Text
unfolding str
commit_of revision = revision ++ str "^{commit}"
