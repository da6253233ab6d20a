-- ===== src/Secret.antt =====
-- src/tab_conductor/secret_filter.py: which paths a worker must not read. A path is the list of its parts;
-- the expansion of `~` and the resolution of links and `..` on the file system are parameters. Log events are
-- left out.
pub mod Glob
pub mod Allowed
mod Tests
use Prim.Native.Char.{Char, code}
use tab_conductor.Prelude.{
  String, Bool, true, false, ◌&&◌, ◌||◌, Option, none, some, List, [], ◌∷◌, ◌++◌, ◌==◌, leb,
  if◌then◌else◌,
}
use tab_conductor.Prelude.Call.{Call, returns, raises}

abbrev pub FilePath : Type 0
FilePath = List String

abbrev pub deny_basename_patterns : List String
deny_basename_patterns =
    ".env" ∷ ".env.*" ∷ ".envrc" ∷ "*.pem" ∷ "id_rsa" ∷ "id_rsa.*" ∷ "id_ed25519" ∷ "id_ed25519.*"
    ∷ "*.key" ∷ "credentials*.json" ∷ "kaggle.json" ∷ ".netrc" ∷ "*.p12" ∷ "*.pfx" ∷ "*.jks"
    ∷ "gh-token*" ∷ []

abbrev pub deny_home_dirs : List FilePath
deny_home_dirs =
    (".aws" ∷ []) ∷ (".kaggle" ∷ []) ∷ (".ssh" ∷ []) ∷ (".modal" ∷ []) ∷ (".gnupg" ∷ []) ∷ []

abbrev pub deny_home_files : List FilePath
deny_home_files =
    (".config" ∷ "gh" ∷ "hosts.yml" ∷ []) ∷ (".aws" ∷ "credentials" ∷ []) ∷ (".netrc" ∷ []) ∷ []

abbrev pub allow_home_files : List FilePath
allow_home_files = (".ssh" ∷ "known_hosts" ∷ []) ∷ []

-- the message's three forms
pub data Reason : Type 0 where
  secret_file secret_directory : FilePath → Reason
  secret_pattern : String → Reason

-- SecretAccessDenied, with its `path` and `pattern`
pub data SecretAccessDenied : Type 0 where
  secret_access_denied : FilePath → Reason → SecretAccessDenied

abbrev pub is_star : Char → Bool
is_star c = leb b'*' (code c) && leb (code c) b'*'

abbrev pub is_same_char : Char → Char → Bool
is_same_char a b = leb (code a) (code b) && leb (code b) (code a)

-- whether the test holds of the text or of a rest of it
unfoldable pub some_rest : (String → Bool) → String → Bool
some_rest test String.[] = test String.[]
some_rest test (String.◌∷◌ c s) = test (String.◌∷◌ c s) || some_rest test s

unfoldable pub starts : Char → (String → Bool) → String → Bool
starts p test String.[] = false
starts p test (String.◌∷◌ c s) = is_same_char p c && test s

-- fnmatch.fnmatch(name, pattern), for the patterns above, which have no `?` and no `[`
unfoldable pub fnmatch : String → String → Bool
fnmatch String.[] String.[] = true
fnmatch String.[] (String.◌∷◌ c s) = false
fnmatch (String.◌∷◌ p pattern) s =
    if is_star p then some_rest (fnmatch pattern) s else starts p (fnmatch pattern) s

unfoldable pub is_equal : FilePath → FilePath → Bool
is_equal [] [] = true
is_equal [] (q ∷ path) = false
is_equal (p ∷ other) [] = false
is_equal (p ∷ other) (q ∷ path) = p == q && is_equal other path

-- whether `path.relative_to(directory)` returns
unfoldable pub is_inside : FilePath → FilePath → Bool
is_inside [] path = true
is_inside (p ∷ directory) [] = false
is_inside (p ∷ directory) (q ∷ path) = p == q && is_inside directory path

-- path.name
unfoldable pub name_of : FilePath → String
name_of [] = ""
name_of (part ∷ []) = part
name_of (part ∷ next ∷ path) = name_of (next ∷ path)

unfoldable pub find_pattern : String → List String → Option Reason
find_pattern name [] = none
find_pattern name (pattern ∷ patterns) =
    if fnmatch pattern name then some (secret_pattern pattern) else find_pattern name patterns

module _ (expand : String → FilePath) (resolve : FilePath → FilePath) (home : FilePath) where
  abbrev pub resolved : String → FilePath
  resolved path = resolve (expand path)

  unfoldable pub is_among : FilePath → List FilePath → Bool
  is_among path [] = false
  is_among path (parts ∷ files) = is_equal path (resolve (home ++ parts)) || is_among path files

  unfoldable pub find_file : FilePath → List FilePath → Option Reason
  find_file path [] = none
  find_file path (parts ∷ files) =
      if is_equal path (resolve (home ++ parts))
      then some (secret_file parts)
      else find_file path files

  unfoldable pub find_directory : FilePath → List FilePath → Option Reason
  find_directory path [] = none
  find_directory path (parts ∷ dirs) =
      if is_inside (resolve (home ++ parts)) path
      then some (secret_directory parts)
      else find_directory path dirs

  abbrev pub or_else : Option Reason → Option Reason → Option Reason
  or_else none second = second
  or_else (some r) second = some r

  -- the second rule to the fourth
  unfoldable pub deny_rules : FilePath → Option Reason
  deny_rules p =
      or_else (find_file p deny_home_files) (
        or_else (find_directory p deny_home_dirs) (find_pattern (name_of p) deny_basename_patterns))

  unfoldable pub denied_reason : String → Option Reason
  denied_reason path =
      let p = resolved path in if is_among p allow_home_files then none else deny_rules p

  abbrev is_some : Option Reason → Bool
  is_some none = false
  is_some (some r) = true

  unfoldable pub is_denied : String → Bool
  is_denied path = is_some (denied_reason path)

  abbrev pub deny_with : FilePath → Option Reason → Call SecretAccessDenied (Unit {0})
  deny_with path none = returns tt
  deny_with path (some r) = raises (secret_access_denied path r)

  unfoldable pub assert_allowed : String → Call SecretAccessDenied (Unit {0})
  assert_allowed path = deny_with (resolved path) (denied_reason path)
