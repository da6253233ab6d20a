-- ===== src/Secret/Tests.antt =====
-- Paths in a home directory.
use tab_conductor.Prelude.{String, ◌≡◌, refl, ◌↔◌, true, [], ◌∷◌, ◌==◌, if◌then◌else◌}
use tab_conductor.Prelude.Call.{returns, raises}
use tab_conductor.Secret.{
  FilePath, secret_directory, secret_access_denied, some_rest, starts, fnmatch, is_equal, is_inside,
  name_of, find_pattern, is_among, find_file, find_directory, deny_rules, denied_reason, is_denied,
  assert_allowed,
}
use tab_conductor.Secret.Allowed.{IsAllowed, assert_allowed-IsAllowed}

abbrev home : FilePath
home = "home" ∷ "me" ∷ []

abbrev expand : String → FilePath
expand text =
    if text == "~/.ssh/known_hosts"
    then "home" ∷ "me" ∷ ".ssh" ∷ "known_hosts" ∷ []
    else if text == "~/.ssh/config"
    then "home" ∷ "me" ∷ ".ssh" ∷ "config" ∷ []
    else "srv" ∷ "credentials-prod.json" ∷ []

runs : Unit {0}
unfolding some_rest starts fnmatch is_equal is_inside name_of find_pattern is_among find_file
    find_directory deny_rules denied_reason is_denied assert_allowed
runs = tt

known_hosts-allowed : assert_allowed expand (λ p. p) home "~/.ssh/known_hosts" ≡ returns tt
unfolding runs
known_hosts-allowed = refl

config-denied :
    assert_allowed expand (λ p. p) home "~/.ssh/config"
    ≡ raises (
        secret_access_denied
          ("home" ∷ "me" ∷ ".ssh" ∷ "config" ∷ [])
          (secret_directory (".ssh" ∷ [])))
unfolding runs
config-denied = refl

credentials-denied : is_denied expand (λ p. p) home "/srv/credentials-prod.json" ≡ true
unfolding runs
credentials-denied = refl

assert_allowed-IsAllowed_example :
    (assert_allowed expand (λ p. p) home "~/.ssh/config" ≡ returns tt)
    ↔ IsAllowed expand (λ p. p) home ("home" ∷ "me" ∷ ".ssh" ∷ "config" ∷ [])
assert_allowed-IsAllowed_example = assert_allowed-IsAllowed expand (λ p. p) home "~/.ssh/config"
