-- ===== src/Secret/Allowed.antt =====
-- Which paths `assert_allowed` lets through.
use tab_conductor.Prelude.{
  String, ◌≡◌, refl, ◌≢◌, ◌↔◌, ◌⊎◌, true, false, ◌||◌, Option, none, some, List, [], ◌∷◌, ◌++◌,
  eq_iff, eq_refl, arith, All, Bool-cases, inl, inr, sym, subst, if◌then◌else◌,
}
use tab_conductor.Prelude.Call.{returns}
use tab_conductor.Secret.{
  FilePath, Reason, deny_basename_patterns, deny_home_dirs, deny_home_files, fnmatch, is_equal,
  is_inside, name_of, find_pattern, resolved, is_among, find_file, find_directory, or_else,
  deny_rules, denied_reason, deny_with, assert_allowed,
}
use tab_conductor.Secret.Glob.{Matches, fnmatch-Matches, Matches-fnmatch}

is_equal→≡ : (a b : FilePath) → is_equal a b ≡ true → a ≡ b
unfolding is_equal
is_equal→≡ [] [] h = refl
is_equal→≡ [] (q ∷ b) h = cc h
is_equal→≡ (p ∷ a) [] h = cc h
is_equal→≡ (p ∷ a) (q ∷ b) h = ground (arith, h, eq_iff p q, is_equal→≡ a b)

is_equal_refl : (a : FilePath) → is_equal a a ≡ true
unfolding is_equal
is_equal_refl [] = refl
is_equal_refl (p ∷ a) = ground (arith, eq_refl p, is_equal_refl a)

is_inside→append : (d p : FilePath) → is_inside d p ≡ true → (rest : FilePath) × (p ≡ d ++ rest)
unfolding is_inside
is_inside→append [] p h = (p, refl)
is_inside→append (q ∷ d) [] h = cc h
is_inside→append (q ∷ d) (r ∷ p) h =
    let (rest, e) = is_inside→append d p (ground (arith, h)) in
    let same : r ≡ q = ground (arith, h, eq_iff q r) in (rest, cc (same, e))

is_inside-append : (d rest : FilePath) → is_inside d (d ++ rest) ≡ true
unfolding is_inside
is_inside-append [] rest = refl
is_inside-append (q ∷ d) rest = ground (arith, eq_refl q, is_inside-append d rest)

-- no pattern of the list stands for the name
abbrev pub IsPlain : List String → String → Type 0
IsPlain patterns name = All (λ pattern. ¬ Matches pattern name) patterns

find_pattern→IsPlain :
    (name : String) (patterns : List String)
    → find_pattern name patterns ≡ none
    → IsPlain patterns name
unfolding find_pattern
find_pattern→IsPlain name [] h = tt
find_pattern→IsPlain name (q ∷ qs) h = elim (Bool-cases (fnmatch q name)) [
  | inl hit ↦ cc (hit, h)
  | inr miss ↦
      (λ m. cc (miss, Matches-fnmatch q name m), find_pattern→IsPlain name qs (cc (miss, h)))
]

IsPlain→find_pattern :
    (name : String) (patterns : List String)
    → IsPlain patterns name
    → find_pattern name patterns ≡ none
unfolding find_pattern
IsPlain→find_pattern name [] h = refl
IsPlain→find_pattern name (q ∷ qs) h = elim (Bool-cases (fnmatch q name)) [
  | inl hit ↦ absurd (h.0 (fnmatch-Matches q name hit))
  | inr miss ↦ rw miss (IsPlain→find_pattern name qs h.1)
]

module _ (expand : String → FilePath) (resolve : FilePath → FilePath) (home : FilePath) where
  -- the path is none of the files
  abbrev pub IsElsewhere : List FilePath → FilePath → Type 0
  IsElsewhere files path = All (λ parts. path ≢ resolve (home ++ parts)) files

  -- the path is in none of the directories
  abbrev pub IsOutside : List FilePath → FilePath → Type 0
  IsOutside dirs path =
      All (λ parts. (rest : FilePath) → path ≢ resolve (home ++ parts) ++ rest) dirs

  find_file→IsElsewhere :
      (p : FilePath) (fs : List FilePath)
      → find_file expand resolve home p fs ≡ none
      → IsElsewhere fs p
  unfolding find_file
  find_file→IsElsewhere p [] h = tt
  find_file→IsElsewhere p (f ∷ fs) h = elim (Bool-cases (is_equal p (resolve (home ++ f)))) [
    | inl hit ↦ cc (hit, h)
    | inr miss ↦ (
      λ e. cc (miss, subst (λ q. is_equal p q ≡ true) e (is_equal_refl p)),
      find_file→IsElsewhere p fs (cc (miss, h)),
    )
  ]

  IsElsewhere→find_file :
      (p : FilePath) (fs : List FilePath)
      → IsElsewhere fs p
      → find_file expand resolve home p fs ≡ none
  unfolding find_file
  IsElsewhere→find_file p [] h = refl
  IsElsewhere→find_file p (f ∷ fs) h = elim (Bool-cases (is_equal p (resolve (home ++ f)))) [
    | inl hit ↦ absurd (h.0 (is_equal→≡ p (resolve (home ++ f)) hit))
    | inr miss ↦ rw miss (IsElsewhere→find_file p fs h.1)
  ]

  find_directory→IsOutside :
      (p : FilePath) (ds : List FilePath)
      → find_directory expand resolve home p ds ≡ none
      → IsOutside ds p
  unfolding find_directory
  find_directory→IsOutside p [] h = tt
  find_directory→IsOutside p (d ∷ ds) h = elim (Bool-cases (is_inside (resolve (home ++ d)) p)) [
    | inl hit ↦ cc (hit, h)
    | inr miss ↦ (
      λ rest e. cc (
        miss,
        subst (λ q. is_inside (resolve (home ++ d)) q ≡ true) (sym e)
            (is_inside-append (resolve (home ++ d)) rest),
      ),
      find_directory→IsOutside p ds (cc (miss, h)),
    )
  ]

  IsOutside→find_directory :
      (p : FilePath) (ds : List FilePath)
      → IsOutside ds p
      → find_directory expand resolve home p ds ≡ none
  unfolding find_directory
  IsOutside→find_directory p [] h = refl
  IsOutside→find_directory p (d ∷ ds) h = elim (Bool-cases (is_inside (resolve (home ++ d)) p)) [
    | inl hit ↦ let (rest, e) = is_inside→append (resolve (home ++ d)) p hit in absurd (h.0 rest e)
    | inr miss ↦ rw miss (IsOutside→find_directory p ds h.1)
  ]

  -- The path is the file of known hosts, or it is none of the secret files, in none of the secret directories,
  -- and its name is what no secret pattern stands for.
  abbrev pub IsAllowed : FilePath → Type 0
  IsAllowed p =
      (p ≡ resolve (home ++ ".ssh" ∷ "known_hosts" ∷ []))
      ⊎ (IsElsewhere deny_home_files p
          × IsOutside deny_home_dirs p
          × IsPlain deny_basename_patterns (name_of p))

  or_else→none :
      (a b : Option Reason) → or_else expand resolve home a b ≡ none → (a ≡ none) × (b ≡ none)
  or_else→none none b h = (refl, h)
  or_else→none (some r) b h = cc h

  deny_with→none :
      (p : FilePath) (r : Option Reason) → deny_with expand resolve home p r ≡ returns tt → r ≡ none
  deny_with→none p none h = refl
  deny_with→none p (some r) h = cc h

  rules→IsAllowed : (p : FilePath) → deny_rules expand resolve home p ≡ none → IsAllowed p
  unfolding deny_rules
  rules→IsAllowed p h =
      let (no_file, h1) = or_else→none (find_file expand resolve home p deny_home_files) _ h in
      let (no_directory, no_pattern) =
        or_else→none (find_directory expand resolve home p deny_home_dirs) _ h1 in
      inr (
        find_file→IsElsewhere p deny_home_files no_file,
        find_directory→IsOutside p deny_home_dirs no_directory,
        find_pattern→IsPlain (name_of p) deny_basename_patterns no_pattern,
      )

  returns→IsAllowed :
      (path : String)
      → assert_allowed expand resolve home path ≡ returns tt
      → IsAllowed (resolved expand resolve home path)
  unfolding assert_allowed denied_reason is_among
  returns→IsAllowed path h =
      let p = resolved expand resolve home path in
      elim (Bool-cases (is_equal p (resolve (home ++ ".ssh" ∷ "known_hosts" ∷ [])))) [
        | inl hit ↦ inl (is_equal→≡ p (resolve (home ++ ".ssh" ∷ "known_hosts" ∷ [])) hit)
        | inr miss ↦ rules→IsAllowed p (
            deny_with→none p _ (
              subst
                (λ b.
                  deny_with expand resolve home p
                    (if b || false then none else deny_rules expand resolve home p)
                  ≡ returns tt)
                miss h))
      ]

  IsAllowed→returns :
      (path : String)
      → IsAllowed (resolved expand resolve home path)
      → assert_allowed expand resolve home path ≡ returns tt
  unfolding assert_allowed denied_reason is_among deny_rules
  IsAllowed→returns path (inl known) =
      rw (known, is_equal_refl (resolve (home ++ ".ssh" ∷ "known_hosts" ∷ []))) refl
  IsAllowed→returns path (inr (elsewhere, outside, plain)) =
      let p = resolved expand resolve home path in
      elim (Bool-cases (is_equal p (resolve (home ++ ".ssh" ∷ "known_hosts" ∷ [])))) [
        | inl hit ↦ rw hit refl
        | inr miss ↦
            rw
              (
                miss,
                IsElsewhere→find_file p deny_home_files elsewhere,
                IsOutside→find_directory p deny_home_dirs outside,
                IsPlain→find_pattern (name_of p) deny_basename_patterns plain,
              )
              refl
      ]

  -- `assert_allowed` returns exactly on the paths that resolve to the file of known hosts in `~/.ssh`, or to a
  -- path that is none of the secret files, in none of the secret directories, and has a name that no secret
  -- pattern stands for.
  pub assert_allowed-IsAllowed :
      (path : String)
      → (assert_allowed expand resolve home path ≡ returns tt)
        ↔ IsAllowed (resolved expand resolve home path)
  assert_allowed-IsAllowed path = (returns→IsAllowed path, IsAllowed→returns path)
