-- ===== src/Secret/Glob.antt =====
-- `fnmatch` against what a pattern with `*` stands for.
use Prim.Native.Char.{Char}
use text.Mathlib.TextEquality.{Char-path}
use tab_conductor.Prelude.{String, ◌≡◌, refl, Bool, true, false, arith, Bool-cases, inl, inr, subst}
use tab_conductor.Secret.{is_star, some_rest, starts, fnmatch}

-- The text is what the pattern stands for: a star for any characters, each other character for itself.
pub data Matches : String → String → Type 0 where
  ends : Matches String.[] String.[]
  itself :
      (c : Char) {pattern s : String}
      → is_star c ≡ false
      → Matches pattern s
      → Matches (String.◌∷◌ c pattern) (String.◌∷◌ c s)
  stops :
      (p : Char) {pattern s : String}
      → is_star p ≡ true
      → Matches pattern s
      → Matches (String.◌∷◌ p pattern) s
  takes :
      (p c : Char) {pattern s : String}
      → is_star p ≡ true
      → Matches (String.◌∷◌ p pattern) s
      → Matches (String.◌∷◌ p pattern) (String.◌∷◌ c s)

some_rest-Matches :
    (p : Char) (pattern s : String)
    → is_star p ≡ true
    → ((t : String) → fnmatch pattern t ≡ true → Matches pattern t)
    → some_rest (fnmatch pattern) s ≡ true
    → Matches (String.◌∷◌ p pattern) s
unfolding some_rest
some_rest-Matches p pattern String.[] star f h = stops p star (f String.[] h)
some_rest-Matches p pattern (String.◌∷◌ c s) star f h =
    elim (Bool-cases (fnmatch pattern (String.◌∷◌ c s))) [
      | inl here ↦ stops p star (f (String.◌∷◌ c s) here)
      | inr later ↦ takes p c star (some_rest-Matches p pattern s star f (ground (arith, later, h)))
    ]

starts-Matches :
    (p : Char) (pattern s : String)
    → is_star p ≡ false
    → ((t : String) → fnmatch pattern t ≡ true → Matches pattern t)
    → starts p (fnmatch pattern) s ≡ true
    → Matches (String.◌∷◌ p pattern) s
unfolding starts
starts-Matches p pattern String.[] other f h = cc h
starts-Matches p pattern (String.◌∷◌ c s) other f h =
    let same : p ≡ c = Char-path p c (ground (arith, h)) in
    subst (λ c. Matches (String.◌∷◌ p pattern) (String.◌∷◌ c s)) same
      (itself p other (f s (ground (arith, h))))

-- The pattern stands for each text that the function accepts.
pub fnmatch-Matches : (pattern s : String) → fnmatch pattern s ≡ true → Matches pattern s
unfolding fnmatch
fnmatch-Matches String.[] String.[] h = ends
fnmatch-Matches String.[] (String.◌∷◌ c s) h = cc h
fnmatch-Matches (String.◌∷◌ p pattern) s h = elim (Bool-cases (is_star p)) [
  | inl star ↦ some_rest-Matches p pattern s star (fnmatch-Matches pattern) (cc (star, h))
  | inr other ↦ starts-Matches p pattern s other (fnmatch-Matches pattern) (cc (other, h))
]

some_rest-here : (test : String → Bool) (s : String) → test s ≡ true → some_rest test s ≡ true
unfolding some_rest
some_rest-here test String.[] h = h
some_rest-here test (String.◌∷◌ c s) h = rw h refl

-- The function accepts each text that the pattern stands for.
pub Matches-fnmatch : (pattern s : String) → Matches pattern s → fnmatch pattern s ≡ true
unfolding fnmatch starts some_rest
Matches-fnmatch _ _ ends = refl
Matches-fnmatch _ _ (itself c {pattern} {s} other m) =
    ground (arith, other, Matches-fnmatch pattern s m)
Matches-fnmatch _ _ (stops p {pattern} {s} star m) =
    rw star (some_rest-here (fnmatch pattern) s (Matches-fnmatch pattern s m))
Matches-fnmatch _ _ (takes p c {pattern} {s} star m) =
    ground (arith, star, Matches-fnmatch (String.◌∷◌ p pattern) s m)
