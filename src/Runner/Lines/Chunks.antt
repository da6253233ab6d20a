-- ===== src/Runner/Lines/Chunks.antt =====
-- The lines of an output that several reads give in pieces.
use tab_conductor.Prelude.{ℕ, ◌≡◌, refl, false, List, [], ◌∷◌, ◌++◌, Bool-cases, inl, inr, sym}
use tab_conductor.Runner.Lines.{Bytes, Split, is_newline, push_to, split_lines}

-- the lines of `first`, then those of its rest followed by `more`
abbrev pub then_more : Split → Bytes → Split
then_more first more =
    let second = split_lines (first.rest ++ more) in
    record { lines = first.lines ++ second.lines; rest = second.rest }

push_to-then_more :
    (b : ℕ) (lines : List Bytes) (rest more : Bytes)
    → is_newline b ≡ false
    → then_more (push_to b lines rest) more
      ≡ (let s = then_more (record { lines = lines; rest = rest }) more in push_to b s.lines s.rest)
unfolding split_lines
push_to-then_more b [] rest more h = rw h refl
push_to-then_more b (l ∷ ls) rest more h = refl

pub split_lines-append : (xs ys : Bytes) → split_lines (xs ++ ys) ≡ then_more (split_lines xs) ys
unfolding split_lines
split_lines-append [] ys = refl
split_lines-append (b ∷ xs) ys = elim (Bool-cases (is_newline b)) [
  | inl ends ↦ rw (ends, split_lines-append xs ys) refl
  | inr goes ↦
      rw (goes, split_lines-append xs ys)
        (sym (push_to-then_more b (split_lines xs).lines (split_lines xs).rest ys goes))
]

-- The buffer holds no line that has ended.
abbrev pub IsPartial : Bytes → Type 0
IsPartial buf = (split_lines buf).lines ≡ []

push_to-IsPartial :
    (b : ℕ) (lines : List Bytes) (rest : Bytes)
    → is_newline b ≡ false
    → IsPartial rest
    → IsPartial (push_to b lines rest).rest
unfolding split_lines
push_to-IsPartial b [] rest h p = rw (h, p) refl
push_to-IsPartial b (l ∷ ls) rest h p = p

pub split_lines-IsPartial : (out : Bytes) → IsPartial (split_lines out).rest
unfolding split_lines
split_lines-IsPartial [] = refl
split_lines-IsPartial (b ∷ out) = elim (Bool-cases (is_newline b)) [
  | inl ends ↦ rw ends (split_lines-IsPartial out)
  | inr goes ↦ rw goes (
      push_to-IsPartial b (split_lines out).lines (split_lines out).rest goes
        (split_lines-IsPartial out))
]
