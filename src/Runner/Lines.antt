-- ===== src/Runner/Lines.antt =====
-- How `poll_once` cuts what it reads into lines, and the window of recent lines.
pub mod Chunks
pub mod Window
use tab_conductor.Prelude.{
  ℕ, zero, suc, ◌+◌, ◌-◌, String, Bool, true, false, ◌&&◌, List, [], ◌∷◌, ◌++◌, length, leb, ltb,
  if◌then◌else◌,
}

abbrev pub Bytes : Type 0
Bytes = List ℕ

abbrev is_newline : ℕ → Bool
is_newline b = leb b 10 && leb 10 b

-- the lines that have ended, and what is after the last of them
pub record Split : Type 0 where
  pub lines : List Bytes
  pub rest : Bytes

abbrev push_to : ℕ → List Bytes → Bytes → Split
push_to b [] rest = record { lines = []; rest = b ∷ rest }
push_to b (l ∷ ls) rest = record { lines = (b ∷ l) ∷ ls; rest = rest }

-- while b"\n" in buf: line_bytes, buf = buf.split(b"\n", 1)
unfoldable pub split_lines : Bytes → Split
split_lines [] = record { lines = []; rest = [] }
split_lines (b ∷ buf) =
    let s = split_lines buf in
    if is_newline b
    then record { lines = [] ∷ s.lines; rest = s.rest }
    else push_to b s.lines s.rest

-- _CAPTURE_WINDOW
abbrev pub capture_window : ℕ
capture_window = 50

unfoldable pub drop : {A : Type 0} → ℕ → List A → List A
drop n [] = []
drop zero (x ∷ xs) = x ∷ xs
drop (suc n) (x ∷ xs) = drop n xs

-- lines[-n:], for an n that is not 0
abbrev pub last_lines : ℕ → List String → List String
last_lines n lines = drop (length lines - n) lines

-- the recent lines with one more
unfoldable pub push_line : String → List String → List String
push_line line recent =
    let lines = recent ++ line ∷ [] in
    if ltb (capture_window + capture_window) (length lines)
    then last_lines capture_window lines
    else lines
