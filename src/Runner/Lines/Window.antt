-- ===== src/Runner/Lines/Window.antt =====
-- The window of recent lines, against all the lines of the output.
use tab_conductor.Prelude.{
  ℕ, zero, suc, ◌+◌, ◌-◌, ◌*◌, ◌≤◌, String, ◌≡◌, refl, List, [], ◌∷◌, ◌++◌, arith, length,
  length-append, ltb, Bool-cases, inl, inr, ap, sym, ◌∙◌,
}
use tab_conductor.Runner.Lines.{drop, last_lines, push_line, capture_window}

length-drop : {A : Type 0} (n : ℕ) (xs : List A) → length (drop n xs) ≡ length xs - n
unfolding drop
length-drop n [] = omega arith
length-drop zero (x ∷ xs) = omega arith
length-drop (suc n) (x ∷ xs) = omega (arith, length-drop n xs)

drop-append :
    {A : Type 0} (n : ℕ) (xs ys : List A) → n ≤ length xs → drop n (xs ++ ys) ≡ drop n xs ++ ys
unfolding drop
drop-append zero [] [] h = refl
drop-append zero [] (y ∷ ys) h = refl
drop-append (suc n) [] ys h = absurd (omega (arith, h))
drop-append zero (x ∷ xs) ys h = refl
drop-append (suc n) (x ∷ xs) ys h = drop-append n xs ys (omega (arith, h))

drop-drop : {A : Type 0} (j k : ℕ) (xs : List A) → drop j (drop k xs) ≡ drop (j + k) xs
unfolding drop
drop-drop j k [] = refl
drop-drop j zero (x ∷ xs) = ap (λ n. drop n (x ∷ xs)) {x = j} {y = j + 0} (omega arith)
drop-drop j (suc k) (x ∷ xs) =
    drop-drop j k xs ∙ ap (λ n. drop n (x ∷ xs)) {x = suc (j + k)} {y = j + suc k} (omega arith)

-- Only the last lines matter for the last lines with one more.
last_lines-snoc :
    (n : ℕ) (line : String) (xs : List String)
    → last_lines n (last_lines n xs ++ line ∷ []) ≡ last_lines n (xs ++ line ∷ [])
last_lines-snoc n line xs =
    let k = length xs - n in
    let m = length (drop k xs ++ line ∷ []) in
    ap (drop (m - n)) (sym (drop-append k xs (line ∷ []) (omega arith)))
    ∙ drop-drop (m - n) k (xs ++ line ∷ [])
    ∙ ap (λ i. drop i (xs ++ line ∷ [])) {x = m - n + k} {y = length (xs ++ line ∷ []) - n}
        (omega (
          arith,
          length-append (drop k xs) (line ∷ []),
          length-drop k xs,
          length-append xs (line ∷ []),
        ))

last_lines_idem : (n : ℕ) (xs : List String) → last_lines n (last_lines n xs) ≡ last_lines n xs
last_lines_idem n xs =
    let k = length xs - n in
    drop-drop (length (drop k xs) - n) k xs
    ∙ ap (λ i. drop i xs) {x = length (drop k xs) - n + k} {y = k} (omega (arith, length-drop k xs))

-- `recent` is not too long, and its last lines are those of `lines`.
pub record IsWindow (recent lines : List String) : Type 0 where
  pub bounded : length recent ≤ 2 * capture_window
  pub last : last_lines capture_window recent ≡ last_lines capture_window lines

pub push_line-IsWindow :
    (line : String) (recent lines : List String)
    → IsWindow recent lines
    → IsWindow (push_line line recent) (lines ++ line ∷ [])
unfolding push_line
push_line-IsWindow line recent lines w =
    let more = recent ++ line ∷ [] in
    let same : last_lines capture_window more ≡ last_lines capture_window (lines ++ line ∷ []) =
      sym (last_lines-snoc capture_window line recent)
      ∙ ap (λ xs. last_lines capture_window (xs ++ line ∷ [])) w.last
      ∙ last_lines-snoc capture_window line lines in
    elim (Bool-cases (ltb (capture_window + capture_window) (length more))) [
      | inl long ↦ rw long (record {
        bounded = omega (
          arith,
          length-drop (length more - capture_window) more,
          length-append recent (line ∷ []),
          w.bounded,
        );
        last = last_lines_idem capture_window more ∙ same;
      })
      | inr short ↦ rw short (record { bounded = ground (arith, short); last = same })
    ]
