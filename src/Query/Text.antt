-- ===== src/Query/Text.antt =====
-- The texts of query.py: the characters of a path, and its three regular expressions.
use Prim.Native.Char.{Char, code}
use tab_conductor.Prelude.{
  ℕ, zero, suc, ◌+◌, ◌-◌, ◌*◌, String, Bool, true, false, ◌&&◌, ◌||◌, Option, none, some, leb,
  if◌then◌else◌,
}
use tab_conductor.Prelude.Int.{ℤ, pos, negsuc}
use tab_conductor.Value.Text.{is_empty}

abbrev pub is_char : ℕ → Char → Bool
is_char c ch = leb c (code ch) && leb (code ch) c

abbrev pub is_open : Char → Bool
is_open ch = is_char b'[' ch

abbrev pub is_close : Char → Bool
is_close ch = is_char b']' ch

abbrev pub is_dot : Char → Bool
is_dot ch = is_char b'.' ch

abbrev is_quote : Char → Bool
is_quote ch = is_char 34 ch || is_char 39 ch

abbrev pub is_digit : Char → Bool
is_digit ch = leb b'0' (code ch) && leb (code ch) b'9'

abbrev pub is_start : Char → Bool
is_start ch =
    (leb b'a' (code ch) && leb (code ch) b'z')
    || (leb b'A' (code ch) && leb (code ch) b'Z')
    || is_char b'_' ch

-- current.append(ch)
unfoldable pub snoc : String → Char → String
snoc String.[] ch = String.◌∷◌ ch String.[]
snoc (String.◌∷◌ c s) ch = String.◌∷◌ c (snoc s ch)

-- `$`: the end, or a newline before it
unfoldable pub at_end : String → Bool
at_end String.[] = true
at_end (String.◌∷◌ c s) = is_char 10 c && is_empty s

unfoldable pub is_word_tail : String → Bool
is_word_tail String.[] = true
is_word_tail (String.◌∷◌ c s) =
    if is_start c || is_digit c then is_word_tail s else at_end (String.◌∷◌ c s)

-- _SEGMENT_RE
unfoldable pub is_field : String → Bool
is_field String.[] = false
is_field (String.◌∷◌ c s) = is_start c && is_word_tail s

-- the digits of an index and the bracket after them
unfoldable pub index_digits : ℕ → ℕ → String → Option ℕ
index_digits n count String.[] = none
index_digits n count (String.◌∷◌ c s) =
    let rest = index_digits (n * 10 + (code c - b'0')) (count + 1) s in
    if is_digit c
    then rest
    else if is_close c && leb 1 count && leb count 4300 && at_end s
    then some n
    else none

-- -n
abbrev negate : ℕ → ℤ
negate zero = pos 0
negate (suc n) = negsuc n

abbrev map_int : (ℕ → ℤ) → Option ℕ → Option ℤ
map_int f none = none
map_int f (some n) = some (f n)

abbrev signed : String → Option ℤ
signed String.[] = none
signed (String.◌∷◌ c s) =
    if is_char b'-' c
    then map_int (λ n. negate n) (index_digits 0 0 s)
    else map_int (λ n. pos n) (index_digits 0 0 (String.◌∷◌ c s))

-- int() of what _INDEX_RE finds; more than 4300 digits are a ValueError as well
unfoldable pub index_of : String → Option ℤ
index_of String.[] = none
index_of (String.◌∷◌ c s) = if is_open c then signed s else none

abbrev pub before : Char → String × Option String → String × Option String
before c (s, rest) = (String.◌∷◌ c s, rest)

-- the field part and, from the first `[` on, the index part
unfoldable pub split_bracket : String → String × Option String
split_bracket String.[] = ("", none)
split_bracket (String.◌∷◌ c s) =
    let rest = split_bracket s in if is_open c then ("", some (String.◌∷◌ c s)) else before c rest

abbrev pub starts_question : String → Bool
starts_question String.[] = false
starts_question (String.◌∷◌ c s) = is_char b'?' c

abbrev pub split_after : Char → String → Option (String × String) → Option (String × String)
split_after c s (some (prefix, suffix)) = some (String.◌∷◌ c prefix, suffix)
split_after c s none = if is_open c && starts_question s then some ("", String.◌∷◌ c s) else none

-- the text before the last `[?`, and the text from it on
unfoldable pub split_filter : String → Option (String × String)
split_filter String.[] = none
split_filter (String.◌∷◌ c s) = let rest = split_filter s in split_after c s rest

-- prefix.rstrip(".")
unfoldable pub rstrip_dots : String → String
rstrip_dots String.[] = String.[]
rstrip_dots (String.◌∷◌ c s) =
    let rest = rstrip_dots s in if is_empty rest && is_dot c then String.[] else String.◌∷◌ c rest

-- `s` after the text `p`, if it starts with it
unfoldable pub after : String → String → Option String
after String.[] s = some s
after (String.◌∷◌ c p) String.[] = none
after (String.◌∷◌ c p) (String.◌∷◌ d s) =
    let rest = after p s in if is_char (code c) d then rest else none

abbrev is_length : Option String → Bool
is_length none = false
is_length (some s) = at_end s

-- the value, the quote after it, and `]|length`
unfoldable pub value_of : String → Option String
value_of String.[] = none
value_of (String.◌∷◌ c s) =
    let rest = value_of s in
    if is_quote c
    then (if is_length (after "]|length" s) then some "" else none)
    else elim rest [ none ↦ none | some v ↦ some (String.◌∷◌ c v) ]

abbrev quoted : Option String → Option String
quoted (some (String.◌∷◌ c s)) = if is_quote c then value_of s else none
quoted _ = none

-- the rest of a field's name, and the value after `==`
unfoldable pub comparison : String → Option (String × String)
comparison String.[] = none
comparison (String.◌∷◌ c s) =
    let rest = comparison s in
    if is_start c || is_digit c
    then elim rest [ none ↦ none | some (f, v) ↦ some (String.◌∷◌ c f, v) ]
    else elim (quoted (after "==" (String.◌∷◌ c s))) [ none ↦ none | some v ↦ some ("", v) ]

abbrev named : Option String → Option (String × String)
named (some (String.◌∷◌ c s)) = if is_start c then comparison (String.◌∷◌ c s) else none
named _ = none

-- _FILTER_RE: the field and the value
unfoldable pub filter_of : String → Option (String × String)
filter_of s = named (after "[?" s)
