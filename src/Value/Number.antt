-- ===== src/Value/Number.antt =====
-- Python's `int()` of a value, which plan_parser.py and orchestrator.py apply. A text may have spaces around it, a sign, and single underscores
-- between digits; decimal digits beyond ASCII are not modelled. More than 4300 digits are a
-- ValueError, as CPython's default limit has it.
use Prim.Native.Char.{Char, code}
use tab_conductor.Prelude.{
  ℕ, zero, suc, ◌+◌, ◌-◌, ◌*◌, ◌/◌, String, Bool, true, false, Option, none, some, ◌&&◌, leb,
  if◌then◌else◌,
}
use tab_conductor.Prelude.Int.{ℤ, pos, negsuc}
use tab_conductor.Prelude.Call.{Call, returns, raises}
use tab_conductor.Value.{Value, int, bool, str, float, ratio, infinity, minus_infinity, nan}
use tab_conductor.Value.Text.{strip}

abbrev pub digit_limit : ℕ
digit_limit = 4300

is_digit : Char → Bool
is_digit ch = leb b'0' (code ch) && leb (code ch) b'9'

is_char : ℕ → Char → Bool
is_char c ch = leb c (code ch) && leb (code ch) c

-- `after_digit`: a digit was read last, so an underscore or the end may follow
digits : ℕ → ℕ → Bool → String → Option ℕ
digits n count after_digit String.[] = if after_digit && leb count digit_limit then some n else none
digits n count after_digit (String.◌∷◌ ch s) =
    let next = digits (n * 10 + (code ch - b'0')) (count + 1) true s in
    let skip = digits n count false s in
    if is_digit ch then next else if is_char b'_' ch && after_digit then skip else none

-- -n
abbrev negate : ℕ → ℤ
negate zero = pos 0
negate (suc n) = negsuc n

abbrev map_pos : Option ℕ → Option ℤ
map_pos none = none
map_pos (some n) = some (pos n)

abbrev map_negate : Option ℕ → Option ℤ
map_negate none = none
map_negate (some n) = some (negate n)

signed : String → Option ℤ
signed String.[] = none
signed (String.◌∷◌ ch s) =
    if is_char b'-' ch
    then map_negate (digits 0 0 false s)
    else if is_char b'+' ch
    then map_pos (digits 0 0 false s)
    else map_pos (digits 0 0 false (String.◌∷◌ ch s))

unfoldable pub int_of_text : String → Option ℤ
unfolding signed digits is_digit is_char strip
int_of_text s = signed (strip s)

-- the exceptions of `int()`
pub data IntError : Type 0 where
  type_error value_error overflow : IntError

-- truncation towards zero of n / (d + 1)
unfoldable pub truncate : ℤ → ℕ → ℤ
truncate (pos n) d = pos (n / (d + 1))
truncate (negsuc n) d = negate ((n + 1) / (d + 1))

abbrev of_text : Option ℤ → Call IntError ℤ
of_text none = raises value_error
of_text (some n) = returns n

-- int(value)
unfoldable pub to_int : Value → Call IntError ℤ
unfolding int_of_text truncate
to_int (int n) = returns n
to_int (bool b) = returns (if b then pos 1 else pos 0)
to_int (str s) = of_text (int_of_text s)
to_int (float (ratio n d)) = returns (truncate n d)
to_int (float infinity) = raises overflow
to_int (float minus_infinity) = raises overflow
to_int (float nan) = raises value_error
to_int _ = raises type_error
