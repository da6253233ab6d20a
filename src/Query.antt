-- ===== src/Query.antt =====
-- src/tab_conductor/query.py: dotted paths into a JSON value. Paths are ASCII texts, as the classes \w and
-- \d of the regular expressions reach further on others. Python's None is `null`, and a regular
-- expression's final `$` allows one newline before the end.
mod Text
mod Paths
mod Tests
use Prim.Native.Char.{Char, code}
use tab_conductor.Prelude.{
  ℕ, zero, suc, ◌+◌, ◌-◌, String, Bool, true, false, Option, none, some, List, [], ◌∷◌, ltb, ◌==◌,
  if◌then◌else◌,
}
use tab_conductor.Prelude.Int.{ℤ, pos, negsuc}
use tab_conductor.Prelude.Call.{Call, returns, raises, ◌>>=◌}
use tab_conductor.Value.{Value, null, str, list, dict, int, Items, nil, cons, Fields, get}
use tab_conductor.Value.Text.{strip, is_empty}
use tab_conductor.Query.Text.{
  snoc, is_field, index_of, split_bracket, split_filter, rstrip_dots, filter_of, is_open, is_close,
  is_dot,
}

pub data QueryError : Type 0 where
  value_error type_error : QueryError

-- current.get(key)
abbrev pub get_or_null : Option Value → Value
get_or_null none = null
get_or_null (some v) = v

abbrev pub access : Value → String → Call QueryError Value
access (dict fs) key = returns (get_or_null (get key fs))
access _ key = raises type_error

unfoldable pub dict_access : Value → String → Call QueryError Value
dict_access current key = if is_field key then access current key else raises value_error

unfoldable pub count_items : Items → ℕ
count_items nil = 0
count_items (cons v vs) = suc (count_items vs)

unfoldable pub nth : ℕ → Items → Value
nth n nil = null
nth zero (cons v vs) = v
nth (suc n) (cons v vs) = nth n vs

-- current[idx], None for an IndexError; `-1` is the last item
unfoldable pub item_at : ℤ → Items → Value
item_at (pos n) vs = nth n vs
item_at (negsuc n) vs = if ltb n (count_items vs) then nth (count_items vs - (n + 1)) vs else null

abbrev pub index_into : Value → Option ℤ → Call QueryError Value
index_into current none = raises value_error
index_into (list vs) (some idx) = returns (item_at idx vs)
index_into _ (some idx) = raises type_error

-- after the field part, a missing value ends the segment
abbrev pub then_index : String → Value → Call QueryError Value
then_index index_part null = returns null
then_index index_part current = index_into current (index_of index_part)

abbrev pub apply_split : Value → String → Option String → Call QueryError Value
apply_split current field_part none = dict_access current field_part
apply_split current field_part (some index_part) =
    if is_empty field_part
    then index_into current (index_of index_part)
    else (dict_access current field_part >>= then_index index_part)

unfoldable pub apply_segment : Value → String → Call QueryError Value
apply_segment current segment =
    let (field_part, index_part) = split_bracket segment in
    apply_split current field_part index_part

-- if current: segments.append("".join(current))
unfoldable pub flush : String → List String → List String
flush current segments = if is_empty current then segments else current ∷ segments

-- The loop of `_tokenise`; the segments so far stand in reverse.
unfoldable pub tokens : List String → String → ℕ → String → Call QueryError (List String)
tokens segments current zero String.[] = returns (flush current segments)
tokens segments current (suc depth) String.[] = raises value_error
tokens segments current depth (String.◌∷◌ ch s) =
    let opened = tokens segments (snoc current ch) (suc depth) s in
    let closed = tokens segments (snoc current ch) (depth - 1) s in
    let cut = tokens (flush current segments) "" 0 s in
    let more = tokens segments (snoc current ch) depth s in
    if is_open ch
    then opened
    else if is_close ch
    then (if ltb 0 depth then closed else raises value_error)
    else if is_dot ch
    then (if ltb 0 depth then more else cut)
    else more

-- the items of `xs` in reverse, before `ys`
unfoldable pub reverse_onto : List String → List String → List String
reverse_onto [] ys = ys
reverse_onto (x ∷ xs) ys = reverse_onto xs (x ∷ ys)

unfoldable pub tokenise : String → Call QueryError (List String)
tokenise path = tokens [] "" 0 path >>= λ segments. returns (reverse_onto segments [])

-- the loop of `_resolve_prefix`, which ends at a missing value
unfoldable pub follow : List String → Value → Call QueryError Value
follow [] current = returns current
follow (segment ∷ segments) null = returns null
follow (segment ∷ segments) current = apply_segment current segment >>= follow segments

unfoldable pub resolve_prefix : Value → String → Call QueryError Value
resolve_prefix root path =
    if is_empty path then returns root else (tokenise path >>= λ segments. follow segments root)

-- isinstance(item, dict) and item.get(field) == value
abbrev pub has_text : String → Option Value → Bool
has_text value (some (str s)) = s == value
has_text value _ = false

unfoldable pub matches : String → String → Value → Bool
matches field value (dict fs) = has_text value (get field fs)
matches field value _ = false

unfoldable pub count_matches : String → String → Items → ℕ
count_matches field value nil = 0
count_matches field value (cons v vs) =
    let rest = count_matches field value vs in if matches field value v then rest + 1 else rest

abbrev pub count_in : String → String → Value → Call QueryError Value
count_in field value null = returns (int (pos 0))
count_in field value (list vs) = returns (int (pos (count_matches field value vs)))
count_in field value _ = raises type_error

abbrev pub query_filter : Value → String → Option (String × String) → Call QueryError Value
query_filter root prefix none = raises value_error
query_filter root prefix (some (field, value)) = resolve_prefix root prefix >>= count_in field value

abbrev pub query_split : Value → String → Option (String × String) → Call QueryError Value
query_split root path none = resolve_prefix root path
query_split root path (some (prefix, suffix)) =
    query_filter root (rstrip_dots prefix) (filter_of suffix)

unfoldable pub query : Value → String → Call QueryError Value
query root raw =
    let path = strip raw in
    if is_empty path then raises value_error else query_split root path (split_filter path)
