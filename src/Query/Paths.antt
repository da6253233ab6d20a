-- ===== src/Query/Paths.antt =====
-- Paths of plain names, against nested mappings.
use Prim.Native.Char.{Char}
use tab_conductor.Prelude.{
  String, ◌≡◌, refl, Bool, true, false, ◌&&◌, ◌||◌, none, List, [], ◌∷◌, ◌++◌, arith, All, ◌∙◌, ap,
  sym, subst,
}
use tab_conductor.Prelude.Call.{Call, returns, raises}
use tab_conductor.Value.{Value, null, dict, get}
use tab_conductor.Value.Text.{strip, lstrip, rstrip, is_space, is_empty}
use tab_conductor.Query.Text.{
  is_start, is_digit, is_dot, snoc, is_word_tail, is_field, split_bracket, split_filter,
}
use tab_conductor.Query.{
  QueryError, type_error, get_or_null, access, dict_access, apply_segment, flush, tokens,
  reverse_onto, tokenise, follow, resolve_prefix, query,
}

unfoldable pub is_word : String → Bool
is_word String.[] = true
is_word (String.◌∷◌ c s) = (is_start c || is_digit c) && is_word s

-- a letter or an underscore, and then letters, digits and underscores
unfoldable pub is_name : String → Bool
is_name String.[] = false
is_name (String.◌∷◌ c s) = is_start c && is_word s

-- only characters of names, and dots
unfoldable is_path_char : Char → Bool
is_path_char c = is_start c || is_digit c || is_dot c

unfoldable is_path : String → Bool
is_path String.[] = true
is_path (String.◌∷◌ c s) = is_path_char c && is_path s

unfoldable pub cat : String → String → String
cat String.[] t = t
cat (String.◌∷◌ c s) t = String.◌∷◌ c (cat s t)

-- ".".join([k, *ks])
unfoldable pub dotted : String → List String → String
dotted k [] = k
dotted k (j ∷ ks) = cat k (cat "." (dotted j ks))

abbrev pub AreNames : List String → Type 0
AreNames = All (λ k. is_name k ≡ true)

-- what the keys `ks` lead to; a missing key leads to None, and so do the keys after it
unfoldable pub walk : List String → Value → Call QueryError Value
walk [] v = returns v
walk (k ∷ ks) null = returns null
walk (k ∷ ks) (dict fs) = walk ks (get_or_null (get k fs))
walk (k ∷ ks) v = raises type_error

cat_nil : (s : String) → cat s "" ≡ s
unfolding cat
cat_nil String.[] = refl
cat_nil (String.◌∷◌ c s) = ap (λ t. String.◌∷◌ c t) (cat_nil s)

cat-snoc : (s t : String) (c : Char) → cat (snoc s c) t ≡ cat s (String.◌∷◌ c t)
unfolding cat snoc
cat-snoc String.[] t c = refl
cat-snoc (String.◌∷◌ d s) t c = ap (λ u. String.◌∷◌ d u) (cat-snoc s t c)

is_name-is_word : (s : String) → is_name s ≡ true → is_word s ≡ true
unfolding is_name is_word
is_name-is_word String.[] h = refl
is_name-is_word (String.◌∷◌ c s) h = ground (arith, h)

tokens-char :
    (segments : List String) (current : String) (c : Char) (s : String)
    → (is_start c || is_digit c) ≡ true
    → tokens segments current 0 (String.◌∷◌ c s) ≡ tokens segments (snoc current c) 0 s
unfolding tokens
tokens-char segments current c s h = ground (arith, h)

tokens-word :
    (segments : List String) (current s rest : String)
    → is_word s ≡ true
    → tokens segments current 0 (cat s rest) ≡ tokens segments (cat current s) 0 rest
unfolding cat is_word tokens
tokens-word segments current String.[] rest h =
    ap (λ t. tokens segments t 0 rest) (sym (cat_nil current))
tokens-word segments current (String.◌∷◌ c s) rest h =
    tokens-char segments current c (cat s rest) (ground (arith, h))
    ∙ tokens-word segments (snoc current c) s rest (ground (arith, h))
    ∙ ap (λ t. tokens segments t 0 rest) (cat-snoc current s c)

split_bracket-word : (s : String) → is_word s ≡ true → split_bracket s ≡ (s, none)
unfolding split_bracket is_word
split_bracket-word String.[] h = refl
split_bracket-word (String.◌∷◌ c s) h = ground (arith, h, split_bracket-word s)

is_word_tail-word : (s : String) → is_word s ≡ true → is_word_tail s ≡ true
unfolding is_word_tail is_word
is_word_tail-word String.[] h = refl
is_word_tail-word (String.◌∷◌ c s) h = ground (arith, h, is_word_tail-word s)

is_field-name : (s : String) → is_name s ≡ true → is_field s ≡ true
unfolding is_field is_name
is_field-name String.[] h = h
is_field-name (String.◌∷◌ c s) h = ground (arith, h, is_word_tail-word s)

is_space-path : (c : Char) → is_path_char c ≡ true → is_space c ≡ false
unfolding is_path_char is_space
is_space-path c h = ground (arith, h)

rstrip-path : (s : String) → is_path s ≡ true → rstrip s ≡ s
unfolding rstrip is_path
rstrip-path String.[] h = refl
rstrip-path (String.◌∷◌ c s) h = ground (arith, h, rstrip-path s, is_space-path c)

lstrip-path : (s : String) → is_path s ≡ true → lstrip s ≡ s
unfolding lstrip is_path
lstrip-path String.[] h = refl
lstrip-path (String.◌∷◌ c s) h = ground (arith, h, is_space-path c)

split_filter-path : (s : String) → is_path s ≡ true → split_filter s ≡ none
unfolding split_filter is_path is_path_char
split_filter-path String.[] h = refl
split_filter-path (String.◌∷◌ c s) h = ground (arith, h, split_filter-path s)

is_path-cat : (s t : String) → is_word s ≡ true → is_path t ≡ true → is_path (cat s t) ≡ true
unfolding is_path is_path_char is_word cat
is_path-cat String.[] t h k = k
is_path-cat (String.◌∷◌ c s) t h k = ground (arith, h, is_path-cat s t)

is_path_nil : is_path "" ≡ true
unfolding is_path
is_path_nil = refl

is_path-dot : (t : String) → is_path t ≡ true → is_path (cat "." t) ≡ true
unfolding cat is_path is_path_char
is_path-dot t h = ground (arith, h)

flush-name :
    (k : String) (segments : List String) → is_name k ≡ true → flush k segments ≡ k ∷ segments
unfolding flush is_name is_empty
flush-name String.[] segments h = cc h
flush-name (String.◌∷◌ c k) segments h = refl

tokens-end :
    (segments : List String) (k : String)
    → is_name k ≡ true
    → tokens segments (cat "" k) 0 "" ≡ returns (k ∷ segments)
unfolding tokens cat
tokens-end segments k h = ap (λ ss. returns ss) (flush-name k segments h)

tokens-cut :
    (segments : List String) (k t : String)
    → is_name k ≡ true
    → tokens segments (cat "" k) 0 (cat "." t) ≡ tokens (k ∷ segments) "" 0 t
unfolding tokens cat
tokens-cut segments k t h = ap (λ ss. tokens ss "" 0 t) (flush-name k segments h)

is_path-dotted : (k : String) (ks : List String) → AreNames (k ∷ ks) → is_path (dotted k ks) ≡ true
unfolding dotted
is_path-dotted k [] h =
    subst (λ s. is_path s ≡ true) (cat_nil k) (is_path-cat k "" (is_name-is_word k h.0) is_path_nil)
is_path-dotted k (j ∷ ks) h =
    is_path-cat k (cat "." (dotted j ks)) (is_name-is_word k h.0)
      (is_path-dot (dotted j ks) (is_path-dotted j ks h.1))

tokens-dotted :
    (segments : List String) (k : String) (ks : List String)
    → AreNames (k ∷ ks)
    → tokens segments "" 0 (dotted k ks) ≡ returns (reverse_onto (k ∷ ks) segments)
unfolding dotted reverse_onto
tokens-dotted segments k [] h =
    ap (λ s. tokens segments "" 0 s) (sym (cat_nil k))
    ∙ tokens-word segments "" k "" (is_name-is_word k h.0)
    ∙ tokens-end segments k h.0
tokens-dotted segments k (j ∷ ks) h =
    tokens-word segments "" k (cat "." (dotted j ks)) (is_name-is_word k h.0)
    ∙ tokens-cut segments k (dotted j ks) h.0
    ∙ tokens-dotted (k ∷ segments) j ks h.1

reverse_onto-append :
    (xs ys zs : List String) → reverse_onto (reverse_onto xs ys) zs ≡ reverse_onto ys (xs ++ zs)
unfolding reverse_onto
reverse_onto-append [] ys zs = refl
reverse_onto-append (x ∷ xs) ys zs = reverse_onto-append xs (x ∷ ys) zs

append_nil : (xs : List String) → xs ++ [] ≡ xs
append_nil [] = refl
append_nil (x ∷ xs) = ap (λ ys. x ∷ ys) (append_nil xs)

reverse_onto_nil : (xs : List String) → reverse_onto (reverse_onto xs []) [] ≡ xs
unfolding reverse_onto
reverse_onto_nil xs = reverse_onto-append xs [] [] ∙ append_nil xs

apply_segment-access : (v : Value) (k : String) → is_name k ≡ true → apply_segment v k ≡ access v k
unfolding apply_segment dict_access
apply_segment-access v k h = rw (split_bracket-word k (is_name-is_word k h), is_field-name k h) refl

follow-walk : (ks : List String) (v : Value) → AreNames ks → follow ks v ≡ walk ks v
unfolding follow walk
follow-walk [] v h = refl
follow-walk (k ∷ ks) null h = refl
follow-walk (k ∷ ks) (dict fs) h =
    rw (apply_segment-access (dict fs) k h.0) (follow-walk ks (get_or_null (get k fs)) h.1)
follow-walk (k ∷ ks) v h = rw (apply_segment-access v k h.0) refl

tokenise-dotted :
    (k : String) (ks : List String) → AreNames (k ∷ ks) → tokenise (dotted k ks) ≡ returns (k ∷ ks)
unfolding tokenise
tokenise-dotted k ks h =
    rw (tokens-dotted [] k ks h) (ap (λ xs. returns xs) (reverse_onto_nil (k ∷ ks)))

strip-dotted :
    (k : String) (ks : List String) → AreNames (k ∷ ks) → strip (dotted k ks) ≡ dotted k ks
unfolding strip
strip-dotted k ks h =
    let p = is_path-dotted k ks h in
    ap rstrip (lstrip-path (dotted k ks) p) ∙ rstrip-path (dotted k ks) p

is_empty-cat : (k t : String) → is_name k ≡ true → is_empty (cat k t) ≡ false
unfolding is_empty is_name cat
is_empty-cat String.[] t h = cc h
is_empty-cat (String.◌∷◌ c k) t h = refl

is_empty-dotted :
    (k : String) (ks : List String) → is_name k ≡ true → is_empty (dotted k ks) ≡ false
unfolding dotted
is_empty-dotted k [] h = subst (λ s. is_empty s ≡ false) (cat_nil k) (is_empty-cat k "" h)
is_empty-dotted k (j ∷ ks) h = is_empty-cat k (cat "." (dotted j ks)) h

-- If all of one or more keys are ASCII names, then the query of the keys joined by dots does what
-- looking up one key after the other does: it returns what they lead to, None from the first missing
-- key on, and raises a TypeError at a value that is no mapping.
pub query-walk :
    (root : Value) (k : String) (ks : List String)
    → AreNames (k ∷ ks)
    → query root (dotted k ks) ≡ walk (k ∷ ks) root
unfolding query resolve_prefix
query-walk root k ks h =
    rw
      (
        strip-dotted k ks h,
        is_empty-dotted k ks h.0,
        split_filter-path (dotted k ks) (is_path-dotted k ks h),
        is_empty-dotted k ks h.0,
        tokenise-dotted k ks h,
      )
      (follow-walk (k ∷ ks) root h)
