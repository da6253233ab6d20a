-- ===== src/Ulid/Tests.antt =====
-- Successive identifiers in one millisecond, and the instance of the theorem about them.
use Prim.Native.Char.{Char, code}
use tab_conductor.Prelude.{
  ℕ, zero, suc, ◌+◌, ◌-◌, ◌*◌, ◌/◌, ◌%◌, ◌^◌, ◌≤◌, ◌≡◌, ◌⊎◌, refl, String, true, ◌&&◌, leb, Option,
  none, some, List, [], ◌∷◌, arith, length, if◌then◌else◌,
}
use tab_conductor.Prelude.Call.{returns, raises}
use tab_conductor.Ulid.{overflow, new, generate}
use tab_conductor.Ulid.Parse.{
  is_crockford, is_ulid, matches_ulid, value_error, Library, parse, IsOld, new-parse,
}
use tab_conductor.Ulid.Order.{IsIncreasing, generate-IsIncreasing}

runs : Unit {0}
unfolding new generate
runs = tt

new-last : new 5 (some (2 ^ 128 - 1)) ≡ raises overflow
unfolding runs
new-last = refl

generate-three : generate none (70 ∷ 50 ∷ 90 ∷ []) ≡ returns (70 ∷ 71 ∷ 90 ∷ [])
unfolding runs
generate-three = refl

generate-IsIncreasing_example :
    (us : List ℕ) × (generate none (70 ∷ 50 ∷ 90 ∷ []) ≡ returns us)
    × IsIncreasing none us
    × (length us ≡ 3)
generate-IsIncreasing_example =
    generate-IsIncreasing none (70 ∷ 50 ∷ 90 ∷ []) tt
      (ground arith, (ground arith, (ground arith, tt)))

abbrev alphabet : String
alphabet = "0123456789ABCDEFGHJKMNPQRSTVWXYZ"

abbrev char_at : ℕ → String → Char
char_at n String.[] = "0"
char_at n (String.◌∷◌ c s) = if leb n 0 then c else char_at (n - 1) s

abbrev succ_of : Option ℕ → Option ℕ
succ_of none = none
succ_of (some n) = some (n + 1)

abbrev index_in : Char → String → Option ℕ
index_in c String.[] = none
index_in c (String.◌∷◌ d s) =
    let rest = index_in c s in
    if leb (code c) (code d) && leb (code d) (code c) then some 0 else succ_of rest

-- the last `k` digits of `n`
unfoldable encode : ℕ → ℕ → String
encode zero n = String.[]
encode (suc k) n = String.◌∷◌ (char_at (n / 32 ^ k % 32) alphabet) (encode k n)

abbrev push_digit : ℕ → Option ℕ → Option ℕ
push_digit n none = none
push_digit n (some d) = some (n * 32 + d)

unfoldable decode : Option ℕ → String → Option ℕ
decode o String.[] = o
decode none (String.◌∷◌ c s) = none
decode (some n) (String.◌∷◌ c s) = decode (push_digit n (index_in c alphabet)) s

abbrev base32 : Library
base32 = record {
  str = λ n. encode 26 n;
  from_str = λ s. decode (some 0) s;
  datetime = λ n. record { milliseconds = n / 2 ^ 80; is_utc = true };
}

-- a draw of the millisecond 1_469_918_176_385, after a ULID of the same millisecond
abbrev drawn : ℕ
drawn = 1_469_918_176_385 * 2 ^ 80 + 7

abbrev sooner : ℕ
sooner = drawn - 3

drawn-text : encode 26 drawn ≡ "01ARYZ6S410000000000000007"
unfolding encode
drawn-text = refl

parse-short : parse base32 "01ARYZ6S41" ≡ raises value_error
unfolding parse matches_ulid is_crockford
parse-short = refl

new-parse_example :
    (parse base32 (encode 26 (drawn + 1))
      ≡ returns (record { milliseconds = (drawn + 1) / 2 ^ 80; is_utc = true }))
    × (sooner / 2 ^ 80 ≤ (drawn + 1) / 2 ^ 80)
    × ((drawn + 1 ≡ sooner) ⊎ IsOld sooner (some drawn))
unfolding new encode decode is_ulid is_crockford
new-parse_example =
    new-parse base32 sooner (some drawn) (drawn + 1) refl
      (record { text = refl; back = refl; time = refl })
