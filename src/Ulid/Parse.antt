-- ===== src/Ulid/Parse.antt =====
-- ulid.py `parse`. The ULID class of python-ulid is a parameter: the text of a ULID, the ULID of a text,
-- where `none` stands for a ValueError, and its time.
use Prim.Native.Char.{Char, code}
use tab_conductor.Prelude.{
  ℕ, zero, suc, ◌/◌, ◌^◌, ◌≤◌, ◌≡◌, refl, String, Bool, true, false, ◌&&◌, ◌||◌, Option, none, some,
  leb, if◌then◌else◌, arith, Bool-cases, inl, inr, ◌⊎◌, ap, ◌∙◌, leb→le,
}
use tab_conductor.Prelude.Call.{Call, returns, raises}
use tab_conductor.Value.Text.{is_empty}
use tab_conductor.Ulid.{new}

abbrev between : ℕ → ℕ → Char → Bool
between lo hi ch = leb lo (code ch) && leb (code ch) hi

-- [0-9A-HJKMNP-TV-Z]
unfoldable pub is_crockford : Char → Bool
is_crockford ch =
    between b'0' b'9' ch
    || between b'A' b'H' ch
    || between b'J' b'K' ch
    || between b'M' b'N' ch
    || between b'P' b'T' ch
    || between b'V' b'Z' ch

-- exactly `n` characters of Crockford's alphabet
unfoldable pub is_ulid : ℕ → String → Bool
is_ulid zero String.[] = true
is_ulid zero (String.◌∷◌ c s) = false
is_ulid (suc n) String.[] = false
is_ulid (suc n) (String.◌∷◌ c s) = is_crockford c && is_ulid n s

-- the rest of _CROCKFORD_RE, whose `$` allows a newline at the end
unfoldable pub matches_ulid : ℕ → String → Bool
matches_ulid zero String.[] = true
matches_ulid zero (String.◌∷◌ c s) = between 10 10 c && is_empty s
matches_ulid (suc n) String.[] = false
matches_ulid (suc n) (String.◌∷◌ c s) = is_crockford c && matches_ulid n s

-- a datetime in UTC, or one that does not say its zone
pub record Datetime : Type 0 where
  pub milliseconds : ℕ
  pub is_utc : Bool

pub data ParseError : Type 0 where
  value_error : ParseError

pub record Library : Type 0 where
  pub str : ℕ → String
  pub from_str : String → Option ℕ
  pub datetime : ℕ → Datetime

module _ (l : Library) where
  abbrev parse_object : Option ℕ → Call ParseError Datetime
  parse_object none = raises value_error
  parse_object (some ulid_obj) =
      let ts = l.datetime ulid_obj in
      returns (if ts.is_utc then ts else record ts { is_utc = true })

  unfoldable pub parse : String → Call ParseError Datetime
  parse s = if matches_ulid 26 s then parse_object (l.from_str s) else raises value_error

  -- The library reads back the text of the ULID `u`, and its time is its first 48 bits.
  pub record IsRead (u : ℕ) : Type 0 where
    pub text : is_ulid 26 (l.str u) ≡ true
    pub back : l.from_str (l.str u) ≡ some u
    pub time : (l.datetime u).milliseconds ≡ u / 2 ^ 80

-- The number that was drawn is not above the last ULID.
abbrev pub IsOld : ℕ → Option ℕ → Type 0
IsOld candidate o = (last : ℕ) × (o ≡ some last) × (candidate ≤ last)

is_ulid-matches_ulid : (n : ℕ) (s : String) → is_ulid n s ≡ true → matches_ulid n s ≡ true
unfolding is_ulid matches_ulid
is_ulid-matches_ulid zero String.[] h = refl
is_ulid-matches_ulid zero (String.◌∷◌ c s) h = cc
is_ulid-matches_ulid (suc n) String.[] h = cc
is_ulid-matches_ulid (suc n) (String.◌∷◌ c s) h = ground (arith, is_ulid-matches_ulid n s)

utc-eq :
    (b : Bool) (d : Datetime) (n : ℕ)
    → d.is_utc ≡ b
    → d.milliseconds ≡ n
    → (if b then d else record d { is_utc = true }) ≡ record { milliseconds = n; is_utc = true }
utc-eq true d n b h =
    ap (λ c. record { milliseconds = d.milliseconds; is_utc = c }) b
    ∙ ap (λ k. record { milliseconds = k; is_utc = true }) h
utc-eq false d n b h = ap (λ k. record { milliseconds = k; is_utc = true }) h

new-cases :
    (candidate : ℕ) (last : Option ℕ) (u : ℕ)
    → new candidate last ≡ returns u
    → (candidate ≤ u) × ((u ≡ candidate) ⊎ IsOld candidate last)
unfolding new
new-cases candidate none u h = (ground (arith, h), inl (cc h))
new-cases candidate (some last) u h = elim (Bool-cases (leb candidate last)) [
  | inl old ↦ (ground (arith, h, old), inr (last, refl, leb→le candidate last old))
  | inr later ↦ (ground (arith, h, later), inl (ground (arith, h, later)))
]

div_mono : (a b : ℕ) → a ≤ b → a / 2 ^ 80 ≤ b / 2 ^ 80
div_mono a b h = omega arith

-- Where the library reads back the ULID that `new` returns, `parse` returns on its text, in UTC, the
-- milliseconds in its first 48 bits. They are not before those of the number that was drawn, and the ULID is
-- that number unless that number is not above the last ULID.
pub new-parse :
    (l : Library) (candidate : ℕ) (last : Option ℕ) (u : ℕ)
    → new candidate last ≡ returns u
    → IsRead l u
    → (parse l (l.str u) ≡ returns (record { milliseconds = u / 2 ^ 80; is_utc = true }))
      × (candidate / 2 ^ 80 ≤ u / 2 ^ 80)
      × ((u ≡ candidate) ⊎ IsOld candidate last)
unfolding parse
new-parse l candidate last u h r =
    let (above, cases) = new-cases candidate last u h in
    let d = l.datetime u in
    (
      rw (is_ulid-matches_ulid 26 (l.str u) r.text, r.back)
          (ap returns (utc-eq d.is_utc d (u / 2 ^ 80) refl r.time)),
      div_mono candidate u above,
      cases,
    )
