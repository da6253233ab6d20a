-- ===== src/Hmac/Laws.antt =====
-- Signing and verifying belong together.
use tab_conductor.Prelude.{
  String, ◌≡◌, refl, true, Option, none, some, [], ◌∷◌, ◌==◌, eq_refl, arith, contains, ◌≢◌, ap,
  ◌∙◌, if◌then◌else◌, Option-cases, Bool-cases, inl, inr,
}
use tab_conductor.Prelude.Call.{returns, raises}
use tab_conductor.Value.{Value, str, Fields, end, field, get, without, get-without}
use tab_conductor.Hmac.{
  HmacSigner, append, is_ascii, compare_digest, sig_field, digest, sign, verify, not_ascii,
}

-- The payload has no field `key`.
abbrev IsWithout : String → Fields → Type 0
IsWithout key fs = get key fs ≡ none

get-append :
    (key : String) (v : Value) (fs : Fields) → IsWithout key fs → get key (append key v fs) ≡ some v
unfolding get append
get-append key v end h = ground (arith, eq_refl key)
get-append key v (field k w fs) h = ground (arith, get-append key v fs, h)

without-append :
    (key : String) (v : Value) (fs : Fields)
    → without (key ∷ []) (append key v (without (key ∷ []) fs)) ≡ without (key ∷ []) fs
unfolding without append contains
without-append key v end = ground (arith, eq_refl key)
without-append key v (field k w fs) = elim (Bool-cases (key == k)) [
  | inl same ↦ ground (arith, same, without-append key v fs)
  | inr other ↦ ground (arith, other, without-append key v fs)
]

without_idem :
    (key : String) (fs : Fields)
    → without (key ∷ []) (without (key ∷ []) fs) ≡ without (key ∷ []) fs
unfolding without contains
without_idem key end = refl
without_idem key (field k w fs) = elim (Bool-cases (key == k)) [
  | inl same ↦ ground (arith, same, without_idem key fs)
  | inr other ↦ ground (arith, other, without_idem key fs)
]

clean-IsWithout : (fs : Fields) → IsWithout sig_field (without (sig_field ∷ []) fs)
unfolding contains
clean-IsWithout fs = ground (arith, get-without sig_field (sig_field ∷ []) fs)

module _ (canonical_json : Fields → Option String) (hmac : String → String → String) where
  abbrev pub clean : Fields → Fields
  clean = without (sig_field ∷ [])

  -- what a payload that was signed looks like
  pub record Signed (key : String) (payload q : Fields) : Type 0 where
    pub message : String
    pub canonical : canonical_json (clean payload) ≡ some message
    pub signed : q ≡ append sig_field (str (hmac key message)) (clean payload)

  sign-Signed :
      (s : HmacSigner) (key : String) (payload q : Fields)
      → s.key ≡ some key
      → sign canonical_json hmac s payload ≡ returns q
      → Signed key payload q
  unfolding sign digest
  sign-Signed s key payload q has_key h = elim (Option-cases (canonical_json (clean payload))) [
    | inl bad ↦ cc (bad, has_key, h)
    | inr (m, good) ↦ record { message = m; canonical = good; signed = cc (good, has_key, h) }
  ]

  sign-key :
      (s : HmacSigner) (payload q : Fields)
      → sign canonical_json hmac s payload ≡ returns q
      → (key : String) × (s.key ≡ some key)
  unfolding sign
  sign-key s payload q h = elim (Option-cases s.key) [
    | inl missing ↦ cc (missing, h)
    | inr (key, has_key) ↦ (key, has_key)
  ]

  -- If hexadecimal digests are ASCII and a signer signs a payload, then it verifies what it returned.
  pub sign-verify :
      (s : HmacSigner) (payload q : Fields)
      → ((key message : String) → is_ascii (hmac key message) ≡ true)
      → sign canonical_json hmac s payload ≡ returns q
      → verify canonical_json hmac s q ≡ returns true
  unfolding verify digest compare_digest
  sign-verify s payload q ascii h =
      let (key, has_key) = sign-key s payload q h in
      let g = sign-Signed s key payload q has_key h in
      let sig = hmac key g.message in
      let at_sig = get-append sig_field (str sig) (clean payload) (clean-IsWithout payload) in
      let rest = without-append sig_field (str sig) payload in
      rw (has_key, g.signed, at_sig, rest, g.canonical, ascii key g.message, eq_refl sig) refl

  -- what a payload that verifies looks like
  pub record Verified (s : HmacSigner) (q : Fields) : Type 0 where
    pub key : String
    pub has_key : s.key ≡ some key
    pub message : String
    pub canonical : canonical_json (clean q) ≡ some message
    pub signed : get sig_field q ≡ some (str (hmac key message))

  -- two messages that have one digest under a key
  pub record Collision (key : String) : Type 0 where
    pub left : String
    pub right : String
    pub differ : left ≢ right
    pub collide : hmac key left ≡ hmac key right

  -- the payload with `sig` in place of its signature
  abbrev pub with_sig : String → Fields → Fields
  with_sig sig q = append sig_field (str sig) (clean q)

  -- If hexadecimal digests are ASCII, a signer signs a payload, and any text is put in place of the signature
  -- in what it returned, then `verify` returns whether the text is the signature, if it is ASCII, and raises if
  -- it is not.
  pub sign-forged :
      (s : HmacSigner) (payload q : Fields) (sig : String)
      → ((key message : String) → is_ascii (hmac key message) ≡ true)
      → sign canonical_json hmac s payload ≡ returns q
      → (own : String) × (get sig_field q ≡ some (str own))
        × (verify canonical_json hmac s (with_sig sig q)
            ≡ (if is_ascii sig then returns (own == sig) else raises not_ascii))
  unfolding verify digest compare_digest
  sign-forged s payload q sig ascii h =
      let (key, has_key) = sign-key s payload q h in
      let g = sign-Signed s key payload q has_key h in
      let own = hmac key g.message in
      let unsigned : clean q ≡ clean payload =
        ap clean g.signed ∙ without-append sig_field (str own) payload in
      let at_own : get sig_field q ≡ some (str own) =
        ap (get sig_field) g.signed
        ∙ get-append sig_field (str own) (clean payload) (clean-IsWithout payload) in
      let at_sig = get-append sig_field (str sig) (clean q) (clean-IsWithout q) in
      let rest : clean (with_sig sig q) ≡ clean payload =
        without-append sig_field (str sig) q ∙ unsigned in
      (own, at_own, rw (has_key, at_sig, rest, g.canonical, ascii key g.message) refl)
