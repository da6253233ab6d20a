-- ===== src/Ulid/Order.antt =====
-- The order of the ULIDs of successive calls.
use tab_conductor.Prelude.{
  ℕ, ◌+◌, ◌≤◌, ◌<◌, ◌≡◌, refl, Option, none, some, List, [], ◌∷◌, arith, length, All, Bool-cases,
  inl, inr, leb, suc, subst, ap,
}
use tab_conductor.Prelude.Call.{returns}
use tab_conductor.Ulid.{limit, new, generate}

abbrev pub IsAbove : Option ℕ → ℕ → Type 0
IsAbove none u = Unit
IsAbove (some last) u = last < u

-- Each ULID is above the one before it.
abbrev pub IsIncreasing : Option ℕ → List ℕ → Type 0
IsIncreasing last [] = Unit
IsIncreasing last (u ∷ us) = IsAbove last u × IsIncreasing (some u) us

-- `n` more numbers above the last ULID fit
abbrev pub HasRoom : ℕ → Option ℕ → Type 0
HasRoom n none = Unit
HasRoom n (some last) = last + n < limit

record IsDrawn (n candidate : ℕ) (last : Option ℕ) : Type 0 where
  ulid : ℕ
  returned : new candidate last ≡ returns ulid
  above : IsAbove last ulid
  room : ulid + n < limit

new-IsDrawn :
    (n candidate : ℕ) (last : Option ℕ)
    → candidate + n < limit
    → HasRoom (n + 1) last
    → IsDrawn n candidate last
unfolding new
new-IsDrawn n candidate none h r = record {
  ulid = candidate;
  returned = refl;
  above = tt;
  room = h;
}
new-IsDrawn n candidate (some last) h r = elim (Bool-cases (leb candidate last)) [
  | inl old ↦ record {
    ulid = last + 1;
    returned = rw old (ground (arith, r));
    above = omega arith;
    room = omega (arith, r);
  }
  | inr later ↦ record {
    ulid = candidate;
    returned = rw later refl;
    above = ground (arith, later);
    room = h;
  }
]

abbrev AreOrdered : Option ℕ → List ℕ → Type 0
AreOrdered last cs =
    (us : List ℕ) × (generate last cs ≡ returns us) × IsIncreasing last us × (length us ≡ length cs)

generate-AreOrdered :
    (n : ℕ) (last : Option ℕ) (cs : List ℕ)
    → length cs ≤ n
    → HasRoom (length cs) last
    → All (λ c. c + n < limit) cs
    → AreOrdered last cs
unfolding generate
generate-AreOrdered n last [] l r h = ([], refl, tt, refl)
generate-AreOrdered n last (c ∷ cs) l r h =
    let first =
      new-IsDrawn (length cs) c last (omega (arith, h.0, l))
        (subst (λ k. HasRoom k last) {x = suc (length cs)} {y = length cs + 1} (omega arith) r) in
    let (us, returned, increasing, same) =
      generate-AreOrdered n (some first.ulid) cs (omega (arith, l)) first.room h.1 in
    (
      first.ulid ∷ us,
      rw (first.returned, returned) refl,
      (first.above, increasing),
      ap (λ k. suc k) same,
    )

-- If every number drawn, and the last ULID if there is one, leave room for as many numbers as there are
-- calls, then all calls return, and each ULID is above the one before it.
pub generate-IsIncreasing :
    (last : Option ℕ) (cs : List ℕ)
    → HasRoom (length cs) last
    → All (λ c. c + length cs < limit) cs
    → (us : List ℕ) × (generate last cs ≡ returns us)
      × IsIncreasing last us
      × (length us ≡ length cs)
generate-IsIncreasing last cs r h = generate-AreOrdered (length cs) last cs (omega arith) r h
