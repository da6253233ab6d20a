-- ===== src/Dict.antt =====
-- Python's `dict` with string keys, as the list of its items in insertion order: assigning to a
-- present key keeps its place, and to a new key appends.
use tab_conductor.Prelude.{
  String, ◌≡◌, refl, Bool, true, false, Option, none, some, List, [], ◌∷◌, arith, ◌==◌, eq_iff,
  if◌then◌else◌, contains, Bool-cases, inl, inr, All, All-map,
}

abbrev pub Dict {ℓ} : Type ℓ → Type ℓ
Dict V = List (String × V)

module _ {ℓ} {V : Type ℓ} where
  -- d.get(k)
  unfoldable pub lookup : String → Dict V → Option V
  lookup k [] = none
  lookup k ((j, v) ∷ d) = if j == k then some v else lookup k d

  -- d[k] = v
  unfoldable pub insert : String → V → Dict V → Dict V
  insert k v [] = (k, v) ∷ []
  insert k v ((j, w) ∷ d) = if j == k then (j, v) ∷ d else (j, w) ∷ insert k v d

  -- d.pop(k, None)
  unfoldable pub remove : String → Dict V → Dict V
  remove k [] = []
  remove k ((j, v) ∷ d) = if j == k then remove k d else (j, v) ∷ remove k d

  -- list(d.keys())
  unfoldable pub keys : Dict V → List String
  keys [] = []
  keys ((j, v) ∷ d) = j ∷ keys d

  -- k in d
  unfoldable pub has : String → Dict V → Bool
  has k [] = false
  has k ((j, v) ∷ d) = if j == k then true else has k d

  pub lookup-insert :
      (k j : String) (v : V) (d : Dict V)
      → lookup j (insert k v d) ≡ (if k == j then some v else lookup j d)
  unfolding lookup insert
  lookup-insert k j v [] = refl
  lookup-insert k j v ((i, w) ∷ d) =
      ground (arith, eq_iff k j, eq_iff i k, eq_iff i j, lookup-insert k j v d)

  pub lookup-insert_other :
      (k j : String) (v : V) (d : Dict V) → (k == j) ≡ false → lookup j (insert k v d) ≡ lookup j d
  lookup-insert_other k j v d n = ground (arith, n, lookup-insert k j v d)

  pub lookup-remove :
      (k j : String) (d : Dict V) → lookup j (remove k d) ≡ (if k == j then none else lookup j d)
  unfolding lookup remove
  lookup-remove k j [] = ground arith
  lookup-remove k j ((i, w) ∷ d) =
      ground (arith, eq_iff k j, eq_iff i k, eq_iff i j, lookup-remove k j d)

  pub has-insert :
      (k j : String) (v : V) (d : Dict V)
      → has j (insert k v d) ≡ (if k == j then true else has j d)
  unfolding has insert
  has-insert k j v [] = refl
  has-insert k j v ((i, w) ∷ d) =
      ground (arith, eq_iff k j, eq_iff i k, eq_iff i j, has-insert k j v d)

  pub has-eq-contains : (k : String) (d : Dict V) → has k d ≡ contains k (keys d)
  unfolding has keys contains
  has-eq-contains k [] = refl
  has-eq-contains k ((j, v) ∷ d) = ground (arith, has-eq-contains k d)

  pub lookup-has : (k : String) (d : Dict V) → has k d ≡ false → lookup k d ≡ none
  unfolding lookup has
  lookup-has k [] h = refl
  lookup-has k ((j, v) ∷ d) h = ground (arith, lookup-has k d)

  pub has-lookup : (k : String) (d : Dict V) (v : V) → lookup k d ≡ some v → has k d ≡ true
  unfolding lookup has
  has-lookup k [] v h = cc
  has-lookup k ((j, w) ∷ d) v h = ground (arith, has-lookup k d v)

  -- no key stands twice, as in every Python dict
  abbrev pub HasDistinctKeys : Dict V → Type 0
  HasDistinctKeys [] = Unit
  HasDistinctKeys ((k, v) ∷ d) = (has k d ≡ false) × HasDistinctKeys d

  pub HasDistinctKeys-insert :
      (k : String) (v : V) (d : Dict V) → HasDistinctKeys d → HasDistinctKeys (insert k v d)
  unfolding insert has
  HasDistinctKeys-insert k v [] h = (refl, tt)
  HasDistinctKeys-insert k v ((j, w) ∷ d) h = elim (Bool-cases (j == k)) [
    | inl same ↦ rw same h
    | inr other ↦ rw other (
      ground (arith, has-insert k j v d, eq_iff j k, eq_iff k j, h.0),
      HasDistinctKeys-insert k v d h.1,
    )
  ]

  -- every item is what its key is bound to
  pub HasDistinctKeys-lookup :
      (d : Dict V) → HasDistinctKeys d → All (λ e. lookup e.0 d ≡ some e.1) d
  unfolding lookup
  HasDistinctKeys-lookup [] h = tt
  HasDistinctKeys-lookup ((k, v) ∷ d) h = (
    ground (arith, eq_iff k k),
    All-map d
        (λ e found.
          ground (arith, found, eq_iff k e.0, h.0, has-lookup k d e.1, has-lookup e.0 d e.1))
        (HasDistinctKeys-lookup d h.1),
  )
