-- ===== src/Store/Serial.antt =====
-- What one call of the store does to state.json.
use tab_conductor.Prelude.{
  ◌≡◌, refl, Bool, true, Option, none, some, Bool-cases, inl, inr, ◌⊎◌, subst,
}
use tab_conductor.Prelude.Call.{Call, returns, raises, >>=-returns}
use tab_conductor.Store.{
  Document, File, document, garbage, StoreError, os_error, lock_timeout, not_found, corrupted, Luck,
  Ended, Write, synced, not_replaced, not_synced, stored, version_or, is_equal, next_version,
  prepare, read_raw, atomic_write, write_if, update,
}

module _ {A : Type 0} (is_valid : Document A → Bool) where
  -- The document `d` follows `d0`.
  pub record Follows (d0 d : Document A) : Type 0 where
    pub valid : is_valid d ≡ true
    pub version : d.version ≡ some (next_version (version_or d0.version))

  pub prepare-Follows :
      (mutator : Document A → Call StoreError (Document A)) (d0 d : Document A)
      → prepare is_valid mutator d0 ≡ returns d
      → Follows d0 d
  unfolding prepare
  prepare-Follows mutator d0 d h =
      let (n, h1, h2) = >>=-returns (mutator d0) _ h in
      let c = record n { version = some (next_version (version_or d0.version)) } in
      elim (Bool-cases (is_equal (version_or n.version) (version_or d0.version))) [
        | inl same ↦ elim (Bool-cases (is_valid c)) [
          | inl ok ↦
              subst (Follows d0) {x = c} {y = d} (cc (same, ok, h2))
                (record { valid = ok; version = refl })
          | inr bad ↦ cc (same, bad, h2)
        ]
        | inr other ↦ cc (other, h2)
      ]

  module _ (reload : A → A) where
    -- state.json after a call that wrote `d`
    pub record Committed (file file' : Option (File A)) (d : Document A) : Type 0 where
      pub before : Document A
      pub was : file ≡ some (document before)
      pub now : file' ≡ some (document (stored is_valid reload d))
      pub follows : Follows before d

    -- how a call of `update` ends: with a new document in the file, with an error and the old file, or with
    -- an error of the file system and a new document in the file
    abbrev pub Atomic : Option (File A) → Write → Ended A (Call StoreError (Document A)) → Type 0
    Atomic file writes e =
        ((d : Document A) × (e.result ≡ returns d) × (writes ≡ synced) × Committed file e.file d)
        ⊎ (((x : StoreError) × (e.result ≡ raises x) × (e.file ≡ file))
            ⊎ ((d : Document A) × (e.result ≡ raises os_error)
                × (writes ≡ not_synced)
                × Committed file e.file d))

    write_if-Atomic :
        (writes : Write) (file : Option (File A)) (d0 : Document A)
        (c : Call StoreError (Document A))
        → file ≡ some (document d0)
        → ((d : Document A) → c ≡ returns d → Follows d0 d)
        → Atomic file writes (write_if is_valid reload writes c file)
    unfolding atomic_write
    write_if-Atomic synced file d0 (returns d) was f =
        inl (d, refl, refl, record { before = d0; was = was; now = refl; follows = f d refl })
    write_if-Atomic not_replaced file d0 (returns d) was f = inr (inl (os_error, refl, refl))
    write_if-Atomic not_synced file d0 (returns d) was f =
        inr (inr (d, refl, refl, record { before = d0; was = was; now = refl; follows = f d refl }))
    write_if-Atomic writes file d0 (raises x) was f = inr (inl (x, refl, refl))

    -- Whatever the lock, the write and the mutator do, `update` ends in one of three ways. It returns a
    -- document that is valid and has the next version after the file's document, and the file holds what
    -- JSON gives back of it; or it raises, and the file is what it was; or it fails after `os.replace`, for
    -- which it raises an OSError, and the file holds what JSON gives back of such a document all the same.
    pub update-Atomic :
        (luck : Luck) (mutator : Document A → Call StoreError (Document A)) (file : Option (File A))
        → Atomic file luck.writes (update is_valid reload luck mutator file)
    unfolding update read_raw
    update-Atomic luck mutator none = elim (Bool-cases luck.locks) [
      | inl free ↦ rw free (inr (inl (not_found, refl, refl)))
      | inr held ↦ rw held (inr (inl (lock_timeout, refl, refl)))
    ]
    update-Atomic luck mutator (some (garbage text)) = elim (Bool-cases luck.locks) [
      | inl free ↦ rw free (inr (inl (corrupted text, refl, refl)))
      | inr held ↦ rw held (inr (inl (lock_timeout, refl, refl)))
    ]
    update-Atomic luck mutator (some (document d0)) = elim (Bool-cases luck.locks) [
      | inl free ↦ rw free (
          write_if-Atomic luck.writes (some (document d0)) d0 (prepare is_valid mutator d0) refl
            (prepare-Follows mutator d0))
      | inr held ↦ rw held (inr (inl (lock_timeout, refl, refl)))
    ]

    -- what a call that returned did to the file
    pub update-Committed :
        (luck : Luck) (mutator : Document A → Call StoreError (Document A)) (file : Option (File A))
        (d : Document A)
        → (update is_valid reload luck mutator file).result ≡ returns d
        → Committed file (update is_valid reload luck mutator file).file d
    update-Committed luck mutator file d h = elim (update-Atomic luck mutator file) [
      | inl (c, r, w, k) ↦
          subst (Committed file (update is_valid reload luck mutator file).file) (cc (r, h)) k
      | inr (inl (x, r, k)) ↦ cc (r, h)
      | inr (inr (c, r, w, k)) ↦ cc (r, h)
    ]
