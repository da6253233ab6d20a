-- ===== src/Store.antt =====
-- src/tab_conductor/state.py: the store of a run's state. A document is its version, which is an
-- integer where it is there, and the rest of the object, of a parameter type; the check against the
-- schema is a parameter. What the lock and the file system do in a call is an argument of it.
pub mod Serial
mod Concurrent
pub mod Lock
mod Tests
use tab_conductor.Prelude.{
  ℕ, zero, suc, ◌+◌, String, Bool, true, false, ◌&&◌, Option, none, some, List, [], ◌∷◌, leb,
  if◌then◌else◌,
}
use tab_conductor.Prelude.Int.{ℤ, pos, negsuc, leb_ℤ}
use tab_conductor.Prelude.Call.{Call, returns, raises, ◌>>=◌}

pub record Document {ℓ} (A : Type ℓ) : Type ℓ where
  pub version : Option ℤ
  pub body : A

-- what state.json holds: a document, or a text that is no JSON
pub data File {ℓ} (A : Type ℓ) : Type ℓ where
  document : Document A → File A
  garbage : String → File A

-- `mutator_error` is whatever the mutator raises, `os_error` the error of a failed write. `lock_timeout` stands for
-- any error with which the call does not get the lock; which one it is, is in Store/Lock.antt.
pub data StoreError : Type 0 where
  already_exists not_found lock_timeout invalid os_error : StoreError
  corrupted mutator_error : String → StoreError
  version_mismatch : ℤ → ℤ → StoreError

-- state.get("version", -1)
abbrev pub version_or : Option ℤ → ℤ
version_or none = negsuc 0
version_or (some n) = n

abbrev pub is_equal : ℤ → ℤ → Bool
is_equal a b = leb_ℤ a b && leb_ℤ b a

-- n + 1
abbrev pub next_version : ℤ → ℤ
next_version (pos n) = pos (n + 1)
next_version (negsuc zero) = pos 0
next_version (negsuc (suc n)) = negsuc n

-- what comes of `_atomic_write`: all of it is done; it fails before `os.replace` is, be it with an error of
-- the file system or with one of `json.dump`; or `_fsync_dir`, or giving back the lock, fails after it
pub data Write : Type 0 where
  synced not_replaced not_synced : Write

-- what a call meets: whether it gets the lock, and what comes of the write
pub record Luck : Type 0 where
  pub locks : Bool
  pub writes : Write

-- what `json.load` gives of the text that `json.dump` makes of a body which is JSON data already
abbrev pub as_is {ℓ} : {A : Type ℓ} → A → A
as_is a = a

-- the end of a call, and state.json after it
pub record Ended {ℓ} (A : Type ℓ) (R : Type ℓ) : Type ℓ where
  pub result : R
  pub file : Option (File A)

module _ {A : Type 0} (is_valid : Document A → Bool) where
  -- the steps of `update` from the mutator's call to the validation
  unfoldable pub prepare :
      (Document A → Call StoreError (Document A)) → Document A → Call StoreError (Document A)
  prepare mutator current = mutator current >>= λ new_state.
      let pre = version_or current.version in
      let committed = record new_state { version = some (next_version pre) } in
      if is_equal (version_or new_state.version) pre
      then if is_valid committed then returns committed else raises invalid
      else raises (version_mismatch pre (version_or new_state.version))

  unfoldable pub read_raw : Option (File A) → Call StoreError (Document A)
  read_raw none = raises not_found
  read_raw (some (garbage text)) = raises (corrupted text)
  read_raw (some (document d)) = returns d

  unfoldable pub read : Option (File A) → Call StoreError (Document A)
  read file = read_raw file >>= λ d. if is_valid d then returns d else raises invalid

  -- `reload` is what `json.load` gives of the text that `json.dump` makes of a body: tuples come back as
  -- lists, and keys as texts
  module _ (reload : A → A) where
    -- what state.json holds once `d` was written
    abbrev pub stored : Document A → Document A
    stored d = record { version = d.version; body = reload d.body }

    unfoldable pub atomic_write :
        Write → Document A → Option (File A) → Ended A (Call StoreError (Document A))
    atomic_write synced d file = record { result = returns d; file = some (document (stored d)) }
    atomic_write not_replaced d file = record { result = raises os_error; file = file }
    atomic_write not_synced d file = record {
      result = raises os_error;
      file = some (document (stored d));
    }

    abbrev pub write_if :
        Write
        → Call StoreError (Document A)
        → Option (File A)
        → Ended A (Call StoreError (Document A))
    write_if writes (returns d) file = atomic_write writes d file
    write_if writes (raises e) file = record { result = raises e; file = file }

    unfoldable pub init :
        Luck → Document A → Option (File A) → Ended A (Call StoreError (Document A))
    init luck initial (some f) = record { result = raises already_exists; file = some f }
    init luck initial none =
        write_if luck.writes (if is_valid initial then returns initial else raises invalid) none

    unfoldable pub update :
        Luck
        → (Document A → Call StoreError (Document A))
        → Option (File A)
        → Ended A (Call StoreError (Document A))
    update luck mutator file =
        if luck.locks
        then write_if luck.writes (read_raw file >>= prepare mutator) file
        else record { result = raises lock_timeout; file = file }
