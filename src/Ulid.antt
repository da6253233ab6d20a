-- ===== src/Ulid.antt =====
-- src/tab_conductor/ulid.py: `new`. A ULID is the 128-bit number of its 16 bytes, whose text in
-- Crockford's alphabet has the order of the numbers; what `ULID()` draws is an argument.
mod Order
pub mod Parse
mod Tests
use tab_conductor.Prelude.{ℕ, ◌+◌, ◌^◌, Option, none, some, List, [], ◌∷◌, leb, ltb, if◌then◌else◌}
use tab_conductor.Prelude.Call.{Call, returns, raises, ◌>>=◌}

-- the OverflowError of `to_bytes(16, "big")`
pub data UlidError : Type 0 where
  overflow : UlidError

abbrev pub limit : ℕ
limit = 2 ^ 128

-- ULID.from_bytes(n.to_bytes(16, "big"))
abbrev pub from_int : ℕ → Call UlidError ℕ
from_int n = if ltb n limit then returns n else raises overflow

-- The result is the next call's `last`.
unfoldable pub new : ℕ → Option ℕ → Call UlidError ℕ
new candidate none = returns candidate
new candidate (some last) = if leb candidate last then from_int (last + 1) else returns candidate

-- calls of `new`, one after the other
unfoldable pub generate : Option ℕ → List ℕ → Call UlidError (List ℕ)
generate last [] = returns []
generate last (candidate ∷ candidates) = do
  ulid ← new candidate last
  ulids ← generate (some ulid) candidates
  returns (ulid ∷ ulids)
