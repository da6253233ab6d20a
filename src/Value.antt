-- ===== src/Value.antt =====
-- The values that yaml.safe_load hands to src/tab_conductor/plan_parser.py and json.load to
-- src/tab_conductor/query.py. A mapping keeps its items in order; its keys are texts.
pub mod Text
pub mod Number
use tab_conductor.Prelude.{
  ℕ, String, ◌≡◌, refl, Bool, true, false, Option, none, some, List, [], ◌∷◌, arith, ◌==◌, eq_iff,
  contains, if◌then◌else◌,
}
use tab_conductor.Prelude.Int.{ℤ}

-- A finite float is the fraction of an integer by a number plus one.
pub data Float : Type 0 where
  ratio : ℤ → ℕ → Float
  infinity minus_infinity nan : Float

-- `other` stands for objects of a type with no `int()` of its own, such as dates.
mutual
  pub data Value : Type 0 where
    null : Value
    bool : Bool → Value
    int : ℤ → Value
    float : Float → Value
    str : String → Value
    list : Items → Value
    dict : Fields → Value
    other : Value

  pub data Items : Type 0 where
    nil : Items
    cons : Value → Items → Items

  pub data Fields : Type 0 where
    end : Fields
    field : String → Value → Fields → Fields

-- data.get(key)
unfoldable pub get : String → Fields → Option Value
get key end = none
get key (field k v fs) = if k == key then some v else get key fs

-- {k: v for k, v in data.items() if k not in names}
unfoldable pub without : List String → Fields → Fields
without names end = end
without names (field k v fs) =
    let rest = without names fs in if contains k names then rest else field k v rest

-- data.setdefault(key, value)
unfoldable pub set_default : String → Value → Fields → Fields
set_default key value end = field key value end
set_default key value (field k v fs) =
    if k == key then field k v fs else field k v (set_default key value fs)

pub get-without :
    (key : String) (names : List String) (fs : Fields)
    → get key (without names fs) ≡ (if contains key names then none else get key fs)
unfolding get without
get-without key names end = ground arith
get-without key names (field k v fs) = ground (arith, eq_iff k key, get-without key names fs)
