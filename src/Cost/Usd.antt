-- ===== src/Cost/Usd.antt =====
-- Python's floats as amounts of USD: the operations that cost_guard.py applies to them, and what IEEE
-- 754 says of those on finite amounts. Rounding keeps the order, so sums are monotone though not
-- exact.
use tab_conductor.Prelude.{ℕ, ◌≡◌, Bool, true, false}

pub record Money : Type 1 where
  pub Amount : Type 0
  -- 0.0
  pub zero_usd : Amount
  pub add : Amount → Amount → Amount
  pub lt_usd : Amount → Amount → Bool
  pub le_usd : Amount → Amount → Bool
  -- limit * 0.80
  pub warn_level : Amount → Amount
  -- tokens_in * 3.00 / 1_000_000.0 + tokens_out * 15.00 / 1_000_000.0
  pub estimate : ℕ → ℕ → Amount

pub record MoneyLaws (m : Money) : Type 0 where
  pub le_refl : (a : Money.Amount m) → Money.le_usd m a a ≡ true
  pub le_trans :
      (a b c : Money.Amount m)
      → Money.le_usd m a b ≡ true
      → Money.le_usd m b c ≡ true
      → Money.le_usd m a c ≡ true
  pub lt_of_lt_of_le :
      (a b c : Money.Amount m)
      → Money.lt_usd m a b ≡ true
      → Money.le_usd m b c ≡ true
      → Money.lt_usd m a c ≡ true
  pub not_lt_of_le : (a b : Money.Amount m) → Money.le_usd m a b ≡ true → Money.lt_usd m b a ≡ false
  pub le_of_not_le : (a b : Money.Amount m) → Money.le_usd m a b ≡ false → Money.le_usd m b a ≡ true
  pub add_mono :
      (a b c d : Money.Amount m)
      → Money.le_usd m a b ≡ true
      → Money.le_usd m c d ≡ true
      → Money.le_usd m (Money.add m a c) (Money.add m b d) ≡ true
  pub le-add :
      (a c : Money.Amount m)
      → Money.le_usd m (Money.zero_usd m) c ≡ true
      → Money.le_usd m a (Money.add m a c) ≡ true
