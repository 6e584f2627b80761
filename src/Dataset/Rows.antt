-- ===== src/Dataset/Rows.antt =====
-- What the splits need of a row: the kinds of rows of schemas.py have this interface in common.
use oecophylla.Common.{ℕ, String, ◌≡◌, Bool}

-- `SplitName`
pub data SplitName : Type 0 where
  train validation test : SplitName

-- A row's request, time and split; `replace(row, split=...)` changes the split alone.
pub record RowType {ℓ} (Row : Type ℓ) : Type ℓ where
  pub identity : Row → String
  pub served_at : Row → ℕ
  pub sample_id : Row → String
  pub split_of : Row → SplitName
  pub with_split : SplitName → Row → Row
  -- The order of the finished rows.
  pub row_le : Row → Row → Bool
  pub split_of-with_split : (s : SplitName) (r : Row) → split_of (with_split s r) ≡ s
  pub identity-with_split : (s : SplitName) (r : Row) → identity (with_split s r) ≡ identity r
  pub served_at-with_split : (s : SplitName) (r : Row) → served_at (with_split s r) ≡ served_at r
  pub sample_id-with_split : (s : SplitName) (r : Row) → sample_id (with_split s r) ≡ sample_id r
