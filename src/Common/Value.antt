-- ===== src/Common/Value.antt =====
-- The values that the program's mappings hold: what JSON has, and datetimes and UUIDs.
-- A datetime counts microseconds from `datetime.min`; a naive one has no timezone.
use text.Mathlib.Text.{◌==◌ as str_eq}
use oecophylla.Common.{ℕ, zero, String, not, Bool, true, false, Option, none, some, if◌then◌else◌}
use oecophylla.Common.Int.{ℤ, pos}

pub data Datetime : Type 0 where
  aware : ℕ → Datetime
  naive : ℕ → Datetime

mutual
  pub data Value (F : Type 0) : Type 0 where
    null : Value F
    bool : Bool → Value F
    int : ℤ → Value F
    float : F → Value F
    str : String → Value F
    uuid : String → Value F
    stamp : Datetime → Value F
    seq : Items F → Value F
    mapping : Fields F → Value F

  pub data Items (F : Type 0) : Type 0 where
    nil : Items F
    item : Value F → Items F → Items F

  pub data Fields (F : Type 0) : Type 0 where
    end : Fields F
    field : String → Value F → Fields F → Fields F

module _ {F : Type 0} where
  -- `m.get(name)`, with `none` for a missing key and `some null` for a present `None`.
  abbrev pub get : String → Fields F → Option (Value F)
  get name end = none
  get name (field k v m) = if str_eq k name then some v else get name m

  abbrev pub or_null : Option (Value F) → Value F
  or_null none = null
  or_null (some v) = v

  -- `m.get(name)` as Python gives it, `None` for a missing key.
  abbrev pub get_value : String → Fields F → Value F
  get_value name m = or_null (get name m)

  -- `m[name] = v`
  abbrev pub put : String → Value F → Fields F → Fields F
  put name v end = field name v end
  put name v (field k w m) = if str_eq k name then field k v m else field k w (put name v m)

  -- `{**m, **n}`
  abbrev pub merge : Fields F → Fields F → Fields F
  merge m end = m
  merge m (field k v n) = merge (put k v m) n

  -- `v is None`
  abbrev pub is_none : Value F → Bool
  is_none null = true
  is_none _ = false

  -- Python's truth value of `v`; a float is false if it is zero.
  abbrev pub truthy : (F → Bool) → Value F → Bool
  truthy is_zero null = false
  truthy is_zero (bool b) = b
  truthy is_zero (int (pos zero)) = false
  truthy is_zero (int _) = true
  truthy is_zero (float x) = not (is_zero x)
  truthy is_zero (str String.[]) = false
  truthy is_zero (seq nil) = false
  truthy is_zero (mapping end) = false
  truthy is_zero _ = true
