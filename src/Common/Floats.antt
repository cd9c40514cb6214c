-- ===== src/Common/Floats.antt =====
-- `f32`: the type and its operations, with the laws of the IEEE comparisons that the code relies on.
use Prim.Native.Nat.{ℕ}
use mathlib.Core.Path.{◌≡◌}
use mathlib.Core.Bool.{Bool, true, false}
use mathlib.Core.List.{List}
use native.Mathlib.Omega.{arith}
use rust_enterprise_query_en.Common.Tests.{leb}
use rust_enterprise_query_en.Common.Order.{IsTotal}

pub record Floats : Type 1 where
  pub F : Type 0
  pub zero_f : F
  pub one_f : F
  pub minus_one_f : F
  pub min_positive : F
  pub of_ℕ : ℕ → F
  pub add : F → F → F
  pub mul : F → F → F
  pub div : F → F → F
  pub abs : F → F
  pub max_f : F → F → F
  pub sqrt : F → F
  -- `powi(2)`
  pub square : F → F
  -- `Iterator::sum`
  pub sum : List F → F
  pub is_finite : F → Bool
  -- `==`, `>`, `>=` and `<=`, which are false where an operand is not a number.
  pub eq_f : F → F → Bool
  pub gt : F → F → Bool
  pub ge : F → F → Bool
  pub le : F → F → Bool
  -- `total_cmp` compares by an integer made of all the bits.
  pub total_key : F → ℕ
  pub gt_irrefl : (x : F) → gt x x ≡ false
  pub gt_trans : (x y z : F) → gt x y ≡ true → gt y z ≡ true → gt x z ≡ true
  pub total_key_injective : (x y : F) → total_key x ≡ total_key y → x ≡ y

-- `b.total_cmp(a)`: the larger first.
module _ (fl : Floats) where
  open fl use {F, total_key}

  abbrev pub descending : F → F → Bool
  descending x y = leb (total_key y) (total_key x)

  pub descending-IsTotal : IsTotal descending
  descending-IsTotal = record { total = λ a b h. ground arith; trans = λ a b c h k. ground arith }
