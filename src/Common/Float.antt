-- ===== src/Common/Float.antt =====
-- float64 and the operations on it that the program uses. Its rounding is left open: the operations
-- are a parameter of the definitions that compute with floats.
use Prim.Native.Nat.{ℕ}
use mathlib.Core.Bool.{Bool}
use arc_signv.Common.Int.{ℤ}

pub record FloatOps : Type 1 where
  pub Float : Type 0
  -- the literal a / b
  pub literal : ℤ → ℕ → Float
  -- float64(n) and int(f)
  pub of_int : ℤ → Float
  pub to_int : Float → ℤ
  pub add : Float → Float → Float
  pub mul : Float → Float → Float
  pub div : Float → Float → Float
  pub lt : Float → Float → Bool
