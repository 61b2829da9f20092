-- ===== src/Prelude/Int.antt =====
-- Python's integers, as far as positions in a list need them.
use Prim.Native.Nat.{ℕ, ◌-◌}
use mathlib.Core.Bool.{Bool}
use mathlib.Core.Option.{Option, none, some}
use unknown_file_threat_agen.Prelude.Tests.{ltb, eqb, if◌then◌else◌}

-- `negsuc n` is -(n + 1)
pub data ℤ : Type 0 where
  pos : ℕ → ℤ
  negsuc : ℕ → ℤ

abbrev pub eqb_ℤ : ℤ → ℤ → Bool
eqb_ℤ (pos m) (pos n) = eqb m n
eqb_ℤ (negsuc m) (negsuc n) = eqb m n
eqb_ℤ _ _ = Bool.false

-- the position that an index stands for in a list of a length, if `-len <= i < len`
abbrev pub position : ℕ → ℤ → Option ℕ
position len (pos n) = if ltb n len then some n else none
position len (negsuc n) = if ltb n len then some (len - n - 1) else none
