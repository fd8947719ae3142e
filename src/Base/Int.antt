-- ===== src/Base/Int.antt =====
-- Signed integers over the native numbers: Go's `int`, where configuration may be negative.
use Prim.Native.Nat.{ℕ, suc, ◌+◌, ◌≤◌, ◌<◌}
use mathlib.Core.Bool.{Bool}
use native.Mathlib.Omega.{arith}
use api_x.Base.Tests.{ltb, leb}

-- `negsuc n` is -(n + 1).
pub data ℤ : Type 0 where
  pos : ℕ → ℤ
  negsuc : ℕ → ℤ

abbrev pub pos_part : ℤ → ℕ
pos_part (pos n) = n
pos_part (negsuc n) = 0

abbrev pub neg_part : ℤ → ℕ
neg_part (pos n) = 0
neg_part (negsuc n) = suc n

infix 50 ◌≤ℤ◌ ◌<ℤ◌
abbrev pub ◌≤ℤ◌ : ℤ → ℤ → Type 0
a ≤ℤ b = pos_part a + neg_part b ≤ pos_part b + neg_part a

abbrev pub ◌<ℤ◌ : ℤ → ℤ → Type 0
a <ℤ b = pos_part a + neg_part b < pos_part b + neg_part a

abbrev pub ltb_ℤ : ℤ → ℤ → Bool
ltb_ℤ a b = ltb (pos_part a + neg_part b) (pos_part b + neg_part a)

abbrev pub leb_ℤ : ℤ → ℤ → Bool
leb_ℤ a b = leb (pos_part a + neg_part b) (pos_part b + neg_part a)

-- `if n <= 0 { return def }; return n`, the defaulting that the plugins' configurations share.
abbrev pub positive_or : ℕ → ℤ → ℕ
positive_or def (pos ℕ.zero) = def
positive_or def (pos (suc n)) = suc n
positive_or def (negsuc n) = def

-- A positive default keeps the configured value positive.
pub positive_or_pos : (def : ℕ) (n : ℤ) → 0 < def → 0 < positive_or def n
positive_or_pos def (pos ℕ.zero) h = h
positive_or_pos def (pos (suc n)) h = omega arith
positive_or_pos def (negsuc n) h = h
