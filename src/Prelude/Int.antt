-- ===== src/Prelude/Int.antt =====
-- The signed integers `i32` and `i64`, with the comparisons that the code makes.
use Prim.Native.Nat.{ℕ, ◌^◌, ◌<◌}
use mathlib.Core.Path.{◌≡◌, refl, ap}
use native.Mathlib.Omega.{arith}
use mathlib.Core.Bool.{Bool, true, false}
use rustdesk_server_demo.Prelude.Tests.{ltb, ◌==◌}

pub data ℤ : Type 0 where
  pos : ℕ → ℤ
  negsuc : ℕ → ℤ

abbrev pub IsI32 : ℤ → Type 0
IsI32 (pos n) = n < 2 ^ 31
IsI32 (negsuc n) = n < 2 ^ 31

-- `a < b` and `a == b`.
abbrev pub less : ℤ → ℤ → Bool
less (pos a) (pos b) = ltb a b
less (pos a) (negsuc b) = false
less (negsuc a) (pos b) = true
less (negsuc a) (negsuc b) = ltb b a

abbrev pub equal : ℤ → ℤ → Bool
equal (pos a) (pos b) = a == b
equal (pos a) (negsuc b) = false
equal (negsuc a) (pos b) = false
equal (negsuc a) (negsuc b) = a == b

pub equal→≡ : (a b : ℤ) → equal a b ≡ true → a ≡ b
equal→≡ (pos a) (pos b) h = ap pos (ground arith)
equal→≡ (pos a) (negsuc b) h = absurd (ground arith)
equal→≡ (negsuc a) (pos b) h = absurd (ground arith)
equal→≡ (negsuc a) (negsuc b) h = ap negsuc (ground arith)

pub equal_refl : (a : ℤ) → equal a a ≡ true
equal_refl (pos n) = ground arith
equal_refl (negsuc n) = ground arith

pub equal_comm : (a b : ℤ) → equal a b ≡ equal b a
equal_comm (pos a) (pos b) = ground arith
equal_comm (pos a) (negsuc b) = refl
equal_comm (negsuc a) (pos b) = refl
equal_comm (negsuc a) (negsuc b) = ground arith
