-- ===== src/Prelude/Words.antt =====
-- Unsigned words as lists of bytes: `to_le_bytes` and `from_le_bytes` of `w` bytes.
use Prim.Native.Nat.{ℕ, zero, suc, ◌+◌, ◌*◌, ◌/◌, ◌%◌, ◌^◌, ◌<◌}
use mathlib.Core.Path.{◌≡◌, refl, ap}
use mathlib.Core.List.{List, [], ◌∷◌}
use native.Mathlib.Nat.{pow-suc}
use native.Mathlib.Omega.{arith}
use rustdesk_server_demo.Prelude.Lists.{length, All}

abbrev pub IsByte : ℕ → Type 0
IsByte b = b < 256

-- The `w` bytes of `n`, lowest first; what does not fit is cut off, as by an `as` cast.
abbrev pub to_le_bytes : ℕ → ℕ → List ℕ
to_le_bytes zero n = []
to_le_bytes (suc w) n = (n % 256) ∷ to_le_bytes w (n / 256)

abbrev pub from_le_bytes : List ℕ → ℕ
from_le_bytes [] = 0
from_le_bytes (b ∷ bs) = b + 256 * from_le_bytes bs

pub length-to_le_bytes : (w n : ℕ) → length (to_le_bytes w n) ≡ w
length-to_le_bytes zero n = refl
length-to_le_bytes (suc w) n = ap suc (length-to_le_bytes w (n / 256))

pub to_le_bytes-IsByte : (w n : ℕ) → All IsByte (to_le_bytes w n)
to_le_bytes-IsByte zero n = tt
to_le_bytes-IsByte (suc w) n = (omega arith, to_le_bytes-IsByte w (n / 256))

pub from-to_le_bytes : (w n : ℕ) → n < 256 ^ w → from_le_bytes (to_le_bytes w n) ≡ n
from-to_le_bytes zero n h = omega arith
from-to_le_bytes (suc w) n h =
    omega (arith, from-to_le_bytes w (n / 256) (omega (arith, pow-suc 256 w)))

pub from_le_bytes-lt : (bs : List ℕ) → All IsByte bs → from_le_bytes bs < 256 ^ length bs
from_le_bytes-lt [] h = omega arith
from_le_bytes-lt (b ∷ bs) (hb, hbs) =
    omega (arith, from_le_bytes-lt bs hbs, pow-suc 256 (length bs))

pub to-from_le_bytes :
    (bs : List ℕ) → All IsByte bs → to_le_bytes (length bs) (from_le_bytes bs) ≡ bs
to-from_le_bytes [] h = refl
to-from_le_bytes (b ∷ bs) (hb, hbs) =
    let low : (b + 256 * from_le_bytes bs) % 256 ≡ b = omega arith in
    let high : (b + 256 * from_le_bytes bs) / 256 ≡ from_le_bytes bs = omega arith in
    rw (low, high, to-from_le_bytes bs hbs)
