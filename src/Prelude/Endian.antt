-- ===== src/Prelude/Endian.antt =====
-- `to_ne_bytes` and `from_ne_bytes`: words in the byte order of the machine.
use Prim.Native.Nat.{ℕ, ◌^◌, ◌<◌}
use mathlib.Core.Path.{◌≡◌, ◌∙◌, refl, ap}
use mathlib.Core.List.{List, [], ◌∷◌, reverse, reverse-append, reverse-reverse}
use native.Mathlib.Omega.{arith}
use rustdesk_server_demo.Prelude.Lists.{length, length-append, All, All-append}
use rustdesk_server_demo.Prelude.Words.{
  IsByte, to_le_bytes, from_le_bytes, from-to_le_bytes, to-from_le_bytes, from_le_bytes-lt,
  length-to_le_bytes, to_le_bytes-IsByte,
}

pub data Endian : Type 0 where
  little big : Endian

unfoldable pub to_ne_bytes : Endian → ℕ → ℕ → List ℕ
to_ne_bytes little w n = to_le_bytes w n
to_ne_bytes big w n = reverse (to_le_bytes w n)

unfoldable pub from_ne_bytes : Endian → List ℕ → ℕ
from_ne_bytes little bs = from_le_bytes bs
from_ne_bytes big bs = from_le_bytes (reverse bs)

pub length-reverse {ℓ} : {A : Type ℓ} (xs : List A) → length (reverse xs) ≡ length xs
length-reverse [] = refl
length-reverse (x ∷ xs) =
    ap length (reverse-append (x ∷ []) xs)
    ∙ length-append (reverse xs) (x ∷ [])
    ∙ omega (arith, length-reverse xs)

pub All-reverse {ℓ κ} : {A : Type ℓ} (P : A → Type κ) (xs : List A) → All P xs → All P (reverse xs)
All-reverse P [] h = tt
All-reverse P (x ∷ xs) (h, hs) =
    rw (reverse-append (x ∷ []) xs)
      (All-append P (reverse xs) (x ∷ []) (All-reverse P xs hs) (h, tt))

pub from-to_ne_bytes :
    (e : Endian) (w n : ℕ) → n < 256 ^ w → from_ne_bytes e (to_ne_bytes e w n) ≡ n
unfolding to_ne_bytes from_ne_bytes
from-to_ne_bytes little w n h = from-to_le_bytes w n h
from-to_ne_bytes big w n h = rw reverse-reverse (from-to_le_bytes w n h)

pub length-to_ne_bytes : (e : Endian) (w n : ℕ) → length (to_ne_bytes e w n) ≡ w
unfolding to_ne_bytes
length-to_ne_bytes little w n = length-to_le_bytes w n
length-to_ne_bytes big w n = length-reverse (to_le_bytes w n) ∙ length-to_le_bytes w n

pub to_ne_bytes-IsByte : (e : Endian) (w n : ℕ) → All IsByte (to_ne_bytes e w n)
unfolding to_ne_bytes
to_ne_bytes-IsByte little w n = to_le_bytes-IsByte w n
to_ne_bytes-IsByte big w n = All-reverse IsByte (to_le_bytes w n) (to_le_bytes-IsByte w n)

pub to-from_ne_bytes :
    (e : Endian) (bs : List ℕ) → All IsByte bs → to_ne_bytes e (length bs) (from_ne_bytes e bs) ≡ bs
unfolding to_ne_bytes from_ne_bytes
to-from_ne_bytes little bs h = to-from_le_bytes bs h
to-from_ne_bytes big bs h =
    let back = to-from_le_bytes (reverse bs) (All-reverse IsByte bs h) in
    ap reverse (rw length-reverse at back) ∙ reverse-reverse bs

pub from_ne_bytes-lt :
    (e : Endian) (bs : List ℕ) → All IsByte bs → from_ne_bytes e bs < 256 ^ length bs
unfolding from_ne_bytes
from_ne_bytes-lt little bs h = from_le_bytes-lt bs h
from_ne_bytes-lt big bs h =
    rw length-reverse at (from_le_bytes-lt (reverse bs) (All-reverse IsByte bs h))
