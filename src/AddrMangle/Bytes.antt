-- ===== src/AddrMangle/Bytes.antt =====
-- Stripping the zero bytes at the end and padding with them are inverse.
use mathlib.Core.List.{reverse, reverse-append, reverse-reverse}
use rustdesk_server_demo.Prelude.{
  ℕ, zero, suc, ◌-◌, ◌≤◌, ◌≡◌, ◌∙◌, refl, sym, ap, inl, inr, List, [], ◌∷◌, ◌++◌, length, take,
  drop, length-drop, take-length_append, replicate, arith, ◌==◌, Bool-cases, le→ltb,
}
use rustdesk_server_demo.Prelude.Endian.{length-reverse}
use rustdesk_server_demo.AddrMangle.{count_padding, strip, pad, done}

count_padding-front : (l : List ℕ) → replicate (count_padding l) 0 ++ drop (count_padding l) l ≡ l
unfolding count_padding
count_padding-front [] = refl
count_padding-front (i ∷ rest) = elim (Bool-cases (i == 0)) [
  | inl zeroed ↦ let first : i ≡ 0 = ground arith in rw (zeroed, count_padding-front rest, first)
  | inr other ↦ rw other
]

count_padding-le : (l : List ℕ) → count_padding l ≤ length l
unfolding count_padding
count_padding-le [] = omega arith
count_padding-le (i ∷ rest) = ground (arith, count_padding-le rest)

replicate-snoc : (k a : ℕ) → replicate k a ++ a ∷ [] ≡ a ∷ replicate k a
replicate-snoc zero a = refl
replicate-snoc (suc k) a = rw (replicate-snoc k a)

reverse-replicate : (k a : ℕ) → reverse (replicate k a) ≡ replicate k a
reverse-replicate zero a = refl
reverse-replicate (suc k) a =
    reverse-append (a ∷ []) (replicate k a)
    ∙ ap (λ (l : List ℕ). l ++ a ∷ []) (reverse-replicate k a)
    ∙ replicate-snoc k a

module _ (bytes : List ℕ) (h : length bytes ≡ 16) where
  padding : ℕ
  padding = count_padding (reverse bytes)

  kept : List ℕ
  kept = reverse (drop padding (reverse bytes))

  kept-padding : kept ++ replicate padding 0 ≡ bytes
  unfolding padding kept
  kept-padding =
      ap (λ (l : List ℕ). kept ++ l) (sym (reverse-replicate padding 0))
      ∙ sym (reverse-append (replicate padding 0) (drop padding (reverse bytes)))
      ∙ ap reverse (count_padding-front (reverse bytes))
      ∙ reverse-reverse bytes

  length-kept : (length kept ≡ 16 - padding) × (padding ≤ 16)
  unfolding padding kept
  length-kept =
      let whole : length (reverse bytes) ≡ 16 = length-reverse bytes ∙ h in
      (
        length-reverse (drop padding (reverse bytes))
            ∙ omega (arith, length-drop padding (reverse bytes)),
        omega (arith, count_padding-le (reverse bytes)),
      )

  strip-kept : strip bytes ≡ kept
  unfolding strip padding
  strip-kept =
      rw (← length-kept.0)
        (ap (take (length kept)) (sym kept-padding) ∙ take-length_append kept (replicate padding 0))

  -- At most sixteen bytes are kept.
  pub length-strip : length (strip bytes) ≤ 16
  length-strip = rw strip-kept (omega (arith, length-kept))

  -- What `encode` strips `decode` fills in again.
  pub pad-strip : pad (strip bytes) ≡ done bytes
  unfolding pad
  pad-strip =
      let bound = length-kept in
      let rest : 16 - length kept ≡ padding = omega arith in
      rw (strip-kept, le→ltb 16 (length kept) (omega arith), rest, kept-padding)
