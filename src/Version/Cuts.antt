-- ===== src/Version/Cuts.antt =====
-- A text cut at the last of a character, and the index of that character from the end.
use mathlib.Core.List.{reverse, reverse-append}
use rustdesk_server_demo.Prelude.{
  ℕ, ◌+◌, ◌≡◌, refl, ap, ◌∙◌, sym, Bool, true, false, ◌⊎◌, inl, inr, Option, none, some, List, [],
  ◌∷◌, ◌++◌, ◌==◌, ==_iff, if◌then◌else◌, length, drop, All, length-append, append_assoc,
  drop-length_append, arith,
}
use rustdesk_server_demo.Prelude.Endian.{length-reverse, All-reverse}
use rustdesk_server_demo.Version.{first_index}

abbrev extend : ℕ → ℕ → List ℕ → Option (List ℕ × List ℕ) → Option (List ℕ × List ℕ)
extend c x xs none = if x == c then some ([], xs) else none
extend c x xs (some (front, back)) = some (x ∷ front, back)

-- The text before the last `c` and the text after it.
unfoldable pub last_cut : ℕ → List ℕ → Option (List ℕ × List ℕ)
last_cut c [] = none
last_cut c (x ∷ xs) = extend c x xs (last_cut c xs)

abbrev pub Free : ℕ → List ℕ → Type 0
Free c xs = All (λ x. (x == c) ≡ false) xs

abbrev pub Cut : ℕ → List ℕ → Type 0
Cut c xs =
    ((last_cut c xs ≡ none) × Free c xs)
    ⊎ ((front : List ℕ) × (back : List ℕ) × (last_cut c xs ≡ some (front, back))
        × (xs ≡ front ++ c ∷ back)
        × Free c back)

pub cut : (c : ℕ) (xs : List ℕ) → Cut c xs
unfolding last_cut
cut c [] = inl (refl, tt)
cut c (x ∷ xs) = by_rest (cut c xs)
  where
    by_head : (last_cut c xs ≡ none) → Free c xs → (b : Bool) → (x == c) ≡ b → Cut c (x ∷ xs)
    by_head e free true h =
        inr ([], xs, rw e (rw h refl), ap (λ y. y ∷ xs) ((==_iff x c).0 h), free)
    by_head e free false h = inl (rw e (rw h refl), (h, free))

    by_rest : Cut c xs → Cut c (x ∷ xs)
    by_rest (inl (e, free)) = by_head e free (x == c) refl
    by_rest (inr (front, back, e, parts, free)) =
        inr (x ∷ front, back, rw e refl, ap (λ ys. x ∷ ys) parts, free)

first_index-Free : (i c : ℕ) (xs : List ℕ) → Free c xs → first_index i c xs ≡ none
unfolding first_index
first_index-Free i c [] free = refl
first_index-Free i c (x ∷ xs) (h, free) = rw h (first_index-Free (i + 1) c xs free)

first_index-append :
    (i c : ℕ) (xs ys : List ℕ) → Free c xs → first_index i c (xs ++ c ∷ ys) ≡ some (i + length xs)
unfolding first_index
first_index-append i c [] ys free = ground arith
first_index-append i c (x ∷ xs) ys (h, free) =
    rw h (first_index-append (i + 1) c xs ys free ∙ ap some (omega arith))

pub first_index-none : (c : ℕ) (xs : List ℕ) → Free c xs → first_index 0 c (reverse xs) ≡ none
first_index-none c xs free =
    first_index-Free 0 c (reverse xs) (All-reverse (λ x. (x == c) ≡ false) xs free)

-- Counted from the end, the last `c` stands behind what follows it.
pub first_index-cut :
    (c : ℕ) (front back : List ℕ)
    → Free c back
    → first_index 0 c (reverse (front ++ c ∷ back)) ≡ some (length back)
first_index-cut c front back free =
    ap (first_index 0 c) (
      ap reverse (sym (append_assoc front (c ∷ []) back))
      ∙ reverse-append (front ++ c ∷ []) back
      ∙ ap (λ ys. reverse back ++ ys) (reverse-append front (c ∷ [])))
    ∙ first_index-append 0 c (reverse back) (reverse front)
        (All-reverse (λ x. (x == c) ≡ false) back free)
    ∙ ap some (omega (arith, length-reverse back))

pub last_cut-Free : (c : ℕ) (xs : List ℕ) → Free c xs → last_cut c xs ≡ none
unfolding last_cut
last_cut-Free c [] free = refl
last_cut-Free c (x ∷ xs) (h, free) = rw (last_cut-Free c xs free) (rw h refl)

pub last_cut-append :
    (c : ℕ) (front back : List ℕ)
    → Free c back
    → last_cut c (front ++ c ∷ back) ≡ some (front, back)
unfolding last_cut
last_cut-append c [] back free =
    rw (last_cut-Free c back free)
      (ap (λ b. if b then some ([], back) else none) ((==_iff c c).1 refl))
last_cut-append c (x ∷ front) back free = rw (last_cut-append c front back free) refl

pub drop-cut :
    (c n : ℕ) (front back : List ℕ) → n ≡ length front + 1 → drop n (front ++ c ∷ back) ≡ back
drop-cut c n front back h =
    ap (λ ys. drop n ys) (sym (append_assoc front (c ∷ []) back))
    ∙ ap (λ m. drop m ((front ++ c ∷ []) ++ back)) (omega (arith, length-append front (c ∷ [])))
    ∙ drop-length_append (front ++ c ∷ []) back
