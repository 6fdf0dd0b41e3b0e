-- ===== src/Transfer/Chunks.antt =====
-- The loop of `read`: it ends, and short reads do not show in what it gives.
use Prim.Native.Nat.{min}
use mathlib.Core.Path.{subst}
use rustdesk_server_demo.Prelude.{
  ℕ, zero, suc, ◌+◌, ◌-◌, ◌≤◌, ◌<◌, ◌≡◌, refl, sym, ap, ◌∙◌, Bool, true, false, ◌||◌, Option-cases,
  ◌⊎◌, inl, inr, Option, List, [], ◌∷◌, ◌++◌, append_assoc, ◌==◌, if◌then◌else◌, length, take, drop,
  length-append, length-take, arith,
}
use rustdesk_server_demo.Transfer.Read.{buf_size, Filled, filled, read_failed, fill}

take-nil : (n : ℕ) → ◌≡◌ {A = List ℕ} (take n []) []
take-nil zero = refl
take-nil (suc n) = refl

take-take-drop : (n m : ℕ) (xs : List ℕ) → n ≤ m → take n xs ++ take (m - n) (drop n xs) ≡ take m xs
take-take-drop zero m xs le = ap (λ k. take k xs) (omega arith)
take-take-drop (suc n) zero xs le = absurd (omega arith)
take-take-drop (suc n) (suc m) [] le = take-nil _
take-take-drop (suc n) (suc m) (x ∷ xs) le =
    ap (λ ys. x ∷ ys)
      (ap (λ k. take n xs ++ take k (drop n xs)) (omega arith)
        ∙ take-take-drop n m xs (omega arith))

take_all : (n : ℕ) (xs : List ℕ) → length xs ≤ n → take n xs ≡ xs
take_all n [] le = take-nil n
take_all zero (x ∷ xs) le = absurd (omega arith)
take_all (suc n) (x ∷ xs) le = ap (λ ys. x ∷ ys) (take_all n xs (omega arith))

nil_of_length : (xs : List ℕ) → length xs ≡ 0 → xs ≡ []
nil_of_length [] e = refl
nil_of_length (x ∷ xs) e = absurd (omega arith)

-- One round of the loop, on what the recursive call gives.
abbrev round : ℕ → List ℕ → Filled → Filled
round n grown rest = if (n == 0) || (length grown == buf_size) then filled grown else rest

abbrev Ends : Filled → List ℕ → Type 0
Ends r out = (r ≡ read_failed) ⊎ (r ≡ filled out)

module _ (n room : ℕ) (buf unread : List ℕ) (fits : length buf + room ≡ buf_size)
    (within : n ≤ room) (some_left : n ≤ length unread) where
  length-grown : length (buf ++ take n unread) ≡ length buf + n
  length-grown = omega (arith, length-append buf (take n unread), length-take n unread)

  grown-rest :
      (buf ++ take n unread) ++ take (buf_size - length (buf ++ take n unread)) (drop n unread)
      ≡ buf ++ take room unread
  grown-rest =
      append_assoc buf (take n unread) _
      ∙ ap (λ k. buf ++ (take n unread ++ take k (drop n unread))) (omega (arith, length-grown))
      ∙ ap (λ ys. buf ++ ys) (take-take-drop n room unread within)

  round-Ends :
      (a b : Bool) (rest : Filled)
      → (n == 0) ≡ a
      → (length (buf ++ take n unread) == buf_size) ≡ b
      → (n ≡ 0 → unread ≡ [])
      → (0 < n
          → length (buf ++ take n unread) < buf_size
          → Ends rest (
              (buf ++ take n unread)
              ++ take (buf_size - length (buf ++ take n unread)) (drop n unread)))
      → Ends (if a || b then filled (buf ++ take n unread) else rest) (buf ++ take room unread)
  round-Ends true b rest ha hb empty ih =
      let nothing = empty (ground arith) in
      inr (
        ap (λ ys. filled (buf ++ ys))
          (ap (take n) nothing ∙ take-nil n ∙ sym (take-nil room) ∙ ap (take room) (sym nothing)))
  round-Ends false true rest ha hb empty ih =
      inr (ap (λ k. filled (buf ++ take k unread)) (ground (arith, length-grown)))
  round-Ends false false rest ha hb empty ih =
      subst (Ends rest) grown-rest (ih (ground arith) (ground (arith, length-grown)))

-- With fuel for the room that is left and one round more, the loop ends: it fails where a read
-- fails, and otherwise has filled the room, or taken all that is left, however short the reads were.
pub fill_lem :
    (chunk : ℕ → Option ℕ) (fuel i room : ℕ) (buf unread : List ℕ)
    → length buf + room ≡ buf_size
    → 0 < room
    → room < fuel
    → (fill chunk fuel i buf unread ≡ read_failed)
      ⊎ (fill chunk fuel i buf unread ≡ filled (buf ++ take room unread))
unfolding fill
fill_lem chunk zero i room buf unread fits some_room enough = absurd (omega arith)
fill_lem chunk (suc fuel) i room buf unread fits some_room enough = elim (Option-cases (chunk i)) [
  | inl e ↦ rw (e, fill) (inl refl)
  | inr (k, e) ↦
      let n = taken k in
      rw (e, fill)
        (round-Ends n room buf unread fits (omega arith) (omega arith) _ _
          (fill chunk fuel (i + 1) (buf ++ take n unread) (drop n unread)) refl refl
          (λ nothing. nil_of_length unread (omega (arith, nothing)))
          λ moved more.
            fill_lem chunk fuel (i + 1) (buf_size - length (buf ++ take n unread))
              (buf ++ take n unread) (drop n unread) (omega (arith, more)) (omega (arith, more))
              (omega (
                arith,
                moved,
                more,
                length-grown n room buf unread fits (omega arith) (omega arith),
              )))
]
  where
    taken : ℕ → ℕ
    taken k = min (k + 1) (min (buf_size - length buf) (length unread))
