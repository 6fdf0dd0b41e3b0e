-- ===== src/Prelude/HashMap.antt =====
-- `HashMap<String, V>` as a list of entries in the order of iteration, which stands for any order.
use Prim.Native.String.{String}
use mathlib.Core.Path.{◌≡◌, refl}
use mathlib.Core.Bool.{true, false}
use mathlib.Core.Logic.{◌≢◌, inl, inr}
use mathlib.Core.Option.{Option, none, some}
use mathlib.Core.List.{List, [], ◌∷◌}
use native.Mathlib.Omega.{arith}
use text.Mathlib.Text.{◌==◌}
use text.Mathlib.TextEquality.{eq_iff}
use rustdesk_server_demo.Prelude.Tests.{Bool-cases, if◌then◌else◌}

abbrev pub HashMap {ℓ} : Type ℓ → Type ℓ
HashMap V = List (String × V)

module _ {ℓ} {V : Type ℓ} where
  unfoldable pub get : HashMap V → String → Option V
  get [] k = none
  get ((j, v) ∷ m) k = if j == k then some v else get m k

  -- The value of a key that is there is replaced.
  unfoldable pub insert : HashMap V → String → V → HashMap V
  insert [] k v = (k, v) ∷ []
  insert ((j, w) ∷ m) k v = if j == k then (j, v) ∷ m else (j, w) ∷ insert m k v

  unfoldable pub remove : HashMap V → String → HashMap V
  remove [] k = []
  remove ((j, v) ∷ m) k = let rest = remove m k in if j == k then rest else (j, v) ∷ rest

  pub get-insert :
      (m : HashMap V) (k j : String) (v : V)
      → get (insert m k v) j ≡ (if k == j then some v else get m j)
  unfolding get insert
  get-insert [] k j v = refl
  get-insert ((i, w) ∷ m) k j v =
      ground (arith, get-insert m k j v, eq_iff i k, eq_iff i j, eq_iff k j)

  pub get-remove :
      (m : HashMap V) (k j : String) → get (remove m k) j ≡ (if k == j then none else get m j)
  unfolding get remove
  get-remove [] k j = ground arith
  get-remove ((i, w) ∷ m) k j = ground (arith, get-remove m k j, eq_iff i k, eq_iff i j, eq_iff k j)

pub str_refl : (s : String) → (s == s) ≡ true
str_refl s = (eq_iff s s).1 refl

pub str_ne : (s t : String) → s ≢ t → (s == t) ≡ false
str_ne s t differ = elim (Bool-cases (s == t)) [
  | inl same ↦ absurd (differ ((eq_iff s t).0 same))
  | inr other ↦ other
]
