-- ===== src/Version.antt =====
-- `get_version_from_url` of libs/hbb_common/src/lib.rs: the version in the name of a download. A
-- `&str` is the list of its characters, by their code points.
pub mod Cuts
pub mod Names
mod Runs
use mathlib.Core.List.{reverse}
use rustdesk_server_demo.Prelude.{
  ℕ, suc, ◌+◌, ◌-◌, ◌*◌, ◌^◌, Bool, true, false, ◌&&◌, Option, none, some, List, [], ◌∷◌, ltb, leb,
  ◌==◌, if◌then◌else◌, length, take, drop,
}

-- The code points of `-`, `.`, `+` and `0`.
abbrev pub dash : ℕ
dash = 0x2D

abbrev pub dot : ℕ
dot = 0x2E

abbrev pub plus : ℕ
plus = 0x2B

abbrev pub zero_digit : ℕ
zero_digit = 0x30

-- `enumerate().filter(|(_, x)| x == &c).next().map(|(i, _)| i)`, from the index `i` on.
unfoldable pub first_index : ℕ → ℕ → List ℕ → Option ℕ
first_index i c [] = none
first_index i c (x ∷ xs) = if x == c then some i else first_index (i + 1) c xs

-- The value of a sequence of decimal digits, if all are.
unfoldable pub digits_value : ℕ → List ℕ → Option ℕ
digits_value n [] = some n
digits_value n (x ∷ xs) =
    if leb zero_digit x && leb x (zero_digit + 9)
    then digits_value (n * 10 + (x - zero_digit)) xs
    else none

abbrev at_most : ℕ → Option ℕ → Bool
at_most most none = false
at_most most (some n) = leb n most

-- The digits after the sign; without a digit there is no number.
unfoldable pub magnitude_is_ok : ℕ → List ℕ → Bool
unfolding digits_value
magnitude_is_ok most [] = false
magnitude_is_ok most (x ∷ xs) = at_most most (digits_value 0 (x ∷ xs))

-- `parse::<i32>().is_ok()`.
unfoldable pub parse_i32_is_ok : List ℕ → Bool
unfolding magnitude_is_ok
parse_i32_is_ok [] = false
parse_i32_is_ok (x ∷ xs) =
    if x == dash
    then magnitude_is_ok (2 ^ 31) xs
    else if x == plus
    then magnitude_is_ok (2 ^ 31 - 1) xs
    else magnitude_is_ok (2 ^ 31 - 1) (x ∷ xs)

-- The body on the places of the last dash and of the last dot, counted from the end.
unfoldable pub version_at : List ℕ → Option ℕ → Option ℕ → List ℕ
unfolding parse_i32_is_ok
version_at url (some a) (some b) =
    let n = length url in
    if ltb b a
    then if parse_i32_is_ok (drop (n - b) url)
      then drop (n - a) url
      else take (a - b - 1) (drop (n - a) url)
    else drop (n - a) url
version_at url _ _ = []

unfoldable pub get_version_from_url : List ℕ → List ℕ
unfolding first_index version_at
get_version_from_url url =
    version_at url (first_index 0 dash (reverse url)) (first_index 0 dot (reverse url))
