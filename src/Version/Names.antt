-- ===== src/Version/Names.antt =====
-- `get_version_from_url` is a function on the text before and after its last dash and last dot.
use mathlib.Core.List.{reverse}
use mathlib.Core.Path.{subst}
use rustdesk_server_demo.Prelude.{
  ℕ, ◌+◌, ◌-◌, ◌≤◌, ◌≡◌, refl, ap, ◌∙◌, sym, false, inl, inr, Option, none, some, List, [], ◌∷◌,
  ◌++◌, ◌==◌, lt→ltb, le→ltb, if◌then◌else◌, length, take, drop, All-append, length-append,
  append_assoc, take-length_append, arith,
}
use rustdesk_server_demo.Version.{
  dash, dot, first_index, parse_i32_is_ok, version_at, get_version_from_url,
}
use rustdesk_server_demo.Version.Cuts.{
  last_cut, Free, Cut, cut, first_index-none, first_index-cut, last_cut-Free, last_cut-append,
  drop-cut,
}

abbrev without_extension : List ℕ → Option (List ℕ × List ℕ) → List ℕ
without_extension name none = name
without_extension name (some (stem, ext)) = if parse_i32_is_ok ext then name else stem

abbrev after_dash : Option (List ℕ × List ℕ) → Option (List ℕ × List ℕ) → List ℕ
after_dash none _ = []
after_dash (some _) none = []
after_dash (some (front, name)) (some _) = without_extension name (last_cut dot name)

-- What follows the last dash, in a text that has a dot, less an extension that is no number.
unfoldable pub version : List ℕ → List ℕ
unfolding last_cut
version url = after_dash (last_cut dash url) (last_cut dot url)

module _ (front stem ext : List ℕ) where
  abbrev named : List ℕ
  named = stem ++ dot ∷ ext

  abbrev whole : List ℕ
  whole = front ++ dash ∷ named

  long : length whole ≡ length front + 1 + length stem + 1 + length ext
  long = omega (arith, length-append front (dash ∷ named), length-append stem (dot ∷ ext))

  split_at_dot : (front ++ dash ∷ stem) ++ dot ∷ ext ≡ whole
  split_at_dot = append_assoc front (dash ∷ stem) (dot ∷ ext)

  extension_part : drop (length whole - length ext) whole ≡ ext
  extension_part =
      ap (λ ys. drop (length whole - length ext) ys) (sym split_at_dot)
      ∙ drop-cut dot (length whole - length ext) (front ++ dash ∷ stem) ext
          (omega (arith, long, length-append front (dash ∷ stem)))

  name_part : drop (length whole - length named) whole ≡ named
  name_part =
      drop-cut dash (length whole - length named) front named
        (omega (arith, long, length-append stem (dot ∷ ext)))

  stem_part : take (length named - length ext - 1) named ≡ stem
  stem_part =
      ap (λ n. take n named) (omega (arith, length-append stem (dot ∷ ext)))
      ∙ take-length_append stem (dot ∷ ext)

  version_at-extension :
      version_at whole (some (length named)) (some (length ext))
      ≡ (if parse_i32_is_ok ext then named else stem)
  unfolding version_at
  version_at-extension =
      rw (lt→ltb (length ext) (length named) (omega (arith, length-append stem (dot ∷ ext))))
        (rw extension_part (rw name_part (rw stem_part refl)))

version_at-no_extension :
    (front name : List ℕ) (b : ℕ)
    → length name ≤ b
    → version_at (front ++ dash ∷ name) (some (length name)) (some b) ≡ name
unfolding version_at
version_at-no_extension front name b h = rw (le→ltb b (length name) h) (
    drop-cut dash (length (front ++ dash ∷ name) - length name) front name
      (omega (arith, length-append front (dash ∷ name))))

version_at-no_dot : (url : List ℕ) (a : ℕ) → version_at url (some a) none ≡ []
unfolding version_at
version_at-no_dot url a = refl

version_at-no_dash : (url : List ℕ) (b : Option ℕ) → version_at url none b ≡ []
unfolding version_at
version_at-no_dash url b = refl

by_places :
    (url : List ℕ) {a b : Option ℕ} {at_dash at_dot : Option (List ℕ × List ℕ)}
    → first_index 0 dash (reverse url) ≡ a
    → first_index 0 dot (reverse url) ≡ b
    → last_cut dash url ≡ at_dash
    → last_cut dot url ≡ at_dot
    → version_at url a b ≡ after_dash at_dash at_dot
    → get_version_from_url url ≡ version url
unfolding get_version_from_url version
by_places url ea eb e_dash e_dot same = rw ea (rw eb (rw e_dash (rw e_dot same)))

dot_places :
    (url front back : List ℕ)
    → url ≡ front ++ dot ∷ back
    → Free dot back
    → (first_index 0 dot (reverse url) ≡ some (length back))
      × (last_cut dot url ≡ some (front, back))
dot_places url front back parts free =
    rw parts (first_index-cut dot front back free, last_cut-append dot front back free)

from_extension :
    (front stem ext : List ℕ)
    → Free dash (stem ++ dot ∷ ext)
    → Free dot ext
    → get_version_from_url (whole front stem ext) ≡ version (whole front stem ext)
from_extension front stem ext free dotless =
    let places =
      dot_places (whole front stem ext) (front ++ dash ∷ stem) ext
        (sym (split_at_dot front stem ext)) dotless in
    by_places (whole front stem ext) (first_index-cut dash front (named front stem ext) free)
      places.0 (last_cut-append dash front (named front stem ext) free) places.1
      (version_at-extension front stem ext
        ∙ ap (without_extension (named front stem ext))
            (sym (last_cut-append dot stem ext dotless)))

-- Where the last dash is known, by the dots after it and before it.
from_dash :
    (front name : List ℕ)
    → Free dash name
    → Cut dot name
    → Cut dot front
    → get_version_from_url (front ++ dash ∷ name) ≡ version (front ++ dash ∷ name)
from_dash front name free (inr (stem, ext, _, parts, dotless)) _ =
    rw parts (from_extension front stem ext (subst (Free dash) parts free) dotless)
from_dash front name free (inl (e, dotless)) (inr (q, r, _, parts, after)) =
    let places =
      dot_places (front ++ dash ∷ name) q (r ++ dash ∷ name)
        (ap (λ xs. xs ++ dash ∷ name) parts ∙ append_assoc q (dot ∷ r) (dash ∷ name))
        (All-append (λ x. (x == dot) ≡ false) r (dash ∷ name) after (refl, dotless)) in
    by_places (front ++ dash ∷ name) (first_index-cut dash front name free) places.0
      (last_cut-append dash front name free) places.1
      (version_at-no_extension front name (length (r ++ dash ∷ name))
          (omega (arith, length-append r (dash ∷ name)))
        ∙ ap (without_extension name) (sym e))
from_dash front name free (inl (_, dotless)) (inl (_, before)) =
    let url_Free =
      All-append (λ x. (x == dot) ≡ false) front (dash ∷ name) before (refl, dotless) in
    by_places (front ++ dash ∷ name) (first_index-cut dash front name free)
      (first_index-none dot (front ++ dash ∷ name) url_Free) (last_cut-append dash front name free)
      (last_cut-Free dot (front ++ dash ∷ name) url_Free)
      (version_at-no_dot (front ++ dash ∷ name) (length name))

-- For every url: nothing without a dash or without a dot; else what follows the last dash, less the
-- last dot in it and the extension after that, unless the extension parses as an i32.
pub get_version_from_url-version : (url : List ℕ) → get_version_from_url url ≡ version url
get_version_from_url-version url = by_dash (cut dash url)
  where
    by_dash : Cut dash url → get_version_from_url url ≡ version url
    by_dash (inl (e, free)) =
        by_places url (first_index-none dash url free) refl e refl (version_at-no_dash url _)
    by_dash (inr (front, name, _, parts, free)) =
        rw parts (from_dash front name free (cut dot name) (cut dot front))
