-- ===== src/Config/Paths/Texts.antt =====
-- Texts that end in a slash and a name.
use Prim.Native.String.{[] as empty, ◌∷◌ as cons}
use text.Mathlib.TextLemmas.{nil-append, cons-append}
use rustdesk_server_demo.Prelude.{
  Bool, false, ◌&&◌, ◌||◌, some, String, ◌<>◌, ◌≡◌, refl, sym, ap, ◌∙◌, if◌then◌else◌, arith,
}
use rustdesk_server_demo.Prelude.Strings.{char_eq, contains}
use rustdesk_server_demo.Transfer.Paths.{slash, before_slash, last_slash}
use rustdesk_server_demo.Config.Paths.{
  after_slash, after_last_slash, toml, starts_with, replace_toml,
}

pub after_last_slash-append :
    (s t name : String) → after_last_slash t ≡ some name → after_last_slash (s <> t) ≡ some name
unfolding after_last_slash
after_last_slash-append empty t name h = ap after_last_slash (nil-append t) ∙ h
after_last_slash-append (cons c s) t name h =
    ap after_last_slash (cons-append c s t)
    ∙ ap (after_slash (char_eq c slash) (s <> t)) (after_last_slash-append s t name h)

pub last_slash-append : (s t : String) → last_slash t ≡ some "" → last_slash (s <> t) ≡ some s
unfolding last_slash
last_slash-append empty t h = ap last_slash (nil-append t) ∙ h
last_slash-append (cons c s) t h =
    ap last_slash (cons-append c s t) ∙ ap (before_slash c (s <> t)) (last_slash-append s t h)

or_false : (a b : Bool) → (a || b) ≡ false → (a ≡ false) × (b ≡ false)
or_false a b h = (ground arith, ground arith)

-- A pattern without a slash is not begun by what comes before one and ended by what comes after.
starts_with-slash :
    (p s r : String)
    → contains slash p ≡ false
    → starts_with p (s <> cons slash r) ≡ starts_with p s
unfolding starts_with contains
starts_with-slash empty s r h = refl
starts_with-slash (cons d p) empty r h =
    ap (starts_with (cons d p)) (nil-append (cons slash r)) ∙ ground (arith)
starts_with-slash (cons d p) (cons c s) r h =
    ap (starts_with (cons d p)) (cons-append c s (cons slash r))
    ∙ ap (λ b. char_eq c d && b)
        (starts_with-slash p s r (or_false (char_eq d slash) (contains slash p) h).1)

unfoldable pub contains_toml : String → Bool
unfolding starts_with
contains_toml empty = false
contains_toml (cons c s) = starts_with toml (cons c s) || contains_toml s

-- `replace` leaves what has no `.toml` in it as it is.
pub replace_toml-append :
    (s r : String)
    → contains_toml s ≡ false
    → replace_toml 0 (s <> cons slash r) ≡ s <> replace_toml 0 (cons slash r)
unfolding replace_toml contains_toml contains
replace_toml-append empty r h = ap (replace_toml 0) (nil-append (cons slash r)) ∙ sym (nil-append _)
replace_toml-append (cons c s) r h =
    let (here, later) = or_false (starts_with toml (cons c s)) (contains_toml s) h in
    ap (replace_toml 0) (cons-append c s (cons slash r))
    ∙ ap
        (λ b.
          if b
          then "2.toml" <> replace_toml (if b then 4 else 0) (s <> cons slash r)
          else cons c (replace_toml (if b then 4 else 0) (s <> cons slash r)))
        (ap (starts_with toml) (sym (cons-append c s (cons slash r)))
          ∙ starts_with-slash toml (cons c s) r refl
          ∙ here)
    ∙ ap (cons c) (replace_toml-append s r later)
    ∙ sym (cons-append c s (replace_toml 0 (cons slash r)))
