-- ===== src/Config/Peers/Names.antt =====
-- The names of files: `file_stem`, `extension` and `with_extension` of `Path`, on names other than `.`
-- and `..`.
use Prim.Native.Char.{Char}
use Prim.Native.String.{[] as empty, ◌∷◌ as cons}
use text.Mathlib.TextLemmas.{cons-append}
use rustdesk_server_demo.Prelude.{
  Bool, true, false, Option, none, some, String, ◌<>◌, ◌≡◌, refl, sym, ap, ◌∙◌, str_eq, some_inj,
  if◌then◌else◌,
}
use rustdesk_server_demo.Prelude.Strings.{is_empty, char_eq, dot}
use rustdesk_server_demo.Transfer.Paths.{after_dot, after_last_dot}

abbrev before_dot : Char → Option String → Option String
before_dot c (some head) = some (cons c head)
before_dot c none = if char_eq c dot then some "" else none

-- The text before the last dot.
unfoldable before_last_dot : String → Option String
before_last_dot empty = none
before_last_dot (cons c s) = before_dot c (before_last_dot s)

abbrev stem_of : String → Option String → String
stem_of name none = name
stem_of name (some head) = if is_empty head then name else head

-- A name that has its only dot at the start has no extension.
unfoldable pub file_stem : String → String
unfolding before_last_dot is_empty
file_stem name = stem_of name (before_last_dot name)

abbrev extension_of : String → Option String → Option String
extension_of name none = none
extension_of name (some head) = if is_empty head then none else after_last_dot name

unfoldable pub extension : String → Option String
unfolding before_last_dot is_empty after_last_dot
extension name = extension_of name (before_last_dot name)

abbrev is_the : String → Option String → Bool
is_the text none = false
is_the text (some s) = str_eq s text

unfoldable pub is_toml : String → Bool
unfolding extension
is_toml name = is_the "toml" (extension name)

-- `with_extension("toml")`.
abbrev pub with_toml : String → String
with_toml name = file_stem name <> ".toml"

before_last_dot-toml : (s : String) → before_last_dot (s <> ".toml") ≡ some s
unfolding before_last_dot
before_last_dot-toml empty = refl
before_last_dot-toml (cons c s) =
    ap before_last_dot (cons-append c s ".toml") ∙ ap (before_dot c) (before_last_dot-toml s)

after_last_dot-toml : (s : String) → after_last_dot (s <> ".toml") ≡ some "toml"
unfolding after_last_dot
after_last_dot-toml empty = refl
after_last_dot-toml (cons c s) =
    ap after_last_dot (cons-append c s ".toml")
    ∙ ap (after_dot c (s <> ".toml")) (after_last_dot-toml s)

-- The stem of what `with_extension` makes.
pub file_stem-toml : (s : String) → is_empty s ≡ false → file_stem (s <> ".toml") ≡ s
unfolding file_stem
file_stem-toml s some_text =
    ap (stem_of (s <> ".toml")) (before_last_dot-toml s)
    ∙ ap (λ b. if b then s <> ".toml" else s) some_text

pub is_toml-toml : (s : String) → is_empty s ≡ false → is_toml (s <> ".toml") ≡ true
unfolding is_toml
is_toml-toml s some_text =
    ap (λ o. is_the "toml" (extension_of (s <> ".toml") o)) (before_last_dot-toml s)
    ∙ ap (λ b. is_the "toml" (if b then none else after_last_dot (s <> ".toml"))) some_text
    ∙ ap (is_the "toml") (after_last_dot-toml s)

pub with_toml_inj : (s t : String) → (s <> ".toml") ≡ (t <> ".toml") → s ≡ t
with_toml_inj s t same =
    some_inj s t (sym (before_last_dot-toml s) ∙ ap before_last_dot same ∙ before_last_dot-toml t)

stem_run : file_stem "192.168.1.2" ≡ "192.168.1"
unfolding file_stem
stem_run = refl

toml_run : is_toml "a.toml" ≡ true
unfolding is_toml
toml_run = refl
