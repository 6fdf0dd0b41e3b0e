-- ===== src/Prelude/Strings.antt =====
-- What the code uses of `String`: tests, `split` and decimal printing.
use Prim.Native.Nat.{ℕ, zero, suc, ◌/◌, ◌%◌}
use Prim.Native.Char.{Char, char, code, nul}
use Prim.Native.String.{String, [] as empty, ◌∷◌ as cons, ◌++◌}
use mathlib.Core.Path.{◌≡◌, refl}
use mathlib.Core.Bool.{Bool, true, false, ◌||◌}
use mathlib.Core.List.{List, [], ◌∷◌}
use text.Mathlib.TextLemmas.{nil-append, cons-append}
use native.Mathlib.Omega.{arith}
use rustdesk_server_demo.Prelude.Tests.{ltb, ◌==◌, if◌then◌else◌}

abbrev pub comma : Char
comma = char 0x2C tt

abbrev pub dot : Char
dot = char 0x2E tt

abbrev pub colon : Char
colon = char 0x3A tt

abbrev pub char_eq : Char → Char → Bool
char_eq c d = code c == code d

unfoldable pub is_empty : String → Bool
is_empty empty = true
is_empty (cons c s) = false

-- `contains` of a pattern of one character.
unfoldable pub contains : Char → String → Bool
contains d empty = false
contains d (cons c s) = char_eq c d || contains d s

abbrev pub onto_first : Char → List String → List String
onto_first c [] = cons c empty ∷ []
onto_first c (part ∷ parts) = cons c part ∷ parts

-- `split` at a separator of one character: the parts, empty ones too.
unfoldable pub split : Char → String → List String
split d empty = empty ∷ []
split d (cons c s) = let rest = split d s in if char_eq c d then empty ∷ rest else onto_first c rest

-- The character at an index; the callers stay inside.
abbrev pub nth : String → ℕ → Char
nth empty i = nul
nth (cons c s) zero = c
nth (cons c s) (suc i) = nth s i

abbrev digit : ℕ → String
digit n = cons (nth "0123456789" n) empty

-- The digits of `n`, as many as `fuel` allows and one more.
unfoldable print : ℕ → ℕ → String
print zero n = digit (n % 10)
print (suc fuel) n =
    let higher = print fuel (n / 10) in if ltb n 10 then digit n else higher ++ digit (n % 10)

-- `to_string` of an unsigned word: 20 digits are enough for 64 bits.
unfoldable pub to_string : ℕ → String
unfolding print
to_string n = print 19 n

run_split : split comma "a.b,,c" ≡ "a.b" ∷ "" ∷ "c" ∷ []
unfolding split
run_split = refl

run_print : to_string 21116 ≡ "21116"
unfolding to_string
run_print = refl

-- `chars` of characters are collected from the back.
abbrev pub push_front : Char → String → String
push_front c s = cons c s

pub is_empty→≡ : (s : String) → is_empty s ≡ true → s ≡ ""
unfolding is_empty
is_empty→≡ empty h = refl
is_empty→≡ (cons c s) h = absurd (ground arith)

is_empty-append : (a b : String) → is_empty b ≡ false → is_empty (a ++ b) ≡ false
unfolding is_empty
is_empty-append empty b h = rw (nil-append b) h
is_empty-append (cons c a) b h = rw (cons-append c a b) refl

is_empty-print : (fuel n : ℕ) → is_empty (print fuel n) ≡ false
unfolding is_empty print
is_empty-print zero n = refl
is_empty-print (suc fuel) n =
    ground (arith, is_empty-append (print fuel (n / 10)) (digit (n % 10)) refl)

pub is_empty-to_string : (n : ℕ) → is_empty (to_string n) ≡ false
unfolding to_string
is_empty-to_string n = is_empty-print 19 n
