-- ===== src/Config/Listing.antt =====
-- The list of rendezvous servers that comes with a newer serial is read back from its option.
use rustdesk_server_demo.Prelude.{
  ◌≡◌, refl, ap, ◌∙◌, Bool, true, false, ◌||◌, String, List, [], ◌∷◌, All, arith,
}
use Prim.Native.String.{[] as empty, ◌∷◌ as cons, ◌++◌}
use text.Mathlib.TextLemmas.{nil-append, cons-append}
use rustdesk_server_demo.Prelude.Int.{less}
use rustdesk_server_demo.Prelude.Strings.{is_empty, contains, split, char_eq, comma, dot}
use rustdesk_server_demo.Config.{Config2, Confy, State}
use rustdesk_server_demo.Config.Setters.{get_option, set_option, server_key, serial_const}
use rustdesk_server_demo.Config.Servers.{keep_dotted, listed_servers, get_rendezvous_servers}
use rustdesk_server_demo.Config.Laws.{set_option_lem}

-- A server's name has a dot and no comma.
abbrev pub IsServerName : String → Type 0
IsServerName name = (contains dot name ≡ true) × (contains comma name ≡ false)

abbrev pub join : String → List String → String
join name [] = name
join name (next ∷ names) = name ++ cons comma (join next names)

either : (a b : Bool) → (a || b) ≡ false → (a ≡ false) × (b ≡ false)
either true b h = absurd (ground arith)
either false b h = (refl, h)

split-one : (name : String) → contains comma name ≡ false → split comma name ≡ name ∷ []
unfolding split contains
split-one empty h = refl
split-one (cons c s) h =
    let (differs, others) = either (char_eq c comma) (contains comma s) h in
    rw differs (rw (split-one s others) refl)

split-append :
    (name rest : String)
    → contains comma name ≡ false
    → split comma (name ++ cons comma rest) ≡ name ∷ split comma rest
unfolding split contains
split-append empty rest h = rw (nil-append (cons comma rest)) refl
split-append (cons c s) rest h =
    let (differs, others) = either (char_eq c comma) (contains comma s) h in
    rw (cons-append c s (cons comma rest)) (rw differs (rw (split-append s rest others) refl))

keep-All : (names : List String) → All IsServerName names → keep_dotted names ≡ names
unfolding keep_dotted
keep-All [] _ = refl
keep-All (name ∷ names) (one, others) = rw one.0 (rw (keep-All names others) refl)

split-join :
    (name : String) (names : List String)
    → All IsServerName (name ∷ names)
    → split comma (join name names) ≡ name ∷ names
split-join name [] (one, _) = split-one name one.1
split-join name (next ∷ names) (one, others) =
    split-append name (join next names) one.1
    ∙ ap (λ parts. name ∷ parts) (split-join next names others)

listed_servers-join :
    (name : String) (names : List String)
    → All IsServerName (name ∷ names)
    → listed_servers (join name names) ≡ name ∷ names
unfolding listed_servers
listed_servers-join name names all =
    ap keep_dotted (split-join name names all) ∙ keep-All (name ∷ names) all

module _ {File : Type 0} (confy2 : Confy Config2 File) where
  -- Names that have a dot and no comma, joined by commas and stored with `set_option` under
  -- rendezvous-servers, are what `get_rendezvous_servers` then gives, in their order, if the serial is newer
  -- than the program's and no custom server is set.
  pub set_option_servers :
      (s : State File) (name : String) (names : List String)
      → All IsServerName (name ∷ names)
      → is_empty (get_option s server_key) ≡ true
      → less serial_const
          (set_option confy2 s "rendezvous-servers" (join name names)).config2.serial
        ≡ true
      → get_rendezvous_servers (set_option confy2 s "rendezvous-servers" (join name names))
        ≡ name ∷ names
  unfolding get_rendezvous_servers
  set_option_servers s name names all none_set newer =
      let reads = (set_option_lem confy2 s "rendezvous-servers" (join name names)).0 in
      rw (reads server_key) (
        rw none_set (
          rw newer
            (rw (reads "rendezvous-servers") (rw (listed_servers-join name names all) refl))))
