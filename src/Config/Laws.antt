-- ===== src/Config/Laws.antt =====
-- What the getters read after the setters.
use rustdesk_server_demo.Prelude.{
  ◌≡◌, refl, sym, ap, ◌∙◌, Bool, true, false, ◌||◌, Option, none, some, String, [], str_eq, eq_iff,
  if◌then◌else◌, arith,
}
use rustdesk_server_demo.Prelude.HashMap
use rustdesk_server_demo.Prelude.HashMap.{get-insert, get-remove, str_refl}
use rustdesk_server_demo.Prelude.Int.{ℤ, pos, less, equal→≡}
use rustdesk_server_demo.Prelude.Strings.{is_empty→≡}
use rustdesk_server_demo.Config.{Config, Config2, Size, Confy, State, store, store2}
use rustdesk_server_demo.Config.Setters.{
  bool_eq, size_eq, is_true, or_empty, non_empty, option_eq, with_option, server_key, forget_server,
  get_key_confirmed, get_host_key_confirmed, get_option, get_size, set_key_confirmed,
  set_host_key_confirmed, set_option, set_size,
}

option_eq→≡ : (o p : Option String) → option_eq o p ≡ true → o ≡ p
option_eq→≡ none none h = refl
option_eq→≡ (some v) (some w) h = ap some ((eq_iff v w).0 h)
option_eq→≡ none (some w) h = absurd (ground arith)
option_eq→≡ (some v) none h = absurd (ground arith)

size_eq→≡ : (a b : Size) → size_eq a b ≡ true → a ≡ b
size_eq→≡ (x, y, w, h) (x', y', w', h') e =
    ground (arith, equal→≡ x x', equal→≡ y y', equal→≡ w w', equal→≡ h h')

or_empty-non_empty : (v : String) → or_empty (non_empty v) ≡ v
or_empty-non_empty v = ground (arith, is_empty→≡ v)

or_empty-if :
    (b : Bool) (v : String) (o : Option String)
    → or_empty (if b then non_empty v else o) ≡ (if b then v else or_empty o)
or_empty-if true v o = or_empty-non_empty v
or_empty-if false v o = refl

options-forget_server : (c : Config2) (k : String) → (forget_server c k).options ≡ c.options
unfolding forget_server
options-forget_server c k = ground arith

get-with_option :
    (m : HashMap.HashMap String) (k j : String) (o : Option String)
    → HashMap.get (with_option m k o) j ≡ (if str_eq k j then o else HashMap.get m j)
get-with_option m k j none = get-remove m k j
get-with_option m k j (some v) = get-insert m k j v

unchanged :
    (m : HashMap.HashMap String) (k j : String) (o : Option String)
    → o ≡ HashMap.get m k
    → HashMap.get m j ≡ (if str_eq k j then o else HashMap.get m j)
unchanged m k j o h = by_test (str_eq k j) refl
  where
    by_test : (b : Bool) → str_eq k j ≡ b → HashMap.get m j ≡ (if b then o else HashMap.get m j)
    by_test true e = ap (HashMap.get m) (sym ((eq_iff k j).0 e)) ∙ sym h
    by_test false e = refl

module _ {File : Type 0} (confy2 : Confy Config2 File) where
  -- The options after `set_option`, whichever branch it takes.
  options_after :
      (s : State File) (k v j : String)
      → HashMap.get (set_option confy2 s k v).config2.options j
        ≡ (if str_eq k j then non_empty v else HashMap.get s.config2.options j)
  unfolding set_option store2
  options_after s k v j = by_test _ refl
    where
      config : Config2
      config = forget_server s.config2 k

      old : HashMap.get config.options j ≡ HashMap.get s.config2.options j
      old = ap (λ m. HashMap.get m j) (options-forget_server s.config2 k)

      by_test :
          (b : Bool)
          → option_eq (non_empty v) (HashMap.get config.options k) ≡ b
          → HashMap.get
              (if b
                then record s { config2 = config }
                else store2 confy2 s (record config {
                  options = with_option config.options k (non_empty v);
                })).config2.options
              j
            ≡ (if str_eq k j then non_empty v else HashMap.get s.config2.options j)
      by_test true h =
          old
          ∙ unchanged s.config2.options k j (non_empty v)
              (option_eq→≡ _ _ h ∙ ap (λ m. HashMap.get m k) (options-forget_server s.config2 k))
      by_test false h =
          get-with_option config.options k j (non_empty v)
          ∙ ap (λ o. if str_eq k j then non_empty v else o) old

  -- `set_option` then `get_option`: the value under its own key (the empty one where the key was
  -- removed), the old value under every other; and the stored rendezvous server is forgotten with the key
  -- custom-rendezvous-server, even where the value does not change.
  pub set_option_lem :
      (s : State File) (k v : String)
      → ((j : String)
          → get_option (set_option confy2 s k v) j ≡ (if str_eq k j then v else get_option s j))
        × ((set_option confy2 s k v).config2.rendezvous_server
            ≡ (if str_eq k server_key then "" else s.config2.rendezvous_server))
  unfolding get_option set_option store2 forget_server
  set_option_lem s k v = (
    λ j.
        ap or_empty (options_after s k v j)
        ∙ or_empty-if (str_eq k j) v (HashMap.get s.config2.options j),
    ground arith,
  )

  -- `set_size` keeps the old size if the new width or height is under 300, and else takes the new one.
  pub set_size_lem :
      (s : State File) (x y w h : ℤ)
      → get_size (set_size confy2 s x y w h)
        ≡ (if less w (pos 300) || less h (pos 300) then get_size s else (x, y, w, h))
  unfolding set_size get_size store2
  set_size_lem s x y w h = ground (arith, size_eq→≡ (x, y, w, h) s.config2.size)

is_true-same : (b v : Bool) → bool_eq b v ≡ true → b ≡ v
is_true-same true v h = sym h
is_true-same false false h = refl
is_true-same false true h = absurd (ground arith)

is_true-if :
    (b v : Bool) (o : Option Bool)
    → is_true (if b then some v else o) ≡ (if b then v else is_true o)
is_true-if true true o = refl
is_true-if true false o = refl
is_true-if false v o = refl

module _ {File : Type 0} (confy : Confy Config File) where
  set_host :
      (s : State File) (host : String) (v : Bool) (j : String) (same : Bool)
      → bool_eq (get_host_key_confirmed s host) v ≡ same
      → get_host_key_confirmed
          (if same
            then s
            else store confy s (record s.config {
              keys_confirmed = HashMap.insert s.config.keys_confirmed host v;
            }))
          j
        ≡ (if str_eq host j then v else get_host_key_confirmed s j)
  unfolding get_host_key_confirmed store
  set_host s host v j true h =
      ground (
        arith,
        eq_iff host j,
        is_true-same (is_true (HashMap.get s.config.keys_confirmed host)) v h,
      )
  set_host s host v j false h =
      ap is_true (get-insert s.config.keys_confirmed host j v)
      ∙ is_true-if (str_eq host j) v (HashMap.get s.config.keys_confirmed j)

  clear_hosts :
      (s : State File) (j : String) (b : Bool)
      → get_host_key_confirmed
          (if bool_eq b false
            then s
            else store confy s (record s.config { key_confirmed = false; keys_confirmed = [] }))
          j
        ≡ (if b then false else get_host_key_confirmed s j)
  unfolding get_host_key_confirmed store HashMap.get
  clear_hosts s j true = refl
  clear_hosts s j false = refl

  -- `set_host_key_confirmed` sets what `get_host_key_confirmed` reads for its host and for no other.
  -- `set_key_confirmed(false)` leaves no host confirmed if the key was confirmed, and otherwise leaves
  -- the hosts as they are.
  pub host_keys :
      (s : State File) (j : String)
      → ((host : String) (v : Bool)
          → get_host_key_confirmed (set_host_key_confirmed confy s host v) j
            ≡ (if str_eq host j then v else get_host_key_confirmed s j))
        × (get_host_key_confirmed (set_key_confirmed confy s false) j
            ≡ (if get_key_confirmed s then false else get_host_key_confirmed s j))
  unfolding set_host_key_confirmed get_key_confirmed set_key_confirmed
  host_keys s j = (λ host v. set_host s host v j _ refl, clear_hosts s j s.config.key_confirmed)
