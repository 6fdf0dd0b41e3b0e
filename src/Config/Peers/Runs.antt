-- ===== src/Config/Peers/Runs.antt =====
-- The theorems on the list of peers, with a toy of confy that keeps the value and an insertion sort.
use mathlib.Core.List.{Perm}
use mathlib.Core.List.Perm
use rustdesk_server_demo.Prelude.{
  ◌≤◌, ◌≡◌, ◌≢◌, refl, Bool, true, false, inr, none, some, String, List, [], ◌∷◌, leb, str_eq,
  if◌then◌else◌, arith,
}
use text.Mathlib.Text.{◌==◌}
use text.Mathlib.TextEquality.{eq_iff}
use rustdesk_server_demo.Prelude.HashMap
use rustdesk_server_demo.Config.Peers.{
  PeerConfig, default_peer, ConfyPath, Peer, path, store, peers,
}
use rustdesk_server_demo.Config.Peers.Names.{file_stem}
use rustdesk_server_demo.Config.Peers.Stores.{Stored, All, stores}
use rustdesk_server_demo.Config.Peers.Sweep.{Latest, Sorts, listed, Swept, peers-stores}
use rustdesk_server_demo.Config.Peers.Forgets.{peers-dotted}

abbrev toy : ConfyPath PeerConfig
toy = record {
  load_path = λ f. some f;
  load_missing = (some default_peer, some default_peer);
  store_path = λ cfg old. (some cfg, true);
  load-store = λ cfg old ok. (cfg, refl, refl);
  load_missing_default = inr refl;
}

insert : Peer → List Peer → List Peer
insert x [] = x ∷ []
insert x (y ∷ ys) = if leb y.1 x.1 then x ∷ y ∷ ys else y ∷ insert x ys

sorted : List Peer → List Peer
sorted [] = []
sorted (x ∷ xs) = insert x (sorted xs)

insert-perm : (x : Peer) (l : List Peer) → Perm (insert x l) (x ∷ l)
unfolding insert
insert-perm x [] = Perm.rfl
insert-perm x (y ∷ ys) = by_test (leb y.1 x.1) (insert-perm x ys)
  where
    by_test :
        (b : Bool)
        → Perm (insert x ys) (x ∷ ys)
        → Perm (if b then x ∷ y ∷ ys else y ∷ insert x ys) (x ∷ y ∷ ys)
    by_test true rest = Perm.rfl
    by_test false rest = Perm.trans (Perm.cons y rest) (Perm.swap x y ys)

sorted-perm : (l : List Peer) → Perm (sorted l) l
unfolding sorted
sorted-perm [] = Perm.rfl
sorted-perm (x ∷ xs) = Perm.trans (insert-perm x (sorted xs)) (Perm.cons x (sorted-perm xs))

-- Below an earlier peer too.
insert-Latest : (x a : Peer) (l : List Peer) → x.1 ≤ a.1 → Latest (a ∷ l) → Latest (a ∷ insert x l)
unfolding insert
insert-Latest x a [] le h = (le, tt)
insert-Latest x a (y ∷ ys) le (below, rest) = by_test (leb y.1 x.1) refl (insert-Latest x y ys)
  where
    by_test :
        (b : Bool)
        → leb y.1 x.1 ≡ b
        → (x.1 ≤ y.1 → Latest (y ∷ ys) → Latest (y ∷ insert x ys))
        → Latest (a ∷ (if b then x ∷ y ∷ ys else y ∷ insert x ys))
    by_test true e ih = (le, (ground arith, rest))
    by_test false e ih = (below, ih (ground arith) rest)

insert_first-Latest : (x : Peer) (l : List Peer) → Latest l → Latest (insert x l)
unfolding insert
insert_first-Latest x [] h = tt
insert_first-Latest x (y ∷ ys) h = by_test (leb y.1 x.1) refl
  where
    by_test : (b : Bool) → leb y.1 x.1 ≡ b → Latest (if b then x ∷ y ∷ ys else y ∷ insert x ys)
    by_test true e = (ground arith, h)
    by_test false e = insert-Latest x y ys (ground arith) h

sorted-Latest : (l : List Peer) → Latest (sorted l)
unfolding sorted
sorted-Latest [] = tt
sorted-Latest (x ∷ xs) = insert_first-Latest x (sorted xs) (sorted-Latest xs)

sorted-Sorts : Sorts sorted
sorted-Sorts = record { perm = sorted-perm; latest = sorted-Latest }

abbrev on_linux : PeerConfig
on_linux = record default_peer {
  info = record { username = "u"; hostname = "h"; platform = "Linux" };
}

abbrev stored : List Stored
stored =
    record { id = "123"; time = 5; config = on_linux }
    ∷ record { id = "456"; time = 7; config = default_peer }
    ∷ record { id = ".x"; time = 9; config = on_linux }
    ∷ []

abbrev refuses : String → Bool
refuses p = str_eq p "456.toml"

differ : (s t : String) → (s == t) ≡ false → s ≢ t
differ s t h same = ground (arith, eq_iff s t)

peers-stores_example :
    let (found, end) = peers toy refuses sorted true (stores toy [] stored) 20 in
    Perm found (("123", 5, on_linux.info) ∷ (".x", 9, on_linux.info) ∷ [])
    × Latest found
    × All (Swept toy refuses end 20) stored
unfolding listed file_stem
peers-stores_example =
    peers-stores toy refuses sorted stored 20 sorted-Sorts (refl, (refl, (refl, tt)))
      ((refl, refl), ((refl, refl), ((refl, refl), tt)))
      ((differ _ _ refl, (differ _ _ refl, tt)), ((differ _ _ refl, tt), (tt, tt)))

peers-dotted_example :
    let dir = store toy [] 5 on_linux "192.168.1.2" in
    let (found, end) = peers toy (λ p. true) sorted true dir 20 in
    (found ≡ []) × (HashMap.get end (path "192.168.1.2") ≡ none)
unfolding file_stem
peers-dotted_example =
    peers-dotted toy (λ p. true) sorted (record { id = "192.168.1.2"; time = 5; config = on_linux })
      20 sorted-Sorts refl refl (differ _ _ refl)
