-- ===== src/Config/Peers/Stores.antt =====
-- Peers of different plain ids, stored one after another in an empty directory.
use rustdesk_server_demo.Prelude.{
  ℕ, ◌≡◌, ◌≢◌, refl, sym, ap, ◌∙◌, Bool, true, false, Option, none, some, String, List, [], ◌∷◌,
  ◌++◌, append-nil, append_assoc, str_eq, map, if◌then◌else◌, arith,
}
use rustdesk_server_demo.Prelude.HashMap
use rustdesk_server_demo.Prelude.HashMap.{HashMap, get-insert, str_ne, str_refl}
use rustdesk_server_demo.Prelude.Strings.{is_empty}
use rustdesk_server_demo.Config.Peers.{
  PeerConfig, ConfyPath, Saved, Dir, path, put, content_of, names, store,
}
use rustdesk_server_demo.Config.Peers.Names.{file_stem, with_toml_inj}

-- A peer that is stored, and when.
pub record Stored : Type 0 where
  pub id : String
  pub time : ℕ
  pub config : PeerConfig

abbrev pub All {ℓ} : (Stored → Type ℓ) → List Stored → Type ℓ
All P [] = Unit
All P (x ∷ xs) = P x × All P xs

-- The name of the file gives the id back.
abbrev pub IsPlain : Stored → Type 0
IsPlain x = (is_empty x.id ≡ false) × (file_stem x.id ≡ x.id)

abbrev pub Distinct : List Stored → Type 0
Distinct [] = Unit
Distinct (x ∷ xs) = All (λ y. x.id ≢ y.id) xs × Distinct xs

pub All-map₂ :
    {P Q R : Stored → Type 0}
    → ((x : Stored) → P x → Q x → R x)
    → (xs : List Stored) → All P xs
    → All Q xs
    → All R xs
All-map₂ f [] h k = tt
All-map₂ f (x ∷ xs) (h, hs) (k, ks) = (f x h k, All-map₂ f xs hs ks)

-- Plain ids that differ have files that differ.
pub path-ne : (x y : Stored) → IsPlain x → IsPlain y → x.id ≢ y.id → path x.id ≢ path y.id
unfolding path
path-ne x y (_, px) (_, py) differ same =
    differ (sym px ∙ with_toml_inj (file_stem x.id) (file_stem y.id) same ∙ py)

missing_cons :
    {A : Type 0} (b : Bool) (w : A) (o : Option A)
    → (if b then some w else o) ≡ none
    → (b ≡ false) × (o ≡ none)
missing_cons true w o h = absurd (ground arith)
missing_cons false w o h = (refl, h)

module _ {File : Type 0} where
  names-insert :
      (m : Dir File) (k : String) (v : Saved File)
      → HashMap.get m k ≡ none
      → names (HashMap.insert m k v) ≡ names m ++ k ∷ []
  unfolding HashMap.get HashMap.insert
  names-insert [] k v h = refl
  names-insert ((j, w) ∷ m) k v h =
      let (differ, rest) = missing_cons (str_eq j k) w (HashMap.get m k) h in
      ap (λ b. names (if b then (j, v) ∷ m else (j, w) ∷ HashMap.insert m k v)) differ
      ∙ ap (◌∷◌ j) (names-insert m k v rest)

  get-insert_self :
      (m : Dir File) (k : String) (v : Saved File) → HashMap.get (HashMap.insert m k v) k ≡ some v
  get-insert_self m k v =
      get-insert m k k v ∙ ap (λ b. if b then some v else HashMap.get m k) (str_refl k)

  get-insert_other :
      (m : Dir File) (k j : String) (v : Saved File)
      → k ≢ j
      → HashMap.get (HashMap.insert m k v) j ≡ HashMap.get m j
  get-insert_other m k j v differ =
      get-insert m k j v ∙ ap (λ b. if b then some v else HashMap.get m j) (str_ne k j differ)

module _ {File : Type 0} (confy : ConfyPath File) where
  -- The store succeeds where there is no file yet.
  abbrev pub IsStored : Stored → Type 0
  IsStored x = (confy.store_path x.config none).1 ≡ true

  unfoldable pub stores : Dir File → List Stored → Dir File
  unfolding store
  stores dir [] = dir
  stores dir (x ∷ xs) = stores (store confy dir x.time x.config x.id) xs

  -- The file of the peer is there.
  abbrev pub Holds : Dir File → Stored → Type 0
  Holds dir x =
      (s : Saved File) × (HashMap.get dir (path x.id) ≡ some s)
      × (confy.load_path s.content ≡ some x.config)
      × (s.modified ≡ x.time)

  -- What a store of a new peer does.
  pub store_new :
      (dir : Dir File) (x : Stored)
      → HashMap.get dir (path x.id) ≡ none
      → IsStored x
      → (s : Saved File) × (store confy dir x.time x.config x.id ≡ HashMap.insert dir (path x.id) s)
        × (confy.load_path s.content ≡ some x.config)
        × (s.modified ≡ x.time)
  unfolding store
  store_new dir x new ok =
      let (file, written, back) = confy.load-store x.config none ok in
      (
        record { content = file; modified = x.time },
        ap (λ o. put dir (path x.id) x.time (confy.store_path x.config (content_of o)).0) new
            ∙ ap (put dir (path x.id) x.time) written,
        back,
        refl,
      )

  -- The names that the stores leave alone.
  abbrev Elsewhere : List Stored → String → Type 0
  Elsewhere xs p = All (λ y. path y.id ≢ p) xs

  abbrev New : Dir File → List Stored → Type 0
  New dir xs = All (λ y. HashMap.get dir (path y.id) ≡ none) xs

  still-New :
      (x : Stored) (xs : List Stored) (dir : Dir File) (s : Saved File)
      → store confy dir x.time x.config x.id ≡ HashMap.insert dir (path x.id) s
      → All (λ y. path x.id ≢ path y.id) xs
      → New dir xs
      → New (store confy dir x.time x.config x.id) xs
  still-New x xs dir s same =
      All-map₂
        (λ y other new.
          ap (λ d. HashMap.get d (path y.id)) same
          ∙ get-insert_other dir (path x.id) (path y.id) s other
          ∙ new)
        xs

  stores-frame :
      (xs : List Stored) (dir : Dir File) (p : String)
      → All IsStored xs
      → All IsPlain xs
      → Distinct xs
      → New dir xs
      → Elsewhere xs p
      → HashMap.get (stores dir xs) p ≡ HashMap.get dir p
  unfolding stores
  stores-frame [] dir p ok plain distinct new other = refl
  stores-frame (x ∷ xs) dir p (ok, oks) (plain, plains) (differ, distinct) (new, news)
        (other, others) =
      let (s, same, _, _) = store_new dir x new ok in
      stores-frame xs (store confy dir x.time x.config x.id) p oks plains distinct
        (still-New x xs dir s same (All-map₂ (λ y. path-ne x y plain) xs plains differ) news) others
      ∙ ap (λ d. HashMap.get d p) same
      ∙ get-insert_other dir (path x.id) p s other

  pub stores-Holds :
      (xs : List Stored) (dir : Dir File)
      → All IsStored xs
      → All IsPlain xs
      → Distinct xs
      → New dir xs
      → All (Holds (stores dir xs)) xs
        × (names (stores dir xs) ≡ names dir ++ map (λ x. path x.id) xs)
  unfolding stores
  stores-Holds [] dir ok plain distinct new = (tt, sym (append-nil (names dir)))
  stores-Holds (x ∷ xs) dir (ok, oks) (plain, plains) (differ, distinct) (new, news) =
      let (s, same, back, at) = store_new dir x new ok in
      let dir1 = store confy dir x.time x.config x.id in
      let paths = All-map₂ (λ y. path-ne x y plain) xs plains differ in
      let news1 = still-New x xs dir s same paths news in
      let (holds, listed) = stores-Holds xs dir1 oks plains distinct news1 in
      let there =
        stores-frame xs dir1 (path x.id) oks plains distinct news1
          (All-map₂ (λ y other _ back'. other (sym back')) xs paths plains)
        ∙ ap (λ d. HashMap.get d (path x.id)) same
        ∙ get-insert_self dir (path x.id) s in
      (
        ((s, there, back, at), holds),
        listed
            ∙ ap (λ d. names d ++ map (λ y. path y.id) xs) same
            ∙ ap (λ l. l ++ map (λ y. path y.id) xs) (names-insert dir (path x.id) s new)
            ∙ append_assoc (names dir) (path x.id ∷ []) (map (λ y. path y.id) xs),
      )
