-- ===== src/Config/Peers/Sweep.antt =====
-- `peers` lists the peers that were stored and have a platform, and removes the files of the others.
use mathlib.Core.Path.{subst}
use mathlib.Core.List.{Perm}
use rustdesk_server_demo.Prelude.{
  ℕ, ◌≤◌, ◌≡◌, ◌≢◌, refl, sym, ap, ◌∙◌, Bool, true, false, not, ◌&&◌, ◌||◌, none, is_some, String,
  List, [], ◌∷◌, ◌⊎◌, Bool-cases, inl, inr, map, if◌then◌else◌,
}
use rustdesk_server_demo.Prelude.HashMap
use rustdesk_server_demo.Prelude.HashMap.{HashMap, get-remove, str_ne, str_refl}
use rustdesk_server_demo.Prelude.Strings.{is_empty}
use rustdesk_server_demo.Config.{load_or}
use rustdesk_server_demo.Config.Peers.{
  PeerConfig, default_peer, ConfyPath, Saved, Dir, Peer, path, keep, swept, modified_of, loaded,
  load, visit, peers,
}
use rustdesk_server_demo.Config.Peers.Names.{file_stem, is_toml, file_stem-toml, is_toml-toml}
use rustdesk_server_demo.Config.Peers.Stores.{
  Stored, All, All-map₂, IsPlain, Distinct, IsStored, Holds, path-ne, stores, stores-Holds,
}

abbrev pub Latest : List Peer → Type 0
Latest [] = Unit
Latest (a ∷ []) = Unit
Latest (a ∷ b ∷ l) = (b.1 ≤ a.1) × Latest (b ∷ l)

-- The contract of `sort_unstable_by`.
pub record Sorts (sort : List Peer → List Peer) : Type 0 where
  pub perm : (l : List Peer) → Perm (sort l) l
  pub latest : (l : List Peer) → Latest (sort l)

abbrev pub has_platform : Stored → Bool
has_platform x = not (is_empty x.config.info.platform)

-- The peers of the list that have a platform.
unfoldable pub listed : List Stored → List Peer
listed [] = []
listed (x ∷ xs) =
    let rest = listed xs in if has_platform x then (x.id, x.time, x.config.info) ∷ rest else rest

module _ {File : Type 0} (confy : ConfyPath File) (removes : String → Bool) where
  load-Holds :
      (dir : Dir File) (now : ℕ) (x : Stored)
      → Holds confy dir x
      → load confy dir now x.id ≡ (x.config, dir)
  unfolding load
  load-Holds dir now x (s, there, back, _) =
      ap (loaded confy dir (path x.id) now) there ∙ ap (λ o. (load_or default_peer o, dir)) back

  -- Whether the file of a peer is there after it was looked at.
  abbrev pub stays : Stored → Bool
  stays x = has_platform x || not (removes (path x.id))

  -- The directory after the file of a peer was looked at.
  abbrev drop_one : Dir File → Stored → Dir File
  drop_one dir x = if stays x then dir else HashMap.remove dir (path x.id)

  swept-stays :
      (dir : Dir File) (x : Stored)
      → swept (removes (path x.id)) (path x.id) (x.config, dir) ≡ drop_one dir x
  swept-stays dir x = by_tests (is_empty x.config.info.platform) (removes (path x.id))
    where
      by_tests :
          (b c : Bool)
          → (if b then if c then HashMap.remove dir (path x.id) else dir else dir)
            ≡ (if not b || not c then dir else HashMap.remove dir (path x.id))
      by_tests true true = refl
      by_tests true false = refl
      by_tests false true = refl
      by_tests false false = refl

  dropped : Dir File → List Stored → Dir File
  dropped dir [] = dir
  dropped dir (x ∷ xs) = dropped (drop_one dir x) xs

  get-drop_one_other :
      (dir : Dir File) (x : Stored) (p : String)
      → path x.id ≢ p
      → HashMap.get (drop_one dir x) p ≡ HashMap.get dir p
  get-drop_one_other dir x p other = by_test (stays x)
    where
      by_test :
          (b : Bool)
          → HashMap.get (if b then dir else HashMap.remove dir (path x.id)) p ≡ HashMap.get dir p
      by_test true = refl
      by_test false =
          get-remove dir (path x.id) p
          ∙ ap (λ c. if c then none else HashMap.get dir p) (str_ne (path x.id) p other)

  get-dropped_other :
      (xs : List Stored) (dir : Dir File) (p : String)
      → All (λ y. path y.id ≢ p) xs
      → HashMap.get (dropped dir xs) p ≡ HashMap.get dir p
  unfolding dropped
  get-dropped_other [] dir p other = refl
  get-dropped_other (x ∷ xs) dir p (other, others) =
      get-dropped_other xs (drop_one dir x) p others ∙ get-drop_one_other dir x p other

  Holds-drop_one :
      (dir : Dir File) (x y : Stored)
      → path x.id ≢ path y.id
      → Holds confy dir y
      → Holds confy (drop_one dir x) y
  Holds-drop_one dir x y other (s, there, back, at) =
      (s, get-drop_one_other dir x (path y.id) other ∙ there, back, at)

  -- One round of the loop, at the file of a plain peer.
  visit-Holds :
      (dir : Dir File) (now : ℕ) (x : Stored) (ps : List String)
      → IsPlain x
      → Holds confy dir x
      → visit confy removes dir now (path x.id ∷ ps) ≡ (
        keep true (x.id, x.time, x.config.info) (visit confy removes (drop_one dir x) now ps).0,
        (visit confy removes (drop_one dir x) now ps).1,
      )
  unfolding visit path
  visit-Holds dir now x ps (some_text, plain) (s, there, back, at) =
      ap
        (λ b.
          round b (file_stem p) (modified_of (HashMap.get dir p))
            (load confy dir now (file_stem p)))
        (ap (λ o. is_some o && is_toml p) there ∙ toml)
      ∙ ap (λ id. round true id (modified_of (HashMap.get dir p)) (load confy dir now id)) stem
      ∙ ap (λ t. round true x.id t (load confy dir now x.id)) (ap modified_of there ∙ at)
      ∙ ap (round true x.id x.time) (load-Holds dir now x (s, there, back, at))
      ∙ ap
          (λ d. (
            keep true (x.id, x.time, x.config.info) (visit confy removes d now ps).0,
            (visit confy removes d now ps).1,
          ))
          (swept-stays dir x)
    where
      p : String
      p = path x.id

      round : Bool → String → ℕ → PeerConfig × Dir File → List Peer × Dir File
      round b id t r =
          let (rest, end) = visit confy removes (if b then swept (removes p) p r else dir) now ps in
          (keep b (id, t, r.0.info) rest, end)

      stem_text : is_empty (file_stem x.id) ≡ false
      stem_text = ap is_empty plain ∙ some_text

      stem : file_stem p ≡ x.id
      stem = file_stem-toml (file_stem x.id) stem_text ∙ plain

      toml : is_toml p ≡ true
      toml = is_toml-toml (file_stem x.id) stem_text

  visit_lem :
      (xs : List Stored) (dir : Dir File) (now : ℕ)
      → All IsPlain xs
      → Distinct xs
      → All (Holds confy dir) xs
      → visit confy removes dir now (map (λ x. path x.id) xs) ≡ (listed xs, dropped dir xs)
  unfolding visit listed dropped
  visit_lem [] dir now plain distinct holds = refl
  visit_lem (x ∷ xs) dir now (plain, plains) (differ, distinct) (has, holds) =
      visit-Holds dir now x (map (λ y. path y.id) xs) plain has
      ∙ ap (λ (rest, end). (keep true (x.id, x.time, x.config.info) rest, end))
          (visit_lem xs (drop_one dir x) now plains distinct (
            All-map₂ (λ y other. Holds-drop_one dir x y other) xs
              (All-map₂ (λ y. path-ne x y plain) xs plains differ) holds))

  -- A peer with a platform still has its file, with its configuration, and so has one whose file the
  -- system does not remove; the file of another is gone.
  abbrev pub Swept : Dir File → ℕ → Stored → Type 0
  Swept dir now x =
      ((stays x ≡ true) × (load confy dir now x.id ≡ (x.config, dir)))
      ⊎ ((stays x ≡ false) × (HashMap.get dir (path x.id) ≡ none))

  Swept-head :
      (xs : List Stored) (dir : Dir File) (now : ℕ) (x : Stored)
      → All (λ y. path y.id ≢ path x.id) xs
      → Holds confy dir x
      → Swept (dropped (drop_one dir x) xs) now x
  Swept-head xs dir now x others (s, there, back, at) = elim (Bool-cases (stays x)) [
    | inl kept ↦ inl (
      kept,
      load-Holds (dropped (drop_one dir x) xs) now x (s, unmoved ∙ left kept ∙ there, back, at),
    )
    | inr gone ↦ inr (
      gone,
      unmoved
          ∙ left gone
          ∙ get-remove dir (path x.id) (path x.id)
          ∙ ap (λ c. if c then none else HashMap.get dir (path x.id)) (str_refl (path x.id)),
    )
  ]
    where
      unmoved :
          HashMap.get (dropped (drop_one dir x) xs) (path x.id)
          ≡ HashMap.get (drop_one dir x) (path x.id)
      unmoved = get-dropped_other xs (drop_one dir x) (path x.id) others

      left :
          {b : Bool}
          → stays x ≡ b
          → HashMap.get (drop_one dir x) (path x.id)
            ≡ HashMap.get (if b then dir else HashMap.remove dir (path x.id)) (path x.id)
      left same =
          ap (λ b. HashMap.get (if b then dir else HashMap.remove dir (path x.id)) (path x.id)) same

  dropped-Swept :
      (xs : List Stored) (dir : Dir File) (now : ℕ)
      → All IsPlain xs
      → Distinct xs
      → All (Holds confy dir) xs
      → All (Swept (dropped dir xs) now) xs
  unfolding dropped
  dropped-Swept [] dir now plain distinct holds = tt
  dropped-Swept (x ∷ xs) dir now (plain, plains) (differ, distinct) (has, holds) =
      let paths = All-map₂ (λ y. path-ne x y plain) xs plains differ in
      (
        Swept-head xs dir now x (All-map₂ (λ y other _ same. other (sym same)) xs paths plains) has,
        dropped-Swept xs (drop_one dir x) now plains distinct
            (All-map₂ (λ y other. Holds-drop_one dir x y other) xs paths holds),
      )

  New-empty : (xs : List Stored) → All (λ y. HashMap.get {V = Saved File} [] (path y.id) ≡ none) xs
  unfolding HashMap.get
  New-empty [] = tt
  New-empty (x ∷ xs) = (refl, New-empty xs)

  -- Let peers of different ids without a dot (but maybe one at the start) be stored one after another in
  -- an empty directory that can be read, each store successful. `peers` gives, the latest first, exactly
  -- those that have a platform, each with its id, the time of its store and its information. After it a
  -- peer with a platform is loaded as it was stored; one without has no file if the system removes it, and
  -- is loaded as it was stored if the system does not.
  pub peers-stores :
      (sort : List Peer → List Peer) (xs : List Stored) (now : ℕ)
      → Sorts sort
      → All (IsStored confy) xs
      → All IsPlain xs
      → Distinct xs
      → let (found, end) = peers confy removes sort true (stores confy [] xs) now in
        Perm found (listed xs) × Latest found × All (Swept end now) xs
  unfolding peers
  peers-stores sort xs now sorts ok plain distinct =
      let (holds, all_names) = stores-Holds confy xs [] ok plain distinct (New-empty xs) in
      let seen =
        ap (visit confy removes (stores confy [] xs) now) all_names
        ∙ visit_lem xs (stores confy [] xs) now plain distinct holds in
      subst
        (λ (found, end).
          Perm (sort found) (listed xs) × Latest (sort found) × All (Swept end now) xs)
        (sym seen)
        (
          sorts.perm (listed xs),
          sorts.latest (listed xs),
          dropped-Swept xs (stores confy [] xs) now plain distinct holds,
        )
