-- ===== src/Config/Peers/Forgets.antt =====
-- `peers` on a peer with dots in its id.
use mathlib.Core.List.Perm
use rustdesk_server_demo.Prelude.{
  ℕ, ◌≡◌, ◌≢◌, refl, sym, ap, ◌∙◌, Bool, true, false, ◌&&◌, Option, none, some, is_some, String,
  List, [], ◌∷◌, ◌⊎◌, inl, inr, if◌then◌else◌,
}
use rustdesk_server_demo.Prelude.HashMap
use rustdesk_server_demo.Prelude.HashMap.{HashMap, get-insert, get-remove, str_ne, str_refl}
use rustdesk_server_demo.Prelude.Strings.{is_empty}
use rustdesk_server_demo.Config.{load_or}
use rustdesk_server_demo.Config.Peers.{
  PeerConfig, default_peer, ConfyPath, Saved, Dir, Peer, path, put, remove_file, names, keep, swept,
  modified_of, loaded, load, store, visit, peers,
}
use rustdesk_server_demo.Config.Peers.Names.{
  file_stem, is_toml, file_stem-toml, is_toml-toml, with_toml_inj,
}
use rustdesk_server_demo.Config.Peers.Stores.{Stored, IsStored}
use rustdesk_server_demo.Config.Peers.Sweep.{Sorts}
use rustdesk_server_demo.Config.Peers.Stores.{store_new}

module _ {File : Type 0} (confy : ConfyPath File) (removes : String → Bool) where
  load_missing : load_or default_peer confy.load_missing.0 ≡ default_peer
  unfolding load_or
  load_missing = by_law confy.load_missing_default
    where
      by_law :
          (confy.load_missing.0 ≡ none) ⊎ (confy.load_missing.0 ≡ some default_peer)
          → load_or default_peer confy.load_missing.0 ≡ default_peer
      by_law (inl e) = ap (load_or default_peer) e
      by_law (inr e) = ap (load_or default_peer) e

  -- The one file of the directory, under a name whose stem is not the name of that file.
  module _ (x : Stored) (s : Saved File) (now : ℕ) where
    abbrev stem : String
    stem = file_stem x.id

    abbrev only : Dir File
    only = (path x.id, s) ∷ []

    visit-dotted :
        is_empty stem ≡ false
        → file_stem stem ≢ stem
        → visit confy removes only now (path x.id ∷ []) ≡ (
          [],
          remove_file
              (removes (path x.id))
              (put only (path stem) now confy.load_missing.1)
              (path x.id),
        )
    unfolding visit path load HashMap.get
    visit-dotted some_text dotted =
        ap (λ b. round b (file_stem p) (load confy only now (file_stem p)))
          (ap (λ b. is_some (if b then some s else none) && is_toml p) (str_refl p)
            ∙ is_toml-toml stem some_text)
        ∙ ap (λ id. round true id (load confy only now id)) (file_stem-toml stem some_text)
        ∙ ap (λ b. round true stem (loaded confy only (path stem) now (if b then some s else none)))
            (str_ne p (path stem) (λ same. dotted (with_toml_inj (file_stem stem) stem (sym same))))
        ∙ ap (λ config. round true stem (config, put only (path stem) now confy.load_missing.1))
            load_missing
      where
        p : String
        p = path x.id

        round : Bool → String → PeerConfig × Dir File → List Peer × Dir File
        round b id r =
            let (rest, end) =
              visit confy removes (if b then swept (removes p) p r else only) now [] in
            (keep b (id, modified_of (HashMap.get only p), r.0.info) rest, end)

    -- The file of the peer when the other name has been loaded.
    still_there :
        file_stem stem ≢ stem
        → (o : Option File)
        → HashMap.get (put only (path stem) now o) (path x.id) ≡ HashMap.get only (path x.id)
    unfolding path
    still_there dotted none = refl
    still_there dotted (some file) =
        get-insert only (path stem) (path x.id) (record { content = file; modified = now })
        ∙ ap
            (λ b.
              if b
              then some (record { content = file; modified = now })
              else HashMap.get only (path x.id))
            (str_ne (path stem) (path x.id)
              (λ same. dotted (with_toml_inj (file_stem stem) stem same)))

    after_removal :
        file_stem stem ≢ stem
        → (ok : Bool)
        → HashMap.get
            (remove_file ok (put only (path stem) now confy.load_missing.1) (path x.id))
            (path x.id)
          ≡ (if ok then none else HashMap.get only (path x.id))
    after_removal dotted true =
        get-remove (put only (path stem) now confy.load_missing.1) (path x.id) (path x.id)
        ∙ ap
            (λ c.
              if c
              then none
              else HashMap.get (put only (path stem) now confy.load_missing.1) (path x.id))
            (str_refl (path x.id))
    after_removal dotted false = still_there dotted confy.load_missing.1

  -- A peer whose id has an extension still when its last one is taken off, such as an address of IPv4,
  -- stored alone in a directory that can be read, is not listed by the next call of `peers`, whatever its
  -- configuration is: the list is empty. Its file is after_removal, unless the system refuses that, which
  -- leaves it as it was stored.
  pub peers-dotted :
      (sort : List Peer → List Peer) (x : Stored) (now : ℕ)
      → Sorts sort
      → IsStored confy x
      → is_empty (file_stem x.id) ≡ false
      → file_stem (file_stem x.id) ≢ file_stem x.id
      → let dir = store confy [] x.time x.config x.id in
        let (found, end) = peers confy removes sort true dir now in
        (found ≡ [])
        × (HashMap.get end (path x.id)
            ≡ (if removes (path x.id) then none else HashMap.get dir (path x.id)))
  unfolding peers HashMap.insert HashMap.get
  peers-dotted sort x now sorts ok some_text dotted =
      let (s, same, _, _) = store_new confy [] x refl ok in
      let seen =
        ap (λ d. visit confy removes d now (names d)) same
        ∙ visit-dotted x s now some_text dotted in
      (
        ap (λ r. sort r.0) seen ∙ Perm.eq-nil (sorts.perm []),
        ap (λ r. HashMap.get r.1 (path x.id)) seen
            ∙ after_removal x s now dotted (removes (path x.id))
            ∙ ap (λ d. if removes (path x.id) then none else HashMap.get d (path x.id)) (sym same),
      )
