-- ===== src/Config/Restart.antt =====
-- What a restart reads from the files is what memory has, as long as no store has failed.
use rustdesk_server_demo.Prelude.{
  ℕ, ◌≤◌, ◌≡◌, refl, sym, ap, ◌∙◌, Bool, true, false, Option, none, some, String, List, [], ◌∷◌,
  if◌then◌else◌, All, arith,
}
use rustdesk_server_demo.Config.{
  Config, Config2, Confy, State, default_config, default_config2, load_or, start, store, store2,
}
use rustdesk_server_demo.Config.Setters.{
  set_id, set_nat_type, set_serial, set_key_confirmed, set_host_key_confirmed, set_key_pair,
  set_options, set_option, set_password, set_salt, set_size, set_remote_id, forget_server,
}
use rustdesk_server_demo.Config.Generate.{
  get_auto_id, set_auto_id, get_key_pair, get_id, update_id, get_password, get_salt,
}
use rustdesk_server_demo.Config.Servers.{reset_online, use_server, update_latency}
use rustdesk_server_demo.Config.Calls.{
  Call, to_set_id, to_set_password, to_set_salt, to_set_remote_id, to_set_nat_type, to_set_serial,
  to_set_key_confirmed, to_set_host_key_confirmed, to_set_key_pair, to_get_key_pair, to_get_id,
  to_update_id, to_set_options, to_set_option, to_get_password, to_get_salt, to_set_size,
  to_reset_online, to_update_latency, call, calls,
}
use rustdesk_server_demo.Prelude.HashMap
use rustdesk_server_demo.Prelude.HashMap.{HashMap}
use rustdesk_server_demo.Prelude.Int.{ℤ}

load_or-some : {T : Type 0} (default config : T) → load_or default (some config) ≡ config
unfolding load_or
load_or-some default config = refl

module _ {File : Type 0} (confy : Confy Config File) (confy2 : Confy Config2 File) {View : Type 0}
    (view : Config2 → View) where
  -- The files give what is in memory; of the second configuration, as far as `view` shows it.
  abbrev pub Synced : State File → Type 0
  Synced s =
      (load_or default_config (confy.load_path s.file) ≡ s.config)
      × (view (load_or default_config2 (confy2.load_path s.file2)) ≡ view s.config2)

  -- From `s` to `t` errors are only added, and if there is none, the files follow memory.
  record Kept (s t : State File) : Type 0 where
    grows : s.errors ≤ t.errors
    follows : Synced s → t.errors ≡ s.errors → Synced t

  Kept-same : (s : State File) → Kept s s
  Kept-same s = record { grows = omega arith; follows = λ synced same. synced }

  Kept-trans : {s t u : State File} → Kept s t → Kept t u → Kept s u
  Kept-trans first second = record {
    grows = omega (arith, first.grows, second.grows);
    follows = λ synced same.
        second.follows (first.follows synced (omega (arith, first.grows, second.grows)))
          (omega (arith, first.grows, second.grows));
  }

  Kept-if : {s t u : State File} (b : Bool) → Kept s t → Kept s u → Kept s (if b then t else u)
  Kept-if true kept other = kept
  Kept-if false other kept = kept

  Kept-result :
      {A : Type 0} {s : State File} (b : Bool) (r q : A × State File)
      → Kept s r.1
      → Kept s q.1
      → Kept s (if b then r else q).1
  Kept-result true r q kept other = kept
  Kept-result false r q other kept = kept

  Kept-store : (s : State File) (config : Config) → Kept s (store confy s config)
  unfolding store
  Kept-store s config = by_answer ((confy.store_path config s.file).1) refl
    where
      loaded :
          (confy.store_path config s.file).1 ≡ true
          → load_or default_config (confy.load_path (confy.store_path config s.file).0) ≡ config
      loaded h = ap (load_or default_config) (confy.load-store config s.file h) ∙ load_or-some _ _

      by_answer :
          (ok : Bool) → (confy.store_path config s.file).1 ≡ ok → Kept s (store confy s config)
      by_answer true h = record {
        grows = ground arith;
        follows = λ synced same. (loaded h, synced.1);
      }
      by_answer false h = record {
        grows = ground arith;
        follows = λ synced same. absurd (ground arith);
      }

  Kept-store2 : (s : State File) (config : Config2) → Kept s (store2 confy2 s config)
  unfolding store2
  Kept-store2 s config = by_answer ((confy2.store_path config s.file2).1) refl
    where
      loaded :
          (confy2.store_path config s.file2).1 ≡ true
          → load_or default_config2 (confy2.load_path (confy2.store_path config s.file2).0) ≡ config
      loaded h =
          ap (load_or default_config2) (confy2.load-store config s.file2 h) ∙ load_or-some _ _

      by_answer :
          (ok : Bool) → (confy2.store_path config s.file2).1 ≡ ok → Kept s (store2 confy2 s config)
      by_answer true h = record {
        grows = ground arith;
        follows = λ synced same. (synced.0, ap view (loaded h));
      }
      by_answer false h = record {
        grows = ground arith;
        follows = λ synced same. absurd (ground arith);
      }

  Kept-set_id : (s : State File) (id : String) → Kept s (set_id confy s id)
  unfolding set_id
  Kept-set_id s id = Kept-if _ (Kept-same s) (Kept-store s _)

  Kept-get_id : (s : State File) (mac : Option (List ℕ)) → Kept s (get_id confy s mac).1
  unfolding get_id
  Kept-get_id s mac = Kept-result _ _ _ (by_auto (get_auto_id mac)) (Kept-same s)
    where
      by_auto : (auto : Option String) → Kept s (set_auto_id confy s auto).1
      by_auto none = Kept-same s
      by_auto (some id) = Kept-set_id s id

  Kept-update_latency :
      (s : State File) (host : String) (latency : ℤ) → Kept s (update_latency confy2 s host latency)
  unfolding update_latency use_server
  Kept-update_latency s host latency =
      let known = record s { online = HashMap.insert s.online host latency } in
      Kept-trans (record { grows = omega arith; follows = λ synced same. synced })
        (Kept-if _ (Kept-same known) (Kept-store2 known _))

  -- The calls that change what `view` shows only together with a store.
  abbrev pub Harmless : Call → Type 0
  Harmless (to_set_option k v) = (config : Config2) → view (forget_server config k) ≡ view config
  Harmless _ = Unit {0}

  Kept-call : (s : State File) (c : Call) → Harmless c → Kept s (call confy confy2 s c)
  unfolding call set_nat_type set_serial set_key_confirmed set_host_key_confirmed set_key_pair
      set_options set_option set_password set_salt set_size set_remote_id get_key_pair update_id
      get_password get_salt reset_online
  Kept-call s (to_set_id id) _ = Kept-set_id s id
  Kept-call s (to_set_password password) _ = Kept-if _ (Kept-same s) (Kept-store s _)
  Kept-call s (to_set_salt salt) _ = Kept-if _ (Kept-same s) (Kept-store s _)
  Kept-call s (to_set_remote_id remote_id) _ = Kept-if _ (Kept-same s) (Kept-store2 s _)
  Kept-call s (to_set_nat_type nat_type) _ = Kept-if _ (Kept-same s) (Kept-store2 s _)
  Kept-call s (to_set_serial serial) _ = Kept-if _ (Kept-same s) (Kept-store2 s _)
  Kept-call s (to_set_key_confirmed v) _ = Kept-if _ (Kept-same s) (Kept-store s _)
  Kept-call s (to_set_host_key_confirmed host v) _ = Kept-if _ (Kept-same s) (Kept-store s _)
  Kept-call s (to_set_key_pair pair) _ = Kept-store s _
  Kept-call s (to_get_key_pair pair) _ = Kept-result _ _ _ (Kept-store s _) (Kept-same s)
  Kept-call s (to_get_id mac) _ = Kept-get_id s mac
  Kept-call s (to_update_id mac new) _ = Kept-trans (Kept-get_id s mac) (Kept-set_id _ _)
  Kept-call s (to_set_options v) _ = Kept-store2 s _
  Kept-call s (to_set_option k v) harmless =
      Kept-if _
        (record {
          grows = omega arith;
          follows = λ synced same. (synced.0, synced.1 ∙ sym (harmless s.config2));
        })
        (Kept-store2 s _)
  Kept-call s (to_get_password draw) _ =
      Kept-result _ _ _ (Kept-if _ (Kept-same s) (Kept-store s _)) (Kept-same s)
  Kept-call s (to_get_salt draw) _ =
      Kept-result _ _ _ (Kept-if _ (Kept-same s) (Kept-store s _)) (Kept-same s)
  Kept-call s (to_set_size x y w h) _ = Kept-if _ (Kept-same s) (Kept-store2 s _)
  Kept-call s to_reset_online _ = record { grows = omega arith; follows = λ synced same. synced }
  Kept-call s (to_update_latency host latency) _ = Kept-update_latency s host latency

  Kept-calls :
      (s : State File) (cs : List Call) → All Harmless cs → Kept s (calls confy confy2 s cs)
  unfolding calls
  Kept-calls s [] _ = Kept-same s
  Kept-calls s (c ∷ cs) (one, others) =
      Kept-trans (Kept-call s c one) (Kept-calls (call confy confy2 s c) cs others)

  Synced-start : (file file2 : File) → Synced (start confy confy2 file file2)
  unfolding start
  Synced-start file file2 = (
    ap (load_or default_config) (confy.load-load file),
    ap (λ o. view (load_or default_config2 o)) (confy2.load-load file2),
  )

  pub Synced-calls :
      (file file2 : File) (cs : List Call)
      → All Harmless cs
      → (calls confy confy2 (start confy confy2 file file2) cs).errors ≡ 0
      → Synced (calls confy confy2 (start confy confy2 file file2) cs)
  unfolding start
  Synced-calls file file2 cs harmless silent =
      (Kept-calls (start confy confy2 file file2) cs harmless).follows (Synced-start file file2)
        silent
