-- ===== src/Config/Reload.antt =====
-- A restart after any of the calls of `Calls`, and the one of them whose change it does not keep.
use rustdesk_server_demo.Prelude.{
  ◌≡◌, refl, ap, true, false, Option, none, some, String, List, [], ◌∷◌, str_eq, eq_iff, All, arith,
}
use rustdesk_server_demo.Prelude.HashMap
use rustdesk_server_demo.Prelude.HashMap.{str_refl}
use rustdesk_server_demo.Config.{Config, Config2, Confy, State, start}
use rustdesk_server_demo.Config.Setters.{
  set_option, forget_server, server_key, non_empty, option_eq,
}
use rustdesk_server_demo.Config.Calls.{Call, to_set_option, calls}
use rustdesk_server_demo.Config.Restart.{Harmless, Synced-calls}

-- A call other than `set_option` of custom-rendezvous-server.
abbrev pub OtherKey : Call → Type 0
OtherKey (to_set_option k v) = str_eq k server_key ≡ false
OtherKey _ = Unit {0}

abbrev pub without_server : Config2 → Config2
without_server config = record config { rendezvous_server = "" }

option_eq_refl : (o p : Option String) → o ≡ p → option_eq o p ≡ true
option_eq_refl none none e = refl
option_eq_refl (some v) (some w) e = ground (arith, eq_iff v w)
option_eq_refl none (some w) e = absurd (ground arith)
option_eq_refl (some v) none e = absurd (ground arith)

module _ {File : Type 0} (confy : Confy Config File) (confy2 : Confy Config2 File) where
  OtherKey-Harmless : (c : Call) → OtherKey c → Harmless confy confy2 (λ config. config) c
  unfolding forget_server
  OtherKey-Harmless (to_set_option k v) other = λ config. rw other refl
  OtherKey-Harmless _ other = tt

  All-Harmless :
      (cs : List Call) → All OtherKey cs → All (Harmless confy confy2 (λ config. config)) cs
  All-Harmless [] _ = tt
  All-Harmless (c ∷ cs) (one, others) = (OtherKey-Harmless c one, All-Harmless cs others)

  but_server : (c : Call) → Harmless confy confy2 without_server c
  unfolding forget_server
  but_server (to_set_option k v) = λ config. ground arith
  but_server _ = tt

  All-but_server : (cs : List Call) → All (Harmless confy confy2 without_server) cs
  All-but_server [] = tt
  All-but_server (c ∷ cs) = (but_server c, All-but_server cs)

  -- A process that starts on any two files and calls any of the setters and of the getters that set, `update_id`,
  -- `reset_online` and `update_latency`, one after another, but no `set_option` of the key
  -- custom-rendezvous-server, and no `import`, which changes the files behind the memory: if no store has
  -- failed, a process that starts on the files that it leaves has both configurations as it has them.
  pub restart :
      (file file2 : File) (cs : List Call)
      → All OtherKey cs
      → (calls confy confy2 (start confy confy2 file file2) cs).errors ≡ 0
      → let s = calls confy confy2 (start confy confy2 file file2) cs in
        ((start confy confy2 s.file s.file2).config ≡ s.config)
        × ((start confy confy2 s.file s.file2).config2 ≡ s.config2)
  unfolding start
  restart file file2 cs other silent =
      Synced-calls confy confy2 (λ config. config) file file2 cs (All-Harmless cs other) silent

  -- With calls of every kind the same holds of all but the rendezvous server in memory.
  pub restart_but_server :
      (file file2 : File) (cs : List Call)
      → (calls confy confy2 (start confy confy2 file file2) cs).errors ≡ 0
      → let s = calls confy confy2 (start confy confy2 file file2) cs in
        ((start confy confy2 s.file s.file2).config ≡ s.config)
        × (without_server (start confy confy2 s.file s.file2).config2 ≡ without_server s.config2)
  unfolding start
  restart_but_server file file2 cs silent =
      Synced-calls confy confy2 without_server file file2 cs (All-but_server cs) silent

  -- `set_option` of custom-rendezvous-server to the value that it has already (the empty one where there
  -- is none), on a process whose second file agrees with a memory that has a rendezvous server: the
  -- server is gone from memory, and a process that starts on the files has it again.
  pub restart_forgotten_server :
      (s : State File) (v : String)
      → (start confy confy2 s.file s.file2).config2 ≡ s.config2
      → non_empty v ≡ HashMap.get s.config2.options server_key
      → let t = set_option confy2 s server_key v in
        (t.config2.rendezvous_server ≡ "")
        × ((start confy confy2 t.file t.file2).config2.rendezvous_server
            ≡ s.config2.rendezvous_server)
  unfolding set_option start forget_server
  restart_forgotten_server s v synced same =
      rw (option_eq_refl (non_empty v) (HashMap.get s.config2.options server_key) same)
        (refl, ap (λ config. config.rendezvous_server) synced)
