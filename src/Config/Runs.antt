-- ===== src/Config/Runs.antt =====
-- Runs of `Config`, and its theorems at concrete states. The files of the runs never fail to be written.
use rustdesk_server_demo.Prelude.{
  arith, ◌≤◌, Bool, ℕ, ◌+◌, ◌≡◌, refl, true, false, ◌⊎◌, Option, none, some, String, List, [], ◌∷◌,
  str_eq, if◌then◌else◌, All,
}
use rustdesk_server_demo.Prelude.HashMap
use rustdesk_server_demo.Prelude.HashMap.{HashMap}
use rustdesk_server_demo.Prelude.Int.{ℤ, pos, less}
use rustdesk_server_demo.Prelude.Strings.{is_empty, contains}
use rustdesk_server_demo.Config.{
  Config, Config2, Confy, State, default_config, default_config2, start, store, store2,
}
use rustdesk_server_demo.Config.Setters.{
  server_key, serial_const, non_empty, get_option, set_id, set_option, set_password,
}
use rustdesk_server_demo.Config.Generate.{
  get_auto_password, get_key_pair, get_id, get_password, get_salt,
}
use rustdesk_server_demo.Config.Servers.{i64_max, update_latency, get_rendezvous_servers}
use rustdesk_server_demo.Config.Race.{returned}
use rustdesk_server_demo.Config.Race.Turns.{turns}
use rustdesk_server_demo.Config.Race.Laws.{after, Same, Torn, two_calls}
use rustdesk_server_demo.Config.Calls.{
  Call, to_set_id, to_set_option, to_update_latency, to_get_password, call, calls,
}
use rustdesk_server_demo.Config.Reload.{restart, restart_forgotten_server}
use rustdesk_server_demo.Config.Laws.{set_option_lem}
use rustdesk_server_demo.Config.Stable.{generated_once}
use rustdesk_server_demo.Config.Latency.{Member, beats, Unbeaten, update_latency_lem}
use rustdesk_server_demo.Config.Listing.{IsServerName, join, set_option_servers}

abbrev ToyFile : Type 0
ToyFile = Option Config × Option Config2

abbrev made : Option Config → Config
made none = default_config
made (some config) = config

abbrev made2 : Option Config2 → Config2
made2 none = default_config2
made2 (some config) = config

abbrev toy : Confy Config ToyFile
toy = record {
  load_path = λ file. some (made file.0);
  load_file = λ file. (some (made file.0), file.1);
  load-load = λ file. refl;
  store_path = λ cfg file. ((some cfg, file.1), true);
  load-store = λ cfg file ok. refl;
}

abbrev toy2 : Confy Config2 ToyFile
toy2 = record {
  load_path = λ file. some (made2 file.1);
  load_file = λ file. (file.0, some (made2 file.1));
  load-load = λ file. refl;
  store_path = λ cfg file. ((file.0, some cfg), true);
  load-store = λ cfg file ok. refl;
}

abbrev config2 : Config2
config2 = record default_config2 { rendezvous_server = "a.example"; serial = pos 7 }

abbrev used : State ToyFile
used = record {
  config = record default_config { key_confirmed = true; keys_confirmed = ("h", true) ∷ [] };
  config2 = config2;
  online = ("a.example", pos 20) ∷ ("b.example", pos 30) ∷ [];
  file = (none, none);
  file2 = (none, some config2);
  errors = 0;
}

set_option_lem_example :
    ((j : String)
      → get_option (set_option toy2 used "k" "v") j
        ≡ (if str_eq "k" j then "v" else get_option used j))
    × ((set_option toy2 used "k" "v").config2.rendezvous_server
        ≡ (if str_eq "k" server_key then "" else "a.example"))
set_option_lem_example = set_option_lem toy2 used "k" "v"

abbrev draw : ℕ → ℕ
draw i = 31 + i

abbrev some_calls : List Call
some_calls =
    to_set_id "me"
    ∷ to_set_option "k" "v"
    ∷ to_get_password draw
    ∷ to_update_latency "b.example" (pos 9)
    ∷ []

abbrev after_calls : State ToyFile
after_calls = calls toy toy2 (start toy toy2 (none, none) (none, none)) some_calls

silent : after_calls.errors ≡ 0
unfolding calls call start store store2 set_id set_option get_password set_password update_latency
    is_empty HashMap.insert HashMap.get get_auto_password
silent = refl

restart_example :
    ((start toy toy2 after_calls.file after_calls.file2).config ≡ after_calls.config)
    × ((start toy toy2 after_calls.file after_calls.file2).config2 ≡ after_calls.config2)
restart_example =
    restart toy toy2 (none, none) (none, none) some_calls (tt, (refl, (tt, (tt, tt)))) silent

loaded : (start toy toy2 used.file used.file2).config2 ≡ used.config2
unfolding start
loaded = refl

no_custom_server : non_empty "" ≡ HashMap.get used.config2.options server_key
unfolding is_empty HashMap.get
no_custom_server = refl

restart_forgotten_server_example :
    ((set_option toy2 used server_key "").config2.rendezvous_server ≡ "")
    × ((start toy toy2
          (set_option toy2 used server_key "").file
          (set_option toy2 used server_key "").file2).config2.rendezvous_server
        ≡ "a.example")
restart_forgotten_server_example = restart_forgotten_server toy toy2 used "" loaded no_custom_server

generated_once_example :
    (get_id toy (get_id toy used (some (1 ∷ 2 ∷ 3 ∷ 4 ∷ 5 ∷ 6 ∷ []))).1 none
      ≡ get_id toy used (some (1 ∷ 2 ∷ 3 ∷ 4 ∷ 5 ∷ 6 ∷ [])))
    × (get_password toy (get_password toy used draw).1 draw ≡ get_password toy used draw)
    × (get_salt toy (get_salt toy used draw).1 draw ≡ get_salt toy used draw)
    × (get_key_pair toy (get_key_pair toy used (2 ∷ [], 1 ∷ [])).1 ([], [])
        ≡ get_key_pair toy used (2 ∷ [], 1 ∷ []))
generated_once_example =
    generated_once toy used (1 ∷ 2 ∷ 3 ∷ 4 ∷ 5 ∷ 6 ∷ []) (1 ∷ []) (2 ∷ []) draw draw none ([], [])
      refl

password_run : get_auto_password draw ≡ "z23456"
unfolding get_auto_password
password_run = refl

entered : All (λ e. is_empty e.0 ≡ false) (HashMap.insert used.online "b.example" (pos 9))
unfolding is_empty HashMap.insert
entered = (refl, (refl, tt))

update_latency_lem_example :
    (Unbeaten i64_max (HashMap.insert used.online "b.example" (pos 9))
      × ((update_latency toy2 used "b.example" (pos 9)).config2 ≡ used.config2))
    ⊎ ((delay : ℤ) × Member
          ((update_latency toy2 used "b.example" (pos 9)).config2.rendezvous_server, delay)
          (HashMap.insert used.online "b.example" (pos 9))
        × (beats i64_max
              ((update_latency toy2 used "b.example" (pos 9)).config2.rendezvous_server, delay)
            ≡ true)
        × Unbeaten delay (HashMap.insert used.online "b.example" (pos 9)))
update_latency_lem_example = update_latency_lem toy2 used "b.example" (pos 9) entered

faster_server_run :
    (update_latency toy2 used "b.example" (pos 9)).config2.rendezvous_server ≡ "b.example"
unfolding update_latency HashMap.insert store2 is_empty
faster_server_run = refl

no_custom : is_empty (get_option used server_key) ≡ true
unfolding is_empty get_option HashMap.get
no_custom = refl

abbrev listing : State ToyFile
listing = set_option toy2 used "rendezvous-servers" (join "c.example" ("d.example" ∷ []))

newer_serial : less serial_const listing.config2.serial ≡ true
unfolding set_option store2 HashMap.get is_empty
newer_serial = refl

dotted : All IsServerName ("c.example" ∷ "d.example" ∷ [])
unfolding contains
dotted = ((refl, refl), ((refl, refl), tt))

set_option_servers_example :
    get_rendezvous_servers
      (set_option toy2 used "rendezvous-servers" (join "c.example" ("d.example" ∷ [])))
    ≡ "c.example" ∷ "d.example" ∷ []
set_option_servers_example =
    set_option_servers toy2 used "c.example" ("d.example" ∷ []) dotted no_custom newer_serial

abbrev draw' : ℕ → ℕ
draw' i = 40 + i

no_password : is_empty used.config.password ≡ true
unfolding is_empty
no_password = refl

enough : (b : Bool) → 2 ≤ turns b (true ∷ false ∷ false ∷ true ∷ [])
unfolding turns
enough true = omega arith
enough false = omega arith

two_calls_example :
    (x : String) × (y : String) × ((after toy draw draw' used no_password true false
        (false ∷ true ∷ [])).first
      ≡ returned x)
    × ((after toy draw draw' used no_password true false (false ∷ true ∷ [])).second ≡ returned y)
    × (Same toy draw draw' used no_password true false x y
          (after toy draw draw' used no_password true false (false ∷ true ∷ []))
        ⊎ Torn toy draw draw' used no_password true false x y
            (after toy draw draw' used no_password true false (false ∷ true ∷ [])))
two_calls_example =
    two_calls toy draw draw' used no_password true false (false ∷ true ∷ []) (enough true)
      (enough false)
