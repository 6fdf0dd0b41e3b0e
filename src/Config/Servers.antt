-- ===== src/Config/Servers.antt =====
-- The rendezvous servers of `Config`: which are known, which is used, and the latencies of `ONLINE`.
use rustdesk_server_demo.Prelude.{
  ℕ, ◌-◌, ◌^◌, not, ◌&&◌, ◌||◌, Option, none, some, String, List, [], ◌∷◌, str_eq, if◌then◌else◌,
}
use Prim.Native.String.{◌++◌}
use rustdesk_server_demo.Prelude.HashMap
use rustdesk_server_demo.Prelude.HashMap.{HashMap}
use rustdesk_server_demo.Prelude.Int.{ℤ, pos, less}
use rustdesk_server_demo.Prelude.Strings.{is_empty, contains, split, dot, comma, colon, to_string}
use rustdesk_server_demo.AddrMangle.{SocketAddr, v4}
use rustdesk_server_demo.Config.{Config2, Confy, State, store2}
use rustdesk_server_demo.Config.Setters.{get_option, server_key, serial_const}

-- `RENDEZVOUS_SERVERS`.
abbrev pub rendezvous_servers : List String
rendezvous_servers = "rs-sg.rustdesk.com" ∷ "rs-cn.rustdesk.com" ∷ []

abbrev pub rendezvous_port : ℕ
rendezvous_port = 21116

-- `get_any_listen_addr`: 0.0.0.0:0.
abbrev pub any_listen_addr : SocketAddr
any_listen_addr = v4 (0 ∷ 0 ∷ 0 ∷ 0 ∷ []) 0

abbrev pub or_built_in : List String → List String
or_built_in [] = rendezvous_servers
or_built_in (s ∷ ss) = s ∷ ss

-- `filter(|x| x.contains("."))`.
unfoldable pub keep_dotted : List String → List String
keep_dotted [] = []
keep_dotted (x ∷ xs) = let rest = keep_dotted xs in if contains dot x then x ∷ rest else rest

unfoldable pub listed_servers : String → List String
unfolding keep_dotted
listed_servers servers = keep_dotted (split comma servers)

-- `drain(..).next().unwrap_or("")`.
abbrev pub first_of : List String → String
first_of [] = ""
first_of (s ∷ ss) = s

-- The body of the `for` over `ONLINE`, on its `host` and `delay`.
abbrev pub faster : String × ℤ → String × ℤ → String × ℤ
faster (tmp_host, tmp_delay) (host, delay) =
    if less (pos 0) tmp_delay && less tmp_delay delay then (tmp_host, tmp_delay) else (host, delay)

unfoldable pub fastest : HashMap ℤ → String × ℤ → String × ℤ
fastest [] best = best
fastest (entry ∷ rest) best = fastest rest (faster entry best)

abbrev pub i64_max : ℤ
i64_max = pos (2 ^ 63 - 1)

unfoldable pub with_port : String → String
with_port server =
    if not (contains colon server) then server ++ (":" ++ to_string rendezvous_port) else server

abbrev pub or_any_listen_addr : Option SocketAddr → SocketAddr
or_any_listen_addr none = any_listen_addr
or_any_listen_addr (some addr) = addr

module _ {File : Type 0} where
  unfoldable pub get_rendezvous_servers : State File → List String
  unfolding listed_servers
  get_rendezvous_servers self =
      let s = get_option self server_key in
      if not (is_empty s)
      then s ∷ []
      else if less serial_const self.config2.serial
      then or_built_in (listed_servers (get_option self "rendezvous-servers"))
      else rendezvous_servers

  -- `rendezvous_server` in `get_rendezvous_server`, before its port.
  unfoldable pub chosen_server : State File → String
  unfolding get_rendezvous_servers
  chosen_server self =
      let custom = get_option self server_key in
      let server = if is_empty custom then self.config2.rendezvous_server else custom in
      if is_empty server then first_of (get_rendezvous_servers self) else server

  -- `resolve` is `to_socket_addr`.
  unfoldable pub get_rendezvous_server : (String → Option SocketAddr) → State File → SocketAddr
  unfolding chosen_server with_port
  get_rendezvous_server resolve self = or_any_listen_addr (resolve (with_port (chosen_server self)))

  unfoldable pub reset_online : State File → State File
  reset_online self = record self { online = [] }

module _ {File : Type 0} (confy2 : Confy Config2 File) where
  -- The end of `update_latency`, on the host that was found.
  unfoldable pub use_server : State File → String → State File
  use_server self host =
      if is_empty host || str_eq host self.config2.rendezvous_server
      then self
      else store2 confy2 self (record self.config2 { rendezvous_server = host })

  unfoldable pub update_latency : State File → String → ℤ → State File
  unfolding fastest use_server
  update_latency self host latency =
      let online = HashMap.insert self.online host latency in
      use_server (record self { online = online }) (fastest online ("", i64_max)).0
