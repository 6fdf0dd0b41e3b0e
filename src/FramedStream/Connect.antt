-- ===== src/FramedStream/Connect.antt =====
-- `FramedStream::new` and `new_listener` of libs/hbb_common/src/tcp.rs.
use rustdesk_server_demo.Prelude.{
  ℕ, Bool, true, false, Option, none, some, String, List, [], ◌∷◌, ◌++◌,
}
use rustdesk_server_demo.Prelude.Endian.{Endian}
use rustdesk_server_demo.AddrMangle.{SocketAddr}
use rustdesk_server_demo.Sockets.{
  stream, listen, bind_host, from_std, Reply, connected, refused, late, connecting, elapsed,
  unresolved, Answer, ok, err, History, System, and_then, ask, resolve, new_socket,
}
use rustdesk_server_demo.FramedStream.{SecretBox, FramedStream, from_stream}

-- The addresses of the two ends, this one first.
abbrev pub Ends : Type 0
Ends = SocketAddr × SocketAddr

-- A refusal is passed over; a timeout is not.
abbrev pub attempted : Ends → Reply → Answer (Option Ends)
attempted ends connected = ok (some ends)
attempted ends refused = ok none
attempted ends late = err elapsed

unfoldable pub attempt : System → Ends → History → Answer (Option Ends) × History
unfolding new_socket
attempt os (local, remote) seen = and_then (new_socket os local true true seen) (λ _ bound.
    let reply = os.replies bound local remote in
    (attempted (local, remote) reply, bound ++ connecting local remote reply ∷ []))

-- The loops go on while nothing is connected.
abbrev pub go_on :
    Answer (Option Ends) × History
    → (History → Answer (Option Ends) × History)
    → Answer (Option Ends) × History
go_on (ok none, seen) rest = rest seen
go_on (ok (some ends), seen) rest = (ok (some ends), seen)
go_on (err x, seen) rest = (err x, seen)

unfoldable pub try_remotes :
    System → SocketAddr → List SocketAddr → History → Answer (Option Ends) × History
unfolding attempt
try_remotes os local [] seen = (ok none, seen)
try_remotes os local (remote ∷ remotes) seen =
    go_on (attempt os (local, remote) seen) (try_remotes os local remotes)

-- The remote host is resolved again for each local address.
unfoldable pub try_locals :
    System → String → List SocketAddr → History → Answer (Option Ends) × History
unfolding try_remotes
try_locals os remote_addr [] seen = (ok none, seen)
try_locals os remote_addr (local ∷ locals) seen =
    go_on (and_then (resolve os remote_addr seen) (try_remotes os local))
      (try_locals os remote_addr locals)

module _ (box : SecretBox) (e : Endian) where
  open box use {Key}

  abbrev pub Connected : Type 0
  Connected = Ends × FramedStream Key

  abbrev pub connection : Answer (Option Ends) × History → Answer Connected × History
  connection (ok (some ends), seen) = (ok (ends, from_stream box e), seen)
  connection (ok none, seen) = (err unresolved, seen)
  connection (err x, seen) = (err x, seen)

  unfoldable pub new : System → String → String → History → Answer Connected × History
  unfolding try_locals from_stream
  new os remote_addr local_addr seen =
      connection (and_then (resolve os local_addr seen) (try_locals os remote_addr))

abbrev pub default_backlog : ℕ
default_backlog = 128

abbrev pub listen_first : System → List SocketAddr → History → Answer (Unit {0}) × History
listen_first os [] seen = (err unresolved, seen)
listen_first os (addr ∷ addrs) seen = and_then (new_socket os addr true true seen) (λ _ bound.
    and_then (ask os (listen default_backlog) bound) (λ _ listening. ask os from_std listening))

unfoldable pub new_listener : System → String → Bool → History → Answer (Unit {0}) × History
unfolding new_socket
new_listener os addr false seen = ask os (bind_host stream addr) seen
new_listener os addr true seen = and_then (resolve os addr seen) (listen_first os)
