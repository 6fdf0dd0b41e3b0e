-- ===== src/FramedSocket.antt =====
-- libs/hbb_common/src/udp.rs: `FramedSocket`, a UDP socket with the codec of tokio_util that takes a
-- datagram as it is. What the socket answers, and what it yields, are arguments.
pub mod Bound
mod Runs
use rustdesk_server_demo.Prelude.{
  ℕ, Bool, true, false, Option, none, some, String, List, [], ◌∷◌, ◌++◌,
}
use rustdesk_server_demo.AddrMangle.{SocketAddr, Outcome, done, panics}
use rustdesk_server_demo.Sockets.{
  dgram, bind_host, from_std, unresolved, Answer, ok, err, History, System, and_then, ask, resolve,
  new_socket,
}

-- The datagrams given to the socket, the oldest first.
pub record FramedSocket : Type 0 where
  pub sent : List (List ℕ × SocketAddr)

abbrev pub no_datagrams : FramedSocket
no_datagrams = record { sent = [] }

abbrev pub framed : Answer (Unit {0}) × History → Answer FramedSocket × History
framed (ok _, seen) = (ok no_datagrams, seen)
framed (err x, seen) = (err x, seen)

unfoldable pub new : System → String → History → Answer FramedSocket × History
new os addr seen = framed (ask os (bind_host dgram addr) seen)

abbrev pub reuse_first : System → List SocketAddr → History → Answer (Unit {0}) × History
reuse_first os [] seen = (err unresolved, seen)
reuse_first os (addr ∷ addrs) seen =
    and_then (new_socket os addr false true seen) (λ _ bound. ask os from_std bound)

unfoldable pub new_reuse : System → String → History → Answer FramedSocket × History
unfolding new_socket
new_reuse os addr seen = framed (and_then (resolve os addr seen) (reuse_first os))

-- `io`: what the socket answers. A datagram that it takes is sent whole.
unfoldable pub send_raw :
    Answer (Unit {0}) → FramedSocket → List ℕ → SocketAddr → Answer (Unit {0}) × FramedSocket
send_raw (ok _) self msg addr = (ok tt, record { sent = self.sent ++ (msg, addr) ∷ [] })
send_raw (err x) self msg addr = (err x, self)

-- `bytes`: what `write_to_bytes` made of the message, which is unwrapped.
unfoldable pub send :
    Answer (Unit {0})
    → FramedSocket
    → Option (List ℕ)
    → SocketAddr
    → Outcome (Answer (Unit {0}) × FramedSocket)
unfolding send_raw
send io self none addr = panics
send io self (some bytes) addr = done (send_raw io self bytes addr)

abbrev pub Datagram : Type 0
Datagram = Option (Answer (List ℕ × SocketAddr))

unfoldable pub next : FramedSocket → Datagram → Datagram × FramedSocket
next self res = (res, self)

-- `none` for a socket that yields nothing in time.
unfoldable pub next_timeout : FramedSocket → Option Datagram → Datagram × FramedSocket
unfolding next
next_timeout self (some res) = next self res
next_timeout self none = (none, self)
