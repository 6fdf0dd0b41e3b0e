-- ===== src/Sockets.antt =====
-- `new_socket` and `to_socket_addr` of libs/hbb_common/src/lib.rs. The calls of the operating system and of
-- the resolver go into a history with their answers; a `System` answers each by the history so far.
pub mod Quiet
pub mod Calls
use rustdesk_server_demo.Prelude.{
  ℕ, Bool, true, false, Option, none, some, String, List, [], ◌∷◌, ◌++◌, if◌then◌else◌,
}
use rustdesk_server_demo.AddrMangle.{SocketAddr, v4, v6}

pub data Domain : Type 0 where
  ipv4 ipv6 : Domain

pub data SocketType : Type 0 where
  stream dgram : SocketType

-- The calls on the socket that was made last, and binds of a host by tokio.
pub data Call : Type 0 where
  socket : Domain → SocketType → Call
  set_reuse_port set_reuse_address from_std : Call
  bind : SocketAddr → Call
  listen : ℕ → Call
  bind_host : SocketType → String → Call

-- What an attempt to connect comes to in the time that it has.
pub data Reply : Type 0 where
  connected refused late : Reply

pub data Event : Type 0 where
  asked : Call → Bool → Event
  resolved : String → Option (List SocketAddr) → Event
  connecting : SocketAddr → SocketAddr → Reply → Event

-- `unsolved` is the "Failed to solve" of `to_socket_addr`, `unresolved` the "could not resolve to any address"
-- of the loops over addresses.
pub data Error : Type 0 where
  system elapsed unresolved unsolved : Error

pub data Answer {ℓ} (A : Type ℓ) : Type ℓ where
  ok : A → Answer A
  err : Error → Answer A

-- The oldest event is the first.
abbrev pub History : Type 0
History = List Event

pub record System : Type 0 where
  pub accepts : History → Call → Bool
  pub resolves : History → String → Option (List SocketAddr)
  pub replies : History → SocketAddr → SocketAddr → Reply

-- `?`.
abbrev pub and_then {ℓ m} :
    {A : Type ℓ}
    → {B : Type m} → Answer A × History
    → (A → History → Answer B × History)
    → Answer B × History
and_then (ok a, seen) f = f a seen
and_then (err x, seen) f = (err x, seen)

abbrev pub ask_answer : Bool → Answer (Unit {0})
ask_answer true = ok tt
ask_answer false = err system

abbrev pub ask : System → Call → History → Answer (Unit {0}) × History
ask os call seen = let b = os.accepts seen call in (ask_answer b, seen ++ asked call b ∷ [])

abbrev pub resolve_answer : Option (List SocketAddr) → Answer (List SocketAddr)
resolve_answer none = err system
resolve_answer (some addrs) = ok addrs

abbrev pub resolve : System → String → History → Answer (List SocketAddr) × History
resolve os host seen =
    let addrs = os.resolves seen host in (resolve_answer addrs, seen ++ resolved host addrs ∷ [])

abbrev pub domain : SocketAddr → Domain
domain (v4 ip port) = ipv4
domain (v6 ip port) = ipv6

abbrev pub set_reuse : System → Bool → History → Answer (Unit {0}) × History
set_reuse os false seen = (ok tt, seen)
set_reuse os true seen =
    and_then (ask os set_reuse_port seen) (λ _ seen'. ask os set_reuse_address seen')

unfoldable pub new_socket :
    System → SocketAddr → Bool → Bool → History → Answer (Unit {0}) × History
new_socket os addr tcp reuse seen =
    let stype = if tcp then stream else dgram in
    and_then (ask os (socket (domain addr) stype) seen)
      (λ _ made. and_then (set_reuse os reuse made) (λ _ set. ask os (bind addr) set))

abbrev pub first_addr : List SocketAddr → Answer SocketAddr
first_addr [] = err unsolved
first_addr (addr ∷ addrs) = ok addr

unfoldable pub to_socket_addr : System → String → History → Answer SocketAddr × History
to_socket_addr os host seen =
    and_then (resolve os host seen) (λ addrs seen'. (first_addr addrs, seen'))
