-- ===== src/Quic.antt =====
-- libs/hbb_common/src/quic.rs: the QUIC transport, a feature that is off. What the endpoint of quinn answers is
-- an argument; tokio's tasks take their steps as events, in any order.
pub mod Receives
mod Runs
use rustdesk_server_demo.Prelude.{
  ℕ, zero, suc, ◌-◌, Bool, true, false, Option, none, some, String, List, [], ◌∷◌, ◌++◌, take,
  if◌then◌else◌,
}
use rustdesk_server_demo.AddrMangle.{SocketAddr}

-- An error of quinn, or the one that is made for the end of the streams.
pub data Error : Type 0 where
  failed reset_by_peer : Error

pub data Answer {ℓ} (A : Type ℓ) : Type ℓ where
  ok : A → Answer A
  err : Error → Answer A

abbrev pub Value : Type 0
Value = Answer (List ℕ)

-- An unbounded channel: what is sent and not yet received, and how many senders there are.
pub record Channel : Type 0 where
  pub queue : List Value
  pub senders : ℕ

-- The task that takes the streams of a connection.
pub data Task : Type 0 where
  looping exited : Task

-- `handlers` are the tasks of `handle_request` that have not run; `written` is what went to the stream.
pub record Connection : Type 0 where
  pub task : Task
  pub handlers : ℕ
  pub rx : Channel
  pub written : List ℕ

abbrev pub checked : {A : Type 0} → Bool → Answer A → Answer A
checked done rest = if done then rest else err failed

abbrev pub address : Option SocketAddr → Answer SocketAddr
address none = err failed
address (some addr) = ok addr

-- Whether the endpoint takes the socket, and the address that it says.
unfoldable pub new_server : Bool → Option SocketAddr → Answer SocketAddr
new_server taken local_addr = checked taken (address local_addr)

abbrev pub served : Connection
served = record {
  task = looping;
  handlers = 0;
  rx = record { queue = []; senders = 1 };
  written = [];
}

-- `incoming`: none at its end, otherwise whether the handshake succeeds.
unfoldable pub new_for_server : Option Bool → Bool → Answer (Option Connection)
new_for_server none open_uni = ok none
new_for_server (some connects) open_uni = checked connects (checked open_uni (ok (some served)))

-- The one handler has the sender.
abbrev pub client : Connection
client = record {
  task = exited;
  handlers = 1;
  rx = record { queue = []; senders = 1 };
  written = [];
}

unfoldable pub new_for_client : Bool → Answer Connection
new_for_client open_bi = checked open_bi (ok client)

unfoldable pub new_client : Bool → Bool → Bool → Bool → Answer Connection
unfolding new_for_client
new_client bound started connects open_bi =
    checked bound (checked started (checked connects (new_for_client open_bi)))

-- `opened`, `stream_failed` and `ended` are what the streams of the connection give to the loop; `handled` is
-- a run of `handle_request`, which does nothing but drop its sender.
pub data Event : Type 0 where
  opened stream_failed ended handled : Event

abbrev pub exit : Connection → Error → Connection
exit self e = record self {
  task = exited;
  rx = record { queue = self.rx.queue ++ err e ∷ []; senders = self.rx.senders - 1 };
}

abbrev pub in_loop : Task → Connection → Event → Connection
in_loop exited self event = self
in_loop looping self opened = record self {
  handlers = suc self.handlers;
  rx = record self.rx { senders = suc self.rx.senders };
}
in_loop looping self stream_failed = exit self failed
in_loop looping self ended = exit self reset_by_peer
in_loop looping self handled = self

abbrev pub handle_request : ℕ → Connection → Connection
handle_request zero self = self
handle_request (suc n) self = record self {
  handlers = n;
  rx = record self.rx { senders = self.rx.senders - 1 };
}

unfoldable pub step : Connection → Event → Connection
step self opened = in_loop self.task self opened
step self stream_failed = in_loop self.task self stream_failed
step self ended = in_loop self.task self ended
step self handled = handle_request self.handlers self

-- `closed` is the `None` of `recv`; while it is `pending` the caller waits.
pub data Received : Type 0 where
  value : Value → Received
  closed pending : Received

abbrev pub waits : ℕ → Received
waits zero = closed
waits (suc n) = pending

abbrev pub recv : List Value → Channel → Received × Channel
recv [] rx = (waits rx.senders, rx)
recv (v ∷ vs) rx = (value v, record rx { queue = vs })

unfoldable pub next : Connection → Received × Connection
next self = let (got, rx) = recv self.rx.queue self.rx in (got, record self { rx = rx })

-- `write_all` writes all, or so many bytes and fails.
unfoldable pub send_raw : Option ℕ → Connection → List ℕ → Answer (Unit {0}) × Connection
send_raw none self bytes = (ok tt, record self { written = self.written ++ bytes })
send_raw (some n) self bytes = (err failed, record self { written = self.written ++ take n bytes })

-- A message that cannot be written as bytes is logged.
unfoldable pub send : Option ℕ → Connection → Option (List ℕ) → Answer (Unit {0}) × Connection
unfolding send_raw
send io self (some bytes) = send_raw io self bytes
send io self none = (ok tt, self)
