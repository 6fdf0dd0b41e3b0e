-- ===== src/Rendezvous/Server.antt =====
-- The state of `main`, and its loops as steps on what the outside does next.
-- Streams are named by numbers, as the listeners accept them. `parse` is the generated
-- `RendezvousMessage::parse_from_bytes`. Each wait of the code is a phase, and takes only the events
-- that it waits for. The errors of `send` are dropped by the code (`.ok()`), so an output stands for
-- the attempt.
use rustdesk_server_demo.Prelude.{
  ℕ, ◌≡◌, Bool, true, false, String, Option, none, some, List, [], ◌∷◌, ◌++◌,
}
use rustdesk_server_demo.Prelude.HashMap
use rustdesk_server_demo.Prelude.HashMap.{HashMap}
use rustdesk_server_demo.AddrMangle.{SocketAddr}
use rustdesk_server_demo.Rendezvous.Message.{
  RendezvousMessage, Union, register_peer, register_peer_response, punch_hole_request, register_pk,
  register_pk_response, request_relay, relay_response, message, default_request_relay,
  default_relay_response,
}
use rustdesk_server_demo.Rendezvous.Message

pub data Output : Type 0 where
  udp_send : SocketAddr → RendezvousMessage → Output
  tcp_send : ℕ → RendezvousMessage → Output
  tcp_bytes : ℕ → List ℕ → Output

-- Where the code waits. `serving` is the `select!` of `main` and `relaying` that of `relay`; their
-- flags tell which branches are enabled: one whose pattern fails is off until the next round.
pub data Phase : Type 0 where
  serving : Bool → Bool → Phase
  greeting : ℕ → Phase
  awaiting_a : Phase
  greeting_a awaiting_b : ℕ → Phase
  greeting_b : ℕ → ℕ → Phase
  relaying : Bool → ℕ → ℕ → Phase
  panicked : Phase

-- What the outside does next. `greeted` and `relay_greeted` end a `next_timeout(3000)`: `none` is
-- the timeout, the end of the stream or an error. `from_peer none` and `from_stream none` are the end
-- or an error of that stream.
pub data Event : Type 0 where
  datagram : List ℕ → SocketAddr → Event
  udp_failed accept_failed relay_accept_failed : Event
  accepted relay_accepted : ℕ → Event
  greeted relay_greeted from_peer from_stream : Option (List ℕ) → Event

pub record Server : Type 0 where
  pub id_map : HashMap SocketAddr
  pub saved_stream : Option ℕ
  pub phase : Phase

abbrev pub init : Server
init = record { id_map = []; saved_stream = none; phase = serving true true }

-- The outputs of `handle_udp` for a message, and the map that it leaves.
unfoldable pub dispatch_udp :
    Option Union → SocketAddr → HashMap SocketAddr → HashMap SocketAddr × List Output
dispatch_udp (some (register_peer rp)) addr id_map = (
  HashMap.insert id_map rp.id addr,
  udp_send addr (message (register_peer_response (record { request_pk = false }))) ∷ [],
)
dispatch_udp (some (register_pk _)) addr id_map = (
  id_map,
  udp_send addr (message (register_pk_response (record { result = Message.PkResult.ok }))) ∷ [],
)
dispatch_udp _ addr id_map = (id_map, [])

-- `if let Ok(msg_in)` of `handle_udp`.
unfoldable pub handle_parsed :
    Option RendezvousMessage → SocketAddr → HashMap SocketAddr → HashMap SocketAddr × List Output
unfolding dispatch_udp
handle_parsed none addr id_map = (id_map, [])
handle_parsed (some msg_in) addr id_map = dispatch_udp msg_in.union addr id_map

unfoldable pub handle_udp :
    (List ℕ → Option RendezvousMessage)
    → List ℕ
    → SocketAddr
    → HashMap SocketAddr
    → HashMap SocketAddr × List Output
unfolding handle_parsed
handle_udp parse bytes addr id_map = handle_parsed (parse bytes) addr id_map

module _ (parse : List ℕ → Option RendezvousMessage) (relay_server : String) where
  -- The arm of `punch_hole_request`, on what the map has for the id.
  unfoldable pub punch_hole : Server → ℕ → Option SocketAddr → Server × List Output
  punch_hole self stream none = (record self { phase = serving true true }, [])
  punch_hole self stream (some addr) = (
    record self { saved_stream = some stream; phase = serving true true },
    udp_send addr
          (message (request_relay (record default_request_relay { relay_server = relay_server })))
        ∷ [],
  )

  -- The arm of `relay_response`, on the saved stream; `take` leaves none.
  unfoldable pub start_relay : Server → Option ℕ → Server × List Output
  start_relay self none = (record self { phase = serving true true }, [])
  start_relay self (some stream) = (
    record self { saved_stream = none; phase = awaiting_a },
    tcp_send stream
          (message (relay_response (record default_relay_response { relay_server = relay_server })))
        ∷ [],
  )

  -- The `match` of `main` on the first message of an accepted stream.
  unfoldable pub dispatch_tcp : Server → ℕ → Option Union → Server × List Output
  unfolding punch_hole start_relay
  dispatch_tcp self stream (some (punch_hole_request ph)) =
      punch_hole self stream (HashMap.get self.id_map ph.id)
  dispatch_tcp self stream (some (relay_response _)) = start_relay self self.saved_stream
  dispatch_tcp self stream _ = (record self { phase = serving true true }, [])

  -- `if let Ok(msg_in)` of `main`.
  unfoldable pub parsed_tcp : Server → ℕ → Option RendezvousMessage → Server × List Output
  unfolding dispatch_tcp
  parsed_tcp self stream none = (record self { phase = serving true true }, [])
  parsed_tcp self stream (some msg_in) = dispatch_tcp self stream msg_in.union

  unfoldable pub handle_tcp : Server → ℕ → Option (List ℕ) → Server × List Output
  unfolding parsed_tcp
  handle_tcp self stream none = (record self { phase = serving true true }, [])
  handle_tcp self stream (some bytes) = parsed_tcp self stream (parse bytes)

  -- A datagram that a `select!` takes; `phase` is that of its next round.
  abbrev pub after_udp : Server → Phase → HashMap SocketAddr × List Output → Server × List Output
  after_udp self phase (id_map, outs) = (record self { id_map = id_map; phase = phase }, outs)

  -- One event, taken by the phase that waits for it; `none` if no code waits for it now.
  unfoldable pub react : Server → Phase → Event → Option (Server × List Output)
  unfolding handle_udp handle_tcp
  react self (serving true tcp) (datagram bytes addr) =
      some (after_udp self (serving true true) (handle_udp parse bytes addr self.id_map))
  react self (serving true true) udp_failed = some (record self { phase = serving false true }, [])
  react self (serving true false) udp_failed = some (record self { phase = panicked }, [])
  react self (serving udp true) (accepted stream) =
      some (record self { phase = greeting stream }, [])
  react self (serving true true) accept_failed =
      some (record self { phase = serving true false }, [])
  react self (serving false true) accept_failed = some (record self { phase = panicked }, [])
  react self (greeting stream) (greeted first) = some (handle_tcp self stream first)
  react self awaiting_a (relay_accepted a) = some (record self { phase = greeting_a a }, [])
  react self awaiting_a relay_accept_failed = some (record self { phase = serving true true }, [])
  react self (greeting_a a) (relay_greeted _) = some (record self { phase = awaiting_b a }, [])
  react self (awaiting_b a) (relay_accepted b) = some (record self { phase = greeting_b a b }, [])
  react self (awaiting_b a) relay_accept_failed =
      some (record self { phase = serving true true }, [])
  react self (greeting_b a b) (relay_greeted _) =
      some (record self { phase = relaying true a b }, [])
  react self (relaying true a b) (datagram bytes addr) =
      some (after_udp self (relaying true a b) (handle_udp parse bytes addr self.id_map))
  react self (relaying true a b) udp_failed = some (record self { phase = relaying false a b }, [])
  react self (relaying udp a b) (from_peer (some bytes)) =
      some (record self { phase = relaying true a b }, tcp_bytes a bytes ∷ [])
  react self (relaying udp a b) (from_stream (some bytes)) =
      some (record self { phase = relaying true a b }, tcp_bytes b bytes ∷ [])
  react self (relaying udp a b) (from_peer none) =
      some (record self { phase = serving true true }, [])
  react self (relaying udp a b) (from_stream none) =
      some (record self { phase = serving true true }, [])
  react self _ _ = none

  unfoldable pub step : Server → Event → Option (Server × List Output)
  unfolding react
  step self event = react self self.phase event

  -- A run: the events that were taken, in their order, and the outputs that they made.
  pub data Run (first : Server) : List Event → Server → List Output → Type 0 where
    idle : Run first [] first []
    next :
        {events : List Event} {s : Server} {outs : List Output}
        → Run first events s outs
        → (event : Event) {s' : Server} {more : List Output} → step s event ≡ some (s', more)
        → Run first (events ++ event ∷ []) s' (outs ++ more)
