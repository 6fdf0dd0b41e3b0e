-- ===== src/Rendezvous/Runs.antt =====
-- A server with one registered client, a punch hole request, a relay, and the theorems on it.
use rustdesk_server_demo.Prelude.{
  ℕ, zero, suc, ◌≡◌, ◌↔◌, ◌⊎◌, refl, Bool, true, false, Option, none, some, List, [], ◌∷◌, All,
  arith,
}
use rustdesk_server_demo.Prelude.HashMap
use rustdesk_server_demo.Prelude.Int.{pos}
use rustdesk_server_demo.AddrMangle.{SocketAddr, v4}
use rustdesk_server_demo.Rendezvous.Message
use rustdesk_server_demo.Rendezvous.Message.{
  RendezvousMessage, PunchHoleRequest, RelayResponse, register_peer, register_peer_response,
  punch_hole_request, request_relay, relay_response, message, default_request_relay,
  default_relay_response,
}
use rustdesk_server_demo.Rendezvous.Server.{
  Output, udp_send, tcp_send, tcp_bytes, serving, greeting, awaiting_a, greeting_a, awaiting_b,
  relaying, panicked, relay_accepted, relay_greeted, Event, datagram, udp_failed, accept_failed,
  accepted, greeted, from_peer, Server, init, step, Run, idle, next,
}
use rustdesk_server_demo.Rendezvous.Registry.{last_registered, registry, punch_hole_lem}
use rustdesk_server_demo.Rendezvous.Relay.{
  peer_sent, stream_sent, written_to, on_streams, forwarded, relay_forwards,
}
use rustdesk_server_demo.Rendezvous.Waits.{pairing}
use rustdesk_server_demo.Rendezvous.Rounds.{failures, panic_exactly}
use rustdesk_server_demo.Rendezvous.Busy.{InRelay, IsNoClient, connected, waited, one_relay}

abbrev ann : SocketAddr
ann = v4 (10 ∷ 0 ∷ 0 ∷ 1 ∷ []) 5000

abbrev ask : PunchHoleRequest
ask = record { id = "ann"; nat_type = Message.NatType.unknown_nat }

-- A stand-in for the generated parser: three one-byte messages.
parse : List ℕ → Option RendezvousMessage
parse (suc zero ∷ []) = some (message (register_peer (record { id = "ann"; serial = pos 0 })))
parse (suc (suc zero) ∷ []) = some (message (punch_hole_request ask))
parse (suc (suc (suc zero)) ∷ []) = some (message (relay_response default_relay_response))
parse _ = none

abbrev greeted_server : Server
greeted_server = record { id_map = ("ann", ann) ∷ []; saved_stream = none; phase = greeting 7 }

abbrev history : List Event
history = datagram (1 ∷ []) ann ∷ accepted 7 ∷ []

abbrev registered : Output
registered = udp_send ann (message (register_peer_response (record { request_pk = false })))

history_run : Run parse "relay" init history greeted_server (registered ∷ [])
unfolding parse step HashMap.insert
history_run =
    next
      (next idle (datagram (1 ∷ []) ann) {s' = record init { id_map = ("ann", ann) ∷ [] }}
        {more = registered ∷ []} refl)
      (accepted 7) {s' = greeted_server} {more = []} refl

registry_example :
    HashMap.get greeted_server.id_map "ann"
    ≡ last_registered parse "relay" "ann" (HashMap.get init.id_map "ann") history
registry_example = registry parse "relay" "ann" history_run

last_ann : last_registered parse "relay" "ann" none history ≡ some ann
unfolding last_registered parse
last_ann = refl

punch_hole_lem_example :
    ((addr : SocketAddr)
      → last_registered parse "relay" "ann" none history ≡ some addr
      → step parse "relay" greeted_server (greeted (some (2 ∷ [])))
        ≡ some (
          record greeted_server { saved_stream = some 7; phase = serving true true },
          udp_send addr
                (message (request_relay (record default_request_relay { relay_server = "relay" })))
              ∷ [],
        ))
    × (last_registered parse "relay" "ann" none history ≡ none
        → step parse "relay" greeted_server (greeted (some (2 ∷ [])))
          ≡ some (record greeted_server { phase = serving true true }, []))
unfolding parse
punch_hole_lem_example = punch_hole_lem parse "relay" 7 (2 ∷ []) ask history_run refl refl

abbrev saved_server : Server
saved_server = record init { saved_stream = some 7 }

abbrev responder : Server
responder = record saved_server { phase = greeting 8 }

-- A client that says nothing, then the one that answers.
abbrev two_clients : List Event
two_clients = accepted 6 ∷ greeted none ∷ accepted 8 ∷ []

accept_run : Run parse "relay" saved_server two_clients responder []
unfolding step
accept_run =
    next
      (next
        (next idle (accepted 6) {s' = record saved_server { phase = greeting 6 }} {more = []} refl)
        (greeted none) {s' = saved_server} {more = []} refl)
      (accepted 8) {s' = responder} {more = []} refl

pairing_example :
    Unit {0}
    × ((waiting : ℕ)
        → ◌≡◌ {A = Option ℕ} (some 7) (some waiting)
        → step parse "relay" responder (greeted (some (3 ∷ [])))
          ≡ some (
            record responder { saved_stream = none; phase = awaiting_a },
            tcp_send waiting (
                  message
                    (relay_response (record default_relay_response { relay_server = "relay" })))
                ∷ [],
          ))
    × (◌≡◌ {A = Option ℕ} (some 7) none
        → step parse "relay" responder (greeted (some (3 ∷ [])))
          ≡ some (record responder { phase = serving true true }, []))
unfolding parse
pairing_example =
    pairing parse "relay" {first = saved_server} 8 (3 ∷ []) default_relay_response accept_run
      (tt, (tt, (tt, tt))) refl refl

abbrev relay_server : Server
relay_server = record init { phase = relaying true 1 2 }

relay_run :
    Run parse "relay" relay_server
      (from_peer (some (5 ∷ [])) ∷ [])
      relay_server
      (tcp_bytes 1 (5 ∷ []) ∷ [])
unfolding step
relay_run = next idle (from_peer (some (5 ∷ []))) refl

relay_forwards_example :
    (udp' : Bool) × (relay_server.phase ≡ relaying udp' 1 2)
    × (relay_server.saved_stream ≡ relay_server.saved_stream)
    × (written_to 1 (tcp_bytes 1 (5 ∷ []) ∷ []) ≡ peer_sent (from_peer (some (5 ∷ [])) ∷ []))
    × (written_to 2 (tcp_bytes 1 (5 ∷ []) ∷ []) ≡ stream_sent (from_peer (some (5 ∷ [])) ∷ []))
    × (on_streams (tcp_bytes 1 (5 ∷ []) ∷ []) ≡ forwarded 1 2 (from_peer (some (5 ∷ [])) ∷ []))
relay_forwards_example = relay_forwards parse "relay" 1 2 (omega arith) true refl relay_run (tt, tt)

abbrev doomed : Server
doomed = record init { phase = panicked }

abbrev both_fail : List Event
both_fail = accept_failed ∷ udp_failed ∷ []

panic_run : Run parse "relay" init both_fail doomed []
unfolding step
panic_run =
    next
      (next idle accept_failed {s' = record init { phase = serving true false }} {more = []} refl)
      udp_failed {s' = doomed} {more = []} refl

panic_exactly_example :
    (doomed.phase ≡ panicked) ↔ (failures (false, false) both_fail ≡ (true, true))
panic_exactly_example = panic_exactly parse "relay" panic_run

abbrev begun : Server
begun = record init { phase = awaiting_a }

abbrev one_end : Server
one_end = record init { phase = awaiting_b 1 }

abbrev first_end : List Event
first_end = relay_accepted 1 ∷ relay_greeted none ∷ []

busy_run : Run parse "relay" begun first_end one_end []
unfolding step
busy_run =
    next (next idle (relay_accepted 1) {s' = record init { phase = greeting_a 1 }} {more = []} refl)
      (relay_greeted none) {s' = one_end} {more = []} refl

one_relay_example :
    InRelay one_end.phase (connected first_end) (waited first_end)
    × All IsNoClient first_end
    × (step parse "relay" one_end (accepted 3) ≡ none)
    × ((waited first_end ≡ 2) ⊎ (step parse "relay" one_end (datagram (1 ∷ []) ann) ≡ none))
one_relay_example = one_relay parse "relay" 3 (1 ∷ []) ann refl busy_run (tt, (tt, tt))
