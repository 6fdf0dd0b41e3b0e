-- ===== src/Rendezvous/Waits.antt =====
-- Pairing by the saved stream: what keeps it, and what a relay response does with it.
use mathlib.Core.Path.{subst}
use rustdesk_server_demo.Prelude.{
  sym, ℕ, ◌≡◌, ◌∙◌, refl, ap, true, String, Option, none, some, List, [], ◌∷◌, All, All-append,
  All-last, arith,
}
use rustdesk_server_demo.Prelude.HashMap.{HashMap}
use rustdesk_server_demo.AddrMangle.{SocketAddr}
use rustdesk_server_demo.Rendezvous.Message.{
  RendezvousMessage, RelayResponse, Union, punch_hole_request, register_peer, register_pk,
  relay_response, message, default_relay_response,
}
use rustdesk_server_demo.Rendezvous.Server.{
  Output, udp_send, tcp_send, Phase, serving, greeting, awaiting_a, relaying, Event, datagram,
  greeted, from_peer, from_stream, Server, dispatch_udp, handle_udp, start_relay, dispatch_tcp,
  handle_tcp, parsed_tcp, handle_parsed, react, step, Run, idle, next,
}

-- No message is sent on a stream.
abbrev pub IsUdp : Output → Type 0
IsUdp (udp_send addr m) = Unit
IsUdp _ = ⊥

-- A first message that neither asks for a punch hole nor answers one, or none at all.
abbrev pub IsOtherUnion : Option Union → Type 0
IsOtherUnion (some (punch_hole_request ph)) = ⊥
IsOtherUnion (some (relay_response r)) = ⊥
IsOtherUnion _ = Unit

abbrev pub IsOther : Option RendezvousMessage → Type 0
IsOther none = Unit
IsOther (some m) = IsOtherUnion m.union

-- Events other than a punch hole request, a relay response, and the bytes or the end of a relay.
abbrev pub IsBystander : (List ℕ → Option RendezvousMessage) → Event → Type 0
IsBystander parse (greeted none) = Unit
IsBystander parse (greeted (some bytes)) = IsOther (parse bytes)
IsBystander parse (from_peer bytes) = ⊥
IsBystander parse (from_stream bytes) = ⊥
IsBystander parse _ = Unit

All-IsUdp-dispatch_udp :
    (u : Option Union) (addr : SocketAddr) (id_map : HashMap SocketAddr)
    → All IsUdp (dispatch_udp u addr id_map).1
unfolding dispatch_udp
All-IsUdp-dispatch_udp (some (register_peer rp)) addr id_map = (tt, tt)
All-IsUdp-dispatch_udp (some (register_pk rk)) addr id_map = (tt, tt)
All-IsUdp-dispatch_udp _ addr id_map = tt

All-IsUdp-handle_parsed :
    (m : Option RendezvousMessage) (addr : SocketAddr) (id_map : HashMap SocketAddr)
    → All IsUdp (handle_parsed m addr id_map).1
unfolding handle_parsed
All-IsUdp-handle_parsed none addr id_map = tt
All-IsUdp-handle_parsed (some m) addr id_map = All-IsUdp-dispatch_udp m.union addr id_map

module _ (parse : List ℕ → Option RendezvousMessage) (relay_server : String) where
  -- What holds of a step if it is taken.
  abbrev Taken : (Server → List Output → Type 0) → Option (Server × List Output) → Type 0
  Taken P none = Unit
  Taken P (some (s, outs)) = P s outs

  abbrev Bystood : Server → Server → List Output → Type 0
  Bystood self s outs = (s.saved_stream ≡ self.saved_stream) × All IsUdp outs

  handle_tcp_other :
      (self : Server) (stream : ℕ) (first : Option (List ℕ))
      → IsBystander parse (greeted first)
      → handle_tcp parse relay_server self stream first
        ≡ (record self { phase = serving true true }, [])
  unfolding handle_tcp
  handle_tcp_other self stream none k = refl
  handle_tcp_other self stream (some bytes) k = by_message (parse bytes) k
    where
      by_union :
          (u : Option Union)
          → IsOtherUnion u
          → dispatch_tcp parse relay_server self stream u
            ≡ (record self { phase = serving true true }, [])
      by_union u k = ground arith

      by_message :
          (m : Option RendezvousMessage)
          → IsOther m
          → parsed_tcp parse relay_server self stream m
            ≡ (record self { phase = serving true true }, [])
      by_message none k = refl
      by_message (some m) k = by_union m.union k

  react-Bystood :
      (self : Server) (phase : Phase) (event : Event)
      → IsBystander parse event
      → Taken (Bystood self) (react parse relay_server self phase event)
  unfolding react handle_udp
  react-Bystood self (serving true tcp) (datagram bytes addr) k =
      (refl, All-IsUdp-handle_parsed (parse bytes) addr self.id_map)
  react-Bystood self (relaying true a b) (datagram bytes addr) k =
      (refl, All-IsUdp-handle_parsed (parse bytes) addr self.id_map)
  react-Bystood self (greeting stream) (greeted first) k =
      subst (λ r. Bystood self r.0 r.1) (sym (handle_tcp_other self stream first k)) (refl, tt)
  react-Bystood self (relaying udp a b) (from_peer o) k = absurd k
  react-Bystood self (relaying udp a b) (from_stream o) k = absurd k
  react-Bystood self _ _ k = ground arith

  step-Bystood :
      (self s : Server) (outs : List Output) (event : Event)
      → IsBystander parse event
      → step parse relay_server self event ≡ some (s, outs)
      → Bystood self s outs
  unfolding step
  step-Bystood self s outs event k h = rw h at (react-Bystood self self.phase event k)

  kept :
      {first s : Server} {events : List Event} {outs : List Output}
      → Run parse relay_server first events s outs
      → All (IsBystander parse) events
      → Bystood first s outs
  kept idle k = (refl, tt)
  kept (next {events = events} {s = s} {outs = outs} run event {s' = s'} {more = more} h) k =
      let (ks, k') = All-last (IsBystander parse) events event k in
      let (before, quiet) = kept run ks in
      let (now, quiet') = step-Bystood s s' more event k' h in
      (now ∙ before, All-append IsUdp outs more quiet quiet')

  step-relay_response :
      (s : Server) (stream : ℕ) (bytes : List ℕ) (r : RelayResponse) (saved : Option ℕ)
      → s.phase ≡ greeting stream
      → parse bytes ≡ some (message (relay_response r))
      → s.saved_stream ≡ saved
      → step parse relay_server s (greeted (some bytes))
        ≡ some (start_relay parse relay_server s saved)
  unfolding step react handle_tcp parsed_tcp
  step-relay_response s stream bytes r saved phase parsed q =
      ap (λ (p : Phase). react parse relay_server s p (greeted (some bytes))) phase
      ∙ ap (λ (m : Option RendezvousMessage). some (parsed_tcp parse relay_server s stream m))
          parsed
      ∙ ap (λ (o : Option ℕ). some (start_relay parse relay_server s o)) q

  -- The stream that a punch hole request saved stays saved, and nothing is sent on any stream, through
  -- datagrams, failures, newly accepted clients, and first messages of theirs that time out, fail or are
  -- neither a punch hole request nor a relay response. Then a relay response from any client has the
  -- server answer on the saved stream, with the name of the relay server, take it out, and wait for the
  -- first end of the relay. With no saved stream a relay response does nothing.
  pub pairing :
      {first s : Server} {events : List Event} {outs : List Output} (stream : ℕ) (bytes : List ℕ)
      (r : RelayResponse)
      → Run parse relay_server first events s outs
      → All (IsBystander parse) events
      → s.phase ≡ greeting stream
      → parse bytes ≡ some (message (relay_response r))
      → All IsUdp outs
        × ((waiting : ℕ)
            → first.saved_stream ≡ some waiting
            → step parse relay_server s (greeted (some bytes))
              ≡ some (
                record s { saved_stream = none; phase = awaiting_a },
                tcp_send waiting (
                      message (
                        relay_response
                          (record default_relay_response { relay_server = relay_server })))
                    ∷ [],
              ))
        × (first.saved_stream ≡ none
            → step parse relay_server s (greeted (some bytes))
              ≡ some (record s { phase = serving true true }, []))
  unfolding start_relay
  pairing {s = s} stream bytes r run k phase parsed =
      let (same, quiet) = kept run k in
      (
        quiet,
        λ waiting q. step-relay_response s stream bytes r (some waiting) phase parsed (same ∙ q),
        λ q. step-relay_response s stream bytes r none phase parsed (same ∙ q),
      )
