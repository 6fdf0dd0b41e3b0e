-- ===== src/Rendezvous/Registry.antt =====
-- The map of ids: what a run leaves in it, and where a punch hole request goes.
use rustdesk_server_demo.Prelude.{
  ℕ, ◌≡◌, ◌∙◌, refl, sym, ap, true, String, Option, none, some, List, [], ◌∷◌, ◌++◌, str_eq,
  if◌then◌else◌, arith,
}
use rustdesk_server_demo.Prelude.HashMap
use rustdesk_server_demo.Prelude.HashMap.{HashMap, get-insert}
use rustdesk_server_demo.AddrMangle.{SocketAddr}
use rustdesk_server_demo.Rendezvous.Message.{
  RendezvousMessage, PunchHoleRequest, Union, register_peer, punch_hole_request, request_relay,
  message, default_request_relay,
}
use rustdesk_server_demo.Rendezvous.Server.{
  Output, udp_send, Phase, serving, greeting, Event, datagram, greeted, Server, dispatch_udp,
  handle_udp, punch_hole, dispatch_tcp, handle_tcp, parsed_tcp, handle_parsed, react, step, Run,
  idle, next, init,
}

module _ (parse : List ℕ → Option RendezvousMessage) (relay_server : String) where
  -- The address under which a message registers the id, if it does.
  abbrev registers :
      String → SocketAddr → Option RendezvousMessage → Option SocketAddr → Option SocketAddr
  registers id addr none old = old
  registers id addr (some m) old = elim m.union [
    | none ↦ old
    | some u ↦ elim u [ register_peer rp ↦ if str_eq rp.id id then some addr else old | _ ↦ old ]
  ]

  abbrev note : String → Event → Option SocketAddr → Option SocketAddr
  note id (datagram bytes addr) old = registers id addr (parse bytes) old
  note id _ old = old

  -- The address of the last datagram among the events that registers the id, or else `old`.
  unfoldable pub last_registered : String → Option SocketAddr → List Event → Option SocketAddr
  last_registered id old [] = old
  last_registered id old (event ∷ events) = last_registered id (note id event old) events

  last_registered-snoc :
      (id : String) (old : Option SocketAddr) (events : List Event) (event : Event)
      → last_registered id old (events ++ event ∷ [])
        ≡ note id event (last_registered id old events)
  unfolding last_registered
  last_registered-snoc id old [] event = refl
  last_registered-snoc id old (ev ∷ events) event =
      last_registered-snoc id (note id ev old) events event

  abbrev map_after : Event → HashMap SocketAddr → HashMap SocketAddr
  map_after (datagram bytes addr) id_map = (handle_udp parse bytes addr id_map).0
  map_after _ id_map = id_map

  id_map-dispatch_tcp :
      (self : Server) (stream : ℕ) (u : Option Union)
      → (dispatch_tcp parse relay_server self stream u).0.id_map ≡ self.id_map
  unfolding dispatch_tcp
  id_map-dispatch_tcp self stream u = ground arith

  id_map-parsed_tcp :
      (self : Server) (stream : ℕ) (m : Option RendezvousMessage)
      → (parsed_tcp parse relay_server self stream m).0.id_map ≡ self.id_map
  unfolding parsed_tcp
  id_map-parsed_tcp self stream none = refl
  id_map-parsed_tcp self stream (some m) = id_map-dispatch_tcp self stream m.union

  id_map-handle_tcp :
      (self : Server) (stream : ℕ) (first : Option (List ℕ))
      → (handle_tcp parse relay_server self stream first).0.id_map ≡ self.id_map
  unfolding handle_tcp
  id_map-handle_tcp self stream none = refl
  id_map-handle_tcp self stream (some bytes) = id_map-parsed_tcp self stream (parse bytes)

  id_map-react :
      (self s : Server) (outs : List Output) (phase : Phase) (event : Event)
      → react parse relay_server self phase event ≡ some (s, outs)
      → s.id_map ≡ map_after event self.id_map
  unfolding react
  id_map-react self s outs (serving udp tcp) (datagram bytes addr) h = ground arith
  id_map-react self s outs (greeting stream) (greeted first) h =
      ground (arith, id_map-handle_tcp self stream first)
  id_map-react self s outs phase event h = ground arith

  get-dispatch_udp :
      (id : String) (addr : SocketAddr) (id_map : HashMap SocketAddr) (m : RendezvousMessage)
      → HashMap.get (dispatch_udp m.union addr id_map).0 id
        ≡ registers id addr (some m) (HashMap.get id_map id)
  unfolding dispatch_udp
  get-dispatch_udp id addr id_map m = by_union m.union
    where
      by_union :
          (u : Option Union)
          → HashMap.get (dispatch_udp u addr id_map).0 id
            ≡ registers id addr (some (record { union = u })) (HashMap.get id_map id)
      by_union (some (register_peer rp)) = get-insert id_map rp.id id addr
      by_union _ = refl

  get-handle_parsed :
      (id : String) (addr : SocketAddr) (id_map : HashMap SocketAddr) (m : Option RendezvousMessage)
      → HashMap.get (handle_parsed m addr id_map).0 id ≡ registers id addr m (HashMap.get id_map id)
  unfolding handle_parsed
  get-handle_parsed id addr id_map none = refl
  get-handle_parsed id addr id_map (some m) = get-dispatch_udp id addr id_map m

  get-map_after :
      (id : String) (event : Event) (id_map : HashMap SocketAddr)
      → HashMap.get (map_after event id_map) id ≡ note id event (HashMap.get id_map id)
  unfolding handle_udp
  get-map_after id (datagram bytes addr) id_map = get-handle_parsed id addr id_map (parse bytes)
  get-map_after id _ id_map = refl

  id_map-step :
      (self s : Server) (outs : List Output) (event : Event)
      → step parse relay_server self event ≡ some (s, outs)
      → s.id_map ≡ map_after event self.id_map
  unfolding step
  id_map-step self s outs event h = id_map-react self s outs self.phase event h

  -- After any run the map has, for every id, the address of the last datagram that registered it, and
  -- what it had before if there was none. No other event changes the map, in any phase.
  pub registry :
      {first s : Server} {events : List Event} {outs : List Output} (id : String)
      → Run parse relay_server first events s outs
      → HashMap.get s.id_map id ≡ last_registered id (HashMap.get first.id_map id) events
  registry id idle = unfold last_registered in refl
  registry {first = first} id (next {events = events} {s = s} run event {s' = s'} {more = more} h) =
      ap (λ (m : HashMap SocketAddr). HashMap.get m id) (id_map-step s s' more event h)
      ∙ get-map_after id event s.id_map
      ∙ ap (note id event) (registry id run)
      ∙ sym (last_registered-snoc id (HashMap.get first.id_map id) events event)

  handle_tcp-punch_hole :
      (s : Server) (stream : ℕ) (bytes : List ℕ) (ph : PunchHoleRequest)
      → parse bytes ≡ some (message (punch_hole_request ph))
      → handle_tcp parse relay_server s stream (some bytes)
        ≡ punch_hole parse relay_server s stream (HashMap.get s.id_map ph.id)
  unfolding handle_tcp
  handle_tcp-punch_hole s stream bytes ph parsed =
      ap (parsed_tcp parse relay_server s stream) parsed

  step-punch_hole :
      (s : Server) (stream : ℕ) (bytes : List ℕ) (ph : PunchHoleRequest) (found : Option SocketAddr)
      → s.phase ≡ greeting stream
      → parse bytes ≡ some (message (punch_hole_request ph))
      → HashMap.get s.id_map ph.id ≡ found
      → step parse relay_server s (greeted (some bytes))
        ≡ some (punch_hole parse relay_server s stream found)
  unfolding step react
  step-punch_hole s stream bytes ph found phase parsed q =
      ap (λ (p : Phase). react parse relay_server s p (greeted (some bytes))) phase
      ∙ ap some (handle_tcp-punch_hole s stream bytes ph parsed)
      ∙ ap (λ (o : Option SocketAddr). some (punch_hole parse relay_server s stream o)) q

  -- From the start of the server, after any run: a client whose first message asks for an id gets the
  -- server to send one datagram, a relay request with the name of the relay server, to the address of
  -- the last registration of that id, and its stream is saved. For an id that never registered
  -- nothing is sent and nothing is saved.
  pub punch_hole_lem :
      {s : Server} {events : List Event} {outs : List Output} (stream : ℕ) (bytes : List ℕ)
      (ph : PunchHoleRequest)
      → Run parse relay_server init events s outs
      → s.phase ≡ greeting stream
      → parse bytes ≡ some (message (punch_hole_request ph))
      → ((addr : SocketAddr)
          → last_registered ph.id none events ≡ some addr
          → step parse relay_server s (greeted (some bytes))
            ≡ some (
              record s { saved_stream = some stream; phase = serving true true },
              udp_send addr (
                    message (
                      request_relay (record default_request_relay { relay_server = relay_server })))
                  ∷ [],
            ))
        × (last_registered ph.id none events ≡ none
            → step parse relay_server s (greeted (some bytes))
              ≡ some (record s { phase = serving true true }, []))
  unfolding punch_hole HashMap.get
  punch_hole_lem {s} stream bytes ph run phase parsed = (
    λ addr last.
        step-punch_hole s stream bytes ph (some addr) phase parsed (registry ph.id run ∙ last),
    λ last. step-punch_hole s stream bytes ph none phase parsed (registry ph.id run ∙ last),
  )
