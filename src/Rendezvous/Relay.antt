-- ===== src/Rendezvous/Relay.antt =====
-- The loop of `relay`: what one stream sends comes out of the other, while datagrams are served.
use rustdesk_server_demo.Prelude.{
  ℕ, ◌≡◌, ◌∙◌, refl, sym, ap, ◌≢◌, Bool, true, false, String, Option, none, some, List, [], ◌∷◌,
  ◌++◌, All-last, ◌==◌, if◌then◌else◌, All, arith,
}
use rustdesk_server_demo.Prelude.HashMap.{HashMap}
use rustdesk_server_demo.AddrMangle.{SocketAddr}
use rustdesk_server_demo.Rendezvous.Message.{RendezvousMessage, Union}
use rustdesk_server_demo.Rendezvous.Server.{
  Output, udp_send, tcp_send, tcp_bytes, relaying, Event, datagram, udp_failed, from_peer,
  from_stream, Server, dispatch_udp, handle_udp, handle_parsed, react, step, Run, idle, next,
}

-- The events of a relay that goes on.
abbrev pub IsRelayed : Event → Type 0
IsRelayed (datagram bytes addr) = Unit
IsRelayed udp_failed = Unit
IsRelayed (from_peer (some bytes)) = Unit
IsRelayed (from_stream (some bytes)) = Unit
IsRelayed _ = ⊥

-- What came from the peer and from the stream, piece by piece.
pub peer_sent : List Event → List (List ℕ)
peer_sent [] = []
peer_sent (from_peer (some bytes) ∷ events) = bytes ∷ peer_sent events
peer_sent (_ ∷ events) = peer_sent events

pub stream_sent : List Event → List (List ℕ)
stream_sent [] = []
stream_sent (from_stream (some bytes) ∷ events) = bytes ∷ stream_sent events
stream_sent (_ ∷ events) = stream_sent events

-- All that is sent on a stream, in its order, and what a relay of `a` and `b` makes of its events.
pub on_streams : List Output → List Output
on_streams [] = []
on_streams (udp_send addr m ∷ outs) = on_streams outs
on_streams (out ∷ outs) = out ∷ on_streams outs

pub forwarded : ℕ → ℕ → List Event → List Output
forwarded a b [] = []
forwarded a b (from_peer (some bytes) ∷ events) = tcp_bytes a bytes ∷ forwarded a b events
forwarded a b (from_stream (some bytes) ∷ events) = tcp_bytes b bytes ∷ forwarded a b events
forwarded a b (_ ∷ events) = forwarded a b events

-- The bytes that were written to a stream.
pub written_to : ℕ → List Output → List (List ℕ)
written_to a [] = []
written_to a (tcp_bytes b bytes ∷ outs) =
    let rest = written_to a outs in if a == b then bytes ∷ rest else rest
written_to a (_ ∷ outs) = written_to a outs

peer_sent-append : (xs ys : List Event) → peer_sent (xs ++ ys) ≡ peer_sent xs ++ peer_sent ys
unfolding peer_sent
peer_sent-append [] ys = refl
peer_sent-append (from_peer (some bytes) ∷ xs) ys = rw (peer_sent-append xs ys)
peer_sent-append (_ ∷ xs) ys = peer_sent-append xs ys

stream_sent-append :
    (xs ys : List Event) → stream_sent (xs ++ ys) ≡ stream_sent xs ++ stream_sent ys
unfolding stream_sent
stream_sent-append [] ys = refl
stream_sent-append (from_stream (some bytes) ∷ xs) ys = rw (stream_sent-append xs ys)
stream_sent-append (_ ∷ xs) ys = stream_sent-append xs ys

written_to-append :
    (a : ℕ) (xs ys : List Output) → written_to a (xs ++ ys) ≡ written_to a xs ++ written_to a ys
unfolding written_to
written_to-append a [] ys = refl
written_to-append a (tcp_bytes b bytes ∷ xs) ys = ground (arith, written_to-append a xs ys)
written_to-append a (udp_send addr m ∷ xs) ys = written_to-append a xs ys
written_to-append a (tcp_send b m ∷ xs) ys = written_to-append a xs ys

on_streams-append : (xs ys : List Output) → on_streams (xs ++ ys) ≡ on_streams xs ++ on_streams ys
unfolding on_streams
on_streams-append [] ys = refl
on_streams-append (udp_send addr m ∷ xs) ys = on_streams-append xs ys
on_streams-append (tcp_send b m ∷ xs) ys = ap (λ l. tcp_send b m ∷ l) (on_streams-append xs ys)
on_streams-append (tcp_bytes b bytes ∷ xs) ys =
    ap (λ l. tcp_bytes b bytes ∷ l) (on_streams-append xs ys)

forwarded-append :
    (a b : ℕ) (xs ys : List Event) → forwarded a b (xs ++ ys) ≡ forwarded a b xs ++ forwarded a b ys
unfolding forwarded
forwarded-append a b [] ys = refl
forwarded-append a b (from_peer (some bytes) ∷ xs) ys =
    ap (λ l. tcp_bytes a bytes ∷ l) (forwarded-append a b xs ys)
forwarded-append a b (from_stream (some bytes) ∷ xs) ys =
    ap (λ l. tcp_bytes b bytes ∷ l) (forwarded-append a b xs ys)
forwarded-append a b (_ ∷ xs) ys = forwarded-append a b xs ys

on_streams-dispatch_udp :
    (u : Option Union) (addr : SocketAddr) (id_map : HashMap SocketAddr)
    → on_streams (dispatch_udp u addr id_map).1 ≡ []
unfolding dispatch_udp on_streams
on_streams-dispatch_udp u addr id_map = ground arith

on_streams-handle_parsed :
    (m : Option RendezvousMessage) (addr : SocketAddr) (id_map : HashMap SocketAddr)
    → on_streams (handle_parsed m addr id_map).1 ≡ []
unfolding handle_parsed on_streams
on_streams-handle_parsed none addr id_map = refl
on_streams-handle_parsed (some m) addr id_map = on_streams-dispatch_udp m.union addr id_map

written_to-dispatch_udp :
    (a : ℕ) (u : Option Union) (addr : SocketAddr) (id_map : HashMap SocketAddr)
    → written_to a (dispatch_udp u addr id_map).1 ≡ []
unfolding dispatch_udp written_to
written_to-dispatch_udp a u addr id_map = ground arith

written_to-handle_parsed :
    (a : ℕ) (m : Option RendezvousMessage) (addr : SocketAddr) (id_map : HashMap SocketAddr)
    → written_to a (handle_parsed m addr id_map).1 ≡ []
unfolding handle_parsed written_to
written_to-handle_parsed a none addr id_map = refl
written_to-handle_parsed a (some m) addr id_map = written_to-dispatch_udp a m.union addr id_map

module _ (parse : List ℕ → Option RendezvousMessage) (relay_server : String) where
  written_to-handle_udp :
      (a : ℕ) (bytes : List ℕ) (addr : SocketAddr) (id_map : HashMap SocketAddr)
      → written_to a (handle_udp parse bytes addr id_map).1 ≡ []
  unfolding handle_udp
  written_to-handle_udp a bytes addr id_map = written_to-handle_parsed a (parse bytes) addr id_map

  on_streams-handle_udp :
      (bytes : List ℕ) (addr : SocketAddr) (id_map : HashMap SocketAddr)
      → on_streams (handle_udp parse bytes addr id_map).1 ≡ []
  unfolding handle_udp
  on_streams-handle_udp bytes addr id_map = on_streams-handle_parsed (parse bytes) addr id_map

  module _ (a b : ℕ) (apart : a ≢ b) where
    -- The relay of `a` and `b` goes on, and this step has passed on what it took.
    abbrev Passed : Event → Server → Server → List Output → Type 0
    Passed event self s outs =
        (udp : Bool) × (s.phase ≡ relaying udp a b)
        × (s.saved_stream ≡ self.saved_stream)
        × (written_to a outs ≡ peer_sent (event ∷ []))
        × (written_to b outs ≡ stream_sent (event ∷ []))
        × (on_streams outs ≡ forwarded a b (event ∷ []))

    react-Passed :
        (self s : Server) (outs : List Output) (udp : Bool) (event : Event)
        → IsRelayed event
        → react parse relay_server self (relaying udp a b) event ≡ some (s, outs)
        → Passed event self s outs
    unfolding react written_to peer_sent stream_sent on_streams forwarded
    react-Passed self s outs true (datagram bytes addr) k h = (
      true,
      ground arith,
      ground arith,
      ground (arith, written_to-handle_udp a bytes addr self.id_map),
      ground (arith, written_to-handle_udp b bytes addr self.id_map),
      ground (arith, on_streams-handle_udp bytes addr self.id_map),
    )
    react-Passed self s outs true udp_failed k h =
        (false, ground arith, ground arith, ground arith, ground arith, ground arith)
    react-Passed self s outs true (from_peer (some bytes)) k h =
        (true, ground arith, ground arith, ground arith, ground arith, ground arith)
    react-Passed self s outs false (from_peer (some bytes)) k h =
        (true, ground arith, ground arith, ground arith, ground arith, ground arith)
    react-Passed self s outs true (from_stream (some bytes)) k h =
        (true, ground arith, ground arith, ground arith, ground arith, ground arith)
    react-Passed self s outs false (from_stream (some bytes)) k h =
        (true, ground arith, ground arith, ground arith, ground arith, ground arith)
    react-Passed self s outs _ _ k h = absurd (ground arith)

    -- In a relay that goes on, whatever datagrams come in between and in whatever order the two
    -- streams are read: the first stream is written what the second sent, the second what the first
    -- sent, piece by piece in their order; nothing else, no message either, is sent on these or on any
    -- other stream; and the saved stream is kept.
    pub relay_forwards :
        {first s : Server} {events : List Event} {outs : List Output} (udp : Bool)
        → first.phase ≡ relaying udp a b
        → Run parse relay_server first events s outs
        → All IsRelayed events
        → (udp' : Bool) × (s.phase ≡ relaying udp' a b)
          × (s.saved_stream ≡ first.saved_stream)
          × (written_to a outs ≡ peer_sent events)
          × (written_to b outs ≡ stream_sent events)
          × (on_streams outs ≡ forwarded a b events)
    unfolding step
    relay_forwards udp phase idle k =
        unfold written_to peer_sent stream_sent on_streams forwarded in
        (udp, phase, refl, refl, refl, refl)
    relay_forwards udp phase
          (next {events = events} {s = s} {outs = outs} run event {s' = s'} {more = more} h) k =
        let (ks, k') = All-last IsRelayed events event k in
        let (udp', still, saved, to_a, to_b, all) = relay_forwards udp phase run ks in
        let (udp'', p, kept, more_a, more_b, more_all) =
          react-Passed s s' more udp' event k' (rw still at h) in
        (
          udp'',
          p,
          kept ∙ saved,
          written_to-append a outs more
              ∙ rw (to_a, more_a) (sym (peer_sent-append events (event ∷ []))),
          written_to-append b outs more
              ∙ rw (to_b, more_b) (sym (stream_sent-append events (event ∷ []))),
          on_streams-append outs more
              ∙ rw (all, more_all) (sym (forwarded-append a b events (event ∷ []))),
        )
