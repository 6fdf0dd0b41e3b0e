-- ===== src/Rendezvous/Busy.antt =====
-- A relay from its begin to its end: the server takes no client in it, and no datagram before both of its
-- ends have connected and greeted.
use mathlib.Core.Path.{subst}
use rustdesk_server_demo.Prelude.{
  ℕ, ◌+◌, ◌≡◌, refl, sym, ap, ◌⊎◌, inl, inr, true, false, String, Option, none, some, List, [], ◌∷◌,
  ◌++◌, All, All-last, All-append, arith,
}
use rustdesk_server_demo.AddrMangle.{SocketAddr}
use rustdesk_server_demo.Rendezvous.Message.{RendezvousMessage}
use rustdesk_server_demo.Rendezvous.Server.{
  Output, Phase, serving, greeting, awaiting_a, greeting_a, awaiting_b, greeting_b, relaying,
  panicked, Event, datagram, accept_failed, relay_accept_failed, accepted, relay_accepted, greeted,
  relay_greeted, from_peer, from_stream, Server, react, step, Run, idle, next,
}

-- The events that end a relay: an accept of the relay's listener that fails, and the end of a stream.
abbrev pub Continues : Event → Type 0
Continues relay_accept_failed = ⊥
Continues (from_peer none) = ⊥
Continues (from_stream none) = ⊥
Continues _ = Unit

-- The streams that have connected to the relay's port, and how many of them were waited for.
unfoldable pub connected : List Event → List ℕ
connected [] = []
connected (relay_accepted a ∷ events) = a ∷ connected events
connected (_ ∷ events) = connected events

unfoldable pub waited : List Event → ℕ
waited [] = 0
waited (relay_greeted first ∷ events) = 1 + waited events
waited (_ ∷ events) = waited events

connected-append : (xs ys : List Event) → connected (xs ++ ys) ≡ connected xs ++ connected ys
unfolding connected
connected-append [] ys = refl
connected-append (relay_accepted a ∷ xs) ys = ap (λ l. a ∷ l) (connected-append xs ys)
connected-append (_ ∷ xs) ys = connected-append xs ys

waited-append : (xs ys : List Event) → waited (xs ++ ys) ≡ waited xs + waited ys
unfolding waited
waited-append [] ys = omega arith
waited-append (relay_greeted first ∷ xs) ys = omega (arith, waited-append xs ys)
waited-append (_ ∷ xs) ys = waited-append xs ys

-- No client of the first listener is accepted.
abbrev pub IsNoClient : Event → Type 0
IsNoClient (accepted stream) = ⊥
IsNoClient accept_failed = ⊥
IsNoClient (greeted first) = ⊥
IsNoClient _ = Unit

-- Which wait of the relay comes after so many connections and waits for a first message.
abbrev pub InRelay : Phase → List ℕ → ℕ → Type 0
InRelay awaiting_a names n = (names ≡ []) × (n ≡ 0)
InRelay (greeting_a a) names n = (names ≡ a ∷ []) × (n ≡ 0)
InRelay (awaiting_b a) names n = (names ≡ a ∷ []) × (n ≡ 1)
InRelay (greeting_b a b) names n = (names ≡ a ∷ b ∷ []) × (n ≡ 1)
InRelay (relaying udp a b) names n = (names ≡ a ∷ b ∷ []) × (n ≡ 2)
InRelay (serving udp tcp) names n = ⊥
InRelay (greeting stream) names n = ⊥
InRelay panicked names n = ⊥

module _ (parse : List ℕ → Option RendezvousMessage) (relay_server : String) where
  abbrev Taken : Event → List ℕ → ℕ → Option (Server × List Output) → Type 0
  Taken event names n none = Unit
  Taken event names n (some (s, outs)) =
      InRelay s.phase (names ++ connected (event ∷ [])) (n + waited (event ∷ [])) × IsNoClient event

  react-InRelay :
      (self : Server) (phase : Phase) (event : Event) (names : List ℕ) (n : ℕ)
      → InRelay phase names n
      → Continues event
      → Taken event names n (react parse relay_server self phase event)
  unfolding react connected waited
  react-InRelay self _ _ names n h k = ground arith

  step-InRelay :
      (self s : Server) (outs : List Output) (event : Event) (names : List ℕ) (n : ℕ)
      → InRelay self.phase names n
      → Continues event
      → step parse relay_server self event ≡ some (s, outs)
      → Taken event names n (some (s, outs))
  unfolding step
  step-InRelay self s outs event names n h k taken =
      subst (Taken event names n) taken (react-InRelay self self.phase event names n h k)

  run-InRelay :
      {first s : Server} {events : List Event} {outs : List Output}
      → first.phase ≡ awaiting_a
      → Run parse relay_server first events s outs
      → All Continues events
      → InRelay s.phase (connected events) (waited events) × All IsNoClient events
  unfolding connected waited
  run-InRelay begun idle k = (subst (λ p. InRelay p [] 0) (sym begun) (refl, refl), tt)
  run-InRelay begun (next {events = events} {s = s} run event {s' = s'} {more = more} taken) k =
      let (ks, k') = All-last Continues events event k in
      let (before, none_before) = run-InRelay begun run ks in
      let (now, no_client) =
        step-InRelay s s' more event (connected events) (waited events) before k' taken in
      (
        subst (λ names. InRelay s'.phase names (waited (events ++ event ∷ [])))
            (sym (connected-append events (event ∷ [])))
            (subst (InRelay s'.phase (connected events ++ connected (event ∷ [])))
              (sym (waited-append events (event ∷ []))) now),
        All-append IsNoClient events (event ∷ []) none_before (no_client, tt),
      )

  react-busy :
      (self : Server) (phase : Phase) (stream : ℕ) (bytes : List ℕ) (addr : SocketAddr)
      (names : List ℕ) (n : ℕ)
      → InRelay phase names n
      → (react parse relay_server self phase (accepted stream) ≡ none)
        × ((n ≡ 2) ⊎ (react parse relay_server self phase (datagram bytes addr) ≡ none))
  unfolding react
  react-busy self (relaying true a b) stream bytes addr names n h = (refl, inl h.1)
  react-busy self (relaying false a b) stream bytes addr names n h = (refl, inl h.1)
  react-busy self (serving udp tcp) stream bytes addr names n h = absurd h
  react-busy self (greeting x) stream bytes addr names n h = absurd h
  react-busy self panicked stream bytes addr names n h = absurd h
  react-busy self _ stream bytes addr names n h = (refl, inr refl)

  -- One relay at a time. From the moment that the server begins to wait for the first end of a relay,
  -- and as long as no accept for the relay fails and no relayed stream ends or fails: it is at the wait
  -- that the connections to the relay's port and the waits for their first messages come to, the
  -- second of which starts the relaying; no client was accepted, and none would be; and until both ends have
  -- connected and were waited for no datagram would be taken either, so that nobody can register.
  pub one_relay :
      {first s : Server} {events : List Event} {outs : List Output} (stream : ℕ) (bytes : List ℕ)
      (addr : SocketAddr)
      → first.phase ≡ awaiting_a
      → Run parse relay_server first events s outs
      → All Continues events
      → InRelay s.phase (connected events) (waited events)
        × All IsNoClient events
        × (step parse relay_server s (accepted stream) ≡ none)
        × ((waited events ≡ 2) ⊎ (step parse relay_server s (datagram bytes addr) ≡ none))
  unfolding step
  one_relay {s = s} {events = events} stream bytes addr begun run k =
      let (at, quiet) = run-InRelay begun run k in
      let (no_client, no_datagram) =
        react-busy s s.phase stream bytes addr (connected events) (waited events) at in
      (at, quiet, no_client, no_datagram)
