-- ===== src/Rendezvous/Rounds.antt =====
-- The rounds of the `select!` of `main`, and the panic where both of its branches have failed in one.
use mathlib.Core.Path.{subst}
use rustdesk_server_demo.Prelude.{
  ℕ, ◌≡◌, refl, sym, ◌↔◌, Bool, true, false, not, ◌||◌, String, Option, none, some, List, [], ◌∷◌,
  ◌++◌, arith,
}
use rustdesk_server_demo.Rendezvous.Message.{
  RendezvousMessage, Union, punch_hole_request, relay_response,
}
use rustdesk_server_demo.Prelude.HashMap
use rustdesk_server_demo.AddrMangle.{SocketAddr}
use rustdesk_server_demo.Rendezvous.Server.{
  Output, Phase, serving, greeting, relaying, panicked, Event, udp_failed, accept_failed, greeted,
  Server, init, punch_hole, start_relay, dispatch_tcp, parsed_tcp, handle_tcp, react, step, Run,
  idle, next,
}

-- Whether the socket has failed in this round, and whether the listener has. Any event but a failure
-- of the two ends the round.
abbrev pub Failures : Type 0
Failures = Bool × Bool

abbrev pub mark : Failures → Event → Failures
mark (udp, tcp) udp_failed = (true, tcp)
mark (udp, tcp) accept_failed = (udp, true)
mark _ _ = (false, false)

unfoldable pub failures : Failures → List Event → Failures
failures b [] = b
failures b (event ∷ events) = failures (mark b event) events

failures-append :
    (b : Failures) (events : List Event) (event : Event)
    → failures b (events ++ event ∷ []) ≡ mark (failures b events) event
unfolding failures
failures-append b [] event = refl
failures-append b (e ∷ events) event = failures-append (mark b e) events event

-- What the flags of a phase say of the failures.
abbrev Fits : Phase → Failures → Type 0
Fits (serving udp tcp) (u, t) = (u ≡ not udp) × (t ≡ not tcp) × ((udp || tcp) ≡ true)
Fits (relaying udp a b) (u, t) = (u ≡ not udp) × (t ≡ false)
Fits panicked (u, t) = (u ≡ true) × (t ≡ true)
Fits _ (u, t) = (u ≡ false) × (t ≡ false)

module _ (parse : List ℕ → Option RendezvousMessage) (relay_server : String) where
  abbrev Fine : Phase → Type 0
  Fine phase = Fits phase (false, false)

  Fine-handle_tcp :
      (self : Server) (stream : ℕ) (first : Option (List ℕ))
      → Fine (handle_tcp parse relay_server self stream first).0.phase
  unfolding handle_tcp
  Fine-handle_tcp self stream none = (refl, refl, refl)
  Fine-handle_tcp self stream (some bytes) = by_message (parse bytes)
    where
      by_saved : (o : Option ℕ) → Fine (start_relay parse relay_server self o).0.phase
      by_saved none = (refl, refl, refl)
      by_saved (some waiting) = (refl, refl)

      by_addr : (o : Option SocketAddr) → Fine (punch_hole parse relay_server self stream o).0.phase
      by_addr none = (refl, refl, refl)
      by_addr (some addr) = (refl, refl, refl)

      by_union : (u : Option Union) → Fine (dispatch_tcp parse relay_server self stream u).0.phase
      by_union (some (punch_hole_request ph)) = by_addr (HashMap.get self.id_map ph.id)
      by_union (some (relay_response r)) = by_saved self.saved_stream
      by_union _ = (refl, refl, refl)

      by_message :
          (m : Option RendezvousMessage)
          → Fine (parsed_tcp parse relay_server self stream m).0.phase
      by_message none = (refl, refl, refl)
      by_message (some m) = by_union m.union

  abbrev Taken : Failures → Option (Server × List Output) → Type 0
  Taken b none = Unit
  Taken b (some (s, outs)) = Fits s.phase b

  react-Fits :
      (self : Server) (phase : Phase) (event : Event) (b : Failures)
      → Fits phase b
      → Taken (mark b event) (react parse relay_server self phase event)
  unfolding react
  react-Fits self (greeting stream) (greeted first) (u, t) h = Fine-handle_tcp self stream first
  react-Fits self _ _ (u, t) h = ground arith

  step-Fits :
      (self s : Server) (outs : List Output) (event : Event) (b : Failures)
      → Fits self.phase b
      → step parse relay_server self event ≡ some (s, outs)
      → Fits s.phase (mark b event)
  unfolding step
  step-Fits self s outs event b h taken =
      subst (Taken (mark b event)) taken (react-Fits self self.phase event b h)

  run-Fits :
      {first s : Server} {events : List Event} {outs : List Output} (b : Failures)
      → Fits first.phase b
      → Run parse relay_server first events s outs
      → Fits s.phase (failures b events)
  unfolding failures
  run-Fits b h idle = h
  run-Fits b h (next {events = events} {s = s} run event {s' = s'} {more = more} taken) =
      subst (Fits s'.phase) (sym (failures-append b events event))
        (step-Fits s s' more event (failures b events) (run-Fits b h run) taken)

  Fits-panicked :
      (phase : Phase) (b : Failures) → Fits phase b → (phase ≡ panicked) ↔ (b ≡ (true, true))
  Fits-panicked phase (u, t) h = ground arith

  -- After any run of the server from its start, it has panicked exactly if both its socket and the
  -- accept of its first listener have failed since the last event other than such a failure, that is
  -- in one round of the `select!` of `main`: failures of different rounds do not add up.
  pub panic_exactly :
      {s : Server} {events : List Event} {outs : List Output}
      → Run parse relay_server init events s outs
      → (s.phase ≡ panicked) ↔ (failures (false, false) events ≡ (true, true))
  panic_exactly {s = s} {events = events} run =
      Fits-panicked s.phase (failures (false, false) events)
        (run-Fits (false, false) (refl, refl, refl) run)
