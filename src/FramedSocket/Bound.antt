-- ===== src/FramedSocket/Bound.antt =====
-- The loops over addresses that return in their first round.
use mathlib.Core.Path.{subst}
use rustdesk_server_demo.Prelude.{
  ◌≡◌, refl, sym, ◌∙◌, true, false, Option, none, some, String, List, [], ◌∷◌, ◌++◌,
}
use rustdesk_server_demo.AddrMangle.{SocketAddr}
use rustdesk_server_demo.Sockets.{
  Event, Answer, ok, err, system, unresolved, stream, dgram, socket, set_reuse_port,
  set_reuse_address, bind, listen, from_std, Call, resolved, History, System, and_then, domain, ask,
  resolve_answer, new_socket,
}
use rustdesk_server_demo.Sockets.Calls.{
  Made, run_calls-Made, run_calls, and_then_ext, run_one, after_socket,
}
use rustdesk_server_demo.FramedStream.Connect.{listen_first, new_listener}
use rustdesk_server_demo.FramedSocket.{framed, reuse_first, new_reuse}

abbrev pub listener_calls : SocketAddr → List Call
listener_calls addr =
    socket (domain addr) stream
    ∷ set_reuse_port
    ∷ set_reuse_address
    ∷ bind addr
    ∷ listen 128
    ∷ from_std
    ∷ []

abbrev pub datagram_calls : SocketAddr → List Call
datagram_calls addr =
    socket (domain addr) dgram ∷ set_reuse_port ∷ set_reuse_address ∷ bind addr ∷ from_std ∷ []

listen_first-calls :
    (os : System) (addr : SocketAddr) (addrs : List SocketAddr) (seen : History)
    → listen_first os (addr ∷ addrs) seen ≡ run_calls os (listener_calls addr) seen
unfolding run_calls
listen_first-calls os addr addrs seen =
    and_then_ext (new_socket os addr true true seen) _ _ (λ _ bound.
      and_then_ext (ask os (listen 128) bound) _ _
        (λ _ listening. sym (run_one os from_std listening)))
    ∙ after_socket os addr true (listen 128 ∷ from_std ∷ []) seen

reuse_first-calls :
    (os : System) (addr : SocketAddr) (addrs : List SocketAddr) (seen : History)
    → reuse_first os (addr ∷ addrs) seen ≡ run_calls os (datagram_calls addr) seen
reuse_first-calls os addr addrs seen =
    and_then_ext (new_socket os addr false true seen) _ _
      (λ _ bound. sym (run_one os from_std bound))
    ∙ after_socket os addr false (from_std ∷ []) seen

-- What a socket for a host comes to, by what the host resolves to.
abbrev pub Bound {ℓ} :
    {A : Type ℓ}
    → (SocketAddr → List Call)
    → String
    → Option (List SocketAddr)
    → History
    → Answer A × History
    → Type 0
Bound calls host none seen (ok _, end) = ⊥
Bound calls host none seen (err x, end) = (x ≡ system) × (end ≡ seen ++ resolved host none ∷ [])
Bound calls host (some []) seen (ok _, end) = ⊥
Bound calls host (some []) seen (err x, end) =
    (x ≡ unresolved) × (end ≡ seen ++ resolved host (some []) ∷ [])
Bound calls host (some (addr ∷ addrs)) seen (answer, end) =
    (events : List Event) × (end ≡ (seen ++ resolved host (some (addr ∷ addrs)) ∷ []) ++ events)
    × Made (calls addr) answer events

Bound-framed :
    (os : System) (host : String) (seen : History) (addr : SocketAddr) (addrs : List SocketAddr)
    (x : Answer (Unit {0}) × History)
    → Bound datagram_calls host (some (addr ∷ addrs)) seen x
    → Bound datagram_calls host (some (addr ∷ addrs)) seen (framed x)
Bound-framed os host seen addr addrs (ok _, end) h = h
Bound-framed os host seen addr addrs (err x, end) h = h

-- `new_listener` of TCP with reuse, and `new_reuse` of UDP, whatever the system and the resolver answer. A
-- host that is not resolved ends them with that error, one without addresses with their own, and no
-- call is made. Otherwise they make, on the first address alone, the calls of the list of their kind,
-- which sets both options before it binds, and nothing else: all of them where they succeed; where they fail,
-- those before the first that the system refuses, and that one.
pub first_address :
    (os : System) (addr : String) (seen : History)
    → Bound listener_calls addr (os.resolves seen addr) seen (new_listener os addr true seen)
      × Bound datagram_calls addr (os.resolves seen addr) seen (new_reuse os addr seen)
unfolding new_listener new_reuse
first_address os addr seen = by_addrs (os.resolves seen addr)
  where
    by_addrs :
        (o : Option (List SocketAddr))
        → let mid = seen ++ resolved addr o ∷ [] in
          Bound listener_calls addr o seen (and_then (resolve_answer o, mid) (listen_first os))
          × Bound datagram_calls addr o seen
              (framed (and_then (resolve_answer o, mid) (reuse_first os)))
    by_addrs none = ((refl, refl), (refl, refl))
    by_addrs (some []) = ((refl, refl), (refl, refl))
    by_addrs (some (a ∷ more)) =
        let mid = seen ++ resolved addr (some (a ∷ more)) ∷ [] in
        (
          subst (Bound listener_calls addr (some (a ∷ more)) seen)
              (sym (listen_first-calls os a more mid)) (run_calls-Made os (listener_calls a) mid),
          Bound-framed os addr seen a more (reuse_first os (a ∷ more) mid) (
              subst (Bound datagram_calls addr (some (a ∷ more)) seen)
                (sym (reuse_first-calls os a more mid)) (run_calls-Made os (datagram_calls a) mid)),
        )
