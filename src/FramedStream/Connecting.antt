-- ===== src/FramedStream/Connecting.antt =====
-- What `FramedStream::new` returns, by the attempts that it makes.
use mathlib.Core.Path.{subst}
use rustdesk_server_demo.Prelude.{
  ◌≡◌, refl, sym, ap, ◌∙◌, Option, none, some, String, List, [], ◌∷◌, ◌++◌, append-nil, map,
}
use rustdesk_server_demo.Prelude.Endian.{Endian}
use rustdesk_server_demo.AddrMangle.{SocketAddr}
use rustdesk_server_demo.Sockets.{
  Reply, connected, late, resolved, system, elapsed, unresolved, unsolved, Answer, ok, err, History,
  System, and_then, resolve_answer, resolve,
}
use rustdesk_server_demo.Sockets.Quiet.{attempts, attempts-append}
use rustdesk_server_demo.FramedStream.{SecretBox, from_stream}
use rustdesk_server_demo.FramedStream.Connect.{
  Ends, attempt, try_remotes, try_locals, Connected, connection, new,
}
use rustdesk_server_demo.FramedStream.Tries.{
  refusals, pairs, UpTo, Tried, go_on-Tried, attempt-Tried,
}

try_remotes-Tried :
    (os : System) (done : List Ends) (local : SocketAddr) (remotes : List SocketAddr)
    (seen : History)
    → attempts seen ≡ refusals done
    → Tried done
        (map (λ remote. (local, remote)) remotes)
        (try_remotes os local remotes seen).0
        (attempts (try_remotes os local remotes seen).1)
unfolding try_remotes
try_remotes-Tried os done local [] seen so_far = so_far ∙ ap refusals (sym (append-nil done))
try_remotes-Tried os done local (remote ∷ remotes) seen so_far =
    go_on-Tried done ((local, remote) ∷ []) (map (λ r. (local, r)) remotes)
      (attempt os (local, remote) seen) (try_remotes os local remotes)
      (attempt-Tried os done local remote seen so_far)
      (λ seen' so_far'.
        try_remotes-Tried os (done ++ (local, remote) ∷ []) local remotes seen' so_far')

-- To resolve makes no attempt.
attempts-resolved :
    (seen : History) (host : String) (addrs : Option (List SocketAddr))
    → attempts (seen ++ resolved host addrs ∷ []) ≡ attempts seen
unfolding attempts
attempts-resolved seen host addrs =
    attempts-append seen (resolved host addrs ∷ []) ∙ append-nil (attempts seen)

-- What is returned, and what the attempts came to.
abbrev pub Ended :
    (box : SecretBox) (e : Endian)
    → List Ends
    → Answer (Connected box e)
    → List (Ends × Reply)
    → Type 0
Ended box e all (ok (ends, stream)) tried =
    (stream ≡ from_stream box e) × UpTo [] all ends ((ends, connected) ∷ []) tried
Ended box e all (err elapsed) tried = (ends : Ends) × UpTo [] all ends ((ends, late) ∷ []) tried
Ended box e all (err system) tried = (ends : Ends) × UpTo [] all ends [] tried
Ended box e all (err unresolved) tried = tried ≡ refusals all
Ended box e all (err unsolved) tried = ⊥

module _ (os : System) (remote_addr : String) (remotes : List SocketAddr)
    (steady : (seen : History) → os.resolves seen remote_addr ≡ some remotes) where
  round-Tried :
      (done : List Ends) (local : SocketAddr) (seen : History)
      → attempts seen ≡ refusals done
      → let x = and_then (resolve os remote_addr seen) (try_remotes os local) in
        Tried done (map (λ remote. (local, remote)) remotes) x.0 (attempts x.1)
  round-Tried done local seen so_far = by_addrs (os.resolves seen remote_addr) (steady seen)
    where
      by_addrs :
          (addrs : Option (List SocketAddr))
          → addrs ≡ some remotes
          → let x =
              and_then
                (resolve_answer addrs, seen ++ resolved remote_addr addrs ∷ [])
                (try_remotes os local) in
            Tried done (map (λ remote. (local, remote)) remotes) x.0 (attempts x.1)
      by_addrs addrs same =
          subst
            (λ o.
              (let x =
                  and_then (resolve_answer o, seen ++ resolved remote_addr o ∷ [])
                    (try_remotes os local) in
                Tried done (map (λ remote. (local, remote)) remotes) x.0 (attempts x.1)))
            (sym same)
            (try_remotes-Tried os done local remotes _
              (attempts-resolved seen remote_addr (some remotes) ∙ so_far))

  try_locals-Tried :
      (done : List Ends) (locals : List SocketAddr) (seen : History)
      → attempts seen ≡ refusals done
      → Tried done
          (pairs locals remotes)
          (try_locals os remote_addr locals seen).0
          (attempts (try_locals os remote_addr locals seen).1)
  unfolding try_locals pairs
  try_locals-Tried done [] seen so_far = so_far ∙ ap refusals (sym (append-nil done))
  try_locals-Tried done (local ∷ locals) seen so_far =
      go_on-Tried done (map (λ remote. (local, remote)) remotes) (pairs locals remotes)
        (and_then (resolve os remote_addr seen) (try_remotes os local))
        (try_locals os remote_addr locals) (round-Tried done local seen so_far)
        (λ seen' so_far'.
          try_locals-Tried (done ++ map (λ remote. (local, remote)) remotes) locals seen' so_far')

  module _ (box : SecretBox) (e : Endian) where
    connection-Ended :
        (all : List Ends) (x : Answer (Option Ends) × History)
        → Tried [] all x.0 (attempts x.1)
        → let (answer, end) = connection box e x in Ended box e all answer (attempts end)
    connection-Ended all (ok (some ends), seen) h = (refl, h)
    connection-Ended all (ok none, seen) h = h
    connection-Ended all (err elapsed, seen) h = h
    connection-Ended all (err system, seen) h = h
    connection-Ended all (err unresolved, seen) h = absurd h
    connection-Ended all (err unsolved, seen) h = absurd h

    -- Let the local addresses resolve, and the remote ones always to the same list. `new` attempts the
    -- pairs of a local and a remote address in the order of its loops, one after another while they are
    -- refused. It returns a fresh stream on the first that is connected; at the first timeout, or where
    -- a socket cannot be made, it returns that error and leaves the other pairs; and where all pairs
    -- were attempted and refused it returns that no address could be resolved.
    pub new-Ended :
        (local_addr : String) (locals : List SocketAddr)
        → os.resolves [] local_addr ≡ some locals
        → let (answer, end) = new box e os remote_addr local_addr [] in
          Ended box e (pairs locals remotes) answer (attempts end)
    unfolding new attempts
    new-Ended local_addr locals found =
        subst
          (λ o.
            (let x = connection box e (
                and_then (resolve_answer o, resolved local_addr o ∷ [])
                  (try_locals os remote_addr)) in
              Ended box e (pairs locals remotes) x.0 (attempts x.1)))
          (sym found)
          (connection-Ended (pairs locals remotes) _ (
            try_locals-Tried [] locals (resolved local_addr (some locals) ∷ [])
              (attempts-resolved [] local_addr (some locals))))
