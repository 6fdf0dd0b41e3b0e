-- ===== src/Sockets/Quiet.antt =====
-- The attempts to connect in a history, and the calls that make none.
use rustdesk_server_demo.Prelude.{
  ◌≡◌, refl, ap, ◌∙◌, Bool, true, false, List, [], ◌∷◌, ◌++◌, append-nil,
}
use rustdesk_server_demo.AddrMangle.{SocketAddr}
use rustdesk_server_demo.Sockets.{
  set_reuse_port, set_reuse_address, bind, Call, Reply, asked, resolved, connecting, system,
  elapsed, unresolved, unsolved, Answer, ok, err, History, System, and_then, ask, ask_answer,
  set_reuse, new_socket,
}

unfoldable pub attempts : History → List ((SocketAddr × SocketAddr) × Reply)
attempts [] = []
attempts (asked call b ∷ es) = attempts es
attempts (resolved host addrs ∷ es) = attempts es
attempts (connecting local remote reply ∷ es) = ((local, remote), reply) ∷ attempts es

pub attempts-append : (xs ys : History) → attempts (xs ++ ys) ≡ attempts xs ++ attempts ys
unfolding attempts
attempts-append [] ys = refl
attempts-append (asked call b ∷ es) ys = attempts-append es ys
attempts-append (resolved host addrs ∷ es) ys = attempts-append es ys
attempts-append (connecting local remote reply ∷ es) ys =
    ap (λ t. ((local, remote), reply) ∷ t) (attempts-append es ys)

-- Nothing is connected, and an error is one of the system.
abbrev pub Quiet : {A : Type 0} → History → Answer A × History → Type 0
Quiet seen (ok a, end) = attempts end ≡ attempts seen
Quiet seen (err system, end) = attempts end ≡ attempts seen
Quiet seen (err elapsed, end) = ⊥
Quiet seen (err unresolved, end) = ⊥
Quiet seen (err unsolved, end) = ⊥

pub ask-Quiet : (os : System) (call : Call) (seen : History) → Quiet seen (ask os call seen)
unfolding attempts
ask-Quiet os call seen = by_answer (os.accepts seen call)
  where
    by_answer : (b : Bool) → Quiet seen (ask_answer b, seen ++ asked call b ∷ [])
    by_answer true = attempts-append seen (asked call true ∷ []) ∙ append-nil (attempts seen)
    by_answer false = attempts-append seen (asked call false ∷ []) ∙ append-nil (attempts seen)

pub and_then-Quiet :
    {A B : Type 0} (seen : History) (x : Answer A × History) (f : A → History → Answer B × History)
    → Quiet seen x
    → ((a : A) (mid : History) → Quiet mid (f a mid))
    → Quiet seen (and_then x f)
and_then-Quiet {B = B} seen (ok a, mid) f h rest = by_end (f a mid) (rest a mid)
  where
    by_end : (y : Answer B × History) → Quiet mid y → Quiet seen y
    by_end (ok b, end) g = g ∙ h
    by_end (err system, end) g = g ∙ h
    by_end (err elapsed, end) g = g
    by_end (err unresolved, end) g = g
    by_end (err unsolved, end) g = g
and_then-Quiet seen (err system, mid) f h rest = h
and_then-Quiet seen (err elapsed, mid) f h rest = h
and_then-Quiet seen (err unresolved, mid) f h rest = h
and_then-Quiet seen (err unsolved, mid) f h rest = h

set_reuse-Quiet :
    (os : System) (reuse : Bool) (seen : History) → Quiet seen (set_reuse os reuse seen)
set_reuse-Quiet os false seen = refl
set_reuse-Quiet os true seen =
    and_then-Quiet seen (ask os set_reuse_port seen) _ (ask-Quiet os set_reuse_port seen)
      (λ _ mid. ask-Quiet os set_reuse_address mid)

pub new_socket-Quiet :
    (os : System) (addr : SocketAddr) (tcp reuse : Bool) (seen : History)
    → Quiet seen (new_socket os addr tcp reuse seen)
unfolding new_socket
new_socket-Quiet os addr tcp reuse seen =
    and_then-Quiet seen (ask os _ seen) _ (ask-Quiet os _ seen) (λ _ made.
      and_then-Quiet made (set_reuse os reuse made) _ (set_reuse-Quiet os reuse made)
        (λ _ set. ask-Quiet os (bind addr) set))
