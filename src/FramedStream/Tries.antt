-- ===== src/FramedStream/Tries.antt =====
-- Which attempts to connect `FramedStream::new` makes.
use mathlib.Core.List.{map-append}
use rustdesk_server_demo.Prelude.{
  ◌≡◌, refl, sym, ap, ◌∙◌, true, Option, none, some, List, [], ◌∷◌, ◌++◌, append-nil, append_assoc,
  map,
}
use rustdesk_server_demo.AddrMangle.{SocketAddr}
use rustdesk_server_demo.Sockets.{
  Reply, connected, refused, late, connecting, system, elapsed, unresolved, unsolved, Answer, ok,
  err, History, System, and_then, new_socket,
}
use rustdesk_server_demo.Sockets.Quiet.{attempts, attempts-append, Quiet, new_socket-Quiet}
use rustdesk_server_demo.FramedStream.Connect.{Ends, attempted, attempt, go_on}

abbrev pub refusals : List Ends → List (Ends × Reply)
refusals = map (λ ends. (ends, refused))

-- Each local address with every remote one, in the order of the loops.
unfoldable pub pairs : List SocketAddr → List SocketAddr → List Ends
pairs [] remotes = []
pairs (local ∷ locals) remotes = map (λ remote. (local, remote)) remotes ++ pairs locals remotes

-- The attempts were all refused up to one, and what is said of that one follows.
abbrev pub UpTo : List Ends → List Ends → Ends → List (Ends × Reply) → List (Ends × Reply) → Type 0
UpTo done rest ends last tried =
    (before : List Ends) × (after : List Ends) × (rest ≡ before ++ ends ∷ after)
    × (tried ≡ refusals (done ++ before) ++ last)

abbrev pub Tried : List Ends → List Ends → Answer (Option Ends) → List (Ends × Reply) → Type 0
Tried done rest (ok none) tried = tried ≡ refusals (done ++ rest)
Tried done rest (ok (some ends)) tried = UpTo done rest ends ((ends, connected) ∷ []) tried
Tried done rest (err elapsed) tried = (ends : Ends) × UpTo done rest ends ((ends, late) ∷ []) tried
Tried done rest (err system) tried = (ends : Ends) × UpTo done rest ends [] tried
Tried done rest (err unresolved) tried = ⊥
Tried done rest (err unsolved) tried = ⊥

UpTo-more :
    (done a b : List Ends) (ends : Ends) (last tried : List (Ends × Reply))
    → UpTo done a ends last tried
    → UpTo done (a ++ b) ends last tried
UpTo-more done a b ends last tried (before, after, split, all) =
    (before, after ++ b, ap (λ l. l ++ b) split ∙ append_assoc before (ends ∷ after) b, all)

UpTo-later :
    (done a b : List Ends) (ends : Ends) (last tried : List (Ends × Reply))
    → UpTo (done ++ a) b ends last tried
    → UpTo done (a ++ b) ends last tried
UpTo-later done a b ends last tried (before, after, split, all) = (
  a ++ before,
  after,
  ap (λ l. a ++ l) split ∙ sym (append_assoc a before (ends ∷ after)),
  all ∙ ap (λ l. refusals l ++ last) (append_assoc done a before),
)

Tried-later :
    (done a b : List Ends) (x : Answer (Option Ends)) (tried : List (Ends × Reply))
    → Tried (done ++ a) b x tried
    → Tried done (a ++ b) x tried
Tried-later done a b (ok none) tried h = h ∙ ap refusals (append_assoc done a b)
Tried-later done a b (ok (some ends)) tried h = UpTo-later done a b ends _ tried h
Tried-later done a b (err elapsed) tried (ends, h) = (ends, UpTo-later done a b ends _ tried h)
Tried-later done a b (err system) tried (ends, h) = (ends, UpTo-later done a b ends _ tried h)
Tried-later done a b (err unresolved) tried h = h
Tried-later done a b (err unsolved) tried h = h

pub go_on-Tried :
    (done a b : List Ends) (x : Answer (Option Ends) × History)
    (f : History → Answer (Option Ends) × History)
    → Tried done a x.0 (attempts x.1)
    → ((seen : History)
        → attempts seen ≡ refusals (done ++ a)
        → Tried (done ++ a) b (f seen).0 (attempts (f seen).1))
    → Tried done (a ++ b) (go_on x f).0 (attempts (go_on x f).1)
go_on-Tried done a b (ok none, seen) f h rest =
    Tried-later done a b (f seen).0 (attempts (f seen).1) (rest seen h)
go_on-Tried done a b (ok (some ends), seen) f h rest = UpTo-more done a b ends _ _ h
go_on-Tried done a b (err elapsed, seen) f (ends, h) rest = (ends, UpTo-more done a b ends _ _ h)
go_on-Tried done a b (err system, seen) f (ends, h) rest = (ends, UpTo-more done a b ends _ _ h)
go_on-Tried done a b (err unresolved, seen) f h rest = h
go_on-Tried done a b (err unsolved, seen) f h rest = h

pub attempt-Tried :
    (os : System) (done : List Ends) (local remote : SocketAddr) (seen : History)
    → attempts seen ≡ refusals done
    → Tried done
        ((local, remote) ∷ [])
        (attempt os (local, remote) seen).0
        (attempts (attempt os (local, remote) seen).1)
unfolding attempt attempts
attempt-Tried os done local remote seen so_far =
    by_socket (new_socket os local true true seen) (new_socket-Quiet os local true true seen)
  where
    ends : Ends
    ends = (local, remote)

    replied : History → Reply → History
    replied bound reply = bound ++ connecting local remote reply ∷ []

    after_reply :
        (bound : History) (reply : Reply)
        → attempts bound ≡ attempts seen
        → attempts (replied bound reply) ≡ refusals done ++ (ends, reply) ∷ []
    after_reply bound reply quiet =
        attempts-append bound (connecting local remote reply ∷ [])
        ∙ ap (λ l. l ++ (ends, reply) ∷ []) (quiet ∙ so_far)

    up_to :
        (last tried : List (Ends × Reply))
        → tried ≡ refusals done ++ last
        → UpTo done (ends ∷ []) ends last tried
    up_to last tried h = ([], [], refl, h ∙ ap (λ l. refusals l ++ last) (sym (append-nil done)))

    by_reply :
        (bound : History) (reply : Reply)
        → attempts bound ≡ attempts seen
        → Tried done (ends ∷ []) (attempted ends reply) (attempts (replied bound reply))
    by_reply bound connected quiet = up_to _ _ (after_reply bound connected quiet)
    by_reply bound refused quiet =
        after_reply bound refused quiet ∙ sym (map-append (λ e. (e, refused)) done (ends ∷ []))
    by_reply bound late quiet = (ends, up_to _ _ (after_reply bound late quiet))

    by_socket :
        (x : Answer (Unit {0}) × History)
        → Quiet seen x
        → let y = and_then x (λ _ bound. (
          attempted ends (os.replies bound local remote),
          replied bound (os.replies bound local remote),
        )) in
          Tried done (ends ∷ []) y.0 (attempts y.1)
    by_socket (ok _, bound) quiet = by_reply bound (os.replies bound local remote) quiet
    by_socket (err system, end) quiet =
        (ends, up_to [] _ (quiet ∙ so_far ∙ sym (append-nil (refusals done))))
    by_socket (err elapsed, end) quiet = absurd quiet
    by_socket (err unresolved, end) quiet = absurd quiet
    by_socket (err unsolved, end) quiet = absurd quiet
