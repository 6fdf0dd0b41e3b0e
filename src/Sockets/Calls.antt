-- ===== src/Sockets/Calls.antt =====
-- `new_socket` and what follows it as a list of calls.
use rustdesk_server_demo.Prelude.{
  ◌≡◌, refl, sym, ap, ◌∙◌, Bool, true, false, List, [], ◌∷◌, ◌++◌, append-nil, append_assoc, map,
  if◌then◌else◌,
}
use rustdesk_server_demo.AddrMangle.{SocketAddr}
use rustdesk_server_demo.Sockets.{
  Event, asked, system, ask_answer, stream, dgram, socket, set_reuse_port, set_reuse_address, bind,
  Call, Answer, ok, err, History, System, and_then, ask, domain, set_reuse, new_socket,
}

-- One call after another, up to the first that the system refuses.
unfoldable pub run_calls : System → List Call → History → Answer (Unit {0}) × History
run_calls os [] seen = (ok tt, seen)
run_calls os (call ∷ calls) seen = and_then (ask os call seen) (λ _ seen'. run_calls os calls seen')

abbrev pub reuse_calls : Bool → List Call
reuse_calls b = if b then set_reuse_port ∷ set_reuse_address ∷ [] else []

abbrev pub socket_calls : SocketAddr → Bool → Bool → List Call
socket_calls addr tcp reuse =
    socket (domain addr) (if tcp then stream else dgram) ∷ (reuse_calls reuse ++ bind addr ∷ [])

abbrev Next : Type 0 → Type 0 → Type 0
Next A B = A → History → Answer B × History

pub and_then_ext :
    {A B : Type 0} (x : Answer A × History) (f g : Next A B)
    → ((a : A) (seen : History) → f a seen ≡ g a seen)
    → and_then x f ≡ and_then x g
and_then_ext (ok a, seen) f g h = h a seen
and_then_ext (err e, seen) f g h = refl

and_then_assoc :
    {A B C : Type 0} (x : Answer A × History) (f : Next A B) (g : Next B C)
    → and_then (and_then x f) g ≡ and_then x (λ a seen. and_then (f a seen) g)
and_then_assoc (ok a, seen) f g = refl
and_then_assoc (err e, seen) f g = refl

and_then_unit : (x : Answer (Unit {0}) × History) → and_then x (λ _ seen. (ok tt, seen)) ≡ x
and_then_unit (ok tt, seen) = refl
and_then_unit (err e, seen) = refl

pub run_calls-append :
    (os : System) (xs ys : List Call) (seen : History)
    → run_calls os (xs ++ ys) seen
      ≡ and_then (run_calls os xs seen) (λ _ seen'. run_calls os ys seen')
unfolding run_calls
run_calls-append os [] ys seen = refl
run_calls-append os (call ∷ calls) ys seen =
    and_then_ext (ask os call seen) _ _ (λ _ mid. run_calls-append os calls ys mid)
    ∙ sym (
        and_then_assoc (ask os call seen) (λ _ mid. run_calls os calls mid)
          (λ _ mid. run_calls os ys mid))

pub run_one :
    (os : System) (call : Call) (seen : History) → run_calls os (call ∷ []) seen ≡ ask os call seen
unfolding run_calls
run_one os call seen = and_then_unit (ask os call seen)

set_reuse-calls :
    (os : System) (reuse : Bool) (seen : History)
    → set_reuse os reuse seen ≡ run_calls os (reuse_calls reuse) seen
unfolding run_calls
set_reuse-calls os true seen =
    and_then_ext (ask os set_reuse_port seen) _ _ (λ _ mid. sym (run_one os set_reuse_address mid))
set_reuse-calls os false seen = refl

pub new_socket-calls :
    (os : System) (addr : SocketAddr) (tcp reuse : Bool) (seen : History)
    → new_socket os addr tcp reuse seen ≡ run_calls os (socket_calls addr tcp reuse) seen
unfolding new_socket run_calls
new_socket-calls os addr tcp reuse seen = and_then_ext (ask os _ seen) _ _ (λ _ made.
    and_then_ext (set_reuse os reuse made) _ _ (λ _ set. sym (run_one os (bind addr) set))
    ∙ ap (λ x. and_then x (λ _ set. run_calls os (bind addr ∷ []) set))
        (set_reuse-calls os reuse made)
    ∙ sym (run_calls-append os (reuse_calls reuse) (bind addr ∷ []) made))

-- What comes after a socket is made goes on in the same list.
pub after_socket :
    (os : System) (addr : SocketAddr) (tcp : Bool) (calls : List Call) (seen : History)
    → and_then (new_socket os addr tcp true seen) (λ _ bound. run_calls os calls bound)
      ≡ run_calls os (socket_calls addr tcp true ++ calls) seen
after_socket os addr tcp calls seen =
    ap (λ x. and_then x (λ _ bound. run_calls os calls bound))
      (new_socket-calls os addr tcp true seen)
    ∙ sym (run_calls-append os (socket_calls addr tcp true) calls seen)

-- What calls one after another come to: all are taken, or those before the first that is refused.
abbrev pub Made {ℓ} : {A : Type ℓ} → List Call → Answer A → List Event → Type 0
Made calls (ok _) events = events ≡ map (λ call. asked call true) calls
Made calls (err x) events =
    (x ≡ system)
    × (before : List Call) × (call : Call) × (after : List Call) × (calls ≡ before ++ call ∷ after)
    × (events ≡ map (λ call. asked call true) before ++ asked call false ∷ [])

Made-cons :
    (call : Call) (calls : List Call) (answer : Answer (Unit {0})) (events : List Event)
    → Made calls answer events
    → Made (call ∷ calls) answer (asked call true ∷ events)
Made-cons call calls (ok _) events h = ap (λ l. asked call true ∷ l) h
Made-cons call calls (err x) events (kind, before, last, after, split, all) =
    (kind, call ∷ before, last, after, ap (λ l. call ∷ l) split, ap (λ l. asked call true ∷ l) all)

pub run_calls-Made :
    (os : System) (calls : List Call) (seen : History)
    → let (answer, end) = run_calls os calls seen in
      (events : List Event) × (end ≡ seen ++ events) × Made calls answer events
unfolding run_calls
run_calls-Made os [] seen = ([], sym (append-nil seen), refl)
run_calls-Made os (call ∷ calls) seen =
    by_answer (os.accepts seen call) (run_calls-Made os calls (seen ++ asked call true ∷ []))
  where
    by_answer :
        (b : Bool)
        → (let (answer, end) = run_calls os calls (seen ++ asked call true ∷ []) in
            (events : List Event) × (end ≡ (seen ++ asked call true ∷ []) ++ events)
            × Made calls answer events)
        → let (answer, end) =
            and_then
              (ask_answer b, seen ++ asked call b ∷ [])
              (λ _ seen'. run_calls os calls seen') in
          (events : List Event) × (end ≡ seen ++ events) × Made (call ∷ calls) answer events
    by_answer true (events, grown, made) = (
      asked call true ∷ events,
      grown ∙ append_assoc seen (asked call true ∷ []) events,
      Made-cons call calls _ events made,
    )
    by_answer false rest = (asked call false ∷ [], refl, (refl, [], call, calls, refl, refl))
