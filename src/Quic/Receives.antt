-- ===== src/Quic/Receives.antt =====
-- What `next` of a QUIC connection yields.
use rustdesk_server_demo.Prelude.{
  ℕ, zero, suc, ◌+◌, ◌≡◌, refl, sym, ap, ◌∙◌, List, [], ◌∷◌, ◌++◌, append-nil, arith,
}
use rustdesk_server_demo.Quic.{
  failed, reset_by_peer, err, Value, Task, looping, exited, Connection, served, client, Event,
  opened, stream_failed, ended, handled, Received, value, closed, pending, waits, recv, in_loop,
  handle_request, step, next,
}

-- The caller receives, or a task runs.
pub data Act : Type 0 where
  happens : Event → Act
  receives : Act

unfoldable pub run : Connection → List Act → List Received × Connection
unfolding step next
run self [] = ([], self)
run self (happens event ∷ acts) = run (step self event) acts
run self (receives ∷ acts) =
    let (got, mid) = next self in let (rest, end) = run mid acts in (got ∷ rest, end)

unfoldable pub values : List Received → List Value
values [] = []
values (value v ∷ got) = v ∷ values got
values (closed ∷ got) = values got
values (pending ∷ got) = values got

-- The first thing that ends the loop.
unfoldable pub first_end : List Act → List Value
first_end [] = []
first_end (happens stream_failed ∷ acts) = err failed ∷ []
first_end (happens ended ∷ acts) = err reset_by_peer ∷ []
first_end (happens opened ∷ acts) = first_end acts
first_end (happens handled ∷ acts) = first_end acts
first_end (receives ∷ acts) = first_end acts

abbrev coming : Task → List Act → List Value
coming looping acts = first_end acts
coming exited acts = []

abbrev pub loops : Task → ℕ
loops looping = 1
loops exited = 0

abbrev Counted : Connection → Type 0
Counted self = self.rx.senders ≡ self.handlers + loops self.task

abbrev left : Connection → List Act → List Value
left self acts = self.rx.queue ++ coming self.task acts

coming-handled : (t : Task) (acts : List Act) → coming t acts ≡ coming t (happens handled ∷ acts)
unfolding first_end
coming-handled looping acts = refl
coming-handled exited acts = refl

coming-receives : (t : Task) (acts : List Act) → coming t acts ≡ coming t (receives ∷ acts)
unfolding first_end
coming-receives looping acts = refl
coming-receives exited acts = refl

in_loop_lem :
    (t : Task) (self : Connection) (event : Event) (acts : List Act)
    → self.task ≡ t
    → (event ≡ handled → ⊥)
    → (left (in_loop t self event) acts ≡ self.rx.queue ++ coming t (happens event ∷ acts))
      × (self.rx.senders ≡ self.handlers + loops t → Counted (in_loop t self event))
unfolding first_end
in_loop_lem exited self event acts at other = (
  ap (λ t. self.rx.queue ++ coming t acts) at,
  λ h. h ∙ ap (λ t. self.handlers + loops t) (sym at),
)
in_loop_lem looping self opened acts at other =
    (ap (λ t. self.rx.queue ++ coming t acts) at, λ h. omega (arith, h, ap loops at))
in_loop_lem looping self stream_failed acts at other = (append-nil _, λ h. omega (arith, h))
in_loop_lem looping self ended acts at other = (append-nil _, λ h. omega (arith, h))
in_loop_lem looping self handled acts at other = absurd (other refl)

handle_request_lem :
    (n : ℕ) (self : Connection) (acts : List Act)
    → self.handlers ≡ n
    → (left (handle_request n self) acts ≡ left self (happens handled ∷ acts))
      × (Counted self → Counted (handle_request n self))
handle_request_lem zero self acts at =
    (ap (λ l. self.rx.queue ++ l) (coming-handled self.task acts), λ h. h)
handle_request_lem (suc n) self acts at =
    (ap (λ l. self.rx.queue ++ l) (coming-handled self.task acts), λ h. omega (arith, h, at))

step_lem :
    (self : Connection) (event : Event) (acts : List Act)
    → (left (step self event) acts ≡ left self (happens event ∷ acts))
      × (Counted self → Counted (step self event))
unfolding step
step_lem self opened acts = in_loop_lem self.task self opened acts refl (λ e. cc)
step_lem self stream_failed acts = in_loop_lem self.task self stream_failed acts refl (λ e. cc)
step_lem self ended acts = in_loop_lem self.task self ended acts refl (λ e. cc)
step_lem self handled acts = handle_request_lem self.handlers self acts refl

waits-values : (n : ℕ) (got : List Received) → values (waits n ∷ got) ≡ values got
unfolding values
waits-values zero got = refl
waits-values (suc n) got = refl

-- A receive, given what is shown of the acts after it.
receive_lem :
    (self : Connection) (acts : List Act) (q : List Value)
    → self.rx.queue ≡ q
    → let mid = record self { rx = (recv q self.rx).1 } in
      let (got, end) = run mid acts in
      values got ++ end.rx.queue ≡ left mid acts
      → (values ((recv q self.rx).0 ∷ got) ++ end.rx.queue
          ≡ q ++ coming self.task (receives ∷ acts))
        × (Counted self → Counted mid)
unfolding values
receive_lem self acts [] same later = (
  ap (λ l. l ++ (run (record self { rx = self.rx }) acts).1.rx.queue)
        (waits-values self.rx.senders (run (record self { rx = self.rx }) acts).0)
      ∙ later
      ∙ ap (λ l. l ++ coming self.task acts) same
      ∙ coming-receives self.task acts,
  λ h. h,
)
receive_lem self acts (v ∷ vs) same later =
    (ap (λ l. v ∷ l) (later ∙ ap (λ l. vs ++ l) (coming-receives self.task acts)), λ h. h)

run_lem :
    (self : Connection) (acts : List Act)
    → let (got, end) = run self acts in
      (values got ++ end.rx.queue ≡ left self acts) × (Counted self → Counted end)
unfolding run values first_end
run_lem self [] = (sym (append-nil _) ∙ ap (λ l. self.rx.queue ++ l) (none_left self.task), λ h. h)
  where
    none_left : (t : Task) → [] ≡ coming t []
    none_left looping = refl
    none_left exited = refl
run_lem self (happens event ∷ acts) =
    let (here, counts) = step_lem self event acts in
    let (later, counted) = run_lem (step self event) acts in (later ∙ here, λ h. counted (counts h))
run_lem self (receives ∷ acts) =
    let (later, counted) = run_lem (next self).1 acts in
    let (here, counts) = receive_lem self acts self.rx.queue refl later in
    (here, λ h. counted (counts h))

left-none : {A : Type 0} (xs ys : List A) → xs ++ ys ≡ [] → xs ≡ []
left-none [] ys h = refl
left-none (x ∷ xs) ys h = cc

-- However the tasks and the receives of a connection follow each other, the server's side gets nothing
-- from `next` but at most one error, that of the first failure or end of its streams, which is in the
-- queue until it is received; no bytes of a stream are. There are as many senders as handlers that
-- have not run, and one more while the loop runs. The client's side gets nothing at all.
pub only_errors :
    (acts : List Act)
    → let (got, end) = run served acts in
      (values got ++ end.rx.queue ≡ first_end acts)
      × (end.rx.senders ≡ end.handlers + loops end.task)
      × (values (run client acts).0 ≡ [])
only_errors acts =
    let (all, counted) = run_lem served acts in
    (all, counted refl, left-none _ _ (run_lem client acts).0)
