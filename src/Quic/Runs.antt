-- ===== src/Quic/Runs.antt =====
-- A connection that opens a stream and is reset.
use rustdesk_server_demo.Prelude.{◌+◌, ◌≡◌, refl, List, [], ◌∷◌, ◌++◌}
use rustdesk_server_demo.Quic.{
  reset_by_peer, err, served, client, opened, ended, handled, value, closed, pending,
}
use rustdesk_server_demo.Quic.Receives.{
  Act, happens, receives, run, values, first_end, loops, only_errors,
}

abbrev reset : List Act
reset =
    happens opened
    ∷ receives
    ∷ happens ended
    ∷ receives
    ∷ receives
    ∷ happens handled
    ∷ receives
    ∷ []

only_errors_example :
    let (got, end) = run served reset in
    (values got ++ end.rx.queue ≡ first_end reset)
    × (end.rx.senders ≡ end.handlers + loops end.task)
    × (values (run client reset).0 ≡ [])
only_errors_example = only_errors reset

-- The caller waits for a handler after the error.
received_run : (run served reset).0 ≡ pending ∷ value (err reset_by_peer) ∷ pending ∷ closed ∷ []
unfolding run
received_run = refl
