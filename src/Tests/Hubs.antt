-- ===== src/Tests/Hubs.antt =====
-- The hub of internal/agent/stream.go with one subscriber.
use mathlib.Core.List.{Sublist}
use aegis_ebpf.Base.{Bool, true, ◌≢◌, ℕ, ◌≡◌, refl, false, ok, [], ◌∷◌, ◌++◌}
use aegis_ebpf.Stream.Order.{Runs-ordered}
use aegis_ebpf.Stream.Interleavings.{
  Runs, started, published, added, forwarded, received, note, first_of,
}
use aegis_ebpf.Stream.Steps.{Forwarded}
use aegis_ebpf.Stream.Safety.{Runs-safe}
use aegis_ebpf.Stream.Sessions.Connected.{Serving-connected}
use aegis_ebpf.Stream.Sessions.{Case, Serving, idle, connected, round}
use aegis_ebpf.Stream.{
  is_subscriber, ended, Hub, new_hub, new_channel, update, publish, add, remove, forward, fan_out,
  receive, event,
}
use aegis_ebpf.Tests.Samples.{file_event, mismatched_event}

-- One subscriber, and two events in the queue.
abbrev ready : Hub
ready = publish mismatched_event (publish file_event (add new_hub))

ready-Runs : Runs ready (file_event ∷ mismatched_event ∷ []) [] (λ _. [])
ready-Runs =
    published _ _ _ _ mismatched_event (published _ _ _ _ file_event (added _ _ _ _ started))

Runs-safe_example :
    ((ch : ℕ) → (h' : Hub) × (remove ch ready ≡ ok h'))
    × ((h' : Hub) × (forward ready ≡ ok h') × Forwarded ready ready.incoming h')
Runs-safe_example = Runs-safe ready _ _ _ ready-Runs

-- The first event is on its way.
abbrev sent : Hub
sent = record {
  incoming = mismatched_event ∷ [];
  subscribers = 0 ∷ [];
  channels =
      update (update (λ _. new_channel) 0 new_channel) 0
        (record { buffer = file_event ∷ []; closed = false });
  made = 1;
}

ready-sent : forward ready ≡ ok sent
unfolding forward publish add new_hub fan_out
ready-sent = refl

sent-Runs :
    Runs
      (receive 0 sent).1
      (file_event ∷ mismatched_event ∷ [])
      (first_of ready.incoming)
      (note 0 (receive 0 sent).0 (λ _. []))
sent-Runs = received sent _ _ _ 0 (forwarded ready sent _ _ _ ready-Runs ready-sent)

first_received : (receive 0 sent).0 ≡ event file_event
unfolding receive
first_received = refl

Runs-ordered_example :
    Sublist
      (note 0 (receive 0 sent).0 (λ _. []) 0 ++ ((receive 0 sent).1.channels 0).buffer)
      (file_event ∷ mismatched_event ∷ [])
Runs-ordered_example = Runs-ordered (receive 0 sent).1 _ _ _ 0 sent-Runs

-- The connection of `ready`, an event that it writes, and a ping that fails.
ready-Serving : Serving ready (0 ∷ [])
unfolding new_hub
ready-Serving =
    Serving.published _ _ mismatched_event (Serving.published _ _ file_event (connected _ _ idle))

Serving-connected_example :
    (ready.subscribers ≡ 0 ∷ [])
    × ((ch : ℕ)
        → is_subscriber ch (0 ∷ []) ≡ true
        → ((case : Case) (sent : Bool) → (r : Bool × Hub) × (round ch case sent ready ≡ ok r))
          × ((receive ch ready).0 ≢ ended))
Serving-connected_example = Serving-connected ready (0 ∷ []) ready-Serving
