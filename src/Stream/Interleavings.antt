-- ===== src/Stream/Interleavings.antt =====
-- The hub of internal/agent/stream.go over any interleaving of its callers.
use aegis_ebpf.Base.{ℕ, ◌≡◌, List, [], ◌∷◌, ◌++◌, ok, ◌==◌, if◌then◌else◌}
use aegis_ebpf.Events.Types.{AuditEvent}
use aegis_ebpf.Stream.{Hub, new_hub, publish, add, remove, forward, Received, event, receive}

-- What `<-ch` adds to the events that the subscriber has seen.
abbrev pub seen_then : Received → List AuditEvent → List AuditEvent
seen_then (event ev) seen = seen ++ ev ∷ []
seen_then _ seen = seen

abbrev pub note : ℕ → Received → (ℕ → List AuditEvent) → ℕ → List AuditEvent
note ch r seen x = if ch == x then seen_then r (seen x) else seen x

-- The event that `forward` takes.
abbrev pub first_of : List AuditEvent → List AuditEvent
first_of [] = []
first_of (ev ∷ _) = ev ∷ []

-- A hub after any interleaving of its callers, with the events published, those that it has fanned out,
-- and for each channel those that its subscriber has received, oldest first.
pub data Runs : Hub → List AuditEvent → List AuditEvent → (ℕ → List AuditEvent) → Type 0 where
  started : Runs new_hub [] [] (λ _. [])
  published :
      (h : Hub) (p f : List AuditEvent) (g : ℕ → List AuditEvent) (ev : AuditEvent)
      → Runs h p f g
      → Runs (publish ev h) (p ++ ev ∷ []) f g
  added :
      (h : Hub) (p f : List AuditEvent) (g : ℕ → List AuditEvent)
      → Runs h p f g
      → Runs (add h) p f g
  removed :
      (h h' : Hub) (p f : List AuditEvent) (g : ℕ → List AuditEvent) (ch : ℕ)
      → Runs h p f g
      → remove ch h ≡ ok h'
      → Runs h' p f g
  forwarded :
      (h h' : Hub) (p f : List AuditEvent) (g : ℕ → List AuditEvent)
      → Runs h p f g
      → forward h ≡ ok h'
      → Runs h' p (f ++ first_of h.incoming) g
  received :
      (h : Hub) (p f : List AuditEvent) (g : ℕ → List AuditEvent) (ch : ℕ)
      → Runs h p f g
      → Runs (receive ch h).1 p f (note ch (receive ch h).0 g)
