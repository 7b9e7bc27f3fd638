-- ===== src/Stream/Sessions.antt =====
-- internal/agent/stream.go: `streamEvents`, one connection of the stream. A connection is the number of its
-- channel; which case its `select` takes, and whether the write or the ping of the round succeeds, are
-- arguments. A round is one step: the hub's steps that may come between a receive, its failed write and the
-- removal behind it are not told apart.
pub mod Connected
use aegis_ebpf.Base.{
  ℕ, Bool, true, false, List, [], ◌∷◌, ◌++◌, Result, ok, ◌>>=◌, ◌≡◌, if◌then◌else◌,
}
use aegis_ebpf.Events.Types.{AuditEvent}
use aegis_ebpf.Stream.{
  Fault, Hub, new_hub, is_subscriber, unlisted, publish, add, remove, forward, Received, event,
  ended, waiting, receive,
}

pub data Case : Type 0 where
  on_done on_event on_ping : Case

-- The return of `streamEvents`, with its deferred `remove`.
abbrev pub leave : ℕ → Hub → Result Fault (Bool × Hub)
leave ch h = do h' ← remove ch h; ok (false, h')

unfoldable pub after_receive : ℕ → Bool → Received × Hub → Result Fault (Bool × Hub)
after_receive ch sent (event ev, h) = if sent then ok (true, h) else leave ch h
after_receive ch sent (ended, h) = leave ch h
after_receive ch sent (waiting, h) = ok (true, h)

-- A round of the loop: whether it goes on, and the hub.
unfoldable pub round : ℕ → Case → Bool → Hub → Result Fault (Bool × Hub)
round ch on_done sent h = leave ch h
round ch on_event sent h = after_receive ch sent (receive ch h)
round ch on_ping sent h = if sent then ok (true, h) else leave ch h

-- A hub with its connections, after any interleaving of theirs, of publishers and of the hub's loop.
pub data Serving : Hub → List ℕ → Type 0 where
  idle : Serving new_hub []
  published :
      (h : Hub) (chs : List ℕ) (ev : AuditEvent) → Serving h chs → Serving (publish ev h) chs
  forwarded : (h h' : Hub) (chs : List ℕ) → Serving h chs → forward h ≡ ok h' → Serving h' chs
  connected : (h : Hub) (chs : List ℕ) → Serving h chs → Serving (add h) (h.made ∷ chs)
  rounded :
      (h h' : Hub) (chs : List ℕ) (ch : ℕ) (case : Case) (sent on : Bool)
      → Serving h chs
      → is_subscriber ch chs ≡ true
      → round ch case sent h ≡ ok (on, h')
      → Serving h' (if on then chs else unlisted ch chs)
