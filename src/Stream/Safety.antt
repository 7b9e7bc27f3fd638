-- ===== src/Stream/Safety.antt =====
-- The hub of internal/agent/stream.go over any interleaving of its callers: no step panics.
use mathlib.Core.Path.{subst}
use aegis_ebpf.Base.{ℕ, ◌≡◌, List, ok}
use aegis_ebpf.Events.Types.{AuditEvent}
use aegis_ebpf.Stream.{Hub, remove, forward}
use aegis_ebpf.Stream.Interleavings.{Runs, started, published, added, removed, forwarded, received}
use aegis_ebpf.Stream.Steps.{
  IsSafe, Forwarded, new_hub-IsSafe, publish-IsSafe, add-IsSafe, remove-IsSafe, forward_lem,
  receive-IsSafe,
}

pub Runs-IsSafe :
    (h : Hub) (p f : List AuditEvent) (g : ℕ → List AuditEvent) → Runs h p f g → IsSafe h
Runs-IsSafe _ _ _ _ started = new_hub-IsSafe
Runs-IsSafe _ _ _ _ (published h p f g ev r) = publish-IsSafe ev h (Runs-IsSafe h p f g r)
Runs-IsSafe _ _ _ _ (added h p f g r) = add-IsSafe h (Runs-IsSafe h p f g r)
Runs-IsSafe _ _ _ _ (removed h h' p f g ch r e) =
    let (next, e', s) = remove-IsSafe ch h (Runs-IsSafe h p f g r) in subst IsSafe (cc) s
Runs-IsSafe _ _ _ _ (forwarded h h' p f g r e) =
    let (next, e', _, s) = forward_lem h (Runs-IsSafe h p f g r) in subst IsSafe (cc) s
Runs-IsSafe _ _ _ _ (received h p f g ch r) = receive-IsSafe ch h (Runs-IsSafe h p f g r)

-- Whatever the interleaving of publishers, subscribers and the hub, neither a removal, even a repeated
-- one, nor the fan-out of an event panics on a closed channel. The fan-out takes the oldest event off the
-- queue and appends it to the buffer of each subscriber that has room in it; it closes no channel, drops
-- no subscriber and changes no other channel.
pub Runs-safe :
    (h : Hub) (p f : List AuditEvent) (g : ℕ → List AuditEvent)
    → Runs h p f g
    → ((ch : ℕ) → (h' : Hub) × (remove ch h ≡ ok h'))
      × ((h' : Hub) × (forward h ≡ ok h') × Forwarded h h.incoming h')
Runs-safe h p f g r =
    let s = Runs-IsSafe h p f g r in
    let (next, e, o, _) = forward_lem h s in
    (λ ch. let (h', e', _) = remove-IsSafe ch h s in (h', e'), (next, e, o))
