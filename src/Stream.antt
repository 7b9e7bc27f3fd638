-- ===== src/Stream.antt =====
-- internal/agent/stream.go: the hub that fans events out to the subscribers of the stream. A channel is
-- its number, under which the hub's state holds its buffer; a call that Go would end by a panic is an
-- error. A rendezvous on `subscribe` or `unsubscribe` is one step of the hub.
pub mod Fanning
pub mod Interleavings
pub mod Steps
pub mod Safety
pub mod Order
pub mod Sessions
use aegis_ebpf.Base.{
  ℕ, ◌+◌, Bool, true, false, not, List, [], ◌∷◌, ◌++◌, Option, none, some, Result, ok, err, ◌>>=◌,
  length, any, filter, ltb, ◌==◌, if◌then◌else◌,
}
use aegis_ebpf.Events.Types.{AuditEvent}

abbrev pub subscriber_buffer : ℕ
subscriber_buffer = 256

pub data Fault : Type 0 where
  send_on_closed close_of_closed : Fault

pub record Channel : Type 0 where
  pub buffer : List AuditEvent
  pub closed : Bool

abbrev pub new_channel : Channel
new_channel = record { buffer = []; closed = false }

-- `subscribers` is the variable of `run`; the channels below `made` are those that `add` has made.
pub record Hub : Type 0 where
  pub incoming : List AuditEvent
  pub subscribers : List ℕ
  pub channels : ℕ → Channel
  pub made : ℕ

-- `newHub`.
unfoldable pub new_hub : Hub
new_hub = record { incoming = []; subscribers = []; channels = λ _. new_channel; made = 0 }

abbrev pub update : (ℕ → Channel) → ℕ → Channel → ℕ → Channel
update f i c j = if i == j then c else f j

abbrev pub is_subscriber : ℕ → List ℕ → Bool
is_subscriber ch subs = any (λ x. x == ch) subs

-- `delete(subscribers, ch)`.
abbrev pub unlisted : ℕ → List ℕ → List ℕ
unlisted ch subs = filter (λ x. not (x == ch)) subs

-- `select { case ch <- ev: default: }`: a closed channel panics, and a full one drops the event.
abbrev pub offer : AuditEvent → Channel → Result Fault Channel
offer ev c =
    if c.closed
    then err send_on_closed
    else if ltb (length c.buffer) subscriber_buffer
    then ok (record c { buffer = c.buffer ++ ev ∷ [] })
    else ok c

-- The loop of `run` over the subscribers.
unfoldable pub fan_out : AuditEvent → List ℕ → (ℕ → Channel) → Result Fault (ℕ → Channel)
fan_out ev [] channels = ok channels
fan_out ev (ch ∷ subs) channels = do
  c ← offer ev (channels ch)
  fan_out ev subs (update channels ch c)

abbrev pub close : Channel → Result Fault Channel
close c = if c.closed then err close_of_closed else ok (record c { closed = true })

-- `publish`: a hub that is behind drops the event.
unfoldable pub publish : AuditEvent → Hub → Hub
publish ev h =
    if ltb (length h.incoming) subscriber_buffer
    then record h { incoming = h.incoming ++ ev ∷ [] }
    else h

-- `add`, with the first case of `run`.
unfoldable pub add : Hub → Hub
add h = record h {
  subscribers =
      if is_subscriber h.made h.subscribers then h.subscribers else h.made ∷ h.subscribers;
  channels = update h.channels h.made new_channel;
  made = h.made + 1;
}

-- `remove`, with the second case of `run`.
unfoldable pub remove : ℕ → Hub → Result Fault Hub
remove ch h =
    if is_subscriber ch h.subscribers
    then (do
      c ← close (h.channels ch)
      ok (record h { subscribers = unlisted ch h.subscribers; channels = update h.channels ch c }))
    else ok h

deliver : Hub → List AuditEvent → Result Fault Hub
deliver h [] = ok h
deliver h (ev ∷ evs) = do
  channels ← fan_out ev h.subscribers h.channels
  ok (record h { incoming = evs; channels = channels })

-- The third case of `run`, which waits on an empty queue.
unfoldable pub forward : Hub → Result Fault Hub
unfolding deliver
forward h = deliver h h.incoming

-- What `<-ch` gives to the loop of `streamEvents`: an event to write, the end of the stream, or nothing
-- yet.
pub data Received : Type 0 where
  event : AuditEvent → Received
  ended waiting : Received

take_from : ℕ → Hub → List AuditEvent → Received × Hub
take_from ch h [] = (if (h.channels ch).closed then ended else waiting, h)
take_from ch h (ev ∷ evs) = (
  event ev,
  record h { channels = update h.channels ch (record (h.channels ch) { buffer = evs }) },
)

unfoldable pub receive : ℕ → Hub → Received × Hub
unfolding take_from
receive ch h = take_from ch h (h.channels ch).buffer
