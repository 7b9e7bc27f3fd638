-- ===== src/Stream/Sessions/Connected.antt =====
-- The subscribers of the hub against the connections of internal/agent/stream.go.
use mathlib.Core.Path.{subst}
use aegis_ebpf.Base.{
  ℕ, ◌≡◌, ◌≢◌, inl, inr, refl, sym, ap, ◌∙◌, Bool, true, false, List, [], ◌∷◌, Result, ok, err,
  length, ltb, Bool-cases, if◌then◌else◌,
}
use aegis_ebpf.Events.Types.{AuditEvent}
use aegis_ebpf.Stream.Sessions.{
  Case, on_done, on_event, on_ping, leave, after_receive, round, Serving, idle, published,
  forwarded, connected, rounded,
}
use aegis_ebpf.Stream.Steps.{
  IsSafe, Forwarded, new_hub-IsSafe, publish-IsSafe, fresh_channel, add-IsSafe, remove-IsSafe,
  forward_lem, receive-IsSafe,
}
use aegis_ebpf.Stream.{
  subscriber_buffer, Fault, Hub, new_hub, is_subscriber, unlisted, publish, add, remove, Received,
  event, ended, waiting, take_from, receive,
}

-- A safe hub whose subscribers are these.
record Has (h : Hub) (chs : List ℕ) : Type 0 where
  safe : IsSafe h
  subscribed : h.subscribers ≡ chs

publish-subscribers : (ev : AuditEvent) (h : Hub) → (publish ev h).subscribers ≡ h.subscribers
unfolding publish
publish-subscribers ev h = elim (Bool-cases (ltb (length h.incoming) subscriber_buffer)) [
  | inl e ↦ rw e refl
  | inr e ↦ rw e refl
]

forward-subscribers :
    (h h' : Hub) (evs : List AuditEvent) → Forwarded h evs h' → h'.subscribers ≡ h.subscribers
forward-subscribers h h' [] same = ap (λ (x : Hub). x.subscribers) same
forward-subscribers h h' (ev ∷ evs) (_, same, _, _) = same

take_from-subscribers :
    (ch : ℕ) (h : Hub) (evs : List AuditEvent) → (take_from ch h evs).1.subscribers ≡ h.subscribers
unfolding take_from
take_from-subscribers ch h [] = refl
take_from-subscribers ch h (ev ∷ evs) = refl

receive-subscribers : (ch : ℕ) (h : Hub) → (receive ch h).1.subscribers ≡ h.subscribers
unfolding receive
receive-subscribers ch h = take_from-subscribers ch h (h.channels ch).buffer

-- A subscriber whose channel is open does not see its end.
take_from_open :
    (ch : ℕ) (h : Hub) (evs : List AuditEvent)
    → (h.channels ch).closed ≡ false
    → (take_from ch h evs).0 ≢ ended
unfolding take_from
take_from_open ch h [] e end = absurd (let end' = rw e at end in cc)
take_from_open ch h (ev ∷ evs) e end = absurd (cc)

receive_open :
    (ch : ℕ) (h : Hub) → IsSafe h → is_subscriber ch h.subscribers ≡ true → (receive ch h).0 ≢ ended
unfolding receive
receive_open ch h s u = take_from_open ch h (h.channels ch).buffer (s.all_open ch u)

abbrev subscribers_of : Result Fault Hub → List ℕ
subscribers_of (ok h) = h.subscribers
subscribers_of (err f) = []

remove-subscribers :
    (ch : ℕ) (h h' : Hub)
    → IsSafe h
    → is_subscriber ch h.subscribers ≡ true
    → remove ch h ≡ ok h'
    → h'.subscribers ≡ unlisted ch h.subscribers
unfolding remove
remove-subscribers ch h h' s u e =
    let left = rw (u, s.all_open ch u) at e in ap subscribers_of (sym left)

-- A round of a connection does not panic, and takes it off the hub where it ends it.
abbrev Rounds : Hub → List ℕ → ℕ → Result Fault (Bool × Hub) → Type 0
Rounds h chs ch (err f) = ⊥
Rounds h chs ch (ok (on, h')) = Has h' (if on then chs else unlisted ch chs)

leave-Rounds :
    (h : Hub) (chs : List ℕ) (ch : ℕ)
    → Has h chs
    → is_subscriber ch chs ≡ true
    → Rounds h chs ch (leave ch h)
leave-Rounds h chs ch has u =
    let u' : is_subscriber ch h.subscribers ≡ true = ap (is_subscriber ch) has.subscribed ∙ u in
    let (h', e, s) = remove-IsSafe ch h has.safe in
    rw e (record {
      safe = s;
      subscribed = remove-subscribers ch h h' has.safe u' e ∙ ap (unlisted ch) has.subscribed;
    })

after_receive-Rounds :
    (h : Hub) (chs : List ℕ) (ch : ℕ) (sent : Bool) (got : Received × Hub)
    → Has got.1 chs
    → is_subscriber ch chs ≡ true
    → Rounds h chs ch (after_receive ch sent got)
unfolding after_receive
after_receive-Rounds h chs ch true (event ev, h') has u = has
after_receive-Rounds h chs ch false (event ev, h') has u = leave-Rounds h' chs ch has u
after_receive-Rounds h chs ch sent (ended, h') has u = leave-Rounds h' chs ch has u
after_receive-Rounds h chs ch sent (waiting, h') has u = has

round-Rounds :
    (h : Hub) (chs : List ℕ) (ch : ℕ) (case : Case) (sent : Bool)
    → Has h chs
    → is_subscriber ch chs ≡ true
    → Rounds h chs ch (round ch case sent h)
unfolding round
round-Rounds h chs ch on_done sent has u = leave-Rounds h chs ch has u
round-Rounds h chs ch on_event sent has u =
    after_receive-Rounds h chs ch sent (receive ch h)
      (record {
        safe = receive-IsSafe ch h has.safe;
        subscribed = receive-subscribers ch h ∙ has.subscribed;
      })
      u
round-Rounds h chs ch on_ping true has u = has
round-Rounds h chs ch on_ping false has u = leave-Rounds h chs ch has u

Serving-Has : (h : Hub) (chs : List ℕ) → Serving h chs → Has h chs
unfolding new_hub add
Serving-Has _ _ idle = record { safe = new_hub-IsSafe; subscribed = refl }
Serving-Has _ _ (published h chs ev s) =
    let has = Serving-Has h chs s in
    record {
      safe = publish-IsSafe ev h has.safe;
      subscribed = publish-subscribers ev h ∙ has.subscribed;
    }
Serving-Has _ _ (forwarded h h' chs s e) =
    let has = Serving-Has h chs s in
    let (next, e', f, safe) = forward_lem h has.safe in
    let same : next ≡ h' = cc in
    subst (λ x. Has x chs) same
      (record {
        safe = safe;
        subscribed = forward-subscribers h next h.incoming f ∙ has.subscribed;
      })
Serving-Has _ _ (connected h chs s) =
    let has = Serving-Has h chs s in
    record {
      safe = add-IsSafe h has.safe;
      subscribed = rw (fresh_channel h has.safe) (ap (◌∷◌ h.made) has.subscribed);
    }
Serving-Has _ _ (rounded h h' chs ch case sent on s u e) =
    subst (Rounds h chs ch) e (round-Rounds h chs ch case sent (Serving-Has h chs s) u)

-- Whatever the interleaving, the subscribers of the hub are exactly the connections that are open, so that
-- none is left behind when they end. No round of a connection panics, and none finds its channel closed: the
-- hub drops no connection.
pub Serving-connected :
    (h : Hub) (chs : List ℕ)
    → Serving h chs
    → (h.subscribers ≡ chs)
      × ((ch : ℕ)
          → is_subscriber ch chs ≡ true
          → ((case : Case) (sent : Bool) → (r : Bool × Hub) × (round ch case sent h ≡ ok r))
            × ((receive ch h).0 ≢ ended))
Serving-connected h chs s =
    let has = Serving-Has h chs s in
    (
      has.subscribed,
      λ ch u. (
        (λ case sent. returns ch (round ch case sent h) (round-Rounds h chs ch case sent has u)),
        receive_open ch h has.safe (ap (is_subscriber ch) has.subscribed ∙ u),
      ),
    )
  where
    returns :
        (ch : ℕ) (r : Result Fault (Bool × Hub)) → Rounds h chs ch r → (x : Bool × Hub) × (r ≡ ok x)
    returns ch (ok x) rounds = (x, refl)
    returns ch (err f) rounds = absurd rounds
