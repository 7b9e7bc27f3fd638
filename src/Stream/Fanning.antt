-- ===== src/Stream/Fanning.antt =====
-- The loop over the subscribers in `run` of internal/agent/stream.go.
use mathlib.Core.Path.{subst}
use aegis_ebpf.Base.{
  ℕ, ◌≡◌, inl, inr, refl, ap, ◌∙◌, true, false, List, [], ◌∷◌, ◌++◌, ok, arith, length, ltb, ◌==◌,
  ==_iff, Bool-cases, if◌then◌else◌,
}
use aegis_ebpf.Events.Types.{AuditEvent}
use aegis_ebpf.Stream.{subscriber_buffer, Channel, update, is_subscriber, offer, fan_out}

-- The channel with one event more, if its buffer has room.
abbrev pub offered : AuditEvent → Channel → Channel
offered ev c =
    if ltb (length c.buffer) subscriber_buffer then record c { buffer = c.buffer ++ ev ∷ [] } else c

-- No channel twice.
abbrev pub AllDifferent : List ℕ → Type 0
AllDifferent [] = Unit
AllDifferent (ch ∷ subs) = (is_subscriber ch subs ≡ false) × AllDifferent subs

abbrev pub AllOpen : List ℕ → (ℕ → Channel) → Type 0
AllOpen subs channels = (ch : ℕ) → is_subscriber ch subs ≡ true → (channels ch).closed ≡ false

offer_open : (ev : AuditEvent) (c : Channel) → c.closed ≡ false → offer ev c ≡ ok (offered ev c)
offer_open ev c e = elim (Bool-cases (ltb (length c.buffer) subscriber_buffer)) [
  | inl r ↦ rw (e, r)
  | inr r ↦ rw (e, r)
]

pub offered-closed : (ev : AuditEvent) (c : Channel) → (offered ev c).closed ≡ c.closed
offered-closed ev c = elim (Bool-cases (ltb (length c.buffer) subscriber_buffer)) [
  | inl r ↦ rw r
  | inr r ↦ rw r
]

head_subscriber : (ch : ℕ) (subs : List ℕ) → is_subscriber ch (ch ∷ subs) ≡ true
head_subscriber ch subs = ground arith

tail_subscriber :
    (x ch : ℕ) (subs : List ℕ) → is_subscriber x subs ≡ true → is_subscriber x (ch ∷ subs) ≡ true
tail_subscriber x ch subs e = ground (arith, e)

update-AllOpen :
    (ev : AuditEvent) (ch : ℕ) (subs : List ℕ) (channels : ℕ → Channel)
    → AllOpen (ch ∷ subs) channels
    → AllOpen subs (update channels ch (offered ev (channels ch)))
update-AllOpen ev ch subs channels o x e = elim (Bool-cases (ch == x)) [
  | inl s ↦ rw s (offered-closed ev (channels ch) ∙ o ch (head_subscriber ch subs))
  | inr s ↦ rw s (o x (tail_subscriber x ch subs e))
]

-- Each subscriber is offered the event, and no other channel changes.
abbrev pub Offered : AuditEvent → List ℕ → (ℕ → Channel) → (ℕ → Channel) → Type 0
Offered ev subs channels channels' =
    (x : ℕ) → channels' x ≡ (if is_subscriber x subs then offered ev (channels x) else channels x)

next_Offered :
    (ev : AuditEvent) (ch : ℕ) (subs : List ℕ) (channels channels' : ℕ → Channel)
    → is_subscriber ch subs ≡ false
    → Offered ev subs (update channels ch (offered ev (channels ch))) channels'
    → Offered ev (ch ∷ subs) channels channels'
next_Offered ev ch subs channels channels' fresh h x = elim (Bool-cases (ch == x)) [
  | inl s ↦
      let same : ch ≡ x = (==_iff ch x).0 s in
      let absent : is_subscriber x subs ≡ false =
        subst (λ (k : ℕ). is_subscriber k subs ≡ false) same fresh in
      rw s (h x ∙ rw (absent, s) (ap (λ (k : ℕ). offered ev (channels k)) same))
  | inr s ↦ rw s (h x ∙ rw s refl)
]

-- With its subscribers all open and different, the loop ends, offers the event to each of them, and leaves
-- all other channels alone.
pub fan_out_lem :
    (ev : AuditEvent) (subs : List ℕ) (channels : ℕ → Channel)
    → AllDifferent subs
    → AllOpen subs channels
    → (channels' : ℕ → Channel) × (fan_out ev subs channels ≡ ok channels')
      × Offered ev subs channels channels'
unfolding fan_out
fan_out_lem ev [] channels d o = (channels, refl, λ x. refl)
fan_out_lem ev (ch ∷ subs) channels (fresh, d) o =
    let (channels', e, h) =
      fan_out_lem ev subs (update channels ch (offered ev (channels ch))) d
        (update-AllOpen ev ch subs channels o) in
    (
      channels',
      rw (offer_open ev (channels ch) (o ch (head_subscriber ch subs))) e,
      next_Offered ev ch subs channels channels' fresh h,
    )
