-- ===== src/Stream/Steps.antt =====
-- The invariant of the hub of internal/agent/stream.go, which each of its steps keeps.
use aegis_ebpf.Base.{
  ℕ, ◌+◌, ◌≤◌, ◌<◌, ◌≡◌, inl, inr, ◌⊎◌, refl, ap, ◌∙◌, true, false, List, [], ◌∷◌, ◌++◌, ok, arith,
  length, length-append, ltb, ◌==◌, ==_iff, Bool-cases,
}
use aegis_ebpf.Events.Types.{AuditEvent}
use aegis_ebpf.Stream.Fanning.{offered, offered-closed, AllDifferent, AllOpen, Offered, fan_out_lem}
use aegis_ebpf.Stream.{
  subscriber_buffer, Channel, Hub, new_hub, update, is_subscriber, unlisted, publish, add, remove,
  deliver, forward, receive, take_from,
}

pub record IsSafe (h : Hub) : Type 0 where
  pub queue : length h.incoming ≤ subscriber_buffer
  pub buffers : (ch : ℕ) → length (h.channels ch).buffer ≤ subscriber_buffer
  pub different : AllDifferent h.subscribers
  pub all_open : AllOpen h.subscribers h.channels
  pub listed : (ch : ℕ) → is_subscriber ch h.subscribers ≡ true → ch < h.made

pub new_hub-IsSafe : IsSafe new_hub
unfolding new_hub
new_hub-IsSafe = record {
  queue = omega arith;
  buffers = λ ch. omega arith;
  different = tt;
  all_open = λ ch e. absurd (cc);
  listed = λ ch e. absurd (cc);
}

length-snoc : (xs : List AuditEvent) (ev : AuditEvent) → length (xs ++ ev ∷ []) ≡ length xs + 1
length-snoc xs ev = length-append xs (ev ∷ [])

pub publish-IsSafe : (ev : AuditEvent) (h : Hub) → IsSafe h → IsSafe (publish ev h)
unfolding publish
publish-IsSafe ev h s = elim (Bool-cases (ltb (length h.incoming) subscriber_buffer)) [
  | inl r ↦ rw r (record {
    queue = ground (arith, r, length-snoc h.incoming ev);
    buffers = s.buffers;
    different = s.different;
    all_open = s.all_open;
    listed = s.listed;
  })
  | inr r ↦ rw r s
]

unlisted_was :
    (ch x : ℕ) (subs : List ℕ)
    → is_subscriber x (unlisted ch subs) ≡ true
    → (is_subscriber x subs ≡ true) × ((ch == x) ≡ false)
unlisted_was ch x [] e = absurd (cc)
unlisted_was ch x (y ∷ subs) e = ground (arith, e, unlisted_was ch x subs)

unlisted-AllDifferent :
    (ch : ℕ) (subs : List ℕ) → AllDifferent subs → AllDifferent (unlisted ch subs)
unlisted-AllDifferent ch [] d = tt
unlisted-AllDifferent ch (y ∷ subs) (fresh, d) = elim (Bool-cases (y == ch)) [
  | inl e ↦ rw e (unlisted-AllDifferent ch subs d)
  | inr e ↦
      rw e
        (still (Bool-cases (is_subscriber y (unlisted ch subs))), unlisted-AllDifferent ch subs d)
]
  where
    still :
        (is_subscriber y (unlisted ch subs) ≡ true) ⊎ (is_subscriber y (unlisted ch subs) ≡ false)
        → is_subscriber y (unlisted ch subs) ≡ false
    still (inr e) = e
    still (inl e) = let (was, ne) = unlisted_was ch y subs e in absurd (cc)

-- The number of a new channel is not listed.
pub fresh_channel : (h : Hub) → IsSafe h → is_subscriber h.made h.subscribers ≡ false
fresh_channel h s = elim (Bool-cases (is_subscriber h.made h.subscribers)) [
  | inl e ↦ absurd (omega (arith, s.listed h.made e))
  | inr e ↦ e
]

pub add-IsSafe : (h : Hub) → IsSafe h → IsSafe (add h)
unfolding add
add-IsSafe h s = rw (fresh_channel h s) (record {
  queue = s.queue;
  buffers = λ ch. elim (Bool-cases (h.made == ch)) [
    | inl e ↦ rw e (omega arith)
    | inr e ↦ rw e (s.buffers ch)
  ];
  different = (fresh_channel h s, s.different);
  all_open = λ ch e. elim (Bool-cases (h.made == ch)) [
    | inl m ↦ rw m refl
    | inr m ↦ rw m (s.all_open ch (ground (arith, e, m)))
  ];
  listed = λ ch e. elim (Bool-cases (h.made == ch)) [
    | inl m ↦ ground (arith, m)
    | inr m ↦ ground (arith, s.listed ch, e, m)
  ];
})

pub remove-IsSafe : (ch : ℕ) (h : Hub) → IsSafe h → (h' : Hub) × (remove ch h ≡ ok h') × IsSafe h'
unfolding remove
remove-IsSafe ch h s = elim (Bool-cases (is_subscriber ch h.subscribers)) [
  | inr e ↦ (h, rw e refl, s)
  | inl e ↦ (
    record h {
      subscribers = unlisted ch h.subscribers;
      channels = update h.channels ch (record (h.channels ch) { closed = true });
    },
    rw (e, s.all_open ch e) refl,
    record {
      queue = s.queue;
      buffers = λ x. elim (Bool-cases (ch == x)) [
        | inl m ↦ rw m (s.buffers ch)
        | inr m ↦ rw m (s.buffers x)
      ];
      different = unlisted-AllDifferent ch h.subscribers s.different;
      all_open =
          λ x u. let (was, ne) = unlisted_was ch x h.subscribers u in rw ne (s.all_open x was);
      listed = λ x u. let (was, ne) = unlisted_was ch x h.subscribers u in s.listed x was;
    },
  )
]

offered-buffer :
    (ev : AuditEvent) (c : Channel)
    → length c.buffer ≤ subscriber_buffer
    → length (offered ev c).buffer ≤ subscriber_buffer
offered-buffer ev c le = elim (Bool-cases (ltb (length c.buffer) subscriber_buffer)) [
  | inl r ↦ rw r (ground (arith, r, length-snoc c.buffer ev))
  | inr r ↦ rw r le
]

-- What `forward` does with the events in the queue.
abbrev pub Forwarded : Hub → List AuditEvent → Hub → Type 0
Forwarded h [] h' = h' ≡ h
Forwarded h (ev ∷ evs) h' =
    (h'.incoming ≡ evs)
    × (h'.subscribers ≡ h.subscribers)
    × (h'.made ≡ h.made)
    × Offered ev h.subscribers h.channels h'.channels

deliver_lem :
    (h : Hub) (evs : List AuditEvent)
    → IsSafe h
    → length evs ≤ subscriber_buffer
    → (h' : Hub) × (deliver h evs ≡ ok h') × Forwarded h evs h' × IsSafe h'
unfolding deliver
deliver_lem h [] s le = (h, refl, refl, s)
deliver_lem h (ev ∷ evs) s le =
    let (channels, e, o) = fan_out_lem ev h.subscribers h.channels s.different s.all_open in
    (
      record h { incoming = evs; channels = channels },
      rw e refl,
      (refl, refl, refl, o),
      record {
        queue = omega (arith, le);
        buffers = λ x. elim (Bool-cases (is_subscriber x h.subscribers)) [
          | inl u ↦ rw (o x) (rw u (offered-buffer ev (h.channels x) (s.buffers x)))
          | inr u ↦ rw (o x) (rw u (s.buffers x))
        ];
        different = s.different;
        all_open = λ x u. rw (o x) (rw u (offered-closed ev (h.channels x) ∙ s.all_open x u));
        listed = s.listed;
      },
    )

pub forward_lem :
    (h : Hub) → IsSafe h → (h' : Hub) × (forward h ≡ ok h') × Forwarded h h.incoming h' × IsSafe h'
unfolding forward
forward_lem h s = deliver_lem h h.incoming s s.queue

take_from-IsSafe :
    (ch : ℕ) (h : Hub) (evs : List AuditEvent)
    → length evs ≤ subscriber_buffer
    → IsSafe h
    → IsSafe (take_from ch h evs).1
unfolding take_from
take_from-IsSafe ch h [] le s = s
take_from-IsSafe ch h (ev ∷ evs) le s = record {
  queue = s.queue;
  buffers = λ x. elim (Bool-cases (ch == x)) [
    | inl m ↦ rw m (omega (arith, le))
    | inr m ↦ rw m (s.buffers x)
  ];
  different = s.different;
  all_open = λ x u. elim (Bool-cases (ch == x)) [
    | inl m ↦
        let same : ch ≡ x = (==_iff ch x).0 m in
        rw m (ap (λ (k : ℕ). (h.channels k).closed) same ∙ s.all_open x u)
    | inr m ↦ rw m (s.all_open x u)
  ];
  listed = s.listed;
}

pub receive-IsSafe : (ch : ℕ) (h : Hub) → IsSafe h → IsSafe (receive ch h).1
unfolding receive
receive-IsSafe ch h s = take_from-IsSafe ch h (h.channels ch).buffer (s.buffers ch) s
