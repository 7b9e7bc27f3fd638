-- ===== src/Stream/Order.antt =====
-- What the subscribers of the hub of internal/agent/stream.go see.
use mathlib.Core.List.Sublist
use mathlib.Core.List.{Sublist, sublist-append_left}
use mathlib.Core.Path.{subst}
use aegis_ebpf.Base.{
  ℕ, ◌≡◌, inl, inr, refl, sym, ap, ◌∙◌, true, false, List, [], ◌∷◌, ◌++◌, append-nil, append_assoc,
  ok, length, ltb, ◌==◌, ==_iff, Bool-cases, if◌then◌else◌,
}
use aegis_ebpf.Events.Types.{AuditEvent}
use aegis_ebpf.Stream.Interleavings.{
  note, first_of, Runs, started, published, added, removed, forwarded, received,
}
use aegis_ebpf.Stream.Steps.{Forwarded}
use aegis_ebpf.Stream.Safety.{Runs-safe, Runs-IsSafe}
use aegis_ebpf.Stream.{
  subscriber_buffer, Hub, new_hub, update, is_subscriber, unlisted, publish, add, remove, receive,
  take_from, ended, waiting,
}

-- The published events `p` hold the events fanned out and those in the queue, in this order; the events
-- fanned out hold those that a subscriber has seen and those in its buffer.
record Keeps (h : Hub) (p f : List AuditEvent) (g : ℕ → List AuditEvent) : Type 0 where
  queue : Sublist (f ++ h.incoming) p
  buffers : (ch : ℕ) → Sublist (g ch ++ (h.channels ch).buffer) f

sublist_snoc :
    (xs ys zs : List AuditEvent) (ev : AuditEvent)
    → Sublist (xs ++ ys) zs
    → Sublist (xs ++ (ys ++ ev ∷ [])) (zs ++ ev ∷ [])
sublist_snoc xs ys zs ev s =
    rw (← append_assoc xs ys (ev ∷ [])) (Sublist.append s (Sublist.refl (ev ∷ [])))

sublist_later : (xs ys zs : List AuditEvent) → Sublist xs ys → Sublist xs (ys ++ zs)
sublist_later xs ys zs s = Sublist.trans s (sublist-append_left ys zs)

started-Keeps : Keeps new_hub [] [] (λ _. [])
unfolding new_hub
started-Keeps = record { queue = Sublist.refl []; buffers = λ ch. Sublist.refl [] }

published-Keeps :
    (h : Hub) (p f : List AuditEvent) (g : ℕ → List AuditEvent) (ev : AuditEvent)
    → Keeps h p f g
    → Keeps (publish ev h) (p ++ ev ∷ []) f g
unfolding publish
published-Keeps h p f g ev k = elim (Bool-cases (ltb (length h.incoming) subscriber_buffer)) [
  | inl r ↦ rw r (record { queue = sublist_snoc f h.incoming p ev k.queue; buffers = k.buffers })
  | inr r ↦ rw r (record { queue = sublist_later _ p (ev ∷ []) k.queue; buffers = k.buffers })
]

added-Keeps :
    (h : Hub) (p f : List AuditEvent) (g : ℕ → List AuditEvent)
    → Keeps h p f g
    → Keeps (add h) p f g
unfolding add
added-Keeps h p f g k = record {
  queue = k.queue;
  buffers = λ ch. elim (Bool-cases (h.made == ch)) [
    | inl m ↦
        rw m (rw (append-nil (g ch)) (Sublist.trans (sublist-append_left (g ch) _) (k.buffers ch)))
    | inr m ↦ rw m (k.buffers ch)
  ];
}

removed-Keeps :
    (h h' : Hub) (p f : List AuditEvent) (g : ℕ → List AuditEvent) (ch : ℕ)
    → (h.channels ch).closed ≡ false
    → is_subscriber ch h.subscribers ≡ true
    → remove ch h ≡ ok h'
    → Keeps h p f g
    → Keeps h' p f g
unfolding remove
removed-Keeps h h' p f g ch o u e k =
    let after : Hub = record h {
      subscribers = unlisted ch h.subscribers;
      channels = update h.channels ch (record (h.channels ch) { closed = true });
    } in
    let same : after ≡ h' = let e' = rw (u, o) at e in cc in
    subst (λ (n : Hub). Keeps n p f g) same
      (record {
        queue = k.queue;
        buffers = λ x. elim (Bool-cases (ch == x)) [
          | inl m ↦ rw m (
              subst (λ (j : ℕ). Sublist (g j ++ (h.channels ch).buffer) f) ((==_iff ch x).0 m)
                (k.buffers ch))
          | inr m ↦ rw m (k.buffers x)
        ];
      })

removed_absent :
    (h h' : Hub) (ch : ℕ) → is_subscriber ch h.subscribers ≡ false → remove ch h ≡ ok h' → h ≡ h'
unfolding remove
removed_absent h h' ch u e = let e' = rw u at e in cc

forward-Keeps :
    (h h' : Hub) (p f evs : List AuditEvent) (g : ℕ → List AuditEvent)
    → h.incoming ≡ evs
    → Forwarded h evs h'
    → Keeps h p f g
    → Keeps h' p (f ++ first_of evs) g
forward-Keeps h h' p f [] g i o k = rw (append-nil f) (subst (λ (n : Hub). Keeps n p f g) (sym o) k)
forward-Keeps h h' p f (ev ∷ evs) g i (q, _, _, o) k = record {
  queue =
      subst (λ (l : List AuditEvent). Sublist l p)
        (ap (◌++◌ f) i ∙ sym (append_assoc f (ev ∷ []) evs) ∙ ap (◌++◌ (f ++ ev ∷ [])) (sym q))
        k.queue;
  buffers = λ x. rw (o x) (elim (Bool-cases (is_subscriber x h.subscribers)) [
    | inl u ↦ rw u (elim (Bool-cases (ltb (length (h.channels x).buffer) subscriber_buffer)) [
      | inl r ↦ rw r (sublist_snoc (g x) (h.channels x).buffer f ev (k.buffers x))
      | inr r ↦ rw r (sublist_later _ f (ev ∷ []) (k.buffers x))
    ])
    | inr u ↦ rw u (sublist_later _ f (ev ∷ []) (k.buffers x))
  ]);
}

take_from-Keeps :
    (h : Hub) (p f evs : List AuditEvent) (g : ℕ → List AuditEvent) (ch : ℕ)
    → (h.channels ch).buffer ≡ evs
    → Keeps h p f g
    → Keeps (take_from ch h evs).1 p f (note ch (take_from ch h evs).0 g)
unfolding take_from
take_from-Keeps h p f [] g ch b k = record {
  queue = k.queue;
  buffers = λ x. rw (idle x) (k.buffers x);
}
  where
    idle : (x : ℕ) → note ch (if (h.channels ch).closed then ended else waiting) g x ≡ g x
    idle x = elim (Bool-cases (ch == x)) [
      | inl m ↦ elim (Bool-cases (h.channels ch).closed) [
        | inl c ↦ rw (m, c) refl
        | inr c ↦ rw (m, c) refl
      ]
      | inr m ↦ rw m refl
    ]
take_from-Keeps h p f (ev ∷ evs) g ch b k = record {
  queue = k.queue;
  buffers = λ x. elim (Bool-cases (ch == x)) [
    | inl m ↦ rw m (
        subst (λ (l : List AuditEvent). Sublist l f)
          (ap (λ (j : ℕ). g x ++ (h.channels j).buffer) (sym ((==_iff ch x).0 m))
            ∙ ap (◌++◌ (g x)) b
            ∙ sym (append_assoc (g x) (ev ∷ []) evs))
          (k.buffers x))
    | inr m ↦ rw m (k.buffers x)
  ];
}

Runs-Keeps :
    (h : Hub) (p f : List AuditEvent) (g : ℕ → List AuditEvent) → Runs h p f g → Keeps h p f g
unfolding receive
Runs-Keeps _ _ _ _ started = started-Keeps
Runs-Keeps _ _ _ _ (published h p f g ev r) = published-Keeps h p f g ev (Runs-Keeps h p f g r)
Runs-Keeps _ _ _ _ (added h p f g r) = added-Keeps h p f g (Runs-Keeps h p f g r)
Runs-Keeps _ _ _ _ (removed h h' p f g ch r e) =
    elim (Bool-cases (is_subscriber ch h.subscribers)) [
      | inl u ↦
          removed-Keeps h h' p f g ch ((Runs-IsSafe h p f g r).all_open ch u) u e
            (Runs-Keeps h p f g r)
      | inr u ↦
          subst (λ (n : Hub). Keeps n p f g) (removed_absent h h' ch u e) (Runs-Keeps h p f g r)
    ]
Runs-Keeps _ _ _ _ (forwarded h h' p f g r e) =
    let (next, e', o) = (Runs-safe h p f g r).1 in
    forward-Keeps h h' p f h.incoming g refl (subst (Forwarded h h.incoming) (cc) o)
      (Runs-Keeps h p f g r)
Runs-Keeps _ _ _ _ (received h p f g ch r) =
    take_from-Keeps h p f (h.channels ch).buffer g ch refl (Runs-Keeps h p f g r)

-- Whatever the interleaving, what a subscriber has received, with what waits in its buffer behind it, are
-- published events in the order in which they were published, each at most as often: the stream may skip
-- events, but neither repeats, reorders nor invents any.
pub Runs-ordered :
    (h : Hub) (p f : List AuditEvent) (g : ℕ → List AuditEvent) (ch : ℕ)
    → Runs h p f g
    → Sublist (g ch ++ (h.channels ch).buffer) p
Runs-ordered h p f g ch r =
    let k = Runs-Keeps h p f g r in
    Sublist.trans (k.buffers ch) (Sublist.trans (sublist-append_left f h.incoming) k.queue)
