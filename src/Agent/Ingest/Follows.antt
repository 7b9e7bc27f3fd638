-- ===== src/Agent/Ingest/Follows.antt =====
-- `Ingest` of internal/agent/agent.go keeps the ring and its index right.
use aegis_ebpf.Base.Maps.{pair_key, find, insert, erase, bytes_key, insert_elsewhere}
use aegis_ebpf.Base.{
  ℕ, ◌+◌, ◌≤◌, ◌<◌, ◌≡◌, inl, inr, refl, sym, ◌∙◌, Bool, true, false, List, [], ◌∷◌, Option, none,
  some, Bytes, arith, length, ltb, leb, ◌==◌, ◌=b◌, =b_iff, Bool-cases, Option-cases, if◌then◌else◌,
}
use aegis_ebpf.Agent.Ingest.{
  enrich, enrich_with, raised, record_for, apply_rules, classify, ingest_one, ingest_all,
}
use aegis_ebpf.Agent.Remediations.{
  drop, evict, rem_key, oldest_from, see, see_at, record_at, record_match, open_in, with_room,
}
use aegis_ebpf.Agent.Ring.History.{Tracks, store-Tracks}
use aegis_ebpf.Agent.Ring.Entries.{Indexed, find-make_room}
use aegis_ebpf.Agent.Ring.Lookup.{store-Indexed}
use aegis_ebpf.Agent.Ring.{store, make_room}
use aegis_ebpf.Agent.State.{Agent, Remediation, RemKey, Enricher}
use aegis_ebpf.Events.Types.{Time, severity_info, rank, Container, AuditEvent}
use aegis_ebpf.Fixer.Rules.{Rule}

-- The events of a batch, newest first, before the history.
abbrev pub onto : List AuditEvent → List AuditEvent → List AuditEvent
onto [] h = h
onto (ev ∷ evs) h = onto evs (ev ∷ h)

module _ (new_id : ℕ → Bytes) where
  -- The ring and the index follow the history `h`; the index has IDs among the first `n` only,
  -- and at least `m` IDs are issued.
  pub record Follows (n m : ℕ) (a : Agent) (h : List AuditEvent) : Type 0 where
    pub tracks : Tracks a h
    pub indexed : Indexed a h
    pub known :
        (id : Bytes) (i : ℕ) → find id a.by_id ≡ some i → (k : ℕ) × (k < n) × (id ≡ new_id k)
    pub issued_le : m ≤ a.issued

  module _ (n m : ℕ) (h : List AuditEvent) where
    -- What is left alone when remediations change.
    other_rems :
        (a : Agent) (rems : List (Bytes × Remediation)) (rem_for : List (RemKey × Bytes))
        (issued : ℕ)
        → a.issued ≤ issued
        → Follows n m a h
        → Follows n m (record a { rems = rems; rem_for = rem_for; issued = issued }) h
    other_rems a rems rem_for issued le s = record {
      tracks = record {
        head_lt = s.tracks.head_lt;
        stored_is = s.tracks.stored_is;
        window = s.tracks.window;
      };
      indexed = record { sound = s.indexed.sound; complete = s.indexed.complete };
      known = s.known;
      issued_le = omega (arith, le, s.issued_le);
    }

    drop-Follows : (a : Agent) (o : Option Remediation) → Follows n m a h → Follows n m (drop a o) h
    unfolding drop
    drop-Follows a none s = s
    drop-Follows a (some old) s =
        other_rems a (erase old.id a.rems) (erase (rem_key old) a.rem_for) a.issued (omega arith) s

    with_room-Follows :
        (a : Agent) (full : Bool) → Follows n m a h → Follows n m (if full then evict a else a) h
    unfolding evict
    with_room-Follows a true s = drop-Follows a (oldest_from none a.rems) s
    with_room-Follows a false s = s

    open_in-Follows :
        (a : Agent) (r : Rule) (ev : AuditEvent) (c : Container)
        → Follows n m a h
        → Follows n m (open_in new_id a r ev c) h
    unfolding open_in
    open_in-Follows a r ev c s = other_rems a _ _ (a.issued + 1) (omega arith) s

    see_at-Follows :
        (a : Agent) (id : Bytes) (o : Option Remediation) (at : Time)
        → Follows n m a h
        → Follows n m (see_at a id o at) h
    unfolding see_at
    see_at-Follows a id none at s = s
    see_at-Follows a id (some rem) at s =
        other_rems a (insert id (see rem at) a.rems) a.rem_for a.issued (omega arith) s

    record_at-Follows :
        (a : Agent) (r : Rule) (ev : AuditEvent) (c : Container) (o : Option Bytes)
        → Follows n m a h
        → Follows n m (record_at new_id a r ev c o) h
    unfolding record_at
    record_at-Follows a r ev c (some id) s = see_at-Follows a id (find id a.rems) ev.time s
    record_at-Follows a r ev c none s =
        open_in-Follows (with_room a) r ev c
          (with_room-Follows a (leb a.max_rems (length a.rems)) s)

    record_for-Follows :
        (a : Agent) (r : Rule) (ev : AuditEvent) (c : Option Container)
        → Follows n m a h
        → Follows n m (record_for new_id a r ev c) h
    unfolding record_for record_match
    record_for-Follows a r ev none s = s
    record_for-Follows a r ev (some c) s =
        record_at-Follows a r ev c (find (r.id, c.id) a.rem_for) s

    apply_rules-Follows :
        (rules : List Rule) (ev : AuditEvent) (a : Agent)
        → Follows n m a h
        → Follows n m (apply_rules new_id rules ev a).1 h
    unfolding apply_rules
    apply_rules-Follows [] ev a s = s
    apply_rules-Follows (r ∷ rules) ev a s = elim (Bool-cases (r.matches ev)) [
      | inl e ↦ rw e (
          apply_rules-Follows rules (raised r ev)
            (record_for new_id a r (raised r ev) (raised r ev).container)
            (record_for-Follows a r (raised r ev) (raised r ev).container s))
      | inr e ↦ rw e (apply_rules-Follows rules ev a s)
    ]

  raised-id : (r : Rule) (ev : AuditEvent) → (raised r ev).id ≡ ev.id
  raised-id r ev = elim (Bool-cases (ltb (rank ev.severity) (rank r.severity))) [
    | inl e ↦ rw e
    | inr e ↦ rw e
  ]

  apply_rules-id :
      (rules : List Rule) (ev : AuditEvent) (a : Agent)
      → (apply_rules new_id rules ev a).0.id ≡ ev.id
  unfolding apply_rules
  apply_rules-id [] ev a = refl
  apply_rules-id (r ∷ rules) ev a = elim (Bool-cases (r.matches ev)) [
    | inl e ↦ rw e (
        apply_rules-id rules (raised r ev)
          (record_for new_id a r (raised r ev) (raised r ev).container)
        ∙ raised-id r ev)
    | inr e ↦ rw e (apply_rules-id rules ev a)
  ]

  enrich-id : (lookup : Option Enricher) (ev : AuditEvent) → (enrich lookup ev).id ≡ ev.id
  unfolding enrich enrich_with
  enrich-id lookup ev = with_container lookup ev.container
    where
      with_container :
          (l : Option Enricher) (c : Option Container) → (enrich_with l ev c).id ≡ ev.id
      with_container none none = refl
      with_container none (some c) = refl
      with_container (some l) none = refl
      with_container (some l) (some c) = refl

  classify-id : (a : Agent) (ev : AuditEvent) → (classify new_id a ev).0.id ≡ new_id a.issued
  unfolding classify
  classify-id a ev =
      apply_rules-id a.rules
        (enrich a.enricher (record ev { id = new_id a.issued; severity = severity_info }))
        (record a { issued = a.issued + 1 })
      ∙ enrich-id a.enricher (record ev { id = new_id a.issued; severity = severity_info })

  counted :
      (a : Agent) (h : List AuditEvent)
      → Follows a.issued a.issued a h
      → Follows a.issued (a.issued + 1) (record a { issued = a.issued + 1 }) h
  counted a h s = record {
    tracks = record {
      head_lt = s.tracks.head_lt;
      stored_is = s.tracks.stored_is;
      window = s.tracks.window;
    };
    indexed = record { sound = s.indexed.sound; complete = s.indexed.complete };
    known = s.known;
    issued_le = omega arith;
  }

  classify-Follows :
      (a : Agent) (ev : AuditEvent) (h : List AuditEvent)
      → Follows a.issued a.issued a h
      → Follows a.issued (a.issued + 1) (classify new_id a ev).1 h
  unfolding classify
  classify-Follows a ev h s =
      apply_rules-Follows a.issued (a.issued + 1) h a.rules
        (enrich a.enricher (record ev { id = new_id a.issued; severity = severity_info }))
        (record a { issued = a.issued + 1 }) (counted a h s)

  -- The next ID is not in the index.
  fresh :
      (n m : ℕ) (a : Agent) (h : List AuditEvent) (id : Bytes)
      → ((i j : ℕ) → new_id i ≡ new_id j → i ≡ j)
      → id ≡ new_id n
      → Follows n m a h
      → find id a.by_id ≡ none
  fresh n m a h id distinct is_new s = elim (Option-cases (find id a.by_id)) [
    | inl e ↦ e
    | inr (i, e) ↦
        let (k, lt, same) = s.known id i e in
        absurd (omega (arith, lt, distinct n k (sym is_new ∙ same)))
  ]

  -- The agent after a store, for an event under the next ID.
  stored-Follows :
      (n : ℕ) (a : Agent) (h : List AuditEvent) (ev : AuditEvent)
      → ((i j : ℕ) → new_id i ≡ new_id j → i ≡ j)
      → ev.id ≡ new_id n
      → Follows n (n + 1) a h
      → Follows (store a ev).issued (store a ev).issued (store a ev) (ev ∷ h)
  unfolding store
  stored-Follows n a h ev distinct is_new s = record {
    tracks = store-Tracks ev s.tracks;
    indexed = store-Indexed a h ev (fresh n (n + 1) a h ev.id distinct is_new s) s.tracks s.indexed;
    known = λ id i e. elim (Bool-cases (ev.id =b id)) [
      | inl same ↦ (n, omega (arith, s.issued_le), sym ((=b_iff ev.id id).0 same) ∙ is_new)
      | inr other ↦ older id i (sym (insert_elsewhere ev.id id a.head (make_room full a) other) ∙ e)
    ];
    issued_le = omega arith;
  }
    where
      full : Bool
      full = a.stored == length a.ring

      older :
          (id : Bytes) (i : ℕ)
          → find id (make_room full a) ≡ some i
          → (k : ℕ) × (k < a.issued) × (id ≡ new_id k)
      older id i e =
          let (was, ne) = find-make_room a id i full e in
          let (k, lt, same) = s.known id i was in (k, omega (arith, lt, s.issued_le), same)

  module _ (distinct : (i j : ℕ) → new_id i ≡ new_id j → i ≡ j) where
    ingest_one-Follows :
        (a : Agent) (ev : AuditEvent) (h : List AuditEvent)
        → Follows a.issued a.issued a h
        → let (ev', a') = ingest_one new_id a ev in Follows a'.issued a'.issued a' (ev' ∷ h)
    unfolding ingest_one
    ingest_one-Follows a ev h s =
        stored-Follows a.issued (classify new_id a ev).1 h (classify new_id a ev).0 distinct
          (classify-id a ev) (classify-Follows a ev h s)

    pub ingest_all-Follows :
        (a : Agent) (batch h : List AuditEvent)
        → Follows a.issued a.issued a h
        → let (evs, a') = ingest_all new_id a batch in Follows a'.issued a'.issued a' (onto evs h)
    unfolding ingest_all
    ingest_all-Follows a [] h s = s
    ingest_all-Follows a (ev ∷ batch) h s =
        let (ev', a') = ingest_one new_id a ev in
        ingest_all-Follows a' batch (ev' ∷ h) (ingest_one-Follows a ev h s)
