-- ===== src/Agent/Ingest/Batches.antt =====
-- `Ingest` of internal/agent/agent.go on whole batches: what it refuses, and what an agent that
-- has taken any sequence of batches answers to `Events` and `Event`.
use Prim.Native.Nat.{min}
use mathlib.Core.Path.{subst}
use aegis_ebpf.Base.Maps.{find}
use aegis_ebpf.Base.{ℕ, ◌≡◌, ◌↔◌, List, [], ◌∷◌, Bytes, arith, length, filter, take, some, ok}
use aegis_ebpf.Agent.Ingest.Follows.{Follows, onto, ingest_all-Follows}
use aegis_ebpf.Agent.Ingest.{
  Invalid, Ingested, invalid_from, responded, ingest_all, outcome, ingest,
}
use aegis_ebpf.Agent.Ring.History.{new-Tracks, capped, events_lem}
use aegis_ebpf.Agent.Ring.Entries.{IsLive, event_lem}
use aegis_ebpf.Agent.Ring.{EventFilter, keeps, events, event}
use aegis_ebpf.Agent.State.{Agent, Config, new}
use aegis_ebpf.Events.Types.{AuditEvent}

module _ (new_id : ℕ → Bytes) where
  -- `a` has taken batches from `New` on, and stored the events `h`, newest first.
  pub data Reaches : Agent → List AuditEvent → Type 0 where
    fresh : (cfg : Config) → Reaches (new cfg) []
    taken :
        (a : Agent) (h batch : List AuditEvent) (r : Ingested)
        → Reaches a h
        → ingest new_id a batch ≡ ok r
        → Reaches r.agent (onto r.stored h)

  new-Follows : (cfg : Config) → Follows new_id 0 0 (new cfg) []
  unfolding new find
  new-Follows cfg = record {
    tracks = new-Tracks cfg;
    indexed = record { sound = λ id i e. absurd (cc); complete = λ j lt. absurd (omega arith) };
    known = λ id i e. absurd (cc);
    issued_le = omega arith;
  }

  module _ (distinct : (i j : ℕ) → new_id i ≡ new_id j → i ≡ j) where
    outcome-Follows :
        (a : Agent) (h batch : List AuditEvent) (es : List Invalid) (r : Ingested)
        → Follows new_id a.issued a.issued a h
        → outcome new_id a batch es ≡ ok r
        → Follows new_id r.agent.issued r.agent.issued r.agent (onto r.stored h)
    unfolding outcome
    outcome-Follows a h batch (x ∷ es) r s e = absurd (cc)
    outcome-Follows a h batch [] r s e =
        let (evs, a') = ingest_all new_id a batch in
        let out : Ingested = record {
          agent = a';
          stored = evs;
          to_responder = responded a.responds evs;
        } in
        let same : out ≡ r = cc in
        subst
          (λ (q : Ingested). Follows new_id q.agent.issued q.agent.issued q.agent (onto q.stored h))
          same (ingest_all-Follows new_id distinct a batch h s)

    pub Reaches-Follows :
        (a : Agent) (h : List AuditEvent) → Reaches a h → Follows new_id a.issued a.issued a h
    unfolding ingest new
    Reaches-Follows _ _ (fresh cfg) = new-Follows cfg
    Reaches-Follows _ _ (taken a h batch r s e) =
        outcome-Follows a h batch (invalid_from 0 batch) r (Reaches-Follows a h s) e

    -- `Events`, on an agent that has stored the events `h` over any sequence of batches since
    -- `New`, lists the newest of them that the filter keeps, up to the filter's limit, looking
    -- back over as many events as the ring has slots: for IDs that are all different.
    pub Reaches-events :
        (a : Agent) (h : List AuditEvent) (f : EventFilter)
        → Reaches a h
        → events a f ≡ capped f.limit (filter (keeps f) (take (min (length h) (length a.ring)) h))
    Reaches-events a h f s = events_lem a h f (Reaches-Follows a h s).tracks

    -- `Event`, on an agent that has stored the events `h` over any sequence of batches since
    -- `New`, returns an event under an ID exactly when it is one of those that the ring still
    -- holds and has that ID: for IDs that are all different.
    pub Reaches-event :
        (a : Agent) (h : List AuditEvent) (id : Bytes) (ev : AuditEvent)
        → Reaches a h
        → (event a id ≡ some ev) ↔ (IsLive a h ev × (ev.id ≡ id))
    Reaches-event a h id ev s =
        let t = Reaches-Follows a h s in event_lem a h id ev t.tracks t.indexed
