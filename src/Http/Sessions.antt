-- ===== src/Http/Sessions.antt =====
-- Sequences of requests to the handlers of internal/agent/http.go.
use aegis_ebpf.Agent.Ingest.Batches.{Reaches, fresh, taken, Reaches-event, Reaches-Follows}
use aegis_ebpf.Agent.Ingest.Follows.{onto}
use aegis_ebpf.Agent.Ring.Entries.{IsLive}
use aegis_ebpf.Agent.Ring.{slot_at}
use aegis_ebpf.Agent.State.{Agent, Config, new}
use aegis_ebpf.Base.{
  ℕ, suc, ◌+◌, ◌≤◌, ◌≡◌, inl, inr, refl, ap, ◌∙◌, List, [], ◌∷◌, Bytes, arith, length, All,
}
use aegis_ebpf.Events.Types.{AuditEvent}
use aegis_ebpf.Fixer.Yaml.{Yaml}
use aegis_ebpf.Http.Outcomes.{handle-Outcome}
use aegis_ebpf.Http.Responses.{
  Request, Endpoint, post_events, get_event, one_event, ids_of, ingest_result, write_json,
  event_response,
}
use aegis_ebpf.Http.{Decoder, handle}

length-onto : (evs h : List AuditEvent) → length (onto evs h) ≡ length evs + length h
length-onto [] h = omega arith
length-onto (ev ∷ evs) h = omega (arith, length-onto evs (ev ∷ h))

slot_at-onto :
    (evs h : List AuditEvent) (k j : ℕ) → j ≡ length evs + k → slot_at (onto evs h) j ≡ slot_at h k
slot_at-onto [] h k j e = ap (slot_at h) (omega (arith, e))
slot_at-onto (ev ∷ evs) h k j e = slot_at-onto evs (ev ∷ h) (suc k) j (omega (arith, e))

-- The events last stored are live, if the ring has room for them.
onto-IsLive :
    (a : Agent) (evs h hist : List AuditEvent)
    → hist ≡ onto evs h
    → length evs ≤ a.stored
    → All (IsLive a hist) evs
onto-IsLive a [] h hist e le = tt
onto-IsLive a (ev ∷ evs) h hist e le = (
  (
    length evs,
    omega (arith, le),
    ap (λ l. slot_at l (length evs)) e ∙ slot_at-onto evs (ev ∷ h) 0 (length evs) (omega arith),
  ),
  onto-IsLive a evs (ev ∷ h) hist e (omega (arith, le)),
)

module _ (y : Yaml) (decode : Decoder) (new_id : ℕ → Bytes) where
  -- An agent after any requests since `New`, with the events that it has stored, newest first.
  pub data Serves : Agent → List AuditEvent → Type 0 where
    start : (cfg : Config) → Serves (new cfg) []
    served :
        (a : Agent) (h : List AuditEvent) (e : Endpoint) (req : Request)
        → Serves a h
        → Serves
            (handle y decode new_id a e req).agent
            (onto (handle y decode new_id a e req).published h)

  -- Requests reach an agent only by the batches that it takes.
  pub Serves-Reaches : (a : Agent) (h : List AuditEvent) → Serves a h → Reaches new_id a h
  Serves-Reaches _ _ (start cfg) = fresh cfg
  Serves-Reaches _ _ (served a h e req s) = elim (handle-Outcome y decode new_id a e req) [
    | inl (p, batch, r, sent, taken_e, out) ↦
        rw out (taken a h batch r (Serves-Reaches a h s) taken_e)
    | inr (answer, out, ne) ↦ rw out (Serves-Reaches a h s)
  ]

  module _ (distinct : (i j : ℕ) → new_id i ≡ new_id j → i ≡ j) where
    fetched :
        (a : Agent) (hist evs : List AuditEvent) (req : Request)
        → Reaches new_id a hist
        → All (IsLive a hist) evs
        → All
            (λ ev.
              (handle y decode new_id a (get_event ev.id) req).response
              ≡ write_json 200 (one_event ev))
            evs
    unfolding handle
    fetched a hist [] req s live = tt
    fetched a hist (ev ∷ evs) req s (here, live) = (
      ap event_response ((Reaches-event new_id distinct a hist ev.id ev s).1 (here, refl)),
      fetched a hist evs req s live,
    )

    -- After any sequence of requests, a batch that is accepted can be read back: the response to
    -- `POST /v1/events` gives one ID for each event that it published, and `GET /v1/events/{id}` answers
    -- each of these with that event, for a batch that the ring has room for and IDs that are all
    -- different.
    pub handle-fetch :
        (a : Agent) (h : List AuditEvent) (req req' : Request)
        → Serves a h
        → let out = handle y decode new_id a post_events req in
          out.response.status ≡ 202
          → length out.published ≤ length out.agent.ring
          → (out.response
              ≡ write_json 202
                  (ingest_result (length (ids_of out.published)) (ids_of out.published)))
            × All
                (λ ev.
                  (handle y decode new_id out.agent (get_event ev.id) req').response
                  ≡ write_json 200 (one_event ev))
                out.published
    handle-fetch a h req req' s status room =
        elim (handle-Outcome y decode new_id a post_events req) [
          | inl (p, batch, r, sent, e, out) ↦
              let next = taken a h batch r (Serves-Reaches a h s) e in
              let fits : length r.stored ≤ length r.agent.ring = rw out at room in
              let kept = (Reaches-Follows new_id distinct r.agent (onto r.stored h) next).tracks in
              rw out (
                refl,
                fetched r.agent (onto r.stored h) r.stored req' next (
                    onto-IsLive r.agent r.stored h (onto r.stored h) refl
                      (omega (arith, kept.stored_is, fits, length-onto r.stored h))),
              )
          | inr (answer, out, ne) ↦ absurd (ne (rw out at status))
        ]
