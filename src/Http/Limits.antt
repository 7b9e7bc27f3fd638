-- ===== src/Http/Limits.antt =====
-- How much the list endpoints of internal/agent/http.go answer.
use Prim.Native.Nat.{min}
use aegis_ebpf.Agent.Ingest.Batches.{Reaches-events}
use aegis_ebpf.Agent.Listing.Order.{length-limited}
use aegis_ebpf.Agent.Listing.{RemediationFilter, passes, values, sort_remediations, remediations}
use aegis_ebpf.Agent.Ring.History.{capped}
use aegis_ebpf.Agent.Ring.{EventFilter, keeps}
use aegis_ebpf.Agent.State.{Agent}
use aegis_ebpf.Base.{
  ℕ, zero, suc, ◌≤◌, ◌≡◌, inl, inr, refl, not, ◌&&◌, List, [], ◌∷◌, Bytes, codes, Result, ok, err,
  arith, length, take, filter, ◌=b◌, Bool-cases,
}
use aegis_ebpf.Events.Types.{is_kind, AuditEvent}
use aegis_ebpf.Fixer.Yaml.{Yaml}
use aegis_ebpf.Http.Query.Accepted.{parse_list_query_iff}
use aegis_ebpf.Http.Query.{max_limit, Values, get, ListQuery, QueryError, parse_list_query}
use aegis_ebpf.Http.Responses.{
  Request, get_events, get_remediations, event_list, remediation_list, json, Content,
  list_query_events, list_events, list_query_remediations, list_remediations,
}
use aegis_ebpf.Http.Sessions.{Serves, Serves-Reaches}
use aegis_ebpf.Http.{Decoder, handle}

-- How many items a response lists.
abbrev pub listed : {Any : Type 0} → Content Any → ℕ
listed (json (event_list evs)) = length evs
listed (json (remediation_list rems)) = length rems
listed _ = 0

-- How many items a query may get.
abbrev pub allowance : Result QueryError ListQuery → ℕ
allowance (ok q) = q.limit
allowance (err e) = 0

length-take-le : (n : ℕ) (evs : List AuditEvent) → length (take n evs) ≤ n
length-take-le zero evs = omega arith
length-take-le (suc n) [] = omega arith
length-take-le (suc n) (ev ∷ evs) = omega (arith, length-take-le n evs)

length-capped-le : (n : ℕ) (evs : List AuditEvent) → 1 ≤ n → length (capped n evs) ≤ n
length-capped-le zero evs lo = absurd (omega arith)
length-capped-le (suc n) evs lo = length-take-le (suc n) evs

length-remediations-le :
    (a : Agent) (f : RemediationFilter) → 1 ≤ f.limit → length (remediations a f) ≤ f.limit
unfolding remediations
length-remediations-le a f lo =
    ground
      (arith, lo, length-limited f.limit (sort_remediations (filter (passes f) (values a.rems))))

limit_bounds :
    (v : Values) (q : ListQuery) → parse_list_query v ≡ ok q → (1 ≤ q.limit) × (q.limit ≤ max_limit)
limit_bounds v q e = elim (((parse_list_query_iff v q).0 e).limit) [
  | inl (absent, default) ↦ (omega (arith, default), omega (arith, default))
  | inr (number, lo, hi) ↦ (lo, hi)
]

allowance-le :
    (v : Values) (o : Result QueryError ListQuery)
    → parse_list_query v ≡ o
    → allowance o ≤ max_limit
allowance-le v (ok q) e = (limit_bounds v q e).1
allowance-le v (err x) e = omega arith

module _ (y : Yaml) (decode : Decoder) (new_id : ℕ → Bytes) where
  remediations_listed :
      (a : Agent) (v : Values) (o : Result QueryError ListQuery)
      → parse_list_query v ≡ o
      → listed (list_query_remediations {Any = y.Any} a o).content ≤ allowance o
  unfolding list_query_remediations
  remediations_listed a v (err x) e = omega arith
  remediations_listed a v (ok q) e =
      length-remediations-le a
        (record { min_severity = q.min_severity; container_id = q.container_id; limit = q.limit })
        (limit_bounds v q e).0

  module _ (distinct : (i j : ℕ) → new_id i ≡ new_id j → i ≡ j) where
    events_listed :
        (a : Agent) (h : List AuditEvent) (v : Values) (kind : Bytes)
        (o : Result QueryError ListQuery)
        → Serves y decode new_id a h
        → parse_list_query v ≡ o
        → listed (list_query_events {Any = y.Any} a kind o).content ≤ allowance o
    unfolding list_query_events
    events_listed a h v kind (err x) s e = omega arith
    events_listed a h v kind (ok q) s e =
        elim (Bool-cases (not (kind =b []) && not (is_kind kind))) [
          | inl b ↦ rw b (omega arith)
          | inr b ↦
              let f : EventFilter = record {
                kind = kind;
                min_severity = q.min_severity;
                container_id = q.container_id;
                limit = q.limit;
              } in
              let found = filter (keeps f) (take (min (length h) (length a.ring)) h) in
              rw b (
                rw (Reaches-events new_id distinct a h f (Serves-Reaches y decode new_id a h s))
                  (length-capped-le q.limit found (limit_bounds v q e).0))
        ]

    -- After any sequence of requests, the lists of events and of remediations hold at most as many items
    -- as the query's limit, which is 1000 at most, and nothing for a query that is refused: for IDs that
    -- are all different.
    pub handle-listed :
        (a : Agent) (h : List AuditEvent) (req : Request)
        → Serves y decode new_id a h
        → (listed (handle y decode new_id a get_events req).response.content
            ≤ allowance (parse_list_query req.query))
          × (listed (handle y decode new_id a get_remediations req).response.content
              ≤ allowance (parse_list_query req.query))
          × (allowance (parse_list_query req.query) ≤ max_limit)
    unfolding handle list_events list_remediations
    handle-listed a h req s = (
      events_listed a h req.query (get (codes "kind") req.query) (parse_list_query req.query) s
          refl,
      remediations_listed a req.query (parse_list_query req.query) refl,
      allowance-le req.query (parse_list_query req.query) refl,
    )
