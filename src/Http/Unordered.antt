-- ===== src/Http/Unordered.antt =====
-- The handlers of internal/agent/http.go on the remediations that internal/agent/agent.go keeps in a Go
-- map, whose order is random.
use mathlib.Core.List.{Permᴰ}
use aegis_ebpf.Agent.Ingest.Pairing.{Reaches-Consistent}
use aegis_ebpf.Agent.Listing.Unordered.{Entries, unordered_lem}
use aegis_ebpf.Agent.Listing.{RemediationFilter, remediation, remediations, patch, patch_with}
use aegis_ebpf.Agent.State.{Agent}
use aegis_ebpf.Base.{ℕ, ◌≡◌, refl, ap, List, Bytes, Result, ok, err, Bool-cases, inl, inr}
use aegis_ebpf.Events.Types.{AuditEvent}
use aegis_ebpf.Fixer.Yaml.{Yaml}
use aegis_ebpf.Http.Query.{Values, ListQuery, QueryError, parse_list_query}
use aegis_ebpf.Http.Responses.{
  Request, get_remediations, get_remediation, post_patch, list_remediations, remediation_response,
  has_content_type, yaml_types, read_all, max_manifest_body, BodyError, patch_response,
  list_query_remediations, write_json, remediation_list,
}
use aegis_ebpf.Http.Sessions.{Serves, Serves-Reaches}
use aegis_ebpf.Http.{Decoder, patch_manifest, patch_body, handle}

module _ (y : Yaml) (decode : Decoder) (new_id : ℕ → Bytes)
    (distinct : (i j : ℕ) → new_id i ≡ new_id j → i ≡ j) where
  lists_alike :
      (a b : Agent) (query : Values)
      → ((f : RemediationFilter) → remediations a f ≡ remediations b f)
      → list_remediations {Any = y.Any} a query ≡ list_remediations b query
  unfolding list_remediations list_query_remediations
  lists_alike a b query same = read (parse_list_query query)
    where
      read :
          (r : Result QueryError ListQuery)
          → list_query_remediations {Any = y.Any} a r ≡ list_query_remediations b r
      read (err e) = refl
      read (ok q) = ap (λ rems. write_json 200 (remediation_list rems)) (same _)

  patches_alike :
      (a b : Agent) (id : Bytes) (req : Request)
      → remediation a id ≡ remediation b id
      → patch_manifest y decode new_id a id req ≡ patch_manifest y decode new_id b id req
  unfolding patch_manifest patch
  patches_alike a b id req same = elim (Bool-cases (has_content_type req.media_type yaml_types)) [
    | inl e ↦ rw e (read (read_all max_manifest_body req.body))
    | inr e ↦ rw e refl
  ]
    where
      read :
          (r : Result BodyError Bytes)
          → patch_body y decode new_id a id r ≡ patch_body y decode new_id b id r
      read (err e) = refl
      read (ok s) = ap (λ o. patch_response id (patch_with y s o)) same

  -- After any sequence of requests since `New`, the answers about remediations do not depend on the order
  -- in which the map of the agent is visited: with the same entries in any other order, the list of
  -- remediations, each remediation, and each patched manifest are the same, for IDs that are all different.
  pub handle-unordered :
      (a : Agent) (h : List AuditEvent) (m : Entries) (req : Request)
      → Serves y decode new_id a h
      → Permᴰ a.rems m
      → let b : Agent = record a { rems = m } in
        ((handle y decode new_id a get_remediations req).response
          ≡ (handle y decode new_id b get_remediations req).response)
        × ((id : Bytes)
            → ((handle y decode new_id a (get_remediation id) req).response
                ≡ (handle y decode new_id b (get_remediation id) req).response)
              × ((handle y decode new_id a (post_patch id) req).response
                  ≡ (handle y decode new_id b (post_patch id) req).response))
  unfolding handle
  handle-unordered a h m req s p =
      let once =
        (Reaches-Consistent new_id distinct a h (Serves-Reaches y decode new_id a h s)).once in
      let (lists, finds) = unordered_lem a m once p in
      (
        lists_alike a (record a { rems = m }) req.query lists,
        λ id. (
          ap remediation_response (finds id),
          patches_alike a (record a { rems = m }) id req (finds id),
        ),
      )
