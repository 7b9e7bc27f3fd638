-- ===== src/Command/Enriching.antt =====
-- The pod cache of internal/k8s behind `enrichLocked` of internal/agent/agent.go.
use aegis_ebpf.Agent.Ingest.{is_resolved, pod_of, enrich}
use aegis_ebpf.Base.{◌≡◌, ap, false, List, Option, some, Bytes, Result}
use aegis_ebpf.Command.{pod_info, pod_enricher}
use aegis_ebpf.Events.Types.{Container, AuditEvent}
use aegis_ebpf.K8s.Snapshots.{owner_among, last_listed, lookup-run_refreshes}
use aegis_ebpf.K8s.{PodItem, Reply, new_pod_cache, run_refreshes}

-- The container of an event, with the pod that a list of pods gives it.
abbrev pub placed : Container → Option (List PodItem) → Container
placed c listed = record c { pod = pod_of (pod_info (owner_among c.id listed)) c.pod }

-- With the pod cache as its enricher, the agent gives an event whose container has no pod name yet the pod
-- that the last successful list of pods has for the container, leaves the pod as it is where that list has
-- none, and changes nothing else of the event.
pub enrich-run_refreshes :
    (decode : Bytes → Result Bytes (List PodItem)) (rs : List (Result Bytes Reply))
    (ev : AuditEvent) (c : Container)
    → ev.container ≡ some c
    → is_resolved c.pod ≡ false
    → enrich (some (pod_enricher (run_refreshes decode rs new_pod_cache))) ev
      ≡ record ev { container = some (placed c (last_listed decode rs)) }
unfolding enrich pod_enricher
enrich-run_refreshes decode rs ev c e unresolved = rw e (
    rw unresolved (
      ap (λ o. record ev { container = some (record c { pod = pod_of (pod_info o) c.pod }) })
        (lookup-run_refreshes decode rs c.id)))
