-- ===== src/Tests/Clusters.antt =====
-- The pod cache of internal/k8s after a list of pods and a failure, and the events that it enriches.
use aegis_ebpf.Agent.Ingest.{enrich}
use aegis_ebpf.Base.Maps.{find, bytes_key}
use aegis_ebpf.Base.{◌≡◌, refl, List, [], ◌∷◌, ◌++◌, some, Bytes, codes, Result, ok, err, replicate}
use aegis_ebpf.Command.Enriching.{placed, enrich-run_refreshes}
use aegis_ebpf.Command.{pod_enricher}
use aegis_ebpf.K8s.Index.{last_owner, find-index_by_container}
use aegis_ebpf.K8s.Snapshots.{last_listed}
use aegis_ebpf.K8s.{PodItem, Reply, index_by_container, new_pod_cache, run_refreshes}
use aegis_ebpf.Tests.Samples.{web_container, file_event}

abbrev web_id : Bytes
web_id = replicate 64 b'a'

abbrev init_id : Bytes
init_id = replicate 64 b'b'

abbrev web_pod : PodItem
web_pod = record {
  name = codes "web-1";
  namespace = codes "shop";
  uid = codes "u1";
  container_statuses = (codes "containerd://" ++ web_id) ∷ codes "pending" ∷ [];
  init_container_statuses = (codes "containerd://" ++ init_id) ∷ [];
  ephemeral_container_statuses = [];
}

abbrev db_pod : PodItem
db_pod = record web_pod { name = codes "db-1"; uid = codes "u2"; container_statuses = [] }

find-index_by_container_example :
    find init_id (index_by_container (web_pod ∷ db_pod ∷ []))
    ≡ last_owner init_id (web_pod ∷ db_pod ∷ [])
find-index_by_container_example = find-index_by_container init_id (web_pod ∷ db_pod ∷ [])

-- A server that lists the two pods, whatever the body.
abbrev decode : Bytes → Result Bytes (List PodItem)
decode body = ok (web_pod ∷ db_pod ∷ [])

-- A list of pods, then a refusal and a lost connection.
abbrev outcomes : List (Result Bytes Reply)
outcomes =
    ok (record { status = 200; body = codes "{}" })
    ∷ ok (record { status = 403; body = [] })
    ∷ err (codes "timeout")
    ∷ []

enrich-run_refreshes_example :
    enrich (some (pod_enricher (run_refreshes decode outcomes new_pod_cache))) file_event
    ≡ record file_event { container = some (placed web_container (last_listed decode outcomes)) }
enrich-run_refreshes_example =
    enrich-run_refreshes decode outcomes file_event web_container refl refl
