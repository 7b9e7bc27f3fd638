-- ===== src/Command.antt =====
-- cmd/aegis-agent/main.go: the adapter between the pod cache of internal/k8s and the agent.
pub mod Enriching
pub mod Running
pub mod Lifecycle
pub mod Status
use aegis_ebpf.Agent.State.{PodInfo, Enricher}
use aegis_ebpf.Base.{Option, none, some}
use aegis_ebpf.K8s.{Pod, PodCache, lookup}

abbrev pub pod_info : Option Pod → Option PodInfo
pod_info none = none
pod_info (some pod) = some (record { name = pod.name; namespace = pod.namespace; uid = pod.uid })

-- `podEnricher.Lookup`.
unfoldable pub pod_enricher : PodCache → Enricher
pod_enricher cache container_id = pod_info (lookup cache container_id)
