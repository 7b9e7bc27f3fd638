-- ===== src/Decoy/Kubernetes/Manifest.antt =====
-- internal/decoy/k8s.go: the manifest of a decoy pod. Go's maps of texts are lists in the order of the
-- source; `nil` is the empty list.
use aegis_ebpf.Base.{
  ℕ, Bool, true, false, not, List, [], ◌∷◌, ◌++◌, Option, some, Bytes, codes, ◌=b◌, if◌then◌else◌,
}
use aegis_ebpf.Decoy.Docker.Deployment.{decoy_port, label, listener_script}
use aegis_ebpf.Decoy.{Trigger}

abbrev pub Texts : Type 0
Texts = List (Bytes × Bytes)

pub record PodMetadata : Type 0 where
  pub generate_name : Bytes
  pub namespace : Bytes
  pub labels : Texts
  pub annotations : Texts

pub record Port : Type 0 where
  pub container_port : ℕ

pub record Resources : Type 0 where
  pub requests : Texts
  pub limits : Texts

pub record Capabilities : Type 0 where
  pub drop : List Bytes

pub record SeccompProfile : Type 0 where
  pub type : Bytes

pub record SecurityContext : Type 0 where
  pub allow_privilege_escalation : Bool
  pub run_as_non_root : Bool
  pub run_as_user : ℕ
  pub read_only_root_filesystem : Bool
  pub capabilities : Capabilities
  pub seccomp_profile : SeccompProfile

pub record PodContainer : Type 0 where
  pub name : Bytes
  pub image : Bytes
  pub command : List Bytes
  pub ports : List Port
  pub resources : Resources
  pub security_context : Option SecurityContext

pub record PodSpec : Type 0 where
  pub restart_policy : Bytes
  pub active_deadline_seconds : ℕ
  pub automount_service_account_token : Bool
  pub enable_service_links : Option Bool
  pub termination_grace_period_seconds : ℕ
  pub containers : List PodContainer

pub record PodManifest : Type 0 where
  pub api_version : Bytes
  pub kind : Bytes
  pub metadata : PodMetadata
  pub spec : PodSpec

-- An annotation, unless its value is empty.
abbrev pub unless_empty : Bytes → Bytes → Texts
unless_empty key value = if not (value =b []) then (key, value) ∷ [] else []

-- `annotations`.
abbrev pub annotations_of : Trigger → Texts
annotations_of t =
    unless_empty (codes "aegis.offending-pod") t.pod_name
    ++ unless_empty (codes "aegis.offending-container") t.container_id

abbrev pub decoy_container : Bytes → PodContainer
decoy_container image = record {
  name = codes "decoy";
  image = image;
  command = codes "sh" ∷ codes "-c" ∷ listener_script ∷ [];
  ports = record { container_port = decoy_port } ∷ [];
  resources = record {
    requests = (codes "cpu", codes "10m") ∷ (codes "memory", codes "16Mi") ∷ [];
    limits = (codes "memory", codes "64Mi") ∷ [];
  };
  security_context = some (record {
    allow_privilege_escalation = false;
    run_as_non_root = true;
    run_as_user = 65532;
    read_only_root_filesystem = true;
    capabilities = record { drop = codes "ALL" ∷ [] };
    seccomp_profile = record { type = codes "RuntimeDefault" };
  });
}

-- `decoyPod`.
abbrev pub decoy_pod : Bytes → Trigger → PodManifest
decoy_pod image t = record {
  api_version = codes "v1";
  kind = codes "Pod";
  metadata = record {
    generate_name = codes "aegis-decoy-";
    namespace = t.namespace;
    labels =
        (label, codes "true")
        ∷ (codes "app.kubernetes.io/name", codes "aegis-ebpf-decoy")
        ∷ (codes "app.kubernetes.io/part-of", codes "aegis-ebpf")
        ∷ [];
    annotations = annotations_of t;
  };
  spec = record {
    restart_policy = codes "Never";
    active_deadline_seconds = 3600;
    automount_service_account_token = false;
    enable_service_links = some false;
    termination_grace_period_seconds = 2;
    containers = decoy_container image ∷ [];
  };
}
