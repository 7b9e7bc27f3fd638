-- ===== src/Decoy/Kubernetes.antt =====
-- internal/decoy/k8s.go: the deployer for Kubernetes, on the client of internal/k8s. The API server is a
-- parameter: a state, and the outcome of a request on it. What `encoding/json` writes and reads are
-- parameters too.
pub mod Manifest
pub mod Accounts
use aegis_ebpf.Base.{
  Bool, ◌||◌, [], Option, none, some, Bytes, codes, Result, ok, err, ◌=b◌, if◌then◌else◌,
}
use aegis_ebpf.Decoy.Kubernetes.Manifest.{PodManifest, decoy_pod}
use aegis_ebpf.Decoy.Lifecycle.{Deployer}
use aegis_ebpf.Decoy.{Trigger, Decoy}
use aegis_ebpf.K8s.{Reply, ApiError, CreatedPod, create_pod, delete_pod}

-- The requests that write, with what their paths and bodies carry: `pods_url` and `pod_url` of K8s are the
-- addresses.
pub data PodCall : Type 0 where
  post_pod : Bytes → Bytes → PodCall
  delete : Bytes → Bytes → PodCall

pub record Server : Type 1 where
  pub State : Type 0
  pub do_call : PodCall → State → Result Bytes Reply × State

pub data PodError : Type 0 where
  no_namespace : PodError
  not_marshalled : Bytes → PodError
  not_created : ApiError → PodError

-- `NewK8sDeployer`.
abbrev pub image_or_default : Bytes → Bytes
image_or_default image = if image =b [] then codes "alpine:3.20" else image

abbrev pub decoy_of : Result ApiError CreatedPod → Result PodError Decoy
decoy_of (err e) = err (not_created e)
decoy_of (ok created) =
    ok (record {
      id = created.uid;
      name = created.name;
      network = [];
      namespace = created.namespace;
    })

module _ (srv : Server) (encode : PodManifest → Result Bytes Bytes)
    (decode : Bytes → Result Bytes CreatedPod) (image : Bytes) where
  open srv use {State, do_call}

  -- `Deploy`, from the manifest on.
  unfoldable pub submitted : Bytes → Result Bytes Bytes → State → Result PodError Decoy × State
  submitted namespace (err why) s = (err (not_marshalled why), s)
  submitted namespace (ok manifest) s =
      let (r, s') = do_call (post_pod namespace manifest) s in (decoy_of (create_pod decode r), s')

  -- `Deploy`.
  unfoldable pub deploy_pod : Trigger → State → Result PodError Decoy × State
  deploy_pod t s =
      if t.namespace =b []
      then (err no_namespace, s)
      else submitted t.namespace (encode (decoy_pod (image_or_default image) t)) s

  -- `Remove`.
  unfoldable pub remove_pod : Decoy → State → Option ApiError × State
  remove_pod dec s =
      if dec.namespace =b [] || dec.name =b []
      then (none, s)
      else (let (r, s') = do_call (delete dec.namespace dec.name) s in (delete_pod r, s'))

  -- `k8sDeployer`.
  abbrev pub k8s_deployer : Deployer
  k8s_deployer = record {
    State = State;
    Error = PodError;
    RemoveError = ApiError;
    deploy = deploy_pod;
    remove = remove_pod;
  }
