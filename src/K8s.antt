-- ===== src/K8s.antt =====
-- internal/k8s/k8s.go: the index of pods by container, the cache that serves it, and the requests to the
-- API server. A request is its URL, and its outcome is an argument: a reply, or a transport error. What
-- `encoding/json` decodes of a reply is a parameter. `InCluster` and the loop of `Run`, which set up
-- files, certificates and timers, are left out.
pub mod Index
pub mod Snapshots
pub mod Addresses
use aegis_ebpf.Base.Maps.{find, insert, bytes_key}
use aegis_ebpf.Base.{
  ℕ, Bool, true, false, not, ◌&&◌, ◌||◌, List, [], ◌∷◌, ◌++◌, Option, none, some, Bytes, codes,
  Result, ok, err, length, leb, ltb, ◌==◌, ◌=b◌, if◌then◌else◌,
}
use aegis_ebpf.Go.Text.{cut}
use aegis_ebpf.Go.Url.{path_escape, query_escape}

pub record Pod : Type 0 where
  pub name : Bytes
  pub namespace : Bytes
  pub uid : Bytes

-- An item of the pod list, with the container IDs of its three lists of statuses.
pub record PodItem : Type 0 where
  pub name : Bytes
  pub namespace : Bytes
  pub uid : Bytes
  pub container_statuses : List Bytes
  pub init_container_statuses : List Bytes
  pub ephemeral_container_statuses : List Bytes

abbrev pub PodsByContainer : Type 0
PodsByContainer = List (Bytes × Pod)

-- The loop of `isHex64`.
unfoldable pub hex_loop : Bytes → Bool
hex_loop [] = true
hex_loop (b ∷ s) =
    if ltb b b'0' || (ltb b'9' b && ltb b b'a') || ltb b'f' b then false else hex_loop s

-- `isHex64`.
unfoldable pub is_hex64 : Bytes → Bool
is_hex64 s = if not (length s == 64) then false else hex_loop s

hex_behind : Option (Bytes × Bytes) → Bytes
hex_behind none = []
hex_behind (some (_, id)) = if not (is_hex64 id) then [] else id

-- `containerHexID`.
unfoldable pub container_hex_id : Bytes → Bytes
unfolding hex_behind
container_hex_id container_id = hex_behind (cut (codes "://") container_id)

-- The innermost loop of `indexByContainer`.
unfoldable pub index_statuses : Pod → List Bytes → PodsByContainer → PodsByContainer
index_statuses pod [] by_id = by_id
index_statuses pod (cs ∷ statuses) by_id =
    let id = container_hex_id cs in
    index_statuses pod statuses (if not (id =b []) then insert id pod by_id else by_id)

abbrev pub pod_of_item : PodItem → Pod
pod_of_item item = record { name = item.name; namespace = item.namespace; uid = item.uid }

abbrev pub index_item : PodItem → PodsByContainer → PodsByContainer
index_item item by_id = index_statuses (pod_of_item item) item.ephemeral_container_statuses (
    index_statuses (pod_of_item item) item.init_container_statuses
      (index_statuses (pod_of_item item) item.container_statuses by_id))

unfoldable pub index_items : List PodItem → PodsByContainer → PodsByContainer
index_items [] by_id = by_id
index_items (item ∷ items) by_id = index_items items (index_item item by_id)

-- `indexByContainer`.
unfoldable pub index_by_container : List PodItem → PodsByContainer
index_by_container items = index_items items []

pub record Reply : Type 0 where
  pub status : ℕ
  pub body : Bytes

pub data ApiError : Type 0 where
  not_sent : Bytes → ApiError
  bad_status : ℕ → ApiError
  bad_body : Bytes → ApiError

abbrev pub decoded : {A : Type 0} → Result Bytes A → Result ApiError A
decoded (ok a) = ok a
decoded (err why) = err (bad_body why)

abbrev pub indexed : Result Bytes (List PodItem) → Result ApiError PodsByContainer
indexed (ok items) = ok (index_by_container items)
indexed (err why) = err (bad_body why)

-- `ListPodsOnNode`, on the outcome of its request.
unfoldable pub list_pods_on_node :
    (Bytes → Result Bytes (List PodItem)) → Result Bytes Reply → Result ApiError PodsByContainer
list_pods_on_node decode (err why) = err (not_sent why)
list_pods_on_node decode (ok reply) =
    if not (reply.status == 200) then err (bad_status reply.status) else indexed (decode reply.body)

-- The URL of `ListPodsOnNode`.
unfoldable pub list_url : Bytes → Bytes → Bytes
list_url base_url node_name =
    let u = base_url ++ codes "/api/v1/pods?limit=500" in
    if not (node_name =b [])
    then u ++ (codes "&fieldSelector=" ++ query_escape (codes "spec.nodeName=" ++ node_name))
    else u

pub record PodCache : Type 0 where
  pub by_id : PodsByContainer
  pub ready : Bool

-- `NewPodCache`.
abbrev pub new_pod_cache : PodCache
new_pod_cache = record { by_id = []; ready = false }

-- `Lookup`.
unfoldable pub lookup : PodCache → Bytes → Option Pod
lookup c container_id = find container_id c.by_id

-- `Refresh`, on what `ListPodsOnNode` returns: its error, and the cache after it.
unfoldable pub refresh : Result ApiError PodsByContainer → PodCache → Option ApiError × PodCache
refresh (err e) c = (some e, c)
refresh (ok by_id) c = (none, record { by_id = by_id; ready = true })

-- The refreshes of `Run`, oldest first: a failed one is logged, and the loop goes on.
unfoldable pub run_refreshes :
    (Bytes → Result Bytes (List PodItem)) → List (Result Bytes Reply) → PodCache → PodCache
run_refreshes decode [] c = c
run_refreshes decode (r ∷ rs) c = run_refreshes decode rs (refresh (list_pods_on_node decode r) c).1

pub record CreatedPod : Type 0 where
  pub name : Bytes
  pub namespace : Bytes
  pub uid : Bytes

-- The URLs of `CreatePod` and `DeletePod`.
unfoldable pub pods_url : Bytes → Bytes → Bytes
pods_url base_url namespace =
    base_url ++ (codes "/api/v1/namespaces/" ++ (path_escape namespace ++ codes "/pods"))

unfoldable pub pod_url : Bytes → Bytes → Bytes → Bytes
pod_url base_url namespace name =
    base_url
    ++ (codes "/api/v1/namespaces/"
        ++ (path_escape namespace ++ (codes "/pods/" ++ path_escape name)))

-- `CreatePod`, on the outcome of its request.
unfoldable pub create_pod :
    (Bytes → Result Bytes CreatedPod) → Result Bytes Reply → Result ApiError CreatedPod
create_pod decode (err why) = err (not_sent why)
create_pod decode (ok reply) =
    if not (reply.status == 201) && not (reply.status == 200)
    then err (bad_status reply.status)
    else decoded (decode reply.body)

-- `DeletePod`, on the outcome of its request; `none` is success.
unfoldable pub delete_pod : Result Bytes Reply → Option ApiError
delete_pod (err why) = some (not_sent why)
delete_pod (ok reply) =
    if reply.status == 404
    then none
    else if not (reply.status == 200) && not (reply.status == 202)
    then some (bad_status reply.status)
    else none
