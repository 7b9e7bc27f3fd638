-- ===== src/K8s/Snapshots.antt =====
-- What the pod cache of internal/k8s/k8s.go serves after any refreshes.
use aegis_ebpf.Base.Maps.{find, bytes_key}
use aegis_ebpf.Base.{
  ◌≡◌, inl, inr, refl, true, List, [], ◌∷◌, Option, none, some, Bytes, Result, ok, err, ◌==◌,
  Bool-cases, if◌then◌else◌,
}
use aegis_ebpf.K8s.Index.{last_owner, find-index_by_container}
use aegis_ebpf.K8s.{
  Pod, PodItem, Reply, PodCache, new_pod_cache, lookup, refresh, list_pods_on_node, run_refreshes,
  index_by_container, indexed,
}

abbrev pub decoded_pods : Result Bytes (List PodItem) → Option (List PodItem)
decoded_pods (ok items) = some items
decoded_pods (err why) = none

-- The pods that the server has listed, if it has: a reply of status 200 that decodes.
abbrev pub pods_listed :
    (Bytes → Result Bytes (List PodItem)) → Result Bytes Reply → Option (List PodItem)
pods_listed decode (err why) = none
pods_listed decode (ok reply) =
    if reply.status == 200 then decoded_pods (decode reply.body) else none

abbrev pub newer_pods : Option (List PodItem) → Option (List PodItem) → Option (List PodItem)
newer_pods none old = old
newer_pods (some items) old = some items

-- The last list of pods among the outcomes.
abbrev pub last_listed :
    (Bytes → Result Bytes (List PodItem)) → List (Result Bytes Reply) → Option (List PodItem)
last_listed decode [] = none
last_listed decode (r ∷ rs) = newer_pods (last_listed decode rs) (pods_listed decode r)

abbrev pub owner_among : Bytes → Option (List PodItem) → Option Pod
owner_among id none = none
owner_among id (some items) = last_owner id items

find_nothing : (id : Bytes) → find id new_pod_cache.by_id ≡ none
unfolding find
find_nothing id = refl

-- The cache holds the index of a list of pods, or is as it was made.
abbrev Holds : PodCache → Option (List PodItem) → Type 0
Holds c none = c ≡ new_pod_cache
Holds c (some items) = c ≡ record { by_id = index_by_container items; ready = true }

module _ (decode : Bytes → Result Bytes (List PodItem)) where
  refresh-Holds :
      (c : PodCache) (old : Option (List PodItem)) (r : Result Bytes Reply)
      → Holds c old
      → Holds (refresh (list_pods_on_node decode r) c).1 (newer_pods (pods_listed decode r) old)
  unfolding refresh list_pods_on_node
  refresh-Holds c old (err why) h = h
  refresh-Holds c old (ok reply) h = elim (Bool-cases (reply.status == 200)) [
    | inr e ↦ rw e h
    | inl e ↦ rw e (by_body (decode reply.body))
  ]
    where
      by_body :
          (d : Result Bytes (List PodItem))
          → Holds (refresh (indexed d) c).1 (newer_pods (decoded_pods d) old)
      by_body (ok items) = refl
      by_body (err why) = h

  newer_assoc :
      (a b c : Option (List PodItem))
      → newer_pods (newer_pods a b) c ≡ newer_pods a (newer_pods b c)
  newer_assoc none b c = refl
  newer_assoc (some x) b c = refl

  run_refreshes-Holds :
      (rs : List (Result Bytes Reply)) (c : PodCache) (old : Option (List PodItem))
      → Holds c old
      → Holds (run_refreshes decode rs c) (newer_pods (last_listed decode rs) old)
  unfolding run_refreshes
  run_refreshes-Holds [] c old h = h
  run_refreshes-Holds (r ∷ rs) c old h =
      rw (newer_assoc (last_listed decode rs) (pods_listed decode r) old) (
        run_refreshes-Holds rs (refresh (list_pods_on_node decode r) c).1
          (newer_pods (pods_listed decode r) old) (refresh-Holds c old r h))

  -- After any refreshes of a new cache, `Lookup` answers from the last list of pods that the server has
  -- returned, whatever failed since: with the last pod of that list that has the container, or not at all.
  pub lookup-run_refreshes :
      (rs : List (Result Bytes Reply)) (id : Bytes)
      → lookup (run_refreshes decode rs new_pod_cache) id ≡ owner_among id (last_listed decode rs)
  unfolding lookup
  lookup-run_refreshes rs id =
      by_list (last_listed decode rs) (run_refreshes-Holds rs new_pod_cache none refl)
    where
      by_list :
          (o : Option (List PodItem))
          → Holds (run_refreshes decode rs new_pod_cache) (newer_pods o none)
          → find id (run_refreshes decode rs new_pod_cache).by_id ≡ owner_among id o
      by_list none h = rw h (find_nothing id)
      by_list (some items) h = rw h (find-index_by_container id items)
