-- ===== src/Tests/Servers.antt =====
-- A decoy pod on an API server with room for one, and the end of the responder.
use aegis_ebpf.Base.Maps.{pair_same, pair_same_iff}
use aegis_ebpf.Base.{
  ℕ, ◌≡◌, ◌⊎◌, inl, inr, refl, ap, Bool, true, false, not, ◌&&◌, ◌||◌, [], Bytes, codes, Result, ok,
  err, arith, ◌=b◌, Bool-cases, if◌then◌else◌,
}
use aegis_ebpf.Decoy.Kubernetes.Accounts.{Answers}
use aegis_ebpf.Decoy.Kubernetes.Manifest.{PodManifest}
use aegis_ebpf.Decoy.Kubernetes.{PodCall, post_pod, delete, Server, k8s_deployer}
use aegis_ebpf.Decoy.Lifecycle.{Deployer, deploy_for}
use aegis_ebpf.Decoy.{Trigger, Responder, admit}
use aegis_ebpf.K8s.{Reply, ApiError, bad_status, CreatedPod, create_pod}
use aegis_ebpf.Tests.Decoys.{web_trigger, idle}

abbrev reply : ℕ → Reply
reply status = record { status = status; body = [] }

abbrev slot : Bytes × Bytes
slot = (codes "shop", codes "d1")

-- The state says whether the slot is taken.
abbrev answer : PodCall → Bool → Result Bytes Reply × Bool
answer (post_pod namespace manifest) s = if s then (ok (reply 409), s) else (ok (reply 201), true)
answer (delete namespace name) s =
    (ok (reply 200), if pair_same (namespace, name) slot then false else s)

abbrev one_slot : Server
one_slot = record { State = Bool; do_call = answer }

abbrev encode : PodManifest → Result Bytes Bytes
encode manifest = ok []

abbrev decode : Bytes → Result Bytes CreatedPod
decode body = ok (record { name = slot.1; namespace = slot.0; uid = codes "u1" })

abbrev has_pod : Bool → Bytes × Bytes → Bool
has_pod s k = s && pair_same slot k

no_pod :
    (s : Bool) (namespace name : Bytes)
    → (namespace =b [] || name =b []) ≡ true
    → has_pod s (namespace, name) ≡ false
unfolding ◌=b◌
no_pod s namespace name e = elim (Bool-cases (pair_same slot (namespace, name))) [
  | inr other ↦ rw other (ground arith)
  | inl same ↦
      let eq = (pair_same_iff slot (namespace, name)).0 same in
      let eq0 : slot.0 ≡ namespace = ap (λ p. p.0) eq in
      let eq1 : slot.1 ≡ name = ap (λ p. p.1) eq in
      let taken : (slot.0 =b [] || slot.1 =b []) ≡ true = rw (← eq0, ← eq1) at e in absurd (cc)
]

posted :
    (namespace manifest : Bytes) (s : Bool)
    → ((e : ApiError) × (create_pod decode (answer (post_pod namespace manifest) s).0 ≡ err e)
        × ((k : Bytes × Bytes)
            → has_pod (answer (post_pod namespace manifest) s).1 k ≡ has_pod s k))
      ⊎ ((pod : CreatedPod) × (create_pod decode (answer (post_pod namespace manifest) s).0
            ≡ ok pod)
          × ((pod.uid =b []) ≡ false)
          × (has_pod s (pod.namespace, pod.name) ≡ false)
          × ((k : Bytes × Bytes)
              → has_pod (answer (post_pod namespace manifest) s).1 k
                ≡ (pair_same (pod.namespace, pod.name) k || has_pod s k)))
unfolding create_pod ◌=b◌
posted namespace manifest true = inl (bad_status 409, refl, (λ k. refl))
posted namespace manifest false = inr (
  record { name = slot.1; namespace = slot.0; uid = codes "u1" },
  refl,
  refl,
  refl,
  (λ k. ground arith),
)

deleted :
    (namespace name : Bytes) (s : Bool) (k : Bytes × Bytes)
    → has_pod (answer (delete namespace name) s).1 k
      ≡ (not (pair_same (namespace, name) k) && has_pod s k)
deleted namespace name s k = ground (
  arith,
  pair_same_iff (namespace, name) slot,
  pair_same_iff (namespace, name) k,
  pair_same_iff slot k,
)

abbrev answers : Answers one_slot decode
answers = record {
  has_pod = has_pod;
  named = no_pod;
  post_result = posted;
  delete_result = λ namespace name s quiet k. deleted namespace name s k;
}

abbrev shop_trigger : Trigger
shop_trigger = record web_trigger { namespace = codes "shop" }

abbrev deployer : Deployer
deployer = k8s_deployer one_slot encode decode []

abbrev asked_once : Responder
asked_once = (admit 7 idle shop_trigger).1

abbrev closing : Responder × Bool
closing = deploy_for deployer shop_trigger asked_once false
