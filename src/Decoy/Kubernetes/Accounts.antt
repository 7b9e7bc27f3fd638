-- ===== src/Decoy/Kubernetes/Accounts.antt =====
-- The deployer for Kubernetes of internal/decoy/k8s.go behind the responder.
use aegis_ebpf.Base.Maps.{pair_same, pair_same_iff}
use aegis_ebpf.Base.{
  ◌≡◌, ◌⊎◌, inl, inr, refl, ap, Bool, true, false, not, ◌&&◌, ◌||◌, [], none, Bytes, Result, ok,
  err, ◌=b◌, Bool-cases,
}
use aegis_ebpf.Decoy.Kubernetes.Manifest.{PodManifest, decoy_pod}
use aegis_ebpf.Decoy.Kubernetes.{
  post_pod, delete, Server, PodError, no_namespace, not_marshalled, not_created, image_or_default,
  decoy_of, submitted, deploy_pod, remove_pod, k8s_deployer,
}
use aegis_ebpf.Decoy.Lifecycle.Closing.{Accountable}
use aegis_ebpf.Decoy.{Trigger, Decoy}
use aegis_ebpf.K8s.{ApiError, CreatedPod, create_pod, delete_pod}

-- A server that answers, with the pods by namespace and name: a creation that succeeds adds the new pod that
-- its reply names, one that fails adds none, and a removal that succeeds takes the pod away.
pub record Answers (srv : Server) (decode : Bytes → Result Bytes CreatedPod) : Type 0 where
  pub has_pod : srv.State → Bytes × Bytes → Bool
  pub named :
      (s : srv.State) (namespace name : Bytes)
      → (namespace =b [] || name =b []) ≡ true
      → has_pod s (namespace, name) ≡ false
  pub post_result :
      (namespace manifest : Bytes) (s : srv.State)
      → ((e : ApiError) × (create_pod decode (srv.do_call (post_pod namespace manifest) s).0
            ≡ err e)
          × ((k : Bytes × Bytes)
              → has_pod (srv.do_call (post_pod namespace manifest) s).1 k ≡ has_pod s k))
        ⊎ ((pod : CreatedPod) × (create_pod decode (srv.do_call (post_pod namespace manifest) s).0
              ≡ ok pod)
            × ((pod.uid =b []) ≡ false)
            × (has_pod s (pod.namespace, pod.name) ≡ false)
            × ((k : Bytes × Bytes)
                → has_pod (srv.do_call (post_pod namespace manifest) s).1 k
                  ≡ (pair_same (pod.namespace, pod.name) k || has_pod s k)))
  pub delete_result :
      (namespace name : Bytes) (s : srv.State)
      → delete_pod (srv.do_call (delete namespace name) s).0 ≡ none
      → (k : Bytes × Bytes)
      → has_pod (srv.do_call (delete namespace name) s).1 k
        ≡ (not (pair_same (namespace, name) k) && has_pod s k)

module _ (srv : Server) (encode : PodManifest → Result Bytes Bytes)
    (decode : Bytes → Result Bytes CreatedPod) (image : Bytes) (a : Answers srv decode) where
  open srv use {State}
  open a use {has_pod}

  -- No decoy more, or one.
  abbrev Outcome : State → Result PodError Decoy × State → Type 0
  Outcome s p =
      ((e : PodError) × (p.0 ≡ err e) × ((k : Bytes × Bytes) → has_pod p.1 k ≡ has_pod s k))
      ⊎ ((dec : Decoy) × (p.0 ≡ ok dec)
          × ((dec.id =b []) ≡ false)
          × (has_pod s (dec.namespace, dec.name) ≡ false)
          × ((k : Bytes × Bytes)
              → has_pod p.1 k ≡ (pair_same (dec.namespace, dec.name) k || has_pod s k)))

  submitted-Outcome :
      (namespace : Bytes) (manifest : Result Bytes Bytes) (s : State)
      → Outcome s (submitted srv encode decode image namespace manifest s)
  unfolding submitted
  submitted-Outcome namespace (err why) s = inl (not_marshalled why, refl, (λ k. refl))
  submitted-Outcome namespace (ok manifest) s = elim (a.post_result namespace manifest s) [
    | inl (e, out, same) ↦ inl (not_created e, ap decoy_of out, same)
    | inr (pod, out, uid, fresh, more) ↦ inr (_, ap decoy_of out, uid, fresh, more)
  ]

  deploy_pod-Outcome :
      (t : Trigger) (s : State) → Outcome s (deploy_pod srv encode decode image t s)
  unfolding deploy_pod
  deploy_pod-Outcome t s = elim (Bool-cases (t.namespace =b [])) [
    | inl e ↦ rw e (inl (no_namespace, refl, (λ k. refl)))
    | inr e ↦ rw e (submitted-Outcome t.namespace (encode (decoy_pod (image_or_default image) t)) s)
  ]

  remove_pod_lem :
      (dec : Decoy) (s : State)
      → (remove_pod srv encode decode image dec s).0 ≡ none
      → (k : Bytes × Bytes)
      → has_pod (remove_pod srv encode decode image dec s).1 k
        ≡ (not (pair_same (dec.namespace, dec.name) k) && has_pod s k)
  unfolding remove_pod
  remove_pod_lem dec s quiet k = elim (Bool-cases (dec.namespace =b [] || dec.name =b [])) [
    | inr e ↦
        let quiet' : delete_pod (srv.do_call (delete dec.namespace dec.name) s).0 ≡ none =
          rw e at quiet in
        rw e (a.delete_result dec.namespace dec.name s quiet' k)
    | inl e ↦ rw e (
        not_there (a.named s dec.namespace dec.name e)
          (Bool-cases (pair_same (dec.namespace, dec.name) k)))
  ]
    where
      not_there :
          has_pod s (dec.namespace, dec.name) ≡ false
          → (pair_same (dec.namespace, dec.name) k ≡ true)
            ⊎ (pair_same (dec.namespace, dec.name) k ≡ false)
          → has_pod s k ≡ (not (pair_same (dec.namespace, dec.name) k) && has_pod s k)
      not_there none_there (inr e) = rw e refl
      not_there none_there (inl e) =
          let same = (pair_same_iff (dec.namespace, dec.name) k).0 e in rw e (rw same at none_there)

  k8s_accounts : Accountable (k8s_deployer srv encode decode image)
  k8s_accounts = record {
    key = λ dec. (dec.namespace, dec.name);
    is_live = has_pod;
    deploy_result = deploy_pod-Outcome;
    remove_result = remove_pod_lem;
  }
