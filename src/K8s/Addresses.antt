-- ===== src/K8s/Addresses.antt =====
-- Which pod a request of internal/k8s/k8s.go addresses.
use aegis_ebpf.Base.{◌≡◌, refl, [], ◌∷◌, ◌++◌, Bytes, codes, All}
use aegis_ebpf.Go.Url.{
  AreBytes, StaysInside, path_escape, path_escape_injective, path_escape-inside,
}
use aegis_ebpf.K8s.{pod_url}

append_cancel : (p s t : Bytes) → p ++ s ≡ p ++ t → s ≡ t
append_cancel [] s t e = e
append_cancel (c ∷ p) s t e = append_cancel p s t (cc)

-- Texts without a slash, in front of one.
split_slash :
    (s t r q : Bytes)
    → All StaysInside s
    → All StaysInside t
    → s ++ b'/' ∷ r ≡ t ++ b'/' ∷ q
    → (s ≡ t) × (r ≡ q)
split_slash [] [] r q hs ht e = (refl, cc)
split_slash [] (d ∷ t) r q hs ht e = absurd (ht.0.0 (cc))
split_slash (c ∷ s) [] r q hs ht e = absurd (hs.0.0 (cc))
split_slash (c ∷ s) (d ∷ t) r q hs ht e =
    let (same, rest) = split_slash s t r q hs.1 ht.1 (cc) in (cc, rest)

-- Whatever bytes are in a namespace and a name, the URL of `DeletePod` addresses that pod only: two
-- requests to one server with the same URL are for the same namespace and the same name.
pod_url_injective :
    (base namespace namespace' name name' : Bytes)
    → AreBytes namespace
    → AreBytes namespace'
    → AreBytes name
    → AreBytes name'
    → pod_url base namespace name ≡ pod_url base namespace' name'
    → (namespace ≡ namespace') × (name ≡ name')
unfolding pod_url
pod_url_injective base namespace namespace' name name' bs bs' bn bn' e =
    let behind =
      append_cancel (codes "/api/v1/namespaces/")
        (path_escape namespace ++ (codes "/pods/" ++ path_escape name))
        (path_escape namespace' ++ (codes "/pods/" ++ path_escape name'))
        (append_cancel base _ _ e) in
    let (ns, rest) =
      split_slash (path_escape namespace) (path_escape namespace')
        (codes "pods/" ++ path_escape name) (codes "pods/" ++ path_escape name')
        (path_escape-inside namespace bs) (path_escape-inside namespace' bs') behind in
    (
      path_escape_injective namespace namespace' bs bs' ns,
      path_escape_injective name name' bn bn'
          (append_cancel (codes "pods/") (path_escape name) (path_escape name') rest),
    )
