-- ===== src/Decoy/Docker/Networks.antt =====
-- `pickNetwork` of internal/decoy/decoy.go against a description of the network that it picks.
use aegis_ebpf.Base.{
  ◌≡◌, inl, inr, refl, Bool, true, false, not, ◌&&◌, ◌||◌, List, [], ◌∷◌, Option, none, some, Bytes,
  codes, arith, ◌=b◌, =b_iff, Bool-cases, if◌then◌else◌, any, All,
}
use aegis_ebpf.Decoy.Docker.Deployment.{pick_from, pick_network}

-- A network that neither is the host's nor comes with Docker.
unfoldable pub is_own : Bytes → Bool
is_own name =
    not (name =b codes "host") && not (name =b codes "none") && not (name =b codes "bridge")

unfoldable pub first_own : List Bytes → Option Bytes
first_own [] = none
first_own (name ∷ names) = if is_own name then some name else first_own names

-- The first of the container's own networks, or else the bridge, if it is on it.
abbrev pub preferred : Option Bytes → Bool → Bytes
preferred (some name) on_bridge = name
preferred none true = codes "bridge"
preferred none false = []

data Sort (name : Bytes) : Type 0 where
  shut :
      is_own name ≡ false
      → (name =b codes "bridge") ≡ false
      → (name =b codes "host" || name =b codes "none") ≡ true
      → Sort name
  bridge : name ≡ codes "bridge" → Sort name
  own :
      is_own name ≡ true
      → (name =b codes "bridge") ≡ false
      → (name =b codes "host" || name =b codes "none") ≡ false
      → Sort name

network-Sort : (name : Bytes) → Sort name
unfolding is_own
network-Sort name = elim (Bool-cases (name =b codes "bridge")) [
  | inl e ↦ bridge ((=b_iff name (codes "bridge")).0 e)
  | inr e ↦ elim (Bool-cases (name =b codes "host" || name =b codes "none")) [
    | inl h ↦ shut (ground arith) e h
    | inr h ↦ own (ground arith) e h
  ]
]

-- A network of its own stays the choice.
pick_from-own :
    (best : Bytes) (names : List Bytes)
    → (best =b []) ≡ false
    → (best =b codes "bridge") ≡ false
    → pick_from best names ≡ best
unfolding pick_from
pick_from-own best [] ne nb = refl
pick_from-own best (name ∷ names) ne nb =
    elim (Bool-cases (name =b codes "host" || name =b codes "none")) [
      | inl h ↦ rw h (pick_from-own best names ne nb)
      | inr h ↦ rw h (rw ne (rw nb (pick_from-own best names ne nb)))
    ]

pick_from-bridge :
    (names : List Bytes)
    → All (λ name. (name =b []) ≡ false) names
    → pick_from (codes "bridge") names ≡ preferred (first_own names) true
unfolding pick_from first_own ◌=b◌ is_own
pick_from-bridge [] ok = refl
pick_from-bridge (name ∷ names) (ne, ok) = elim (network-Sort name) [
  | shut o b h ↦ rw o (rw h (pick_from-bridge names ok))
  | own o b h ↦ rw o (rw h (rw b (pick_from-own name names ne b)))
  | bridge e ↦ rw e (pick_from-bridge names ok)
]

-- Of networks that have names, in whatever order, `pickNetwork` picks the first that neither is named host
-- or none nor is Docker's bridge; where there is none, the bridge if the container is on it, and otherwise
-- nothing: a decoy is never put on the network of the host.
pub pick_network_lem :
    (names : List Bytes)
    → All (λ name. (name =b []) ≡ false) names
    → pick_network names ≡ preferred (first_own names) (any (λ name. name =b codes "bridge") names)
unfolding pick_network pick_from first_own ◌=b◌ is_own
pick_network_lem [] ok = refl
pick_network_lem (name ∷ names) (ne, ok) = elim (network-Sort name) [
  | shut o b h ↦ rw o (rw h (rw b (pick_network_lem names ok)))
  | own o b h ↦ rw o (rw h (pick_from-own name names ne b))
  | bridge e ↦ rw e (pick_from-bridge names ok)
]
