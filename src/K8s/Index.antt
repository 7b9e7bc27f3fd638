-- ===== src/K8s/Index.antt =====
-- `indexByContainer` of internal/k8s/k8s.go against a search of the pod list.
use aegis_ebpf.Base.Maps.{find, insert, bytes_key, find-insert}
use aegis_ebpf.Base.{
  ◌≡◌, ◌≢◌, inl, inr, refl, sym, ap, ◌∙◌, Bool, true, false, not, ◌&&◌, ◌||◌, List, [], ◌∷◌, ◌++◌,
  Option, none, some, Bytes, codes, arith, length, ◌==◌, ◌=b◌, Bool-cases, if◌then◌else◌, any, all,
}
use aegis_ebpf.Events.Validate.{is_lower_hex, valid_container_id}
use aegis_ebpf.Go.Text.{cut, cut_is}
use aegis_ebpf.K8s.{
  Pod, PodItem, PodsByContainer, hex_loop, is_hex64, hex_behind, container_hex_id, index_statuses,
  pod_of_item, index_item, index_items, index_by_container,
}

hex_loop-all : (s : Bytes) → hex_loop s ≡ all is_lower_hex s
unfolding hex_loop
hex_loop-all [] = refl
hex_loop-all (b ∷ s) = ground (arith, hex_loop-all s)

-- `isHex64` accepts the texts that `ValidContainerID` of internal/events does.
is_hex64-valid : (s : Bytes) → is_hex64 s ≡ valid_container_id s
unfolding is_hex64 valid_container_id
is_hex64-valid s = elim (Bool-cases (length s == 64)) [
  | inl e ↦ rw e (hex_loop-all s)
  | inr e ↦ rw e refl
]

-- What `containerHexID` finds is a full container ID, behind a scheme.
hex_behind-valid :
    (o : Option (Bytes × Bytes)) (id : Bytes)
    → hex_behind o ≡ id
    → id ≢ []
    → (scheme : Bytes) × (o ≡ some (scheme, id)) × (valid_container_id id ≡ true)
unfolding hex_behind
hex_behind-valid none id e ne = absurd (ne (sym e))
hex_behind-valid (some (scheme, rest)) id e ne = elim (Bool-cases (is_hex64 rest)) [
  | inl h ↦
      let same : rest ≡ id = rw h at e in
      (scheme, cc, ap valid_container_id (sym same) ∙ sym (is_hex64-valid rest) ∙ h)
  | inr h ↦ absurd (ne (sym (rw h at e)))
]

-- Where `containerHexID` finds an ID, it stands behind a scheme, and `ValidContainerID` accepts it: the
-- index and the events of the sensor name containers in the same way.
pub container_hex_id_lem :
    (container_id id : Bytes)
    → container_hex_id container_id ≡ id
    → id ≢ []
    → (scheme : Bytes) × (container_id ≡ scheme ++ (codes "://" ++ id))
      × (valid_container_id id ≡ true)
unfolding container_hex_id
container_hex_id_lem container_id id e ne =
    let (scheme, found, valid) = hex_behind-valid (cut (codes "://") container_id) id e ne in
    (scheme, cut_is (codes "://") container_id scheme id found, valid)

-- A status names the container.
abbrev pub names : Bytes → Bytes → Bool
names id cs = not (container_hex_id cs =b []) && container_hex_id cs =b id

-- One of the pod's containers has the ID.
abbrev pub runs : Bytes → PodItem → Bool
runs id item =
    any (names id) item.ephemeral_container_statuses
    || any (names id) item.init_container_statuses
    || any (names id) item.container_statuses

abbrev pub or_else : Option Pod → Option Pod → Option Pod
or_else none b = b
or_else (some p) b = some p

-- The last pod of the list that runs the container.
abbrev pub last_owner : Bytes → List PodItem → Option Pod
last_owner id [] = none
last_owner id (item ∷ items) =
    or_else (last_owner id items) (if runs id item then some (pod_of_item item) else none)

find-index_statuses :
    (id : Bytes) (pod : Pod) (statuses : List Bytes) (by_id : PodsByContainer)
    → find id (index_statuses pod statuses by_id)
      ≡ (if any (names id) statuses then some pod else find id by_id)
unfolding index_statuses
find-index_statuses id pod [] by_id = refl
find-index_statuses id pod (cs ∷ statuses) by_id = elim (Bool-cases (container_hex_id cs =b [])) [
  | inl e ↦ rw e (find-index_statuses id pod statuses by_id)
  | inr e ↦ rw e (
      find-index_statuses id pod statuses (insert (container_hex_id cs) pod by_id)
      ∙ ground (arith, find-insert (container_hex_id cs) id pod by_id))
]

if_or :
    (a b : Bool) (p q : Option Pod)
    → (if a then p else if b then p else q) ≡ (if a || b then p else q)
if_or true b p q = refl
if_or false b p q = refl

find-index_item :
    (id : Bytes) (item : PodItem) (by_id : PodsByContainer)
    → find id (index_item item by_id)
      ≡ (if runs id item then some (pod_of_item item) else find id by_id)
find-index_item id item by_id =
    let pod = pod_of_item item in
    let m₁ = index_statuses pod item.container_statuses by_id in
    let m₂ = index_statuses pod item.init_container_statuses m₁ in
    ground (
      arith,
      find-index_statuses id pod item.ephemeral_container_statuses m₂,
      find-index_statuses id pod item.init_container_statuses m₁,
      find-index_statuses id pod item.container_statuses by_id,
    )

find-index_items :
    (id : Bytes) (items : List PodItem) (by_id : PodsByContainer)
    → find id (index_items items by_id) ≡ or_else (last_owner id items) (find id by_id)
unfolding index_items
find-index_items id [] by_id = refl
find-index_items id (item ∷ items) by_id =
    find-index_items id items (index_item item by_id)
    ∙ ap (or_else (last_owner id items)) (find-index_item id item by_id)
    ∙ regroup (last_owner id items) (runs id item)
  where
    regroup :
        (o : Option Pod) (b : Bool)
        → or_else o (if b then some (pod_of_item item) else find id by_id)
          ≡ or_else (or_else o (if b then some (pod_of_item item) else none)) (find id by_id)
    regroup none true = refl
    regroup none false = refl
    regroup (some p) b = refl

or_else-none : (o : Option Pod) → or_else o none ≡ o
or_else-none none = refl
or_else-none (some p) = refl

-- The index has under an ID exactly the last pod of the list with a container of this ID, among its
-- ordinary, its init and its ephemeral containers, and no entry where no pod has.
pub find-index_by_container :
    (id : Bytes) (items : List PodItem) → find id (index_by_container items) ≡ last_owner id items
unfolding index_by_container find
find-index_by_container id items = find-index_items id items [] ∙ or_else-none (last_owner id items)
