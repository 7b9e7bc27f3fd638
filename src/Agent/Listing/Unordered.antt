-- ===== src/Agent/Listing/Unordered.antt =====
-- `Remediations` of internal/agent/agent.go ranges over a Go map, whose order is random: what it lists
-- does not depend on that order.
use mathlib.Core.List.{Memᴰ, Pairwise, Permᴰ, mem-cons_self}
use mathlib.Core.List.Permᴰ
use mathlib.Core.Logic.{∥∥₁_elim}
use aegis_ebpf.Base.Maps.{find, bytes_key}
use aegis_ebpf.Base.{
  ◌≡◌, ◌≢◌, refl, sym, ap, ◌∙◌, true, false, List, [], ◌∷◌, Bytes, arith, none, some, ◌=b◌,
  if◌then◌else◌, Bool-cases, inl, inr, filter, =b_iff,
}
use aegis_ebpf.Agent.Listing.{
  RemediationFilter, passes, bytes_before, stands_before, insert_sorted, sort_remediations, values,
  remediations, remediation, limited,
}
use aegis_ebpf.Agent.Remediations.Consistent.{OncePerId}
use aegis_ebpf.Agent.State.{Agent, Remediation}

before_trans :
    (a b c : Bytes) → bytes_before a b ≡ true → bytes_before b c ≡ true → bytes_before a c ≡ true
unfolding bytes_before
before_trans a b [] h k = absurd (cc)
before_trans a [] (z ∷ c) h k = absurd (cc)
before_trans [] (y ∷ b) (z ∷ c) h k = refl
before_trans (x ∷ a) (y ∷ b) (z ∷ c) h k = ground (arith, before_trans a b c)

before_asym : (a b : Bytes) → bytes_before a b ≡ true → bytes_before b a ≡ false
unfolding bytes_before
before_asym a [] h = absurd (cc)
before_asym [] (y ∷ b) h = refl
before_asym (x ∷ a) (y ∷ b) h = ground (arith, before_asym a b)

before_total : (a b : Bytes) → a ≢ b → bytes_before a b ≡ false → bytes_before b a ≡ true
unfolding bytes_before
before_total [] [] ne h = absurd (ne refl)
before_total (x ∷ a) [] ne h = refl
before_total [] (y ∷ b) ne h = absurd (cc)
before_total (x ∷ a) (y ∷ b) ne h = ground (arith, ne, h, before_total a b, ap (λ l. x ∷ l))

stands_trans :
    (x y z : Remediation)
    → stands_before x y ≡ true
    → stands_before y z ≡ true
    → stands_before x z ≡ true
unfolding stands_before
stands_trans x y z h k = ground (arith, h, k, before_trans z.id y.id x.id)

stands_asym : (x y : Remediation) → stands_before x y ≡ true → stands_before y x ≡ false
unfolding stands_before
stands_asym x y h = ground (arith, h, before_asym y.id x.id)

stands_total :
    (x y : Remediation) → x.id ≢ y.id → stands_before x y ≡ false → stands_before y x ≡ true
unfolding stands_before
stands_total x y ne h = ground (arith, h, before_total y.id x.id (λ e. ne (sym e)))

insert_past :
    (x y : Remediation) (rems : List Remediation)
    → stands_before y x ≡ true
    → insert_sorted x (y ∷ rems) ≡ y ∷ insert_sorted x rems
unfolding insert_sorted
insert_past x y rems h = rw h refl

insert_at :
    (x y : Remediation) (rems : List Remediation)
    → stands_before y x ≡ false
    → insert_sorted x (y ∷ rems) ≡ x ∷ y ∷ rems
unfolding insert_sorted
insert_at x y rems h = rw h refl

-- Two insertions commute.
insert_after :
    (x y : Remediation) (rems : List Remediation)
    → stands_before x y ≡ true
    → insert_sorted x (insert_sorted y rems) ≡ insert_sorted y (insert_sorted x rems)
unfolding insert_sorted
insert_after x y [] h = insert_at x y [] (stands_asym x y h) ∙ sym (insert_past y x [] h)
insert_after x y (z ∷ rems) h = elim (Bool-cases (stands_before z x)) [
  | inl zx ↦
      let zy = stands_trans z x y zx h in
      let left = insert_past x z (insert_sorted y rems) zx in
      let right = insert_past y z (insert_sorted x rems) zy in
      let deep = insert_after x y rems h in
      let outer_y = insert_past y z rems zy in let outer_x = insert_past x z rems zx in cc
  | inr zx ↦
      let outer_x = insert_at x z rems zx in
      let over = insert_past y x (z ∷ rems) h in
      elim (Bool-cases (stands_before z y)) [
        | inl zy ↦
            let outer_y = insert_past y z rems zy in
            let left = insert_at x z (insert_sorted y rems) zx in cc
        | inr zy ↦
            let outer_y = insert_at y z rems zy in
            let left = insert_at x y (z ∷ rems) (stands_asym x y h) in cc
      ]
]

insert_comm :
    (x y : Remediation) (rems : List Remediation)
    → x.id ≢ y.id
    → insert_sorted x (insert_sorted y rems) ≡ insert_sorted y (insert_sorted x rems)
insert_comm x y rems ne = elim (Bool-cases (stands_before x y)) [
  | inl h ↦ insert_after x y rems h
  | inr h ↦ sym (insert_after y x rems (stands_total x y ne h))
]

-- What a map holds: two entries have neither their keys nor their IDs in common.
abbrev pub Entries : Type 0
Entries = List (Bytes × Remediation)

abbrev pub Differ : Bytes × Remediation → Bytes × Remediation → Type 0
Differ p q = (p.0 ≢ q.0) × (p.1.id ≢ q.1.id)

Differ-prop : (p q : Bytes × Remediation) → IsProp (Differ p q)
Differ-prop p q = hlevel

Differ-flip : (p q : Bytes × Remediation) → Differ p q → Differ q p
Differ-flip p q (k, i) = (λ e. k (sym e), λ e. i (sym e))

abbrev pub Distinct : Entries → Type 0
Distinct = Pairwise Differ

listed : RemediationFilter → Entries → List Remediation
listed f m = sort_remediations (filter (passes f) (values m))

-- One more entry.
listed_more : RemediationFilter → Bytes × Remediation → List Remediation → List Remediation
listed_more f (k, rem) rems = if passes f rem then insert_sorted rem rems else rems

listed_step :
    (f : RemediationFilter) (p : Bytes × Remediation) (m : Entries)
    → listed f (p ∷ m) ≡ listed_more f p (listed f m)
unfolding listed listed_more sort_remediations
listed_step f (k, rem) m = elim (Bool-cases (passes f rem)) [
  | inl e ↦ rw e refl
  | inr e ↦ rw e refl
]

more_comm :
    (f : RemediationFilter) (p q : Bytes × Remediation) (rems : List Remediation)
    → Differ p q
    → listed_more f p (listed_more f q rems) ≡ listed_more f q (listed_more f p rems)
unfolding listed_more
more_comm f (_, x) (_, y) rems ne = elim (Bool-cases (passes f x)) [
  | inl px ↦ elim (Bool-cases (passes f y)) [
    | inl py ↦ rw (px, py) (insert_comm x y rems ne.1)
    | inr py ↦ rw (px, py) refl
  ]
  | inr px ↦ rw px refl
]

listed_swap :
    (f : RemediationFilter) (p q : Bytes × Remediation) (m : Entries)
    → Differ p q
    → listed f (p ∷ q ∷ m) ≡ listed f (q ∷ p ∷ m)
listed_swap f p q m ne =
    let pq = listed_step f p (q ∷ m) in
    let q' = listed_step f q m in
    let qp = listed_step f q (p ∷ m) in
    let p' = listed_step f p m in let swapped = more_comm f p q (listed f m) ne in cc

listed-perm :
    (f : RemediationFilter) (m n : Entries) → Permᴰ m n → Distinct m → listed f m ≡ listed f n
listed-perm f _ _ Permᴰ.nil d = refl
listed-perm f _ _ (Permᴰ.cons {a = a} {b = b} {l₁ = m} {l₂ = n} e p) (Pairwise.cons h d) =
    let am = listed_step f a m in
    let bn = listed_step f b n in let rest = listed-perm f m n p d in cc
listed-perm f _ _ (Permᴰ.swap {a = a} {b = b} {a' = c} {b' = g} {l = l} e e') (Pairwise.cons h d) =
    let swapped = listed_swap f a b l (h b mem-cons_self) in cc
listed-perm f m n (Permᴰ.trans {l₂ = l} p q) d =
    listed-perm f m l p d ∙ listed-perm f l n q (Permᴰ.pairwise Differ-prop Differ-flip p d)

find_swap :
    (id : Bytes) (p q : Bytes × Remediation) (m : Entries)
    → Differ p q
    → find id (p ∷ q ∷ m) ≡ find id (q ∷ p ∷ m)
unfolding find
find_swap id (k, x) (l, y) m ne = ground (arith, ne.0, =b_iff k id, =b_iff l id)

find-perm : (id : Bytes) (m n : Entries) → Permᴰ m n → Distinct m → find id m ≡ find id n
unfolding find ◌=b◌
find-perm id _ _ Permᴰ.nil d = refl
find-perm id _ _ (Permᴰ.cons {a = a} {b = b} {l₁ = m} {l₂ = n} e p) (Pairwise.cons h d) =
    ap (λ c. find id (c ∷ m)) e ∙ find_rest b (find-perm id m n p d)
  where
    find_rest :
        (c : Bytes × Remediation) → find id m ≡ find id n → find id (c ∷ m) ≡ find id (c ∷ n)
    find_rest (k, x) h = ap (λ r. if k =b id then some x else r) h
find-perm id _ _ (Permᴰ.swap {a = a} {b = b} {a' = c} {b' = g} {l = l} e e') (Pairwise.cons h d) =
    let swapped = find_swap id a b l (h b mem-cons_self) in cc
find-perm id m n (Permᴰ.trans {l₂ = l} p q) d =
    find-perm id m l p d ∙ find-perm id l n q (Permᴰ.pairwise Differ-prop Differ-flip p d)

absent_key :
    (k : Bytes) (q : Bytes × Remediation) (m : Entries) → find k m ≡ none → Memᴰ q m → k ≢ q.0
unfolding find
absent_key k q [] new at same = elim at [ ]
absent_key k q ((l, y) ∷ m) new (Memᴰ.head e) same =
    let own : (l =b k) ≡ true = (=b_iff l k).1 (sym (same ∙ ap (λ p. p.0) e)) in
    absurd (let found : some y ≡ none = rw own at new in cc)
absent_key k q ((l, y) ∷ m) new (Memᴰ.tail at) same = absent_key k q m (later new) at same
  where
    later : (if l =b k then some y else find k m) ≡ none → find k m ≡ none
    later h = ground (arith, h)

entry-keyed : (q : Bytes × Remediation) (m : Entries) → OncePerId m → Memᴰ q m → q.0 ≡ q.1.id
entry-keyed q [] h at = elim at [ ]
entry-keyed q ((l, y) ∷ m) (own, _, _) (Memᴰ.head e) = let key = own in cc
entry-keyed q ((l, y) ∷ m) (_, _, hs) (Memᴰ.tail at) = entry-keyed q m hs at

-- An entry whose key is not in a map differs from all that are.
absent-Differ :
    (k : Bytes) (rem : Remediation) (m : Entries)
    → k ≡ rem.id
    → find k m ≡ none
    → OncePerId m
    → (q : Bytes × Remediation) → Memᴰ q m
    → Differ (k, rem) q
absent-Differ k rem m e new once q at =
    let apart = absent_key k q m new at in
    (apart, λ same. apart (e ∙ same ∙ sym (entry-keyed q m once at)))

OncePerId-Distinct : (m : Entries) → OncePerId m → Distinct m
OncePerId-Distinct [] h = Pairwise.nil
OncePerId-Distinct ((k, rem) ∷ m) (e, new, hs) =
    Pairwise.cons
      (λ q at.
        ∥∥₁_elim at (Differ-prop (k, rem) q) (λ found. absent-Differ k rem m e new hs q found))
      (OncePerId-Distinct m hs)

-- The remediations of a map are listed, and found, in the same way whatever the order of its entries.
pub unordered_lem :
    (a : Agent) (m : Entries)
    → OncePerId a.rems
    → Permᴰ a.rems m
    → ((f : RemediationFilter) → remediations a f ≡ remediations (record a { rems = m }) f)
      × ((id : Bytes) → remediation a id ≡ remediation (record a { rems = m }) id)
unfolding remediations listed
unordered_lem a m once p =
    let d = OncePerId-Distinct a.rems once in
    (λ f. ap (limited f.limit) (listed-perm f a.rems m p d), λ id. find-perm id a.rems m p d)
