-- ===== src/Decoy/Lifecycle/Tracked.antt =====
-- The decoys of a responder's map, internal/decoy/decoy.go, as its writes change them.
use aegis_ebpf.Base.Maps.{find, insert, erase, bytes_key, find-insert, find-erase}
use aegis_ebpf.Base.{
  ◌≡◌, refl, inl, inr, Bool, true, false, ◌||◌, List, [], ◌∷◌, none, some, Bytes, arith, ◌=b◌,
  =b_iff, Bool-cases, any,
}
use aegis_ebpf.Decoy.{Decoy, no_decoy, deployed}

-- No container has two entries.
abbrev pub Unique : List (Bytes × Decoy) → Type 0
Unique [] = Unit
Unique ((id, d) ∷ m) = (find id m ≡ none) × Unique m

pub insert-Unique :
    (id : Bytes) (d : Decoy) (m : List (Bytes × Decoy)) → Unique m → Unique (insert id d m)
unfolding insert find
insert-Unique id d [] u = (refl, tt)
insert-Unique id d ((other, w) ∷ m) (new, u) = elim (Bool-cases (other =b id)) [
  | inl e ↦ rw e (rw ((=b_iff other id).0 e) at new, u)
  | inr e ↦ rw e (
    ground (arith, find-insert id other d m, new, e, =b_iff id other, =b_iff other id),
    insert-Unique id d m u,
  )
]

pub erase-Unique : (id : Bytes) (m : List (Bytes × Decoy)) → Unique m → Unique (erase id m)
unfolding erase
erase-Unique id [] u = tt
erase-Unique id ((other, w) ∷ m) (new, u) = elim (Bool-cases (other =b id)) [
  | inl e ↦ rw e (erase-Unique id m u)
  | inr e ↦ rw e (ground (arith, find-erase id other m, new), erase-Unique id m u)
]

erase_absent : (id : Bytes) (m : List (Bytes × Decoy)) → find id m ≡ none → erase id m ≡ m
unfolding erase find
erase_absent id [] h = refl
erase_absent id ((other, w) ∷ m) h = ground (arith, h, erase_absent id m)

empty_slot : (w : Decoy) → some w ≡ some no_decoy → (w.id =b []) ≡ true
unfolding ◌=b◌
empty_slot w e = let same : w ≡ no_decoy = cc in rw same refl

module _ (p : Decoy → Bool) where
  -- A slot counts for no decoy.
  pub any-reserved :
      (id : Bytes) (m : List (Bytes × Decoy))
      → find id m ≡ none
      → any p (deployed (insert id no_decoy m)) ≡ any p (deployed m)
  unfolding insert find deployed ◌=b◌
  any-reserved id [] h = refl
  any-reserved id ((other, w) ∷ m) h = ground (arith, h, any-reserved id m)

  -- Its decoy counts where it is filled in.
  pub any-confirmed :
      (id : Bytes) (d : Decoy) (m : List (Bytes × Decoy))
      → find id m ≡ some no_decoy
      → (d.id =b []) ≡ false
      → any p (deployed (insert id d m)) ≡ (p d || any p (deployed m))
  unfolding insert find deployed
  any-confirmed id d [] h ne = absurd (cc)
  any-confirmed id d ((other, w) ∷ m) h ne = elim (Bool-cases (other =b id)) [
    | inl e ↦ let empty = empty_slot w (rw e at h) in rw (e, ne, empty) refl
    | inr e ↦
        let h' : find id m ≡ some no_decoy = rw e at h in
        rw e (elim (Bool-cases (w.id =b [])) [
          | inl f ↦ rw f (any-confirmed id d m h' ne)
          | inr f ↦ rw f (ground (arith, any-confirmed id d m h' ne))
        ])
  ]

  pub any-released :
      (id : Bytes) (m : List (Bytes × Decoy))
      → Unique m
      → find id m ≡ some no_decoy
      → any p (deployed (erase id m)) ≡ any p (deployed m)
  unfolding erase find deployed
  any-released id [] u h = refl
  any-released id ((other, w) ∷ m) (new, u) h = elim (Bool-cases (other =b id)) [
    | inl e ↦
        let empty = empty_slot w (rw e at h) in
        let same : other ≡ id = (=b_iff other id).0 e in
        let absent : find id m ≡ none = rw same at new in
        rw (e, empty, erase_absent id m absent) refl
    | inr e ↦
        let h' : find id m ≡ some no_decoy = rw e at h in
        rw e (elim (Bool-cases (w.id =b [])) [
          | inl f ↦ rw f (any-released id m u h')
          | inr f ↦ rw f (ground (arith, any-released id m u h'))
        ])
  ]
