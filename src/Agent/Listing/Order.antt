-- ===== src/Agent/Listing/Order.antt =====
-- What `Remediations` of internal/agent/agent.go lists, and in which order.
use Prim.Native.Nat.{min}
use mathlib.Core.Path.{subst}
use mathlib.Core.List.{Perm}
use mathlib.Core.List.Perm
use aegis_ebpf.Base.{
  ℕ, zero, suc, ◌≤◌, ◌≡◌, refl, ◌∙◌, ap, true, false, List, [], ◌∷◌, arith, length, take, filter,
  ◌++◌, append-nil, sym, ◌==◌, if◌then◌else◌, Bool-cases, inl, inr,
}
use aegis_ebpf.Agent.Listing.{
  RemediationFilter, passes, stands_before, insert_sorted, sort_remediations, limited, values,
  remediations,
}
use aegis_ebpf.Agent.State.{Agent, Remediation}

-- No remediation was seen later than the one before it.
abbrev pub NewestFirst : List Remediation → Type 0
NewestFirst [] = Unit
NewestFirst (x ∷ []) = Unit
NewestFirst (x ∷ y ∷ rems) = (y.last_seen ≤ x.last_seen) × NewestFirst (y ∷ rems)

before_le : (x y : Remediation) → stands_before x y ≡ true → y.last_seen ≤ x.last_seen
unfolding stands_before
before_le x y e = ground (arith, e)

not_before_le : (x y : Remediation) → stands_before x y ≡ false → x.last_seen ≤ y.last_seen
unfolding stands_before
not_before_le x y e = ground (arith, e)

insert-NewestFirst :
    (x y : Remediation) (rems : List Remediation)
    → x.last_seen ≤ y.last_seen
    → NewestFirst (y ∷ rems)
    → NewestFirst (y ∷ insert_sorted x rems)
unfolding insert_sorted
insert-NewestFirst x y [] le h = (le, tt)
insert-NewestFirst x y (z ∷ rems) le (le', h) = elim (Bool-cases (stands_before z x)) [
  | inl b ↦ rw b (le', insert-NewestFirst x z rems (before_le z x b) h)
  | inr b ↦ rw b (le, (not_before_le z x b, h))
]

insert_first :
    (x : Remediation) (rems : List Remediation)
    → NewestFirst rems
    → NewestFirst (insert_sorted x rems)
unfolding insert_sorted
insert_first x [] h = tt
insert_first x (y ∷ rems) h = elim (Bool-cases (stands_before y x)) [
  | inl b ↦ rw b (insert-NewestFirst x y rems (before_le y x b) h)
  | inr b ↦ rw b (not_before_le y x b, h)
]

sort-NewestFirst : (rems : List Remediation) → NewestFirst (sort_remediations rems)
unfolding sort_remediations
sort-NewestFirst [] = tt
sort-NewestFirst (x ∷ rems) = insert_first x (sort_remediations rems) (sort-NewestFirst rems)

insert-Perm : (x : Remediation) (rems : List Remediation) → Perm (insert_sorted x rems) (x ∷ rems)
unfolding insert_sorted
insert-Perm x [] = Perm.refl (x ∷ [])
insert-Perm x (y ∷ rems) = elim (Bool-cases (stands_before y x)) [
  | inl b ↦ rw b (Perm.trans (Perm.cons y (insert-Perm x rems)) (Perm.swap x y rems))
  | inr b ↦ rw b (Perm.refl (x ∷ y ∷ rems))
]

sort-Perm : (rems : List Remediation) → Perm (sort_remediations rems) rems
unfolding sort_remediations
sort-Perm [] = Perm.refl []
sort-Perm (x ∷ rems) =
    Perm.trans (insert-Perm x (sort_remediations rems)) (Perm.cons x (sort-Perm rems))

length-insert :
    (x : Remediation) (rems : List Remediation) → length (insert_sorted x rems) ≡ suc (length rems)
unfolding insert_sorted
length-insert x [] = refl
length-insert x (y ∷ rems) = elim (Bool-cases (stands_before y x)) [
  | inl b ↦ rw b (ap suc (length-insert x rems))
  | inr b ↦ rw b refl
]

pub length-sort : (rems : List Remediation) → length (sort_remediations rems) ≡ length rems
unfolding sort_remediations
length-sort [] = refl
length-sort (x ∷ rems) = length-insert x (sort_remediations rems) ∙ ap suc (length-sort rems)

length-take : (n : ℕ) (rems : List Remediation) → length (take n rems) ≡ min n (length rems)
length-take zero rems = omega arith
length-take (suc n) [] = omega arith
length-take (suc n) (x ∷ rems) = omega (arith, length-take n rems)

take-rest :
    (n : ℕ) (rems : List Remediation) → (rest : List Remediation) × (take n rems ++ rest ≡ rems)
take-rest zero rems = (rems, refl)
take-rest (suc n) [] = ([], refl)
take-rest (suc n) (x ∷ rems) = ((take-rest n rems).0, ap (λ l. x ∷ l) (take-rest n rems).1)

limited-rest :
    (n : ℕ) (rems : List Remediation) → (rest : List Remediation) × (limited n rems ++ rest ≡ rems)
limited-rest zero rems = ([], append-nil rems)
limited-rest (suc n) rems = take-rest (suc n) rems

pub length-limited :
    (n : ℕ) (rems : List Remediation)
    → length (limited n rems) ≡ (if n == 0 then length rems else min n (length rems))
length-limited zero rems = refl
length-limited (suc n) rems = ground (arith, length-take (suc n) rems)

-- The remediations that pass the filter, in the agent's order.
abbrev pub passing : Agent → RemediationFilter → List Remediation
passing a f = filter (passes f) (values a.rems)

-- What `Remediations` lists, followed by some rest, is a permutation of the remediations that pass the
-- filter, most recently seen first. Without a limit the list is as long as all of these together, and
-- else it has as many as the limit allows.
pub remediations_lem :
    (a : Agent) (f : RemediationFilter)
    → (rest : List Remediation) × NewestFirst (remediations a f ++ rest)
      × Perm (remediations a f ++ rest) (passing a f)
      × (length (remediations a f)
          ≡ (if f.limit == 0 then length (passing a f) else min f.limit (length (passing a f))))
unfolding remediations
remediations_lem a f = (
  cut.0,
  subst NewestFirst (sym cut.1) (sort-NewestFirst (passing a f)),
  subst (λ l. Perm l (passing a f)) (sym cut.1) (sort-Perm (passing a f)),
  length-limited f.limit sorted
      ∙ ap (λ k. if f.limit == 0 then k else min f.limit k) (length-sort (passing a f)),
)
  where
    sorted : List Remediation
    sorted = sort_remediations (passing a f)

    cut : (rest : List Remediation) × (limited f.limit sorted ++ rest ≡ sorted)
    cut = limited-rest f.limit sorted
