-- ===== src/Agent/Remediations/Linked.antt =====
-- The two maps of remediations of internal/agent/agent.go: one remediation for a rule and a container.
use mathlib.Core.Path.{subst}
use aegis_ebpf.Base.Maps.{
  find, insert, erase, bytes_key, pair_key, pair_same, pair_same_iff, find-erase, insert_self,
  insert_elsewhere, insert_here,
}
use aegis_ebpf.Base.{
  ◌≡◌, ◌≢◌, sym, ◌∙◌, ap, List, none, some, Bytes, arith, if◌then◌else◌, ◌=b◌, =b_iff, Bool-cases,
  inl, inr, true, false,
}
use aegis_ebpf.Agent.Remediations.Oldest.{Rems}
use aegis_ebpf.Agent.Remediations.{rem_key}
use aegis_ebpf.Agent.State.{Remediation, RemKey}

-- Each map leads to the other: a key to a remediation with that key, and a remediation's key to it.
pub record Linked (rems : Rems) (rem_for : List (RemKey × Bytes)) : Type 0 where
  pub forward :
      (key : RemKey) (id : Bytes)
      → find key rem_for ≡ some id
      → (rem : Remediation) × (find id rems ≡ some rem) × (rem_key rem ≡ key)
  pub back :
      (id : Bytes) (rem : Remediation)
      → find id rems ≡ some rem
      → find (rem_key rem) rem_for ≡ some id

one_id :
    (rem_for : List (RemKey × Bytes)) (p q : RemKey) (i j : Bytes)
    → p ≡ q
    → find p rem_for ≡ some i
    → find q rem_for ≡ some j
    → i ≡ j
one_id rem_for p q i j same e f = cc

-- Two open remediations for one rule and one container are one.
pub Linked-one :
    (rems : Rems) (rem_for : List (RemKey × Bytes)) (i j : Bytes) (r s : Remediation)
    → Linked rems rem_for
    → find i rems ≡ some r
    → find j rems ≡ some s
    → rem_key r ≡ rem_key s
    → i ≡ j
Linked-one rems rem_for i j r s l e f same =
    one_id rem_for (rem_key r) (rem_key s) i j same (l.back i r e) (l.back j s f)

-- A remediation is written over one with the same key.
pub see-Linked :
    (rems : Rems) (rem_for : List (RemKey × Bytes)) (id : Bytes) (old new : Remediation)
    → find id rems ≡ some old
    → rem_key new ≡ rem_key old
    → Linked rems rem_for
    → Linked (insert id new rems) rem_for
see-Linked rems rem_for id old new e same l = record {
  forward = λ key i f. elim (Bool-cases (id =b i)) [
    | inl here ↦ (new, found_new i here, same ∙ key_is key i f here)
    | inr there ↦
        let (rem, g, k) = l.forward key i f in (rem, insert_elsewhere id i new rems there ∙ g, k)
  ];
  back = λ i rem f. elim (Bool-cases (id =b i)) [
    | inl here ↦ back_here i rem f here
    | inr there ↦ l.back i rem (sym (insert_elsewhere id i new rems there) ∙ f)
  ];
}
  where
    found_new : (i : Bytes) → (id =b i) ≡ true → find i (insert id new rems) ≡ some new
    found_new i here =
        subst (λ k. find k (insert id new rems) ≡ some new) ((=b_iff id i).0 here)
          (insert_self id new rems)

    key_is :
        (key : RemKey) (i : Bytes)
        → find key rem_for ≡ some i
        → (id =b i) ≡ true
        → rem_key old ≡ key
    key_is key i f here =
        let (rem, g, k) = l.forward key i f in
        let same_id = (=b_iff id i).0 here in let one : old ≡ rem = cc in ap rem_key one ∙ k

    back_here :
        (i : Bytes) (rem : Remediation)
        → find i (insert id new rems) ≡ some rem
        → (id =b i) ≡ true
        → find (rem_key rem) rem_for ≡ some i
    back_here i rem f here =
        let is_new : rem ≡ new = insert_here id i new rem rems here f in
        let same_id = (=b_iff id i).0 here in
        ap (λ (q : Remediation). find (rem_key q) rem_for) is_new
        ∙ ap (λ k. find k rem_for) same
        ∙ l.back id old e
        ∙ ap some same_id

-- A remediation leaves both maps.
pub drop-Linked :
    (rems : Rems) (rem_for : List (RemKey × Bytes)) (old : Remediation)
    → find old.id rems ≡ some old
    → Linked rems rem_for
    → Linked (erase old.id rems) (erase (rem_key old) rem_for)
drop-Linked rems rem_for old e l = record {
  forward = λ key i f.
      let (ne, g) = left_key key i f in
      let (rem, h, k) = l.forward key i g in (rem, stays_id key i rem ne h k, k);
  back = λ i rem f. let (ne, g) = left_id i rem f in stays_key i rem ne (l.back i rem g);
}
  where
    left_key :
        (key : RemKey) (i : Bytes)
        → find key (erase (rem_key old) rem_for) ≡ some i
        → (rem_key old ≢ key) × (find key rem_for ≡ some i)
    left_key key i f =
        ground (arith, f, find-erase (rem_key old) key rem_for, pair_same_iff (rem_key old) key)

    left_id :
        (i : Bytes) (rem : Remediation)
        → find i (erase old.id rems) ≡ some rem
        → (old.id ≢ i) × (find i rems ≡ some rem)
    left_id i rem f = ground (arith, f, find-erase old.id i rems, =b_iff old.id i)

    stays_id :
        (key : RemKey) (i : Bytes) (rem : Remediation)
        → rem_key old ≢ key
        → find i rems ≡ some rem
        → rem_key rem ≡ key
        → find i (erase old.id rems) ≡ some rem
    stays_id key i rem ne h k = elim (Bool-cases (old.id =b i)) [
      | inl same ↦
          let same_id = (=b_iff old.id i).0 same in
          let one : old ≡ rem = cc in absurd (ne (ap rem_key one ∙ k))
      | inr other ↦ find-erase old.id i rems ∙ ap (λ b. if b then none else find i rems) other ∙ h
    ]

    stays_key :
        (i : Bytes) (rem : Remediation)
        → old.id ≢ i
        → find (rem_key rem) rem_for ≡ some i
        → find (rem_key rem) (erase (rem_key old) rem_for) ≡ some i
    stays_key i rem ne h = elim (Bool-cases (pair_same (rem_key old) (rem_key rem))) [
      | inl same ↦
          let same_key = (pair_same_iff (rem_key old) (rem_key rem)).0 same in
          absurd (
            ne (
              one_id rem_for (rem_key old) (rem_key rem) old.id i same_key (l.back old.id old e) h))
      | inr other ↦
          find-erase (rem_key old) (rem_key rem) rem_for
          ∙ ap (λ b. if b then none else find (rem_key rem) rem_for) other
          ∙ h
    ]

-- A new remediation enters both maps.
pub open-Linked :
    (rems : Rems) (rem_for : List (RemKey × Bytes)) (new : Remediation)
    → find new.id rems ≡ none
    → find (rem_key new) rem_for ≡ none
    → Linked rems rem_for
    → Linked (insert new.id new rems) (insert (rem_key new) new.id rem_for)
open-Linked rems rem_for new no_id no_key l = record {
  forward = λ key i f. elim (Bool-cases (pair_same (rem_key new) key)) [
    | inl same ↦ (new, found_new key i f same, (pair_same_iff (rem_key new) key).0 same)
    | inr other ↦
        let (rem, g, k) =
          l.forward key i (sym (insert_elsewhere (rem_key new) key new.id rem_for other) ∙ f) in
        (rem, insert_elsewhere new.id i new rems (differs i rem g) ∙ g, k)
  ];
  back = λ i rem f. elim (Bool-cases (new.id =b i)) [
    | inl same ↦ key_new i rem f same
    | inr other ↦
        let g = l.back i rem (sym (insert_elsewhere new.id i new rems other) ∙ f) in
        insert_elsewhere (rem_key new) (rem_key rem) new.id rem_for (differs_key (rem_key rem) i g)
        ∙ g
  ];
}
  where
    found_new :
        (key : RemKey) (i : Bytes)
        → find key (insert (rem_key new) new.id rem_for) ≡ some i
        → pair_same (rem_key new) key ≡ true
        → find i (insert new.id new rems) ≡ some new
    found_new key i f same =
        let is_new : i ≡ new.id = insert_here (rem_key new) key new.id i rem_for same f in
        subst (λ k. find k (insert new.id new rems) ≡ some new) (sym is_new)
          (insert_self new.id new rems)

    key_new :
        (i : Bytes) (rem : Remediation)
        → find i (insert new.id new rems) ≡ some rem
        → (new.id =b i) ≡ true
        → find (rem_key rem) (insert (rem_key new) new.id rem_for) ≡ some i
    key_new i rem f same =
        let is_new : rem ≡ new = insert_here new.id i new rem rems same f in
        ap (λ (q : Remediation). find (rem_key q) (insert (rem_key new) new.id rem_for)) is_new
        ∙ insert_self (rem_key new) new.id rem_for
        ∙ ap some ((=b_iff new.id i).0 same)

    differs : (i : Bytes) (rem : Remediation) → find i rems ≡ some rem → (new.id =b i) ≡ false
    differs i rem g = elim (Bool-cases (new.id =b i)) [
      | inl same ↦ absurd (let eq = (=b_iff new.id i).0 same in cc)
      | inr other ↦ other
    ]

    differs_key :
        (key : RemKey) (i : Bytes) → find key rem_for ≡ some i → pair_same (rem_key new) key ≡ false
    differs_key key i g = elim (Bool-cases (pair_same (rem_key new) key)) [
      | inl same ↦ absurd (let eq = (pair_same_iff (rem_key new) key).0 same in cc)
      | inr other ↦ other
    ]
