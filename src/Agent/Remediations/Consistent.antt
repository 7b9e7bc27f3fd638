-- ===== src/Agent/Remediations/Consistent.antt =====
-- Every change of the remediations of internal/agent/agent.go keeps its two maps in step.
use mathlib.Core.Path.{subst}
use aegis_ebpf.Base.Maps.{find, insert, erase, bytes_key, pair_key, find-erase, insert_elsewhere}
use aegis_ebpf.Base.{
  ℕ, ◌<◌, ◌≡◌, ◌⊎◌, refl, sym, ◌∙◌, [], ◌∷◌, Option, none, some, Bytes, arith, length, leb, ltb,
  if◌then◌else◌, ◌=b◌, =b_iff, Bool-cases, Option-cases, inl, inr, Bool, true, false,
}
use aegis_ebpf.Agent.Remediations.Linked.{Linked, see-Linked, drop-Linked, open-Linked}
use aegis_ebpf.Agent.Remediations.Bounds.{find-Keyed}
use aegis_ebpf.Agent.Remediations.Oldest.{Rems, Keyed}
use aegis_ebpf.Agent.Remediations.{
  rem_key, drop, oldest_from, evict, see, see_at, opened, open_in, with_room, record_at,
}
use aegis_ebpf.Agent.State.{Agent, Remediation, RemKey}
use aegis_ebpf.Events.Types.{Time, Container, AuditEvent}
use aegis_ebpf.Fixer.Rules.{Rule}

-- Each remediation stands once, under its ID.
abbrev pub OncePerId : Rems → Type 0
OncePerId [] = Unit
OncePerId ((k, rem) ∷ rems) = (k ≡ rem.id) × (find k rems ≡ none) × OncePerId rems

insert-OncePerId :
    (id : Bytes) (rem : Remediation) (m : Rems)
    → id ≡ rem.id
    → OncePerId m
    → OncePerId (insert id rem m)
unfolding insert find
insert-OncePerId id rem [] e h = (e, refl, tt)
insert-OncePerId id rem ((k, r) ∷ m) e (h, new, hs) = elim (Bool-cases (k =b id)) [
  | inl s ↦ rw s (e, subst (λ i. find i m ≡ none) ((=b_iff k id).0 s) new, hs)
  | inr s ↦ rw s (h, insert_elsewhere id k rem m (flip s) ∙ new, insert-OncePerId id rem m e hs)
]
  where
    flip : (k =b id) ≡ false → (id =b k) ≡ false
    flip s = ground (arith, s, =b_iff k id, =b_iff id k)

erase-OncePerId : (id : Bytes) (m : Rems) → OncePerId m → OncePerId (erase id m)
unfolding erase
erase-OncePerId id [] h = tt
erase-OncePerId id ((k, r) ∷ m) (h, new, hs) = elim (Bool-cases (k =b id)) [
  | inl s ↦ rw s (erase-OncePerId id m hs)
  | inr s ↦ rw s (h, still, erase-OncePerId id m hs)
]
  where
    still : find k (erase id m) ≡ none
    still = ground (arith, find-erase id k m, new)

OncePerId-Keyed : (m : Rems) → OncePerId m → Keyed m
OncePerId-Keyed [] h = tt
OncePerId-Keyed ((k, rem) ∷ m) (e, new, hs) = (e, OncePerId-Keyed m hs)

-- Each entry is found under its ID.
abbrev AllFound : Rems → Rems → Type 0
AllFound m [] = Unit
AllFound m ((_, rem) ∷ rems) = (find rem.id m ≡ some rem) × AllFound m rems

abbrev FoundOption : Rems → Option Remediation → Type 0
FoundOption m none = Unit
FoundOption m (some rem) = find rem.id m ≡ some rem

AllFound-cons :
    (k : Bytes) (r : Remediation) (m rems : Rems)
    → find k m ≡ none
    → AllFound m rems
    → AllFound ((k, r) ∷ m) rems
unfolding find
AllFound-cons k r m [] new h = tt
AllFound-cons k r m ((_, rem) ∷ rems) new (f, fs) =
    (there (Bool-cases (k =b rem.id)), AllFound-cons k r m rems new fs)
  where
    there : ((k =b rem.id) ≡ true) ⊎ ((k =b rem.id) ≡ false) → find rem.id ((k, r) ∷ m) ≡ some rem
    there (inl s) = absurd (let e = (=b_iff k rem.id).0 s in cc)
    there (inr s) = rw s f

OncePerId-AllFound : (m : Rems) → OncePerId m → AllFound m m
unfolding find
OncePerId-AllFound [] h = tt
OncePerId-AllFound ((k, rem) ∷ m) (e, new, hs) =
    (here, AllFound-cons k rem m m new (OncePerId-AllFound m hs))
  where
    here : find rem.id ((k, rem) ∷ m) ≡ some rem
    here = let s : (k =b rem.id) ≡ true = (=b_iff k rem.id).1 e in rw s

oldest-Found :
    (m : Rems) (best : Option Remediation) (rems : Rems)
    → FoundOption m best
    → AllFound m rems
    → FoundOption m (oldest_from best rems)
unfolding oldest_from
oldest-Found m none [] h hs = tt
oldest-Found m (some b) [] h hs = h
oldest-Found m none ((_, rem) ∷ rems) h (k, ks) = oldest-Found m (some rem) rems k ks
oldest-Found m (some old) ((_, rem) ∷ rems) h (k, ks) =
    oldest-Found m (some (if ltb rem.last_seen old.last_seen then rem else old)) rems
      (choose (ltb rem.last_seen old.last_seen)) ks
  where
    choose : (b : Bool) → FoundOption m (some (if b then rem else old))
    choose true = k
    choose false = h

module _ (new_id : ℕ → Bytes) where
  -- The two maps are in step, and hold IDs that were issued only.
  pub record Consistent (a : Agent) : Type 0 where
    pub linked : Linked a.rems a.rem_for
    pub once : OncePerId a.rems
    pub known :
        (id : Bytes) (rem : Remediation)
        → find id a.rems ≡ some rem
        → (k : ℕ) × (k < a.issued) × (id ≡ new_id k)

  drop-Consistent :
      (a : Agent) (o : Option Remediation)
      → FoundOption a.rems o
      → Consistent a
      → Consistent (drop a o)
  unfolding drop
  drop-Consistent a none f c = c
  drop-Consistent a (some old) f c = record {
    linked = drop-Linked a.rems a.rem_for old f c.linked;
    once = erase-OncePerId old.id a.rems c.once;
    known = λ id rem e. c.known id rem (ground (arith, e, find-erase old.id id a.rems));
  }

  with_room-Consistent :
      (a : Agent) (full : Bool) → Consistent a → Consistent (if full then evict a else a)
  unfolding evict
  with_room-Consistent a true c =
      drop-Consistent a (oldest_from none a.rems)
        (oldest-Found a.rems none a.rems tt (OncePerId-AllFound a.rems c.once)) c
  with_room-Consistent a false c = c

  -- Room is made without losing track of a key that is not there.
  with_room_key :
      (a : Agent) (full : Bool) (key : RemKey)
      → find key a.rem_for ≡ none
      → find key (if full then evict a else a).rem_for ≡ none
  unfolding evict drop
  with_room_key a true key e = dropped (oldest_from none a.rems)
    where
      dropped : (o : Option Remediation) → find key (drop a o).rem_for ≡ none
      dropped none = e
      dropped (some old) = ground (arith, e, find-erase (rem_key old) key a.rem_for)
  with_room_key a false key e = e

  see_at-Consistent :
      (a : Agent) (id : Bytes) (o : Option Remediation) (at : Time)
      → find id a.rems ≡ o
      → Consistent a
      → Consistent (see_at a id o at)
  unfolding see_at
  see_at-Consistent a id none at e c = c
  see_at-Consistent a id (some rem) at e c = record {
    linked = see-Linked a.rems a.rem_for id rem (see rem at) e refl c.linked;
    once =
        insert-OncePerId id (see rem at) a.rems
          (find-Keyed id rem a.rems (OncePerId-Keyed a.rems c.once) e) c.once;
    known = λ i r f. elim (Bool-cases (id =b i)) [
      | inl same ↦
          let (k, lt, is_new) = c.known id rem e in (k, lt, sym ((=b_iff id i).0 same) ∙ is_new)
      | inr other ↦ c.known i r (sym (insert_elsewhere id i (see rem at) a.rems other) ∙ f)
    ];
  }

  module _ (distinct : (i j : ℕ) → new_id i ≡ new_id j → i ≡ j) where
    unissued : (a : Agent) → Consistent a → find (new_id a.issued) a.rems ≡ none
    unissued a c = elim (Option-cases (find (new_id a.issued) a.rems)) [
      | inl e ↦ e
      | inr (rem, e) ↦
          let (k, lt, same) = c.known (new_id a.issued) rem e in
          absurd (omega (arith, lt, distinct a.issued k same))
    ]

    open_in-Consistent :
        (a : Agent) (r : Rule) (ev : AuditEvent) (c : Container)
        → find (r.id, c.id) a.rem_for ≡ none
        → Consistent a
        → Consistent (open_in new_id a r ev c)
    unfolding open_in opened
    open_in-Consistent a r ev c no_key s =
        let rem = opened new_id r ev c a.issued in
        record {
          linked = open-Linked a.rems a.rem_for rem (unissued a s) no_key s.linked;
          once = insert-OncePerId rem.id rem a.rems refl s.once;
          known = λ i q f. elim (Bool-cases (rem.id =b i)) [
            | inl same ↦ (a.issued, omega arith, sym ((=b_iff rem.id i).0 same))
            | inr other ↦
                let (k, lt, is_new) =
                  s.known i q (sym (insert_elsewhere rem.id i rem a.rems other) ∙ f) in
                (k, omega (arith, lt), is_new)
          ];
        }

    -- `recordLocked` keeps the two maps in step.
    pub record_at-Consistent :
        (a : Agent) (r : Rule) (ev : AuditEvent) (c : Container) (o : Option Bytes)
        → find (r.id, c.id) a.rem_for ≡ o
        → Consistent a
        → Consistent (record_at new_id a r ev c o)
    unfolding record_at
    record_at-Consistent a r ev c none e s =
        open_in-Consistent (with_room a) r ev c
          (with_room_key a (leb a.max_rems (length a.rems)) (r.id, c.id) e)
          (with_room-Consistent a (leb a.max_rems (length a.rems)) s)
    record_at-Consistent a r ev c (some id) e s =
        see_at-Consistent a id (find id a.rems) ev.time refl s
