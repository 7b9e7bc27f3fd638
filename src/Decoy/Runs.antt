-- ===== src/Decoy/Runs.antt =====
-- Concurrent calls of `Respond` of internal/decoy/decoy.go: each is admitted or not in one step, and
-- deploys without the lock, so that its end comes any number of steps later.
use mathlib.Core.Path.{subst}
use aegis_ebpf.Base.Maps.{
  find, insert, bytes_key, insert_elsewhere, insert_self, find-erase, length-insert-le,
  length-insert_found, length-erase-le,
}
use aegis_ebpf.Base.{
  ℕ, ◌+◌, ◌≤◌, ◌≡◌, ◌≢◌, ◌⊎◌, inl, inr, refl, sym, ◌∙◌, ap, Bool, true, false, not, List, [], ◌∷◌,
  Option, none, some, Bytes, arith, length, ◌=b◌, =b_iff, Bool-cases, if◌then◌else◌, filter,
}
use aegis_ebpf.Decoy.Policy.{IsAdmitted, reserved, admit_lem}
use aegis_ebpf.Decoy.{
  Trigger, Decoy, DecoyConfig, Responder, no_decoy, new_responder, admit, confirm, release, finish,
}
use aegis_ebpf.Events.Types.{Time, zero_time}
use aegis_ebpf.Go.Text.{contains}

-- The deployments in flight but that for one container.
abbrev pub without : Bytes → List Bytes → List Bytes
without id ids = filter (λ other. not (id =b other)) ids

abbrev pub when_admitted {ℓ} : {A : Type ℓ} → Bool → A → List A → List A
when_admitted ok x xs = if ok then x ∷ xs else xs

-- A responder after any interleaving of calls, with the containers whose deployment is in flight and
-- the times at which calls were admitted, newest first. The clock never shows the zero time.
pub data Run : Responder → List Bytes → List Time → Type 0 where
  started : (cfg : DecoyConfig) → Run (new_responder cfg) [] []
  asked :
      (now : Time) (r : Responder) (t : Trigger) (ids : List Bytes) (log : List Time)
      → now ≢ zero_time
      → Run r ids log
      → Run
          (admit now r t).1
          (when_admitted (admit now r t).0 t.container_id ids)
          (when_admitted (admit now r t).0 now log)
  ended :
      (id : Bytes) (outcome : Option Decoy) (r : Responder) (ids : List Bytes) (log : List Time)
      → contains ids id ≡ true
      → Run r ids log
      → Run (finish id outcome r) (without id ids) log

-- No container twice.
abbrev pub AllDifferent : List Bytes → Type 0
AllDifferent [] = Unit
AllDifferent (id ∷ ids) = (contains ids id ≡ false) × AllDifferent ids

-- Each time is at least `min` after the one before.
abbrev pub Spaced : ℕ → List Time → Type 0
Spaced min [] = Unit
Spaced min (t ∷ []) = Unit
Spaced min (t ∷ s ∷ log) = (s + min ≤ t) × Spaced min (s ∷ log)

abbrev LastIs : Time → List Time → Type 0
LastIs last [] = last ≡ zero_time
LastIs last (t ∷ log) = (last ≡ t) × (t ≢ zero_time)

record Holds (r : Responder) (ids : List Bytes) (log : List Time) : Type 0 where
  bound : length r.by_container ≤ r.max_decoys
  held : (id : Bytes) → contains ids id ≡ true → (d : Decoy) × (find id r.by_container ≡ some d)
  different : AllDifferent ids
  last : LastIs r.last_deploy log
  spaced : Spaced r.min_interval log

started-Holds : (cfg : DecoyConfig) → Holds (new_responder cfg) [] []
unfolding new_responder contains
started-Holds cfg = record {
  bound = omega arith;
  held = λ id h. absurd (cc);
  different = tt;
  last = refl;
  spaced = tt;
}

Spaced-next :
    (last min now : Time) (log : List Time)
    → LastIs last log
    → (last ≡ zero_time) ⊎ (last + min ≤ now)
    → Spaced min log
    → Spaced min (now ∷ log)
Spaced-next last min now [] l rest s = tt
Spaced-next last min now (t ∷ log) (same, set) (inl z) s = absurd (set (sym same ∙ z))
Spaced-next last min now (t ∷ log) (same, set) (inr le) s = (omega (arith, le, same), s)

reserved-Holds :
    (now : Time) (r : Responder) (t : Trigger) (ids : List Bytes) (log : List Time)
    → now ≢ zero_time
    → IsAdmitted now r t
    → Holds r ids log
    → Holds (reserved now r t) (t.container_id ∷ ids) (now ∷ log)
unfolding contains
reserved-Holds now r t ids log set a h = record {
  bound = omega (arith, a.room, length-insert-le t.container_id no_decoy r.by_container);
  held = λ id c. elim (Bool-cases (t.container_id =b id)) [
    | inl same ↦ (
      no_decoy,
      subst (λ k. find k (insert t.container_id no_decoy r.by_container) ≡ some no_decoy)
          ((=b_iff t.container_id id).0 same) (insert_self t.container_id no_decoy r.by_container),
    )
    | inr other ↦
        let (d, e) = h.held id (ground (arith, c, other)) in
        (d, insert_elsewhere t.container_id id no_decoy r.by_container other ∙ e)
  ];
  different = (fresh (Bool-cases (contains ids t.container_id)), h.different);
  last = (refl, set);
  spaced = Spaced-next r.last_deploy r.min_interval now log h.last a.rested h.spaced;
}
  where
    fresh :
        (contains ids t.container_id ≡ true) ⊎ (contains ids t.container_id ≡ false)
        → contains ids t.container_id ≡ false
    fresh (inr e) = e
    fresh (inl e) = let (d, f) = h.held t.container_id e in absurd (let u = a.untracked in cc)

asked-Holds :
    (now : Time) (r : Responder) (t : Trigger) (ids : List Bytes) (log : List Time)
    → now ≢ zero_time
    → Holds r ids log
    → Holds
        (admit now r t).1
        (when_admitted (admit now r t).0 t.container_id ids)
        (when_admitted (admit now r t).0 now log)
asked-Holds now r t ids log set h = elim (admit_lem now r t) [
  | inl (a, e) ↦ rw e (reserved-Holds now r t ids log set a h)
  | inr (_, e) ↦ rw e h
]

pub contains-without :
    (ids : List Bytes) (id other : Bytes)
    → contains (without id ids) other ≡ true
    → (contains ids other ≡ true) × ((id =b other) ≡ false)
unfolding contains
contains-without [] id other h = absurd (cc)
contains-without (x ∷ ids) id other h =
    ground (arith, h, contains-without ids id other, =b_iff x other, =b_iff id x, =b_iff id other)

without-AllDifferent :
    (ids : List Bytes) (id : Bytes) → AllDifferent ids → AllDifferent (without id ids)
without-AllDifferent [] id d = tt
without-AllDifferent (x ∷ ids) id (new, d) = elim (Bool-cases (id =b x)) [
  | inl e ↦ rw e (without-AllDifferent ids id d)
  | inr e ↦ rw e (still (Bool-cases (contains (without id ids) x)), without-AllDifferent ids id d)
]
  where
    still :
        (contains (without id ids) x ≡ true) ⊎ (contains (without id ids) x ≡ false)
        → contains (without id ids) x ≡ false
    still (inr e) = e
    still (inl e) = let (c, _) = contains-without ids id x e in absurd (cc)

confirmed-Holds :
    (id : Bytes) (d : Decoy) (r : Responder) (ids : List Bytes) (log : List Time)
    → contains ids id ≡ true
    → Holds r ids log
    → Holds (confirm id d r) (without id ids) log
unfolding confirm
confirmed-Holds id d r ids log c h = record {
  bound =
      let (u, e) = h.held id c in
      omega (arith, h.bound, length-insert_found id d r.by_container u e);
  held = λ other k.
      let (was, ne) = contains-without ids id other k in
      let (u, e) = h.held other was in (u, insert_elsewhere id other d r.by_container ne ∙ e);
  different = without-AllDifferent ids id h.different;
  last = h.last;
  spaced = h.spaced;
}

released-Holds :
    (id : Bytes) (r : Responder) (ids : List Bytes) (log : List Time)
    → Holds r ids log
    → Holds (release id r) (without id ids) log
unfolding release
released-Holds id r ids log h = record {
  bound = omega (arith, h.bound, length-erase-le id r.by_container);
  held = λ other k.
      let (was, ne) = contains-without ids id other k in
      let (u, e) = h.held other was in
      (
        u,
        find-erase id other r.by_container
            ∙ ap (λ b. if b then none else find other r.by_container) ne
            ∙ e,
      );
  different = without-AllDifferent ids id h.different;
  last = h.last;
  spaced = h.spaced;
}

Run-Holds : (r : Responder) (ids : List Bytes) (log : List Time) → Run r ids log → Holds r ids log
unfolding finish
Run-Holds _ _ _ (started cfg) = started-Holds cfg
Run-Holds _ _ _ (asked now r t ids log set run) =
    asked-Holds now r t ids log set (Run-Holds r ids log run)
Run-Holds _ _ _ (ended id none r ids log c run) =
    released-Holds id r ids log (Run-Holds r ids log run)
Run-Holds _ _ _ (ended id (some d) r ids log c run) =
    confirmed-Holds id d r ids log c (Run-Holds r ids log run)

-- Whatever the interleaving of the calls of `Respond`, the tracked decoys stay within the cap, and no
-- container has two deployments in flight.
pub Run-capped :
    (r : Responder) (ids : List Bytes) (log : List Time)
    → Run r ids log
    → (length r.by_container ≤ r.max_decoys) × AllDifferent ids
Run-capped r ids log run = let h = Run-Holds r ids log run in (h.bound, h.different)

-- Whatever the interleaving of the calls of `Respond`, two calls are admitted at times that are at
-- least the minimal interval apart, for a clock that does not show the zero time.
pub Run-Spaced :
    (r : Responder) (ids : List Bytes) (log : List Time) → Run r ids log → Spaced r.min_interval log
Run-Spaced r ids log run = (Run-Holds r ids log run).spaced
