-- ===== src/Decoy/Policy.antt =====
-- What `admit` of internal/decoy/decoy.go lets through.
use aegis_ebpf.Base.Maps.{find, insert, bytes_key}
use aegis_ebpf.Base.{
  ◌+◌, ◌≤◌, ◌<◌, ◌≡◌, ◌≢◌, ◌⊎◌, inl, inr, refl, true, false, not, ◌&&◌, Option, none, some, arith,
  length, leb, ltb, ◌==◌, Bool-cases,
}
use aegis_ebpf.Decoy.{Trigger, Decoy, Responder, no_decoy, is_tracked, admit}
use aegis_ebpf.Events.Types.{Time, zero_time}

-- The container has no decoy, the cap leaves room, and the last deployment is long enough ago.
pub record IsAdmitted (now : Time) (r : Responder) (t : Trigger) : Type 0 where
  pub untracked : find t.container_id r.by_container ≡ none
  pub room : length r.by_container < r.max_decoys
  pub rested : (r.last_deploy ≡ zero_time) ⊎ (r.last_deploy + r.min_interval ≤ now)

-- The responder with a slot reserved.
abbrev pub reserved : Time → Responder → Trigger → Responder
reserved now r t = record r {
  last_deploy = now;
  by_container = insert t.container_id no_decoy r.by_container;
}

untracked_is : (o : Option Decoy) → is_tracked o ≡ false → o ≡ none
untracked_is none e = refl
untracked_is (some d) e = absurd (cc)

rested_is :
    (last min now : Time)
    → (not (last == zero_time) && ltb now (last + min)) ≡ false
    → (last ≡ zero_time) ⊎ (last + min ≤ now)
rested_is last min now e = ground (arith, e)

tracked_some : (o : Option Decoy) → is_tracked o ≡ true → o ≢ none
tracked_some none e h = cc
tracked_some (some d) e h = cc

not_rested :
    (last min now : Time)
    → (not (last == zero_time) && ltb now (last + min)) ≡ true
    → ¬ ((last ≡ zero_time) ⊎ (last + min ≤ now))
not_rested last min now e (inl h) = ground (arith, e, h)
not_rested last min now e (inr h) = ground (arith, e, h)

-- `admit` lets a trigger through exactly when its container has no decoy, the cap leaves room and the
-- last deployment is long enough ago: then it reserves a slot, and else it changes nothing.
pub admit_lem :
    (now : Time) (r : Responder) (t : Trigger)
    → (IsAdmitted now r t × (admit now r t ≡ (true, reserved now r t)))
      ⊎ ((¬ IsAdmitted now r t) × (admit now r t ≡ (false, r)))
unfolding admit
admit_lem now r t = elim (Bool-cases (is_tracked (find t.container_id r.by_container))) [
  | inl e ↦ inr ((λ a. tracked_some (find t.container_id r.by_container) e a.untracked), rw e)
  | inr e ↦ elim (Bool-cases (leb r.max_decoys (length r.by_container))) [
    | inl f ↦ inr ((λ a. ground (arith, f, a.room)), rw (e, f))
    | inr f ↦
        elim (Bool-cases
          (not (r.last_deploy == zero_time) && ltb now (r.last_deploy + r.min_interval))) [
            | inl g ↦
                inr ((λ a. not_rested r.last_deploy r.min_interval now g a.rested), rw (e, f, g))
            | inr g ↦ inl (
              record {
                untracked = untracked_is (find t.container_id r.by_container) e;
                room = ground (arith, f);
                rested = rested_is r.last_deploy r.min_interval now g;
              },
              rw (e, f, g),
            )
          ]
  ]
]
