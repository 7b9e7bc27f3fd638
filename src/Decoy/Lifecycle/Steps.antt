-- ===== src/Decoy/Lifecycle/Steps.antt =====
-- Concurrent calls of `Respond` of internal/decoy/decoy.go with the deployer behind them.
use aegis_ebpf.Base.{
  ◌≡◌, inl, inr, refl, true, List, [], ◌∷◌, Option, none, some, Bytes, arith, =b_self, Bool-cases,
}
use aegis_ebpf.Decoy.Lifecycle.{Deployer, deploy_for, respond_to, respond}
use aegis_ebpf.Decoy.Runs.{without, when_admitted}
use aegis_ebpf.Decoy.{Trigger, DecoyConfig, Responder, new_responder, trigger_of, admit}
use aegis_ebpf.Events.Types.{Time, AuditEvent}
use aegis_ebpf.Go.Text.{contains}

alone : (id : Bytes) → contains (id ∷ []) id ≡ true
unfolding contains
alone id = ground (arith, =b_self id)

without_alone : (id : Bytes) → without id (id ∷ []) ≡ []
without_alone id = rw (=b_self id) refl

module _ (d : Deployer) where
  open d use {State}

  -- A responder and its deployer after any interleaving of calls of `Respond` from the state `start` on,
  -- with the containers whose deployment is in flight. A deployment takes place before its `Respond` ends.
  pub data Life (start : State) : Responder → List Bytes → State → Type 0 where
    begun : (cfg : DecoyConfig) → Life start (new_responder cfg) [] start
    asked :
        (now : Time) (r : Responder) (t : Trigger) (ids : List Bytes) (s : State)
        → Life start r ids s
        → Life start (admit now r t).1 (when_admitted (admit now r t).0 t.container_id ids) s
    ended :
        (t : Trigger) (r : Responder) (ids : List Bytes) (s : State)
        → contains ids t.container_id ≡ true
        → Life start r ids s
        → Life start (deploy_for d t r s).0 (without t.container_id ids) (deploy_for d t r s).1

  -- A `Respond` that no other call interrupts is one of these steps or two.
  respond-Life :
      (start : State) (now : Time) (ev : AuditEvent) (r : Responder) (s : State)
      → Life start r [] s
      → Life start (respond d now ev r s).0 [] (respond d now ev r s).1
  unfolding respond respond_to
  respond-Life start now ev r s l = by_trigger (trigger_of ev)
    where
      by_trigger :
          (t : Option Trigger) → Life start (respond_to d now t r s).0 [] (respond_to d now t r s).1
      by_trigger none = l
      by_trigger (some t) =
          let step = asked now r t [] s l in
          elim (Bool-cases (admit now r t).0) [
            | inr e ↦ let passed : Life start (admit now r t).1 [] s = rw e at step in rw e passed
            | inl e ↦
                let waiting : Life start (admit now r t).1 (t.container_id ∷ []) s = rw e at step in
                let done =
                  ended t (admit now r t).1 (t.container_id ∷ []) s (alone t.container_id)
                    waiting in
                rw e (rw (without_alone t.container_id) at done)
          ]
