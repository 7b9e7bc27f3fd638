-- ===== src/Decoy/Lifecycle.antt =====
-- internal/decoy/decoy.go: `Respond` and `Close` with the `Deployer` behind them, which has a state of its
-- own, the world that holds the decoys.
pub mod Steps
pub mod Tracked
pub mod Closing
use aegis_ebpf.Base.{
  ℕ, true, false, List, [], ◌∷◌, Option, none, some, Bytes, Result, ok, err, if◌then◌else◌,
}
use aegis_ebpf.Decoy.{Trigger, Decoy, Responder, trigger_of, admit, finish, removed_on_close}
use aegis_ebpf.Events.Types.{Time, AuditEvent}

-- `Deployer`; a removal returns its error, if any.
pub record Deployer : Type 1 where
  pub State : Type 0
  pub Error : Type 0
  pub RemoveError : Type 0
  pub deploy : Trigger → State → Result Error Decoy × State
  pub remove : Decoy → State → Option RemoveError × State

-- The decoy, if the deployment did not fail.
abbrev pub outcome_of : {E : Type 0} → Result E Decoy → Option Decoy
outcome_of (err e) = none
outcome_of (ok d) = some d

abbrev pub with_error : {E : Type 0} → Option E → List E → List E
with_error none es = es
with_error (some e) es = e ∷ es

module _ (d : Deployer) where
  open d use {State, RemoveError}

  -- `Respond` from the deployment on.
  unfoldable pub deploy_for : Trigger → Responder → State → Responder × State
  deploy_for t r s =
      let (result, s') = d.deploy t s in (finish t.container_id (outcome_of result) r, s')

  respond_to : Time → Option Trigger → Responder → State → Responder × State
  respond_to now none r s = (r, s)
  respond_to now (some t) r s =
      let (admitted, r') = admit now r t in if admitted then deploy_for t r' s else (r', s)

  -- `Respond`, where no other call comes between.
  unfoldable pub respond : Time → AuditEvent → Responder → State → Responder × State
  unfolding respond_to
  respond now ev r s = respond_to now (trigger_of ev) r s

  -- The loop of `Close`: the errors, and the state after it.
  unfoldable pub remove_all : List Decoy → State → List RemoveError × State
  remove_all [] s = ([], s)
  remove_all (dec ∷ decs) s =
      let (e, s') = d.remove dec s in let (es, s'') = remove_all decs s' in (with_error e es, s'')

  -- `Close`.
  unfoldable pub close : Responder → State → List RemoveError × State
  close r s = remove_all (removed_on_close r) s
