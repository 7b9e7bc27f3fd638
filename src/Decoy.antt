-- ===== src/Decoy.antt =====
-- internal/decoy/decoy.go: the policy of a `Responder`. The clock is an argument; a deployment, by
-- Docker or Kubernetes, is its outcome.
pub mod Runs
pub mod Policy
pub mod Docker
pub mod Lifecycle
pub mod Kubernetes
use aegis_ebpf.Base.Maps.{find, insert, erase, bytes_key}
use aegis_ebpf.Base.{
  ℕ, ℤ, zero, suc, pos, negsuc, ◌+◌, Bool, true, false, not, ◌&&◌, List, [], ◌∷◌, Option, none,
  some, Bytes, codes, length, leb, ltb, ◌==◌, ◌=b◌, if◌then◌else◌,
}
use aegis_ebpf.Events.Types.{Severity, Time, zero_time, Pod, Container, AuditEvent}

pub record Trigger : Type 0 where
  pub container_id : Bytes
  pub severity : Severity
  pub namespace : Bytes
  pub pod_name : Bytes

pub record Decoy : Type 0 where
  pub id : Bytes
  pub name : Bytes
  pub network : Bytes
  pub namespace : Bytes

abbrev pub no_decoy : Decoy
no_decoy = record { id = []; name = []; network = []; namespace = [] }

-- Durations are in nanoseconds, like times.
pub record DecoyConfig : Type 0 where
  pub max_decoys : ℤ
  pub min_interval : ℤ
  pub remove_on_close : Option Bool

pub record Responder : Type 0 where
  pub max_decoys : ℕ
  pub min_interval : ℕ
  pub remove_on_close : Bool
  pub by_container : List (Bytes × Decoy)
  pub last_deploy : Time

abbrev pub positive_or : ℕ → ℤ → ℕ
positive_or d (pos zero) = d
positive_or d (pos (suc n)) = suc n
positive_or d (negsuc _) = d

abbrev pub true_or : Option Bool → Bool
true_or none = true
true_or (some b) = b

-- `newResponder`.
unfoldable pub new_responder : DecoyConfig → Responder
new_responder cfg = record {
  max_decoys = positive_or 16 cfg.max_decoys;
  min_interval = positive_or 5_000_000_000 cfg.min_interval;
  remove_on_close = true_or cfg.remove_on_close;
  by_container = [];
  last_deploy = zero_time;
}

abbrev pub pod_namespace : Option Pod → Bytes
pod_namespace none = []
pod_namespace (some p) = p.namespace

abbrev pub pod_name_of : Option Pod → Bytes
pod_name_of none = []
pod_name_of (some p) = p.name

trigger_in : Severity → Option Container → Option Trigger
trigger_in severity none = none
trigger_in severity (some c) =
    if c.id =b []
    then none
    else some (record {
      container_id = c.id;
      severity = severity;
      namespace = pod_namespace c.pod;
      pod_name = pod_name_of c.pod;
    })

-- The start of `Respond`: nothing to do without a container.
unfoldable pub trigger_of : AuditEvent → Option Trigger
unfolding trigger_in
trigger_of ev = trigger_in ev.severity ev.container

abbrev pub is_tracked : Option Decoy → Bool
is_tracked none = false
is_tracked (some _) = true

-- `admit` at the time `now`; `time.Since(last) < min` is `now < last + min`.
unfoldable pub admit : Time → Responder → Trigger → Bool × Responder
admit now r t =
    if is_tracked (find t.container_id r.by_container)
    then (false, r)
    else if leb r.max_decoys (length r.by_container)
    then (false, r)
    else if not (r.last_deploy == zero_time) && ltb now (r.last_deploy + r.min_interval)
    then (false, r)
    else (
      true,
      record r { last_deploy = now; by_container = insert t.container_id no_decoy r.by_container },
    )

unfoldable pub confirm : Bytes → Decoy → Responder → Responder
confirm id d r = record r { by_container = insert id d r.by_container }

unfoldable pub release : Bytes → Responder → Responder
release id r = record r { by_container = erase id r.by_container }

-- The end of `Respond`, on the outcome of the deployment.
unfoldable pub finish : Bytes → Option Decoy → Responder → Responder
finish id none r = release id r
finish id (some d) r = confirm id d r

-- `Deployed`, in the order of the map.
unfoldable pub deployed : List (Bytes × Decoy) → List Decoy
deployed [] = []
deployed ((_, d) ∷ m) = let rest = deployed m in if d.id =b [] then rest else d ∷ rest

-- The decoys that `Close` asks the deployer to remove.
unfoldable pub removed_on_close : Responder → List Decoy
unfolding deployed
removed_on_close r = if not r.remove_on_close then [] else deployed r.by_container
