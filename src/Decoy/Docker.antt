-- ===== src/Decoy/Docker.antt =====
-- internal/decoy/docker.go, and the deployer for Docker of internal/decoy/decoy.go. The daemon is a
-- parameter: a state, and the outcome of a request on it. What `encoding/json` and `strings.TrimSpace` read
-- in a reply comes with the reply.
pub mod Deployment
pub mod Networks
pub mod Reliance
pub mod Compensation
pub mod Accounts
use aegis_ebpf.Base.{
  ℕ, ◌+◌, ◌*◌, ◌^◌, Bool, true, false, not, ◌&&◌, ◌||◌, List, [], ◌∷◌, ◌++◌, Option, none, some,
  Bytes, codes, Result, ok, err, length, take, leb, ltb, ◌==◌, ◌=b◌, if◌then◌else◌,
}
use aegis_ebpf.Decoy.{Trigger, Decoy}
use aegis_ebpf.Go.Text.{strip_prefix, cut}

-- Labels in the order of the literal; `cmd` is the script that `sh -c` runs.
pub record HostConfig : Type 0 where
  pub network_mode : Bytes
  pub memory : ℕ
  pub pids_limit : ℕ
  pub cap_drop : List Bytes
  pub security_opt : List Bytes

pub record CreateRequest : Type 0 where
  pub image : Bytes
  pub cmd : List Bytes
  pub labels : List (Bytes × Bytes)
  pub host_config : HostConfig

-- The requests to the daemon, with what their paths, queries and bodies carry.
pub data Call : Type 0 where
  inspect_container : Bytes → Call
  create_container : Bytes → CreateRequest → Call
  create_image : Bytes → Bytes → Call
  start_container : Bytes → Call
  remove_container : Bytes → Call

-- A reply: its status, the error message that `errorFrom` reads in its body, the failure that cuts its body
-- short, and what decodes of it, the networks of an inspection or the ID of a container.
pub record Reply : Type 0 where
  pub status : ℕ
  pub message : Bytes
  pub failure : Option Bytes
  pub networks : Option (List Bytes)
  pub id : Option Bytes

pub data DockerError : Type 0 where
  not_sent : Bytes → DockerError
  docker_error : ℕ → Bytes → DockerError
  bad_body : DockerError

pub record Daemon : Type 1 where
  pub State : Type 0
  pub do_call : Call → State → Result Bytes Reply × State

abbrev pub is_2xx : ℕ → Bool
is_2xx status = leb 200 status && ltb status 300

-- `errorFrom`; `none` is no error.
abbrev pub error_from : Reply → Option DockerError
error_from r = if is_2xx r.status then none else some (docker_error r.status r.message)

-- A request that only has to succeed.
abbrev pub no_error : Result Bytes Reply → Option DockerError
no_error (err why) = some (not_sent why)
no_error (ok r) = error_from r

abbrev pub or_failure : Option DockerError → Option Bytes → Option DockerError
or_failure (some e) failure = some e
or_failure none none = none
or_failure none (some why) = some (not_sent why)

-- `pull` reads the body to its end.
abbrev pub drained : Result Bytes Reply → Option DockerError
drained (err why) = some (not_sent why)
drained (ok r) = or_failure (error_from r) r.failure

abbrev pub value_of : {A : Type 0} → Option DockerError → Option A → Result DockerError A
value_of (some e) v = err e
value_of none none = err bad_body
value_of none (some v) = ok v

abbrev pub networks_in : Result Bytes Reply → Result DockerError (List Bytes)
networks_in (err why) = err (not_sent why)
networks_in (ok r) = value_of (error_from r) r.networks

abbrev pub id_in : Result Bytes Reply → Result DockerError Bytes
id_in (err why) = err (not_sent why)
id_in (ok r) = value_of (error_from r) r.id

-- `strings.ToLower` on ASCII text.
abbrev pub lower : ℕ → ℕ
lower c = if leb b'A' c && leb c b'Z' then c + 32 else c

unfoldable pub to_lower : Bytes → Bytes
to_lower [] = []
to_lower (c ∷ s) = lower c ∷ to_lower s

abbrev pub is_some : {A : Type 0} → Option A → Bool
is_some none = false
is_some (some _) = true

-- `isNoSuchImage`.
unfoldable pub is_no_such_image : Result DockerError Bytes → Bool
is_no_such_image (err (docker_error status message)) =
    status == 404 && is_some (cut (codes "no such image") (to_lower message))
is_no_such_image _ = false

-- `strings.LastIndexByte`: what stands before and after the last such byte.
unfoldable pub cut_last : ℕ → Bytes → Option (Bytes × Bytes)
cut_last b [] = none
cut_last b (c ∷ s) = elim (cut_last b s) [
  | some (before, after) ↦ some (c ∷ before, after)
  | none ↦ if c == b then some ([], s) else none
]

unfoldable pub has_byte : ℕ → Bytes → Bool
has_byte b [] = false
has_byte b (c ∷ s) = c == b || has_byte b s

split_tag : Bytes → Option (Bytes × Bytes) → Bytes × Bytes
split_tag image none = (image, codes "latest")
split_tag image (some (name, tag)) =
    if not (has_byte b'/' tag) then (name, tag) else (image, codes "latest")

-- `splitImage`.
unfoldable pub split_image : Bytes → Bytes × Bytes
unfolding split_tag
split_image image =
    if has_byte b'@' image then (image, codes "latest") else split_tag image (cut_last b':' image)

module _ (d : Daemon) where
  open d use {State, do_call}

  -- `inspect`, `createOnce`, `pull`, `start` and `remove`.
  abbrev pub inspect : Bytes → State → Result DockerError (List Bytes) × State
  inspect id s = let (r, s') = do_call (inspect_container id) s in (networks_in r, s')

  abbrev pub create_once : Bytes → CreateRequest → State → Result DockerError Bytes × State
  create_once name req s = let (r, s') = do_call (create_container name req) s in (id_in r, s')

  abbrev pub pull : Bytes → State → Option DockerError × State
  pull image s =
      let (name, tag) = split_image image in
      let (r, s') = do_call (create_image name tag) s in (drained r, s')

  abbrev pub start : Bytes → State → Option DockerError × State
  start id s = let (r, s') = do_call (start_container id) s in (no_error r, s')

  abbrev pub removed : Result Bytes Reply → Option DockerError
  removed (err why) = some (not_sent why)
  removed (ok r) = if r.status == 404 then none else error_from r

  unfoldable pub remove : Bytes → State → Option DockerError × State
  remove id s = let (r, s') = do_call (remove_container id) s in (removed r, s')

  after_pull : Bytes → CreateRequest → Option DockerError × State → Result DockerError Bytes × State
  after_pull name req (some e, s) = (err e, s)
  after_pull name req (none, s) = create_once name req s

  -- `create`.
  unfoldable pub create : Bytes → CreateRequest → State → Result DockerError Bytes × State
  unfolding after_pull
  create name req s =
      let (first, s') = create_once name req s in
      if is_no_such_image first then after_pull name req (pull req.image s') else (first, s')
