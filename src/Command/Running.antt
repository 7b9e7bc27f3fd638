-- ===== src/Command/Running.antt =====
-- `run` and `main` of cmd/aegis-agent/main.go, with `NewResponder` of internal/decoy/decoy.go, up to the
-- outcomes of their calls to flag, log/slog, net and net/http and of the connections to Kubernetes and
-- Docker, which are arguments.
use aegis_ebpf.Agent.State.{Config, Agent, new}
use aegis_ebpf.Base.{
  ℕ, ℤ, Bool, List, [], ◌∷◌, ◌++◌, Option, none, some, Bytes, codes, Result, ok, err, ◌=b◌,
  if◌then◌else◌,
}
use aegis_ebpf.Command.{pod_enricher}
use aegis_ebpf.Decoy.Kubernetes.{image_or_default}
use aegis_ebpf.K8s.{PodCache}

pub record Flags : Type 0 where
  pub listen : Bytes
  pub max_events : ℤ
  pub max_remediations : ℤ
  pub log_level : Bytes
  pub enrich_k8s : Bool
  pub deploy_decoy : Bool
  pub decoy_image : Bytes
  pub show_version : Bool

-- `help` is `flag.ErrHelp`.
pub data FlagError : Type 0 where
  help : FlagError
  bad_flag : Bytes → FlagError

-- The deployer behind a responder, with the image of its decoys.
pub data Backend : Type 0 where
  docker_socket : Bytes → Bytes → Backend
  kubernetes : Bytes → Backend

-- What ends the `select`: `Serve` returns an error, or a signal arrives and `Shutdown` returns.
pub data Ending : Type 0 where
  serve_returned : Bytes → Ending
  signalled : Option Bytes → Ending

-- The outcomes: a text is an error, `none` is success. `ping` is asked of a socket.
pub record World : Type 0 where
  pub flags : Result FlagError Flags
  pub unmarshal_level : Bytes → Option Bytes
  pub in_cluster : Option Bytes
  pub prime : Option Bytes
  pub cache : PodCache
  pub ping : Bytes → Option Bytes
  pub bind : Bytes → Option Bytes
  pub ending : Ending

pub data RunError : Type 0 where
  not_parsed : FlagError → RunError
  bad_level no_cluster no_responder not_listening not_serving not_shut_down : Bytes → RunError

pub data Effect : Type 0 where
  print_version run_cache shut_down close_responder : Effect
  prime_cache : Option Bytes → Effect
  open_responder : Backend → Effect
  serve : Agent → Effect

-- What a part of `run` does, and the error that it returns.
abbrev pub Exit : Type 0
Exit = List Effect × Option RunError

abbrev pub after : List Effect → Exit → Exit
after es (fs, e) = (es ++ fs, e)

-- `defer responder.Close()`.
abbrev pub then_close : Exit → Exit
then_close (es, e) = (es ++ close_responder ∷ [], e)

-- `DefaultSocket`.
abbrev pub default_socket : Bytes
default_socket = codes "/var/run/docker.sock"

abbrev pub reached : Backend → Option Bytes → Result Bytes Backend
reached b none = ok b
reached b (some e) = err e

-- `NewResponder` without a deployer of its own, and `newDockerClient`.
unfoldable pub docker_responder : (Bytes → Option Bytes) → Bytes → Bytes → Result Bytes Backend
docker_responder ping socket image =
    let at = if socket =b [] then default_socket else socket in
    reached (docker_socket at (image_or_default image)) (ping at)

-- `buildResponder`, with a client for Kubernetes or without one.
unfoldable pub build_responder : World → Bool → Bytes → Result Bytes Backend
unfolding docker_responder
build_responder w kube image =
    if kube then ok (kubernetes (image_or_default image)) else docker_responder w.ping [] image

-- The fields of `agent.Config` that the agent's state depends on.
abbrev pub config_of : World → Flags → Config
config_of w f = record {
  max_events = f.max_events;
  max_remediations = f.max_remediations;
  rules = none;
  enricher = if f.enrich_k8s then some (pod_enricher w.cache) else none;
  responds = f.deploy_decoy;
}

abbrev pub shutdown_error : Option Bytes → Option RunError
shutdown_error none = none
shutdown_error (some e) = some (not_shut_down e)

unfoldable pub ended : Ending → Exit
ended (serve_returned e) = ([], some (not_serving e))
ended (signalled o) = (shut_down ∷ [], shutdown_error o)

unfoldable pub bound : World → Flags → Option Bytes → Exit
unfolding ended
bound w f (some e) = ([], some (not_listening e))
bound w f none = after (serve (new (config_of w f)) ∷ []) (ended w.ending)

unfoldable pub built : World → Flags → Result Bytes Backend → Exit
unfolding bound
built w f (err e) = ([], some (no_responder e))
built w f (ok b) = then_close (after (open_responder b ∷ []) (bound w f (w.bind f.listen)))

unfoldable pub decoyed : World → Flags → Exit
unfolding built build_responder
decoyed w f =
    if f.deploy_decoy
    then built w f (build_responder w f.enrich_k8s f.decoy_image)
    else bound w f (w.bind f.listen)

-- `startEnricher`: a cache that is not primed is no error.
abbrev pub start_enricher : Option Bytes → List Effect
start_enricher o = prime_cache o ∷ run_cache ∷ []

unfoldable pub connected : World → Flags → Option Bytes → Exit
unfolding decoyed
connected w f (some e) = ([], some (no_cluster e))
connected w f none = after (start_enricher w.prime) (decoyed w f)

unfoldable pub leveled : World → Flags → Option Bytes → Exit
unfolding connected decoyed
leveled w f (some e) = ([], some (bad_level e))
leveled w f none = if f.enrich_k8s then connected w f w.in_cluster else decoyed w f

unfoldable pub parsed : World → Result FlagError Flags → Exit
unfolding leveled
parsed w (err e) = ([], some (not_parsed e))
parsed w (ok f) =
    if f.show_version
    then (print_version ∷ [], none)
    else leveled w f (w.unmarshal_level f.log_level)

-- `run`.
unfoldable pub run : World → Exit
unfolding parsed
run w = parsed w w.flags

-- `main`: the status that the process exits with.
unfoldable pub exit_code : Option RunError → ℕ
exit_code none = 0
exit_code (some (not_parsed help)) = 0
exit_code (some _) = 1
