-- ===== src/Lib.antt =====
-- The control plane of aegis-ebpf: the agent that takes audit events from eBPF sensors, rates them by
-- rules, keeps the recent ones, and proposes patches of Kubernetes manifests that harden the workloads.
--
-- Parts and files (paths from the repository's root):
--   Events   internal/events/events.go: the events (Types), `Validate` (Validate) and `UnmarshalJSON`
--            (Decode); Accepted, with Patterns, Flags, Payloads and Containers, describes the
--            accepted events with the patterns and the values written out.
--   Fixer    internal/fixer: Path is path.go (`ParsePath`, `Path.String`); Operation is `compile` of
--            fixer.go, Engine its `walk`, `edit` and `put`, Yaml the trees that they edit, Apply its
--            `Apply` and `inspect`, Render its `render` and `styleOf`; Rules is rules.go.
--   Agent    internal/agent/agent.go: State is `Agent` and `New`; Ring is `storeLocked`, `Events` and
--            `Event`; Remediations is `recordLocked` and `evictRemediationLocked`; Ingest is `Ingest`;
--            Listing is `Remediations`, `Remediation` and `Patch`; Ids is `newID`.
--   Http     internal/agent/http.go: Query is `parseListQuery`, Responses what each handler answers; the
--            handlers themselves are in Http.
--   Stream   internal/agent/stream.go: the hub with its channels, and the steps that its callers and its
--            loop take (Interleavings has the runs); Sessions is `streamEvents`.
--   K8s      internal/k8s/k8s.go: the index of pods, `PodCache`, and the client's requests.
--   Decoy    internal/decoy: the policy of `Responder` in decoy.go, Runs the interleavings of its calls;
--            Docker is docker.go, Docker/Deployment the deployer for Docker in decoy.go; Kubernetes is
--            k8s.go. Lifecycle is `Respond` and `Close` with a deployer behind them (`Deployer`), which
--            both deployers fill (Docker/Accounts, Kubernetes/Accounts).
--   Command  cmd/aegis-agent/main.go: `podEnricher`, which puts the pod cache behind the agent; Running is
--            `run` and `main`, with `NewResponder` of internal/decoy/decoy.go, up to the outcomes of what
--            they call.
--   Go       what the source uses of Go's standard library: numerals, `strings`, `path.Clean`, `net/url`,
--            `netip.ParseAddr` and the count of characters.
--   Base     shared names, lists on native numbers, results, and maps as association lists.
--   Tests    concrete inputs: the theorems applied to them, and runs of the model.
--
-- `Ingest` calls `Validate` on the batch, then the rules on each event; a match opens a remediation
-- with the rule's plan, whose operations the engine applies to a manifest.
--
-- The events that are high or worse go to the decoy responder, which does not hold its lock while it
-- deploys: its calls are steps that interleave in every order.
--
-- State. An agent is a record with the fields of the source's struct, and each call is a function from
-- an agent to an agent: the source holds its lock for the whole of a call's changes. A pointer to a
-- remediation is its ID. New IDs are a parameter, a sequence of byte strings; what needs them to be
-- different says so, and Agent/Ids tells when IDs of `newID` are. A Go map is an association list, and a theorem about a loop over a map holds for
-- each order of the list. Texts are lists of bytes.
--
-- The YAML library go.yaml.in/yaml/v3 is a parameter of the engine (Fixer.Yaml, the record `Yaml`), with
-- what the engine relies on as the hypotheses `Storable` of a value and `EncodesScalars` of the library. The engine's edits in place are
-- functions from a tree to a tree: a tree has no sharing, since an alias is a leaf that the engine does
-- not follow.
--
-- Fuel. `parse_path` has a round for each byte and one more, and each round reads a byte at least;
-- `parse_path_error` shows that this is enough. The loop of `netip.ParseAddr` over IPv6 groups has nine
-- rounds, since each fills two of sixteen bytes. All other loops are structural.
--
-- Integers. Indices and counts are natural numbers; those that Go reads from text are checked against
-- the greatest `int` as `strconv.Atoi` does. Counters that grow by one per call do not reach 2^63.
--
-- Requests. A handler is a function from an agent and a request to the agent after it, the response, and
-- the events that it sends on. A body is the bytes that arrive with the failure that ends them; the JSON
-- decoder of the body is a parameter, as is the media type that `mime` reads in a header. What the other
-- end answers is a parameter too: the Docker daemon is a state with the outcome of a request on it, and
-- the replies of the Kubernetes API server, lost ones included, are arguments. What a theorem relies on of
-- a daemon or a server stands in the records `Reliable` (Docker/Reliance) and `Answers`. A Docker container whose creation was
-- not answered, or whose removal was not confirmed, is lost there, and the accounts leave it out.
--
-- The hub's goroutine and its callers are steps that interleave in every order. A channel is its number,
-- with its buffer and whether it is closed in the hub's state; a send or a close that Go would end by a
-- panic is an error of the step.
--
-- Not modelled: the routing of net/http, the dashboard's files and the titles of problems; the handshake
-- of the WebSocket and its time limits; `InCluster`, the interval of `Run` and the headers of requests in
-- internal/k8s; the texts of errors; the parsing of flags in cmd; logging; the sensor in Rust, the dashboard
-- and the deployment files.
pub mod Base
pub mod Go
pub mod Fixer
pub mod Events
pub mod Agent
pub mod Http
pub mod Stream
pub mod K8s
pub mod Command
pub mod Decoy
pub mod Tests
