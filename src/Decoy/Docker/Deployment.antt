-- ===== src/Decoy/Docker/Deployment.antt =====
-- internal/decoy/decoy.go: the deployer for Docker.
use aegis_ebpf.Base.{
  ℕ, ◌*◌, ◌^◌, not, ◌&&◌, ◌||◌, List, [], ◌∷◌, ◌++◌, Option, none, some, Bytes, codes, Result, ok,
  err, length, take, ltb, ◌=b◌, if◌then◌else◌,
}
use aegis_ebpf.Decoy.Docker.{
  CreateRequest, Daemon, DockerError, inspect, create, start, remove, to_lower,
}
use aegis_ebpf.Decoy.{Trigger, Decoy}
use aegis_ebpf.Go.Decimal.{decimal}

abbrev pub decoy_port : ℕ
decoy_port = 2222

abbrev pub label : Bytes
label = codes "aegis.decoy"

unfoldable pub listener_script : Bytes
listener_script =
    codes "echo \"aegis decoy listening on :"
    ++ (decimal decoy_port
        ++ (codes "\"; while true; do printf 'SSH-2.0-OpenSSH_9.6\\r\\n' | nc -l -p "
            ++ (decimal decoy_port
                ++ codes
                    " -w 10 -v 2>&1; echo \"$(date -u +%Y-%m-%dT%H:%M:%SZ) decoy session ended\"; done")))

-- The loop of `pickNetwork`, with the best name so far.
unfoldable pub pick_from : Bytes → List Bytes → Bytes
pick_from best [] = best
pick_from best (name ∷ names) =
    pick_from
      (if name =b codes "host" || name =b codes "none"
        then best
        else if best =b [] || (best =b codes "bridge" && not (name =b codes "bridge"))
        then name
        else best)
      names

-- `pickNetwork`.
unfoldable pub pick_network : List Bytes → Bytes
pick_network names = pick_from [] names

-- `decoyName`.
unfoldable pub decoy_name : Bytes → Bytes
decoy_name container_id =
    codes "aegis-decoy-"
    ++ to_lower (if ltb 12 (length container_id) then take 12 container_id else container_id)

pub data DeployError : Type 0 where
  inspecting : DockerError → DeployError
  no_network : DeployError
  creating : DockerError → DeployError
  starting : DockerError → DeployError

abbrev pub decoy_request : Bytes → Trigger → Bytes → CreateRequest
decoy_request image t network = record {
  image = image;
  cmd = codes "sh" ∷ codes "-c" ∷ listener_script ∷ [];
  labels = (label, codes "true") ∷ (codes "aegis.offending-container", t.container_id) ∷ [];
  host_config = record {
    network_mode = network;
    memory = 64 * 2 ^ 20;
    pids_limit = 64;
    cap_drop = codes "ALL" ∷ [];
    security_opt = codes "no-new-privileges" ∷ [];
  };
}

module _ (d : Daemon) (image : Bytes) where
  open d use {State}

  -- `Deploy`, from the start of the container on.
  unfoldable pub started :
      Bytes → Bytes → Bytes → Option DockerError × State → Result DeployError Decoy × State
  started id name network (some e, s) = let (_, s') = remove d id s in (err (starting e), s')
  started id name network (none, s) =
      (ok (record { id = id; name = name; network = network; namespace = [] }), s)

  unfoldable pub created :
      Bytes → Bytes → Result DockerError Bytes × State → Result DeployError Decoy × State
  created name network (err e, s) = (err (creating e), s)
  created name network (ok id, s) = started id name network (start d id s)

  unfoldable pub inspected :
      Trigger → Result DockerError (List Bytes) × State → Result DeployError Decoy × State
  inspected t (err e, s) = (err (inspecting e), s)
  inspected t (ok networks, s) =
      let network = pick_network networks in
      let name = decoy_name t.container_id in
      if network =b []
      then (err no_network, s)
      else created name network (create d name (decoy_request image t network) s)

  -- `Deploy`.
  unfoldable pub deploy : Trigger → State → Result DeployError Decoy × State
  unfolding inspected created started
  deploy t s = inspected t (inspect d t.container_id s)
