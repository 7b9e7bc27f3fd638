-- ===== src/Tests/Commands.antt =====
-- A run of cmd/aegis-agent/main.go with decoys through Docker, stopped by a signal; and two IDs.
use aegis_ebpf.Agent.Ids.Distinct.{SameBits, id_at_lem}
use aegis_ebpf.Agent.Ids.{id_at}
use aegis_ebpf.Agent.Listing.{bytes_before}
use aegis_ebpf.Base.{
  ℕ, ◌≡◌, ◌⊎◌, ◌↔◌, ◌<◌, true, false, none, ok, err, Bytes, codes, pos, replicate, arith, All,
}
use aegis_ebpf.Command.Lifecycle.{closes, run-closes}
use aegis_ebpf.Command.Running.{Flags, World, help, signalled, run, exit_code}
use aegis_ebpf.Command.Status.{ServesWell, exit_code-run_iff}
use aegis_ebpf.K8s.{new_pod_cache}

abbrev decoy_flags : Flags
decoy_flags = record {
  listen = codes "127.0.0.1:8080";
  max_events = pos 10000;
  max_remediations = pos 10000;
  log_level = codes "info";
  enrich_k8s = false;
  deploy_decoy = true;
  decoy_image = codes "alpine:3.20";
  show_version = false;
}

abbrev calm : World
calm = record {
  flags = ok decoy_flags;
  unmarshal_level = λ s. none;
  in_cluster = none;
  prime = none;
  cache = new_pod_cache;
  ping = λ s. none;
  bind = λ s. none;
  ending = signalled none;
}

run-closes_example : closes false (run calm).0 ≡ true
run-closes_example = run-closes calm

exit_code-run_iff_example : (exit_code (run calm).1 ≡ 0) ↔ (
    (calm.flags ≡ err help)
    ⊎ ((f : Flags) × (calm.flags ≡ ok f) × ((f.show_version ≡ true) ⊎ ServesWell calm f)))
exit_code-run_iff_example = exit_code-run_iff calm

abbrev random : Bytes
random = replicate 10 0xab

random-AreBytes : All (λ b. b < 256) random
random-AreBytes = ground arith

id_at_lem_example :
    (5 < 6 → bytes_before (id_at 5 random) (id_at 6 random) ≡ true)
    × ((id_at 5 random ≡ id_at 6 random) ↔ ((◌≡◌ {A = ℕ} 5 6) × SameBits random random))
id_at_lem_example =
    id_at_lem 5 6 random random (omega arith) (omega arith) random-AreBytes random-AreBytes
