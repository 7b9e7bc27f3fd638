-- ===== src/Decoy/Docker/Accounts.antt =====
-- The deployer for Docker of internal/decoy/decoy.go behind the responder.
use aegis_ebpf.Base.Maps.{pair_same}
use aegis_ebpf.Base.{
  ◌≡◌, ◌⊎◌, inl, inr, refl, Bool, true, false, not, ◌&&◌, ◌||◌, List, [], ◌∷◌, none, Bytes, Result,
  ok, ◌≤◌, ◌<◌, ◌==◌, if◌then◌else◌, err, arith, ◌=b◌, =b_iff,
}
use aegis_ebpf.Decoy.Docker.Compensation.{Leaves, deploy-Leaves}
use aegis_ebpf.Decoy.Docker.Reliance.{SaysGone, Reliable}
use aegis_ebpf.Decoy.Docker.Deployment.{DeployError, deploy}
use aegis_ebpf.Decoy.Docker.{Daemon, Reply, DockerError, error_from, removed, remove}
use aegis_ebpf.Decoy.Lifecycle.{Deployer, close}
use aegis_ebpf.Decoy.Lifecycle.Closing.{Accountable, close-Life}
use aegis_ebpf.Decoy.Lifecycle.Steps.{Life}
use aegis_ebpf.Decoy.Runs.{without}
use aegis_ebpf.Decoy.{Decoy, Responder}
use aegis_ebpf.Go.Text.{contains}

-- `dockerDeployer`.
abbrev pub docker_deployer : Daemon → Bytes → Deployer
docker_deployer d image = record {
  State = d.State;
  Error = DeployError;
  RemoveError = DockerError;
  deploy = deploy d image;
  remove = λ dec s. remove d dec.id s;
}

contains-without_lem :
    (id other : Bytes) (ids : List Bytes)
    → contains (without id ids) other ≡ (not (id =b other) && contains ids other)
unfolding contains
contains-without_lem id other [] = ground arith
contains-without_lem id other (x ∷ ids) =
    ground (arith, contains-without_lem id other ids, =b_iff x other, =b_iff id x, =b_iff id other)

-- A removal that returns no error has had a reply that says that the container is gone.
removed-SaysGone : (d : Daemon) (o : Result Bytes Reply) → removed d o ≡ none → SaysGone o
removed-SaysGone d (err why) e = absurd (cc)
removed-SaysGone d (ok rep) e = (rep, refl, by_status rep e)
  where
    by_status :
        (rep : Reply)
        → (if rep.status == 404 then none else error_from rep) ≡ none
        → ((200 ≤ rep.status) × (rep.status < 300)) ⊎ (rep.status ≡ 404)
    by_status rep e = ground (arith, e)

module _ (d : Daemon) (image : Bytes) (r : Reliable d) where
  open d use {State}

  -- The key of a Docker decoy is its ID; a container that is lost is left out.
  abbrev is_live : State → Bytes × Bytes → Bool
  is_live s (id, rest) =
      [] =b rest && (contains (r.containers s) id && not (contains (r.lost s) id))

  abbrev Outcome : State → Result DeployError Decoy × State → Type 0
  Outcome s p =
      ((e : DeployError) × (p.0 ≡ err e) × ((k : Bytes × Bytes) → is_live p.1 k ≡ is_live s k))
      ⊎ ((dec : Decoy) × (p.0 ≡ ok dec)
          × ((dec.id =b []) ≡ false)
          × (is_live s (dec.id, []) ≡ false)
          × ((k : Bytes × Bytes) → is_live p.1 k ≡ (pair_same (dec.id, []) k || is_live s k)))

  one_more :
      (id : Bytes) (s s' : State) (k : Bytes × Bytes)
      → contains (r.lost s) id ≡ false
      → r.containers s' ≡ id ∷ r.containers s
      → r.lost s' ≡ r.lost s
      → is_live s' k ≡ (pair_same (id, []) k || is_live s k)
  unfolding contains pair_same
  one_more id s s' (other, rest) fresh more same =
      rw (more, same) (ground (arith, fresh, =b_iff id other))

  one_less :
      (id : Bytes) (s s' : State) (k : Bytes × Bytes)
      → r.containers s' ≡ without id (r.containers s)
      → r.lost s' ≡ r.lost s
      → is_live s' k ≡ (not (pair_same (id, []) k) && is_live s k)
  unfolding pair_same
  one_less id s s' (other, rest) less same =
      rw (less, same) (ground (arith, contains-without_lem id other (r.containers s)))

  -- A new container that is lost makes no difference, whether it is there or not.
  one_lost :
      (id : Bytes) (s s' : State) (k : Bytes × Bytes)
      → contains (r.containers s) id ≡ false
      → (r.containers s' ≡ r.containers s) ⊎ (r.containers s' ≡ id ∷ r.containers s)
      → r.lost s' ≡ id ∷ r.lost s
      → is_live s' k ≡ is_live s k
  unfolding contains
  one_lost id s s' (other, rest) fresh (inl same) more =
      rw (same, more) (ground (arith, fresh, =b_iff id other))
  one_lost id s s' (other, rest) fresh (inr there) more =
      rw (there, more) (ground (arith, fresh, =b_iff id other))

  Leaves-Outcome :
      (s : State) (p : Result DeployError Decoy × State) → Leaves d image r s p → Outcome s p
  unfolding ◌=b◌
  Leaves-Outcome s (err e, s') (inl (same, same_lost)) =
      inl (e, refl, (λ k. rw (same, same_lost) refl))
  Leaves-Outcome s (err e, s') (inr (_, (id, named, fresh, fresh_lost, there, more_lost))) =
      inl (e, refl, (λ k. one_lost id s s' k fresh there more_lost))
  Leaves-Outcome s (ok dec, s') (named, fresh, fresh_lost, more, same_lost) =
      inr (dec, refl, named, rw fresh refl, (λ k. one_more dec.id s s' k fresh_lost more same_lost))

  removed_less :
      (id : Bytes) (s : State) (k : Bytes × Bytes)
      → (remove d id s).0 ≡ none
      → is_live (remove d id s).1 k ≡ (not (pair_same (id, []) k) && is_live s k)
  unfolding remove
  removed_less id s k quiet = elim (r.remove_result id s) [
    | inl (_, less, same) ↦ one_less id s _ k less same
    | inr (kept, _, _) ↦ absurd (kept (removed-SaysGone d _ quiet))
  ]

  -- The deployer for Docker, on a daemon that does what it documents, is one whose decoys are accounted for.
  docker_accounts : Accountable (docker_deployer d image)
  docker_accounts = record {
    key = λ dec. (dec.id, []);
    is_live = is_live;
    deploy_result = λ t s. Leaves-Outcome s (deploy d image t s) (deploy-Leaves d image r t s);
    remove_result = λ dec s quiet k. removed_less dec.id s k quiet;
  }

  -- Whatever the interleaving of the calls of `Respond` on a Docker daemon that does what it documents: once
  -- none of them is in flight, a `Close` that is to remove the decoys and reports no error leaves exactly the
  -- containers that were there at the start, among those that are lost neither at the start nor then: created
  -- without a reply that tells, or left to a removal without a reply that says that they are gone.
  pub close-containers :
      (start : State) (resp : Responder) (s : State)
      → Life (docker_deployer d image) start resp [] s
      → resp.remove_on_close ≡ true
      → (close (docker_deployer d image) resp s).0 ≡ []
      → (id : Bytes) → contains (r.lost start) id ≡ false
      → contains (r.lost (close (docker_deployer d image) resp s).1) id ≡ false
      → contains (r.containers (close (docker_deployer d image) resp s).1) id
        ≡ contains (r.containers start) id
  unfolding docker_accounts ◌=b◌
  close-containers start resp s l on quiet id never never_after =
      let same =
        close-Life (docker_deployer d image) docker_accounts start resp s l on quiet (id, []) in
      ground (arith, same, never, never_after)
