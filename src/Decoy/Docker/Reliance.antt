-- ===== src/Decoy/Docker/Reliance.antt =====
-- What internal/decoy/docker.go relies on of the Docker daemon.
use aegis_ebpf.Base.{◌≡◌, ◌≢◌, ◌≤◌, ◌<◌, ◌⊎◌, List, [], ◌∷◌, Bytes, Result, ok, err, ◌=b◌, false}
use aegis_ebpf.Decoy.Docker.{
  CreateRequest, Call, create_container, remove_container, Daemon, Reply, DockerError, not_sent,
  docker_error, bad_body, id_in,
}
use aegis_ebpf.Decoy.Runs.{without}
use aegis_ebpf.Go.Text.{contains}

-- The creation has not been answered by an error of the daemon, so that it may have taken place: no reply
-- has come back, or one without a body that decodes.
abbrev pub IsUnanswered : DockerError → Type 0
IsUnanswered (not_sent why) = Unit
IsUnanswered (docker_error status message) = ⊥
IsUnanswered bad_body = Unit

-- The reply says that the container is gone: a success, or 404.
abbrev pub SaysGone : Result Bytes Reply → Type 0
SaysGone r =
    (rep : Reply) × (r ≡ ok rep) × (((200 ≤ rep.status) × (rep.status < 300)) ⊎ (rep.status ≡ 404))

-- What the daemon documents, with the IDs of its containers, and of those that its client has lost: created
-- without a reply that tells, or left to a removal without a reply that says that they are gone. A creation
-- that is answered by an error adds no container, one that is answered by an ID adds the new container, and
-- no other request but a removal changes them. A removal takes the container away where its reply says so.
-- A request without such a reply may have been carried out or not.
pub record Reliable (d : Daemon) : Type 0 where
  pub containers : d.State → List Bytes
  pub lost : d.State → List Bytes
  pub kept :
      (c : Call) (s : d.State)
      → ((name : Bytes) (req : CreateRequest) → c ≢ create_container name req)
      → ((id : Bytes) → c ≢ remove_container id)
      → (containers (d.do_call c s).1 ≡ containers s) × (lost (d.do_call c s).1 ≡ lost s)
  pub create_result :
      (name : Bytes) (req : CreateRequest) (s : d.State)
      → ((e : DockerError) × (id_in (d.do_call (create_container name req) s).0 ≡ err e)
          × (containers (d.do_call (create_container name req) s).1 ≡ containers s)
          × (lost (d.do_call (create_container name req) s).1 ≡ lost s))
        ⊎ ((id : Bytes) × ((id =b []) ≡ false)
            × (contains (containers s) id ≡ false)
            × (contains (lost s) id ≡ false)
            × (containers (d.do_call (create_container name req) s).1 ≡ id ∷ containers s)
            × (((id_in (d.do_call (create_container name req) s).0 ≡ ok id)
                  × (lost (d.do_call (create_container name req) s).1 ≡ lost s))
                ⊎ ((e : DockerError) × (id_in (d.do_call (create_container name req) s).0 ≡ err e)
                    × IsUnanswered e
                    × (lost (d.do_call (create_container name req) s).1 ≡ id ∷ lost s))))
  pub remove_result :
      (id : Bytes) (s : d.State)
      → (SaysGone (d.do_call (remove_container id) s).0
          × (containers (d.do_call (remove_container id) s).1 ≡ without id (containers s))
          × (lost (d.do_call (remove_container id) s).1 ≡ lost s))
        ⊎ ((SaysGone (d.do_call (remove_container id) s).0 → ⊥)
            × ((containers (d.do_call (remove_container id) s).1 ≡ without id (containers s))
                ⊎ (containers (d.do_call (remove_container id) s).1 ≡ containers s))
            × (lost (d.do_call (remove_container id) s).1 ≡ id ∷ lost s))
