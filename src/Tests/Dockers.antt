-- ===== src/Tests/Dockers.antt =====
-- Deployments to a Docker daemon with room for one container more, which starts it or not.
use aegis_ebpf.Base.{
  ◌≡◌, ◌≢◌, ◌⊎◌, inl, inr, refl, false, List, [], ◌∷◌, none, some, Bytes, codes, Result, ok, err,
  ◌=b◌, true, Bool-cases, if◌then◌else◌, arith, any, All,
}
use aegis_ebpf.Decoy.Docker.Compensation.{Leaves, deploy-Leaves}
use aegis_ebpf.Decoy.Docker.Reliance.{IsUnanswered, Reliable}
use aegis_ebpf.Decoy.Docker.Deployment.{starting, pick_from, pick_network, deploy}
use aegis_ebpf.Decoy.Docker.Networks.{preferred, first_own, pick_network_lem}
use aegis_ebpf.Decoy.Docker.{
  CreateRequest, Call, id_in, DockerError, docker_error, inspect_container, create_container,
  create_image, start_container, remove_container, Reply, Daemon, create, is_no_such_image, remove,
}
use aegis_ebpf.Base.Maps.{find, insert}
use aegis_ebpf.Decoy.Docker.Accounts.{docker_deployer, close-containers}
use aegis_ebpf.Decoy.Lifecycle.{Deployer, deploy_for, remove_all, close}
use aegis_ebpf.Decoy.Lifecycle.Steps.{Life, begun, asked, ended}
use aegis_ebpf.Decoy.Runs.{without, when_admitted}
use aegis_ebpf.Decoy.{Responder, new_responder, admit, confirm, finish, removed_on_close}
use aegis_ebpf.Events.Types.{zero_time}
use aegis_ebpf.Go.Text.{contains}
use aegis_ebpf.Tests.Decoys.{web_trigger, two_decoys, idle}

abbrev networks_of_web : List Bytes
networks_of_web = codes "host" ∷ codes "bridge" ∷ codes "shop" ∷ []

networks_named : All (λ name. (name =b []) ≡ false) networks_of_web
unfolding ◌=b◌
networks_named = (refl, (refl, (refl, tt)))

pick_network_lem_example :
    pick_network networks_of_web
    ≡ preferred (first_own networks_of_web) (any (λ name. name =b codes "bridge") networks_of_web)
pick_network_lem_example = pick_network_lem networks_of_web networks_named

abbrev success : Reply
success = record {
  status = 200;
  message = [];
  failure = none;
  networks = some networks_of_web;
  id = some (codes "c1");
}

abbrev refusal : Reply
refusal = record success { status = 500; message = codes "no memory" }

abbrev new_container : Bytes
new_container = codes "c1"

abbrev answer : Reply → Call → List Bytes → Result Bytes Reply × List Bytes
answer start (inspect_container id) s = (ok success, s)
answer start (create_container name req) s =
    if contains s new_container then (ok refusal, s) else (ok success, new_container ∷ s)
answer start (create_image name tag) s = (ok success, s)
answer start (start_container id) s = (ok start, s)
answer start (remove_container id) s = (ok success, without id s)

-- Its state is the IDs of its containers.
abbrev small_daemon : Reply → Daemon
small_daemon start = record { State = List Bytes; do_call = answer start }

module _ (start : Reply) where
  answer-keeps :
      (c : Call) (s : List Bytes)
      → ((name : Bytes) (req : CreateRequest) → c ≢ create_container name req)
      → ((id : Bytes) → c ≢ remove_container id)
      → ((answer start c s).1 ≡ s) × (◌≡◌ {A = List Bytes} [] [])
  answer-keeps (inspect_container id) s nc nr = (refl, refl)
  answer-keeps (create_container name req) s nc nr = absurd (nc name req refl)
  answer-keeps (create_image name tag) s nc nr = (refl, refl)
  answer-keeps (start_container id) s nc nr = (refl, refl)
  answer-keeps (remove_container id) s nc nr = absurd (nr id refl)

  answer_creates :
      (name : Bytes) (req : CreateRequest) (s : List Bytes)
      → ((e : DockerError) × (id_in (answer start (create_container name req) s).0 ≡ err e)
          × ((answer start (create_container name req) s).1 ≡ s)
          × (◌≡◌ {A = List Bytes} [] []))
        ⊎ ((id : Bytes) × ((id =b []) ≡ false)
            × (contains s id ≡ false)
            × (contains [] id ≡ false)
            × ((answer start (create_container name req) s).1 ≡ id ∷ s)
            × (((id_in (answer start (create_container name req) s).0 ≡ ok id)
                  × (◌≡◌ {A = List Bytes} [] []))
                ⊎ ((e : DockerError) × (id_in (answer start (create_container name req) s).0
                      ≡ err e)
                    × IsUnanswered e
                    × ([] ≡ id ∷ []))))
  unfolding ◌=b◌ contains
  answer_creates name req s = elim (Bool-cases (contains s new_container)) [
    | inl e ↦ rw e (inl (docker_error 500 (codes "no memory"), refl, refl, refl))
    | inr e ↦ rw e (inr (new_container, refl, e, refl, refl, inl (refl, refl)))
  ]

  -- Each of its removals is carried out, and it loses no container.
  abbrev reliable : Reliable (small_daemon start)
  reliable = record {
    containers = λ s. s;
    lost = λ s. [];
    kept = answer-keeps;
    create_result = answer_creates;
    remove_result = λ id s. inl ((success, refl, inl (omega arith, omega arith)), refl, refl);
  }

abbrev image : Bytes
image = codes "alpine:3.20"

abbrev others : List Bytes
others = codes "old" ∷ []

deploy-Leaves_example :
    Leaves
      (small_daemon refusal)
      image
      (reliable refusal)
      others
      (deploy (small_daemon refusal) image web_trigger others)
deploy-Leaves_example =
    deploy-Leaves (small_daemon refusal) image (reliable refusal) web_trigger others

-- A daemon that neither starts a container nor removes one: what a deployment has created stays.
abbrev stubborn_answer : Call → List Bytes → Result Bytes Reply × List Bytes
stubborn_answer (inspect_container id) s = answer refusal (inspect_container id) s
stubborn_answer (create_container name req) s = answer refusal (create_container name req) s
stubborn_answer (create_image name tag) s = answer refusal (create_image name tag) s
stubborn_answer (start_container id) s = answer refusal (start_container id) s
stubborn_answer (remove_container id) s = (ok refusal, s)

abbrev stubborn : Daemon
stubborn = record { State = List Bytes; do_call = stubborn_answer }

stays_behind :
    deploy stubborn image web_trigger others
    ≡ (err (starting (docker_error 500 (codes "no memory"))), new_container ∷ others)
unfolding deploy pick_network pick_from create is_no_such_image contains ◌=b◌ remove
stays_behind = refl

-- A responder that has deployed a decoy with a daemon that starts it, and is closed.
abbrev deployer : Deployer
deployer = docker_deployer (small_daemon success) image

abbrev asked_once : Responder
asked_once = (admit 7 idle web_trigger).1

abbrev in_flight : List Bytes
in_flight = when_admitted (admit 7 idle web_trigger).0 web_trigger.container_id []

abbrev closing : Responder × List Bytes
closing = deploy_for deployer web_trigger asked_once others

web-Life : Life deployer others closing.0 [] closing.1
unfolding admit contains ◌=b◌ new_responder find insert zero_time
web-Life =
    ended web_trigger asked_once in_flight others refl
      (asked 7 idle web_trigger [] others (begun two_decoys))

closes_quietly : (close deployer closing.0 closing.1).0 ≡ []
unfolding close remove_all removed_on_close deploy_for admit contains ◌=b◌ new_responder find insert
    finish deploy pick_network pick_from create is_no_such_image confirm zero_time remove
closes_quietly = refl

removes : closing.0.remove_on_close ≡ true
unfolding deploy_for finish confirm admit ◌=b◌ new_responder find insert deploy pick_network
    pick_from create is_no_such_image contains zero_time
removes = refl

none_lost : contains [] (codes "old") ≡ false
unfolding contains
none_lost = refl

close-containers_example :
    contains (close deployer closing.0 closing.1).1 (codes "old") ≡ contains others (codes "old")
close-containers_example =
    close-containers (small_daemon success) image (reliable success) others closing.0 closing.1
      web-Life removes closes_quietly (codes "old") none_lost none_lost
