-- ===== src/Decoy/Docker/Compensation.antt =====
-- What a deployment to Docker, internal/decoy, leaves behind.
use aegis_ebpf.Base.{
  ◌≡◌, ◌⊎◌, inl, inr, ap, ◌∙◌, true, List, [], ◌∷◌, Option, none, some, Bytes, Result, ok, err,
  ◌=b◌, =b_iff, =b_self, Bool-cases, false, refl, arith,
}
use aegis_ebpf.Decoy.Docker.Deployment.{
  DeployError, inspecting, no_network, creating, starting, pick_network, decoy_name, decoy_request,
  started, created, inspected, deploy,
}
use aegis_ebpf.Decoy.Docker.Reliance.{IsUnanswered, Reliable}
use aegis_ebpf.Decoy.Docker.{
  CreateRequest, start_container, Daemon, DockerError, not_sent, docker_error, bad_body, inspect,
  create_once, pull, start, remove, after_pull, create, is_no_such_image,
}
use aegis_ebpf.Decoy.Runs.{without}
use aegis_ebpf.Decoy.{Trigger, Decoy}
use aegis_ebpf.Go.Text.{contains}

without_absent : (id : Bytes) (ids : List Bytes) → contains ids id ≡ false → without id ids ≡ ids
unfolding contains
without_absent id [] h = refl
without_absent id (x ∷ ids) h = ground (arith, h, without_absent id ids, =b_iff x id, =b_iff id x)

without_first :
    (id : Bytes) (ids : List Bytes) → contains ids id ≡ false → without id (id ∷ ids) ≡ ids
without_first id ids h = rw (=b_self id) (without_absent id ids h)

module _ (d : Daemon) (image : Bytes) (r : Reliable d) where
  open d use {State}

  -- The state has the containers and the lost ones of `old`.
  abbrev Same : State → State → Type 0
  Same old s = (r.containers s ≡ r.containers old) × (r.lost s ≡ r.lost old)

  -- A new container.
  abbrev Adds : State → Bytes → State → Type 0
  Adds old id s =
      ((id =b []) ≡ false)
      × (contains (r.containers old) id ≡ false)
      × (contains (r.lost old) id ≡ false)
      × (r.containers s ≡ id ∷ r.containers old)
      × (r.lost s ≡ r.lost old)

  -- A new container that is lost, and may be there or not.
  abbrev Loses : State → State → Type 0
  Loses old s =
      (id : Bytes) × ((id =b []) ≡ false)
      × (contains (r.containers old) id ≡ false)
      × (contains (r.lost old) id ≡ false)
      × ((r.containers s ≡ r.containers old) ⊎ (r.containers s ≡ id ∷ r.containers old))
      × (r.lost s ≡ id ∷ r.lost old)

  -- The errors behind which a container may be lost.
  abbrev MayLose : DeployError → Type 0
  MayLose (inspecting e) = ⊥
  MayLose no_network = ⊥
  MayLose (creating e) = IsUnanswered e
  MayLose (starting e) = Unit

  -- What a deployment makes of the containers of `old`: a decoy more, nothing, or a lost container.
  abbrev pub Leaves : State → Result DeployError Decoy × State → Type 0
  Leaves old (ok decoy, s) = Adds old decoy.id s
  Leaves old (err e, s) = Same old s ⊎ (MayLose e × Loses old s)

  abbrev Creates : State → Result DockerError Bytes × State → Type 0
  Creates old (ok id, s) = Adds old id s
  Creates old (err e, s) = Same old s ⊎ (IsUnanswered e × Loses old s)

  create_once-Creates :
      (name : Bytes) (req : CreateRequest) (old s : State)
      → Same old s
      → Creates old (create_once d name req s)
  create_once-Creates name req old s (same, same_lost) = elim (r.create_result name req s) [
    | inl (e, out, kept, kept_lost) ↦ rw out (inl (kept ∙ same, kept_lost ∙ same_lost))
    | inr (id, named, fresh, fresh_lost, more, inl (out, kept_lost)) ↦ rw out (
      named,
      rw same at fresh,
      rw same_lost at fresh_lost,
      more ∙ ap (◌∷◌ id) same,
      kept_lost ∙ same_lost,
    )
    | inr (id, named, fresh, fresh_lost, more, inr (e, out, silent, more_lost)) ↦ rw out (
        inr (
          silent,
          (
            id,
            named,
            rw same at fresh,
            rw same_lost at fresh_lost,
            inr (more ∙ ap (◌∷◌ id) same),
            more_lost ∙ ap (◌∷◌ id) same_lost,
          ),
        ))
  ]

  Same-then : (old s s' : State) → Same old s → Same s s' → Same old s'
  Same-then old s s' (c, l) (c', l') = (c' ∙ c, l' ∙ l)

  pull-Same : (name : Bytes) (s : State) → Same s (pull d name s).1
  pull-Same name s = r.kept _ s (λ n q h. cc) (λ id h. cc)

  after_pull-Creates :
      (name : Bytes) (req : CreateRequest) (old : State) (p : Option DockerError × State)
      → Same old p.1
      → Creates old (after_pull d name req p)
  unfolding after_pull
  after_pull-Creates name req old (some e, s) same = inl same
  after_pull-Creates name req old (none, s) same = create_once-Creates name req old s same

  -- An image that is missing is pulled, after a creation that the daemon has answered by an error.
  failed_first :
      (old : State) (res : Result DockerError Bytes) (s : State)
      → is_no_such_image res ≡ true
      → Creates old (res, s)
      → Same old s
  unfolding is_no_such_image
  failed_first old (ok id) s missing c = absurd (cc)
  failed_first old (err (not_sent why)) s missing c = absurd (cc)
  failed_first old (err bad_body) s missing c = absurd (cc)
  failed_first old (err (docker_error status message)) s missing (inl same) = same
  failed_first old (err (docker_error status message)) s missing (inr (never, _)) = absurd never

  create-Creates :
      (name : Bytes) (req : CreateRequest) (old s : State)
      → Same old s
      → Creates old (create d name req s)
  unfolding create
  create-Creates name req old s same =
      let first = create_once d name req s in
      let made = create_once-Creates name req old s same in
      elim (Bool-cases (is_no_such_image first.0)) [
        | inr e ↦ rw e made
        | inl e ↦ rw e (
            after_pull-Creates name req old (pull d req.image first.1) (
              Same-then old first.1 (pull d req.image first.1).1
                (failed_first old first.0 first.1 e made) (pull-Same req.image first.1)))
      ]

  started-Leaves :
      (id name network : Bytes) (old : State) (p : Option DockerError × State)
      → Adds old id p.1
      → Leaves old (started d image id name network p)
  unfolding started remove
  started-Leaves id name network old (none, s) adds = adds
  started-Leaves id name network old (some e, s) (named, fresh, fresh_lost, more, same_lost) =
      let less = ap (without id) more ∙ without_first id (r.containers old) fresh in
      elim (r.remove_result id s) [
        | inl (_, gone, kept_lost) ↦ inl (gone ∙ less, kept_lost ∙ same_lost)
        | inr (_, inl gone, more_lost) ↦ inr (
          tt,
          (id, named, fresh, fresh_lost, inl (gone ∙ less), more_lost ∙ ap (◌∷◌ id) same_lost),
        )
        | inr (_, inr still, more_lost) ↦ inr (
          tt,
          (id, named, fresh, fresh_lost, inr (still ∙ more), more_lost ∙ ap (◌∷◌ id) same_lost),
        )
      ]

  created-Leaves :
      (name network : Bytes) (old : State) (p : Result DockerError Bytes × State)
      → Creates old p
      → Leaves old (created d image name network p)
  unfolding created
  created-Leaves name network old (err e, s) c = c
  created-Leaves name network old (ok id, s) (named, fresh, fresh_lost, more, same_lost) =
      let (kept, kept_lost) = r.kept (start_container id) s (λ n q h. cc) (λ i h. cc) in
      started-Leaves id name network old (start d id s)
        (named, fresh, fresh_lost, kept ∙ more, kept_lost ∙ same_lost)

  inspected-Leaves :
      (t : Trigger) (old : State) (p : Result DockerError (List Bytes) × State)
      → Same old p.1
      → Leaves old (inspected d image t p)
  unfolding inspected
  inspected-Leaves t old (err e, s) same = inl same
  inspected-Leaves t old (ok networks, s) same = elim (Bool-cases (pick_network networks =b [])) [
    | inl e ↦ rw e (inl same)
    | inr e ↦ rw e (
        created-Leaves (decoy_name t.container_id) (pick_network networks) old _ (
          create-Creates (decoy_name t.container_id) (decoy_request image t (pick_network networks))
            old s same))
  ]

  -- On a daemon that does what it documents, a deployment that succeeds leaves one container more, that of
  -- the decoy, under a new ID. One that fails leaves the containers as they were: one that was created and
  -- does not start is removed. The exceptions are a creation whose reply is lost or does not decode, and a container that does
  -- not start and whose removal is not answered by a success or a 404: that one container may stay behind.
  pub deploy-Leaves : (t : Trigger) (s : State) → Leaves s (deploy d image t s)
  unfolding deploy
  deploy-Leaves t s =
      inspected-Leaves t s (inspect d t.container_id s) (r.kept _ s (λ n q h. cc) (λ i h. cc))
