-- ===== src/Command/Status.antt =====
-- The status that cmd/aegis-agent/main.go exits with.
use mathlib.Core.Path.{subst}
use aegis_ebpf.Base.{
  ◌≡◌, ◌⊎◌, ◌↔◌, refl, Bool, true, false, [], ◌∷◌, Option, none, some, Bytes, Result, ok, err,
  if◌then◌else◌, ◌=b◌, Bool-cases, inl, inr, arith,
}
use aegis_ebpf.Decoy.Kubernetes.{image_or_default}
use aegis_ebpf.Command.Running.{
  Flags, FlagError, help, bad_flag, Backend, docker_socket, Ending, serve_returned, signalled,
  World, Exit, print_version, default_socket, docker_responder, build_responder, reached, ended,
  bound, built, decoyed, connected, leveled, parsed, run, exit_code,
}

abbrev Succeeds : Exit → Type 0
Succeeds x = exit_code x.1 ≡ 0

-- The responder that the flags ask for can be built.
abbrev pub HasBackend : World → Flags → Type 0
HasBackend w f = f.deploy_decoy ≡ true → f.enrich_k8s ≡ false → w.ping default_socket ≡ none

-- The agent serves and is stopped by a signal.
abbrev pub Stops : World → Flags → Type 0
Stops w f = (w.bind f.listen ≡ none) × (w.ending ≡ signalled none)

abbrev pub Runs : World → Flags → Type 0
Runs w f = HasBackend w f × Stops w f

abbrev pub ServesWell : World → Flags → Type 0
ServesWell w f =
    (w.unmarshal_level f.log_level ≡ none) × (f.enrich_k8s ≡ true → w.in_cluster ≡ none) × Runs w f

ended_iff : (e : Ending) → Succeeds (ended e) ↔ (e ≡ signalled none)
unfolding ended exit_code
ended_iff (serve_returned e) = (λ h. absurd (omega (arith, h)), λ h. absurd (cc))
ended_iff (signalled none) = (λ h. refl, λ h. refl)
ended_iff (signalled (some e)) = (λ h. absurd (omega (arith, h)), λ h. absurd (cc))

bound_iff :
    (w : World) (f : Flags) (o : Option Bytes)
    → Succeeds (bound w f o) ↔ ((o ≡ none) × (w.ending ≡ signalled none))
unfolding bound exit_code
bound_iff w f none = (λ h. (refl, (ended_iff w.ending).0 h), λ p. (ended_iff w.ending).1 p.1)
bound_iff w f (some e) = (λ h. absurd (omega (arith, h)), λ p. absurd (let no = p.0 in cc))

reached_iff :
    (w : World) (f : Flags) (b : Backend) (o : Option Bytes)
    → Succeeds (built w f (reached b o)) ↔ ((o ≡ none) × Stops w f)
unfolding built exit_code
reached_iff w f b none =
    let s = bound_iff w f (w.bind f.listen) in (λ h. (refl, s.0 h), λ p. s.1 p.1)
reached_iff w f b (some e) = (λ h. absurd (omega (arith, h)), λ p. absurd (let no = p.0 in cc))

build_iff :
    (w : World) (f : Flags) (kube : Bool)
    → Succeeds (built w f (build_responder w kube f.decoy_image))
      ↔ ((kube ≡ false → w.ping default_socket ≡ none) × Stops w f)
unfolding build_responder docker_responder ◌=b◌ bound built
build_iff w f true =
    let s = bound_iff w f (w.bind f.listen) in (λ h. ((λ e. absurd (cc)), s.0 h), λ p. s.1 p.1)
build_iff w f false =
    let s =
      reached_iff w f (docker_socket default_socket (image_or_default f.decoy_image))
        (w.ping default_socket) in
    (λ h. let q = s.0 h in ((λ e. q.0), q.1), λ p. s.1 (p.0 refl, p.1))

-- What an `if` in the code says of its two ways on.
if_iff :
    (b : Bool) (x y : Exit) (P Q : Type 0)
    → (Succeeds x ↔ P)
    → (Succeeds y ↔ Q)
    → Succeeds (if b then x else y) ↔ ((b ≡ true → P) × (b ≡ false → Q))
if_iff true x y P Q h k = (λ s. ((λ e. h.0 s), (λ e. absurd (cc))), λ p. h.1 (p.0 refl))
if_iff false x y P Q h k = (λ s. ((λ e. absurd (cc)), (λ e. k.0 s)), λ p. k.1 (p.1 refl))

decoyed_iff : (w : World) (f : Flags) → Succeeds (decoyed w f) ↔ Runs w f
unfolding decoyed
decoyed_iff w f =
    let s =
      if_iff f.deploy_decoy (built w f (build_responder w f.enrich_k8s f.decoy_image))
        (bound w f (w.bind f.listen)) _ _ (build_iff w f f.enrich_k8s)
        (bound_iff w f (w.bind f.listen)) in
    (
      λ h.
          let (with_decoy, without) = s.0 h in
          (
            (λ e. (with_decoy e).0),
            elim (Bool-cases f.deploy_decoy) [ inl e ↦ (with_decoy e).1 | inr e ↦ without e ],
          ),
      λ p. s.1 ((λ e. (p.0 e, p.1)), (λ e. p.1)),
    )

connected_iff :
    (w : World) (f : Flags) (o : Option Bytes)
    → Succeeds (connected w f o) ↔ ((o ≡ none) × Runs w f)
unfolding connected exit_code
connected_iff w f none = let s = decoyed_iff w f in (λ h. (refl, s.0 h), λ p. s.1 p.1)
connected_iff w f (some e) = (λ h. absurd (omega (arith, h)), λ p. absurd (let no = p.0 in cc))

leveled_iff :
    (w : World) (f : Flags) (o : Option Bytes)
    → Succeeds (leveled w f o)
      ↔ ((o ≡ none) × (f.enrich_k8s ≡ true → w.in_cluster ≡ none) × Runs w f)
unfolding leveled exit_code
leveled_iff w f (some e) = (λ h. absurd (omega (arith, h)), λ p. absurd (let no = p.0 in cc))
leveled_iff w f none =
    let s =
      if_iff f.enrich_k8s (connected w f w.in_cluster) (decoyed w f) _ _
        (connected_iff w f w.in_cluster) (decoyed_iff w f) in
    (
      λ h.
          let (inside, outside) = s.0 h in
          elim (Bool-cases f.enrich_k8s) [
            | inl e ↦ (refl, (λ e'. (inside e).0), (inside e).1)
            | inr e ↦ (refl, (λ e'. absurd (cc)), outside e)
          ],
      λ (no_error, cluster, up). s.1 ((λ e. (cluster e, up)), (λ e. up)),
    )

parsed_iff :
    (w : World) (r : Result FlagError Flags)
    → Succeeds (parsed w r)
      ↔ ((r ≡ err help) ⊎ ((f : Flags) × (r ≡ ok f) × ((f.show_version ≡ true) ⊎ ServesWell w f)))
unfolding parsed exit_code
parsed_iff w (err help) = (λ h. inl refl, λ p. refl)
parsed_iff w (err (bad_flag e)) = (
  λ h. absurd (omega (arith, h)),
  λ p. elim p [ inl q ↦ absurd (cc) | inr (f, q, _) ↦ absurd (cc) ],
)
parsed_iff w (ok f) =
    let s =
      if_iff f.show_version (print_version ∷ [], none) (leveled w f (w.unmarshal_level f.log_level))
        (Unit {0}) _ ((λ h. tt), (λ h. refl)) (leveled_iff w f (w.unmarshal_level f.log_level)) in
    (
      λ h. elim (Bool-cases f.show_version) [
        | inl e ↦ inr (f, refl, inl e)
        | inr e ↦ inr (f, refl, inr ((s.0 h).1 e))
      ],
      λ p. elim p [
        | inl q ↦ absurd (cc)
        | inr (g, q, inl shown) ↦
            let shown' : f.show_version ≡ true = let same : f ≡ g = cc in cc in
            s.1 ((λ e. tt), (λ e. absurd (cc)))
        | inr (g, q, inr well) ↦
            let same : g ≡ f = cc in s.1 ((λ e. tt), (λ e. subst (ServesWell w) same well))
      ],
    )

-- The process exits with success exactly when the help was asked for, the version was, or all that the
-- flags ask for is there, the agent serves, and a signal ends it with a clean shutdown: the log level is
-- known, Kubernetes is reached where pods are resolved through it, Docker is reached where decoys are
-- deployed without Kubernetes, and the address is free.
pub exit_code-run_iff :
    (w : World)
    → (exit_code (run w).1 ≡ 0) ↔ (
        (w.flags ≡ err help)
        ⊎ ((f : Flags) × (w.flags ≡ ok f) × ((f.show_version ≡ true) ⊎ ServesWell w f)))
unfolding run
exit_code-run_iff w = parsed_iff w w.flags
