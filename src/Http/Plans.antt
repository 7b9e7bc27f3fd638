-- ===== src/Http/Plans.antt =====
-- `patchManifest` of internal/agent/http.go on the remediations that the agent opened itself.
use mathlib.Core.Path.{subst, sym}
use aegis_ebpf.Agent.Ingest.Planned.{Sound, Reaches-Planned}
use aegis_ebpf.Agent.Listing.{remediation, patch}
use aegis_ebpf.Agent.Remediations.Planned.{Planned}
use aegis_ebpf.Agent.State.{Agent, Remediation}
use aegis_ebpf.Base.{
  All, ℕ, ◌≡◌, List, none, some, Bytes, Result, ok, err, arith, Bool-cases, Option-cases, inl, inr,
}
use aegis_ebpf.Base.Maps.{bytes_key}
use aegis_ebpf.Events.Types.{AuditEvent}
use aegis_ebpf.Fixer.Apply.{apply}
use aegis_ebpf.Fixer.Operation.{encode_failed}
use aegis_ebpf.Fixer.Rules.Compiled.{EncodesScalars, CompilesAll, default_plans-CompilesAll}
use aegis_ebpf.Fixer.Rules.{default_rules}
use aegis_ebpf.Fixer.Yaml.{Yaml}
use aegis_ebpf.Http.Patching.{patch_manifest_500}
use aegis_ebpf.Http.Responses.{
  Request, post_patch, BodyError, too_large, malformed, read_all, max_manifest_body, yaml_types,
  has_content_type, patch_response,
}
use aegis_ebpf.Http.Sessions.{Serves, Serves-Reaches}
use aegis_ebpf.Http.{Decoder, patch_body, patch_manifest, handle}

module _ (y : Yaml) (decode : Decoder) (new_id : ℕ → Bytes) where
  -- Without a remediation there is no internal error.
  unknown_500 :
      (a : Agent) (id : Bytes) (req : Request)
      → remediation a id ≡ none
      → (patch_manifest y decode new_id a id req).status ≡ 500
      → ⊥
  unfolding patch_manifest patch patch_response
  unknown_500 a id req f h = elim (Bool-cases (has_content_type req.media_type yaml_types)) [
    | inl e ↦ at_body (read_all max_manifest_body req.body) (rw e at h)
    | inr e ↦ omega (arith, rw e at h)
  ]
    where
      missing : (s : Bytes) → (patch_response id (patch y a id s)).status ≡ 500 → ⊥
      missing s k = omega (arith, rw f at k)

      at_body : (r : Result BodyError Bytes) → (patch_body y decode new_id a id r).status ≡ 500 → ⊥
      at_body (err (too_large n)) k = omega (arith, k)
      at_body (err (malformed s)) k = omega (arith, k)
      at_body (ok s) k = missing s k

  -- In an agent that runs the built-in rules, after any sequence of requests since `New`, a request to
  -- patch a manifest is answered with an internal error only where the remediation is open and the YAML
  -- encoder fails on the manifest of the request: no plan that the agent makes for an event that it
  -- accepted is refused by the engine, and no other failure is internal. The library is taken to encode
  -- Booleans, integers and strings to nodes that it decodes.
  pub handle-post_patch :
      (a : Agent) (h : List AuditEvent) (id : Bytes) (req : Request)
      → EncodesScalars y
      → Serves y decode new_id a h
      → a.rules ≡ default_rules
      → (handle y decode new_id a (post_patch id) req).response.status ≡ 500
      → (rem : Remediation) × (remediation a id ≡ some rem)
        × (apply y req.body.bytes rem.operations ≡ err encode_failed)
  unfolding handle
  handle-post_patch a h id req enc s built_in status = elim (Option-cases (remediation a id)) [
    | inl f ↦ absurd (unknown_500 a id req f status)
    | inr (rem, f) ↦
        let (plan, c) = compiles id rem f in
        (rem, f, patch_manifest_500 y decode new_id a id req rem plan f c status)
  ]
    where
      compiles : Planned (CompilesAll y) a
      compiles = Reaches-Planned (CompilesAll y) new_id a h (Serves-Reaches y decode new_id a h s) (
          subst (All (Sound (CompilesAll y) new_id)) (sym built_in)
            (default_plans-CompilesAll y enc))
