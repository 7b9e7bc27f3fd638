-- ===== src/Http/Patching.antt =====
-- When `patchManifest` of internal/agent/http.go answers with an internal error.
use mathlib.Core.Path.{subst}
use aegis_ebpf.Agent.Listing.{apply_failed, lift_apply, remediation, patch}
use aegis_ebpf.Agent.State.{Agent, Remediation}
use aegis_ebpf.Base.{
  ℕ, ◌≡◌, inl, inr, refl, ap, List, some, Bytes, Result, ok, err, arith, Bool-cases,
}
use aegis_ebpf.Base.Maps.{bytes_key}
use aegis_ebpf.Fixer.Apply.Errors.{apply_errors}
use aegis_ebpf.Fixer.Apply.{ApplyResult, apply}
use aegis_ebpf.Fixer.Engine.Errors.{IsExpected}
use aegis_ebpf.Fixer.Operation.{
  ApplyError, syntax, no_workload, conflict, encode_failed, unknown_operation, invalid_path,
  no_field_name, bad_value, decode_failed, index_panic, Compiled, compile,
}
use aegis_ebpf.Fixer.Yaml.{Yaml}
use aegis_ebpf.Http.Responses.{
  Request, Incoming, BodyError, too_large, malformed, read_all, max_manifest_body, yaml_types,
  has_content_type, patch_response,
}
use aegis_ebpf.Http.{Decoder, patch_body, patch_manifest}

expected_500 :
    (Any : Type 0) (id : Bytes) (e : ApplyError)
    → IsExpected e
    → (patch_response {Any = Any} id (err (apply_failed e))).status ≡ 500
    → e ≡ encode_failed
unfolding patch_response
expected_500 Any id (syntax s) i h = absurd (omega (arith, h))
expected_500 Any id no_workload i h = absurd (omega (arith, h))
expected_500 Any id (conflict p l a b) i h = absurd (omega (arith, h))
expected_500 Any id encode_failed i h = refl
expected_500 Any id (unknown_operation s) i h = absurd i
expected_500 Any id (invalid_path s) i h = absurd i
expected_500 Any id (no_field_name s) i h = absurd i
expected_500 Any id (bad_value s) i h = absurd i
expected_500 Any id decode_failed i h = absurd i
expected_500 Any id index_panic i h = absurd i

read_all_ok :
    (limit : ℕ) (body : Incoming) (s : Bytes) → read_all limit body ≡ ok s → s ≡ body.bytes
unfolding read_all
read_all_ok limit body s h = ground (arith, h)

module _ (y : Yaml) (decode : Decoder) (new_id : ℕ → Bytes) where
  applied_500 :
      (id manifest : Bytes) (rem : Remediation) (plan : List (Compiled y.Any))
      (r : Result ApplyError (ApplyResult y.Any))
      → compile y rem.operations ≡ ok plan
      → apply y manifest rem.operations ≡ r
      → (patch_response id (lift_apply y r)).status ≡ 500
      → r ≡ err encode_failed
  unfolding patch_response
  applied_500 id manifest rem plan (ok res) c e h = absurd (omega (arith, h))
  applied_500 id manifest rem plan (err x) c e h =
      ap err (expected_500 y.Any id x (apply_errors y manifest rem.operations plan x c e) h)

  patch_body_500 :
      (a : Agent) (id : Bytes) (rem : Remediation) (plan : List (Compiled y.Any)) (manifest : Bytes)
      → remediation a id ≡ some rem
      → compile y rem.operations ≡ ok plan
      → (patch_response id (patch y a id manifest)).status ≡ 500
      → apply y manifest rem.operations ≡ err encode_failed
  unfolding patch
  patch_body_500 a id rem plan manifest f c h =
      applied_500 id manifest rem plan (apply y manifest rem.operations) c refl (rw f at h)

  -- A request to patch a manifest with an open remediation whose plan compiles is answered with 500 only
  -- where the YAML encoder fails on the manifest in its body.
  pub patch_manifest_500 :
      (a : Agent) (id : Bytes) (req : Request) (rem : Remediation) (plan : List (Compiled y.Any))
      → remediation a id ≡ some rem
      → compile y rem.operations ≡ ok plan
      → (patch_manifest y decode new_id a id req).status ≡ 500
      → apply y req.body.bytes rem.operations ≡ err encode_failed
  unfolding patch_manifest
  patch_manifest_500 a id req rem plan f c h =
      elim (Bool-cases (has_content_type req.media_type yaml_types)) [
        | inl e ↦ at_body (read_all max_manifest_body req.body) refl (rw e at h)
        | inr e ↦ absurd (omega (arith, rw e at h))
      ]
    where
      at_body :
          (r : Result BodyError Bytes)
          → read_all max_manifest_body req.body ≡ r
          → (patch_body y decode new_id a id r).status ≡ 500
          → apply y req.body.bytes rem.operations ≡ err encode_failed
      at_body (err (too_large n)) e k = absurd (omega (arith, k))
      at_body (err (malformed s)) e k = absurd (omega (arith, k))
      at_body (ok s) e k =
          subst (λ (t : Bytes). apply y t rem.operations ≡ err encode_failed)
            (read_all_ok max_manifest_body req.body s e) (patch_body_500 a id rem plan s f c k)
