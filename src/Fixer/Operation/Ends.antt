-- ===== src/Fixer/Operation/Ends.antt =====
-- Paths of the plans that `compile` of internal/fixer/fixer.go accepts.
use mathlib.Core.Path.{subst}
use aegis_ebpf.Base.{
  ◌≡◌, refl, Bool, true, false, not, List, [], ◌∷◌, Result, ok, err, ◌>>=◌, >>=-ok, All, arith,
}
use aegis_ebpf.Fixer.Engine.Errors.{EndsInField}
use aegis_ebpf.Fixer.Operation.{
  Operation, Compiled, ApplyError, encode_failed, unknown_operation, op_name, no_field_name,
  bad_value, decode_failed, is_known, check, require, lift_path, is_supported, ends_in_selector,
  compile_one, compile,
}
use aegis_ebpf.Fixer.Path.Sound.{parse_path_sound}
use aegis_ebpf.Fixer.Path.{PathError, FieldPath, parse_path}
use aegis_ebpf.Fixer.Yaml.{Yaml}

-- What `compile` says of a path.
check_ok : (b : Bool) (e : ApplyError) (u : Unit {0}) → check b e ≡ ok u → b ≡ true
check_ok true e u h = refl
check_ok false e u h = absurd (cc)

lift_path_ok :
    (r : Result PathError FieldPath) (path : FieldPath) → lift_path r ≡ ok path → r ≡ ok path
lift_path_ok (ok p) path h = cc
lift_path_ok (err e) path h = absurd (cc)

module _ (y : Yaml) where
  open y use {Any}

  -- The part of `compile_one` behind its path.
  abbrev compile_rest : Operation → FieldPath → Result ApplyError (Compiled Any)
  compile_rest op path = do
    _ ← check (is_supported op.value) (bad_value op.path)
    n ← require encode_failed (y.encode_value op.value)
    want ← require decode_failed (y.decode_any n)
    ok (record { op = op.op; path = path; want = want })

  compile_rest-path :
      (op : Operation) (path : FieldPath) (c : Compiled Any)
      → compile_rest op path ≡ ok c
      → path ≡ c.path
  compile_rest-path op path c e =
      let (_, _, e₁) = >>=-ok (check (is_supported op.value) (bad_value op.path)) _ e in
      let (n, _, e₂) = >>=-ok (require encode_failed (y.encode_value op.value)) _ e₁ in
      let (want, _, e₃) = >>=-ok (require decode_failed (y.decode_any n)) _ e₂ in cc

  compile_one-EndsInField :
      (op : Operation) (c : Compiled Any) → compile_one y op ≡ ok c → EndsInField c.path
  unfolding compile_one
  compile_one-EndsInField op c e =
      let (_, _, e₁) = >>=-ok (check (is_known op.op) (unknown_operation (op_name op.op))) _ e in
      let (path, parsed, e₂) = >>=-ok (lift_path (parse_path op.path)) _ e₁ in
      let (u, ends, e₃) =
        >>=-ok (check (not (ends_in_selector path)) (no_field_name op.path)) _ e₂ in
      let nonempty =
        (parse_path_sound op.path (lift_path_ok (parse_path op.path) path parsed)).0.0 in
      subst EndsInField (compile_rest-path op path c e₃) (
        nonempty,
        ground (arith, check_ok (not (ends_in_selector path)) (no_field_name op.path) u ends),
      )

  pub compile-EndsInField :
      (ops : List Operation) (plan : List (Compiled Any))
      → compile y ops ≡ ok plan
      → All (λ c. EndsInField c.path) plan
  unfolding compile
  compile-EndsInField [] [] e = tt
  compile-EndsInField [] (c ∷ plan) e = absurd (cc)
  compile-EndsInField (op ∷ ops) plan e =
      let (c, ec, e₁) =
        >>=-ok (compile_one y op) (λ c. do later ← compile y ops; ok (c ∷ later)) e in
      let (later, el, e₂) = >>=-ok (compile y ops) (λ later. ok (c ∷ later)) e₁ in
      let same : c ∷ later ≡ plan = cc in
      subst (All (λ (c : Compiled Any). EndsInField c.path)) same
        (compile_one-EndsInField op c ec, compile-EndsInField ops later el)
