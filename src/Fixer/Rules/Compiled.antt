-- ===== src/Fixer/Rules/Compiled.antt =====
-- `compile` of internal/fixer/fixer.go on the plans of internal/fixer/rules.go.
use aegis_ebpf.Base.{◌≡◌, refl, true, List, [], ◌∷◌, some, ok, All}
use aegis_ebpf.Events.Types.{AuditEvent}
use aegis_ebpf.Fixer.Operation.{Operation, Compiled, is_known, is_supported, compile_one, compile}
use aegis_ebpf.Fixer.Rules.Plans.{Compiles, HasValidName, named_plans-Compiles}
use aegis_ebpf.Fixer.Rules.{plan, default_rules}
use aegis_ebpf.Fixer.Yaml.{Value, Node, Yaml}

-- An operation that the engine knows, on a value of a type that it takes.
abbrev IsRegular : Operation → Type 0
IsRegular op = (is_known op.op ≡ true) × (is_supported op.value ≡ true)

default_plans-IsRegular : (ev : AuditEvent) → All (λ r. All IsRegular (plan r ev)) default_rules
unfolding plan
default_plans-IsRegular ev =
    (((refl, refl), tt), (((refl, refl), ((refl, refl), tt)), (((refl, refl), tt), tt)))

module _ (y : Yaml) where
  -- What the library's documentation says of `Node.Encode` and `Node.Decode`: a Boolean, an integer
  -- or a string has a node, and that node has a value.
  abbrev pub EncodesScalars : Type 0
  EncodesScalars =
      (v : Value)
      → is_supported v ≡ true
      → (n : Node) × (a : y.Any) × (y.encode_value v ≡ some n) × (y.decode_any n ≡ some a)

  -- `compile` takes the operations.
  abbrev pub CompilesAll : List Operation → Type 0
  CompilesAll ops = (plan : List (Compiled y.Any)) × (compile y ops ≡ ok plan)

  compile_one_ok :
      (op : Operation)
      → EncodesScalars
      → Compiles op
      → IsRegular op
      → (c : Compiled y.Any) × (compile_one y op ≡ ok c)
  unfolding compile_one
  compile_one_ok op enc (path, parsed, ends) (known, supported) =
      let (n, a, encoded, decoded) = enc op.value supported in
      (
        record { op = op.op; path = path; want = a },
        rw known (rw parsed (rw ends (rw supported (rw encoded (rw decoded refl))))),
      )

  compile_ok :
      (ops : List Operation)
      → EncodesScalars
      → All Compiles ops
      → All IsRegular ops
      → CompilesAll ops
  unfolding compile
  compile_ok [] enc c r = ([], refl)
  compile_ok (op ∷ ops) enc (c, cs) (r, rs) =
      let (one, e) = compile_one_ok op enc c r in
      let (rest, es) = compile_ok ops enc cs rs in (one ∷ rest, rw e (rw es refl))

  -- The engine takes every plan of the default rules, for an event whose container has a valid name.
  pub default_plans-CompilesAll :
      EncodesScalars
      → All
          (λ r. (ev : AuditEvent) → HasValidName ev.container → CompilesAll (plan r ev))
          default_rules
  default_plans-CompilesAll enc = (
    (λ ev v. compile_ok _ enc (named_plans-Compiles ev v).0 (default_plans-IsRegular ev).0),
    (
      (λ ev v. compile_ok _ enc (named_plans-Compiles ev v).1.0 (default_plans-IsRegular ev).1.0),
      (
        (λ ev v.
            compile_ok _ enc (named_plans-Compiles ev v).1.1.0 (default_plans-IsRegular ev).1.1.0),
        tt,
      ),
    ),
  )
