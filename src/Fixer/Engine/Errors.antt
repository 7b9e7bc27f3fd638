-- ===== src/Fixer/Engine/Errors.antt =====
-- Which errors the engine of internal/fixer/fixer.go returns for a plan that compiles.
use mathlib.Core.Path.{subst}
use aegis_ebpf.Base.{
  ℕ, ◌+◌, ◌≡◌, ◌≢◌, refl, Bool, true, false, List, [], ◌∷◌, Option, none, some, Bytes, Result, ok,
  err, ◌>>=◌, All, if◌then◌else◌,
}
use aegis_ebpf.Fixer.Engine.{
  Edit, edit, edit_value, walk_items, through_list, create, through_key, step, walk, run_plan,
  selects, item_pointer,
}
use aegis_ebpf.Fixer.Operation.{
  Op, op_set, op_add, op_other, Compiled, ApplyError, syntax, no_workload, conflict, encode_failed,
  ends_in_selector, has_selector,
}
use aegis_ebpf.Fixer.Path.{Selector, Segment, FieldPath}
use aegis_ebpf.Fixer.Yaml.{Node, Nodes, nil, cons, lookup, content, Yaml}

-- The manifest is not YAML, has no workload or a field of the wrong type; or the encoder failed.
abbrev pub IsExpected : ApplyError → Type 0
IsExpected (syntax _) = Unit
IsExpected no_workload = Unit
IsExpected (conflict _ _ _ _) = Unit
IsExpected encode_failed = Unit
IsExpected _ = ⊥

-- A result, or an error that is expected.
pub data FailsWell {A : Type 0} : Result ApplyError A → Type 0 where
  well : (a : A) → FailsWell (ok a)
  expected : (e : ApplyError) → IsExpected e → FailsWell (err e)

pub FailsWell-err :
    {A : Type 0} {r : Result ApplyError A}
    → FailsWell r
    → (e : ApplyError) → r ≡ err e
    → IsExpected e
FailsWell-err (well a) e h = cc
FailsWell-err (expected d i) e h = subst IsExpected (cc) i

pub if-FailsWell :
    {A : Type 0} (b : Bool) {m n : Result ApplyError A}
    → FailsWell m
    → FailsWell n
    → FailsWell (if b then m else n)
if-FailsWell true hm hn = hm
if-FailsWell false hm hn = hn

pub bind-FailsWell :
    {A B : Type 0} {m : Result ApplyError A} (f : A → Result ApplyError B)
    → FailsWell m
    → ((a : A) → FailsWell (f a))
    → FailsWell (m >>= f)
bind-FailsWell f (well a) hf = hf a
bind-FailsWell f (expected e i) hf = expected e i

-- What `compile` makes sure of: the walk ends at a field.
abbrev pub EndsInField : FieldPath → Type 0
EndsInField path = (path ≢ []) × (ends_in_selector path ≡ false)

module _ (y : Yaml) where
  open y use {Any}

  edit_value-FailsWell :
      (c : Compiled Any) (op : Op) (m : Node) (key : Bytes) (v : Node) (ptr : Bytes)
      → FailsWell (edit_value y c op m key v ptr)
  unfolding edit_value
  edit_value-FailsWell c op_set m key v ptr =
      if-FailsWell _ (expected _ tt) (if-FailsWell _ (well _) (well _))
  edit_value-FailsWell c op_add m key v ptr =
      if-FailsWell _ (expected _ tt) (if-FailsWell _ (well _) (well _))
  edit_value-FailsWell c (op_other s) m key v ptr = well _

  edit-FailsWell :
      (c : Compiled Any) (m : Node) (key : Bytes) (v : Option Node) (ptr : Bytes)
      → FailsWell (edit y c m key v ptr)
  unfolding edit
  edit-FailsWell c m key none ptr = well _
  edit-FailsWell c m key (some v) ptr =
      if-FailsWell _ (well _) (edit_value-FailsWell c c.op m key v ptr)

  module _ (sub : Node → Bytes → Edit Any)
      (sound : (n : Node) (ptr : Bytes) → FailsWell (sub n ptr)) where
    walk_items-FailsWell :
        (sel : Selector) (ptr : Bytes) (i : ℕ) (items : Nodes)
        → FailsWell (walk_items y sel sub ptr i items)
    unfolding walk_items
    walk_items-FailsWell sel ptr i nil = well _
    walk_items-FailsWell sel ptr i (cons item items) =
        bind-FailsWell _
          (if-FailsWell (selects sel i item) (sound item (item_pointer ptr i)) (well _))
          λ p. bind-FailsWell _ (walk_items-FailsWell sel ptr (i + 1) items) (λ q. well _)

    through_list-FailsWell :
        (sel : Selector) (n : Node) (key : Bytes) (v : Option Node) (ptr : Bytes)
        → FailsWell (through_list y sel sub n key v ptr)
    unfolding through_list
    through_list-FailsWell sel n key none ptr = well _
    through_list-FailsWell sel n key (some v) ptr = if-FailsWell _ (well _) (
        if-FailsWell _ (expected _ tt)
          (bind-FailsWell _ (walk_items-FailsWell sel ptr 0 (content v)) (λ p. well _)))

    create-FailsWell :
        (c : Compiled Any) (rest : FieldPath) (n : Node) (key : Bytes) (old : Option Node)
        (ptr : Bytes)
        → FailsWell (create y c rest n key old ptr)
    unfolding create
    create-FailsWell c rest n key old ptr = if-FailsWell _ (well _) (well _)

    through_key-FailsWell :
        (c : Compiled Any) (rest : FieldPath) (n : Node) (key : Bytes) (v : Option Node)
        (ptr : Bytes)
        → FailsWell (through_key y c rest sub n key v ptr)
    unfolding through_key
    through_key-FailsWell c rest n key none ptr = create-FailsWell c rest n key none ptr
    through_key-FailsWell c rest n key (some v) ptr =
        if-FailsWell _ (create-FailsWell c rest n key (some v) ptr)
          (bind-FailsWell _ (sound v ptr) (λ p. well _))

  step-FailsWell :
      (c : Compiled Any) (seg : Segment) (sub : Node → Bytes → Edit Any) (n : Node) (ptr : Bytes)
      → has_selector seg ≡ false
      → FailsWell (step y c seg [] sub n ptr)
  unfolding step
  step-FailsWell c seg sub n ptr e =
      rw e (edit-FailsWell c n seg.key (lookup seg.key (content n)) ptr)

  step_deeper-FailsWell :
      (c : Compiled Any) (seg next : Segment) (rest : FieldPath) (sub : Node → Bytes → Edit Any)
      (n : Node) (ptr : Bytes)
      → ((m : Node) (at : Bytes) → FailsWell (sub m at))
      → FailsWell (step y c seg (next ∷ rest) sub n ptr)
  unfolding step
  step_deeper-FailsWell c seg next rest sub n ptr deeper =
      if-FailsWell (has_selector seg) (through_list-FailsWell sub deeper seg.sel n seg.key _ ptr)
        (through_key-FailsWell sub deeper c (next ∷ rest) n seg.key _ ptr)

  walk-FailsWell :
      (c : Compiled Any) (path : FieldPath)
      → EndsInField path
      → (n : Node) (ptr : Bytes) → FailsWell (walk y c path n ptr)
  unfolding walk
  walk-FailsWell c [] h n ptr = absurd (h.0 refl)
  walk-FailsWell c (seg ∷ []) h n ptr =
      if-FailsWell _ (expected _ tt) (step-FailsWell c seg (walk y c []) n _ h.1)
  walk-FailsWell c (seg ∷ next ∷ rest) h n ptr = if-FailsWell _ (expected _ tt) (
      step_deeper-FailsWell c seg next rest (walk y c (next ∷ rest)) n _
        (walk-FailsWell c (next ∷ rest) ((λ e. cc), h.1)))

  pub run_plan-FailsWell :
      (plan : List (Compiled Any))
      → All (λ c. EndsInField c.path) plan
      → (n : Node) (ptr : Bytes) → FailsWell (run_plan y plan n ptr)
  unfolding run_plan
  run_plan-FailsWell [] h n ptr = well _
  run_plan-FailsWell (c ∷ plan) (here, h) n ptr =
      bind-FailsWell _ (walk-FailsWell c c.path here n ptr)
        λ p. bind-FailsWell _ (run_plan-FailsWell plan h p.0 ptr) (λ q. well _)
