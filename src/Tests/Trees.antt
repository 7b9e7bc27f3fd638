-- ===== src/Tests/Trees.antt =====
-- The engine of internal/fixer/fixer.go on a pod spec, with a library whose scalars are texts.
use aegis_ebpf.Base.{
  ◌≡◌, refl, suc, pos, negsuc, true, false, List, [], ◌∷◌, Option, none, some, ok, Bytes, codes,
  ◌=b◌, =b_self,
}
use aegis_ebpf.Fixer.Engine.Idempotent.{walk_idempotent}
use aegis_ebpf.Fixer.Engine.Settled.{Storable}
use aegis_ebpf.Fixer.Engine.{
  overwrite, walk, step, through_list, walk_items, selects, edit, put, escape,
}
use aegis_ebpf.Go.Decimal.{decimal}
use aegis_ebpf.Fixer.Operation.{op_set, Compiled, patch_add, scalar, PatchOp}
use aegis_ebpf.Fixer.Path.{select_none, select_match, FieldPath}
use aegis_ebpf.Fixer.Yaml.Fields.{IsTree, is_even}
use aegis_ebpf.Fixer.Yaml.{
  Value, boolean, integer, text, other, Node, node, Nodes, nil, cons, mapping_node, sequence_node,
  plain, key_node, attrs, Yaml, is_null, lookup, names_key, store, snoc,
}

abbrev scalar_of : Value → Option Node
scalar_of (text s) = some (key_node s)
scalar_of (boolean true) = some (key_node (codes "true"))
scalar_of (boolean false) = some (key_node (codes "false"))
scalar_of (integer (pos n)) = some (key_node (decimal n))
scalar_of (integer (negsuc n)) = some (key_node (b'-' ∷ decimal (suc n)))
scalar_of other = none

abbrev pub texts : Yaml
texts = record {
  Any = Bytes;
  any_eq = ◌=b◌;
  encode_value = scalar_of;
  encode_any = key_node;
  decode_any = λ n. some (attrs n).value;
  short_tag = λ n. (attrs n).tag;
  decode_stream = λ s. ok [];
  encode_document = λ indent compact n. some (codes "encoded\n");
}

texts-Storable : (s : Bytes) → Storable texts s
unfolding is_null ◌=b◌
texts-Storable s = record { scalar = refl; back = back; present = present; self = =b_self s }
  where
    back : (old : Node) → texts.decode_any (overwrite old (key_node s)) ≡ some s
    back (node k a c) = refl

    present : (old : Node) → is_null texts (overwrite old (key_node s)) ≡ false
    present (node k a c) = refl

abbrev pub mapping : Nodes → Node
mapping entries = node mapping_node (plain (codes "!!map") []) entries

abbrev pub pod_spec : Nodes → Node
pod_spec entries = mapping (
    cons (key_node (codes "containers"))
      (cons (node sequence_node (plain (codes "!!seq") []) (cons (mapping entries) nil)) nil))

abbrev pub web : Nodes → Nodes
web more = cons (key_node (codes "name")) (cons (key_node (codes "web")) more)

abbrev image_path : FieldPath
image_path =
    record { key = codes "containers"; sel = select_match (codes "name") (codes "web") }
    ∷ record { key = codes "image"; sel = select_none }
    ∷ []

abbrev pub set_image : Compiled Bytes
set_image = record { op = op_set; path = image_path; want = codes "nginx" }

abbrev pub before : Node
before = pod_spec (web nil)

abbrev pub after : Node
after = pod_spec (web (cons (key_node (codes "image")) (cons (key_node (codes "nginx")) nil)))

abbrev image_added : List (PatchOp Bytes)
image_added =
    record {
      op = patch_add;
      path = codes "/spec/containers/0/image";
      value = scalar (codes "nginx");
    }
    ∷ []

first_walk : walk texts set_image image_path before (codes "/spec") ≡ ok (after, image_added)
unfolding walk step through_list lookup names_key ◌=b◌ is_null walk_items selects edit store put
    snoc escape decimal
first_walk = refl

key-IsTree : (s : Bytes) → IsTree (key_node s)
unfolding IsTree
key-IsTree s = (tt, tt)

before-IsTree : IsTree before
unfolding IsTree is_even
before-IsTree = (
  refl,
  (
    key-IsTree (codes "containers"),
    ((tt, ((refl, (key-IsTree (codes "name"), (key-IsTree (codes "web"), tt))), tt)), tt),
  ),
)

walk_idempotent_example : walk texts set_image image_path after (codes "/spec") ≡ ok (after, [])
walk_idempotent_example =
    walk_idempotent texts set_image (texts-Storable (codes "nginx")) image_path before
      (codes "/spec") after image_added before-IsTree first_walk
