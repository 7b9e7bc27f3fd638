-- ===== src/Fixer/Yaml.antt =====
-- The syntax trees of go.yaml.in/yaml/v3 that internal/fixer/fixer.go edits, its own functions on
-- them, and what the program takes from the library as a parameter.
pub mod Fields
use aegis_ebpf.Base.{
  ℕ, ℤ, ◌+◌, Bool, true, false, ◌&&◌, ◌||◌, List, [], ◌∷◌, ◌++◌, Option, none, some, ◌==◌, ◌=b◌,
  if◌then◌else◌, Bytes, codes, Result,
}

pub data NodeKind : Type 0 where
  document_node mapping_node sequence_node scalar_node alias_node : NodeKind

-- The style bits: `yaml.FlowStyle`, and the others.
pub record Style : Type 0 where
  pub flow : Bool
  pub others : ℕ

pub record Attrs : Type 0 where
  pub style : Style
  pub tag : Bytes
  pub value : Bytes
  pub anchor : Bytes
  pub comments : Bytes
  pub line : ℕ
  pub column : ℕ

-- `yaml.Node` with its `Content`. An alias is a leaf: the engine never follows one.
mutual
  pub data Node : Type 0 where
    node : NodeKind → Attrs → Nodes → Node

  pub data Nodes : Type 0 where
    nil : Nodes
    cons : Node → Nodes → Nodes

abbrev pub kind : Node → NodeKind
kind (node k _ _) = k

abbrev pub attrs : Node → Attrs
attrs (node _ a _) = a

abbrev pub content : Node → Nodes
content (node _ _ c) = c

abbrev pub with_content : Node → Nodes → Node
with_content (node k a _) c = node k a c

abbrev pub document_kind : NodeKind → Bool
document_kind document_node = true
document_kind _ = false

abbrev pub is_document : Node → Bool
is_document n = document_kind (kind n)

abbrev pub mapping_kind : NodeKind → Bool
mapping_kind mapping_node = true
mapping_kind _ = false

abbrev pub is_mapping : Node → Bool
is_mapping n = mapping_kind (kind n)

abbrev pub sequence_kind : NodeKind → Bool
sequence_kind sequence_node = true
sequence_kind _ = false

abbrev pub is_sequence : Node → Bool
is_sequence n = sequence_kind (kind n)

abbrev pub scalar_kind : NodeKind → Bool
scalar_kind scalar_node = true
scalar_kind _ = false

abbrev pub is_scalar : Node → Bool
is_scalar n = scalar_kind (kind n)

abbrev pub is_empty : Nodes → Bool
is_empty nil = true
is_empty (cons _ _) = false

abbrev pub any_node : (Node → Bool) → Nodes → Bool
any_node p nil = false
any_node p (cons n ns) = p n || any_node p ns

-- The zero values of the fields that a new node does not set.
abbrev pub plain : Bytes → Bytes → Attrs
plain tag value = record {
  style = record { flow = false; others = 0 };
  tag = tag;
  value = value;
  anchor = [];
  comments = [];
  line = 0;
  column = 0;
}

abbrev pub key_node : Bytes → Node
key_node key = node scalar_node (plain (codes "!!str") key) nil

unfoldable pub names_key : Bytes → Node → Bool
names_key key k = is_scalar k && (attrs k).value =b key

-- `lookup`: keys and values alternate, and an odd node at the end is not read.
unfoldable pub lookup : Bytes → Nodes → Option Node
lookup key nil = none
lookup key (cons k nil) = none
lookup key (cons k (cons v rest)) = if names_key key k then some v else lookup key rest

-- A write through the pointer that `lookup` returns.
unfoldable pub store : Bytes → Node → Nodes → Nodes
store key w nil = nil
store key w (cons k nil) = cons k nil
store key w (cons k (cons v rest)) =
    if names_key key k then cons k (cons w rest) else cons k (cons v (store key w rest))

-- `append(content, a)`.
unfoldable pub snoc : Nodes → Node → Nodes
snoc nil a = cons a nil
snoc (cons n ns) a = cons n (snoc ns a)

-- `scalar`.
unfoldable pub scalar_text : Option Node → Bytes
scalar_text none = []
scalar_text (some n) = if is_scalar n then (attrs n).value else []

-- `Operation.Value`: a Go value of one of the types that `compile` tells apart. `other` is a value
-- of any other type.
pub data Value : Type 0 where
  boolean : Bool → Value
  integer : ℤ → Value
  text : Bytes → Value
  other : Value

-- What the engine calls of the library. `Any` is what a scalar decodes to, and `any_eq` is Go's
-- `==` on it; `none` is an error. A stream decodes to its documents, or to the text of the error.
pub record Yaml : Type 1 where
  pub Any : Type 0
  pub any_eq : Any → Any → Bool
  pub encode_value : Value → Option Node
  pub encode_any : Any → Node
  pub decode_any : Node → Option Any
  pub short_tag : Node → Bytes
  pub decode_stream : Bytes → Result Bytes (List Node)
  pub encode_document : ℕ → Bool → Node → Option Bytes

module _ (y : Yaml) where
  unfoldable pub is_null : Node → Bool
  is_null n = is_scalar n && y.short_tag n =b codes "!!null"

  -- `v == nil || isNull(v)`.
  abbrev pub absent : Option Node → Bool
  absent none = true
  absent (some v) = is_null v
