-- ===== src/Fixer/Rules.antt =====
-- internal/fixer/rules.go: the built-in rules, what they match and the plans that they propose.
pub mod Plans
pub mod Compiled
use aegis_ebpf.Base.{
  ℕ, Bool, true, false, not, ◌&&◌, ◌||◌, List, [], ◌∷◌, ◌++◌, Option, none, some, map, any, ◌==◌,
  ◌=b◌, if◌then◌else◌, Bytes, codes,
}
use aegis_ebpf.Events.Types.{
  Severity, severity_medium, severity_high, severity_critical, kind_process_exec,
  kind_privilege_escalation, Payload, file_open, Container, AuditEvent,
}
use aegis_ebpf.Fixer.Operation.{op_set, op_add, Operation}
use aegis_ebpf.Fixer.Yaml.{boolean, text}
use aegis_ebpf.Go.Clean.{clean_rooted}
use aegis_ebpf.Go.Text.{has_prefix}

pub record Rule : Type 0 where
  pub id : Bytes
  pub title : Bytes
  pub severity : Severity
  pub matches : AuditEvent → Bool
  pub fix : List Operation

abbrev pub has_container : AuditEvent → Bool
has_container ev = elim ev.container [ none ↦ false | some _ ↦ true ]

-- The container whose name the plan selects: every container where the name is not known.
abbrev pub named_target : Bytes → Bytes
named_target name =
    if name =b [] then codes "containers[*]" else codes "containers[name=" ++ (name ++ codes "]")

abbrev pub target : Option Container → Bytes
target none = codes "containers[*]"
target (some c) = named_target c.name

abbrev pub aim : Bytes → Operation → Operation
aim at op = record { op = op.op; path = at ++ b'.' ∷ op.path; value = op.value }

-- `Rule.Plan`.
unfoldable pub plan : Rule → AuditEvent → List Operation
plan r ev = map (aim (target ev.container)) r.fix

abbrev pub system_dirs : List Bytes
system_dirs =
    codes "/bin"
    ∷ codes "/boot"
    ∷ codes "/etc"
    ∷ codes "/lib"
    ∷ codes "/lib32"
    ∷ codes "/lib64"
    ∷ codes "/root"
    ∷ codes "/sbin"
    ∷ codes "/usr"
    ∷ []

abbrev pub under : Bytes → Bytes → Bool
under p dir = p =b dir || has_prefix (dir ++ b'/' ∷ []) p

-- `underSystemDir`.
unfoldable pub under_system_dir : Bytes → Bool
unfolding clean_rooted has_prefix
under_system_dir p =
    if not (has_prefix (codes "/") p) then false else any (under (clean_rooted p)) system_dirs

opens_system_file : Option Payload → Bool
opens_system_file (some (file_open d)) = under_system_dir d.path
opens_system_file _ = false

unfoldable pub matches_root : AuditEvent → Bool
matches_root ev = ev.kind =b kind_process_exec && has_container ev && ev.process.uid == 0

unfoldable pub matches_escalation : AuditEvent → Bool
matches_escalation ev = ev.kind =b kind_privilege_escalation && has_container ev

unfoldable pub matches_system_write : AuditEvent → Bool
unfolding opens_system_file
matches_system_write ev = opens_system_file ev.payload && has_container ev

abbrev pub fix_non_root : Operation
fix_non_root = record {
  op = op_set;
  path = codes "securityContext.runAsNonRoot";
  value = boolean true;
}

abbrev pub fix_no_escalation : Operation
fix_no_escalation = record {
  op = op_set;
  path = codes "securityContext.allowPrivilegeEscalation";
  value = boolean false;
}

abbrev pub fix_drop_all : Operation
fix_drop_all = record {
  op = op_add;
  path = codes "securityContext.capabilities.drop";
  value = text (codes "ALL");
}

abbrev pub fix_read_only : Operation
fix_read_only = record {
  op = op_set;
  path = codes "securityContext.readOnlyRootFilesystem";
  value = boolean true;
}

abbrev pub rule_root : Rule
rule_root = record {
  id = codes "AEG-001";
  title = codes "Container process running as root";
  severity = severity_medium;
  matches = matches_root;
  fix = fix_non_root ∷ [];
}

abbrev pub rule_escalation : Rule
rule_escalation = record {
  id = codes "AEG-002";
  title = codes "Privilege escalation to root";
  severity = severity_critical;
  matches = matches_escalation;
  fix = fix_no_escalation ∷ fix_drop_all ∷ [];
}

abbrev pub rule_system_write : Rule
rule_system_write = record {
  id = codes "AEG-003";
  title = codes "Write to a system directory";
  severity = severity_high;
  matches = matches_system_write;
  fix = fix_read_only ∷ [];
}

-- `DefaultRules`. The descriptions, which no code reads, are left out.
abbrev pub default_rules : List Rule
default_rules = rule_root ∷ rule_escalation ∷ rule_system_write ∷ []
