-- ===== src/Tests/Samples.antt =====
-- Events that the sensor could send.
use aegis_ebpf.Base.{pos, [], ◌∷◌, none, some, codes, replicate}
use aegis_ebpf.Events.Types.{
  kind_file_open, kind_process_exec, FileOpen, file_open, Container, AuditEvent, Process,
}

abbrev pub opened_file : FileOpen
opened_file = record { path = codes "/etc/passwd"; flags = codes "O_WRONLY" ∷ codes "O_CREAT" ∷ [] }

abbrev pub shell : Process
shell = record { pid = pos 7; ppid = pos 1; uid = 0; gid = 0; comm = codes "sh"; cgroup_id = 3 }

abbrev pub web_container : Container
web_container = record {
  id = replicate 64 b'a';
  runtime = codes "containerd";
  name = codes "web";
  pod = none;
}

abbrev pub file_event : AuditEvent
file_event = record {
  id = [];
  kind = kind_file_open;
  time = 5;
  node = codes "node-1";
  severity = [];
  process = shell;
  container = some web_container;
  payload = some (file_open opened_file);
}

-- The event says that it is of another kind than its payload.
abbrev pub mismatched_event : AuditEvent
mismatched_event = record file_event { kind = kind_process_exec }
