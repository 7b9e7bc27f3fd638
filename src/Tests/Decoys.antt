-- ===== src/Tests/Decoys.antt =====
-- The policy of internal/decoy/decoy.go on two containers, one of which asks twice.
use aegis_ebpf.Base.{
  ◌≤◌, ◌≡◌, ◌≢◌, ◌⊎◌, refl, pos, true, false, [], ◌∷◌, none, some, codes, length, arith, ◌=b◌,
}
use aegis_ebpf.Base.Maps.{find, insert, bytes_key}
use aegis_ebpf.Decoy.Policy.{IsAdmitted, reserved, admit_lem}
use aegis_ebpf.Decoy.Runs.{Run, started, asked, ended, AllDifferent, Spaced, Run-capped, Run-Spaced}
use aegis_ebpf.Decoy.{Trigger, Decoy, DecoyConfig, Responder, new_responder, admit, confirm, finish}
use aegis_ebpf.Events.Types.{zero_time, severity_high}
use aegis_ebpf.Go.Text.{contains}

abbrev pub two_decoys : DecoyConfig
two_decoys = record { max_decoys = pos 2; min_interval = pos 10; remove_on_close = none }

abbrev pub idle : Responder
idle = new_responder two_decoys

abbrev pub web_trigger : Trigger
web_trigger = record {
  container_id = codes "web";
  severity = severity_high;
  namespace = [];
  pod_name = [];
}

abbrev db_trigger : Trigger
db_trigger = record web_trigger { container_id = codes "db" }

abbrev web_decoy : Decoy
web_decoy = record { id = codes "d1"; name = codes "decoy"; network = codes "net"; namespace = [] }

admit_lem_example :
    (IsAdmitted 5 idle web_trigger
      × (admit 5 idle web_trigger ≡ (true, reserved 5 idle web_trigger)))
    ⊎ ((¬ IsAdmitted 5 idle web_trigger) × (admit 5 idle web_trigger ≡ (false, idle)))
admit_lem_example = admit_lem 5 idle web_trigger

set_5 : 5 ≢ zero_time
unfolding zero_time
set_5 e = absurd (omega (arith, e))

set_15 : 15 ≢ zero_time
unfolding zero_time
set_15 e = absurd (omega (arith, e))

abbrev after_web : Responder
after_web = reserved 5 idle web_trigger

first-Run : Run after_web (codes "web" ∷ []) (5 ∷ [])
unfolding admit new_responder find zero_time
first-Run = asked 5 idle web_trigger [] [] set_5 (started two_decoys)

abbrev after_confirm : Responder
after_confirm = finish (codes "web") (some web_decoy) after_web

confirmed-Run : Run after_confirm [] (5 ∷ [])
unfolding contains ◌=b◌
confirmed-Run =
    ended (codes "web") (some web_decoy) after_web (codes "web" ∷ []) (5 ∷ []) refl first-Run

abbrev after_db : Responder
after_db = reserved 15 after_confirm db_trigger

second-Run : Run after_db (codes "db" ∷ []) (15 ∷ 5 ∷ [])
unfolding admit new_responder find zero_time finish confirm insert ◌=b◌
second-Run = asked 15 after_confirm db_trigger [] (5 ∷ []) set_15 confirmed-Run

Run-capped_example :
    (length after_db.by_container ≤ after_db.max_decoys) × AllDifferent (codes "db" ∷ [])
Run-capped_example = Run-capped after_db (codes "db" ∷ []) (15 ∷ 5 ∷ []) second-Run

Run-Spaced_example : Spaced after_db.min_interval (15 ∷ 5 ∷ [])
Run-Spaced_example = Run-Spaced after_db (codes "db" ∷ []) (15 ∷ 5 ∷ []) second-Run
