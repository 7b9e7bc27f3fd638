-- ===== src/Tests/Pairs.antt =====
-- Two events of one container that match one rule of internal/fixer/rules.go.
use aegis_ebpf.Base.{◌=b◌, ◌≡◌, refl, true, List, [], ◌∷◌, some, ok}
use aegis_ebpf.Base.Maps.{find, insert, pair_same, bytes_key}
use aegis_ebpf.Agent.Remediations.{record_match}
use aegis_ebpf.Agent.Ring.{store}
use aegis_ebpf.Go.Text.{position}
use aegis_ebpf.Agent.Ingest.Batches.{Reaches, fresh, taken}
use aegis_ebpf.Agent.Ingest.Follows.{onto}
use aegis_ebpf.Agent.Ingest.Pairing.{Reaches-one}
use aegis_ebpf.Agent.Ingest.{
  Ingested, invalid_from, ingest_one, ingest_all, responded, outcome, ingest,
}
use aegis_ebpf.Agent.State.{Remediation, new}
use aegis_ebpf.Events.Types.{AuditEvent, rank}
use aegis_ebpf.Fixer.Rules.{
  rule_system_write, plan, matches_root, matches_escalation, matches_system_write, under_system_dir,
}
use aegis_ebpf.Tests.Agents.{counter_id, counter_id-distinct, small}
use aegis_ebpf.Tests.Audits.{file_event-valid}
use aegis_ebpf.Tests.Samples.{file_event, web_container}

abbrev twice : List AuditEvent
twice = file_event ∷ file_event ∷ []

abbrev outcome_of : Ingested
outcome_of = record {
  agent = (ingest_all counter_id (new small) twice).1;
  stored = (ingest_all counter_id (new small) twice).0;
  to_responder = responded true (ingest_all counter_id (new small) twice).0;
}

twice_taken : ingest counter_id (new small) twice ≡ ok outcome_of
unfolding ingest invalid_from outcome new
twice_taken = rw file_event-valid

twice-Reaches : Reaches counter_id outcome_of.agent (onto outcome_of.stored [])
twice-Reaches = taken (new small) [] twice outcome_of (fresh small) twice_taken

abbrev seen_twice : Remediation
seen_twice = record {
  id = counter_id 1;
  rule = rule_system_write;
  container = web_container;
  event_id = counter_id 0;
  occurrences = 2;
  first_seen = 5;
  last_seen = 5;
  operations = plan rule_system_write file_event;
}

found_seen : find (counter_id 1) outcome_of.agent.rems ≡ some seen_twice
unfolding ingest_all find ingest_one store new matches_root ◌=b◌ matches_escalation
    matches_system_write under_system_dir rank position record_match insert pair_same plan
found_seen = refl

Reaches-one_example : counter_id 1 ≡ counter_id 1
Reaches-one_example =
    Reaches-one counter_id counter_id-distinct outcome_of.agent (onto outcome_of.stored [])
      (counter_id 1) (counter_id 1) seen_twice seen_twice twice-Reaches found_seen found_seen refl
