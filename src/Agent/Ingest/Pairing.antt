-- ===== src/Agent/Ingest/Pairing.antt =====
-- The two maps of remediations of internal/agent/agent.go, over whole batches.
use aegis_ebpf.Base.Maps.{find, bytes_key, pair_key}
use aegis_ebpf.Base.{◌+◌, refl, ℕ, ◌<◌, ◌≡◌, List, Bytes, some, arith}
use aegis_ebpf.Agent.Ingest.Batches.{Reaches}
use aegis_ebpf.Agent.Ingest.Keeping.{Keeps, Reaches-keeps_always}
use aegis_ebpf.Agent.Remediations.Consistent.{Consistent, record_at-Consistent}
use aegis_ebpf.Agent.Remediations.Linked.{Linked-one}
use aegis_ebpf.Agent.Remediations.{record_match, rem_key}
use aegis_ebpf.Agent.Ring.{store}
use aegis_ebpf.Agent.State.{Agent, Remediation, new}
use aegis_ebpf.Events.Types.{AuditEvent}

module _ (new_id : ℕ → Bytes) (distinct : (i j : ℕ) → new_id i ≡ new_id j → i ≡ j) where
  keeps-Consistent : Keeps new_id (λ r. Unit) (λ ev. Unit) (Consistent new_id)
  unfolding new store find record_match
  keeps-Consistent = record {
    starts = λ cfg. record {
      linked = record { forward = λ key id e. absurd (cc); back = λ id rem e. absurd (cc) };
      once = tt;
      known = λ id rem e. absurd (cc);
    };
    accepts = λ a ev h. tt;
    raises = λ r ev v. tt;
    records = λ a r ev c here v s.
        record_at-Consistent new_id distinct a r ev c (find (r.id, c.id) a.rem_for) refl s;
    issues = λ a s. record {
      linked = s.linked;
      once = s.once;
      known = λ id rem e. later (s.known id rem e);
    };
    stores = λ a ev s. record { linked = s.linked; once = s.once; known = s.known };
  }
    where
      later :
          {id : Bytes} {n : ℕ}
          → (k : ℕ) × (k < n) × (id ≡ new_id k)
          → (k : ℕ) × (k < n + 1) × (id ≡ new_id k)
      later (k, lt, e) = (k, omega (arith, lt), e)

  pub Reaches-Consistent :
      (a : Agent) (h : List AuditEvent) → Reaches new_id a h → Consistent new_id a
  Reaches-Consistent = Reaches-keeps_always new_id keeps-Consistent (λ r. tt)

  -- In an agent that has taken any sequence of batches since `New`, two open remediations for the
  -- same rule and container are one: for IDs that are all different.
  pub Reaches-one :
      (a : Agent) (h : List AuditEvent) (i j : Bytes) (r s : Remediation)
      → Reaches new_id a h
      → find i a.rems ≡ some r
      → find j a.rems ≡ some s
      → rem_key r ≡ rem_key s
      → i ≡ j
  Reaches-one a h i j r s reached =
      Linked-one a.rems a.rem_for i j r s (Reaches-Consistent a h reached).linked
