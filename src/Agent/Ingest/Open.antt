-- ===== src/Agent/Ingest/Open.antt =====
-- The bound on open remediations of internal/agent/agent.go, over whole batches.
use aegis_ebpf.Base.{ℕ, ◌<◌, List, Bytes, arith, ℤ, pos, negsuc, zero, suc}
use aegis_ebpf.Agent.Ingest.Batches.{Reaches}
use aegis_ebpf.Agent.Ingest.Keeping.{Keeps, Reaches-keeps_always}
use aegis_ebpf.Agent.Remediations.Bounds.{Bounded, record_match-Bounded}
use aegis_ebpf.Agent.Ring.{store}
use aegis_ebpf.Agent.State.{Agent, or_default, new}
use aegis_ebpf.Events.Types.{AuditEvent}

or_default_pos : (n : ℤ) → 0 < or_default n
or_default_pos (pos zero) = omega arith
or_default_pos (pos (suc n)) = omega arith
or_default_pos (negsuc n) = omega arith

module _ (new_id : ℕ → Bytes) where
  keeps-Bounded : Keeps new_id (λ r. Unit) (λ ev. Unit) Bounded
  unfolding new store
  keeps-Bounded = record {
    starts = λ cfg. record {
      bound = omega arith;
      positive = or_default_pos cfg.max_remediations;
      keyed = tt;
    };
    accepts = λ a ev h. tt;
    raises = λ r ev v. tt;
    records = λ a r ev c here v s. record_match-Bounded new_id a r ev c s;
    issues = λ a s. record { bound = s.bound; positive = s.positive; keyed = s.keyed };
    stores = λ a ev s. record { bound = s.bound; positive = s.positive; keyed = s.keyed };
  }

  -- An agent that has taken any sequence of batches since `New` has at most as many open
  -- remediations as it was configured for, each under its own ID.
  pub Reaches-Bounded : (a : Agent) (h : List AuditEvent) → Reaches new_id a h → Bounded a
  Reaches-Bounded = Reaches-keeps_always new_id keeps-Bounded (λ r. tt)
