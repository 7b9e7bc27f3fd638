-- ===== src/Agent/Listing.antt =====
-- internal/agent/agent.go: `Remediations`, `Remediation` and `Patch`.
pub mod Order
pub mod Unordered
use aegis_ebpf.Base.Maps.{find, bytes_key}
use aegis_ebpf.Base.{
  ℕ, zero, suc, ◌+◌, Bool, true, false, not, ◌&&◌, ◌||◌, List, [], ◌∷◌, Option, none, some, Bytes,
  Result, ok, err, ltb, leb, ◌==◌, ◌=b◌, if◌then◌else◌, take, filter, map,
}
use aegis_ebpf.Agent.State.{Agent, Remediation}
use aegis_ebpf.Events.Types.{Severity, rank}
use aegis_ebpf.Fixer.Apply.{ApplyResult, apply}
use aegis_ebpf.Fixer.Operation.{ApplyError}
use aegis_ebpf.Fixer.Yaml.{Yaml}

-- A limit that is not positive is 0.
pub record RemediationFilter : Type 0 where
  pub min_severity : Severity
  pub container_id : Bytes
  pub limit : ℕ

unfoldable pub passes : RemediationFilter → Remediation → Bool
passes f rem =
    leb (rank f.min_severity) (rank rem.rule.severity)
    && (f.container_id =b [] || rem.container.id =b f.container_id)

-- `cmp.Compare(a, b) < 0` on strings.
unfoldable pub bytes_before : Bytes → Bytes → Bool
bytes_before a [] = false
bytes_before [] (d ∷ b) = true
bytes_before (c ∷ a) (d ∷ b) =
    let rest = bytes_before a b in if ltb c d then true else if c == d then rest else false

-- The function given to `slices.SortFunc` is negative: `x` stands before `y`.
unfoldable pub stands_before : Remediation → Remediation → Bool
stands_before x y =
    ltb y.last_seen x.last_seen || x.last_seen == y.last_seen && bytes_before y.id x.id

-- `slices.SortFunc`, by insertion: IDs are distinct, so there is one sorted order.
unfoldable pub insert_sorted : Remediation → List Remediation → List Remediation
insert_sorted x [] = x ∷ []
insert_sorted x (y ∷ ys) =
    let rest = insert_sorted x ys in if stands_before y x then y ∷ rest else x ∷ y ∷ ys

unfoldable pub sort_remediations : List Remediation → List Remediation
sort_remediations [] = []
sort_remediations (x ∷ xs) = insert_sorted x (sort_remediations xs)

abbrev pub limited : ℕ → List Remediation → List Remediation
limited zero rems = rems
limited (suc n) rems = take (suc n) rems

abbrev pub values : List (Bytes × Remediation) → List Remediation
values [] = []
values ((_, rem) ∷ rems) = rem ∷ values rems

-- `Remediations`.
unfoldable pub remediations : Agent → RemediationFilter → List Remediation
remediations a f = limited f.limit (sort_remediations (filter (passes f) (values a.rems)))

-- `Remediation`: `none` is `ErrNotFound`.
abbrev pub remediation : Agent → Bytes → Option Remediation
remediation a id = find id a.rems

-- The errors of `Patch`.
pub data PatchError : Type 0 where
  not_found : PatchError
  apply_failed : ApplyError → PatchError

module _ (y : Yaml) where
  abbrev pub lift_apply :
      Result ApplyError (ApplyResult y.Any) → Result PatchError (ApplyResult y.Any)
  lift_apply (ok r) = ok r
  lift_apply (err e) = err (apply_failed e)

  abbrev pub patch_with : Bytes → Option Remediation → Result PatchError (ApplyResult y.Any)
  patch_with manifest none = err not_found
  patch_with manifest (some rem) = lift_apply (apply y manifest rem.operations)

  -- `Patch`.
  unfoldable pub patch : Agent → Bytes → Bytes → Result PatchError (ApplyResult y.Any)
  patch a id manifest = patch_with manifest (remediation a id)
