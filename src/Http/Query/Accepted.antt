-- ===== src/Http/Query/Accepted.antt =====
-- Which queries `parseListQuery` of internal/agent/http.go accepts, and how they are read.
use mathlib.Core.Path.{subst}
use aegis_ebpf.Base.Maps.{find}
use aegis_ebpf.Base.{
  ℕ, ℤ, pos, negsuc, ◌≤◌, ◌≡◌, ◌≢◌, ◌⊎◌, inl, inr, ◌↔◌, refl, sym, ap, Bool, true, false, not, ◌&&◌,
  [], ◌∷◌, Option, none, some, Bytes, codes, ok, >>=-ok, arith, ◌=b◌, =b_iff, Bool-cases,
}
use aegis_ebpf.Events.Types.{is_severity}
use aegis_ebpf.Events.Validate.{valid_container_id}
use aegis_ebpf.Go.Decimal.{decimal}
use aegis_ebpf.Go.ParseInt.{parse_int, parse_int-decimal}
use aegis_ebpf.Http.Query.{
  default_limit, max_limit, Values, get, ListQuery, limit_in_range, limit_of, read_query,
  parse_list_query,
}

-- The limit that a text asks for: none, or a number from 1 to the greatest limit.
abbrev pub Asks : Bytes → ℕ → Type 0
Asks s n =
    ((s ≡ []) × (n ≡ default_limit)) ⊎ ((parse_int s ≡ some (pos n)) × (1 ≤ n) × (n ≤ max_limit))

-- The values that a list can be asked for.
pub record IsAllowed (q : ListQuery) : Type 0 where
  pub severity : (q.min_severity ≡ []) ⊎ (is_severity q.min_severity ≡ true)
  pub container : (q.container_id ≡ []) ⊎ (valid_container_id q.container_id ≡ true)

pub record Accepts (v : Values) (q : ListQuery) : Type 0 where
  pub severity_is : q.min_severity ≡ get (codes "min_severity") v
  pub container_is : q.container_id ≡ get (codes "container_id") v
  pub allowed : IsAllowed q
  pub limit : Asks (get (codes "limit") v) q.limit

limit_in_range_sound :
    (o : Option ℤ) (n : ℕ)
    → limit_in_range o ≡ ok n
    → (o ≡ some (pos n)) × (1 ≤ n) × (n ≤ max_limit)
limit_in_range_sound none n e = absurd (cc)
limit_in_range_sound (some (negsuc k)) n e = absurd (cc)
limit_in_range_sound (some (pos k)) n e = ground (arith, e)

limit_of_sound : (s : Bytes) (n : ℕ) → limit_of s ≡ ok n → Asks s n
unfolding limit_of
limit_of_sound [] n e = inl (refl, cc)
limit_of_sound (c ∷ s) n e = inr (limit_in_range_sound (parse_int (c ∷ s)) n e)

no_number : (n : ℕ) → parse_int [] ≢ some (pos n)
unfolding parse_int
no_number n e = cc

limit_of_complete : (s : Bytes) (n : ℕ) → Asks s n → limit_of s ≡ ok n
unfolding limit_of
limit_of_complete [] n (inl (e, d)) = ap ok (sym d)
limit_of_complete [] n (inr (e, lo, hi)) = absurd (no_number n e)
limit_of_complete (c ∷ s) n (inl (e, d)) = absurd (cc)
limit_of_complete (c ∷ s) n (inr (e, lo, hi)) = rw e (ground (arith, lo, hi))

allowed_or : (s : Bytes) (b : Bool) → (not (s =b []) && not b) ≡ false → (s ≡ []) ⊎ (b ≡ true)
allowed_or s b e = ground (arith, e, =b_iff s [])

refused_not : (s : Bytes) (b : Bool) → (s ≡ []) ⊎ (b ≡ true) → (not (s =b []) && not b) ≡ false
refused_not s b (inl e) = ground (arith, e, =b_iff s [])
refused_not s b (inr e) = ground (arith, e)

-- `read_query` on its three texts.
record Reads (severity container limit : Bytes) (q : ListQuery) : Type 0 where
  severity_is : q.min_severity ≡ severity
  container_is : q.container_id ≡ container
  severity_ok : (severity ≡ []) ⊎ (is_severity severity ≡ true)
  container_ok : (container ≡ []) ⊎ (valid_container_id container ≡ true)
  asks : Asks limit q.limit

read_query_sound :
    (severity container limit : Bytes) (q : ListQuery)
    → read_query severity container limit ≡ ok q
    → Reads severity container limit q
unfolding read_query
read_query_sound severity container limit q e =
    elim (Bool-cases (not (severity =b []) && not (is_severity severity))) [
      | inl b ↦ absurd (let f = rw b at e in cc)
      | inr b ↦ elim (Bool-cases (not (container =b []) && not (valid_container_id container))) [
        | inl c ↦ absurd (let f = rw (b, c) at e in cc)
        | inr c ↦
            let (n, asked, same) =
              >>=-ok (limit_of limit)
                (λ n. ok (record { min_severity = severity; container_id = container; limit = n }))
                (rw (b, c) at e) in
            record {
              severity_is = cc;
              container_is = cc;
              severity_ok = allowed_or severity (is_severity severity) b;
              container_ok = allowed_or container (valid_container_id container) c;
              asks = subst (Asks limit) (cc) (limit_of_sound limit n asked);
            }
      ]
    ]

read_query_complete :
    (severity container limit : Bytes) (n : ℕ)
    → (severity ≡ []) ⊎ (is_severity severity ≡ true)
    → (container ≡ []) ⊎ (valid_container_id container ≡ true)
    → Asks limit n
    → read_query severity container limit
      ≡ ok (record { min_severity = severity; container_id = container; limit = n })
unfolding read_query
read_query_complete severity container limit n s c l =
    rw (refused_not severity (is_severity severity) s) (
      rw (refused_not container (valid_container_id container) c)
        (rw (limit_of_complete limit n l)))

-- `parseListQuery` accepts a query with a result exactly when the result has the query's severity and
-- container, each is absent or valid, and its limit is the default one where the query has none, and
-- else the number from 1 to 1000 that the query spells.
pub parse_list_query_iff : (v : Values) (q : ListQuery) → (parse_list_query v ≡ ok q) ↔ Accepts v q
unfolding parse_list_query
parse_list_query_iff v q = (sound, complete)
  where
    sound : parse_list_query v ≡ ok q → Accepts v q
    sound e =
        let r =
          read_query_sound (get (codes "min_severity") v) (get (codes "container_id") v)
            (get (codes "limit") v) q e in
        record {
          severity_is = r.severity_is;
          container_is = r.container_is;
          allowed = record {
            severity = rw r.severity_is r.severity_ok;
            container = rw r.container_is r.container_ok;
          };
          limit = r.asks;
        }

    complete : Accepts v q → parse_list_query v ≡ ok q
    complete a =
        rw (← a.severity_is, ← a.container_is)
          (read_query_complete q.min_severity q.container_id (get (codes "limit") v) q.limit
            a.allowed.severity a.allowed.container a.limit)

-- The query that asks for a list.
unfoldable pub print_list_query : ListQuery → Values
print_list_query q =
    (codes "min_severity", q.min_severity)
    ∷ (codes "container_id", q.container_id)
    ∷ (codes "limit", decimal q.limit)
    ∷ []

decimal-Asks : (n : ℕ) → 1 ≤ n → n ≤ max_limit → Asks (decimal n) n
decimal-Asks n lo hi = inr (parse_int-decimal n (omega (arith, hi)), lo, hi)

-- Every choice of a valid or absent severity, a valid or absent container and a limit from 1 to 1000
-- can be written as a query, and `parseListQuery` reads it back.
parse_list_query-print :
    (q : ListQuery)
    → IsAllowed q
    → 1 ≤ q.limit
    → q.limit ≤ max_limit
    → parse_list_query (print_list_query q) ≡ ok q
unfolding parse_list_query print_list_query get find ◌=b◌
parse_list_query-print q a lo hi =
    read_query_complete q.min_severity q.container_id (decimal q.limit) q.limit a.severity
      a.container (decimal-Asks q.limit lo hi)
