-- ===== src/Http/Query.antt =====
-- internal/agent/http.go: the query parameters of the list endpoints.
pub mod Accepted
use aegis_ebpf.Base.Maps.{find, bytes_key}
use aegis_ebpf.Base.{
  ℕ, ℤ, pos, negsuc, Bool, not, ◌&&◌, ◌||◌, List, [], ◌∷◌, Option, none, some, Bytes, codes, Result,
  ok, err, ◌>>=◌, ltb, ◌=b◌, if◌then◌else◌,
}
use aegis_ebpf.Events.Types.{Severity, is_severity}
use aegis_ebpf.Events.Validate.{valid_container_id}
use aegis_ebpf.Go.ParseInt.{parse_int}

abbrev pub default_limit : ℕ
default_limit = 100

abbrev pub max_limit : ℕ
max_limit = 1000

-- `url.Values`: the parameters in the order of the query.
abbrev pub Values : Type 0
Values = List (Bytes × Bytes)

abbrev pub value_or_empty : Option Bytes → Bytes
value_or_empty none = []
value_or_empty (some v) = v

-- `Values.Get`.
unfoldable pub get : Bytes → Values → Bytes
get key v = value_or_empty (find key v)

pub record ListQuery : Type 0 where
  pub min_severity : Severity
  pub container_id : Bytes
  pub limit : ℕ

-- The errors of a query, with that of `listEvents`.
pub data QueryError : Type 0 where
  bad_min_severity bad_container bad_limit unknown_kind : QueryError

abbrev pub limit_in_range : Option ℤ → Result QueryError ℕ
limit_in_range none = err bad_limit
limit_in_range (some (negsuc _)) = err bad_limit
limit_in_range (some (pos n)) = if ltb n 1 || ltb max_limit n then err bad_limit else ok n

unfoldable pub limit_of : Bytes → Result QueryError ℕ
limit_of [] = ok default_limit
limit_of (c ∷ s) = limit_in_range (parse_int (c ∷ s))

-- `parseListQuery`, from the three parameters on.
unfoldable pub read_query : Bytes → Bytes → Bytes → Result QueryError ListQuery
read_query severity container limit =
    if not (severity =b []) && not (is_severity severity)
    then err bad_min_severity
    else if not (container =b []) && not (valid_container_id container)
    then err bad_container
    else (do
      n ← limit_of limit
      ok (record { min_severity = severity; container_id = container; limit = n }))

-- `parseListQuery`.
unfoldable pub parse_list_query : Values → Result QueryError ListQuery
parse_list_query v =
    read_query (get (codes "min_severity") v) (get (codes "container_id") v) (get (codes "limit") v)
