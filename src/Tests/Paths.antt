-- ===== src/Tests/Paths.antt =====
-- Paths of internal/fixer/path.go, parsed and printed.
use aegis_ebpf.Base.{◌≤◌, ◌≡◌, ◌≢◌, refl, [], ◌∷◌, ok, err, Bytes, codes, length}
use aegis_ebpf.Fixer.Path.RoundTrip.{parse_path-string}
use aegis_ebpf.Fixer.Path.Sound.{parse_path_error, parse_path_sound}
use aegis_ebpf.Fixer.Path.WellFormed.{IsPath}
use aegis_ebpf.Go.Decimal.{is_digit, atoi}
use aegis_ebpf.Fixer.Path.{
  select_none, select_index, select_match, FieldPath, PathError, expected_field_name, no_fuel,
  expected_byte, path_string, parse_path, segments, segment, name, is_name_byte, bracketed,
  selector,
}

abbrev sample_text : Bytes
sample_text = codes "containers[name=web].ports[12].image"

abbrev sample_path : FieldPath
sample_path =
    record { key = codes "containers"; sel = select_match (codes "name") (codes "web") }
    ∷ record { key = codes "ports"; sel = select_index 12 }
    ∷ record { key = codes "image"; sel = select_none }
    ∷ []

sample_parses : parse_path sample_text ≡ ok sample_path
unfolding parse_path segments segment name is_name_byte is_digit bracketed selector atoi
sample_parses = refl

parse_path_sound_example :
    IsPath sample_path × (parse_path (path_string sample_path) ≡ ok sample_path)
parse_path_sound_example = parse_path_sound sample_text sample_parses

sample_path-IsPath : IsPath sample_path
sample_path-IsPath = (parse_path_sound sample_text sample_parses).0

parse_path-string_example : parse_path (path_string sample_path) ≡ ok sample_path
parse_path-string_example = parse_path-string sample_path sample_path-IsPath

abbrev cut_error : PathError
cut_error = record { path = codes "a[*]."; offset = 5; msg = expected_field_name }

cut_fails : parse_path (codes "a[*].") ≡ err cut_error
unfolding parse_path segments segment name is_name_byte is_digit bracketed selector
cut_fails = refl

parse_path_error_example :
    (cut_error.path ≡ codes "a[*].")
    × (cut_error.offset ≤ length (codes "a[*]."))
    × (cut_error.msg ≢ no_fuel)
parse_path_error_example = parse_path_error (codes "a[*].") cut_fails

-- A field that begins with a digit prints, but does not parse.
digit_field :
    parse_path
      (path_string (record { key = codes "a"; sel = select_match (codes "1a") (codes "x") } ∷ []))
    ≡ err (record { path = codes "a[1a=x]"; offset = 3; msg = expected_byte b']' })
unfolding parse_path segments segment name is_name_byte is_digit bracketed selector path_string atoi
digit_field = refl
