-- ===== src/Response/Tests.antt =====
-- A witness of what is proved of `mg_parse_headers`.
use mg_web.Base.{◌≡◌, refl, List, [], ◌∷◌, none, some, length, arith}
use mg_web.Response.Noted.{
  type_field, cache_field, connection_field, last_value, last_place, parse_headers-last_place,
}
use mg_web.Text.{CString, lcase, strstr, starts_with}
use mg_web.Response.{skip_blanks, note, parse_headers}
use mg_web.Response.Lines.{
  Line, header, plain, is_header, is_plain, AreLines, no_lines, more_lines, line_bytes, lacks,
  response_bytes, note_lines,
}

abbrev connection_name : CString
connection_name = b'C' ∷ b'o' ∷ b'n' ∷ b'n' ∷ b'e' ∷ b'c' ∷ b't' ∷ b'i' ∷ b'o' ∷ b'n' ∷ []

abbrev close_value : CString
close_value = b'c' ∷ b'l' ∷ b'o' ∷ b's' ∷ b'e' ∷ []

abbrev status_line : CString
status_line = b'H' ∷ b'T' ∷ b'T' ∷ b'P' ∷ []

abbrev lines : List Line
lines = plain status_line ∷ header connection_name close_value ∷ plain [] ∷ []

lines-AreLines : AreLines lines
unfolding lacks line_bytes skip_blanks
lines-AreLines = more_lines (plain status_line) _ (is_plain status_line refl refl) (
    more_lines (header connection_name close_value) _
      (is_header connection_name close_value refl (omega arith) (omega arith) refl refl)
      (more_lines (plain []) [] (is_plain [] refl refl) no_lines))

-- The connection header is found at its place.
lines_test :
    (note_lines length lines (record {
      clen_server = none;
      content_type = none;
      cache_control = none;
      connection = none;
    })).connection
    ≡ some (response_bytes (header connection_name close_value ∷ plain [] ∷ []))
unfolding note_lines note response_bytes line_bytes lcase strstr starts_with
lines_test = refl

parse_headers-last_place_example :
    parse_headers length (response_bytes lines)
    ≡ some (record {
      clen_server = last_value length lines;
      content_type = last_place type_field lines;
      cache_control = last_place cache_field lines;
      connection = last_place connection_field lines;
    })
parse_headers-last_place_example = parse_headers-last_place length lines lines-AreLines
