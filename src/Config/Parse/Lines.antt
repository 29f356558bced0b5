-- ===== src/Config/Parse/Lines.antt =====
-- src/mg_web.c, `mg_parse_config`: the loop over the lines of the configuration.
use mg_web.Base.{
  ℕ, zero, suc, ◌+◌, List, [], ◌∷◌, Bool, true, false, not, ◌&&◌, ◌||◌, ◌==◌, ltb, if◌then◌else◌,
  Option, none, some,
}
use mg_web.Text.{CString, lcase}
use mg_web.Response.{has}
use mg_web.Config.{
  MgSys, ConfigError, fits_array, no_memory, invalid_protocol, infinite_loop, infinite_line,
}
use mg_web.Config.Keywords
use mg_web.Config.Words.{split_line, words_of, line_text, too_long, size_after, overruns}
use mg_web.Config.ServerSection.{server_line}
use mg_web.Config.LocationSection.{location_effect}
use mg_web.Config.TlsSection.{tls_line}
use mg_web.Config.GlobalSection.{global_line, add_cgi, timeout_of}
use mg_web.Config.Parse.{
  Library, Parser, fail, section_line, environment_line, in_server, in_location, in_tls,
}

-- A line of words that is not the start or the end of a section.
unfoldable pub parameter_line : Library → ℕ → CString → List CString → Parser → Option Parser
unfolding environment_line in_server server_line in_location location_effect in_tls tls_line
    global_line add_cgi
parameter_line lib ln line words p =
    if p.inserver
    then if p.inenv
      then environment_line (lib.memory ln) (lib.buffers ln) line p
      else in_server (server_line lib.strtol ln words) p
    else if p.inpath
    then in_location words (location_effect (lib.memory ln) ln words) p
    else if p.intls
    then in_tls (tls_line lib.strtod_is_zero ln words) p
    else if p.incgi
    then some (record p { sys = record p.sys { cgi = add_cgi words p.sys.cgi } })
    else some (record p { sys = global_line lib.strtol ln words p.sys })

abbrev pub begins_with : ℕ → CString → Bool
begins_with c [] = false
begins_with c (d ∷ s) = d == c

-- What the words of a line do.
unfoldable pub take_words : Library → ℕ → CString → List CString → Parser → Option Parser
unfolding parameter_line section_line
take_words lib ln line [] p = some p
take_words lib ln line (word ∷ words) p =
    if begins_with b'#' word
    then some p
    else if begins_with b'<' word
    then some (section_line (lib.memory ln) ln (lcase word) words p)
    else parameter_line lib ln line (word ∷ words) p

-- A message longer than the array `config_error` is stored behind its end.
abbrev pub in_array : Option Parser → Option Parser
in_array none = none
in_array (some p) = if fits_array p.sys.config_error then some p else none

-- The words of a line. A message that another one overwrites on its line fits, or has the words of the other.
unfoldable pub parse_words : Library → ℕ → CString → List CString → Parser → Option Parser
unfolding take_words
parse_words lib ln line words p = in_array (take_words lib ln line words p)

-- A line with so many bytes counted in front of it.
unfoldable pub parse_one_line : Library → ℕ → ℕ → CString → Parser → Option Parser
unfolding parse_words words_of line_text fail
parse_one_line lib ln size s p =
    parse_words lib ln (line_text s) (words_of size s)
      (fail (if too_long size s then some infinite_line else none) p)

-- The errors with a `break` behind them.
abbrev pub is_break : Option ConfigError → Bool
is_break none = false
is_break (some (no_memory what)) = true
is_break (some (invalid_protocol w ln)) = true
is_break (some _) = false

abbrev pub is_error : Option ConfigError → Bool
is_error none = false
is_error (some e) = true

-- Whether the line is that of a location whose name the `/` does not fit behind.
unfoldable pub cuts_off : List CString → CString → Bool
cuts_off (word ∷ name ∷ []) s =
    begins_with b'<' word
    && not (has (lcase word) Keywords.slash)
    && not (has (lcase word) Keywords.server_word)
    && has (lcase word) Keywords.location_word
    && overruns name s
cuts_off _ s = false

-- `pa` behind a line: with the first byte there overwritten, the rest is empty.
abbrev pub cut_rest : Bool → Option CString → Option CString
cut_rest cut none = none
cut_rest cut (some s) = if cut then some [] else some s

abbrev pub next_line : Option ConfigError → Bool → Option CString → Option CString
next_line error cut rest = if is_break error then none else cut_rest cut rest

abbrev pub config_stops : ℕ → ℕ → Option ConfigError → Bool
config_stops config_size size error = ltb config_size size || is_error error

-- The loop, with the lines that are left, the number of the line, and the bytes that have been counted.
unfoldable pub parse_all_lines : Library → ℕ → ℕ → ℕ → ℕ → Option CString → Parser → Option Parser
unfolding fail parse_one_line split_line words_of cuts_off
parse_all_lines lib config_size left ln size none p = some p
parse_all_lines lib config_size zero ln size (some s) p = some (fail (some infinite_loop) p)
parse_all_lines lib config_size (suc left) ln size (some []) p = some p
parse_all_lines lib config_size (suc left) ln size (some (c ∷ s)) p =
    elim (config_stops config_size size p.sys.config_error) [
      | true ↦ some p
      | false ↦
          let (line, rest) = split_line (c ∷ s) in
          elim (parse_one_line lib ln size line p) [
            | none ↦ none
            | some p2 ↦
                parse_all_lines lib config_size left (ln + 1) (size_after size line)
                  (next_line p2.sys.config_error (cuts_off (words_of size line) line) rest) p2
          ]
    ]

abbrev pub max_lines : ℕ
max_lines = 1000

abbrev pub finish_config : Option Parser → Option Parser
finish_config none = none
finish_config (some p) =
    some (record p { sys = record p.sys { timeout = timeout_of p.sys.timeout } })

abbrev pub new_parser : MgSys → Parser
new_parser sys = record {
  sys = record sys { config_error = none };
  servers = [];
  locations = [];
  tls = [];
  inserver = false;
  inpath = false;
  intls = false;
  incgi = false;
  inenv = false;
}

unfoldable pub parse_config : Library → ℕ → CString → MgSys → Option Parser
unfolding parse_all_lines
parse_config lib config_size config sys =
    finish_config (parse_all_lines lib config_size max_lines 1 0 (some config) (new_parser sys))
