-- ===== src/Config/Parse/Bounded.antt =====
-- The bounds of what `mg_parse_config` builds.
use mg_web.Base.{
  ℕ, zero, suc, ◌+◌, ◌≤◌, ◌≡◌, refl, sym, List, [], ◌∷◌, Bool, true, false, not, Option, none, some,
  length, arith, Bool-cases, Option-cases, inl, inr, All, if_both, subst,
}
use mg_web.Text.{CString, lcase, strcmp_eq}
use mg_web.Response.{has}
use mg_web.Config.{
  fits_array, MgSys, infinite_loop, syntax_error, no_memory, for_server, for_location, for_tls,
}
use mg_web.Config.Keywords
use mg_web.Config.Words.{words_of, line_text, split_line, size_after}
use mg_web.Config.ServerSection.{server_line}
use mg_web.Config.TlsSection.{tls_line}
use mg_web.Config.LocationSection.{new_location, location_effect}
use mg_web.Config.LocationSection.Bounds.{InBounds, location_effect-Keeps, add_cgi-le}
use mg_web.Config.GlobalSection.{add_cgi, global_line, global_parameter}
use mg_web.Config.Parse.{
  Library, Parser, fail, open_server, open_location, open_tls, open_if, section_line,
}
use mg_web.Config.Parse.Bounds.{
  IsBounded, WhereBounded, crashed, bounded, fail-IsBounded, All-append, in_location-WhereBounded,
  in_server-WhereBounded, in_tls-WhereBounded, environment_line-WhereBounded,
}
use mg_web.Config.Parse.Lines.{
  parameter_line, begins_with, take_words, in_array, parse_words, parse_one_line, parse_all_lines,
  parse_config, next_line, cuts_off, config_stops, finish_config, new_parser,
}

record FitsCgi (sys : MgSys) : Type 0 where
  fits : length sys.cgi ≤ 120

global_parameter-FitsCgi :
    (strtol : CString → ℕ) (ln : ℕ) (key value : CString) (words : List CString) (sys : MgSys)
    → length sys.cgi ≤ 120
    → FitsCgi (global_parameter strtol ln key value words sys)
unfolding global_parameter
global_parameter-FitsCgi strtol ln key value words sys h =
    if_both FitsCgi (strcmp_eq key Keywords.timeout_word) (record { fits = h })
      (if_both FitsCgi (strcmp_eq key Keywords.log_level_word) (record { fits = h })
        (if_both FitsCgi (strcmp_eq key Keywords.chunking_word) (record { fits = h })
          (if_both FitsCgi (strcmp_eq key Keywords.request_buffer_size_word) (record { fits = h })
            (if_both FitsCgi (strcmp_eq key Keywords.dbserver_unavailable) (record { fits = h })
              (if_both FitsCgi (strcmp_eq key Keywords.dbserver_busy) (record { fits = h })
                (if_both FitsCgi (strcmp_eq key Keywords.dbserver_disabled) (record { fits = h })
                  (if_both FitsCgi (strcmp_eq key Keywords.dbserver_timeout) (record { fits = h })
                    (record { fits = h }))))))))

global_line-FitsCgi :
    (strtol : CString → ℕ) (ln : ℕ) (words : List CString) (sys : MgSys)
    → length sys.cgi ≤ 120
    → FitsCgi (global_line strtol ln words sys)
unfolding global_line
global_line-FitsCgi strtol ln [] sys h = record { fits = h }
global_line-FitsCgi strtol ln (key ∷ []) sys h = record { fits = h }
global_line-FitsCgi strtol ln (key ∷ value ∷ words) sys h =
    global_parameter-FitsCgi strtol ln (lcase key) value words sys h

open_server-IsBounded :
    (memory : Bool) (name : CString) (p : Parser)
    → IsBounded p
    → IsBounded (open_server memory name p)
unfolding open_server
open_server-IsBounded true name p h = record { locations = h.locations; cgi = h.cgi }
open_server-IsBounded false name p h = fail-IsBounded (some (no_memory for_server)) p h

open_tls-IsBounded :
    (memory : Bool) (name : CString) (p : Parser) → IsBounded p → IsBounded (open_tls memory name p)
unfolding open_tls
open_tls-IsBounded true name p h = record { locations = h.locations; cgi = h.cgi }
open_tls-IsBounded false name p h = fail-IsBounded (some (no_memory for_tls)) p h

open_location-IsBounded :
    (memory : Bool) (name : CString) (p : Parser)
    → IsBounded p
    → IsBounded (open_location memory name p)
unfolding open_location
open_location-IsBounded true name p h = record {
  locations =
      All-append p.locations (new_location name) h.locations
        (omega arith, tt, omega arith, omega arith);
  cgi = h.cgi;
}
open_location-IsBounded false name p h = fail-IsBounded (some (no_memory for_location)) p h

open_if-IsBounded :
    (eos : Bool) (f : CString → Parser → Parser) (words : List CString) (p : Parser)
    → ((name : CString) (q : Parser) → IsBounded q → IsBounded (f name q))
    → IsBounded p
    → IsBounded (open_if eos f words p)
open_if-IsBounded true f words p keeps h = h
open_if-IsBounded false f [] p keeps h = h
open_if-IsBounded false f (name ∷ words) p keeps h = keeps name p h

section_line-IsBounded :
    (memory : Bool) (ln : ℕ) (head : CString) (words : List CString) (p : Parser)
    → IsBounded p
    → IsBounded (section_line memory ln head words p)
unfolding section_line
section_line-IsBounded memory ln head words p h =
    let same : (q : Parser) → q.locations ≡ p.locations → q.sys ≡ p.sys → IsBounded q = λ q l s.
      record {
        locations = subst (All InBounds) (sym l) h.locations;
        cgi = subst (λ (y : MgSys). length y.cgi ≤ 120) (sym s) h.cgi;
      } in
    let eos : Bool = has head Keywords.slash in
    if_both IsBounded (has head Keywords.server_word)
      (open_if-IsBounded eos (open_server memory) words _ (open_server-IsBounded memory)
        (same (record p { inserver = not eos }) refl refl))
      (if_both IsBounded (has head Keywords.location_word)
        (open_if-IsBounded eos (open_location memory) words _ (open_location-IsBounded memory)
          (same (record p { inpath = not eos }) refl refl))
        (if_both IsBounded (has head Keywords.tls_word)
          (open_if-IsBounded eos (open_tls memory) words _ (open_tls-IsBounded memory)
            (same (record p { intls = not eos }) refl refl))
          (if_both IsBounded (has head Keywords.cgi_word)
            (same (record p { incgi = not eos }) refl refl)
            (if_both IsBounded (has head Keywords.env_word)
              (same (record p { inenv = not eos }) refl refl)
              (fail-IsBounded (some (syntax_error ln)) p h)))))

parameter_line-WhereBounded :
    (lib : Library) (ln : ℕ) (line : CString) (words : List CString) (p : Parser)
    → IsBounded p
    → WhereBounded (parameter_line lib ln line words p)
unfolding parameter_line
parameter_line-WhereBounded lib ln line words p h =
    let p_cgi : Parser = record p { sys = record p.sys { cgi = add_cgi words p.sys.cgi } } in
    let p_global : Parser = record p { sys = global_line lib.strtol ln words p.sys } in
    if_both WhereBounded p.inserver
      (if_both WhereBounded p.inenv
        (environment_line-WhereBounded (lib.memory ln) (lib.buffers ln) line p h)
        (in_server-WhereBounded (server_line lib.strtol ln words) p h))
      (if_both WhereBounded p.inpath
        (in_location-WhereBounded words (location_effect (lib.memory ln) ln words) p
          (location_effect-Keeps (lib.memory ln) ln words) h)
        (if_both WhereBounded p.intls
          (in_tls-WhereBounded (tls_line lib.strtod_is_zero ln words) p h)
          (if_both WhereBounded p.incgi
            (bounded p_cgi
              (record { locations = h.locations; cgi = add_cgi-le words p.sys.cgi h.cgi }))
            (bounded p_global (record {
              locations = h.locations;
              cgi = (global_line-FitsCgi lib.strtol ln words p.sys h.cgi).fits;
            })))))

some-IsBounded : (p : Parser) → WhereBounded (some p) → IsBounded p
some-IsBounded p (bounded _ h) = h

take_words-WhereBounded :
    (lib : Library) (ln : ℕ) (line : CString) (words : List CString) (p : Parser)
    → IsBounded p
    → WhereBounded (take_words lib ln line words p)
unfolding take_words
take_words-WhereBounded lib ln line [] p h = bounded p h
take_words-WhereBounded lib ln line (word ∷ words) p h =
    let opened : Parser = section_line (lib.memory ln) ln (lcase word) words p in
    if_both WhereBounded (begins_with b'#' word) (bounded p h) (
      if_both WhereBounded (begins_with b'<' word)
        (bounded opened (section_line-IsBounded (lib.memory ln) ln (lcase word) words p h))
        (parameter_line-WhereBounded lib ln line (word ∷ words) p h))

in_array-WhereBounded : (o : Option Parser) → WhereBounded o → WhereBounded (in_array o)
in_array-WhereBounded _ crashed = crashed
in_array-WhereBounded _ (bounded p h) =
    if_both WhereBounded (fits_array p.sys.config_error) (bounded p h) crashed

parse_words-WhereBounded :
    (lib : Library) (ln : ℕ) (line : CString) (words : List CString) (p : Parser)
    → IsBounded p
    → WhereBounded (parse_words lib ln line words p)
unfolding parse_words
parse_words-WhereBounded lib ln line words p h =
    in_array-WhereBounded _ (take_words-WhereBounded lib ln line words p h)

parse_one_line-WhereBounded :
    (lib : Library) (ln size : ℕ) (s : CString) (p : Parser)
    → IsBounded p
    → WhereBounded (parse_one_line lib ln size s p)
unfolding parse_one_line
parse_one_line-WhereBounded lib ln size s p h =
    parse_words-WhereBounded lib ln (line_text s) (words_of size s) _ (fail-IsBounded _ p h)

module _ (lib : Library) (config_size : ℕ) where
  parse_all_lines-WhereBounded :
      (left ln size : ℕ) (s : Option CString) (p : Parser)
      → IsBounded p
      → WhereBounded (parse_all_lines lib config_size left ln size s p)
  unfolding parse_all_lines
  parse_all_lines-WhereBounded left ln size none p h = bounded p h
  parse_all_lines-WhereBounded zero ln size (some s) p h =
      bounded (fail (some infinite_loop) p) (fail-IsBounded (some infinite_loop) p h)
  parse_all_lines-WhereBounded (suc left) ln size (some []) p h = bounded p h
  parse_all_lines-WhereBounded (suc left) ln size (some (c ∷ s)) p h =
      let line : CString = (split_line (c ∷ s)).0 in
      elim (Bool-cases (config_stops config_size size p.sys.config_error))
        as (λ _.
          WhereBounded (parse_all_lines lib config_size (suc left) ln size (some (c ∷ s)) p)) [
            | inl stops ↦ rw (parse_all_lines, stops) (bounded p h)
            | inr goes_on ↦
                elim (Option-cases (parse_one_line lib ln size line p))
                  as (λ _.
                    WhereBounded
                      (parse_all_lines lib config_size (suc left) ln size (some (c ∷ s)) p)) [
                        | inl crash ↦ rw (parse_all_lines, goes_on, crash) crashed
                        | inr (p2, e) ↦
                            rw (parse_all_lines, goes_on, e)
                              (parse_all_lines-WhereBounded left (ln + 1) (size_after size line)
                                (next_line p2.sys.config_error (cuts_off (words_of size line) line)
                                  (split_line (c ∷ s)).1)
                                p2
                                (some-IsBounded p2 (
                                  subst WhereBounded e
                                    (parse_one_line-WhereBounded lib ln size line p h))))
                      ]
          ]

finish_config-WhereBounded : (o : Option Parser) → WhereBounded o → WhereBounded (finish_config o)
finish_config-WhereBounded _ crashed = crashed
finish_config-WhereBounded _ (bounded p h) =
    bounded _ (record { locations = h.locations; cgi = h.cgi })

-- Each configuration that `mg_parse_config` returns from, started with no more than 120 CGI variables: each location has at most
-- 30 servers, 120 CGI variables and 4 variables for server affinity, and each server but the first has a name; and
-- outside the locations there are at most 120 CGI variables.
pub parse_config-IsBounded :
    (lib : Library) (config_size : ℕ) (config : CString) (sys : MgSys) (p : Parser)
    → length sys.cgi ≤ 120
    → parse_config lib config_size config sys ≡ some p
    → IsBounded p
unfolding parse_config
parse_config-IsBounded lib config_size config sys p h e =
    let read : WhereBounded (parse_config lib config_size config sys) =
      finish_config-WhereBounded _ (
        parse_all_lines-WhereBounded lib config_size 1000 1 0 (some config) (new_parser sys)
          (record { locations = tt; cgi = h })) in
    some-IsBounded p (subst WhereBounded e read)
