-- ===== src/Config/Tests.antt =====
-- Configurations that are read and checked.
use Prim.Native.Char.{code}
use Prim.Native.String.{String}
use mg_web.Base.{
  ℕ, List, [], ◌∷◌, ◌++◌, Bool, true, false, Option, none, some, ◌≡◌, refl, map, All, arith,
}
use mg_web.Text.{CString, strcmp_eq, strstr, starts_with, lcase}
use mg_web.Config.{MgSys, no_location_servers, unknown_tls}
use mg_web.Config.LogLevel.{no_log, set_log_levels}
use mg_web.Config.LogLevel.Flags.{set_log_levels-flags}
use mg_web.Config.Parse.{Library, Parser}
use mg_web.Config.Parse.Bounded.{parse_config-IsBounded}
use mg_web.Config.Parse.Bounds.{IsBounded}
use mg_web.Config.Parse.Lines.{parse_config, new_parser, finish_config, cuts_off}
use mg_web.Config.Parse.Run.{unlines, run, IsWhole, parse_config-run}
use mg_web.Config.Parse.Returns.{lines, IsReadable, parse_config-Returns}
use mg_web.Config.Parse.Printed.{Described, described}
use mg_web.Config.Parse.Whole.{IsDescribed, print_servers}
use mg_web.Config.Parse.RoundTrip.{outside, parse_config-print_servers}
use mg_web.Config.Verify.{load_config}
use mg_web.Config.Verify.Loaded.{IsVerified, load_config-IsVerified}
use mg_web.Config.Words.{words_of, overruns, location_name}
use mg_web.Config.Words.Split.{fields, spaced, AreSpaced, words_of-spaced}

abbrev codes : String → List ℕ
codes String.[] = []
codes (String.◌∷◌ c s) = code c ∷ codes s

abbrev blank_sys : MgSys
blank_sys = record {
  timeout = 0;
  chunking = 0;
  request_buffer_size = 0;
  custompage_dbserver_unavailable = none;
  custompage_dbserver_busy = none;
  custompage_dbserver_disabled = none;
  custompage_dbserver_timeout = none;
  cgi = [];
  log = no_log;
  config_error = none;
}

abbrev library : Library
library = record {
  memory = λ ln. true;
  buffers = λ ln. true;
  strtol = λ s. 7041;
  strtod_is_zero = λ s. false;
}

-- One server and one location.
abbrev text : CString
text =
    codes
      "timeout 30\nlog_level eV\n<cgi>\n  HTTP*\n</cgi>\n<server Local>\n  type IRIS\n host db\n\ttcp_port 7041\n</server>\n# x\n<location /a>\n function f^f\n servers Local:Ex\n server_affinity variable:a,b cookie:c\n</location>"

abbrev value_of : Option Parser → Parser
value_of none = new_parser blank_sys
value_of (some p) = p

abbrev parsed : Parser
parsed = value_of (parse_config library 500 text blank_sys)

abbrev loaded : Parser
loaded = value_of (load_config library true false 500 text blank_sys)

abbrev is_some : Option Parser → Bool
is_some none = false
is_some (some p) = true

returned : (o : Option Parser) → is_some o ≡ true → o ≡ some (value_of o)
returned none h = absurd cc
returned (some p) h = refl

text_is_parsed : parse_config library 500 text blank_sys ≡ some parsed
unfolding parse_config strcmp_eq strstr starts_with overruns
text_is_parsed = returned (parse_config library 500 text blank_sys) refl

text_is_loaded : load_config library true false 500 text blank_sys ≡ some loaded
unfolding load_config strcmp_eq strstr starts_with overruns
text_is_loaded = returned (load_config library true false 500 text blank_sys) refl

loaded_without_error : loaded.sys.config_error ≡ none
unfolding load_config strcmp_eq strstr starts_with overruns
loaded_without_error = refl

abbrev spaced_words : List (CString × CString)
spaced_words = (codes "tcp_port", codes "  ") ∷ (codes "7041", codes "\t") ∷ []

spaced_words-AreSpaced : AreSpaced spaced_words
spaced_words-AreSpaced = (
  (refl, (refl, (refl, (refl, (refl, (refl, (refl, (refl, tt)))))))),
  (λ e. absurd cc),
  (refl, (refl, tt)),
  (λ e. absurd cc),
  ((refl, (refl, (refl, (refl, tt)))), (λ e. absurd cc), (refl, tt)),
)

-- The `/` behind the name of this location overwrites the end of the line and the byte behind it, and the server is not read.
cut_test :
    (value_of (
      parse_config library 500 (codes "<location /a\n</location>\n<server s>\n") blank_sys)).servers
    ≡ []
unfolding parse_config strcmp_eq strstr starts_with overruns
cut_test = refl

-- Four variables clear the name of the first server; in front of the servers, they make the log read a wild pointer.
four_behind_test :
    (value_of (
      load_config library true false 500
        (codes
          "<server s>\ntype iris\nhost x\ntcp_port 1\n</server>\n<location /a>\nfunction f\nservers s\nserver_affinity variable:a,b,c,d\n</location>\n")
        blank_sys)).sys.config_error
    ≡ some (no_location_servers (codes "/a/"))
unfolding load_config strcmp_eq strstr starts_with overruns location_name
four_behind_test = refl

four_before_test :
    load_config library true false 500
      (codes
        "<server s>\ntype iris\nhost x\ntcp_port 1\n</server>\n<location /a>\nfunction f\nserver_affinity variable:a,b,c,d\nservers s\n</location>\n")
      blank_sys
    ≡ none
unfolding load_config strcmp_eq strstr starts_with overruns
four_before_test = refl

-- A section without a name.
nameless_test : parse_config library 500 (codes "<server>\ntype iris\n") blank_sys ≡ none
unfolding parse_config strcmp_eq strstr starts_with overruns
nameless_test = refl

-- The name of a TLS configuration is put into lower case, and the server's parameter is not.
tls_case_test :
    (value_of (
      load_config library true true 500
        (codes
          "<tls Main>\npath x\n</tls>\n<server s>\ntype iris\nhost x\ntcp_port 1\ntls Main\n</server>\n<location /a>\n</location>\n")
        blank_sys)).sys.config_error
    ≡ some (unknown_tls (codes "Main") (codes "s"))
unfolding load_config strcmp_eq strstr starts_with overruns
tls_case_test = refl

load_config-IsVerified_example : IsVerified true loaded
load_config-IsVerified_example =
    load_config-IsVerified library true false 500 text blank_sys loaded (omega arith) text_is_loaded
      loaded_without_error

parse_config-IsBounded_example : IsBounded parsed
parse_config-IsBounded_example =
    parse_config-IsBounded library 500 text blank_sys parsed (omega arith) text_is_parsed

text-IsReadable : All IsReadable (lines text)
unfolding lines fields strcmp_eq strstr starts_with lcase
text-IsReadable = (
  (refl, omega arith),
  (
    (refl, omega arith),
    (
      (refl, omega arith),
      (
        (refl, omega arith),
        (
          (refl, omega arith),
          (
            (refl, omega arith),
            (
              (refl, omega arith),
              (
                (refl, omega arith),
                (
                  (refl, omega arith),
                  (
                    (refl, omega arith),
                    (
                      (refl, omega arith),
                      (
                        (refl, omega arith),
                        (
                          (refl, omega arith),
                          ((refl, omega arith), ((refl, omega arith), ((refl, omega arith), tt))),
                        ),
                      ),
                    ),
                  ),
                ),
              ),
            ),
          ),
        ),
      ),
    ),
  ),
)

parse_config-Returns_example : (p : Parser) × (parse_config library 500 text blank_sys ≡ some p)
parse_config-Returns_example =
    parse_config-Returns library 500 text blank_sys (λ ln. refl) text-IsReadable

words_of-spaced_example :
    words_of 10 (codes " " ++ spaced spaced_words) ≡ codes "tcp_port" ∷ codes "7041" ∷ []
unfolding spaced
words_of-spaced_example =
    words_of-spaced 10 (codes " ") spaced_words (refl, tt) spaced_words-AreSpaced refl

abbrev some_lines : List CString
some_lines = codes "<server s>" ∷ codes " host x" ∷ codes "</server>" ∷ []

some_lines-IsWhole : All IsWhole some_lines
unfolding fields strcmp_eq strstr starts_with lcase cuts_off overruns
some_lines-IsWhole = (
  ((refl, (refl, (refl, (refl, (refl, (refl, (refl, (refl, (refl, (refl, tt)))))))))), refl),
  (
    ((refl, (refl, (refl, (refl, (refl, (refl, (refl, tt))))))), refl),
    (((refl, (refl, (refl, (refl, (refl, (refl, (refl, (refl, (refl, tt))))))))), refl), tt),
  ),
)

parse_config-run_example :
    parse_config library 500 (unlines some_lines) blank_sys
    ≡ finish_config (run library 1 some_lines (new_parser blank_sys))
parse_config-run_example =
    parse_config-run library 500 some_lines blank_sys some_lines-IsWhole (omega arith) (omega arith)
      (omega arith)

abbrev two_servers : List Described
two_servers =
    record {
      name = codes "Main";
      dbtype_name = some (codes "IRIS");
      shdir = none;
      ip_address = some (codes "db");
      username = none;
      password = none;
      uci = some (codes "USER");
      tls_name = none;
    }
    ∷ record {
      name = codes "b";
      dbtype_name = some (codes "YottaDB");
      shdir = some (codes "/y");
      ip_address = none;
      username = none;
      password = none;
      uci = none;
      tls_name = none;
    }
    ∷ []

two_servers-IsDescribed : All IsDescribed two_servers
two_servers-IsDescribed = (
  record {
    name = (
      (refl, (refl, (refl, (refl, (refl, tt))))),
      (λ e. absurd cc),
      (refl, (refl, (refl, (refl, (refl, tt))))),
    );
    dbtype_name =
        ((refl, (refl, (refl, (refl, tt)))), (λ e. absurd cc), (refl, (refl, (refl, (refl, tt)))));
    shdir = tt;
    ip_address = ((refl, (refl, tt)), (λ e. absurd cc), (refl, (refl, tt)));
    username = tt;
    password = tt;
    uci =
        ((refl, (refl, (refl, (refl, tt)))), (λ e. absurd cc), (refl, (refl, (refl, (refl, tt)))));
    tls_name = tt;
  },
  (
    record {
      name = ((refl, (refl, tt)), (λ e. absurd cc), (refl, (refl, tt)));
      dbtype_name = (
        (refl, (refl, (refl, (refl, (refl, (refl, (refl, tt))))))),
        (λ e. absurd cc),
        (refl, (refl, (refl, (refl, (refl, (refl, (refl, tt))))))),
      );
      shdir = ((refl, (refl, tt)), (λ e. absurd cc), (refl, (refl, tt)));
      ip_address = tt;
      username = tt;
      password = tt;
      uci = tt;
      tls_name = tt;
    },
    tt,
  ),
)

parse_config-print_servers_example :
    parse_config library 500 (unlines (print_servers two_servers)) blank_sys
    ≡ finish_config (some (outside (map described two_servers) (new_parser blank_sys)))
parse_config-print_servers_example =
    parse_config-print_servers library 500 two_servers blank_sys (λ ln. refl)
      two_servers-IsDescribed (omega arith) (omega arith) (omega arith)

set_log_levels-flags_example : set_log_levels 1 (codes "eS" ∷ codes "sC" ∷ []) no_log ≡ record {
  log_errors = true;
  log_connections = 2;
  log_verbose = false;
  log_frames = false;
  log_transmissions = false;
  log_transmissions_to_webserver = false;
  log_tls = 1;
}
set_log_levels-flags_example = set_log_levels-flags (codes "eS") (codes "sC" ∷ []) no_log
