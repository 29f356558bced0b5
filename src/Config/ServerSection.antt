-- ===== src/Config/ServerSection.antt =====
-- src/mg_web.c, `mg_parse_config`: the sections of DB servers. `strtol` is the function of the C library, on base 10,
-- with its result as a pattern of 64 bits.
use mg_web.Base.{ℕ, ◌%◌, ◌^◌, List, [], ◌∷◌, ◌++◌, true, if◌then◌else◌, none, some, drop}
use mg_web.Text.{CString, lcase, strcmp_eq, strstr}
use mg_web.Config.{DbServer, ConfigError, Effect, invalid_server}
use mg_web.Config.Keywords
use mg_web.Config.Words.{lower_name}

-- `(int)`
abbrev pub int : ℕ → ℕ
int n = n % 2 ^ 32

-- A store, an error, and neither.
abbrev pub assign {ℓ} : {A : Type ℓ} → (A → A) → Effect A
assign f = record { update = some f; error = none }

abbrev pub complain {ℓ} : {A : Type ℓ} → ConfigError → Effect A
complain e = record { update = none; error = some e }

abbrev pub no_effect {ℓ} : {A : Type ℓ} → Effect A
no_effect = record { update = none; error = none }

-- The server that is new.
abbrev pub new_server : CString → DbServer
new_server name = record {
  name = name;
  lcname = lower_name name;
  dbtype_name = none;
  dbtype = 0;
  max_string_size = 0;
  timeout = 0;
  idle_timeout = 0;
  health_check = 0;
  con_retry_no = 0;
  con_retry_time = 0;
  max_connections = 0;
  net_connection = true;
  port = 0;
  uci = none;
  shdir = none;
  ip_address = none;
  username = none;
  password = none;
  input_device = none;
  output_device = none;
  tls_name = none;
  penv = none;
  ptls = none;
}

-- `connection_retries`: a number and, behind a `/`, a time.
unfoldable pub retries : (CString → ℕ) → CString → DbServer → DbServer
retries strtol value s = elim (strstr value Keywords.slash) [
  | none ↦ record s { con_retry_no = int (strtol value) }
  | some (before, p) ↦ record s {
    con_retry_no = int (strtol value);
    con_retry_time = int (strtol (drop 1 p));
  }
]

-- The parameter `key`, in lower case, on line `ln`.
unfoldable pub server_parameter : (CString → ℕ) → ℕ → CString → CString → Effect DbServer
unfolding retries
server_parameter strtol ln key value =
    if strcmp_eq key Keywords.type_word
    then assign (λ s. record s { dbtype_name = some value })
    else if strcmp_eq key Keywords.path_word
    then assign (λ s. record s { shdir = some value })
    else if strcmp_eq key Keywords.host_word
    then assign (λ s. record s { ip_address = some value })
    else if strcmp_eq key Keywords.tcp_port
    then assign (λ s. record s { port = int (strtol value) })
    else if strcmp_eq key Keywords.username_word
    then assign (λ s. record s { username = some value })
    else if strcmp_eq key Keywords.password_word
    then assign (λ s. record s { password = some value })
    else if strcmp_eq key Keywords.namespace_word
    then assign (λ s. record s { uci = some value })
    else if strcmp_eq key Keywords.input_device_word
    then assign (λ s. record s { input_device = some value })
    else if strcmp_eq key Keywords.output_device_word
    then assign (λ s. record s { output_device = some value })
    else if strcmp_eq key Keywords.idle_timeout_word
    then assign (λ s. record s { idle_timeout = int (strtol value) })
    else if strcmp_eq key Keywords.health_check_word
    then assign (λ s. record s { health_check = int (strtol value) })
    else if strcmp_eq key Keywords.connection_retries
    then assign (retries strtol value)
    else if strcmp_eq key Keywords.max_connections_word
    then assign (λ s. record s { max_connections = int (strtol value) })
    else if strcmp_eq key Keywords.tls_word
    then assign (λ s. record s { tls_name = some value })
    else complain (invalid_server key ln)

-- The words of a line outside the environment.
unfoldable pub server_line : (CString → ℕ) → ℕ → List CString → Effect DbServer
unfolding server_parameter lcase
server_line strtol ln (key ∷ value ∷ words) = server_parameter strtol ln (lcase key) value
server_line strtol ln _ = no_effect

-- A line of the environment, where there is a buffer or memory for one.
unfoldable pub add_environment : CString → DbServer → DbServer
add_environment line s = elim s.penv [
  | none ↦ record s { penv = some (line ++ (b'\n' ∷ [])) }
  | some env ↦ record s { penv = some (env ++ (line ++ (b'\n' ∷ []))) }
]
