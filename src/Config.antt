-- ===== src/Config.antt =====
-- src/mg_web.h: the configuration as `mg_parse_config` and `mg_verify_config` of src/mg_web.c build it. A pointer
-- into the text of the configuration is the word there, and a null pointer is nothing. The numbers of type `int`
-- and `unsigned long` are patterns of 32 and 64 bits.
pub mod Keywords
pub mod Words
pub mod LogLevel
pub mod ServerSection
pub mod LocationSection
pub mod TlsSection
pub mod GlobalSection
pub mod Parse
pub mod ServerCheck
pub mod LocationCheck
pub mod Verify
mod Tests
use mg_web.Base.{ℕ, ◌+◌, List, length, ltb, if◌then◌else◌, Bool, true, false, Option, none, some}
use mg_web.Text.{CString}

-- `MGSRV`, as far as the configuration goes. `ptls` is the place in the list `mg_tls`, and `penv` the contents of the
-- buffer. The flag says whether the server is reached over the network.
pub record DbServer : Type 0 where
  pub name : CString
  pub lcname : CString
  pub dbtype_name : Option CString
  pub dbtype : ℕ
  pub max_string_size : ℕ
  pub timeout : ℕ
  pub idle_timeout : ℕ
  pub health_check : ℕ
  pub con_retry_no : ℕ
  pub con_retry_time : ℕ
  pub max_connections : ℕ
  pub net_connection : Bool
  pub port : ℕ
  pub uci : Option CString
  pub shdir : Option CString
  pub ip_address : Option CString
  pub username : Option CString
  pub password : Option CString
  pub input_device : Option CString
  pub output_device : Option CString
  pub tls_name : Option CString
  pub penv : Option CString
  pub ptls : Option ℕ

-- `MGPSRV`: a slot of the array `servers` in front of `srv_max`; `psrv` is a place in the list `mg_server`.
pub record Slot : Type 0 where
  pub name : Option CString
  pub lcname : CString
  pub psrv : Option ℕ
  pub exclusive : Bool

-- `MGWSMAP`
pub record WsMap : Type 0 where
  pub name : CString
  pub function : CString

-- `MGPATH`: `srv_max` and `cgi_max` are the lengths of the lists, and `sa_variables` holds the pointers in front of the
-- first that is null.
pub record Location : Type 0 where
  pub name : CString
  pub function : Option CString
  pub wsmaps : List WsMap
  pub load_balancing : Bool
  pub sa_order : ℕ
  pub sa_cookie : Option CString
  pub sa_variables : List CString
  pub servers : List Slot
  pub cgi : List CString
  pub admin : ℕ

-- `MGTLS`
pub record TlsConfig : Type 0 where
  pub name : CString
  pub libpath : Option CString
  pub cert_file : Option CString
  pub key_file : Option CString
  pub password : Option CString
  pub ca_file : Option CString
  pub ca_path : Option CString
  pub cipher_list : Option CString
  pub protocols : List (Option CString)
  pub verify_peer : Bool
  pub key_type : ℕ

-- The flags of `DBXLOG`.
pub record LogFlags : Type 0 where
  pub log_errors : Bool
  pub log_connections : ℕ
  pub log_verbose : Bool
  pub log_frames : Bool
  pub log_transmissions : Bool
  pub log_transmissions_to_webserver : Bool
  pub log_tls : ℕ

pub data Allocation : Type 0 where
  for_server : Allocation
  for_location : Allocation
  for_tls : Allocation
  for_environment : Allocation

-- The messages in `config_error`; a number is that of the line.
pub data ConfigError : Type 0 where
  infinite_loop : ConfigError
  infinite_line : ConfigError
  no_memory : Allocation → ConfigError
  syntax_error : ℕ → ConfigError
  invalid_server : CString → ℕ → ConfigError
  invalid_location : CString → ℕ → ConfigError
  invalid_tls : CString → ℕ → ConfigError
  invalid_directive : CString → ℕ → ConfigError
  invalid_protocol : CString → ℕ → ConfigError
  invalid_key_type : CString → ℕ → ConfigError
  invalid_verify_peer : CString → ℕ → ConfigError
  invalid_global : CString → ℕ → ConfigError
  no_servers : ConfigError
  no_locations : ConfigError
  missing_type : CString → ConfigError
  unrecognized_type : CString → CString → ConfigError
  missing_username : CString → ConfigError
  missing_password : CString → ConfigError
  missing_host : CString → ConfigError
  missing_port : CString → ConfigError
  unknown_tls : CString → CString → ConfigError
  without_tls : CString → ConfigError
  missing_function : CString → ConfigError
  no_location_servers : CString → ConfigError
  unknown_server : CString → CString → ConfigError
  servers_not_found : CString → ConfigError

-- How many bytes a number of type `int` that is not below 0 has in a message, at most.
abbrev pub digits : ℕ → ℕ
digits n =
    if ltb n 10
    then 1
    else if ltb n 100
    then 2
    else if ltb n 1000
    then 3
    else if ltb n 10000
    then 4
    else 10

-- The last byte of the array `config_file`, with the name of the configuration, is a terminator.
abbrev pub max_config_file : ℕ
max_config_file = 255

-- The lengths of the messages, at most: the text with its words and numbers.
abbrev pub message_length : ConfigError → ℕ
message_length infinite_loop = 56 + max_config_file
message_length infinite_line = 66 + max_config_file
message_length (no_memory for_server) = 31
message_length (no_memory for_location) = 32
message_length (no_memory for_tls) = 31
message_length (no_memory for_environment) = 35
message_length (syntax_error ln) = 40 + digits ln
message_length (invalid_server w ln) = 38 + length w + digits ln
message_length (invalid_location w ln) = 40 + length w + digits ln
message_length (invalid_tls w ln) = 35 + length w + digits ln
message_length (invalid_directive w ln) = 35 + length w + digits ln
message_length (invalid_protocol w ln) = 56 + length w + digits ln
message_length (invalid_key_type w ln) = 55 + length w + digits ln
message_length (invalid_verify_peer w ln) = 58 + length w + digits ln
message_length (invalid_global w ln) = 38 + length w + digits ln
message_length no_servers = 33
message_length no_locations = 32
message_length (missing_type s) = 39 + length s
message_length (unrecognized_type t s) = 56 + length t + length s
message_length (missing_username s) = 34 + length s
message_length (missing_password s) = 34 + length s
message_length (missing_host s) = 30 + length s
message_length (missing_port s) = 34 + length s
message_length (unknown_tls t s) = 58 + length t + length s
message_length (without_tls s) = 73 + length s
message_length (missing_function l) = 42 + length l
message_length (no_location_servers l) = 37 + length l
message_length (unknown_server s l) = 56 + length s + length l
message_length (servers_not_found l) = 35 + length l

-- Whether a message and its terminator fit into the array `config_error`.
abbrev pub fits_array : Option ConfigError → Bool
fits_array none = true
fits_array (some e) = ltb (message_length e) 512

-- `MGSYS`, as far as the configuration goes.
pub record MgSys : Type 0 where
  pub timeout : ℕ
  pub chunking : ℕ
  pub request_buffer_size : ℕ
  pub custompage_dbserver_unavailable : Option CString
  pub custompage_dbserver_busy : Option CString
  pub custompage_dbserver_disabled : Option CString
  pub custompage_dbserver_timeout : Option CString
  pub cgi : List CString
  pub log : LogFlags
  pub config_error : Option ConfigError

-- What a parameter does to the object of its section: the store, where it makes one, and the error. A store where
-- the section has no object is a store through a null pointer.
pub record Effect {ℓ} (A : Type ℓ) : Type ℓ where
  pub update : Option (A → A)
  pub error : Option ConfigError

-- Whether a pointer is not null.
abbrev pub is_given : Option CString → Bool
is_given none = false
is_given (some s) = true
