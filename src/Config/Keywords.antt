-- ===== src/Config/Keywords.antt =====
-- src/mg_web.c, `mg_parse_config` and `mg_verify_config`: the words that the configuration is read with.
use mg_web.Base.{[], ◌∷◌}
use mg_web.Text.{CString}

abbrev pub colon : CString
colon = b':' ∷ []

abbrev pub slash : CString
slash = b'/' ∷ []

abbrev pub type_word : CString
type_word = b't' ∷ b'y' ∷ b'p' ∷ b'e' ∷ []

abbrev pub path_word : CString
path_word = b'p' ∷ b'a' ∷ b't' ∷ b'h' ∷ []

abbrev pub host_word : CString
host_word = b'h' ∷ b'o' ∷ b's' ∷ b't' ∷ []

abbrev pub tcp_port : CString
tcp_port = b't' ∷ b'c' ∷ b'p' ∷ b'_' ∷ b'p' ∷ b'o' ∷ b'r' ∷ b't' ∷ []

abbrev pub username_word : CString
username_word = b'u' ∷ b's' ∷ b'e' ∷ b'r' ∷ b'n' ∷ b'a' ∷ b'm' ∷ b'e' ∷ []

abbrev pub password_word : CString
password_word = b'p' ∷ b'a' ∷ b's' ∷ b's' ∷ b'w' ∷ b'o' ∷ b'r' ∷ b'd' ∷ []

abbrev pub namespace_word : CString
namespace_word = b'n' ∷ b'a' ∷ b'm' ∷ b'e' ∷ b's' ∷ b'p' ∷ b'a' ∷ b'c' ∷ b'e' ∷ []

abbrev pub input_device_word : CString
input_device_word =
    b'i' ∷ b'n' ∷ b'p' ∷ b'u' ∷ b't' ∷ b'_' ∷ b'd' ∷ b'e' ∷ b'v' ∷ b'i' ∷ b'c' ∷ b'e' ∷ []

abbrev pub output_device_word : CString
output_device_word =
    b'o' ∷ b'u' ∷ b't' ∷ b'p' ∷ b'u' ∷ b't' ∷ b'_' ∷ b'd' ∷ b'e' ∷ b'v' ∷ b'i' ∷ b'c' ∷ b'e' ∷ []

abbrev pub idle_timeout_word : CString
idle_timeout_word =
    b'i' ∷ b'd' ∷ b'l' ∷ b'e' ∷ b'_' ∷ b't' ∷ b'i' ∷ b'm' ∷ b'e' ∷ b'o' ∷ b'u' ∷ b't' ∷ []

abbrev pub health_check_word : CString
health_check_word =
    b'h' ∷ b'e' ∷ b'a' ∷ b'l' ∷ b't' ∷ b'h' ∷ b'_' ∷ b'c' ∷ b'h' ∷ b'e' ∷ b'c' ∷ b'k' ∷ []

abbrev pub connection_retries : CString
connection_retries =
    b'c' ∷ b'o' ∷ b'n' ∷ b'n' ∷ b'e' ∷ b'c' ∷ b't' ∷ b'i' ∷ b'o' ∷ b'n' ∷ b'_' ∷ b'r' ∷ b'e' ∷ b't'
    ∷ b'r' ∷ b'i' ∷ b'e' ∷ b's' ∷ []

abbrev pub max_connections_word : CString
max_connections_word =
    b'm' ∷ b'a' ∷ b'x' ∷ b'_' ∷ b'c' ∷ b'o' ∷ b'n' ∷ b'n' ∷ b'e' ∷ b'c' ∷ b't' ∷ b'i' ∷ b'o' ∷ b'n'
    ∷ b's' ∷ []

abbrev pub tls_word : CString
tls_word = b't' ∷ b'l' ∷ b's' ∷ []

abbrev pub function_word : CString
function_word = b'f' ∷ b'u' ∷ b'n' ∷ b'c' ∷ b't' ∷ b'i' ∷ b'o' ∷ b'n' ∷ []

abbrev pub websocket_word : CString
websocket_word = b'w' ∷ b'e' ∷ b'b' ∷ b's' ∷ b'o' ∷ b'c' ∷ b'k' ∷ b'e' ∷ b't' ∷ []

abbrev pub servers_word : CString
servers_word = b's' ∷ b'e' ∷ b'r' ∷ b'v' ∷ b'e' ∷ b'r' ∷ b's' ∷ []

abbrev pub load_balancing_word : CString
load_balancing_word =
    b'l' ∷ b'o' ∷ b'a' ∷ b'd' ∷ b'_' ∷ b'b' ∷ b'a' ∷ b'l' ∷ b'a' ∷ b'n' ∷ b'c' ∷ b'i' ∷ b'n' ∷ b'g'
    ∷ []

abbrev pub server_affinity : CString
server_affinity =
    b's' ∷ b'e' ∷ b'r' ∷ b'v' ∷ b'e' ∷ b'r' ∷ b'_' ∷ b'a' ∷ b'f' ∷ b'f' ∷ b'i' ∷ b'n' ∷ b'i' ∷ b't'
    ∷ b'y' ∷ []

abbrev pub administrator_word : CString
administrator_word =
    b'a' ∷ b'd' ∷ b'm' ∷ b'i' ∷ b'n' ∷ b'i' ∷ b's' ∷ b't' ∷ b'r' ∷ b'a' ∷ b't' ∷ b'o' ∷ b'r' ∷ []

abbrev pub variable_word : CString
variable_word = b'v' ∷ b'a' ∷ b'r' ∷ b'i' ∷ b'a' ∷ b'b' ∷ b'l' ∷ b'e' ∷ []

abbrev pub cookie_word : CString
cookie_word = b'c' ∷ b'o' ∷ b'o' ∷ b'k' ∷ b'i' ∷ b'e' ∷ []

abbrev pub ex_word : CString
ex_word = b'e' ∷ b'x' ∷ []

abbrev pub on_word : CString
on_word = b'o' ∷ b'n' ∷ []

abbrev pub off_word : CString
off_word = b'o' ∷ b'f' ∷ b'f' ∷ []

abbrev pub certificate_file : CString
certificate_file =
    b'c' ∷ b'e' ∷ b'r' ∷ b't' ∷ b'i' ∷ b'f' ∷ b'i' ∷ b'c' ∷ b'a' ∷ b't' ∷ b'e' ∷ b'_' ∷ b'f' ∷ b'i'
    ∷ b'l' ∷ b'e' ∷ []

abbrev pub key_file_word : CString
key_file_word = b'k' ∷ b'e' ∷ b'y' ∷ b'_' ∷ b'f' ∷ b'i' ∷ b'l' ∷ b'e' ∷ []

abbrev pub ca_certificate_file : CString
ca_certificate_file =
    b'c' ∷ b'a' ∷ b'_' ∷ b'c' ∷ b'e' ∷ b'r' ∷ b't' ∷ b'i' ∷ b'f' ∷ b'i' ∷ b'c' ∷ b'a' ∷ b't' ∷ b'e'
    ∷ b'_' ∷ b'f' ∷ b'i' ∷ b'l' ∷ b'e' ∷ []

abbrev pub ca_certificate_path : CString
ca_certificate_path =
    b'c' ∷ b'a' ∷ b'_' ∷ b'c' ∷ b'e' ∷ b'r' ∷ b't' ∷ b'i' ∷ b'f' ∷ b'i' ∷ b'c' ∷ b'a' ∷ b't' ∷ b'e'
    ∷ b'_' ∷ b'p' ∷ b'a' ∷ b't' ∷ b'h' ∷ []

abbrev pub cipher_list_word : CString
cipher_list_word = b'c' ∷ b'i' ∷ b'p' ∷ b'h' ∷ b'e' ∷ b'r' ∷ b'_' ∷ b'l' ∷ b'i' ∷ b's' ∷ b't' ∷ []

abbrev pub protocols_word : CString
protocols_word = b'p' ∷ b'r' ∷ b'o' ∷ b't' ∷ b'o' ∷ b'c' ∷ b'o' ∷ b'l' ∷ b's' ∷ []

abbrev pub key_type_word : CString
key_type_word = b'k' ∷ b'e' ∷ b'y' ∷ b'_' ∷ b't' ∷ b'y' ∷ b'p' ∷ b'e' ∷ []

abbrev pub verify_peer_word : CString
verify_peer_word = b'v' ∷ b'e' ∷ b'r' ∷ b'i' ∷ b'f' ∷ b'y' ∷ b'_' ∷ b'p' ∷ b'e' ∷ b'e' ∷ b'r' ∷ []

abbrev pub sslv_word : CString
sslv_word = b's' ∷ b's' ∷ b'l' ∷ b'v' ∷ []

abbrev pub tlsv_word : CString
tlsv_word = b't' ∷ b'l' ∷ b's' ∷ b'v' ∷ []

abbrev pub rsa_word : CString
rsa_word = b'r' ∷ b's' ∷ b'a' ∷ []

abbrev pub dsa_word : CString
dsa_word = b'd' ∷ b's' ∷ b'a' ∷ []

abbrev pub yes_word : CString
yes_word = b'y' ∷ b'e' ∷ b's' ∷ []

abbrev pub no_word : CString
no_word = b'n' ∷ b'o' ∷ []

abbrev pub one_word : CString
one_word = b'1' ∷ []

abbrev pub zero_word : CString
zero_word = b'0' ∷ []

abbrev pub timeout_word : CString
timeout_word = b't' ∷ b'i' ∷ b'm' ∷ b'e' ∷ b'o' ∷ b'u' ∷ b't' ∷ []

abbrev pub log_level_word : CString
log_level_word = b'l' ∷ b'o' ∷ b'g' ∷ b'_' ∷ b'l' ∷ b'e' ∷ b'v' ∷ b'e' ∷ b'l' ∷ []

abbrev pub chunking_word : CString
chunking_word = b'c' ∷ b'h' ∷ b'u' ∷ b'n' ∷ b'k' ∷ b'i' ∷ b'n' ∷ b'g' ∷ []

abbrev pub request_buffer_size_word : CString
request_buffer_size_word =
    b'r' ∷ b'e' ∷ b'q' ∷ b'u' ∷ b'e' ∷ b's' ∷ b't' ∷ b'_' ∷ b'b' ∷ b'u' ∷ b'f' ∷ b'f' ∷ b'e' ∷ b'r'
    ∷ b'_' ∷ b's' ∷ b'i' ∷ b'z' ∷ b'e' ∷ []

abbrev pub dbserver_unavailable : CString
dbserver_unavailable =
    b'c' ∷ b'u' ∷ b's' ∷ b't' ∷ b'o' ∷ b'm' ∷ b'p' ∷ b'a' ∷ b'g' ∷ b'e' ∷ b'_' ∷ b'd' ∷ b'b' ∷ b's'
    ∷ b'e' ∷ b'r' ∷ b'v' ∷ b'e' ∷ b'r' ∷ b'_' ∷ b'u' ∷ b'n' ∷ b'a' ∷ b'v' ∷ b'a' ∷ b'i' ∷ b'l'
    ∷ b'a' ∷ b'b' ∷ b'l' ∷ b'e' ∷ []

abbrev pub dbserver_busy : CString
dbserver_busy =
    b'c' ∷ b'u' ∷ b's' ∷ b't' ∷ b'o' ∷ b'm' ∷ b'p' ∷ b'a' ∷ b'g' ∷ b'e' ∷ b'_' ∷ b'd' ∷ b'b' ∷ b's'
    ∷ b'e' ∷ b'r' ∷ b'v' ∷ b'e' ∷ b'r' ∷ b'_' ∷ b'b' ∷ b'u' ∷ b's' ∷ b'y' ∷ []

abbrev pub dbserver_disabled : CString
dbserver_disabled =
    b'c' ∷ b'u' ∷ b's' ∷ b't' ∷ b'o' ∷ b'm' ∷ b'p' ∷ b'a' ∷ b'g' ∷ b'e' ∷ b'_' ∷ b'd' ∷ b'b' ∷ b's'
    ∷ b'e' ∷ b'r' ∷ b'v' ∷ b'e' ∷ b'r' ∷ b'_' ∷ b'd' ∷ b'i' ∷ b's' ∷ b'a' ∷ b'b' ∷ b'l' ∷ b'e'
    ∷ b'd' ∷ []

abbrev pub dbserver_timeout : CString
dbserver_timeout =
    b'c' ∷ b'u' ∷ b's' ∷ b't' ∷ b'o' ∷ b'm' ∷ b'p' ∷ b'a' ∷ b'g' ∷ b'e' ∷ b'_' ∷ b'd' ∷ b'b' ∷ b's'
    ∷ b'e' ∷ b'r' ∷ b'v' ∷ b'e' ∷ b'r' ∷ b'_' ∷ b't' ∷ b'i' ∷ b'm' ∷ b'e' ∷ b'o' ∷ b'u' ∷ b't' ∷ []

abbrev pub server_word : CString
server_word = b's' ∷ b'e' ∷ b'r' ∷ b'v' ∷ b'e' ∷ b'r' ∷ []

abbrev pub location_word : CString
location_word = b'l' ∷ b'o' ∷ b'c' ∷ b'a' ∷ b't' ∷ b'i' ∷ b'o' ∷ b'n' ∷ []

abbrev pub cgi_word : CString
cgi_word = b'c' ∷ b'g' ∷ b'i' ∷ []

abbrev pub env_word : CString
env_word = b'e' ∷ b'n' ∷ b'v' ∷ []

abbrev pub iris_word : CString
iris_word = b'i' ∷ b'r' ∷ b'i' ∷ b's' ∷ []

abbrev pub cache_word : CString
cache_word = b'c' ∷ b'a' ∷ b'c' ∷ b'h' ∷ b'e' ∷ []

abbrev pub yottadb_word : CString
yottadb_word = b'y' ∷ b'o' ∷ b't' ∷ b't' ∷ b'a' ∷ b'd' ∷ b'b' ∷ []

abbrev pub gt_m_word : CString
gt_m_word = b'g' ∷ b't' ∷ b'.' ∷ b'm' ∷ []

abbrev pub gtm_word : CString
gtm_word = b'g' ∷ b't' ∷ b'm' ∷ []

abbrev pub node_js_word : CString
node_js_word = b'n' ∷ b'o' ∷ b'd' ∷ b'e' ∷ b'.' ∷ b'j' ∷ b's' ∷ []

abbrev pub nodejs_word : CString
nodejs_word = b'n' ∷ b'o' ∷ b'd' ∷ b'e' ∷ b'j' ∷ b's' ∷ []

abbrev pub node_word : CString
node_word = b'n' ∷ b'o' ∷ b'd' ∷ b'e' ∷ []

abbrev pub bun_word : CString
bun_word = b'b' ∷ b'u' ∷ b'n' ∷ []
