-- ===== src/Config/GlobalSection.antt =====
-- src/mg_web.c, `mg_parse_config`: the parameters outside all sections.
use mg_web.Base.{ℕ, ◌*◌, ◌%◌, ◌^◌, List, [], ◌∷◌, ◌++◌, ltb, ◌==◌, if◌then◌else◌, some, length}
use mg_web.Text.{CString, lcase, strcmp_eq}
use mg_web.Response.{has}
use mg_web.Config.{MgSys, invalid_global}
use mg_web.Config.Keywords
use mg_web.Config.LogLevel.{set_log_levels}
use mg_web.Config.ServerSection.{int}

abbrev pub default_timeout : ℕ
default_timeout = 30

abbrev pub timeout_of : ℕ → ℕ
timeout_of n = if n == 0 then default_timeout else n

-- The product of two numbers of type `unsigned long`.
abbrev pub times : ℕ → ℕ → ℕ
times m n = (m * n) % 2 ^ 64

unfoldable pub chunking_of : (CString → ℕ) → CString → ℕ
chunking_of strtol value =
    if has value Keywords.off_word
    then 0
    else if strtol value == 0
    then 1
    else if has value (b'k' ∷ [])
    then times (strtol value) 1000
    else if has value (b'm' ∷ [])
    then times (strtol value) 1000000
    else if has value (b'g' ∷ [])
    then times (strtol value) 1000000000
    else strtol value

unfoldable pub buffer_size_of : (CString → ℕ) → CString → ℕ
buffer_size_of strtol value =
    if has value (b'k' ∷ [])
    then times (strtol value) 1000
    else if has value (b'm' ∷ [])
    then times (strtol value) 1000000
    else strtol value

-- The parameter `key`, in lower case, on line `ln`, with the words behind it.
unfoldable pub global_parameter :
    (CString → ℕ) → ℕ → CString → CString → List CString → MgSys → MgSys
unfolding set_log_levels chunking_of buffer_size_of
global_parameter strtol ln key value words sys =
    if strcmp_eq key Keywords.timeout_word
    then record sys { timeout = timeout_of (int (strtol value)) }
    else if strcmp_eq key Keywords.log_level_word
    then record sys { log = set_log_levels 1 (value ∷ words) sys.log }
    else if strcmp_eq key Keywords.chunking_word
    then record sys { chunking = chunking_of strtol (lcase value) }
    else if strcmp_eq key Keywords.request_buffer_size_word
    then record sys { request_buffer_size = buffer_size_of strtol (lcase value) }
    else if strcmp_eq key Keywords.dbserver_unavailable
    then record sys { custompage_dbserver_unavailable = some value }
    else if strcmp_eq key Keywords.dbserver_busy
    then record sys { custompage_dbserver_busy = some value }
    else if strcmp_eq key Keywords.dbserver_disabled
    then record sys { custompage_dbserver_disabled = some value }
    else if strcmp_eq key Keywords.dbserver_timeout
    then record sys { custompage_dbserver_timeout = some value }
    else record sys { config_error = some (invalid_global key ln) }

unfoldable pub global_line : (CString → ℕ) → ℕ → List CString → MgSys → MgSys
unfolding global_parameter
global_line strtol ln (key ∷ value ∷ words) sys =
    global_parameter strtol ln (lcase key) value words sys
global_line strtol ln _ sys = sys

abbrev pub cgi_limit : ℕ
cgi_limit = 120

-- The loop that adds the words of a line to an array of CGI variables.
unfoldable pub add_cgi : List CString → List CString → List CString
add_cgi [] cgi = cgi
add_cgi (w ∷ ws) cgi = add_cgi ws (if ltb (length cgi) cgi_limit then cgi ++ (w ∷ []) else cgi)
