-- ===== src/Config/ServerCheck.antt =====
-- src/mg_web.c, `mg_verify_config`: the checks of the servers. `with_tls` says whether `DBX_WITH_TLS` is set.
use mg_web.Base.{
  ℕ, suc, List, [], ◌∷◌, ◌++◌, Bool, not, ◌||◌, ◌==◌, if◌then◌else◌, Option, none, some,
}
use mg_web.Text.{CString, lcase, strcmp_eq}
use mg_web.Config.{
  DbServer, TlsConfig, ConfigError, missing_type, unrecognized_type, missing_username,
  missing_password, missing_host, missing_port, unknown_tls, without_tls,
}
use mg_web.Config.{is_given}
use mg_web.Config.Keywords

abbrev pub dbtype_yottadb : ℕ
dbtype_yottadb = 5

abbrev pub buffer_isc : ℕ
buffer_isc = 3641145

abbrev pub buffer_ydb : ℕ
buffer_ydb = 1048577

-- `dbtype` and `max_string_size` for a name in lower case.
unfoldable pub type_of_name : CString → Option (ℕ × ℕ)
type_of_name t =
    if strcmp_eq t Keywords.iris_word
    then some (2, buffer_isc)
    else if strcmp_eq t Keywords.cache_word
    then some (1, buffer_isc)
    else if strcmp_eq t Keywords.yottadb_word
    then some (dbtype_yottadb, buffer_ydb)
    else if strcmp_eq t Keywords.gt_m_word || strcmp_eq t Keywords.gtm_word
    then some (11, buffer_ydb)
    else if strcmp_eq t Keywords.node_js_word
        || (strcmp_eq t Keywords.nodejs_word || strcmp_eq t Keywords.node_word)
    then some (21, buffer_isc)
    else if strcmp_eq t Keywords.bun_word
    then some (22, buffer_ydb)
    else none

-- What the loop has found, and whether it goes on.
pub data Verdict (A : Type 0) : Type 0 where
  goes_on : A → Option ConfigError → Verdict A
  breaks : A → ConfigError → Verdict A

unfoldable pub find_tls : CString → List TlsConfig → Option ℕ
find_tls name [] = none
find_tls name (t ∷ ts) =
    let rest = find_tls name ts in
    if strcmp_eq t.name name then some 0 else elim rest [ none ↦ none | some i ↦ some (suc i) ]

-- The end of a server's environment.
unfoldable pub end_environment : DbServer → DbServer
end_environment s = elim s.penv [
  | none ↦ s
  | some env ↦ record s { penv = some (env ++ (b'\n' ∷ [])) }
]

-- The search for the TLS configuration named `t` has had this result.
unfoldable pub check_found :
    Bool → CString → DbServer → Option ConfigError → Option ℕ → Verdict DbServer
unfolding end_environment
check_found with_tls t s e none = breaks s (unknown_tls t s.name)
check_found with_tls t s e (some i) =
    if with_tls
    then goes_on (end_environment (record s { ptls = some i })) e
    else goes_on (end_environment (record s { ptls = none })) (some (without_tls s.name))

-- From the test on `tls_name` on, which is the last argument.
unfoldable pub check_tls :
    List TlsConfig → Bool → DbServer → Option ConfigError → Option CString → Verdict DbServer
unfolding find_tls check_found end_environment
check_tls tls with_tls s e none = goes_on (end_environment s) e
check_tls tls with_tls s e (some t) = check_found with_tls t s e (find_tls t tls)

-- What is missing for the access to the server called `name`, if anything is: of a user name and a password, of an address and
-- a port, and, given `shdir`, of all.
unfoldable pub missing_user : CString → Option CString → Option CString → Option ConfigError
missing_user name none password = some (missing_username name)
missing_user name (some username) none = some (missing_password name)
missing_user name (some username) (some password) = none

unfoldable pub missing_address : CString → Option CString → ℕ → Option ConfigError
missing_address name none port = some (missing_host name)
missing_address name (some ip_address) port = if port == 0 then some (missing_port name) else none

unfoldable pub missing : DbServer → Option CString → Option ConfigError
unfolding missing_user missing_address
missing s (some shdir) =
    if s.dbtype == dbtype_yottadb then none else missing_user s.name s.username s.password
missing s none = missing_address s.name s.ip_address s.port

-- What is missing for the access is the last argument.
unfoldable pub check_access :
    List TlsConfig → Bool → DbServer → Option ConfigError → Option ConfigError → Verdict DbServer
unfolding check_tls
check_access tls with_tls s e (some m) =
    breaks (record s { net_connection = not (is_given s.shdir) }) m
check_access tls with_tls s e none =
    check_tls tls with_tls (record s { net_connection = not (is_given s.shdir) }) e s.tls_name

abbrev pub with_timeout : ℕ → DbServer → DbServer
with_timeout timeout s = record s { timeout = if s.timeout == 0 then timeout else s.timeout }

-- A server whose type is named `t`, with what the name stands for, and the error so far.
unfoldable pub check_type :
    List TlsConfig
    → Bool
    → ℕ
    → CString
    → DbServer
    → Option ConfigError
    → Option (ℕ × ℕ)
    → Verdict DbServer
unfolding check_access missing
check_type tls with_tls timeout t s e none =
    let s2 = with_timeout timeout (record s { dbtype_name = some t }) in
    check_access tls with_tls s2 (some (unrecognized_type t s.name)) (missing s2 s2.shdir)
check_type tls with_tls timeout t s e (some (dbtype, max_string_size)) =
    let s2 =
      with_timeout timeout
        (record s { dbtype_name = some t; dbtype = dbtype; max_string_size = max_string_size }) in
    check_access tls with_tls s2 e (missing s2 s2.shdir)

-- The body of the loop over the servers, where the last argument is `dbtype_name`.
unfoldable pub check_server :
    List TlsConfig → Bool → ℕ → DbServer → Option ConfigError → Option CString → Verdict DbServer
unfolding check_type type_of_name lcase
check_server tls with_tls timeout s e none = breaks s (missing_type s.name)
check_server tls with_tls timeout s e (some t) =
    check_type tls with_tls timeout (lcase t) s e (type_of_name (lcase t))

unfoldable pub check_servers :
    List TlsConfig
    → Bool
    → ℕ
    → List DbServer
    → Option ConfigError
    → List DbServer × Option ConfigError
unfolding check_server
check_servers tls with_tls timeout [] e = ([], e)
check_servers tls with_tls timeout (s ∷ ss) e =
    elim (check_server tls with_tls timeout s e s.dbtype_name) [
      | breaks s2 e2 ↦ (s2 ∷ ss, some e2)
      | goes_on s2 e2 ↦ let rest = check_servers tls with_tls timeout ss e2 in (s2 ∷ rest.0, rest.1)
    ]
