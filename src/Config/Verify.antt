-- ===== src/Config/Verify.antt =====
-- src/mg_web.c: `mg_verify_config`, and the two calls of `mg_worker_init`. `pbuf` says whether there is memory for the
-- log, of which only the array accesses are modelled, and `with_tls` whether `DBX_WITH_TLS` is set.
pub mod Ready
pub mod Sound
pub mod Loaded
use mg_web.Base.{ℕ, List, [], ◌∷◌, Bool, true, false, if◌then◌else◌, Option, none, some}
use mg_web.Text.{CString}
use mg_web.Config.{MgSys, no_servers, no_locations}
use mg_web.Config.Parse.{Library, Parser, fail}
use mg_web.Config.Parse.Lines.{parse_config, is_error}
use mg_web.Config.ServerCheck.{check_servers}
use mg_web.Config.LocationCheck.{check_locations}

abbrev pub is_empty : {A : Type 0} → List A → Bool
is_empty [] = true
is_empty (x ∷ xs) = false

-- The loop over the locations, if the servers gave no error.
unfoldable pub verify_locations : Bool → Parser → Option Parser
unfolding check_locations fail
verify_locations pbuf p =
    if is_error p.sys.config_error
    then some p
    else elim (check_locations p.servers pbuf p.locations) [
      | none ↦ none
      | some (locations, e) ↦ some (fail e (record p { locations = locations }))
    ]

unfoldable pub verify_config : Bool → Bool → Parser → Option Parser
unfolding check_servers verify_locations fail
verify_config pbuf with_tls p =
    if is_empty p.servers
    then some (fail (some no_servers) p)
    else if is_empty p.locations
    then some (fail (some no_locations) p)
    else let checked = check_servers p.tls with_tls p.sys.timeout p.servers p.sys.config_error in
      verify_locations pbuf (fail checked.1 (record p { servers = checked.0 }))

-- `mg_worker_init`, behind the place where the configuration has been read; it is checked if it has no error.
unfoldable pub check_parsed : Bool → Bool → Option Parser → Option Parser
unfolding verify_config
check_parsed pbuf with_tls none = none
check_parsed pbuf with_tls (some p) =
    if is_error p.sys.config_error then some p else verify_config pbuf with_tls p

unfoldable pub load_config : Library → Bool → Bool → ℕ → CString → MgSys → Option Parser
unfolding parse_config check_parsed
load_config lib pbuf with_tls config_size config sys =
    check_parsed pbuf with_tls (parse_config lib config_size config sys)
