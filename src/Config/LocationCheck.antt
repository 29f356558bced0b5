-- ===== src/Config/LocationCheck.antt =====
-- src/mg_web.c, `mg_verify_config`: the checks of the locations. `pbuf` says whether there is memory for the log, of
-- which only the array accesses are modelled.
use mg_web.Base.{
  ℕ, suc, List, [], ◌∷◌, Bool, true, false, not, ◌&&◌, ◌||◌, ◌==◌, if◌then◌else◌, Option, none,
  some, length,
}
use mg_web.Text.{CString, strcmp_eq}
use mg_web.Config.{
  DbServer, Location, Slot, ConfigError, missing_function, no_location_servers, unknown_server,
  servers_not_found,
}
use mg_web.Config.{is_given}
use mg_web.Config.LocationSection.Affinity.{max_variables}

unfoldable pub find_server : CString → List DbServer → Option ℕ
find_server name [] = none
find_server name (s ∷ ss) =
    let rest = find_server name ss in
    if strcmp_eq name s.name then some 0 else elim rest [ none ↦ none | some i ↦ some (suc i) ]

-- A slot called `name`, for which the search has had this result; behind it are `slots`, which the loop makes `rest`.
unfoldable pub resolve_found :
    CString
    → CString
    → Slot
    → List Slot
    → List Slot × Option ConfigError
    → Option ℕ
    → List Slot × Option ConfigError
resolve_found path name slot slots rest none = (slot ∷ slots, some (unknown_server name path))
resolve_found path name slot slots rest (some i) = (record slot { psrv = some i } ∷ rest.0, rest.1)

unfoldable pub resolve_slot :
    List DbServer
    → CString
    → Slot
    → List Slot
    → List Slot × Option ConfigError
    → Option CString
    → List Slot × Option ConfigError
unfolding resolve_found find_server
resolve_slot servers path slot slots rest none = (slot ∷ slots, none)
resolve_slot servers path slot slots rest (some name) =
    resolve_found path name slot slots rest (find_server name servers)

-- The loop over the slots of a location, up to the first whose name is null.
unfoldable pub resolve_slots : List DbServer → CString → List Slot → List Slot × Option ConfigError
unfolding resolve_slot
resolve_slots servers path [] = ([], none)
resolve_slots servers path (slot ∷ slots) =
    resolve_slot servers path slot slots (resolve_slots servers path slots) slot.name

abbrev pub has_name : List Slot → Bool
has_name [] = false
has_name (slot ∷ slots) = is_given slot.name

-- `!ppath->servers[0].psrv || !ppath->servers[0].name`
abbrev pub first_missing : List Slot → Bool
first_missing [] = true
first_missing (slot ∷ slots) =
    not (is_given slot.name) || elim slot.psrv [ none ↦ true | some i ↦ false ]

-- A location that is checked: the loop goes on or breaks; or the log has read behind the end of `sa_variables`, where
-- the name of a server and then the text of its name in lower case are taken for pointers.
pub data LocationVerdict : Type 0 where
  passes : Location → LocationVerdict
  refuses : Location → ConfigError → LocationVerdict
  wild_read : LocationVerdict

-- The location with its slots as the loop over them has left them, and its error.
unfoldable pub check_resolved : Bool → Location → Option ConfigError → LocationVerdict
check_resolved pbuf l (some e) = refuses l e
check_resolved pbuf l none =
    if first_missing l.servers
    then refuses l (servers_not_found l.name)
    else if pbuf && length l.sa_variables == max_variables
    then wild_read
    else passes l

unfoldable pub check_slots : List DbServer → Bool → Location → LocationVerdict
unfolding resolve_slots check_resolved
check_slots servers pbuf l =
    let resolved = resolve_slots servers l.name l.servers in
    check_resolved pbuf (record l { servers = resolved.0 }) resolved.1

-- A location that is not for the administrator; the last argument is its function.
unfoldable pub check_function : List DbServer → Bool → Location → Option CString → LocationVerdict
unfolding check_slots
check_function servers pbuf l none = refuses l (missing_function l.name)
check_function servers pbuf l (some function) =
    if has_name l.servers
    then check_slots servers pbuf l
    else refuses l (no_location_servers l.name)

unfoldable pub check_location : List DbServer → Bool → Location → LocationVerdict
unfolding check_function
check_location servers pbuf l =
    if l.admin == 0 then check_function servers pbuf l l.function else passes l

-- Nothing as a result stands for a read through a wild pointer.
unfoldable pub check_locations :
    List DbServer → Bool → List Location → Option (List Location × Option ConfigError)
unfolding check_location
check_locations servers pbuf [] = some ([], none)
check_locations servers pbuf (l ∷ ls) = elim (check_location servers pbuf l) [
  | wild_read ↦ none
  | refuses l2 e ↦ some (l2 ∷ ls, some e)
  | passes l2 ↦ elim (check_locations servers pbuf ls) [
    | none ↦ none
    | some (rest, e2) ↦ some (l2 ∷ rest, e2)
  ]
]
