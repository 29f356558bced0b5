-- ===== src/Config/LocationSection.antt =====
-- src/mg_web.c, `mg_parse_config`: the sections of locations. The words of a line are changed in place, and a pointer
-- in the array `cgi` sees that; so what a parameter does has the words afterwards.
pub mod Affinity
pub mod Bounds
use mg_web.Base.{
  ℕ, List, [], ◌∷◌, ◌++◌, Bool, true, false, ltb, if◌then◌else◌, Option, none, some, length, take,
  drop,
}
use mg_web.Text.{CString, lcase, strcmp_eq, strstr}
use mg_web.Response.{has}
use mg_web.Config.{Location, Slot, ConfigError, invalid_location}
use mg_web.Config.Keywords
use mg_web.Config.Words.{location_name, lower_name}
use mg_web.Config.GlobalSection.{add_cgi}
use mg_web.Config.LocationSection.Affinity.{affinity_words}

abbrev pub new_location : CString → Location
new_location name = record {
  name = location_name name;
  function = none;
  wsmaps = [];
  load_balancing = false;
  sa_order = 0;
  sa_cookie = none;
  sa_variables = [];
  servers = [];
  cgi = [];
  admin = 0;
}

-- The location afterwards, the words behind the first, and the error, if one comes.
pub record Change : Type 0 where
  pub location : Location
  pub words : List CString
  pub error : Option ConfigError

-- A parameter that does not come to a store, and one that does.
pub data LocationEffect : Type 0 where
  untouched : Option ConfigError → LocationEffect
  changes : (Location → Change) → LocationEffect

abbrev pub max_servers : ℕ
max_servers = 30

abbrev pub new_slot : CString → Bool → Slot
new_slot name exclusive = record {
  name = some name;
  lcname = lower_name name;
  psrv = none;
  exclusive = exclusive;
}

-- One word of the parameter `servers`: the name in front of the `:`, and whether the server is exclusive.
unfoldable pub server_and_flag : CString → CString × Bool
server_and_flag w = elim (strstr w Keywords.colon) [
  | none ↦ (w, false)
  | some (before, p) ↦ (before, has (lcase (take 32 (drop 1 p))) Keywords.ex_word)
]

unfoldable pub add_slot : CString × Bool → List Slot → List Slot
add_slot ([], ex) slots = slots
add_slot (c ∷ name, ex) slots = slots ++ (new_slot (c ∷ name) ex ∷ [])

-- The loop over the words of the parameter `servers`.
unfoldable pub add_servers : List CString → List Slot → List Slot × List CString
unfolding server_and_flag add_slot
add_servers [] slots = (slots, [])
add_servers (w ∷ ws) slots = elim (ltb (length slots) max_servers) [
  | false ↦ (slots, w ∷ ws)
  | true ↦
      let rest = add_servers ws (add_slot (server_and_flag w) slots) in
      (rest.0, (server_and_flag w).0 ∷ rest.1)
]

unfoldable pub put_servers : List CString → Location → Change
unfolding add_servers
put_servers ws l =
    let added = add_servers ws l.servers in
    record { location = record l { servers = added.0 }; words = added.1; error = none }

unfoldable pub put_load_balancing : CString → List CString → Location → Change
put_load_balancing value ws l = record {
  location = record l { load_balancing = strcmp_eq (lcase value) Keywords.on_word };
  words = lcase value ∷ ws;
  error = none;
}

abbrev pub admin_of : CString → ℕ
admin_of value =
    if strcmp_eq value Keywords.on_word
    then 2
    else if strcmp_eq value Keywords.off_word
    then 0
    else 1

unfoldable pub put_administrator : CString → List CString → Location → Change
put_administrator value ws l = record {
  location = record l { admin = admin_of (lcase value) };
  words = lcase value ∷ ws;
  error = none;
}

-- The parameter `websocket`, which two words have to follow; without memory it is passed over.
unfoldable pub websocket : Bool → CString → List CString → LocationEffect
websocket memory value [] = untouched none
websocket memory value (function ∷ ws) =
    if memory
    then changes (λ l. record {
      location = record l {
        wsmaps = l.wsmaps ++ (record { name = value; function = function } ∷ []);
      };
      words = value ∷ function ∷ ws;
      error = none;
    })
    else untouched none

-- The parameter `key`, in lower case, on line `ln`, with the words behind it.
unfoldable pub location_parameter : Bool → ℕ → CString → CString → List CString → LocationEffect
unfolding put_servers put_load_balancing put_administrator websocket affinity_words
location_parameter memory ln key value words =
    if strcmp_eq key Keywords.function_word
    then changes (λ l. record {
      location = record l { function = some value };
      words = value ∷ words;
      error = none;
    })
    else if strcmp_eq key Keywords.websocket_word
    then websocket memory value words
    else if strcmp_eq key Keywords.servers_word
    then changes (put_servers (value ∷ words))
    else if strcmp_eq key Keywords.load_balancing_word
    then changes (put_load_balancing value words)
    else if strcmp_eq key Keywords.server_affinity
    then changes (λ l.
      let (l2, ws, bad) = affinity_words (value ∷ words) (record l { sa_order = 0 }) in
      record {
        location = l2;
        words = ws;
        error = if bad then some (invalid_location key ln) else none;
      })
    else if strcmp_eq key Keywords.administrator_word
    then changes (put_administrator value words)
    else untouched (some (invalid_location key ln))

-- A line in a location, and with `incgi` in a list of CGI variables there, as an effect.
unfoldable pub location_effect : Bool → ℕ → List CString → LocationEffect
unfolding location_parameter lcase
location_effect memory ln (key ∷ value ∷ words) =
    location_parameter memory ln (lcase key) value words
location_effect memory ln _ = untouched none

-- The first word is put into lower case where there are two or more.
unfoldable pub first_word : List CString → List CString
first_word [] = []
first_word (key ∷ []) = key ∷ []
first_word (key ∷ value ∷ words) = lcase key ∷ []

abbrev pub behind_first : List CString → List CString
behind_first [] = []
behind_first (key ∷ words) = words

abbrev pub put_cgi : Bool → List CString → Location → Location
put_cgi incgi words l = if incgi then record l { cgi = add_cgi words l.cgi } else l

-- A line in a location: the locations that there are, of which the last is the current one, and the error. Nothing stands
-- for a store through a null pointer.
unfoldable pub change_location :
    Bool → List CString → LocationEffect → Location → Location × Option ConfigError
unfolding first_word
change_location incgi words (untouched e) l =
    (put_cgi incgi (first_word words ++ behind_first words) l, e)
change_location incgi words (changes f) l =
    let c = f l in (put_cgi incgi (first_word words ++ c.words) c.location, c.error)
