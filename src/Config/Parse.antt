-- ===== src/Config/Parse.antt =====
-- src/mg_web.c, `mg_parse_config`: sections and their lines. The lists of servers, locations and TLS configurations are in the order of the
-- pointers `pnext`, and `psrv`, `ppath` and `ptls` point at the last of each. Nothing as a result stands for an access
-- through a null pointer, for a message that does not fit into `config_error`, and for a line of an environment whose buffer does not
-- get the memory it asks for: the model does not follow the program there.
pub mod Lines
pub mod Bounds
pub mod Bounded
pub mod Safe
pub mod Named
pub mod Messages
pub mod Fitting
pub mod Returns
pub mod Run
pub mod Printed
pub mod Whole
pub mod RoundTrip
use mg_web.Base.{ℕ, List, [], ◌∷◌, ◌++◌, Bool, true, false, not, if◌then◌else◌, Option, none, some}
use mg_web.Text.{CString}
use mg_web.Response.{has}
use mg_web.Config.{
  DbServer, Location, TlsConfig, MgSys, ConfigError, Effect, no_memory, for_server, for_location,
  for_tls, for_environment, syntax_error,
}
use mg_web.Config.Keywords
use mg_web.Config.Words.{section_name}
use mg_web.Config.ServerSection.{new_server, add_environment}
use mg_web.Config.LocationSection.{
  new_location, change_location, LocationEffect, untouched, changes,
}
use mg_web.Config.TlsSection.{new_tls}

-- What the C library does: memory on a line for what `mg_malloc` is called for there, and for the buffer of an environment, `strtol`, and whether `strtod` gives 0.
pub record Library : Type 0 where
  pub memory : ℕ → Bool
  pub buffers : ℕ → Bool
  pub strtol : CString → ℕ
  pub strtod_is_zero : CString → Bool

pub record Parser : Type 0 where
  pub sys : MgSys
  pub servers : List DbServer
  pub locations : List Location
  pub tls : List TlsConfig
  pub inserver : Bool
  pub inpath : Bool
  pub intls : Bool
  pub incgi : Bool
  pub inenv : Bool

-- A message is stored. Whether it fits is what `in_array` sees at the end of the line.
unfoldable pub fail : Option ConfigError → Parser → Parser
fail none p = p
fail (some e) p = record p { sys = record p.sys { config_error = some e } }

-- A change of the object that the section is about, with a result, if there is one.
unfoldable pub update_last : {A B : Type 0} → (A → A × B) → List A → Option (List A × B)
update_last f [] = none
update_last f (x ∷ []) = some ((f x).0 ∷ [], (f x).1)
update_last f (x ∷ y ∷ xs) = elim (update_last f (y ∷ xs)) [
  | none ↦ none
  | some (ys, r) ↦ some (x ∷ ys, r)
]

unfoldable pub open_server : Bool → CString → Parser → Parser
unfolding fail section_name
open_server memory name p =
    if memory
    then record p { servers = p.servers ++ (new_server (section_name name) ∷ []) }
    else fail (some (no_memory for_server)) p

unfoldable pub open_location : Bool → CString → Parser → Parser
unfolding fail
open_location memory name p =
    if memory
    then record p { locations = p.locations ++ (new_location name ∷ []) }
    else fail (some (no_memory for_location)) p

unfoldable pub open_tls : Bool → CString → Parser → Parser
unfolding fail section_name
open_tls memory name p =
    if memory
    then record p { tls = p.tls ++ (new_tls (section_name name) ∷ []) }
    else fail (some (no_memory for_tls)) p

-- A section begins, where the line gives it a name.
abbrev pub with_name : (CString → Parser → Parser) → List CString → Parser → Parser
with_name f [] p = p
with_name f (name ∷ words) p = f name p

abbrev pub open_if : Bool → (CString → Parser → Parser) → List CString → Parser → Parser
open_if eos f words p = if eos then p else with_name f words p

-- A line whose first word, in lower case, is `head`, and begins with `<`.
unfoldable pub section_line : Bool → ℕ → CString → List CString → Parser → Parser
unfolding open_server open_location open_tls fail
section_line memory ln head words p =
    let eos = has head Keywords.slash in
    if has head Keywords.server_word
    then open_if eos (open_server memory) words (record p { inserver = not eos })
    else if has head Keywords.location_word
    then open_if eos (open_location memory) words (record p { inpath = not eos })
    else if has head Keywords.tls_word
    then open_if eos (open_tls memory) words (record p { intls = not eos })
    else if has head Keywords.cgi_word
    then record p { incgi = not eos }
    else if has head Keywords.env_word
    then record p { inenv = not eos }
    else fail (some (syntax_error ln)) p

-- The store of a line of the environment, and whether there is a buffer for it.
abbrev pub put_environment : Bool → CString → DbServer → DbServer × Bool
put_environment memory line s = elim s.penv [
  | none ↦ if memory then (add_environment line s, true) else (s, false)
  | some env ↦ (add_environment line s, true)
]

-- `buffers` says whether `mg_buf_init` and `mg_buf_cat` have the memory that they ask for.
unfoldable pub environment_line : Bool → Bool → CString → Parser → Option Parser
unfolding update_last add_environment fail
environment_line memory buffers line p =
    elim (update_last (put_environment memory line) p.servers) [
      | none ↦ none
      | some (servers, true) ↦ if buffers then some (record p { servers = servers }) else none
      | some (servers, false) ↦ some (fail (some (no_memory for_environment)) p)
    ]

unfoldable pub in_server : Effect DbServer → Parser → Option Parser
unfolding update_last fail
in_server e p = elim e.update [
  | none ↦ some (fail e.error p)
  | some f ↦ elim (update_last (λ s. (f s, e.error)) p.servers) [
    | none ↦ none
    | some (servers, error) ↦ some (fail error (record p { servers = servers }))
  ]
]

unfoldable pub in_tls : Effect TlsConfig → Parser → Option Parser
unfolding update_last fail
in_tls e p = elim e.update [
  | none ↦ some (fail e.error p)
  | some f ↦ elim (update_last (λ t. (f t, e.error)) p.tls) [
    | none ↦ none
    | some (tls, error) ↦ some (fail error (record p { tls = tls }))
  ]
]

abbrev pub is_harmless : Bool → LocationEffect → Bool
is_harmless incgi (untouched e) = not incgi
is_harmless incgi (changes f) = false

abbrev pub effect_error : LocationEffect → Option ConfigError
effect_error (untouched e) = e
effect_error (changes f) = none

unfoldable pub in_location : List CString → LocationEffect → Parser → Option Parser
unfolding update_last fail change_location
in_location words e p =
    if is_harmless p.incgi e
    then some (fail (effect_error e) p)
    else elim (update_last (change_location p.incgi words e) p.locations) [
      | none ↦ none
      | some (locations, error) ↦ some (fail error (record p { locations = locations }))
    ]
