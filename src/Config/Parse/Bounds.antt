-- ===== src/Config/Parse/Bounds.antt =====
-- What the loop over the lines of the configuration keeps: the arrays hold what is stored in them.
use mg_web.Base.{
  if◌then◌else◌, ◌≤◌, List, [], ◌∷◌, ◌++◌, Bool, true, false, Option, none, some, length,
  Option-cases, inl, inr, All, if_both,
}
use mg_web.Text.{CString}
use mg_web.Config.{DbServer, Location, TlsConfig, Effect, ConfigError, no_memory, for_environment}
use mg_web.Config.LocationSection.{LocationEffect, change_location}
use mg_web.Config.LocationSection.Bounds.{InBounds, Keeps, change_location-InBounds}
use mg_web.Config.Parse.{
  Parser, fail, update_last, environment_line, in_server, in_tls, in_location, is_harmless,
  effect_error, put_environment,
}

-- The locations are in bounds, and so are the CGI variables that are asked for everywhere.
pub record IsBounded (p : Parser) : Type 0 where
  pub locations : All InBounds p.locations
  pub cgi : length p.sys.cgi ≤ 120

-- After a step, if it does not end with an access through a null pointer.
pub data WhereBounded : Option Parser → Type 0 where
  crashed : WhereBounded none
  bounded : (p : Parser) → IsBounded p → WhereBounded (some p)

pub fail-IsBounded : (e : Option ConfigError) (p : Parser) → IsBounded p → IsBounded (fail e p)
unfolding fail
fail-IsBounded none p h = h
fail-IsBounded (some e) p h = record { locations = h.locations; cgi = h.cgi }

pub All-append :
    (xs : List Location) (l : Location)
    → All InBounds xs
    → InBounds l
    → All InBounds (xs ++ (l ∷ []))
All-append [] l h new = (new, tt)
All-append (x ∷ xs) l (first, others) new = (first, All-append xs l others new)

pub data AreChanged : Option (List Location × Option ConfigError) → Type 0 where
  no_location : AreChanged none
  changed :
      (ls : List Location) (e : Option ConfigError) → All InBounds ls → AreChanged (some (ls, e))

AreChanged-cons :
    (l : Location) (o : Option (List Location × Option ConfigError))
    → InBounds l
    → AreChanged o
    → AreChanged (elim o [ none ↦ none | some (ys, r) ↦ some (l ∷ ys, r) ])
AreChanged-cons l _ first no_location = no_location
AreChanged-cons l _ first (changed ls e others) = changed (l ∷ ls) e (first, others)

update_last-AreChanged :
    (f : Location → Location × Option ConfigError) (ls : List Location)
    → ((l : Location) → InBounds l → InBounds (f l).0)
    → All InBounds ls
    → AreChanged (update_last f ls)
unfolding update_last
update_last-AreChanged f [] keeps h = no_location
update_last-AreChanged f (l ∷ []) keeps (h, tt) = changed ((f l).0 ∷ []) (f l).1 (keeps l h, tt)
update_last-AreChanged f (l ∷ k ∷ ls) keeps (first, others) =
    AreChanged-cons l (update_last f (k ∷ ls)) first
      (update_last-AreChanged f (k ∷ ls) keeps others)

changed-WhereBounded :
    (p : Parser) (o : Option (List Location × Option ConfigError))
    → length p.sys.cgi ≤ 120
    → AreChanged o
    → WhereBounded (elim o [
      | none ↦ none
      | some (locations, error) ↦ some (fail error (record p { locations = locations }))
    ])
changed-WhereBounded p _ cgi no_location = crashed
changed-WhereBounded p _ cgi (changed ls e all) =
    let p2 : Parser = record p { locations = ls } in
    bounded (fail e p2) (fail-IsBounded e p2 (record { locations = all; cgi = cgi }))

pub in_location-WhereBounded :
    (words : List CString) (e : LocationEffect) (p : Parser)
    → Keeps e
    → IsBounded p
    → WhereBounded (in_location words e p)
unfolding in_location
in_location-WhereBounded words e p keeps h =
    if_both WhereBounded (is_harmless p.incgi e)
      (bounded (fail (effect_error e) p) (fail-IsBounded (effect_error e) p h))
      (changed-WhereBounded p _ h.cgi (
        update_last-AreChanged (change_location p.incgi words e) p.locations
          (λ l. change_location-InBounds p.incgi words e l keeps) h.locations))

-- What the sections of servers and of TLS configurations come to.
stored_servers :
    (p : Parser) (o : Option (List DbServer × Option ConfigError))
    → IsBounded p
    → WhereBounded (elim o [
      | none ↦ none
      | some (servers, error) ↦ some (fail error (record p { servers = servers }))
    ])
stored_servers p none h = crashed
stored_servers p (some (servers, e)) h =
    let p2 : Parser = record p { servers = servers } in
    bounded (fail e p2) (fail-IsBounded e p2 (record { locations = h.locations; cgi = h.cgi }))

stored_tls :
    (p : Parser) (o : Option (List TlsConfig × Option ConfigError))
    → IsBounded p
    → WhereBounded
        (elim o [ none ↦ none | some (tls, error) ↦ some (fail error (record p { tls = tls })) ])
stored_tls p none h = crashed
stored_tls p (some (tls, e)) h =
    let p2 : Parser = record p { tls = tls } in
    bounded (fail e p2) (fail-IsBounded e p2 (record { locations = h.locations; cgi = h.cgi }))

pub in_server-WhereBounded :
    (e : Effect DbServer) (p : Parser) → IsBounded p → WhereBounded (in_server e p)
unfolding in_server
in_server-WhereBounded e p h = elim (Option-cases e.update) as (λ _. WhereBounded (in_server e p)) [
  | inl no_store ↦ rw (in_server, no_store) (bounded (fail e.error p) (fail-IsBounded e.error p h))
  | inr (f, store) ↦
      rw (in_server, store) (stored_servers p (update_last (λ s. (f s, e.error)) p.servers) h)
]

pub in_tls-WhereBounded :
    (e : Effect TlsConfig) (p : Parser) → IsBounded p → WhereBounded (in_tls e p)
unfolding in_tls
in_tls-WhereBounded e p h = elim (Option-cases e.update) as (λ _. WhereBounded (in_tls e p)) [
  | inl no_store ↦ rw (in_tls, no_store) (bounded (fail e.error p) (fail-IsBounded e.error p h))
  | inr (f, store) ↦ rw (in_tls, store) (stored_tls p (update_last (λ s. (f s, e.error)) p.tls) h)
]

stored_environment :
    (buffers : Bool) (p : Parser) (o : Option (List DbServer × Bool))
    → IsBounded p
    → WhereBounded (elim o [
      | none ↦ none
      | some (servers, true) ↦ if buffers then some (record p { servers = servers }) else none
      | some (servers, false) ↦ some (fail (some (no_memory for_environment)) p)
    ])
stored_environment buffers p none h = crashed
stored_environment false p (some (servers, true)) h = crashed
stored_environment true p (some (servers, true)) h =
    bounded (record p { servers = servers }) (record { locations = h.locations; cgi = h.cgi })
stored_environment buffers p (some (servers, false)) h =
    bounded (fail (some (no_memory for_environment)) p)
      (fail-IsBounded (some (no_memory for_environment)) p h)

pub environment_line-WhereBounded :
    (memory buffers : Bool) (line : CString) (p : Parser)
    → IsBounded p
    → WhereBounded (environment_line memory buffers line p)
unfolding environment_line
environment_line-WhereBounded memory buffers line p h =
    stored_environment buffers p (update_last (put_environment memory line) p.servers) h
