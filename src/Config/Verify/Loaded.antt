-- ===== src/Config/Verify/Loaded.antt =====
-- A configuration in which `mg_verify_config` finds no error.
use mg_web.Base.{
  ℕ, ◌≡◌, refl, sym, ap, subst, ◌⊎◌, inl, inr, List, [], ◌∷◌, Bool, if◌then◌else◌, Option, none,
  some, Option-cases, All, if_both, ◌≤◌, length,
}
use mg_web.Text.{CString}
use mg_web.Config.{DbServer, Location, MgSys, ConfigError, no_servers, no_locations}
use mg_web.Config.LocationSection.Bounds.{InBounds, IsNamedBehind}
use mg_web.Config.Parse.{Library, Parser, fail}
use mg_web.Config.Parse.Bounds.{IsBounded}
use mg_web.Config.Parse.Bounded.{parse_config-IsBounded}
use mg_web.Config.Parse.Lines.{parse_config, is_error}
use mg_web.Config.ServerCheck.{check_servers}
use mg_web.Config.LocationCheck.{
  LocationVerdict, passes, refuses, wild_read, check_location, check_locations,
}
use mg_web.Config.Verify.{is_empty, verify_locations, verify_config, check_parsed, load_config}
use mg_web.Config.Verify.Ready.{IsReady}
use mg_web.Config.Verify.Sound.{check_servers-IsReady, Serves, IsServed, check_location-Serves}

LocationVerdict-cases :
    (v : LocationVerdict)
    → ((l : Location) × (v ≡ passes l))
      ⊎ ((l : Location) × (e : ConfigError) × (v ≡ refuses l e))
      ⊎ (v ≡ wild_read)
LocationVerdict-cases (passes l) = inl (l, refl)
LocationVerdict-cases (refuses l e) = inr (inl (l, e, refl))
LocationVerdict-cases wild_read = inr (inr refl)

-- What the loop over the locations has come to.
abbrev AreServed : Bool → List DbServer → Option (List Location × Option ConfigError) → Type 0
AreServed pbuf servers none = Unit {0}
AreServed pbuf servers (some (ls, some e)) = Unit {0}
AreServed pbuf servers (some (ls, none)) = All (IsServed pbuf servers) ls

AreServed-cons :
    (pbuf : Bool) (servers : List DbServer) (l : Location)
    (o : Option (List Location × Option ConfigError))
    → IsServed pbuf servers l
    → AreServed pbuf servers o
    → AreServed pbuf servers (elim o [ none ↦ none | some (rest, e2) ↦ some (l ∷ rest, e2) ])
AreServed-cons pbuf servers l none first others = tt
AreServed-cons pbuf servers l (some (ls, some e)) first others = tt
AreServed-cons pbuf servers l (some (ls, none)) first others = (first, others)

check_locations-AreServed :
    (servers : List DbServer) (pbuf : Bool) (ls : List Location)
    → All (λ l. IsNamedBehind l.servers) ls
    → AreServed pbuf servers (check_locations servers pbuf ls)
unfolding check_locations
check_locations-AreServed servers pbuf [] named = tt
check_locations-AreServed servers pbuf (l ∷ ls) (named, others) =
    elim (LocationVerdict-cases (check_location servers pbuf l))
      as (λ _. AreServed pbuf servers (check_locations servers pbuf (l ∷ ls))) [
        | inl (l2, v) ↦
            rw (check_locations, v)
              (AreServed-cons pbuf servers l2 (check_locations servers pbuf ls)
                (subst (Serves servers pbuf) v (check_location-Serves servers pbuf l named))
                (check_locations-AreServed servers pbuf ls others))
        | inr (inl (l2, e, v)) ↦ rw (check_locations, v) tt
        | inr (inr v) ↦ rw (check_locations, v) tt
      ]

-- What holds of a configuration without an error.
abbrev pub IsVerified : Bool → Parser → Type 0
IsVerified pbuf p = All (IsReady p.tls) p.servers × All (IsServed pbuf p.servers) p.locations

abbrev Verified : Bool → Option Parser → Type 0
Verified pbuf none = Unit {0}
Verified pbuf (some p) = p.sys.config_error ≡ none → IsVerified pbuf p

located :
    (pbuf : Bool) (p : Parser) (o : Option (List Location × Option ConfigError))
    → All (IsReady p.tls) p.servers
    → AreServed pbuf p.servers o
    → Verified pbuf (elim o [
      | none ↦ none
      | some (locations, e) ↦ some (fail e (record p { locations = locations }))
    ])
unfolding fail
located pbuf p none ready served = tt
located pbuf p (some (ls, none)) ready served = λ no_error. (ready, served)
located pbuf p (some (ls, some e)) ready served = λ no_error. absurd cc

verify_locations-Verified :
    (pbuf : Bool) (p : Parser)
    → All (λ l. IsNamedBehind l.servers) p.locations
    → (p.sys.config_error ≡ none → All (IsReady p.tls) p.servers)
    → Verified pbuf (verify_locations pbuf p)
unfolding verify_locations
verify_locations-Verified pbuf p named ready =
    elim (Option-cases p.sys.config_error) as (λ _. Verified pbuf (verify_locations pbuf p)) [
      | inl no_error ↦
          rw (verify_locations, ap is_error no_error)
            (located pbuf p (check_locations p.servers pbuf p.locations) (ready no_error)
              (check_locations-AreServed p.servers pbuf p.locations named))
      | inr (e, failed) ↦ rw (verify_locations, ap is_error failed) (λ no_error. absurd cc)
    ]

fail-IsReady :
    (e : Option ConfigError) (p : Parser)
    → (e ≡ none → All (IsReady p.tls) p.servers)
    → (fail e p).sys.config_error ≡ none
    → All (IsReady (fail e p).tls) (fail e p).servers
unfolding fail
fail-IsReady none p ready no_error = ready refl
fail-IsReady (some e) p ready no_error = absurd cc

fail-locations : (e : Option ConfigError) (p : Parser) → (fail e p).locations ≡ p.locations
unfolding fail
fail-locations none p = refl
fail-locations (some e) p = refl

refused : (pbuf : Bool) (e : ConfigError) (p : Parser) → Verified pbuf (some (fail (some e) p))
unfolding fail
refused pbuf e p no_error = absurd cc

verify_config-Verified :
    (pbuf with_tls : Bool) (p : Parser)
    → All (λ l. IsNamedBehind l.servers) p.locations
    → Verified pbuf (verify_config pbuf with_tls p)
unfolding verify_config
verify_config-Verified pbuf with_tls p named =
    let checked : List DbServer × Option ConfigError =
      check_servers p.tls with_tls p.sys.timeout p.servers p.sys.config_error in
    let p2 : Parser = record p { servers = checked.0 } in
    let named2 : All (λ l. IsNamedBehind l.servers) (fail checked.1 p2).locations =
      subst (All (λ l. IsNamedBehind l.servers)) (sym (fail-locations checked.1 p2)) named in
    let ready : checked.1 ≡ none → All (IsReady p.tls) checked.0 = λ no_error.
      (check_servers-IsReady p.tls with_tls p.sys.timeout p.servers p.sys.config_error
        no_error).1 in
    if_both (Verified pbuf) (is_empty p.servers) {x = some (fail (some no_servers) p)}
      {y = if is_empty p.locations
        then some (fail (some no_locations) p)
        else verify_locations pbuf (fail checked.1 p2)}
      (refused pbuf no_servers p)
      (if_both (Verified pbuf) (is_empty p.locations) {x = some (fail (some no_locations) p)}
        {y = verify_locations pbuf (fail checked.1 p2)} (refused pbuf no_locations p)
        (verify_locations-Verified pbuf (fail checked.1 p2) named2
          (fail-IsReady checked.1 p2 ready)))

All-named : (ls : List Location) → All InBounds ls → All (λ l. IsNamedBehind l.servers) ls
All-named [] h = tt
All-named (l ∷ ls) ((fits, named, cgi, variables), others) = (named, All-named ls others)

check_parsed-Verified :
    (pbuf with_tls : Bool) (o : Option Parser)
    → ((q : Parser) → o ≡ some q → IsBounded q)
    → Verified pbuf (check_parsed pbuf with_tls o)
unfolding check_parsed
check_parsed-Verified pbuf with_tls none h = tt
check_parsed-Verified pbuf with_tls (some q) h =
    elim (Option-cases q.sys.config_error)
      as (λ _. Verified pbuf (check_parsed pbuf with_tls (some q))) [
        | inl no_error ↦
            rw (check_parsed, ap is_error no_error)
              (verify_config-Verified pbuf with_tls q (All-named q.locations (h q refl).locations))
        | inr (e, failed) ↦ rw (check_parsed, ap is_error failed) (λ no_error. absurd cc)
      ]

-- A configuration that is read and checked without an error: each server has a type of database that is known, with
-- the number and the size of strings for it, and is in this process, then with a user name and a password but for
-- YottaDB, or has an address and a port; the TLS configuration that it names is the one it points at. Each location
-- is for the administrator, or has a function and servers, each points at a server with its name, and with memory for
-- the log it has not got four variables for server affinity.
pub load_config-IsVerified :
    (lib : Library) (pbuf with_tls : Bool) (config_size : ℕ) (config : CString) (sys : MgSys)
    (p : Parser)
    → length sys.cgi ≤ 120
    → load_config lib pbuf with_tls config_size config sys ≡ some p
    → p.sys.config_error ≡ none
    → IsVerified pbuf p
unfolding load_config
load_config-IsVerified lib pbuf with_tls config_size config sys p h e = subst (Verified pbuf) e (
    check_parsed-Verified pbuf with_tls (parse_config lib config_size config sys)
      (λ q. parse_config-IsBounded lib config_size config sys q h))
