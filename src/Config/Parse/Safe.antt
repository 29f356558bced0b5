-- ===== src/Config/Parse/Safe.antt =====
-- Where `mg_parse_config` does not go through a null pointer.
use mg_web.Base.{
  ◌≡◌, ◌≢◌, refl, inl, inr, List, [], ◌∷◌, ◌++◌, Bool, true, false, Option, none, some, length,
  arith, Option-cases, if_both, length-append,
}
use mg_web.Text.{CString}
use mg_web.Config.{DbServer, TlsConfig, Effect, ConfigError, no_memory, for_environment}
use mg_web.Config.LocationSection.{LocationEffect, change_location}
use mg_web.Config.Parse.{
  Parser, fail, update_last, environment_line, put_environment, in_server, in_tls, in_location,
  is_harmless, effect_error,
}
use mg_web.Config.Parse.Lines.{is_error}

-- In a section there is an object that it is about.
pub record HasObjects (p : Parser) : Type 0 where
  pub server : p.inserver ≡ true → length p.servers ≢ 0
  pub location : p.inpath ≡ true → length p.locations ≢ 0
  pub tls : p.intls ≡ true → length p.tls ≢ 0

abbrev pub HasFailed : Parser → Type 0
HasFailed p = is_error p.sys.config_error ≡ true

-- There is a parser, and it has the objects or has failed.
pub data IsSafe : Option Parser → Type 0 where
  failed : (p : Parser) → HasFailed p → IsSafe (some p)
  ready : (p : Parser) → HasObjects p → IsSafe (some p)

pub fail-HasObjects : (e : Option ConfigError) (p : Parser) → HasObjects p → HasObjects (fail e p)
unfolding fail
fail-HasObjects none p h = h
fail-HasObjects (some e) p h = record { server = h.server; location = h.location; tls = h.tls }

pub fail-HasFailed : (e : ConfigError) (p : Parser) → HasFailed (fail (some e) p)
unfolding fail
fail-HasFailed e p = refl

-- The object that is changed is there.
update_last-some :
    {A B : Type 0} (f : A → A × B) (xs : List A)
    → length xs ≢ 0
    → (ys : List A) × (r : B) × (update_last f xs ≡ some (ys, r)) × (length ys ≢ 0)
unfolding update_last
update_last-some f [] some_object = absurd (some_object refl)
update_last-some f (x ∷ []) some_object = ((f x).0 ∷ [], (f x).1, refl, λ e. absurd (omega arith))
update_last-some f (x ∷ y ∷ xs) some_object =
    let (ys, r, same, many) = update_last-some f (y ∷ xs) (λ e. absurd (omega arith)) in
    (x ∷ ys, r, rw same refl, λ e. absurd (omega arith))

pub append-nonempty : {A : Type 0} (xs : List A) (x : A) → length (xs ++ (x ∷ [])) ≢ 0
append-nonempty xs x e = absurd (let sum = length-append xs (x ∷ []) in omega arith)

pub in_server-IsSafe :
    (e : Effect DbServer) (p : Parser) → p.inserver ≡ true → HasObjects p → IsSafe (in_server e p)
unfolding in_server
in_server-IsSafe e p inside h = elim (Option-cases e.update) as (λ _. IsSafe (in_server e p)) [
  | inl no_store ↦ rw (in_server, no_store) (ready (fail e.error p) (fail-HasObjects e.error p h))
  | inr (f, store) ↦
      let (ys, r, same, many) =
        update_last-some (λ s. (f s, e.error)) p.servers (h.server inside) in
      let p2 : Parser = record p { servers = ys } in
      let objects : HasObjects p2 = record {
        server = λ i. many;
        location = h.location;
        tls = h.tls;
      } in
      rw (in_server, store, same) (ready (fail r p2) (fail-HasObjects r p2 objects))
]

pub in_tls-IsSafe :
    (e : Effect TlsConfig) (p : Parser) → p.intls ≡ true → HasObjects p → IsSafe (in_tls e p)
unfolding in_tls
in_tls-IsSafe e p inside h = elim (Option-cases e.update) as (λ _. IsSafe (in_tls e p)) [
  | inl no_store ↦ rw (in_tls, no_store) (ready (fail e.error p) (fail-HasObjects e.error p h))
  | inr (f, store) ↦
      let (ys, r, same, many) = update_last-some (λ t. (f t, e.error)) p.tls (h.tls inside) in
      let p2 : Parser = record p { tls = ys } in
      let objects : HasObjects p2 = record {
        server = h.server;
        location = h.location;
        tls = λ i. many;
      } in
      rw (in_tls, store, same) (ready (fail r p2) (fail-HasObjects r p2 objects))
]

pub in_location-IsSafe :
    (words : List CString) (e : LocationEffect) (p : Parser)
    → p.inpath ≡ true
    → HasObjects p
    → IsSafe (in_location words e p)
unfolding in_location
in_location-IsSafe words e p inside h =
    let (ys, r, same, many) =
      update_last-some (change_location p.incgi words e) p.locations (h.location inside) in
    let p2 : Parser = record p { locations = ys } in
    let objects : HasObjects p2 = record { server = h.server; location = λ i. many; tls = h.tls } in
    if_both IsSafe (is_harmless p.incgi e)
      (ready (fail (effect_error e) p) (fail-HasObjects (effect_error e) p h))
      (rw same (ready (fail r p2) (fail-HasObjects r p2 objects)))

stored_environment :
    (memory : Bool) (buffers : Bool) (line : CString) (p : Parser) (ys : List DbServer) (r : Bool)
    → buffers ≡ true
    → update_last (put_environment memory line) p.servers ≡ some (ys, r)
    → length ys ≢ 0
    → HasObjects p
    → IsSafe (environment_line memory buffers line p)
unfolding environment_line
stored_environment memory buffers line p ys true enough same many h =
    rw (environment_line, same, enough)
      (ready (record p { servers = ys })
        (record { server = λ i. many; location = h.location; tls = h.tls }))
stored_environment memory buffers line p ys false enough same many h =
    rw (environment_line, same)
      (ready (fail (some (no_memory for_environment)) p)
        (fail-HasObjects (some (no_memory for_environment)) p h))

pub environment_line-IsSafe :
    (memory : Bool) (buffers : Bool) (line : CString) (p : Parser)
    → buffers ≡ true
    → p.inserver ≡ true
    → HasObjects p
    → IsSafe (environment_line memory buffers line p)
environment_line-IsSafe memory buffers line p enough inside h =
    let (ys, r, same, many) =
      update_last-some (put_environment memory line) p.servers (h.server inside) in
    stored_environment memory buffers line p ys r enough same many h
