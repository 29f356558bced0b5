-- ===== src/Config/Parse/Fitting.antt =====
-- src/mg_web.c, `mg_parse_config`: a line of short words leaves a message that fits, or none.
use mathlib.Core.Option.{some-injective}
use mg_web.Base.{
  ℕ, zero, suc, ◌-◌, ◌≤◌, ◌≡◌, refl, ap, List, [], ◌∷◌, Bool, true, false, not, if◌then◌else◌,
  Option, none, some, length, arith, All, if_both, inl, inr, Option-cases, subst,
}
use mg_web.Text.{CString, lcase}
use mg_web.Response.{has}
use mg_web.Config.{
  DbServer, TlsConfig, Location, ConfigError, Effect, no_memory, for_server, for_location, for_tls,
  for_environment, syntax_error,
}
use mg_web.Config.Keywords
use mg_web.Config.Words.{words_of, scan_words, close, is_blank, max_size, max_words}
use mg_web.Config.ServerSection.{server_line}
use mg_web.Config.TlsSection.{tls_line}
use mg_web.Config.LocationSection.{
  LocationEffect, untouched, changes, location_effect, change_location,
}
use mg_web.Config.GlobalSection.{global_line, add_cgi}
use mg_web.Config.Parse.{
  Library, Parser, fail, update_last, environment_line, put_environment, in_server, in_tls,
  in_location, is_harmless, effect_error, section_line, open_server, open_location, open_tls,
  open_if,
}
use mg_web.Config.Parse.Lines.{begins_with, parameter_line, take_words}
use mg_web.Config.Parse.Messages.{
  Fits, IsShort, take-All, LocationSays, server_line-Says, tls_line-Says, location_effect-Tells,
  global_line-SysFits,
}

pub record HasRoom (p : Parser) : Type 0 where
  pub fits : Fits p.sys.config_error

pub data WhereRoom : Option Parser → Type 0 where
  lost : WhereRoom none
  kept : (p : Parser) → HasRoom p → WhereRoom (some p)

pub fail-HasRoom : (e : Option ConfigError) (p : Parser) → Fits e → HasRoom p → HasRoom (fail e p)
unfolding fail
fail-HasRoom none p h g = g
fail-HasRoom (some e) p h g = record { fits = h }

result_of : {A B : Type 0} {p q : A × B} → some p ≡ some q → p.1 ≡ q.1
result_of {p = p} {q = q} e = ap (λ r. r.1) (some-injective p q e)

-- What is said of each result of a change holds of that of the last object.
update_last-result :
    {A B : Type 0} (P : B → Type 0) (f : A → A × B) (xs : List A) (ys : List A) (r : B)
    → ((x : A) → P (f x).1)
    → update_last f xs ≡ some (ys, r)
    → P r
unfolding update_last
update_last-result P f [] ys r h e = absurd cc
update_last-result P f (x ∷ []) ys r h e = subst P (result_of e) (h x)
update_last-result P f (x ∷ y ∷ xs) ys r h e = elim (Option-cases (update_last f (y ∷ xs))) [
  | inl none_left ↦ absurd (let other = rw none_left at e in cc)
  | inr ((zs, q), more) ↦
      subst P (result_of (rw more at e)) (update_last-result P f (y ∷ xs) zs q h more)
]

in_server-WhereRoom :
    (e : Effect DbServer) (p : Parser) → Fits e.error → HasRoom p → WhereRoom (in_server e p)
unfolding in_server
in_server-WhereRoom e p says h = elim (Option-cases e.update) [
  | inl no_store ↦ rw (in_server, no_store) (kept (fail e.error p) (fail-HasRoom e.error p says h))
  | inr (f, store) ↦ elim (Option-cases (update_last (λ s. (f s, e.error)) p.servers)) [
    | inl crash ↦ rw (in_server, store, crash) lost
    | inr ((ys, r), e2) ↦
        rw (in_server, store, e2)
          (kept _ (
            fail-HasRoom r (record p { servers = ys })
              (update_last-result Fits (λ s. (f s, e.error)) p.servers ys r (λ s. says) e2)
              (record { fits = h.fits })))
  ]
]

in_tls-WhereRoom :
    (e : Effect TlsConfig) (p : Parser) → Fits e.error → HasRoom p → WhereRoom (in_tls e p)
unfolding in_tls
in_tls-WhereRoom e p says h = elim (Option-cases e.update) [
  | inl no_store ↦ rw (in_tls, no_store) (kept (fail e.error p) (fail-HasRoom e.error p says h))
  | inr (f, store) ↦ elim (Option-cases (update_last (λ s. (f s, e.error)) p.tls)) [
    | inl crash ↦ rw (in_tls, store, crash) lost
    | inr ((ys, r), e2) ↦
        rw (in_tls, store, e2)
          (kept _ (
            fail-HasRoom r (record p { tls = ys })
              (update_last-result Fits (λ s. (f s, e.error)) p.tls ys r (λ s. says) e2)
              (record { fits = h.fits })))
  ]
]

change_location-Fits :
    (incgi : Bool) (words : List CString) (e : LocationEffect) (l : Location)
    → LocationSays e
    → Fits (change_location incgi words e l).1
unfolding change_location
change_location-Fits incgi words (untouched e) l h = h
change_location-Fits incgi words (changes f) l h = h l

effect_error-Fits : (e : LocationEffect) → LocationSays e → Fits (effect_error e)
effect_error-Fits (untouched e) h = h
effect_error-Fits (changes f) h = record { fits = refl }

in_location-WhereRoom :
    (words : List CString) (e : LocationEffect) (p : Parser)
    → LocationSays e
    → HasRoom p
    → WhereRoom (in_location words e p)
unfolding in_location
in_location-WhereRoom words e p says h =
    let f = change_location p.incgi words e in
    if_both WhereRoom (is_harmless p.incgi e)
      (kept (fail (effect_error e) p)
        (fail-HasRoom (effect_error e) p (effect_error-Fits e says) h))
      (elim (Option-cases (update_last f p.locations)) [
        | inl crash ↦ rw crash lost
        | inr ((ys, r), e2) ↦ rw e2 (
            kept _ (
              fail-HasRoom r (record p { locations = ys })
                (update_last-result Fits f p.locations ys r
                  (λ l. change_location-Fits p.incgi words e l says) e2)
                (record { fits = h.fits })))
      ])

stored_environment :
    (buffers : Bool) (p : Parser) (o : Option (List DbServer × Bool))
    → HasRoom p
    → WhereRoom (elim o [
      | none ↦ none
      | some (servers, true) ↦ if buffers then some (record p { servers = servers }) else none
      | some (servers, false) ↦ some (fail (some (no_memory for_environment)) p)
    ])
stored_environment buffers p none h = lost
stored_environment false p (some (servers, true)) h = lost
stored_environment true p (some (servers, true)) h =
    kept (record p { servers = servers }) (record { fits = h.fits })
stored_environment buffers p (some (servers, false)) h =
    kept _ (fail-HasRoom (some (no_memory for_environment)) p (record { fits = refl }) h)

environment_line-WhereRoom :
    (memory buffers : Bool) (line : CString) (p : Parser)
    → HasRoom p
    → WhereRoom (environment_line memory buffers line p)
unfolding environment_line
environment_line-WhereRoom memory buffers line p h =
    stored_environment buffers p (update_last (put_environment memory line) p.servers) h

open_server-HasRoom :
    (memory : Bool) (name : CString) (p : Parser) → HasRoom p → HasRoom (open_server memory name p)
unfolding open_server
open_server-HasRoom true name p h = record { fits = h.fits }
open_server-HasRoom false name p h =
    fail-HasRoom (some (no_memory for_server)) p (record { fits = refl }) h

open_location-HasRoom :
    (memory : Bool) (name : CString) (p : Parser)
    → HasRoom p
    → HasRoom (open_location memory name p)
unfolding open_location
open_location-HasRoom true name p h = record { fits = h.fits }
open_location-HasRoom false name p h =
    fail-HasRoom (some (no_memory for_location)) p (record { fits = refl }) h

open_tls-HasRoom :
    (memory : Bool) (name : CString) (p : Parser) → HasRoom p → HasRoom (open_tls memory name p)
unfolding open_tls
open_tls-HasRoom true name p h = record { fits = h.fits }
open_tls-HasRoom false name p h =
    fail-HasRoom (some (no_memory for_tls)) p (record { fits = refl }) h

open_if-HasRoom :
    (eos : Bool) (f : CString → Parser → Parser) (words : List CString) (p : Parser)
    → ((name : CString) (q : Parser) → HasRoom q → HasRoom (f name q))
    → HasRoom p
    → HasRoom (open_if eos f words p)
open_if-HasRoom true f words p keeps h = h
open_if-HasRoom false f [] p keeps h = h
open_if-HasRoom false f (name ∷ words) p keeps h = keeps name p h

syntax_error-Fits : (ln : ℕ) → Fits (some (syntax_error ln))
syntax_error-Fits ln = record { fits = ground arith }

section_line-HasRoom :
    (memory : Bool) (ln : ℕ) (head : CString) (words : List CString) (p : Parser)
    → HasRoom p
    → HasRoom (section_line memory ln head words p)
unfolding section_line
section_line-HasRoom memory ln head words p h =
    let eos : Bool = has head Keywords.slash in
    if_both HasRoom (has head Keywords.server_word)
      (open_if-HasRoom eos (open_server memory) words (record p { inserver = not eos })
        (open_server-HasRoom memory) (record { fits = h.fits }))
      (if_both HasRoom (has head Keywords.location_word)
        (open_if-HasRoom eos (open_location memory) words (record p { inpath = not eos })
          (open_location-HasRoom memory) (record { fits = h.fits }))
        (if_both HasRoom (has head Keywords.tls_word)
          (open_if-HasRoom eos (open_tls memory) words (record p { intls = not eos })
            (open_tls-HasRoom memory) (record { fits = h.fits }))
          (if_both HasRoom (has head Keywords.cgi_word) {x = record p { incgi = not eos }}
            (record { fits = h.fits })
            (if_both HasRoom (has head Keywords.env_word) {x = record p { inenv = not eos }}
              (record { fits = h.fits })
              (fail-HasRoom (some (syntax_error ln)) p (syntax_error-Fits ln) h)))))

parameter_line-WhereRoom :
    (lib : Library) (ln : ℕ) (line : CString) (words : List CString) (p : Parser)
    → All IsShort words
    → HasRoom p
    → WhereRoom (parameter_line lib ln line words p)
unfolding parameter_line
parameter_line-WhereRoom lib ln line words p short h =
    let p_cgi : Parser = record p { sys = record p.sys { cgi = add_cgi words p.sys.cgi } } in
    let p_global : Parser = record p { sys = global_line lib.strtol ln words p.sys } in
    if_both WhereRoom p.inserver
      (if_both WhereRoom p.inenv
        (environment_line-WhereRoom (lib.memory ln) (lib.buffers ln) line p h)
        (in_server-WhereRoom (server_line lib.strtol ln words) p
          (server_line-Says ln lib.strtol words short).says h))
      (if_both WhereRoom p.inpath
        (in_location-WhereRoom words (location_effect (lib.memory ln) ln words) p
          (location_effect-Tells ln (lib.memory ln) words short).tells h)
        (if_both WhereRoom p.intls
          (in_tls-WhereRoom (tls_line lib.strtod_is_zero ln words) p
            (tls_line-Says ln lib.strtod_is_zero words short).says h)
          (if_both WhereRoom p.incgi (kept p_cgi (record { fits = h.fits })) (
            kept p_global (record {
              fits = (global_line-SysFits ln lib.strtol words p.sys short h.fits).fits;
            })))))

-- The words of a line leave a message that fits, where they are short.
pub take_words-WhereRoom :
    (lib : Library) (ln : ℕ) (line : CString) (words : List CString) (p : Parser)
    → All IsShort words
    → HasRoom p
    → WhereRoom (take_words lib ln line words p)
unfolding take_words
take_words-WhereRoom lib ln line [] p short h = kept p h
take_words-WhereRoom lib ln line (word ∷ words) p short h =
    if_both WhereRoom (begins_with b'#' word) (kept p h) (
      if_both WhereRoom (begins_with b'<' word)
        (kept (section_line (lib.memory ln) ln (lcase word) words p)
          (section_line-HasRoom (lib.memory ln) ln (lcase word) words p h))
        (parameter_line-WhereRoom lib ln line (word ∷ words) p short h))

first_word-le : (n : ℕ) (s : CString) → length (scan_words n s).0 ≤ length s
unfolding scan_words
first_word-le zero s = omega arith
first_word-le (suc n) [] = omega arith
first_word-le (suc zero) (c ∷ s) = ground arith
first_word-le (suc (suc n)) (c ∷ s) = ground (arith, first_word-le (suc n) s)

close-All :
    (w : CString) (ws : List CString) → IsShort w → All IsShort ws → All IsShort (close (w, ws))
close-All [] ws h others = others
close-All (c ∷ w) ws h others = (h, others)

scan_words-All : (n : ℕ) (s : CString) → IsShort s → All IsShort (scan_words n s).1
unfolding scan_words
scan_words-All zero s h = tt
scan_words-All (suc n) [] h = tt
scan_words-All (suc zero) (c ∷ s) h =
    if_both (λ (r : CString × List CString). All IsShort r.1) (is_blank c) tt tt
scan_words-All (suc (suc n)) (c ∷ s) h =
    let later = scan_words-All (suc n) s (omega arith) in
    let rest = scan_words (suc n) s in
    if_both (λ (r : CString × List CString). All IsShort r.1) (is_blank c)
      (close-All rest.0 rest.1 (let le = first_word-le (suc n) s in omega arith) later) later

-- The words of a short line are short.
pub words_of-All : (size : ℕ) (s : CString) → IsShort s → All IsShort (words_of size s)
unfolding words_of
words_of-All size s h =
    let found = scan_words (suc max_size - size) s in
    take-All max_words (close found) (
      close-All found.0 found.1 (let le = first_word-le (suc max_size - size) s in omega arith)
        (scan_words-All (suc max_size - size) s h))
