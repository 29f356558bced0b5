-- ===== src/Config/Parse/Named.antt =====
-- Where `mg_parse_config` does not go through a null pointer: each section has a name.
use mg_web.Base.{
  ℕ, ◌≡◌, ◌≢◌, refl, inl, inr, List, [], ◌∷◌, ◌++◌, Bool, true, false, not, ◌&&◌, ◌||◌,
  if◌then◌else◌, some, Bool-cases, if_both, if_cases,
}
use mg_web.Text.{CString, lcase}
use mg_web.Response.{has}
use mg_web.Config.{no_memory, for_server, for_location, for_tls, syntax_error}
use mg_web.Config.Keywords
use mg_web.Config.Words.{section_name}
use mg_web.Config.ServerSection.{new_server}
use mg_web.Config.TlsSection.{new_tls}
use mg_web.Config.LocationSection.{new_location}
use mg_web.Config.Parse.{Parser, fail, open_server, open_location, open_tls, open_if, section_line}
use mg_web.Config.Parse.Lines.{begins_with}
use mg_web.Config.Parse.Safe.{
  HasObjects, HasFailed, IsSafe, failed, ready, fail-HasFailed, append-nonempty,
}

-- A word that opens a section that has to have a name.
abbrev pub opens : CString → Bool
opens head =
    not (has head Keywords.slash)
    && (has head Keywords.server_word
        || has head Keywords.location_word
        || has head Keywords.tls_word)

-- The line opens a section, and has no other word.
abbrev pub is_nameless : List CString → Bool
is_nameless [] = false
is_nameless (word ∷ []) = begins_with b'<' word && opens (lcase word)
is_nameless (word ∷ name ∷ words) = false

never : (b : Bool) → b ≡ true → not b ≢ true
never true e f = absurd cc
never false e f = absurd cc

opens-server :
    (head : CString)
    → has head Keywords.slash ≡ false
    → has head Keywords.server_word ≡ true
    → opens head ≡ true
opens-server head begin kind = rw (begin, kind) refl

opens-location :
    (head : CString)
    → has head Keywords.slash ≡ false
    → has head Keywords.location_word ≡ true
    → opens head ≡ true
opens-location head begin kind =
    elim (Bool-cases (has head Keywords.server_word)) as (λ _. opens head ≡ true) [
      | inl e ↦ rw (begin, e) refl
      | inr e ↦ rw (begin, e, kind) refl
    ]

opens-tls :
    (head : CString)
    → has head Keywords.slash ≡ false
    → has head Keywords.tls_word ≡ true
    → opens head ≡ true
opens-tls head begin kind =
    elim (Bool-cases (has head Keywords.server_word)) as (λ _. opens head ≡ true) [
      | inl e ↦ rw (begin, e) refl
      | inr e ↦ elim (Bool-cases (has head Keywords.location_word)) as (λ _. opens head ≡ true) [
        | inl f ↦ rw (begin, e, f) refl
        | inr f ↦ rw (begin, e, f, kind) refl
      ]
    ]

-- The rest of the tests on the first word of a section line.
abbrev not_tls : ℕ → CString → Parser → Parser
not_tls ln head p =
    if has head Keywords.cgi_word
    then record p { incgi = not (has head Keywords.slash) }
    else if has head Keywords.env_word
    then record p { inenv = not (has head Keywords.slash) }
    else fail (some (syntax_error ln)) p

abbrev not_location : Bool → ℕ → CString → List CString → Parser → Parser
not_location memory ln head words p =
    if has head Keywords.tls_word
    then open_if (has head Keywords.slash) (open_tls memory) words
        (record p { intls = not (has head Keywords.slash) })
    else not_tls ln head p

abbrev not_server : Bool → ℕ → CString → List CString → Parser → Parser
not_server memory ln head words p =
    if has head Keywords.location_word
    then open_if (has head Keywords.slash) (open_location memory) words
        (record p { inpath = not (has head Keywords.slash) })
    else not_location memory ln head words p

module _ (p : Parser) (h : HasObjects p) where
  open_if-IsSafe :
      (eos : Bool) (f : CString → Parser → Parser) (words : List CString) (q : Parser)
      → (eos ≡ true → HasObjects q)
      → ((name : CString) → IsSafe (some (f name q)))
      → (eos ≡ false → words ≡ [] → HasFailed q)
      → IsSafe (some (open_if eos f words q))
  open_if-IsSafe true f words q end new nameless = ready q (end refl)
  open_if-IsSafe false f [] q end new nameless = failed q (nameless refl refl)
  open_if-IsSafe false f (name ∷ words) q end new nameless = new name

  server-IsSafe :
      (memory inside : Bool) (name : CString)
      → IsSafe (some (open_server memory name (record p { inserver = inside })))
  unfolding open_server
  server-IsSafe true inside name =
      ready
        (record p {
          inserver = inside;
          servers = p.servers ++ (new_server (section_name name) ∷ []);
        })
        (record { server = λ i. append-nonempty p.servers _; location = h.location; tls = h.tls })
  server-IsSafe false inside name =
      let q : Parser = record p { inserver = inside } in
      failed (fail (some (no_memory for_server)) q) (fail-HasFailed (no_memory for_server) q)

  location-IsSafe :
      (memory inside : Bool) (name : CString)
      → IsSafe (some (open_location memory name (record p { inpath = inside })))
  unfolding open_location
  location-IsSafe true inside name =
      ready (record p { inpath = inside; locations = p.locations ++ (new_location name ∷ []) })
        (record { server = h.server; location = λ i. append-nonempty p.locations _; tls = h.tls })
  location-IsSafe false inside name =
      let q : Parser = record p { inpath = inside } in
      failed (fail (some (no_memory for_location)) q) (fail-HasFailed (no_memory for_location) q)

  tls-IsSafe :
      (memory inside : Bool) (name : CString)
      → IsSafe (some (open_tls memory name (record p { intls = inside })))
  unfolding open_tls
  tls-IsSafe true inside name =
      ready (record p { intls = inside; tls = p.tls ++ (new_tls (section_name name) ∷ []) })
        (record { server = h.server; location = h.location; tls = λ i. append-nonempty p.tls _ })
  tls-IsSafe false inside name =
      let q : Parser = record p { intls = inside } in
      failed (fail (some (no_memory for_tls)) q) (fail-HasFailed (no_memory for_tls) q)

  not_tls-IsSafe : (ln : ℕ) (head : CString) → IsSafe (some (not_tls ln head p))
  not_tls-IsSafe ln head =
      let SafeLine : Parser → Type 0 = λ q. IsSafe (some q) in
      let p_cgi : Parser = record p { incgi = not (has head Keywords.slash) } in
      let p_env : Parser = record p { inenv = not (has head Keywords.slash) } in
      let p_error : Parser = fail (some (syntax_error ln)) p in
      if_both SafeLine (has head Keywords.cgi_word) {x = p_cgi}
        {y = if has head Keywords.env_word then p_env else p_error}
        (ready p_cgi (record { server = h.server; location = h.location; tls = h.tls }))
        (if_both SafeLine (has head Keywords.env_word) {x = p_env} {y = p_error}
          (ready p_env (record { server = h.server; location = h.location; tls = h.tls }))
          (failed p_error (fail-HasFailed (syntax_error ln) p)))

  pub section_line-IsSafe :
      (memory : Bool) (ln : ℕ) (head : CString) (words : List CString)
      → (words ≡ [] → opens head ≡ true → HasFailed p)
      → IsSafe (some (section_line memory ln head words p))
  unfolding section_line
  section_line-IsSafe memory ln head words named =
      let eos : Bool = has head Keywords.slash in
      let SafeLine : Parser → Type 0 = λ q. IsSafe (some q) in
      if_cases SafeLine (has head Keywords.server_word)
        {x = open_if eos (open_server memory) words (record p { inserver = not eos })}
        {y = not_server memory ln head words p}
        (λ is_server.
          open_if-IsSafe eos (open_server memory) words (record p { inserver = not eos })
            (λ end. record {
              server = λ inside. absurd (never eos end inside);
              location = h.location;
              tls = h.tls;
            })
            (server-IsSafe memory (not eos))
            (λ begin nameless. named nameless (opens-server head begin is_server)))
        (λ other.
          if_cases SafeLine (has head Keywords.location_word)
            {x = open_if eos (open_location memory) words (record p { inpath = not eos })}
            {y = not_location memory ln head words p}
            (λ is_location.
              open_if-IsSafe eos (open_location memory) words (record p { inpath = not eos })
                (λ end. record {
                  server = h.server;
                  location = λ inside. absurd (never eos end inside);
                  tls = h.tls;
                })
                (location-IsSafe memory (not eos))
                (λ begin nameless. named nameless (opens-location head begin is_location)))
            (λ other2.
              if_cases SafeLine (has head Keywords.tls_word)
                {x = open_if eos (open_tls memory) words (record p { intls = not eos })}
                {y = not_tls ln head p}
                (λ is_tls.
                  open_if-IsSafe eos (open_tls memory) words (record p { intls = not eos })
                    (λ end. record {
                      server = h.server;
                      location = h.location;
                      tls = λ inside. absurd (never eos end inside);
                    })
                    (tls-IsSafe memory (not eos))
                    (λ begin nameless. named nameless (opens-tls head begin is_tls)))
                (λ other3. not_tls-IsSafe ln head)))
