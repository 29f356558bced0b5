-- ===== src/Config/Parse/RoundTrip.antt =====
-- What `mg_parse_config` makes of the sections of servers, as one writes them.
use mg_web.Base.{
  ℕ, ◌+◌, ◌≤◌, ◌≡◌, refl, sym, ap, ◌∙◌, List, [], ◌∷◌, ◌++◌, Bool, true, false, Option, none, some,
  length, take, All, append_assoc, append-nil, map,
}
use mg_web.Text.{CString, lcase, strstr, starts_with}
use mg_web.Config.{DbServer, MgSys}
use mg_web.Config.Keywords
use mg_web.Config.Words.{line_text, section_name, ends_in, without_last}
use mg_web.Config.Words.Split.{fields}
use mg_web.Config.ServerSection.{new_server}
use mg_web.Config.Parse.{Library, Parser, section_line, open_server}
use mg_web.Config.Parse.Lines.{is_error, take_words, parse_config, new_parser, finish_config}
use mg_web.Config.Parse.Run.{run, unlines, total, parse_config-run}
use mg_web.Config.Parse.Printed.{
  parse_words-silent, IsWord, IsKey, Described, described, parameter, opening, closing,
  print_server, fields-two_words, inside, run-line, run-parameter,
}
use mg_web.Config.Parse.Whole.{
  dbtype_name-IsKey, shdir-IsKey, ip_address-IsKey, username-IsKey, password-IsKey, uci-IsKey,
  tls_name-IsKey, MayBeWord, IsDescribed, print_servers, print_servers-IsWhole,
}

abbrev behind : ℕ → Option CString → ℕ
behind ln none = ln
behind ln (some value) = ln + 1

-- The state outside the sections of servers.
abbrev pub outside : List DbServer → Parser → Parser
outside xs p = record p { servers = xs; inserver = false; inenv = false }

ends_in-append : (name : CString) → ends_in b'>' (name ++ (b'>' ∷ [])) ≡ true
unfolding ends_in
ends_in-append [] = refl
ends_in-append (c ∷ []) = refl
ends_in-append (c ∷ d ∷ name) = ends_in-append (d ∷ name)

without_last-append : (name : CString) → without_last (name ++ (b'>' ∷ [])) ≡ name
unfolding without_last
without_last-append [] = refl
without_last-append (c ∷ []) = refl
without_last-append (c ∷ d ∷ name) = ap (◌∷◌ c) (without_last-append (d ∷ name))

section_name-append : (name : CString) → section_name (name ++ (b'>' ∷ [])) ≡ name
unfolding section_name ends_in without_last
section_name-append name =
    let ends : ends_in b'>' (name ++ (b'>' ∷ [])) ≡ true = ends_in-append name in
    rw (section_name, ends, without_last-append name) refl

module _ (lib : Library) (memory : (ln : ℕ) → lib.memory ln ≡ true) (p : Parser)
    (no_error : is_error p.sys.config_error ≡ false) where
  run-optional :
      (ln : ℕ) (key : CString) (o : Option CString) (put : Option CString → DbServer → DbServer)
      (ls : List CString) (xs : List DbServer) (s : DbServer)
      → IsKey key (λ value. put (some value))
      → put none s ≡ s
      → MayBeWord o
      → run lib ln (parameter key o ls) (inside xs s p)
        ≡ run lib (behind ln o) ls (inside xs (put o s) p)
  run-optional ln key none put ls xs s is_key same word =
      ap (λ (y : DbServer). run lib ln ls (inside xs y p)) (sym same)
  run-optional ln key (some value) put ls xs s is_key same word =
      run-parameter lib ln key value (λ v. put (some v)) ls xs s p is_key word no_error

  run-closing :
      (ln : ℕ) (ls : List CString) (xs : List DbServer) (s : DbServer)
      → run lib ln (closing ∷ ls) (inside xs s p) ≡ run lib (ln + 1) ls (outside (xs ++ (s ∷ [])) p)
  unfolding fields take_words section_line lcase strstr starts_with
  run-closing ln ls xs s =
      run-line lib ln closing ls (closing ∷ []) (inside xs s p) (outside (xs ++ (s ∷ [])) p)
        no_error refl
        (parse_words-silent lib ln (line_text closing) (closing ∷ []) (inside xs s p)
          (outside (xs ++ (s ∷ [])) p) no_error refl)

  open_step :
      (ln : ℕ) (name : CString) (xs : List DbServer)
      → take_words lib ln
          (line_text (opening name))
          ((b'<' ∷ Keywords.server_word) ∷ (name ++ (b'>' ∷ [])) ∷ [])
          (outside xs p)
        ≡ some (inside xs (new_server name) p)
  unfolding take_words section_line open_server lcase strstr starts_with
  open_step ln name xs =
      ap
        (λ (b : Bool). some (
          open_server b (name ++ (b'>' ∷ []))
            (record p { servers = xs; inserver = true; inenv = false })))
        (memory ln)
      ∙ ap (λ (n : CString). some (inside xs (new_server n) p)) (section_name-append name)

  run-opening :
      (ln : ℕ) (name : CString) (ls : List CString) (xs : List DbServer)
      → IsWord (name ++ (b'>' ∷ []))
      → run lib ln (opening name ∷ ls) (outside xs p)
        ≡ run lib (ln + 1) ls (inside xs (new_server name) p)
  run-opening ln name ls xs word =
      run-line lib ln (opening name) ls ((b'<' ∷ Keywords.server_word) ∷ (name ++ (b'>' ∷ [])) ∷ [])
        (outside xs p) (inside xs (new_server name) p) no_error
        (ap (take 32) (
          fields-two_words (b'<' ∷ Keywords.server_word) (name ++ (b'>' ∷ []))
            (
              (refl, (refl, (refl, (refl, (refl, (refl, (refl, tt))))))),
              (λ e. absurd cc),
              (refl, (refl, (refl, (refl, (refl, (refl, (refl, tt))))))),
            )
            word))
        (parse_words-silent lib ln _ _ (outside xs p) (inside xs (new_server name) p) no_error
          (open_step ln name xs))

  run-print_server :
      (d : Described) (ln : ℕ) (ls : List CString) (xs : List DbServer)
      → IsDescribed d
      → (n : ℕ) × (run lib ln (print_server d ls) (outside xs p)
          ≡ run lib n ls (outside (xs ++ (described d ∷ [])) p))
  run-print_server d ln ls xs h =
      let s0 : DbServer = new_server d.name in
      let s1 : DbServer = record s0 { dbtype_name = d.dbtype_name } in
      let s2 : DbServer = record s1 { shdir = d.shdir } in
      let s3 : DbServer = record s2 { ip_address = d.ip_address } in
      let s4 : DbServer = record s3 { username = d.username } in
      let s5 : DbServer = record s4 { password = d.password } in
      let s6 : DbServer = record s5 { uci = d.uci } in
      (
        _,
        run-opening ln d.name _ xs h.name
            ∙ run-optional _ Keywords.type_word d.dbtype_name (λ o s. record s { dbtype_name = o })
                _ xs s0 dbtype_name-IsKey refl h.dbtype_name
            ∙ run-optional _ Keywords.path_word d.shdir (λ o s. record s { shdir = o }) _ xs s1
                shdir-IsKey refl h.shdir
            ∙ run-optional _ Keywords.host_word d.ip_address (λ o s. record s { ip_address = o }) _
                xs s2 ip_address-IsKey refl h.ip_address
            ∙ run-optional _ Keywords.username_word d.username (λ o s. record s { username = o }) _
                xs s3 username-IsKey refl h.username
            ∙ run-optional _ Keywords.password_word d.password (λ o s. record s { password = o }) _
                xs s4 password-IsKey refl h.password
            ∙ run-optional _ Keywords.namespace_word d.uci (λ o s. record s { uci = o }) _ xs s5
                uci-IsKey refl h.uci
            ∙ run-optional _ Keywords.tls_word d.tls_name (λ o s. record s { tls_name = o }) _ xs s6
                tls_name-IsKey refl h.tls_name
            ∙ run-closing _ ls xs (described d),
      )

  run-print_servers :
      (ds : List Described) (ln : ℕ) (xs : List DbServer)
      → All IsDescribed ds
      → run lib ln (print_servers ds) (outside xs p) ≡ some (outside (xs ++ map described ds) p)
  unfolding run
  run-print_servers [] ln xs h =
      ap (λ (ys : List DbServer). some (outside ys p)) (sym (append-nil xs))
  run-print_servers (d ∷ ds) ln xs (first, others) =
      let (n, one) = run-print_server d ln (print_servers ds) xs first in
      one
      ∙ run-print_servers ds n (xs ++ (described d ∷ [])) others
      ∙ ap (λ (ys : List DbServer). some (outside ys p))
          (append_assoc xs (described d ∷ []) (map described ds))

-- Servers that are printed, each as its section, with its name and the parameters type, path, host, username, password, namespace and
-- tls that it has, all words without blanks and line ends: where there is memory, and the text is no longer than the limits on
-- lines and bytes, `mg_parse_config` reads from it just these servers in their order, no location and no error.
pub parse_config-print_servers :
    (lib : Library) (config_size : ℕ) (ds : List Described) (sys : MgSys)
    → ((ln : ℕ) → lib.memory ln ≡ true)
    → All IsDescribed ds
    → length (print_servers ds) ≤ 999
    → total (print_servers ds) ≤ 100000
    → total (print_servers ds) ≤ config_size
    → parse_config lib config_size (unlines (print_servers ds)) sys
      ≡ finish_config (some (outside (map described ds) (new_parser sys)))
parse_config-print_servers lib config_size ds sys memory h few short fits =
    parse_config-run lib config_size (print_servers ds) sys (print_servers-IsWhole ds h) few short
      fits
    ∙ ap finish_config (run-print_servers lib memory (new_parser sys) refl ds 1 [] h)
