-- ===== src/Config/Parse/Printed.antt =====
-- The section of a server, as one writes it, and what the lines of it do.
use mg_web.Base.{
  ℕ, ◌+◌, ◌≡◌, ◌≢◌, refl, sym, ap, ◌∙◌, List, [], ◌∷◌, ◌++◌, true, false, ◌==◌, Option, none, some,
  length, take, All, append-nil,
}
use mg_web.Text.{CString, lcase}
use mg_web.Config.{DbServer, ConfigError, Effect}
use mg_web.Config.Keywords
use mg_web.Config.Words.{line_text}
use mg_web.Config.Words.Split.{fields, fields-spaced, spaced, IsInk}
use mg_web.Config.ServerSection.{new_server, server_parameter, server_line, assign}
use mg_web.Config.Parse.{Library, Parser, fail, update_last, in_server}
use mg_web.Config.Parse.Lines.{
  is_error, begins_with, take_words, in_array, parse_words, parameter_line,
}
use mg_web.Config.Parse.Run.{run}

abbrev pub IsNoEnd : ℕ → Type 0
IsNoEnd c = (c == b'\n') ≡ false

-- A word: bytes that are no blanks and no line ends, and at least one of them.
abbrev pub IsWord : CString → Type 0
IsWord w = All IsInk w × (length w ≢ 0) × All IsNoEnd w

abbrev pub two_words : CString → CString → CString
two_words key value = key ++ (b' ' ∷ value)

pub fields-two_words :
    (key value : CString)
    → IsWord key
    → IsWord value
    → fields (two_words key value) ≡ key ∷ value ∷ []
unfolding spaced
fields-two_words key value (ink, some_byte, ends) (ink2, some_byte2, ends2) =
    ap (λ (v : CString). fields (key ++ (b' ' ∷ v))) (sym (append-nil value))
    ∙ fields-spaced ((key, b' ' ∷ []) ∷ (value, []) ∷ [])
        (ink, some_byte, (refl, tt), (λ e. absurd cc), (ink2, some_byte2, tt))

-- The state in the section of the server `s`, behind the servers `xs`.
abbrev pub inside : List DbServer → DbServer → Parser → Parser
inside xs s p = record p { servers = xs ++ (s ∷ []); inserver = true; inenv = false }

update_last-append :
    {B : Type 0} (f : DbServer → DbServer × B) (xs : List DbServer) (s : DbServer)
    → update_last f (xs ++ (s ∷ [])) ≡ some (xs ++ ((f s).0 ∷ []), (f s).1)
unfolding update_last
update_last-append f [] s = refl
update_last-append f (x ∷ []) s = refl
update_last-append f (x ∷ y ∷ xs) s = rw (update_last, update_last-append f (y ∷ xs) s) refl

-- What a line does.
pub run-line :
    (lib : Library) (ln : ℕ) (l : CString) (ls : List CString) (ws : List CString) (p p2 : Parser)
    → is_error p.sys.config_error ≡ false
    → take 32 (fields l) ≡ ws
    → parse_words lib ln (line_text l) ws p ≡ some p2
    → run lib ln (l ∷ ls) p ≡ run lib (ln + 1) ls p2
unfolding run
run-line lib ln l ls ws p p2 no_error words step =
    let read : parse_words lib ln (line_text l) (take 32 (fields l)) p ≡ some p2 =
      ap (λ (w : List CString). parse_words lib ln (line_text l) w p) words ∙ step in
    rw (run, no_error, read) refl

-- A parameter with its name in lower case.
pub record IsKey (key : CString) (f : CString → DbServer → DbServer) : Type 0 where
  pub word : IsWord key
  pub no_comment : begins_with b'#' key ≡ false
  pub no_section : begins_with b'<' key ≡ false
  pub stores :
      (strtol : CString → ℕ) (ln : ℕ) (value : CString)
      → server_parameter strtol ln (lcase key) value ≡ assign (f value)

in_server-assign :
    (f : DbServer → DbServer) (xs : List DbServer) (s : DbServer) (p : Parser)
    → in_server (assign f) (inside xs s p) ≡ some (inside xs (f s) p)
unfolding in_server fail
in_server-assign f xs s p =
    rw (in_server, update_last-append {B = Option ConfigError} (λ y. (f y, none)) xs s) refl

take_words-parameter :
    (lib : Library) (ln : ℕ) (line key value : CString) (f : CString → DbServer → DbServer)
    (xs : List DbServer) (s : DbServer) (p : Parser)
    → IsKey key f
    → take_words lib ln line (key ∷ value ∷ []) (inside xs s p) ≡ some (inside xs (f value s) p)
unfolding take_words parameter_line server_line
take_words-parameter lib ln line key value f xs s p is_key =
    rw (take_words, is_key.no_comment, is_key.no_section)
      (ap (λ (e : Effect DbServer). in_server e (inside xs s p)) (is_key.stores lib.strtol ln value)
        ∙ in_server-assign (f value) xs s p)

in_array-silent :
    (p : Parser) (e : Option ConfigError)
    → p.sys.config_error ≡ e
    → is_error e ≡ false
    → in_array (some p) ≡ some p
in_array-silent p none same silent = rw same refl
in_array-silent p (some e) same silent = absurd cc

-- Without a message, there is none that does not fit.
pub parse_words-silent :
    (lib : Library) (ln : ℕ) (line : CString) (words : List CString) (p p2 : Parser)
    → is_error p2.sys.config_error ≡ false
    → take_words lib ln line words p ≡ some p2
    → parse_words lib ln line words p ≡ some p2
unfolding parse_words
parse_words-silent lib ln line words p p2 silent e =
    ap in_array e ∙ in_array-silent p2 p2.sys.config_error refl silent

pub run-parameter :
    (lib : Library) (ln : ℕ) (key value : CString) (f : CString → DbServer → DbServer)
    (ls : List CString) (xs : List DbServer) (s : DbServer) (p : Parser)
    → IsKey key f
    → IsWord value
    → is_error p.sys.config_error ≡ false
    → run lib ln (two_words key value ∷ ls) (inside xs s p)
      ≡ run lib (ln + 1) ls (inside xs (f value s) p)
run-parameter lib ln key value f ls xs s p is_key word no_error =
    run-line lib ln (two_words key value) ls (key ∷ value ∷ []) (inside xs s p)
      (inside xs (f value s) p) no_error
      (ap (take 32) (fields-two_words key value is_key.word word))
      (parse_words-silent lib ln _ (key ∷ value ∷ []) (inside xs s p) (inside xs (f value s) p)
        no_error (take_words-parameter lib ln _ key value f xs s p is_key))

-- What is said of a server: its name, and parameters that are words.
pub record Described : Type 0 where
  pub name : CString
  pub dbtype_name : Option CString
  pub shdir : Option CString
  pub ip_address : Option CString
  pub username : Option CString
  pub password : Option CString
  pub uci : Option CString
  pub tls_name : Option CString

abbrev pub described : Described → DbServer
described d = record (new_server d.name) {
  dbtype_name = d.dbtype_name;
  shdir = d.shdir;
  ip_address = d.ip_address;
  username = d.username;
  password = d.password;
  uci = d.uci;
  tls_name = d.tls_name;
}

-- The line of a parameter, if it is given.
abbrev pub parameter : CString → Option CString → List CString → List CString
parameter key none ls = ls
parameter key (some value) ls = two_words key value ∷ ls

abbrev pub opening : CString → CString
opening name = two_words (b'<' ∷ Keywords.server_word) (name ++ (b'>' ∷ []))

abbrev pub closing : CString
closing = b'<' ∷ b'/' ∷ (Keywords.server_word ++ (b'>' ∷ []))

abbrev pub print_server : Described → List CString → List CString
print_server d ls =
    opening d.name
    ∷ parameter Keywords.type_word d.dbtype_name (
        parameter Keywords.path_word d.shdir (
          parameter Keywords.host_word d.ip_address (
            parameter Keywords.username_word d.username (
              parameter Keywords.password_word d.password (
                parameter Keywords.namespace_word d.uci
                  (parameter Keywords.tls_word d.tls_name (closing ∷ ls)))))))
