-- ===== src/Config/Parse/Whole.antt =====
-- The lines of the sections of servers, as one writes them, are read as lines.
use mg_web.Base.{◌≡◌, refl, ap, ◌∙◌, List, [], ◌∷◌, ◌++◌, false, Option, none, some, take, All}
use mg_web.Text.{CString, lcase, strcmp_eq, strstr, starts_with}
use mg_web.Config.{DbServer}
use mg_web.Config.Keywords
use mg_web.Config.Words.Split.{fields}
use mg_web.Config.ServerSection.{server_parameter}
use mg_web.Config.Parse.Lines.{begins_with, cuts_off}
use mg_web.Config.Parse.Run.{IsWhole}
use mg_web.Config.Parse.Printed.{
  IsWord, IsNoEnd, IsKey, Described, parameter, opening, closing, print_server, two_words,
  fields-two_words,
}

pub dbtype_name-IsKey : IsKey Keywords.type_word (λ value s. record s { dbtype_name = some value })
unfolding server_parameter lcase strcmp_eq
dbtype_name-IsKey = record {
  word = ((refl, (refl, (refl, (refl, tt)))), (λ e. absurd cc), (refl, (refl, (refl, (refl, tt)))));
  no_comment = refl;
  no_section = refl;
  stores = λ strtol ln value. refl;
}

pub shdir-IsKey : IsKey Keywords.path_word (λ value s. record s { shdir = some value })
unfolding server_parameter lcase strcmp_eq
shdir-IsKey = record {
  word = ((refl, (refl, (refl, (refl, tt)))), (λ e. absurd cc), (refl, (refl, (refl, (refl, tt)))));
  no_comment = refl;
  no_section = refl;
  stores = λ strtol ln value. refl;
}

pub ip_address-IsKey : IsKey Keywords.host_word (λ value s. record s { ip_address = some value })
unfolding server_parameter lcase strcmp_eq
ip_address-IsKey = record {
  word = ((refl, (refl, (refl, (refl, tt)))), (λ e. absurd cc), (refl, (refl, (refl, (refl, tt)))));
  no_comment = refl;
  no_section = refl;
  stores = λ strtol ln value. refl;
}

pub username-IsKey : IsKey Keywords.username_word (λ value s. record s { username = some value })
unfolding server_parameter lcase strcmp_eq
username-IsKey = record {
  word = (
    (refl, (refl, (refl, (refl, (refl, (refl, (refl, (refl, tt)))))))),
    (λ e. absurd cc),
    (refl, (refl, (refl, (refl, (refl, (refl, (refl, (refl, tt)))))))),
  );
  no_comment = refl;
  no_section = refl;
  stores = λ strtol ln value. refl;
}

pub password-IsKey : IsKey Keywords.password_word (λ value s. record s { password = some value })
unfolding server_parameter lcase strcmp_eq
password-IsKey = record {
  word = (
    (refl, (refl, (refl, (refl, (refl, (refl, (refl, (refl, tt)))))))),
    (λ e. absurd cc),
    (refl, (refl, (refl, (refl, (refl, (refl, (refl, (refl, tt)))))))),
  );
  no_comment = refl;
  no_section = refl;
  stores = λ strtol ln value. refl;
}

pub uci-IsKey : IsKey Keywords.namespace_word (λ value s. record s { uci = some value })
unfolding server_parameter lcase strcmp_eq
uci-IsKey = record {
  word = (
    (refl, (refl, (refl, (refl, (refl, (refl, (refl, (refl, (refl, tt))))))))),
    (λ e. absurd cc),
    (refl, (refl, (refl, (refl, (refl, (refl, (refl, (refl, (refl, tt))))))))),
  );
  no_comment = refl;
  no_section = refl;
  stores = λ strtol ln value. refl;
}

pub tls_name-IsKey : IsKey Keywords.tls_word (λ value s. record s { tls_name = some value })
unfolding server_parameter lcase strcmp_eq
tls_name-IsKey = record {
  word = ((refl, (refl, (refl, tt))), (λ e. absurd cc), (refl, (refl, (refl, tt))));
  no_comment = refl;
  no_section = refl;
  stores = λ strtol ln value. refl;
}

-- A parameter that is a word, or none.
abbrev pub MayBeWord : Option CString → Type 0
MayBeWord none = Unit {0}
MayBeWord (some w) = IsWord w

pub record IsDescribed (d : Described) : Type 0 where
  pub name : IsWord (d.name ++ (b'>' ∷ []))
  pub dbtype_name : MayBeWord d.dbtype_name
  pub shdir : MayBeWord d.shdir
  pub ip_address : MayBeWord d.ip_address
  pub username : MayBeWord d.username
  pub password : MayBeWord d.password
  pub uci : MayBeWord d.uci
  pub tls_name : MayBeWord d.tls_name

abbrev pub print_servers : List Described → List CString
print_servers [] = []
print_servers (d ∷ ds) = print_server d (print_servers ds)

All-append : (w v : CString) → All IsNoEnd w → All IsNoEnd v → All IsNoEnd (w ++ v)
All-append [] v h g = g
All-append (c ∷ w) v (h, others) g = (h, All-append w v others g)

two_words-IsWhole :
    (key value : CString)
    → IsWord key
    → begins_with b'<' key ≡ false
    → IsWord value
    → IsWhole (two_words key value)
unfolding cuts_off
two_words-IsWhole key value word no_section word2 = (
  All-append key (b' ' ∷ value) word.2 (refl, word2.2),
  ap (λ (ws : List CString). cuts_off (take 32 ws) (two_words key value))
        (fields-two_words key value word word2)
      ∙ rw (cuts_off, no_section) refl,
)

parameter-IsWhole :
    {f : CString → DbServer → DbServer} (key : CString) (o : Option CString) (ls : List CString)
    → IsKey key f
    → MayBeWord o
    → All IsWhole ls
    → All IsWhole (parameter key o ls)
parameter-IsWhole key none ls is_key word h = h
parameter-IsWhole key (some value) ls is_key word h =
    (two_words-IsWhole key value is_key.word is_key.no_section word, h)

opening-IsWhole : (name : CString) → IsWord (name ++ (b'>' ∷ [])) → IsWhole (opening name)
unfolding cuts_off lcase strcmp_eq strstr starts_with
opening-IsWhole name word = (
  All-append (b'<' ∷ Keywords.server_word) (b' ' ∷ (name ++ (b'>' ∷ [])))
      (refl, (refl, (refl, (refl, (refl, (refl, (refl, tt))))))) (refl, word.2),
  ap (λ (ws : List CString). cuts_off (take 32 ws) (opening name))
      (fields-two_words (b'<' ∷ Keywords.server_word) (name ++ (b'>' ∷ []))
        (
          (refl, (refl, (refl, (refl, (refl, (refl, (refl, tt))))))),
          (λ e. absurd cc),
          (refl, (refl, (refl, (refl, (refl, (refl, (refl, tt))))))),
        )
        word),
)

closing-IsWhole : IsWhole closing
unfolding cuts_off fields
closing-IsWhole = ((refl, (refl, (refl, (refl, (refl, (refl, (refl, (refl, (refl, tt))))))))), refl)

print_server-IsWhole :
    (d : Described) (ls : List CString)
    → IsDescribed d
    → All IsWhole ls
    → All IsWhole (print_server d ls)
print_server-IsWhole d ls h whole = (
  opening-IsWhole d.name h.name,
  parameter-IsWhole _ d.dbtype_name _ dbtype_name-IsKey h.dbtype_name (
      parameter-IsWhole _ d.shdir _ shdir-IsKey h.shdir (
        parameter-IsWhole _ d.ip_address _ ip_address-IsKey h.ip_address (
          parameter-IsWhole _ d.username _ username-IsKey h.username (
            parameter-IsWhole _ d.password _ password-IsKey h.password (
              parameter-IsWhole _ d.uci _ uci-IsKey h.uci (
                parameter-IsWhole _ d.tls_name _ tls_name-IsKey h.tls_name
                  (closing-IsWhole, whole))))))),
)

pub print_servers-IsWhole :
    (ds : List Described) → All IsDescribed ds → All IsWhole (print_servers ds)
print_servers-IsWhole [] h = tt
print_servers-IsWhole (d ∷ ds) (first, others) =
    print_server-IsWhole d (print_servers ds) first (print_servers-IsWhole ds others)
