-- ===== src/Affinity/Tests.antt =====
-- Tests of the search for a server in a query string and in and witnesses.
use Prim.Native.Char.{code}
use Prim.Native.String.{String}
use mg_web.Base.{ℕ, ◌%◌, ◌^◌, ◌≤◌, ◌<◌, ◌≡◌, refl, List, [], ◌∷◌, true, false, some, length, ◌⊎◌}
use mg_web.Affinity.{
  server, absent, out_of_bounds, query_string, find_sa_variable_ex, value_server, by_name,
  by_number, search, occurrence, decimal, last_of, or_else, starts_digit, strtol,
}
use mg_web.Affinity.Pairs.{find_sa_variable_ex-first_named, first_named, AreSegments}
use mg_web.Affinity.Scan.{NoneOpens}
use mg_web.Affinity.Value.{value_server-cases, Named}
use mg_web.Text.{CString, c_string, lcase, strcmp_eq, strstr, starts_with, until}
use mg_web.Types.{PathServer}

abbrev codes : String → List ℕ
codes String.[] = []
codes (String.◌∷◌ c s) = code c ∷ codes s

abbrev servers : List PathServer
servers =
    record { lcname = codes "alpha"; psrv = 0; exclusive = false }
    ∷ record { lcname = codes "beta"; psrv = 1; exclusive = false }
    ∷ []

abbrev text : List ℕ
text = codes "xsrv=1&srv=9&srv=Beta"

by_name_test : value_server servers (codes "Beta") ≡ server 1
unfolding value_server by_name lcase strcmp_eq
by_name_test = refl

too_big_test : value_server servers (codes "2") ≡ absent
unfolding value_server by_number decimal
too_big_test = refl

-- `(int) strtol("4294967295")` is -1.
negative_test : value_server servers (codes "4294967295") ≡ out_of_bounds
unfolding value_server by_number decimal
negative_test = refl

find_sa_variable_ex_test :
    find_sa_variable_ex servers (codes "srv") (some text) (length text) ≡ server 1
unfolding find_sa_variable_ex search occurrence value_server by_name by_number decimal lcase
    strcmp_eq strstr starts_with until c_string last_of or_else
find_sa_variable_ex_test = refl

srv_shut : NoneOpens query_string (codes "srv")
srv_shut = (refl, (refl, (refl, tt)))

abbrev segments : List CString
segments = codes "xsrv=1" ∷ codes "srv=9" ∷ codes "srv=Beta" ∷ []

segments_shut : AreSegments segments
segments_shut = (
  (refl, (refl, (refl, (refl, (refl, (refl, tt)))))),
  (
    (refl, (refl, (refl, (refl, (refl, tt))))),
    ((refl, (refl, (refl, (refl, (refl, (refl, (refl, (refl, tt)))))))), tt),
  ),
)

find_sa_variable_ex-first_named_example :
    find_sa_variable_ex servers (codes "srv") (some text) (length text)
    ≡ first_named servers (codes "srv") segments
unfolding c_string
find_sa_variable_ex-first_named_example =
    find_sa_variable_ex-first_named servers b's' (codes "rv") segments text (length text) srv_shut
      segments_shut refl

value_server-cases_example :
    let pv = codes "Beta" in
    let r = value_server servers pv in
    let w = strtol pv % 2 ^ 32 in
    ((starts_digit pv ≡ true)
      × (((w < 32) × (w < length servers) × (r ≡ server w))
          ⊎ ((2 ^ 31 ≤ w) × (r ≡ out_of_bounds))
          ⊎ ((w < 2 ^ 31) × ((32 ≤ w) ⊎ (length servers ≤ w)) × (r ≡ absent))))
    ⊎ ((starts_digit pv ≡ false) × (length pv < 60) × Named servers (lcase pv) 0 r)
    ⊎ ((starts_digit pv ≡ false) × (60 ≤ length pv) × (r ≡ absent))
value_server-cases_example = value_server-cases servers (codes "Beta")
