-- ===== src/Config/LocationSection/Affinity.antt =====
-- src/mg_web.c, `mg_parse_config`: the parameter `server_affinity` of a location.
use mg_web.Base.{
  ℕ, List, [], ◌∷◌, Bool, true, false, ◌||◌, ◌==◌, ltb, if◌then◌else◌, none, some, length, take,
  drop,
}
use mg_web.Text.{CString, lcase, strcmp_eq, strstr}
use mg_web.Config.{Location, Slot}
use mg_web.Config.Keywords

-- The loop over the names of variables: each `,` ends a name, and a name begins where a byte stands behind it.
abbrev pub begin_name : CString → CString × List CString → List CString
begin_name [] names = []
begin_name (c ∷ s) names = names.0 ∷ names.1

unfoldable pub scan_names : CString → CString × List CString
scan_names [] = ([], [])
scan_names (c ∷ s) =
    let rest = scan_names s in if c == b',' then ([], begin_name s rest) else (c ∷ rest.0, rest.1)

unfoldable pub variable_names : CString → List CString
unfolding scan_names
variable_names s = begin_name s (scan_names s)

abbrev pub max_variables : ℕ
max_variables = 4

abbrev pub clear_name : List Slot → List Slot
clear_name [] = []
clear_name (slot ∷ slots) = record slot { name = none } ∷ slots

-- The stores into `sa_variables` and of the null pointer behind them. The array has four elements, and the array `servers`
-- is behind it.
unfoldable pub put_variables : List CString → Location → Location
put_variables names l = record l {
  sa_variables = take max_variables names;
  servers = if ltb (length names) max_variables then l.servers else clear_name l.servers;
}

abbrev pub or_order : ℕ → ℕ → ℕ
or_order order n = if order == 0 then n else order

-- What stands behind `:`, where the word in front of it is `kind`.
unfoldable pub affinity_kind : CString → CString → Location → Location × Bool
unfolding variable_names put_variables
affinity_kind kind p l =
    if strcmp_eq Keywords.variable_word kind
    then (put_variables (variable_names p) (record l { sa_order = or_order l.sa_order 1 }), false)
    else if strcmp_eq Keywords.cookie_word kind
    then (
      record l {
        sa_order = or_order l.sa_order 2;
        sa_cookie = elim p [ [] ↦ none | c ∷ s ↦ some (c ∷ s) ];
      },
      false,
    )
    else (l, true)

-- The loop over the words; they afterwards, and whether one is invalid.
unfoldable pub affinity_words : List CString → Location → Location × List CString × Bool
unfolding affinity_kind
affinity_words [] l = (l, [], false)
affinity_words (w ∷ ws) l = elim (strstr w Keywords.colon) [
  | none ↦ let (l2, rest, bad) = affinity_words ws l in (l2, w ∷ rest, bad)
  | some (before, p) ↦
      let (l1, wrong) = affinity_kind (lcase before) (drop 1 p) l in
      let (l2, rest, bad) = affinity_words ws l1 in (l2, lcase before ∷ rest, wrong || bad)
]
