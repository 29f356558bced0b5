-- ===== src/Config/LocationSection/Bounds.antt =====
-- What the parameters of a location keep: the arrays hold what is stored in them.
use mg_web.Base.{
  ℕ, zero, suc, ◌≤◌, ◌≡◌, refl, List, [], ◌∷◌, ◌++◌, Bool, true, false, ltb, if◌then◌else◌, none,
  some, length, take, drop, arith, Bool-cases, Option-cases, inl, inr, All, if_both, length-append,
}
use mg_web.Text.{CString, lcase, strcmp_eq, strstr}
use mg_web.Config.{Location, Slot, is_given}
use mg_web.Config.Keywords
use mg_web.Config.GlobalSection.{add_cgi}
use mg_web.Config.LocationSection.{
  LocationEffect, untouched, changes, new_slot, server_and_flag, add_slot, add_servers, put_servers,
  put_load_balancing, put_administrator, websocket, location_parameter, location_effect,
  change_location, put_cgi,
}
use mg_web.Config.LocationSection.Affinity.{
  clear_name, put_variables, variable_names, affinity_kind, affinity_words, or_order,
}

abbrev pub IsNamedSlot : Slot → Type 0
IsNamedSlot slot = is_given slot.name ≡ true

-- Each slot behind the first has a name.
abbrev pub IsNamedBehind : List Slot → Type 0
IsNamedBehind [] = Unit {0}
IsNamedBehind (slot ∷ slots) = All IsNamedSlot slots

-- The slots fit into the array `servers`, the CGI variables into `cgi`, and the names into `sa_variables`.
abbrev pub InBounds : Location → Type 0
InBounds l =
    (length l.servers ≤ 30)
    × IsNamedBehind l.servers
    × (length l.cgi ≤ 120)
    × (length l.sa_variables ≤ 4)

pub add_cgi-le : (ws cgi : List CString) → length cgi ≤ 120 → length (add_cgi ws cgi) ≤ 120
unfolding add_cgi
add_cgi-le [] cgi h = h
add_cgi-le (w ∷ ws) cgi h =
    add_cgi-le ws _
      (elim (Bool-cases (ltb (length cgi) 120))
        as (λ _. length (if ltb (length cgi) 120 then cgi ++ (w ∷ []) else cgi) ≤ 120) [
          | inl room ↦ rw room (let sum = length-append cgi (w ∷ []) in ground arith)
          | inr full ↦ rw full h
        ])

All-append_one :
    (slots : List Slot) (slot : Slot)
    → All IsNamedSlot slots
    → IsNamedSlot slot
    → All IsNamedSlot (slots ++ (slot ∷ []))
All-append_one [] slot h named = (named, tt)
All-append_one (s ∷ slots) slot (first, others) named =
    (first, All-append_one slots slot others named)

IsNamedBehind-append :
    (slots : List Slot) (slot : Slot)
    → IsNamedBehind slots
    → IsNamedSlot slot
    → IsNamedBehind (slots ++ (slot ∷ []))
IsNamedBehind-append [] slot h named = tt
IsNamedBehind-append (s ∷ slots) slot h named = All-append_one slots slot h named

abbrev AreSlots : List Slot → Type 0
AreSlots slots = (length slots ≤ 30) × IsNamedBehind slots

add_slot-AreSlots :
    (w : CString × Bool) (slots : List Slot)
    → ltb (length slots) 30 ≡ true
    → AreSlots slots
    → AreSlots (add_slot w slots)
unfolding add_slot
add_slot-AreSlots ([], ex) slots room h = h
add_slot-AreSlots (c ∷ name, ex) slots room (fits, named) = (
  (let sum = length-append slots (new_slot (c ∷ name) ex ∷ []) in ground arith),
  IsNamedBehind-append slots (new_slot (c ∷ name) ex) named refl,
)

add_servers-AreSlots :
    (ws : List CString) (slots : List Slot) → AreSlots slots → AreSlots (add_servers ws slots).0
unfolding add_servers
add_servers-AreSlots [] slots h = h
add_servers-AreSlots (w ∷ ws) slots h =
    elim (Bool-cases (ltb (length slots) 30)) as (λ _. AreSlots (add_servers (w ∷ ws) slots).0) [
      | inr full ↦ rw (add_servers, full) h
      | inl room ↦
          rw (add_servers, room)
            (add_servers-AreSlots ws (add_slot (server_and_flag w) slots)
              (add_slot-AreSlots (server_and_flag w) slots room h))
    ]

clear_name-AreSlots : (slots : List Slot) → AreSlots slots → AreSlots (clear_name slots)
clear_name-AreSlots [] h = h
clear_name-AreSlots (slot ∷ slots) h = h

length-take_le : (n : ℕ) (xs : List CString) → length (take n xs) ≤ n
length-take_le zero xs = omega arith
length-take_le (suc n) [] = omega arith
length-take_le (suc n) (x ∷ xs) = omega (arith, length-take_le n xs)

put_variables-InBounds :
    (names : List CString) (l : Location) → InBounds l → InBounds (put_variables names l)
unfolding put_variables
put_variables-InBounds names l (fits, named, cgi, variables) =
    let slots : AreSlots (if ltb (length names) 4 then l.servers else clear_name l.servers) =
      if_both AreSlots (ltb (length names) 4) (fits, named)
        (clear_name-AreSlots l.servers (fits, named)) in
    (slots.0, slots.1, cgi, length-take_le 4 names)

affinity_kind-InBounds :
    (kind p : CString) (l : Location) → InBounds l → InBounds (affinity_kind kind p l).0
unfolding affinity_kind
affinity_kind-InBounds kind p l h =
    let first : Location = record l { sa_order = or_order l.sa_order 1 } in
    let InFirst : Location × Bool → Type 0 = λ r. InBounds r.0 in
    if_both InFirst (strcmp_eq Keywords.variable_word kind)
      {x = (put_variables (variable_names p) first, false)}
      {y = if strcmp_eq Keywords.cookie_word kind
        then (
          record l {
            sa_order = or_order l.sa_order 2;
            sa_cookie = elim p [ [] ↦ none | c ∷ s ↦ some (c ∷ s) ];
          },
          false,
        )
        else (l, true)}
      (put_variables-InBounds (variable_names p) first h)
      (if_both InFirst (strcmp_eq Keywords.cookie_word kind)
        {x = (
          record l {
            sa_order = or_order l.sa_order 2;
            sa_cookie = elim p [ [] ↦ none | c ∷ s ↦ some (c ∷ s) ];
          },
          false,
        )}
        {y = (l, true)} h h)

affinity_words-InBounds :
    (ws : List CString) (l : Location) → InBounds l → InBounds (affinity_words ws l).0
unfolding affinity_words
affinity_words-InBounds [] l h = h
affinity_words-InBounds (w ∷ ws) l h =
    elim (Option-cases (strstr w Keywords.colon)) as (λ _. InBounds (affinity_words (w ∷ ws) l).0) [
      | inl plain ↦ rw (affinity_words, plain) (affinity_words-InBounds ws l h)
      | inr ((before, p), found) ↦
          rw (affinity_words, found)
            (affinity_words-InBounds ws _ (affinity_kind-InBounds (lcase before) (drop 1 p) l h))
    ]

abbrev pub Keeps : LocationEffect → Type 0
Keeps (untouched e) = Unit {0}
Keeps (changes f) = (l : Location) → InBounds l → InBounds (f l).location

administrator-InBounds :
    (value : CString) (ws : List CString) (l : Location)
    → InBounds l
    → InBounds (put_administrator value ws l).location
unfolding put_administrator
administrator-InBounds value ws l h = h

load_balancing-InBounds :
    (value : CString) (ws : List CString) (l : Location)
    → InBounds l
    → InBounds (put_load_balancing value ws l).location
unfolding put_load_balancing
load_balancing-InBounds value ws l h = h

function-InBounds :
    (value : CString) (l : Location) → InBounds l → InBounds (record l { function = some value })
function-InBounds value l h = h

affinity-InBounds :
    (ws : List CString) (l : Location)
    → InBounds l
    → InBounds (affinity_words ws (record l { sa_order = 0 })).0
affinity-InBounds ws l h = affinity_words-InBounds ws (record l { sa_order = 0 }) h

websocket-Keeps :
    (memory : Bool) (value : CString) (ws : List CString) → Keeps (websocket memory value ws)
unfolding websocket
websocket-Keeps memory value [] = tt
websocket-Keeps true value (function ∷ ws) = λ l h. h
websocket-Keeps false value (function ∷ ws) = tt

put_servers-InBounds :
    (ws : List CString) (l : Location) → InBounds l → InBounds (put_servers ws l).location
unfolding put_servers
put_servers-InBounds ws l (fits, named, cgi, variables) =
    let slots : AreSlots (add_servers ws l.servers).0 =
      add_servers-AreSlots ws l.servers (fits, named) in
    (slots.0, slots.1, cgi, variables)

record Preserves (e : LocationEffect) : Type 0 where
  keeps : Keeps e

location_parameter-Preserves :
    (memory : Bool) (ln : ℕ) (key value : CString) (words : List CString)
    → Preserves (location_parameter memory ln key value words)
unfolding location_parameter
location_parameter-Preserves memory ln key value words =
    if_both Preserves (strcmp_eq key Keywords.function_word)
      (record { keeps = function-InBounds value })
      (if_both Preserves (strcmp_eq key Keywords.websocket_word)
        (record { keeps = websocket-Keeps memory value words })
        (if_both Preserves (strcmp_eq key Keywords.servers_word)
          (record { keeps = put_servers-InBounds (value ∷ words) })
          (if_both Preserves (strcmp_eq key Keywords.load_balancing_word)
            (record { keeps = load_balancing-InBounds value words })
            (if_both Preserves (strcmp_eq key Keywords.server_affinity)
              (record { keeps = affinity-InBounds (value ∷ words) })
              (if_both Preserves (strcmp_eq key Keywords.administrator_word)
                (record { keeps = administrator-InBounds value words }) (record { keeps = tt }))))))

pub location_effect-Keeps :
    (memory : Bool) (ln : ℕ) (words : List CString) → Keeps (location_effect memory ln words)
unfolding location_effect
location_effect-Keeps memory ln [] = tt
location_effect-Keeps memory ln (key ∷ []) = tt
location_effect-Keeps memory ln (key ∷ value ∷ words) =
    (location_parameter-Preserves memory ln (lcase key) value words).keeps

put_cgi-InBounds :
    (incgi : Bool) (ws : List CString) (l : Location) → InBounds l → InBounds (put_cgi incgi ws l)
put_cgi-InBounds false ws l h = h
put_cgi-InBounds true ws l (fits, named, cgi, variables) =
    (fits, named, add_cgi-le ws l.cgi cgi, variables)

pub change_location-InBounds :
    (incgi : Bool) (words : List CString) (e : LocationEffect) (l : Location)
    → Keeps e
    → InBounds l
    → InBounds (change_location incgi words e l).0
unfolding change_location
change_location-InBounds incgi words (untouched e) l keeps h = put_cgi-InBounds incgi _ l h
change_location-InBounds incgi words (changes f) l keeps h =
    put_cgi-InBounds incgi _ (f l).location (keeps l h)
