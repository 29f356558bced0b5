-- ===== src/Text/Tests.antt =====
-- Tests of the case functions and of the string functions.
use Prim.Native.Char.{code}
use Prim.Native.String.{String}
use mg_web.Base.{ℕ, ◌≡◌, refl, List, [], ◌∷◌, some, true}
use mg_web.Text.{ucase, lcase, ccase_from, ccase, strstr, starts_with, strncmp_eq}
use mg_web.Text.Case.{SameButCase, NoSmall, NoCapital, Words, lcase-ccase-ucase}

abbrev codes : String → List ℕ
codes String.[] = []
codes (String.◌∷◌ c s) = code c ∷ codes s

ccase_test : ccase (codes "content-TYPE") ≡ codes "Content-Type"
unfolding ccase_from
ccase_test = refl

strstr_test : strstr (codes "a=1&b=2") (codes "b=") ≡ some (codes "a=1&", codes "b=2")
unfolding strstr starts_with
strstr_test = refl

strncmp_eq_test : strncmp_eq (codes "/mgweb/x") (codes "/mgweb") 6 ≡ true
unfolding strncmp_eq
strncmp_eq_test = refl

lcase-ccase-ucase_example :
    let s = codes "X-Name" in
    (SameButCase s (ucase s) × NoSmall (ucase s))
    × (SameButCase s (lcase s) × NoCapital (lcase s))
    × (SameButCase s (ccase s) × Words true (ccase s))
    × (lcase (ccase s) ≡ lcase s)
    × (lcase (ucase s) ≡ lcase s)
    × (ccase (lcase s) ≡ ccase s)
    × (lcase (lcase s) ≡ lcase s)
    × (ccase (ccase s) ≡ ccase s)
lcase-ccase-ucase_example = lcase-ccase-ucase (codes "X-Name")
