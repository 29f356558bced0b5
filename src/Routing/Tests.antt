-- ===== src/Routing/Tests.antt =====
-- A request for one of two paths.
use mg_web.Base.{ℕ, ◌≡◌, refl, [], ◌∷◌, some, none, false, ◌⊎◌}
use mg_web.Routing.{get_path_configuration, scan_paths}
use mg_web.Routing.Longest.{AtMost, Longest, get_path_configuration-Longest}
use mg_web.Status.{success, failure}
use mg_web.Text.{CString, strncmp_eq}
use mg_web.Types.{MgPath}

abbrev path : CString → ℕ → MgPath
path name n = record {
  name = name;
  name_len = n;
  load_balancing = false;
  server_no = 0;
  servers = [];
}

abbrev short : MgPath
short = path (b'/' ∷ []) 1

abbrev long : MgPath
long = path (b'/' ∷ b'a' ∷ []) 2

abbrev script : CString
script = b'/' ∷ b'a' ∷ b'b' ∷ []

get_path_configuration_test :
    get_path_configuration script (short ∷ long ∷ []) none ≡ (some long, success)
unfolding get_path_configuration scan_paths strncmp_eq
get_path_configuration_test = refl

get_path_configuration-Longest_example :
    ((p : MgPath) × (get_path_configuration script (short ∷ long ∷ []) none ≡ (some p, success))
      × Longest script 0 (short ∷ long ∷ []) p)
    ⊎ ((get_path_configuration script (short ∷ long ∷ []) none ≡ (none, failure))
        × AtMost script 0 (short ∷ long ∷ []))
get_path_configuration-Longest_example =
    get_path_configuration-Longest script (short ∷ long ∷ []) none (refl, (refl, tt))
