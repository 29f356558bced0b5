-- ===== src/Routing.antt =====
-- src/mg_web.c: `mg_get_path_configuration`, which finds the configuration for a request.
pub mod Longest
mod Tests
use mg_web.Base.{ℕ, List, [], ◌∷◌, Bool, ◌&&◌, ltb, if◌then◌else◌, Option, none, some}
use mg_web.Status.{Rc, success, failure}
use mg_web.Text.{CString, strncmp_eq}
use mg_web.Types.{MgPath}

abbrev pub improves : CString → MgPath → ℕ → Bool
improves script_name_lc ppath len_max =
    strncmp_eq script_name_lc ppath.name ppath.name_len && ltb len_max ppath.name_len

-- The loop over `mg_path`; it returns `len_max` and `ppath_max`.
unfoldable pub scan_paths : CString → List MgPath → ℕ → Option MgPath → ℕ × Option MgPath
scan_paths script_name_lc [] len_max ppath_max = (len_max, ppath_max)
scan_paths script_name_lc (ppath ∷ rest) len_max ppath_max =
    scan_paths script_name_lc rest
      (if improves script_name_lc ppath len_max then ppath.name_len else len_max)
      (if improves script_name_lc ppath len_max then some ppath else ppath_max)

-- The argument and the first result are `pweb->ppath`, before and after.
unfoldable pub get_path_configuration : CString → List MgPath → Option MgPath → Option MgPath × Rc
get_path_configuration script_name_lc mg_path ppath =
    let found = scan_paths script_name_lc mg_path 0 none in
    if ltb 0 found.0 then (found.1, success) else (ppath, failure)
