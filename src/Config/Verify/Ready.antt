-- ===== src/Config/Verify/Ready.antt =====
-- What holds of the servers that `mg_verify_config` lets pass.
use mg_web.Base.{
  ℕ, suc, ◌≡◌, ◌≢◌, refl, sym, ap, subst, ◌⊎◌, inl, inr, List, [], ◌∷◌, ◌++◌, Bool, true, false,
  not, ◌==◌, if◌then◌else◌, Option, none, some, get_elem?, arith, if_both, Bool-cases, Option-cases,
}
use mg_web.Text.{CString, lcase, strcmp_eq}
use mg_web.Text.Compare.{if_equal, if_either, strcmp_eq_sound}
use mg_web.Config.{is_given, DbServer, TlsConfig, ConfigError, unrecognized_type}
use mg_web.Config.Keywords
use mg_web.Config.ServerCheck.{
  Verdict, goes_on, breaks, type_of_name, find_tls, check_tls, check_found, end_environment,
  missing, missing_user, missing_address, check_access, check_type, check_server, with_timeout,
}

-- The names of databases, with the numbers for them.
pub data IsType : CString → ℕ → ℕ → Type 0 where
  iris : IsType Keywords.iris_word 2 3641145
  cache : IsType Keywords.cache_word 1 3641145
  yottadb : IsType Keywords.yottadb_word 5 1048577
  gt_m : IsType Keywords.gt_m_word 11 1048577
  gtm : IsType Keywords.gtm_word 11 1048577
  node_js : IsType Keywords.node_js_word 21 3641145
  nodejs : IsType Keywords.nodejs_word 21 3641145
  node : IsType Keywords.node_word 21 3641145
  bun : IsType Keywords.bun_word 22 1048577

abbrev pub IsTypeOf : CString → Option (ℕ × ℕ) → Type 0
IsTypeOf t none = Unit {0}
IsTypeOf t (some (d, n)) = IsType t d n

renamed : {t w : CString} {d n : ℕ} → IsType w d n → t ≡ w → IsType t d n
renamed {t} {w} {d} {n} k e = subst (λ (u : CString). IsType u d n) (sym e) k

type_of_name-IsType : (t : CString) → IsTypeOf t (type_of_name t)
unfolding type_of_name
type_of_name-IsType t = if_equal (IsTypeOf t) t Keywords.iris_word (renamed iris) (
    if_equal (IsTypeOf t) t Keywords.cache_word (renamed cache) (
      if_equal (IsTypeOf t) t Keywords.yottadb_word (renamed yottadb) (
        if_either (IsTypeOf t) t Keywords.gt_m_word _ _ (renamed gt_m) (
          if_equal (IsTypeOf t) t Keywords.gtm_word (renamed gtm) (
            if_either (IsTypeOf t) t Keywords.node_js_word _ _ (renamed node_js) (
              if_either (IsTypeOf t) t Keywords.nodejs_word _ _ (renamed nodejs) (
                if_equal (IsTypeOf t) t Keywords.node_word (renamed node)
                  (if_equal (IsTypeOf t) t Keywords.bun_word (renamed bun) tt))))))))

abbrev pub HasType : DbServer → Type 0
HasType s = (t : CString) × (s.dbtype_name ≡ some t) × IsType t s.dbtype s.max_string_size

-- A server in this process, with a user, or over the network.
abbrev pub HasAccess : DbServer → Type 0
HasAccess s =
    ((s.net_connection ≡ false)
      × (is_given s.shdir ≡ true)
      × ((s.dbtype ≡ 5) ⊎ ((is_given s.username ≡ true) × (is_given s.password ≡ true))))
    ⊎ ((s.net_connection ≡ true) × (s.shdir ≡ none) × (is_given s.ip_address ≡ true) × (s.port ≢ 0))

-- The TLS configuration, if one is named, is that of the name.
abbrev pub HasTls : List TlsConfig → DbServer → Type 0
HasTls tls s =
    (s.tls_name ≡ none)
    ⊎ ((i : ℕ) × (t : TlsConfig) × (s.ptls ≡ some i)
        × (get_elem? tls i ≡ some t)
        × (s.tls_name ≡ some t.name))

abbrev pub IsReady : List TlsConfig → DbServer → Type 0
IsReady tls s = HasType s × HasAccess s × HasTls tls s

-- What holds where the loop goes on without an error.
abbrev pub Passes : {A : Type 0} → (A → Type 0) → Verdict A → Type 0
Passes P (goes_on a none) = P a
Passes P (goes_on a (some e)) = Unit {0}
Passes P (breaks a e) = Unit {0}

find_tls-named :
    (name : CString) (tls : List TlsConfig) (i : ℕ)
    → find_tls name tls ≡ some i
    → (t : TlsConfig) × (get_elem? tls i ≡ some t) × (t.name ≡ name)
unfolding find_tls
find_tls-named name [] i e = absurd cc
find_tls-named name (t ∷ ts) i e = elim (Bool-cases (strcmp_eq t.name name)) [
  | inl same ↦
      let here : i ≡ 0 = ground arith in rw here (t, refl, strcmp_eq_sound t.name name same)
  | inr other ↦ elim (Option-cases (find_tls name ts)) [
    | inl missed ↦ ground arith
    | inr (j, found) ↦
        let there : i ≡ suc j = ground arith in rw there (find_tls-named name ts j found)
  ]
]

-- The error that the loop comes with.
abbrev pub WithError : Option ConfigError → (DbServer → Type 0) → DbServer → Type 0
WithError e P s = (e ≡ none) × P s

end_environment-IsReady :
    (tls : List TlsConfig) (s : DbServer) → IsReady tls s → IsReady tls (end_environment s)
unfolding end_environment
end_environment-IsReady tls s ready =
    elim s.penv
      as (λ penv.
        IsReady tls
          (elim penv [ none ↦ s | some env ↦ record s { penv = some (env ++ (b'\n' ∷ [])) } ])) [
            | none ↦ ready
            | some env ↦ ready
          ]

local_access :
    (dbtype : ℕ) (name : CString) (username password : Option CString)
    → (if dbtype == 5 then none else missing_user name username password) ≡ none
    → (dbtype ≡ 5) ⊎ ((is_given username ≡ true) × (is_given password ≡ true))
unfolding missing_user
local_access dbtype name none password h = ground arith
local_access dbtype name (some u) none h = ground arith
local_access dbtype name (some u) (some w) h = inr (refl, refl)

address_given :
    (name : CString) (ip_address : Option CString) (port : ℕ)
    → missing_address name ip_address port ≡ none
    → (is_given ip_address ≡ true) × (port ≢ 0)
unfolding missing_address
address_given name none port h = absurd cc
address_given name (some host) port h = (refl, ground arith)

missing-HasAccess :
    (s : DbServer) (shdir : Option CString)
    → s.shdir ≡ shdir
    → missing s shdir ≡ none
    → HasAccess (record s { net_connection = not (is_given s.shdir) })
unfolding missing missing_user missing_address
missing-HasAccess s (some path) here found = inl (
  ap (λ (o : Option CString). not (is_given o)) here,
  ap is_given here,
  local_access s.dbtype s.name s.username s.password found,
)
missing-HasAccess s none here found =
    let (given, port) = address_given s.name s.ip_address s.port found in
    inr (ap (λ (o : Option CString). not (is_given o)) here, here, given, port)

module _ (tls : List TlsConfig) (with_tls : Bool) (e0 : Option ConfigError) where
  abbrev Begun : DbServer → Type 0
  Begun s = (e0 ≡ none) × HasType s

  abbrev pub Done : DbServer → Type 0
  Done s = (e0 ≡ none) × IsReady tls s

  end_environment-Done :
      (s : DbServer) (e : Option ConfigError)
      → HasAccess s
      → HasTls tls s
      → Passes Begun (goes_on s e)
      → Passes Done (goes_on (end_environment s) e)
  end_environment-Done s none access named (no_error, known) =
      (no_error, end_environment-IsReady tls s (known, access, named))
  end_environment-Done s (some e) access named begun = tt

  with_tls-Begun :
      (s : DbServer) (i : Option ℕ) (e : Option ConfigError)
      → Passes Begun (goes_on s e)
      → Passes Begun (goes_on (record s { ptls = i }) e)
  with_tls-Begun s i none begun = begun
  with_tls-Begun s i (some e) begun = tt

  goes_on-Begun :
      (s : DbServer) (e : Option ConfigError) → e ≡ e0 → HasType s → Passes Begun (goes_on s e)
  goes_on-Begun s none same known = (sym same, known)
  goes_on-Begun s (some e) same known = tt

  check_tls-Passes :
      (s : DbServer) (e : Option ConfigError) (name : Option CString)
      → s.tls_name ≡ name
      → HasAccess s
      → Passes Begun (goes_on s e)
      → Passes Done (check_tls tls with_tls s e name)
  unfolding check_tls check_found
  check_tls-Passes s e none named access begun = end_environment-Done s e access (inl named) begun
  check_tls-Passes s e (some t) named access begun =
      elim (Option-cases (find_tls t tls))
        as (λ _. Passes Done (check_found with_tls t s e (find_tls t tls))) [
          | inl missed ↦ rw missed tt
          | inr (i, found) ↦ rw found (
              if_both (Passes Done) with_tls
                (let (c, place, same) = find_tls-named t tls i found in
                  end_environment-Done (record s { ptls = some i }) e access
                    (inr (i, c, refl, place, cc)) (with_tls-Begun s (some i) e begun))
                tt)
        ]

  check_access-Passes :
      (s : DbServer) (e : Option ConfigError) (m : Option ConfigError)
      → missing s s.shdir ≡ m
      → Passes Begun (goes_on s e)
      → Passes Done (check_access tls with_tls s e m)
  unfolding check_access
  check_access-Passes s e (some m) found begun = tt
  check_access-Passes s none none found begun =
      check_tls-Passes (record s { net_connection = not (is_given s.shdir) }) none s.tls_name refl
        (missing-HasAccess s s.shdir refl found) begun
  check_access-Passes s (some e) none found begun =
      check_tls-Passes (record s { net_connection = not (is_given s.shdir) }) (some e) s.tls_name
        refl (missing-HasAccess s s.shdir refl found) begun

  check_type-Passes :
      (timeout : ℕ) (t : CString) (s : DbServer) (found : Option (ℕ × ℕ))
      → IsTypeOf t found
      → Passes Done (check_type tls with_tls timeout t s e0 found)
  unfolding check_type
  check_type-Passes timeout t s none known =
      check_access-Passes (with_timeout timeout (record s { dbtype_name = some t }))
        (some (unrecognized_type t s.name)) _ refl tt
  check_type-Passes timeout t s (some (d, n)) known =
      let s2 : DbServer =
        with_timeout timeout (record s { dbtype_name = some t; dbtype = d; max_string_size = n }) in
      check_access-Passes s2 e0 _ refl (goes_on-Begun s2 e0 refl (t, refl, known))

  pub check_server-Passes :
      (timeout : ℕ) (s : DbServer) (name : Option CString)
      → Passes Done (check_server tls with_tls timeout s e0 name)
  unfolding check_server
  check_server-Passes timeout s none = tt
  check_server-Passes timeout s (some t) =
      check_type-Passes timeout (lcase t) s (type_of_name (lcase t)) (type_of_name-IsType (lcase t))
