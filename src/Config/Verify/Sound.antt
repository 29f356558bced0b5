-- ===== src/Config/Verify/Sound.antt =====
-- What holds of the servers and the locations where `mg_verify_config` finds no error.
use mg_web.Base.{
  ℕ, suc, ◌≡◌, ◌≢◌, refl, sym, ap, ◌∙◌, subst, ◌⊎◌, inl, inr, List, [], ◌∷◌, Bool, true, false,
  ◌==◌, ◌&&◌, Option, none, some, get_elem?, arith, Bool-cases, Option-cases, All, length, if_cases,
}
use mg_web.Text.{CString, strcmp_eq}
use mg_web.Text.Compare.{strcmp_eq_sound}
use mg_web.Config.{is_given, DbServer, Location, Slot, TlsConfig, ConfigError}
use mg_web.Config.LocationSection.Bounds.{IsNamedSlot, IsNamedBehind}
use mg_web.Config.ServerCheck.{Verdict, goes_on, breaks, check_server, check_servers}
use mg_web.Config.LocationCheck.{
  find_server, resolve_slots, resolve_slot, resolve_found, has_name, first_missing, LocationVerdict,
  passes, refuses, wild_read, check_resolved, check_slots, check_function, check_location,
}
use mg_web.Config.Verify.Ready.{IsReady, Passes, Done, check_server-Passes}

Verdict-cases :
    {A : Type 0} (v : Verdict A)
    → ((a : A) × (e : Option ConfigError) × (v ≡ goes_on a e))
      ⊎ ((a : A) × (e : ConfigError) × (v ≡ breaks a e))
Verdict-cases (goes_on a e) = inl (a, e, refl)
Verdict-cases (breaks a e) = inr (a, e, refl)

module _ (tls : List TlsConfig) (with_tls : Bool) (timeout : ℕ) where
  check_servers-goes_on :
      (s s2 : DbServer) (ss : List DbServer) (e e2 : Option ConfigError)
      → check_server tls with_tls timeout s e s.dbtype_name ≡ goes_on s2 e2
      → check_servers tls with_tls timeout (s ∷ ss) e ≡ (
        s2 ∷ (check_servers tls with_tls timeout ss e2).0,
        (check_servers tls with_tls timeout ss e2).1,
      )
  unfolding check_servers
  check_servers-goes_on s s2 ss e e2 v = rw (check_servers, v) refl

  check_servers-breaks :
      (s s2 : DbServer) (ss : List DbServer) (e : Option ConfigError) (e2 : ConfigError)
      → check_server tls with_tls timeout s e s.dbtype_name ≡ breaks s2 e2
      → check_servers tls with_tls timeout (s ∷ ss) e ≡ (s2 ∷ ss, some e2)
  unfolding check_servers
  check_servers-breaks s s2 ss e e2 v = rw (check_servers, v) refl

  passed-IsReady :
      (e : Option ConfigError) (s : DbServer) (e2 : Option ConfigError)
      → e2 ≡ none
      → Passes (Done tls with_tls e) (goes_on s e2)
      → (e ≡ none) × IsReady tls s
  passed-IsReady e s none h passed = passed
  passed-IsReady e s (some e2) h passed = absurd cc

  pub check_servers-IsReady :
      (ss : List DbServer) (e : Option ConfigError)
      → (check_servers tls with_tls timeout ss e).1 ≡ none
      → (e ≡ none) × All (IsReady tls) (check_servers tls with_tls timeout ss e).0
  unfolding check_servers
  check_servers-IsReady [] e h = (h, tt)
  check_servers-IsReady (s ∷ ss) e h =
      elim (Verdict-cases (check_server tls with_tls timeout s e s.dbtype_name)) [
        | inr (s2, e2, v) ↦ absurd (
            let eq = check_servers-breaks s s2 ss e e2 v in
            let found = ap (λ (r : List DbServer × Option ConfigError). r.1) eq in cc)
        | inl (s2, e2, v) ↦
            let eq = check_servers-goes_on s s2 ss e e2 v in
            let (no_error, rest) =
              check_servers-IsReady ss e2
                (sym (ap (λ (r : List DbServer × Option ConfigError). r.1) eq) ∙ h) in
            let (first, ready) = passed-IsReady e s2 e2 no_error (
              subst (Passes (Done tls with_tls e)) v
                (check_server-Passes tls with_tls e timeout s s.dbtype_name)) in
            subst (λ (r : List DbServer × Option ConfigError). (e ≡ none) × All (IsReady tls) r.0)
              (sym eq) (first, (ready, rest))
      ]

-- A slot of a location names a server, at the place that the slot has.
abbrev pub IsResolved : List DbServer → Slot → Type 0
IsResolved servers slot =
    (i : ℕ) × (s : DbServer) × (slot.psrv ≡ some i)
    × (get_elem? servers i ≡ some s)
    × (slot.name ≡ some s.name)

find_server-named :
    (name : CString) (servers : List DbServer) (i : ℕ)
    → find_server name servers ≡ some i
    → (s : DbServer) × (get_elem? servers i ≡ some s) × (name ≡ s.name)
unfolding find_server
find_server-named name [] i e = absurd cc
find_server-named name (s ∷ ss) i e = elim (Bool-cases (strcmp_eq name s.name)) [
  | inl same ↦
      let here : i ≡ 0 = ground arith in rw here (s, refl, strcmp_eq_sound name s.name same)
  | inr other ↦ elim (Option-cases (find_server name ss)) [
    | inl missed ↦ ground arith
    | inr (j, found) ↦
        let there : i ≡ suc j = ground arith in rw there (find_server-named name ss j found)
  ]
]

-- A location that is for the administrator, or has a function and servers that there are; and where the log is written,
-- it has not got four variables.
abbrev pub IsServed : Bool → List DbServer → Location → Type 0
IsServed pbuf servers l =
    (l.admin ≢ 0)
    ⊎ ((is_given l.function ≡ true)
        × (length l.servers ≢ 0)
        × All (IsResolved servers) l.servers
        × ((pbuf ≡ false) ⊎ (length l.sa_variables ≢ 4)))

module _ (servers : List DbServer) where
  resolve_slot-IsResolved :
      (path : CString) (slot : Slot) (slots : List Slot) (rest : List Slot × Option ConfigError)
      (name : Option CString)
      → slot.name ≡ name
      → is_given name ≡ true
      → (rest.1 ≡ none → All (IsResolved servers) rest.0)
      → (resolve_slot servers path slot slots rest name).1 ≡ none
      → All (IsResolved servers) (resolve_slot servers path slot slots rest name).0
  unfolding resolve_slot resolve_found
  resolve_slot-IsResolved path slot slots rest none here named others = absurd cc
  resolve_slot-IsResolved path slot slots rest (some name) here named others =
      elim (Option-cases (find_server name servers))
        as (λ _.
          (resolve_found path name slot slots rest (find_server name servers)).1 ≡ none
          → All (IsResolved servers)
              (resolve_found path name slot slots rest (find_server name servers)).0) [
                | inl missed ↦ rw missed (λ h. absurd cc)
                | inr (i, found) ↦
                    let (s, place, same) = find_server-named name servers i found in
                    rw found (λ h. ((i, s, refl, place, here ∙ ap some same), others h))
              ]

  resolve_slots-IsResolved :
      (path : CString) (slots : List Slot)
      → All IsNamedSlot slots
      → (resolve_slots servers path slots).1 ≡ none
      → All (IsResolved servers) (resolve_slots servers path slots).0
  unfolding resolve_slots
  resolve_slots-IsResolved path [] named h = tt
  resolve_slots-IsResolved path (slot ∷ slots) (named, others) h =
      resolve_slot-IsResolved path slot slots (resolve_slots servers path slots) slot.name refl
        named (resolve_slots-IsResolved path slots others) h

  -- What is asked of a verdict on a location.
  abbrev pub Serves : Bool → LocationVerdict → Type 0
  Serves pbuf (passes l) = IsServed pbuf servers l
  Serves pbuf (refuses l e) = Unit {0}
  Serves pbuf wild_read = Unit {0}

  first_missing-nonempty : (slots : List Slot) → first_missing slots ≡ false → length slots ≢ 0
  first_missing-nonempty [] h = absurd cc
  first_missing-nonempty (slot ∷ slots) h = λ e. absurd (omega arith)

  few : (pbuf : Bool) (n : ℕ) → (pbuf && n == 4) ≡ false → (pbuf ≡ false) ⊎ (n ≢ 4)
  few false n h = inl refl
  few true n h = inr (λ e. ground arith)

  check_resolved-Serves :
      (pbuf : Bool) (l : Location) (e : Option ConfigError)
      → is_given l.function ≡ true
      → (e ≡ none → All (IsResolved servers) l.servers)
      → Serves pbuf (check_resolved pbuf l e)
  unfolding check_resolved
  check_resolved-Serves pbuf l (some e) function resolved = tt
  check_resolved-Serves pbuf l none function resolved =
      elim (Bool-cases (first_missing l.servers))
        as (λ _. Serves pbuf (check_resolved pbuf l none)) [
          | inl missing ↦ rw (check_resolved, missing) tt
          | inr found ↦
              rw (check_resolved, found)
                (if_cases (Serves pbuf) (pbuf && length l.sa_variables == 4) {x = wild_read}
                  {y = passes l} (λ four. tt)
                  (λ not_four. inr (
                    function,
                    first_missing-nonempty l.servers found,
                    resolved refl,
                    few pbuf (length l.sa_variables) not_four,
                  )))
        ]

  All-named :
      (slots : List Slot) → IsNamedBehind slots → has_name slots ≡ true → All IsNamedSlot slots
  All-named [] others first = tt
  All-named (slot ∷ slots) others first = (first, others)

  check_function-Serves :
      (pbuf : Bool) (l : Location) (f : Option CString)
      → l.function ≡ f
      → IsNamedBehind l.servers
      → Serves pbuf (check_function servers pbuf l f)
  unfolding check_function check_slots
  check_function-Serves pbuf l none here named = tt
  check_function-Serves pbuf l (some f) here named =
      elim (Bool-cases (has_name l.servers))
        as (λ _. Serves pbuf (check_function servers pbuf l (some f))) [
          | inr nameless ↦ rw (check_function, nameless) tt
          | inl first ↦
              rw (check_function, first)
                (check_resolved-Serves pbuf
                  (record l { servers = (resolve_slots servers l.name l.servers).0 }) _
                  (ap is_given here)
                  (resolve_slots-IsResolved l.name l.servers (All-named l.servers named first)))
        ]

  pub check_location-Serves :
      (pbuf : Bool) (l : Location)
      → IsNamedBehind l.servers
      → Serves pbuf (check_location servers pbuf l)
  unfolding check_location
  check_location-Serves pbuf l named =
      elim (Bool-cases (l.admin == 0)) as (λ _. Serves pbuf (check_location servers pbuf l)) [
        | inl user ↦ rw (check_location, user) (check_function-Serves pbuf l l.function refl named)
        | inr admin ↦ rw (check_location, admin) (inl (ground arith))
      ]
