-- ===== src/Pool/Claim/Scan.antt =====
-- What one pass along the connections finds.
use mg_web.Base.{
  ℕ, suc, ◌+◌, ◌-◌, ◌≤◌, ◌<◌, ◌≡◌, refl, subst, List, [], ◌∷◌, true, false, not, ◌&&◌, ◌||◌,
  if◌then◌else◌, Option, some, get_elem?, arith, ◌⊎◌, inl, inr, Bool-cases, Option-cases,
}
use mg_web.Pool.{Connection}
use mg_web.Pool.Claim.{reuse, limit, ended, walk, is_on, first_free}
use mg_web.Types.{Server}

-- The connections allocated to server `k`, and those of them in use.
unfoldable pub allocated : ℕ → List Connection → ℕ
allocated k [] = 0
allocated k (con ∷ rest) = (if is_on k con then 1 else 0) + allocated k rest

unfoldable pub in_use_on : ℕ → List Connection → ℕ
in_use_on k [] = 0
in_use_on k (con ∷ rest) = (if is_on k con && con.inuse then 1 else 0) + in_use_on k rest

-- With a network server, the pass gets to the end only if each of the server's connections is in
-- use, and they are fewer than the limit.
pub walk-ended :
    (k : ℕ) (srv : Server) (cons : List Connection) (i n : ℕ) (free : Option ℕ)
    → srv.net_connection ≡ true
    → n < srv.max_connections
    → (walk k srv cons i n free).0 ≡ ended
    → (n + allocated k cons < srv.max_connections) × (in_use_on k cons ≡ allocated k cons)
unfolding walk allocated in_use_on
walk-ended k srv [] i n free net room e = (omega arith, refl)
walk-ended k srv (con ∷ rest) i n free net room e = ground (
  arith,
  walk-ended k srv rest (i + 1) n (first_free free con i) net,
  walk-ended k srv rest (i + 1) (n + 1) (first_free free con i) net,
)

-- It stops at the limit only if that many of the server's connections are in use.
pub walk-limit :
    (k : ℕ) (srv : Server) (cons : List Connection) (i n : ℕ) (free : Option ℕ)
    → (walk k srv cons i n free).0 ≡ limit
    → (0 < srv.max_connections) × (srv.max_connections ≤ n + in_use_on k cons)
unfolding walk in_use_on
walk-limit k srv [] i n free e = cc
walk-limit k srv (con ∷ rest) i n free e = ground (
  arith,
  walk-limit k srv rest (i + 1) n (first_free free con i),
  walk-limit k srv rest (i + 1) (n + 1) (first_free free con i),
)

-- A place further on in the list is one less in its tail.
shift :
    (con : Connection) (rest : List Connection) (i c : ℕ) {found : Connection}
    → i + 1 ≤ c
    → get_elem? rest (c - (i + 1)) ≡ some found
    → get_elem? (con ∷ rest) (c - i) ≡ some found
shift con rest i c le e = let next : c - i ≡ suc (c - (i + 1)) = omega arith in rw next e

here :
    (con : Connection) (rest : List Connection) (i : ℕ) → get_elem? (con ∷ rest) (i - i) ≡ some con
here con rest i = let none_left : i - i ≡ 0 = omega arith in rw none_left

-- What is reused is allocated to the server, and with a network server nobody uses it.
pub walk-reuse :
    (k : ℕ) (srv : Server) (cons : List Connection) (i n c : ℕ) (free : Option ℕ)
    → (walk k srv cons i n free).0 ≡ reuse c
    → (con : Connection) × (i ≤ c)
      × (get_elem? cons (c - i) ≡ some con)
      × (is_on k con ≡ true)
      × (srv.net_connection ≡ true → con.inuse ≡ false)
unfolding walk
walk-reuse k srv [] i n c free e = cc
walk-reuse k srv (con ∷ rest) i n c free e =
    let inuse = if is_on k con && con.inuse then n + 1 else n in
    elim (Bool-cases (is_on k con && (not srv.net_connection || not con.inuse))) [
      | inl hit ↦
          let same : i ≡ c = ground arith in
          (
            con,
            omega arith,
            subst (λ j. get_elem? (con ∷ rest) (j - i) ≡ some con) same (here con rest i),
            ground arith,
            λ net. ground arith,
          )
      | inr miss ↦
          let onward : (walk k srv rest (i + 1) inuse (first_free free con i)).0 ≡ reuse c =
            ground arith in
          let (found, le, at, on, idle) =
            walk-reuse k srv rest (i + 1) inuse c (first_free free con i) onward in
          (found, omega arith, shift con rest i c le at, on, idle)
    ]

-- A place remembered as free at the end was given, or is one that is not allocated.
pub walk-free :
    (k : ℕ) (srv : Server) (cons : List Connection) (i n f : ℕ) (free : Option ℕ)
    → (walk k srv cons i n free).1 ≡ some f
    → (free ≡ some f)
      ⊎ ((con : Connection) × (i ≤ f) × (get_elem? cons (f - i) ≡ some con) × (con.alloc ≡ false))
unfolding walk
walk-free k srv [] i n f free e = inl e
walk-free k srv (con ∷ rest) i n f free e =
    let inuse = if is_on k con && con.inuse then n + 1 else n in
    let free' = first_free free con i in
    let later : (free ≡ some f) ⊎ ((walk k srv rest (i + 1) inuse free').1 ≡ some f) =
      ground arith in
    elim later [
      | inl given ↦ inl given
      | inr onward ↦ elim (walk-free k srv rest (i + 1) inuse f free' onward) [
        | inr (found, le, at, off) ↦ inr (found, omega arith, shift con rest i f le at, off)
        | inl noted ↦ elim (Bool-cases con.alloc) [
          | inl used ↦ inl (ground arith)
          | inr off ↦ elim (Option-cases free) [
            | inr (g, had) ↦ inl (ground arith)
            | inl no_free ↦
                let same : i ≡ f = ground arith in
                inr (
                  con,
                  omega arith,
                  subst (λ j. get_elem? (con ∷ rest) (j - i) ≡ some con) same (here con rest i),
                  off,
                )
          ]
        ]
      ]
    ]
