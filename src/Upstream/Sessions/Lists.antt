-- ===== src/Upstream/Sessions/Lists.antt =====
-- server/upstream/server.go: the account of the open sessions, as connections.
use pico.Prelude.{
  ◌≤◌, ◌≡◌, ◌≢◌, refl, ◌∙◌, ap, sym, inl, inr, GoString, List, [], ◌∷◌, ◌++◌, some, str_dec, length,
  arith, Elem, Elem-either, Option-cases, subst,
}
use pico.Upstream.LoadBalancer.{without}
use pico.Upstream.Manager.{Conn, Conn_discrete}
use pico.Upstream.Sessions.{of_endpoint, drop_conn, Session, conns, drop_session, AllApart}

pub conns-append :
    (xs : List Session) (x : Session) → conns (xs ++ x ∷ []) ≡ conns xs ++ x.conn ∷ []
conns-append [] x = refl
conns-append (y ∷ xs) x = ap (λ cs. y.conn ∷ cs) (conns-append xs x)

pub conns-drop_session :
    (u : Conn) (xs : List Session) → conns (drop_session u xs) ≡ drop_conn u (conns xs)
unfolding drop_session drop_conn
conns-drop_session u [] = refl
conns-drop_session u (x ∷ xs) = elim (Conn_discrete x.conn u) [
  | yes p ↦ ground (arith, p)
  | no ne ↦ ground (arith, ne, conns-drop_session u xs)
]

pub Elem-drop_session :
    (u : Conn) (x : Session) (xs : List Session) → Elem x (drop_session u xs) → Elem x xs
unfolding drop_session
Elem-drop_session u x [] m = absurd m
Elem-drop_session u x (y ∷ xs) m = elim (Conn_discrete y.conn u) [
  | yes p ↦ ground (arith, m, p)
  | no ne ↦ ground (arith, m, ne, Elem-drop_session u x xs)
]

pub AllApart-append :
    (cs : List Conn) (u : Conn) → AllApart cs → (¬ Elem u cs) → AllApart (cs ++ u ∷ [])
AllApart-append [] u h new = ((λ m. m), tt)
AllApart-append (c ∷ cs) u (apart, h) new = (
  (λ m. elim (Elem-either c cs (u ∷ []) m) [
    | inl old ↦ apart old
    | inr (inl p) ↦ new (inl (sym p))
    | inr (inr nothing) ↦ nothing
  ]),
  AllApart-append cs u h (λ m. new (inr m)),
)

pub of_endpoint-append :
    (e : GoString) (xs ys : List Conn)
    → of_endpoint e (xs ++ ys) ≡ of_endpoint e xs ++ of_endpoint e ys
unfolding of_endpoint
of_endpoint-append e [] ys = refl
of_endpoint-append e (x ∷ xs) ys = ground (arith, of_endpoint-append e xs ys)

pub length-of_endpoint : (e : GoString) (xs : List Conn) → length (of_endpoint e xs) ≤ length xs
unfolding of_endpoint
length-of_endpoint e [] = omega arith
length-of_endpoint e (x ∷ xs) = ground (arith, length-of_endpoint e xs)

pub Elem-of_endpoint :
    (u : Conn) (xs : List Conn) → Elem u xs → Elem u (of_endpoint u.endpoint_id xs)
unfolding of_endpoint
Elem-of_endpoint u [] m = absurd m
Elem-of_endpoint u (x ∷ xs) (inl e) = ground (arith, e)
Elem-of_endpoint u (x ∷ xs) (inr m) = elim (str_dec x.endpoint_id u.endpoint_id) [
  | yes p ↦ ground (arith, p, Elem-of_endpoint u xs m)
  | no ne ↦ ground (arith, ne, Elem-of_endpoint u xs m)
]

pub drop-same : (u x : Conn) (xs : List Conn) → x ≡ u → drop_conn u (x ∷ xs) ≡ xs
unfolding drop_conn
drop-same u x xs p = ground (arith, p)

pub drop-other : (u x : Conn) (xs : List Conn) → x ≢ u → drop_conn u (x ∷ xs) ≡ x ∷ drop_conn u xs
unfolding drop_conn
drop-other u x xs ne = ground (arith, ne)

pub of-here :
    (e : GoString) (x : Conn) (xs : List Conn)
    → x.endpoint_id ≡ e
    → of_endpoint e (x ∷ xs) ≡ x ∷ of_endpoint e xs
unfolding of_endpoint
of-here e x xs p = ground (arith, p)

pub of-other :
    (e : GoString) (x : Conn) (xs : List Conn)
    → x.endpoint_id ≢ e
    → of_endpoint e (x ∷ xs) ≡ of_endpoint e xs
unfolding of_endpoint
of-other e x xs ne = ground (arith, ne)

pub drop_of-same :
    (u x : Conn) (xs : List Conn) {rest : List Conn}
    → x ≡ u
    → without Conn_discrete u (x ∷ of_endpoint u.endpoint_id xs) ≡ some rest
    → of_endpoint u.endpoint_id (drop_conn u (x ∷ xs)) ≡ rest
unfolding without
drop_of-same u x xs {rest} p gone =
    let same : of_endpoint u.endpoint_id xs ≡ rest = ground (arith, gone, p) in
    rw (drop-same u x xs p) same

pub without-other :
    (u x : Conn) (ys : List Conn) {rest : List Conn}
    → x ≢ u
    → without Conn_discrete u (x ∷ ys) ≡ some rest
    → (others : List Conn) × (without Conn_discrete u ys ≡ some others) × (rest ≡ x ∷ others)
unfolding without
without-other u x ys {rest} ne gone = elim (Option-cases (without Conn_discrete u ys)) [
  | inl missing ↦ absurd (ground (arith, gone, ne, missing))
  | inr (others, found) ↦ (others, found, ground (arith, gone, ne, found))
]

pub Elem-drop_conn : (u c : Conn) (xs : List Conn) → Elem c (drop_conn u xs) → Elem c xs
unfolding drop_conn
Elem-drop_conn u c [] m = absurd m
Elem-drop_conn u c (x ∷ xs) m = elim (Conn_discrete x u) [
  | yes p ↦ inr (subst (λ ys. Elem c ys) (drop-same u x xs p) m)
  | no ne ↦ elim (subst (λ ys. Elem c ys) (drop-other u x xs ne) m) [
    | inl here ↦ inl here
    | inr later ↦ inr (Elem-drop_conn u c xs later)
  ]
]

pub of_endpoint-drop_other :
    (e : GoString) (u : Conn) (xs : List Conn)
    → u.endpoint_id ≢ e
    → of_endpoint e (drop_conn u xs) ≡ of_endpoint e xs
unfolding of_endpoint drop_conn
of_endpoint-drop_other e u [] ne = refl
of_endpoint-drop_other e u (x ∷ xs) ne = elim (Conn_discrete x u) [
  | yes p ↦
      rw (drop-same u x xs p)
        (sym (of-other e x xs (λ q. ne (ap (λ (c : Conn). c.endpoint_id) (sym p) ∙ q))))
  | no other ↦ rw (drop-other u x xs other) (elim (str_dec x.endpoint_id e) [
    | yes q ↦
        of-here e x (drop_conn u xs) q
        ∙ ap (λ ys. x ∷ ys) (of_endpoint-drop_other e u xs ne)
        ∙ sym (of-here e x xs q)
    | no nq ↦
        of-other e x (drop_conn u xs) nq
        ∙ of_endpoint-drop_other e u xs ne
        ∙ sym (of-other e x xs nq)
  ])
]

pub of_endpoint-drop :
    (u : Conn) (xs : List Conn) {rest : List Conn}
    → without Conn_discrete u (of_endpoint u.endpoint_id xs) ≡ some rest
    → of_endpoint u.endpoint_id (drop_conn u xs) ≡ rest
unfolding of_endpoint drop_conn without
of_endpoint-drop u [] gone = absurd (ground (arith, gone))
of_endpoint-drop u (x ∷ xs) {rest} gone = elim (Conn_discrete x u) [
  | yes p ↦
      let here = of-here u.endpoint_id x xs (ap (λ (c : Conn). c.endpoint_id) p) in
      let gone' = subst (λ ys. without Conn_discrete u ys ≡ some rest) here gone in
      drop_of-same u x xs p gone'
  | no other ↦ elim (str_dec x.endpoint_id u.endpoint_id) [
    | no nq ↦
        let gone' =
          subst (λ ys. without Conn_discrete u ys ≡ some rest) (of-other u.endpoint_id x xs nq)
            gone in
        rw (drop-other u x xs other)
          (of-other u.endpoint_id x (drop_conn u xs) nq ∙ of_endpoint-drop u xs gone')
    | yes q ↦
        let gone' =
          subst (λ ys. without Conn_discrete u ys ≡ some rest) (of-here u.endpoint_id x xs q)
            gone in
        let (others, gone'', split) =
          without-other u x (of_endpoint u.endpoint_id xs) other gone' in
        rw (drop-other u x xs other) (
          of-here u.endpoint_id x (drop_conn u xs) q
          ∙ ap (λ ys. x ∷ ys) (of_endpoint-drop u xs gone'')
          ∙ sym split)
  ]
]

pub AllApart-drop : (u : Conn) (cs : List Conn) → AllApart cs → AllApart (drop_conn u cs)
unfolding drop_conn
AllApart-drop u [] h = tt
AllApart-drop u (c ∷ cs) (apart, h) = elim (Conn_discrete c u) [
  | yes p ↦ subst AllApart (sym (drop-same u c cs p)) h
  | no ne ↦
      subst AllApart (sym (drop-other u c cs ne))
        ((λ m. apart (Elem-drop_conn u c cs m)), AllApart-drop u cs h)
]

-- Of connections that are apart, dropping one leaves none of it, and all others.
pub gone-drop_conn : (u : Conn) (cs : List Conn) → AllApart cs → ¬ Elem u (drop_conn u cs)
unfolding drop_conn
gone-drop_conn u [] h = λ m. m
gone-drop_conn u (c ∷ cs) (apart, h) = elim (Conn_discrete c u) [
  | yes p ↦
      λ m. apart (subst (λ d. Elem d cs) (sym p) (subst (λ ds. Elem u ds) (drop-same u c cs p) m))
  | no ne ↦ λ m. elim (subst (λ ds. Elem u ds) (drop-other u c cs ne) m) [
    | inl p ↦ ne (sym p)
    | inr later ↦ gone-drop_conn u cs h later
  ]
]

pub kept-drop_conn : (u c : Conn) (cs : List Conn) → c ≢ u → Elem c cs → Elem c (drop_conn u cs)
unfolding drop_conn
kept-drop_conn u c [] other m = absurd m
kept-drop_conn u c (d ∷ cs) other m = elim (Conn_discrete d u) [
  | yes p ↦
      subst (λ ds. Elem c ds) (sym (drop-same u d cs p))
        (elim m [ inl q ↦ absurd (other (q ∙ p)) | inr later ↦ later ])
  | no ne ↦
      subst (λ ds. Elem c ds) (sym (drop-other u d cs ne))
        (elim m [ inl q ↦ inl q | inr later ↦ inr (kept-drop_conn u c cs other later) ])
]

pub of_endpoint-Elem :
    (e : GoString) (c : Conn) (cs : List Conn) → Elem c (of_endpoint e cs) → Elem c cs
unfolding of_endpoint
of_endpoint-Elem e c [] m = absurd m
of_endpoint-Elem e c (d ∷ cs) m = elim (str_dec d.endpoint_id e) [
  | yes p ↦ elim (subst (λ ds. Elem c ds) (of-here e d cs p) m) [
    | inl q ↦ inl q
    | inr later ↦ inr (of_endpoint-Elem e c cs later)
  ]
  | no ne ↦ inr (of_endpoint-Elem e c cs (subst (λ ds. Elem c ds) (of-other e d cs ne) m))
]
