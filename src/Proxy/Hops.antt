-- ===== src/Proxy/Hops.antt =====
-- server/proxy/httpproxy.go with server/upstream/manager.go: a request from node to node.
use pico.Prelude.{
  ◌≡◌, ◌≢◌, refl, ◌⊎◌, inl, inr, GoString, codes, lookup, lookup-insert, values, ap, Bool, true,
  false, not, List, [], ◌∷◌, Option, none, some, str_dec, arith, Elem, Option-cases, sym, subst,
  ◌∙◌,
}
use pico.Cluster.State.{State}
use pico.Cluster.Types.{Node}
use pico.Cluster.Lookup.{CanServe}
use pico.Upstream.Manager.{Manager, ManagerCall, Upstream, Conn, conn, node}
use pico.Upstream.Agreement.{Agrees, held}
use pico.Upstream.Routing.{IsRoute, select-IsRoute}
use pico.Proxy.{
  Request, Response, first_label, replied, proxied, header, set_header, endpoint_header,
  forward_header, endpoint_id_from_request, serve_with_upstream, is_forwarded, serve_http, tunneled,
  upgrade_failed,
}

abbrev pub sent_on : Request → Request
sent_on r = set_header r forward_header (codes "true")

-- A request that is sent on names the same endpoint, and tells that it was.
endpoint_id-sent_on :
    (r : Request) → endpoint_id_from_request (sent_on r) ≡ endpoint_id_from_request r
unfolding endpoint_id_from_request header str_dec
endpoint_id-sent_on r =
    let same : lookup endpoint_header (sent_on r).headers ≡ lookup endpoint_header r.headers =
      lookup-insert forward_header endpoint_header (codes "true") r.headers in
    cc same

is_forwarded-sent_on : (r : Request) → is_forwarded (sent_on r) ≡ true
unfolding is_forwarded header str_dec
is_forwarded-sent_on r =
    let set : lookup forward_header (sent_on r).headers ≡ some (codes "true") =
      lookup-insert forward_header forward_header (codes "true") r.headers in
    cc set

abbrev pub connection_header : GoString
connection_header = codes "connection"

-- `httputil.ReverseProxy`: the request that the upstream gets for the one that it is handed; the
-- names that a Connection header lists; and the names of the hop-by-hop headers, and of those that
-- the proxy sets.
pub record ReverseProxy : Type 0 where
  pub send : Request → Request
  pub listed : GoString → List GoString
  pub own : List GoString

-- It keeps the host, and every header but its own and those that the Connection header lists. Those
-- of this program are not among its own.
pub record IsReverseProxy (p : ReverseProxy) : Type 0 where
  pub host_kept : (r : Request) → (p.send r).host ≡ r.host
  pub header_kept :
      (r : Request) (name : GoString)
      → ¬ Elem name p.own
      → ¬ Elem name (p.listed (header r connection_header))
      → header (p.send r) name ≡ header r name
  pub forward_apart : ¬ Elem forward_header p.own
  pub endpoint_apart : ¬ Elem endpoint_header p.own

connection-sent_on :
    (r : Request) → header (sent_on r) connection_header ≡ header r connection_header
unfolding header str_dec
connection-sent_on r =
    let same : lookup connection_header (sent_on r).headers ≡ lookup connection_header r.headers =
      lookup-insert forward_header connection_header (codes "true") r.headers in
    cc same

abbrev endpoint_from : GoString → GoString → GoString
endpoint_from value host = elim value [
  | [] ↦ elim (first_label host) [ none ↦ [] | some label ↦ label ]
  | c ∷ s ↦ c ∷ s
]

abbrev is_mark : GoString → Bool
is_mark value = elim (str_dec value (codes "true")) [ yes p ↦ true | no ne ↦ false ]

same-endpoint_id :
    (r r' : Request)
    → r'.host ≡ r.host
    → header r' endpoint_header ≡ header r endpoint_header
    → endpoint_id_from_request r' ≡ endpoint_id_from_request r
unfolding endpoint_id_from_request
same-endpoint_id r r' host named = λ i. endpoint_from (named i) (host i)

same-is_forwarded :
    (r r' : Request)
    → header r' forward_header ≡ header r forward_header
    → is_forwarded r' ≡ is_forwarded r
unfolding is_forwarded
same-is_forwarded r r' mark = ap is_mark mark

-- What is done with a request of a given endpoint.
abbrev pub IsServed : Manager → State → GoString → Bool → Request → Response → Type 0
IsServed m s e allow_remote r (replied status message) =
    (status ≡ 502) × (message ≡ codes "no available upstreams") × IsRoute m s e allow_remote none
IsServed m s e allow_remote r (proxied e' u r') =
    (e' ≡ e) × (r' ≡ sent_on r) × IsRoute m s e allow_remote (some u)
IsServed m s e allow_remote r _ = ⊥

serve_http-IsServed :
    (m : Manager) (s : State) (r : Request) (e : GoString)
    → Agrees m s
    → endpoint_id_from_request r ≡ e
    → e ≢ []
    → (m' : Manager) × (response : Response) × (calls : List ManagerCall) × (serve_http m s r
        ≡ some (m', response, calls))
      × IsServed m s e (not (is_forwarded r)) r response
unfolding serve_http serve_with_upstream
serve_http-IsServed m s r [] h named given = absurd (given refl)
serve_http-IsServed m s r (c ∷ id) h named given =
    let (m', route, calls, selected, at) = select-IsRoute m s h (c ∷ id) (not (is_forwarded r)) in
    elim (Option-cases route) [
      | inl nothing ↦ (
        m',
        replied 502 (codes "no available upstreams"),
        calls,
        cc (named, selected, nothing),
        (refl, refl, subst (λ x. IsRoute m s (c ∷ id) (not (is_forwarded r)) x) nothing at),
      )
      | inr (u, found) ↦ (
        m',
        proxied (c ∷ id) u (sent_on r),
        calls,
        cc (named, selected, found),
        (refl, refl, subst (λ x. IsRoute m s (c ∷ id) (not (is_forwarded r)) x) found at),
      )
    ]

-- A request without an endpoint is not sent on.
proxied-named :
    (m : Manager) (s : State) (r r' : Request) (e : GoString) (u : Option Upstream) {m' : Manager}
    {calls : List ManagerCall}
    → serve_http m s r ≡ some (m', proxied e u r', calls)
    → endpoint_id_from_request r ≢ []
unfolding serve_http
proxied-named m s r r' e u done = λ missing. absurd (ground (arith, done, missing))

-- The answer of a node that was sent a request of an endpoint.
abbrev pub IsLast : Manager → GoString → Request → Response → Type 0
IsLast m e r response =
    ((held m e ≡ []) × (response ≡ replied 502 (codes "no available upstreams")))
    ⊎ ((c : Conn) × Elem c (held m e) × (response ≡ proxied e (some (conn c)) (sent_on r)))

served-IsLast :
    (m : Manager) (s : State) (e : GoString) (r : Request) (response : Response)
    → IsServed m s e false r response
    → IsLast m e r response
served-IsLast m s e r (replied status message) (bad, text, (empty, nowhere)) =
    inl (empty, cc (bad, text))
served-IsLast m s e r (proxied e' none r') (same, sent, at) = absurd at
served-IsLast m s e r (proxied e' (some (conn c)) r') (same, sent, at) =
    inr (c, at, cc (same, sent))
served-IsLast m s e r (proxied e' (some (node e'' n)) r')
      (same, sent, (named, allowed, empty, known, can)) =
    absurd (ground (arith, allowed))
served-IsLast m s e r (tunneled u) at = absurd at
served-IsLast m s e r upgrade_failed at = absurd at

module _ (m : Manager) (s : State) (h : Agrees m s) (r : Request) (e : GoString) (n : Node)
    {e' : GoString} {r' : Request} {m' : Manager} {calls : List ManagerCall}
    (sent : serve_http m s r ≡ some (m', proxied e (some (node e' n)) r', calls)) where
  -- What is sent to another node.
  sent-node :
      (endpoint_id_from_request r ≡ e)
      × (r' ≡ sent_on r)
      × (is_forwarded r ≡ false)
      × Elem n (values s.nodes)
      × CanServe s.local_id e n
  sent-node =
      let named = proxied-named m s r r' e (some (node e' n)) sent in
      let (m'', response, calls', done, at) =
        serve_http-IsServed m s r (endpoint_id_from_request r) h refl named in
      let same : response ≡ proxied e (some (node e' n)) r' = ground (arith, sent, done) in
      let (id, on, (id', allowed, empty, known, can)) =
        subst (IsServed m s (endpoint_id_from_request r) (not (is_forwarded r)) r) same at in
      (
        sym id,
        on,
        ground (arith, allowed),
        known,
        subst (λ x. CanServe s.local_id x n) (sym id) can,
      )

  module _ (p : ReverseProxy) (law : IsReverseProxy p)
      (mark_kept : ¬ Elem forward_header (p.listed (header r connection_header)))
      (name_kept : ¬ Elem endpoint_header (p.listed (header r connection_header))) where
    -- What the other node gets.
    got-node : (endpoint_id_from_request (p.send r') ≡ e) × (is_forwarded (p.send r') ≡ true)
    got-node =
        let (id, on, first, known, can) = sent-node in
        let listed =
          λ (name : GoString) (apart : ¬ Elem name (p.listed (header r connection_header))).
            subst (λ h. ¬ Elem name (p.listed h)) (sym (connection-sent_on r)) apart in
        let mark =
          law.header_kept (sent_on r) forward_header law.forward_apart
            (listed forward_header mark_kept) in
        let name =
          law.header_kept (sent_on r) endpoint_header law.endpoint_apart
            (listed endpoint_header name_kept) in
        subst (λ x. (endpoint_id_from_request (p.send x) ≡ e) × (is_forwarded (p.send x) ≡ true))
          (sym on)
          (
            same-endpoint_id (sent_on r) (p.send (sent_on r)) (law.host_kept (sent_on r)) name
                ∙ endpoint_id-sent_on r
                ∙ id,
            same-is_forwarded (sent_on r) (p.send (sent_on r)) mark ∙ is_forwarded-sent_on r,
          )

    -- Let the reverse proxy keep the host and every header but its own and those that the
    -- Connection header lists, and let the request's Connection header list neither of the
    -- program's two headers. If a node whose connections agree with its counts sends the request
    -- on to another node, then the request was not sent on before, and the node is one of those
    -- it knows, and serves the endpoint; and the node that gets it, if its connections agree with
    -- its counts, does not panic and sends it to no further node: it goes to a connection that is
    -- held for the same endpoint, or the reply is 502 because there is none.
    pub serve_http-one_hop :
        (m₂ : Manager) (s₂ : State)
        → Agrees m₂ s₂
        → Elem n (values s.nodes)
          × CanServe s.local_id e n
          × (is_forwarded r ≡ false)
          × (m₂' : Manager) × (response : Response) × (calls₂ : List ManagerCall) × (serve_http m₂
                s₂
                (p.send r')
              ≡ some (m₂', response, calls₂))
          × IsLast m₂ e (p.send r') response
    serve_http-one_hop m₂ s₂ h₂ =
        let (id, on, first, known, can) = sent-node in
        let (id', marked) = got-node in
        let named = proxied-named m s r r' e (some (node e' n)) sent in
        let (m₂', response, calls₂, done, at) =
          serve_http-IsServed m₂ s₂ (p.send r') e h₂ id' (subst (λ x. x ≢ []) id named) in
        let forwarded : not (is_forwarded (p.send r')) ≡ false = cc marked in
        (
          known,
          can,
          first,
          m₂',
          response,
          calls₂,
          done,
          served-IsLast m₂ s₂ e (p.send r') response
              (subst (λ b. IsServed m₂ s₂ e b (p.send r') response) forwarded at),
        )
