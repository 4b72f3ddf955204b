-- ===== src/Proxy.antt =====
-- server/proxy/httpproxy.go and tcpproxy.go: what the proxies do with a request. A header is read
-- and set by its name in lower case; one that is not there reads as the empty string.
use pico.Prelude.{
  ℕ, GoString, codes, GoMap, lookup, insert, Bool, true, false, not, List, [], ◌∷◌, Option, none,
  some, str_dec, ◌==◌, if◌then◌else◌, ◌>>=◌,
}
use pico.Cluster.State.{State}
use pico.Upstream.Manager.{Manager, ManagerCall, Upstream, conn, node, forward, select}
pub mod Hops

pub record Request : Type 0 where
  pub host : GoString
  pub headers : GoMap GoString

-- `r.Header.Get`
unfoldable pub header : Request → GoString → GoString
header r name = elim (lookup name r.headers) [ none ↦ [] | some value ↦ value ]

-- `r.Header.Set`
abbrev pub set_header : Request → GoString → GoString → Request
set_header r name value = record r { headers = insert name value r.headers }

abbrev pub endpoint_header : GoString
endpoint_header = codes "x-piko-endpoint"

abbrev pub forward_header : GoString
forward_header = codes "x-piko-forward"

-- `strings.Split(host, ".")[0]` for a host that contains a dot; `none` for one that does not.
unfoldable pub first_label : GoString → Option GoString
first_label [] = none
first_label (c ∷ s) = elim (c == 46) [
  | true ↦ some []
  | false ↦ elim (first_label s) [ none ↦ none | some label ↦ some (c ∷ label) ]
]

-- `EndpointIDFromRequest`
unfoldable pub endpoint_id_from_request : Request → GoString
unfolding header first_label
endpoint_id_from_request r = elim (header r endpoint_header) [
  | [] ↦ elim (first_label r.host) [ none ↦ [] | some label ↦ label ]
  | c ∷ s ↦ c ∷ s
]

-- What a proxy does with a request: it replies with a status and a message; or hands it to the
-- reverse proxy with an upstream, which may be nil; or connects the client to a stream of the
-- upstream.
pub data Response : Type 0 where
  replied : ℕ → GoString → Response
  proxied : GoString → Option Upstream → Request → Response
  tunneled : Upstream → Response
  upgrade_failed : Response

-- `ServeHTTPWithUpstream`; the timeout of the request is the reverse proxy's matter.
unfoldable pub serve_with_upstream : Request → GoString → Option Upstream → Response
serve_with_upstream r endpoint_id u =
    proxied endpoint_id u (set_header r forward_header (codes "true"))

-- `r.Header.Get("x-piko-forward") == "true"`
unfoldable pub is_forwarded : Request → Bool
unfolding header
is_forwarded r = elim (str_dec (header r forward_header) (codes "true")) [
  | yes p ↦ true
  | no ne ↦ false
]

-- `HTTPProxy.ServeHTTP`
unfoldable pub serve_http :
    Manager → State → Request → Option (Manager × Response × List ManagerCall)
unfolding endpoint_id_from_request is_forwarded serve_with_upstream
serve_http m s r = elim (endpoint_id_from_request r) [
  | [] ↦ some (m, replied 400 (codes "missing endpoint id"), [])
  | c ∷ id ↦ do
    (m', route, calls) ← select m s (c ∷ id) (not (is_forwarded r))
    elim route [
      | none ↦ some (m', replied 502 (codes "no available upstreams"), calls)
      | some u ↦ some (m', serve_with_upstream r (c ∷ id) u, calls)
    ]
]

-- `errorHandler`, by whether the error is a deadline's.
unfoldable pub handle_error : Bool → Response
handle_error deadline_exceeded =
    if deadline_exceeded
    then replied 504 (codes "upstream timeout")
    else replied 502 (codes "upstream unreachable")

-- `TCPProxy.ServeHTTP`, by whether `Dial` and `Upgrade` succeed. A nil upstream panics.
unfoldable pub serve_tcp :
    (dial : Upstream → Bool)
    → (upgrade : Bool) → Manager
    → State
    → Request
    → GoString
    → Option (Manager × Response × List ManagerCall)
unfolding is_forwarded serve_with_upstream
serve_tcp dial upgrade m s r endpoint_id = do
  (m', route, calls) ← select m s endpoint_id (not (is_forwarded r))
  elim route [
    | none ↦ some (m', replied 502 (codes "no available upstreams"), calls)
    | some none ↦ none
    | some (some u) ↦ some (
      m',
      (if forward u then serve_with_upstream r endpoint_id (some u) else elim (dial u) [
        | false ↦ replied 502 (codes "upstream unreachable")
        | true ↦ elim upgrade [ true ↦ tunneled u | false ↦ upgrade_failed ]
      ]),
      calls,
    )
  ]
