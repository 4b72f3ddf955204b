-- ===== src/Tests/Servers.antt =====
-- server: a token, a request that goes from node to node, and a session.
use pico.Prelude.{
  ◌≡◌, ◌≢◌, refl, inl, GoString, codes, lookup, lookup-delete, insert, delete, values, List, [],
  ◌∷◌, Option, some, none, arith, Elem, true, false, Bool, str_dec, subst, sym,
}
use pico.Auth.{
  VerifierConfig, new_jwt_verifier, Jwt, Key, hmac_key, rsa_key, ecdsa_key, key_for, parsed,
  parse_failed, EndpointToken, verify_endpoint_token, Verified, Claims, Parsed, endpoint_permitted,
}
use pico.Cluster.State.{State, lookup_endpoint, add_local_endpoint}
use pico.Cluster.Lookup.{CanServe}
use pico.Upstream.Manager.{Conn, Manager, ManagerCall, new_manager, select, add_conn, remove_conn}
use pico.Upstream.Server.{connect}
use pico.Upstream.Agreement.{held}
use pico.Upstream.Sessions.{Session, Sessions, Holds, conns, joins}
use pico.Upstream.Connected.{Reach, here, next, fresh, sessions-Holds, sessions-end}
use pico.Proxy.{Request, Response, serve_http, header, is_forwarded, first_label}
use pico.Proxy.Hops.{
  ReverseProxy, IsReverseProxy, connection_header, serve_http-one_hop, IsLast, sent_on,
}
use pico.Tests.Routes.{two_nodes, first, joined, counting, start-Agrees, joined-Agrees, there}

-- A library that takes a token that is its key, by HS256.
abbrev has_method : List GoString → Bool
has_method [] = false
has_method (m ∷ ms) = elim (str_dec (codes "HS256") m) [ yes p ↦ true | no ne ↦ has_method ms ]

abbrev claims : Claims
claims = record { expires_at = 0; endpoints = codes "e" ∷ [] }

abbrev by_key : GoString → Option Key → Parsed
by_key token (some (hmac_key k)) = elim (str_dec token k) [
  | yes p ↦ parsed claims true
  | no ne ↦ parse_failed
]
by_key token (some (rsa_key k)) = parse_failed
by_key token (some (ecdsa_key k)) = parse_failed
by_key token none = parse_failed

abbrev jwt : Jwt
jwt token keys methods audience issuer = elim (has_method methods) [
  | true ↦ by_key token (keys (codes "HS256"))
  | false ↦ parse_failed
]

abbrev IsSigned : GoString → GoString → Key → Type 0
IsSigned token alg (hmac_key k) = token ≡ k
IsSigned token alg (rsa_key k) = ⊥
IsSigned token alg (ecdsa_key k) = ⊥

abbrev config : VerifierConfig
config = record {
  hmac_secret_key = codes "key";
  rsa_public_key = none;
  ecdsa_public_key = none;
  audience = [];
  issuer = [];
}

abbrev token : EndpointToken
token = record { expiry = 0; endpoints = codes "e" ∷ [] }

abbrev request : Request
request = record { host = codes "e.example.com"; headers = [] }

-- A reverse proxy that takes out the Connection header and the one that it names.
abbrev strip : Request → Request
strip r = record r {
  headers = delete (header r connection_header) (delete connection_header r.headers);
}

abbrev stripping : ReverseProxy
stripping = record { send = strip; listed = λ v. v ∷ []; own = connection_header ∷ [] }

stripping-IsReverseProxy : IsReverseProxy stripping
unfolding header str_dec
stripping-IsReverseProxy = record {
  host_kept = λ r. refl;
  header_kept = λ r name own listed. ground (
    arith,
    own,
    listed,
    lookup-delete (header r connection_header) name (delete connection_header r.headers),
    lookup-delete connection_header name r.headers,
  );
  forward_apart = λ m. ground (arith, m);
  endpoint_apart = λ m. ground (arith, m);
}

-- Node `a` has no connection of the endpoint and sends the request to `b`, which has one.
serve_http-one_hop_example :
    Elem there (values two_nodes.nodes)
    × CanServe (codes "a") (codes "e") there
    × (is_forwarded request ≡ false)
    × (m : Manager) × (response : Response) × (calls : List ManagerCall) × (serve_http joined
          counting
          (strip (sent_on request))
        ≡ some (m, response, calls))
    × IsLast joined (codes "e") (strip (sent_on request)) response
unfolding serve_http select header first_label lookup lookup_endpoint str_dec values
serve_http-one_hop_example =
    serve_http-one_hop new_manager two_nodes start-Agrees request (codes "e") there refl stripping
      stripping-IsReverseProxy (λ m. ground (arith, m)) (λ m. ground (arith, m)) joined counting
      joined-Agrees

abbrev verify : GoString → Verified
verify t = verify_endpoint_token jwt (new_jwt_verifier config) t

abbrev shown : Session
shown = record { conn = first; authorization = codes "Bearer key" }

one_session :
    (z : Sessions) × Reach (some verify) (fresh (some verify) two_nodes) z
    × (z.open_sessions ≡ shown ∷ [])
unfolding connect add_conn lookup str_dec endpoint_permitted verify_endpoint_token new_jwt_verifier
    key_for insert add_local_endpoint
one_session = (_, next here (joins shown _ _ _ 0 (omega arith) (λ m. m) refl), refl)

sessions-Holds_example : Holds (some verify) one_session.0
sessions-Holds_example = sessions-Holds (some verify) two_nodes start-Agrees one_session.1

sessions-end_example :
    (m : Manager) × (s : State) × (calls : List ManagerCall) × (remove_conn one_session.0.manager
        one_session.0.state first
      ≡ some (m, s, calls))
    × (¬ Elem first (held m first.endpoint_id))
    × ((c : Conn)
        → c ≢ first
        → Elem c (conns one_session.0.open_sessions)
        → Elem c (held m c.endpoint_id))
sessions-end_example =
    sessions-end (some verify) two_nodes first start-Agrees one_session.1
      (subst (λ xs. Elem first (conns xs)) (sym one_session.2) (inl refl))
