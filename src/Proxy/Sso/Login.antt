-- ===== src/Proxy/Sso/Login.antt =====
-- Where the requests of a web login go.
use registration_service.Prelude.{◌≡◌}
use registration_service.Proxy.Env.{Url}
use registration_service.Proxy.Headers.{Forwarded}
use registration_service.Proxy.Sso.{SsoAnswer, proxied_to_sso, redirected}

abbrev SameServer : Url → Url → Type 0
SameServer base u = (u.scheme ≡ base.scheme) × (u.host ≡ base.host)

-- The request goes to the server of a URL with the headers that it has, or the client is sent there
-- with the path and the query that it asked for.
unfoldable pub ToServer : Url → Forwarded → SsoAnswer → Type 0
ToServer base req (proxied_to_sso f) =
    SameServer base f.url × (f.host ≡ base.host) × (f.headers ≡ req.headers)
ToServer base req (redirected code u) =
    (code ≡ 303) × SameServer base u × (u.path ≡ req.url.path) × (u.raw_query ≡ req.url.raw_query)
