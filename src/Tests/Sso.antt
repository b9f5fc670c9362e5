-- ===== src/Tests/Sso.antt =====
-- The theorem on web logins at a concrete configuration.
use registration_service.Prelude.{none, some, Option, String}
use registration_service.Text.{strip_prefix?}
use registration_service.Errors.{plain}
use registration_service.Action.{Result, ok, err}
use registration_service.Proxy.Env.{Url}
use registration_service.Proxy.Headers.{Forwarded}
use registration_service.Proxy.Sso.{SsoSpec, SsoAnswer, proxied_to_sso, sso_base_url}

abbrev url_of : Option String → Result Url
url_of none = err (plain "no such server")
url_of (some p) = ok (record { scheme = "https"; host = "sso"; path = p; raw_query = "" })

-- A parser that knows one server.
abbrev parse_url : String → Result Url
parse_url s = url_of (strip_prefix? "https://sso" s)

abbrev one_server : SsoSpec
one_server = record { sso_base_url = some "https://sso"; sso_realm = some "sandbox" }

abbrev login : Forwarded
login = record {
  url = record { scheme = "https"; host = "proxy"; path = "/auth/token"; raw_query = "a=b" };
  host = "proxy";
  headers = λ k. none;
}

abbrev sso : Url
sso = record { scheme = "https"; host = "sso"; path = ""; raw_query = "" }

abbrev sent : SsoAnswer
sent = proxied_to_sso (record {
  url = record { scheme = "https"; host = "sso"; path = "/auth/token"; raw_query = "a=b" };
  host = "sso";
  headers = λ k. none;
})
