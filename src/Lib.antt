-- ===== src/Lib.antt =====
-- The registration service of the Developer Sandbox: a user signs up, proves a phone number or gives
-- an activation code, and the service records the outcome in the UserSignup resource of the host
-- cluster.
--
-- The model by file (paths from the root of the repository):
--   Errors           pkg/errors/error.go, and what the code asks of errors of the cluster
--   Configuration    pkg/configuration/configuration.go: the getters that the services read
--   Api              the resources (UserSignup, SocialEvent, BannedUser) by the fields that are
--                    used; `States` is toolchain-common's package of that name and `Client` the
--                    client of the cluster, both parameters with laws that state what they promise
--   Action           a Go function that may fail: a state of the world in, a result and a world out
--   Signup.Poll      PollUpdateSignup of pkg/signup/signup.go
--   Signup.Event     pkg/signup/socialevent.go
--   Signup.Env       what the signup service reads from a request and calls: the cluster, HTTP, JSON,
--                    the captcha assessor and toolchain-common's conditions
--   Signup.Captcha, Verifier, New, Service, Audit, Target, Status
--                    pkg/signup/service/signup_service.go: IsPhoneVerificationRequired,
--                    verifyAccount, newUserSignup, Signup with creation and reactivation,
--                    auditUserSignupAgainstClaims, GetDefaultUserTarget, DoGetSignup
--   Proxy.Members    pkg/proxy/members.go: the access to a member cluster
--   Proxy.Paths, Access, Request, Guard, Headers
--                    pkg/proxy/proxy.go: getWorkspaceContext and singleJoiningSlash; the access of a
--                    request once its path is split; processRequest; addUserContext and
--                    ensureUserIsNotBanned; stripInvalidHeaders and the director,
--                    with what httputil.ReverseProxy removes after it
--   Proxy.Lister     pkg/proxy/handlers, the space lister: Get is spacelister_get.go, with
--                    generateWorkspaceBindings in Bindings, Listing is spacelister_list.go, and
--                    Respond the two handlers; Access calls it for the workspace of a request
--   Auth             pkg/auth and pkg/middleware/jwt_middleware.go: Keys is keymanager.go, Parser is
--                    tokenparser.go, Default is defaultmanager.go, Middleware the handler
--   Proxy.Answer     pkg/proxy/proxy.go: the middleware and processRequest one after the other, and the
--                    answer of customHTTPErrorHandler to their errors
--   Proxy.Sso        pkg/proxy/proxy.go: the requests of a web login, and getTransport
--   Proxy.Bearer     pkg/proxy/proxy.go: extractUserToken, extractTokenFromWebsocketRequest
--   Controller       pkg/controller/signup.go and usernames.go: the handlers, by the answers that they
--                    have gin write, one after the other
--   Namespaces       pkg/namespaces/namespaces_manager.go (Reset) and pkg/controller/namespaces.go
--                    (Respond): the reset of a user's namespaces
--   Verification.Sender  pkg/verification/sender: the choice of the sender, and what it sends
--   Proxy.Cors       pkg/proxy/cors.go: the answer to a preflight request
--   Verification     pkg/verification/service/verification_service.go: Env is what the service is
--                    built from (its fields and the libraries it calls), Phone is
--                    PhoneNumberAlreadyInUse, Verify is VerifyPhoneCode, Code is
--                    generateVerificationCode, Init is InitVerification and performPhoneLookup,
--                    Activation is VerifyActivationCode, and Activation.NewUser puts the signup
--                    service in place of the interface that Env has for it
--   Text, Prelude    strings, decimal numbers (strconv.Itoa and Atoi), integers, lists
--   Tests            a concrete cluster with the inputs at which the theorems are applied
--
-- State is explicit. `Client S W` works on a world `W`, and every call of it may see a world that
-- another actor has changed: no theorem assumes that a read returns what was written before. The
-- closures of the source that change local variables (VerifyActivationCode) carry these variables
-- in a record beside the world.
--
-- Bounds and fuel: PollUpdateSignup runs its loop on five rounds of fuel, as it gives up after the
-- fifth call, so the fuel cannot run out (Signup.Poll compares it with a structural loop).
-- Go's int is modelled by the integers between -2^63 and 2^63 - 1: Atoi refuses a text outside, and
-- an increment wraps.
--
-- The verification service calls the signup service for an unknown user (VerifyActivationCode), and
-- the proxy calls GetSignup before it grants an access; the closure of GetSignup sets a variable
-- that outlives a failed try, which Signup.Status carries beside the world.
--
-- Not modelled: HTTP and gin, logging, metrics, the wire formats of the SMS gateways, the JWT
-- library, the cluster's API server. A nil map of annotations or labels is the empty one.
pub mod Prelude
pub mod Text
pub mod Errors
pub mod Action
pub mod Api
pub mod Signup
pub mod Configuration
pub mod Verification
pub mod Proxy
pub mod Controller
pub mod Auth
pub mod Namespaces
mod Tests
