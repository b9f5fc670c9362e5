-- ===== src/Namespaces/Respond.antt =====
-- pkg/controller/namespaces.go: the answer to a reset.
use registration_service.Errors.{Err, plain, not_found, bad_request, internal_server_error}
use registration_service.Action.{Result, ok, err}
use registration_service.Api.{Claims}
use registration_service.Controller.Answer.{Answer, status, abort_with_error}
use registration_service.Namespaces.Reset.{
  Manager, ResetOutcome, finished, not_found_or_deactivated, no_provisioned_namespaces,
  reset_namespaces,
}

-- ErrNamespaceReset
abbrev namespace_reset_error : Err
namespace_reset_error = plain "namespace reset error"

abbrev pub reset_answer : Result ResetOutcome → Answer (Unit {0})
reset_answer (ok finished) = status 202
reset_answer (ok not_found_or_deactivated) =
    abort_with_error not_found namespace_reset_error
      "The user is either not found or deactivated. Please contact the Developer Sandbox team at devsandbox@redhat.com for assistance"
reset_answer (ok (no_provisioned_namespaces cluster set)) =
    abort_with_error bad_request namespace_reset_error
      "No namespaces provisioned, unable to perform reset. Please try again in a while and if the issue persists, please contact the Developer Sandbox team at devsandbox@redhat.com for assistance"
reset_answer (err e) =
    abort_with_error internal_server_error namespace_reset_error
      "Unable to reset your namespaces. Please try again in a while and if the issue persists, please contact the Developer Sandbox team at devsandbox@redhat.com for assistance"

module _ {S W F : Type 0} (manager : Manager S W F) where
  unfoldable pub handle_reset_namespaces : Claims → W → Answer (Unit {0}) × W
  unfolding reset_namespaces abort_with_error
  handle_reset_namespaces claims w =
      let (r, w') = reset_namespaces manager claims w in (reset_answer r, w')
