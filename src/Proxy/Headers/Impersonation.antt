-- ===== src/Proxy/Headers/Impersonation.antt =====
-- No user can choose whom the request that the director leaves impersonates.
use registration_service.Prelude.{
  ◌≡◌, refl, sym, ap, ◌∙◌, Bool, true, false, none, some, [], ◌∷◌, String, arith, eq_iff, inl, inr,
  Bool-cases, Option-cases, if◌then◌else◌, ◌==◌,
}
use registration_service.Proxy.Env.{ClusterAccess}
use registration_service.Proxy.Headers.{
  Headers, Forwarded, set, has_prefix_fold, strip_invalid_headers, with_user_agent, with_token,
  replace_token_in_websocket_request, director,
}

module _ (is_websocket : Headers → Bool) (encode : String → String) where
  -- Setting a header of another kind leaves the impersonation headers alone.
  set-other :
      (name v : String) (h : Headers) (k : String)
      → has_prefix_fold "impersonate-" name ≡ false
      → has_prefix_fold "impersonate-" k ≡ true
      → set name v h k ≡ h k
  set-other name v h k other prefixed = elim (Bool-cases (name == k)) [
    | inr differs ↦ rw differs refl
    | inl same ↦ absurd (
        ground (
          arith,
          sym other ∙ ap (has_prefix_fold "impersonate-") ((eq_iff name k).0 same) ∙ prefixed,
        ))
  ]

  with_token-other :
      (token : String) (h : Headers) (k : String)
      → has_prefix_fold "impersonate-" k ≡ true
      → with_token is_websocket encode token h k ≡ h k
  unfolding with_token replace_token_in_websocket_request has_prefix_fold
  with_token-other token h k prefixed = elim (Bool-cases (is_websocket h)) [
    | inl socket ↦ rw socket (set-other "Sec-Websocket-Protocol" _ h k refl prefixed)
    | inr plain ↦ rw plain (set-other "Authorization" _ h k refl prefixed)
  ]

  with_user_agent-other :
      (h : Headers) (k : String)
      → has_prefix_fold "impersonate-" k ≡ true
      → with_user_agent h k ≡ h k
  unfolding has_prefix_fold
  with_user_agent-other h k prefixed = elim (Option-cases (h "User-Agent")) [
    | inl missing ↦ ground (arith, missing, set-other "User-Agent" "" h k refl prefixed)
    | inr (vs, given) ↦ ground (arith, given)
  ]

  strip-none :
      (h : Headers) (k : String)
      → has_prefix_fold "impersonate-" k ≡ true
      → strip_invalid_headers h k ≡ none
  unfolding strip_invalid_headers
  strip-none h k prefixed = rw prefixed refl

  headers-director :
      (target : ClusterAccess) (username : String) (is_plugin : Bool) (req : Forwarded) (k : String)
      → (director is_websocket encode target username is_plugin req).headers k
        ≡ set "Impersonate-User" target.username
            (with_token is_websocket encode target.impersonator_token
              (with_user_agent (set "X-Sso-User" username req.headers)))
            k
  unfolding director
  headers-director target username is_plugin req k = refl

  -- However the client writes its headers: of all headers whose name starts with "impersonate-" in
  -- any case, the request that the director leaves has Impersonate-User only, with the one name of the
  -- access.
  pub director_impersonates :
      (target : ClusterAccess) (username : String) (is_plugin : Bool) (req : Forwarded) (k : String)
      → has_prefix_fold "impersonate-" k ≡ true
      → (director is_websocket encode target username is_plugin
            (record req { headers = strip_invalid_headers req.headers })).headers
          k
        ≡ (if "Impersonate-User" == k then some (target.username ∷ []) else none)
  unfolding has_prefix_fold
  director_impersonates target username is_plugin req k prefixed =
      let stripped = strip_invalid_headers req.headers in
      let named = set "X-Sso-User" username stripped in
      headers-director target username is_plugin (record req { headers = stripped }) k
      ∙ ap (λ o. if "Impersonate-User" == k then some (target.username ∷ []) else o)
          (with_token-other target.impersonator_token (with_user_agent named) k prefixed
            ∙ with_user_agent-other named k prefixed
            ∙ set-other "X-Sso-User" username stripped k refl prefixed
            ∙ strip-none req.headers k prefixed)
