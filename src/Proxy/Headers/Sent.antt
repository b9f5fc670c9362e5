-- ===== src/Proxy/Headers/Sent.antt =====
-- Whom the request that leaves the proxy impersonates.
use registration_service.Prelude.{
  ◌≡◌, refl, sym, ap, ◌∙◌, inl, inr, Bool, true, false, not, ◌&&◌, none, some, [], ◌∷◌, String,
  List, All, any, arith, eq_iff, Bool-cases, Option-cases, if◌then◌else◌, ◌==◌,
}
use registration_service.Proxy.Env.{ClusterAccess}
use registration_service.Proxy.Headers.{
  Headers, Forwarded, set, has_prefix_fold, strip_invalid_headers, with_user_agent, with_token,
  replace_token_in_websocket_request, director,
}
use registration_service.Proxy.Headers.Impersonation.{director_impersonates}
use registration_service.Proxy.Headers.HopByHop.{
  is_connection_named, hop_headers, remove_hop_by_hop, sent_headers,
}

-- None of some names of another kind is a name that starts with "impersonate-".
none_is :
    (names : List String) (k : String)
    → All (λ name. has_prefix_fold "impersonate-" name ≡ false) names
    → has_prefix_fold "impersonate-" k ≡ true
    → any (λ name. name == k) names ≡ false
none_is [] k others prefixed = refl
none_is (name ∷ names) k (other, others) prefixed = elim (Bool-cases (name == k)) [
  | inr differs ↦ ground (arith, differs, none_is names k others prefixed)
  | inl same ↦ absurd (
      ground (
        arith,
        sym other ∙ ap (has_prefix_fold "impersonate-") ((eq_iff name k).0 same) ∙ prefixed,
      ))
]

module _ (is_websocket : Headers → Bool) (encode : String → String) where
  with_token-Connection :
      (token : String) (h : Headers)
      → with_token is_websocket encode token h "Connection" ≡ h "Connection"
  unfolding with_token replace_token_in_websocket_request
  with_token-Connection token h = elim (Bool-cases (is_websocket h)) [
    | inl socket ↦ rw socket refl
    | inr plain ↦ rw plain refl
  ]

  with_user_agent-Connection : (h : Headers) → with_user_agent h "Connection" ≡ h "Connection"
  with_user_agent-Connection h = elim (Option-cases (h "User-Agent")) [
    | inl missing ↦ ground (arith, missing)
    | inr (vs, given) ↦ ground (arith, given)
  ]

  -- The director and stripInvalidHeaders leave the Connection headers alone.
  director-Connection :
      (target : ClusterAccess) (username : String) (is_plugin : Bool) (req : Forwarded)
      → (director is_websocket encode target username is_plugin
            (record req { headers = strip_invalid_headers req.headers })).headers
          "Connection"
        ≡ req.headers "Connection"
  unfolding director strip_invalid_headers has_prefix_fold
  director-Connection target username is_plugin req =
      let named = set "X-Sso-User" username (strip_invalid_headers req.headers) in
      with_token-Connection target.impersonator_token (with_user_agent named)
      ∙ with_user_agent-Connection named

  named-Connection :
      (h h' : Headers) (k : String)
      → h "Connection" ≡ h' "Connection"
      → is_connection_named h k ≡ is_connection_named h' k
  unfolding is_connection_named
  named-Connection h h' k same = ground (arith, same)

  no_hop :
      (k : String)
      → has_prefix_fold "impersonate-" k ≡ true
      → any (λ hop. hop == k) hop_headers ≡ false
  unfolding has_prefix_fold
  no_hop k prefixed =
      none_is hop_headers k
        (refl, (refl, (refl, (refl, (refl, (refl, (refl, (refl, (refl, tt))))))))) prefixed

  -- However the client writes its headers: of all headers whose name starts with "impersonate-" in
  -- any case, the request that leaves the proxy has Impersonate-User at most, with the one name of
  -- the access; and it has that header exactly where no Connection header of the client names it.
  pub sent_impersonates :
      (target : ClusterAccess) (username : String) (is_plugin : Bool) (req : Forwarded) (k : String)
      → has_prefix_fold "impersonate-" k ≡ true
      → sent_headers is_websocket encode target username is_plugin req k ≡ (
          if "Impersonate-User" == k && not (is_connection_named req.headers k)
          then some (target.username ∷ [])
          else none)
  unfolding sent_headers remove_hop_by_hop
  sent_impersonates target username is_plugin req k prefixed =
      let d =
        director is_websocket encode target username is_plugin
          (record req { headers = strip_invalid_headers req.headers }) in
      ground (
        arith,
        named-Connection d.headers req.headers k
            (director-Connection target username is_plugin req),
        no_hop k prefixed,
        director_impersonates is_websocket encode target username is_plugin req k prefixed,
      )
