-- ===== src/Proxy/Paths/RoundTrip.antt =====
-- getWorkspaceContext reads back the path that names a plugin and a workspace.
use registration_service.Prelude.{◌≡◌, refl, sym, ap, ◌∙◌, true, false, ◌∷◌, String, arith}
use registration_service.Text.{◌⧺◌, cons-⧺, ⧺_assoc, split, has_prefix, trim_prefix, strip_prefix?}
use registration_service.Action.{ok}
use registration_service.Proxy.Paths.{
  split_plugin, split_workspace, then_workspace, get_workspace_context,
}
use registration_service.Proxy.Paths.Split.{
  has_no_slash, split_slash, split_below, split_some, has_prefix-⧺, trim_prefix-⧺,
}

abbrev below : String → String → String
below workspace rest = "/workspaces/" ⧺ workspace ⧺ "/" ⧺ rest

split-below :
    (ws rest : String)
    → has_no_slash ws ≡ true
    → split b'/' (below ws rest) ≡ "" ∷ "workspaces" ∷ ws ∷ split b'/' rest
unfolding has_no_slash
split-below ws rest h =
    ap (split b'/') (
      ⧺_assoc ("/" ⧺ "workspaces") "/" (ws ⧺ "/" ⧺ rest)
      ∙ ⧺_assoc "/" "workspaces" ("/" ⧺ ws ⧺ "/" ⧺ rest))
    ∙ split_below "workspaces" (ws ⧺ "/" ⧺ rest) refl
    ∙ ap (λ x. "" ∷ "workspaces" ∷ x) (split_slash ws rest h)

trim-below : (ws rest : String) → trim_prefix (below ws rest) ("/workspaces/" ⧺ ws) ≡ "/" ⧺ rest
trim-below ws rest =
    ap (λ x. trim_prefix x ("/workspaces/" ⧺ ws)) (sym (⧺_assoc "/workspaces/" ws ("/" ⧺ rest)))
    ∙ trim_prefix-⧺ ("/workspaces/" ⧺ ws) ("/" ⧺ rest)

module _ (quote : String → String) where
  split_workspace-below :
      (plugin ws rest : String)
      → has_no_slash ws ≡ true
      → split_workspace quote plugin (below ws rest)
        ≡ ok (record { plugin = plugin; workspace = ws; path = "/" ⧺ rest })
  unfolding split_workspace
  split_workspace-below plugin ws rest h = ground (
    arith,
    has_prefix-⧺ "/workspaces/" (ws ⧺ "/" ⧺ rest),
    split-below ws rest h,
    split_some rest,
    trim-below ws rest,
  )

  no_plugin : (ws rest : String) → has_prefix (below ws rest) "/plugins/" ≡ false
  unfolding has_prefix strip_prefix?
  no_plugin ws rest =
      let tail = ws ⧺ "/" ⧺ rest in
      ap (λ x. has_prefix x "/plugins/")
        (cons-⧺ "/" "workspaces/" tail ∙ ap (String.◌∷◌ "/") (cons-⧺ "w" "orkspaces/" tail))
      ∙ refl

  abbrev plugin_path : String → String → String → String
  plugin_path plugin ws rest = "/plugins/" ⧺ plugin ⧺ below ws rest

  split-plugin_path :
      (plugin ws rest : String)
      → has_no_slash plugin ≡ true
      → split b'/' (plugin_path plugin ws rest)
        ≡ "" ∷ "plugins" ∷ plugin ∷ split b'/' ("workspaces/" ⧺ ws ⧺ "/" ⧺ rest)
  unfolding has_no_slash
  split-plugin_path plugin ws rest h =
      let tail = "workspaces/" ⧺ ws ⧺ "/" ⧺ rest in
      ap (λ x. split b'/' ("/plugins/" ⧺ plugin ⧺ x)) (⧺_assoc "/" "workspaces/" (ws ⧺ "/" ⧺ rest))
      ∙ ap (split b'/') (
          ⧺_assoc ("/" ⧺ "plugins") "/" (plugin ⧺ "/" ⧺ tail)
          ∙ ⧺_assoc "/" "plugins" ("/" ⧺ plugin ⧺ "/" ⧺ tail))
      ∙ split_below "plugins" (plugin ⧺ "/" ⧺ tail) refl
      ∙ ap (λ x. "" ∷ "plugins" ∷ x) (split_slash plugin tail h)

  trim-plugin_path :
      (plugin ws rest : String)
      → trim_prefix (plugin_path plugin ws rest) ("/" ⧺ "plugins" ⧺ "/" ⧺ plugin) ≡ below ws rest
  trim-plugin_path plugin ws rest =
      ap (λ x. trim_prefix x ("/" ⧺ "plugins" ⧺ "/" ⧺ plugin))
        (⧺_assoc ("/" ⧺ "plugins") "/" (plugin ⧺ below ws rest)
          ∙ ⧺_assoc "/" "plugins" ("/" ⧺ plugin ⧺ below ws rest)
          ∙ ap (λ x. "/" ⧺ "plugins" ⧺ x) (sym (⧺_assoc "/" plugin (below ws rest)))
          ∙ ap (λ x. "/" ⧺ x) (sym (⧺_assoc "plugins" ("/" ⧺ plugin) (below ws rest)))
          ∙ sym (⧺_assoc "/" ("plugins" ⧺ "/" ⧺ plugin) (below ws rest)))
      ∙ trim_prefix-⧺ ("/" ⧺ "plugins" ⧺ "/" ⧺ plugin) (below ws rest)

  split_plugin-plugin_path :
      (plugin ws rest : String)
      → has_no_slash plugin ≡ true
      → split_plugin quote (plugin_path plugin ws rest) ≡ ok (plugin, below ws rest)
  unfolding split_plugin
  split_plugin-plugin_path plugin ws rest h = ground (
    arith,
    has_prefix-⧺ "/plugins/" (plugin ⧺ below ws rest),
    split-plugin_path plugin ws rest h,
    split_some ("workspaces/" ⧺ ws ⧺ "/" ⧺ rest),
    trim-plugin_path plugin ws rest,
  )

  split_plugin-below :
      (ws rest : String) → split_plugin quote (below ws rest) ≡ ok ("", below ws rest)
  unfolding split_plugin
  split_plugin-below ws rest = rw (no_plugin ws rest) refl

  -- For a plugin and a workspace without a slash in their names: the path
  -- /workspaces/<workspace>/<rest> is read as that workspace, with and without
  -- /plugins/<plugin> before it, and the request goes on with the path /<rest>.
  pub context_round_trip :
      (plugin ws rest : String)
      → has_no_slash plugin ≡ true
      → has_no_slash ws ≡ true
      → (get_workspace_context quote ("/workspaces/" ⧺ ws ⧺ "/" ⧺ rest)
          ≡ ok (record { plugin = ""; workspace = ws; path = "/" ⧺ rest }))
        × (get_workspace_context quote ("/plugins/" ⧺ plugin ⧺ "/workspaces/" ⧺ ws ⧺ "/" ⧺ rest)
            ≡ ok (record { plugin = plugin; workspace = ws; path = "/" ⧺ rest }))
  unfolding get_workspace_context
  context_round_trip plugin ws rest h1 h2 = (
    ap (then_workspace quote) (split_plugin-below ws rest) ∙ split_workspace-below "" ws rest h2,
    ap (then_workspace quote) (split_plugin-plugin_path plugin ws rest h1)
        ∙ split_workspace-below plugin ws rest h2,
  )
