-- ===== src/Routes/Guards.antt =====
-- routes/guards.go: the guards that the configuration declares.
pub mod Apart
use goravel_authkit.Base.{
  ℕ, Bool, List, [], ◌∷◌, map, Option, none, some, is_empty, if◌then◌else◌, first,
}
use goravel_authkit.Text.{Str, lit, str_eq}
use goravel_authkit.Services.ApiTokens.Scopes.{sort_strings}
use goravel_authkit.Routes.{Options}
use goravel_authkit.Routes.Config.{Config, options_from_config, options_for_guard}
use goravel_authkit.Routes.Table.{
  Layer, Route, register, protect, protect_role, protect_token, protect_any,
}

module _ (cfg : Config) where
  unfoldable pub guard_config_names : List Str
  guard_config_names = sort_strings (cfg.keys (lit "authkit.guards"))

  unfoldable pub guard_options : List Options
  unfolding guard_config_names
  guard_options =
      if is_empty guard_config_names
      then options_from_config cfg ∷ []
      else map (options_for_guard cfg) guard_config_names

  abbrev pub or_declared : (name : Str) → Option Options → Options
  or_declared name none = options_for_guard cfg name
  or_declared name (some o) = o

  unfoldable pub options_by_guard : (name : Str) → Options
  unfolding guard_options
  options_by_guard name = or_declared name (first (λ o. str_eq o.guard name) guard_options)

  -- RegisterAll: the routes of each guard.
  unfoldable pub register_all : List (List Route)
  unfolding guard_options register
  register_all = map register guard_options
