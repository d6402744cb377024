-- ===== src/Extension/Routing/Chromium.antt =====
-- packages/extension/src/browser-routing.ts: the routing that is installed in Chromium's proxy settings and
-- read back from them. The browser is a parameter: what the settings are after a `set`.
pub mod ReadBack
use warren_sdk_ts.Prelude.{
  ℕ, List, [], ◌∷◌, Option, none, some, Bool, true, false, not, ◌&&◌, ◌⊎◌, inl, inr, ◌==◌,
  if◌then◌else◌,
}
use warren_sdk_ts.Split.{Text, equal, SplitTunnelConfig}
use warren_sdk_ts.Extension.Values.{
  ProxyValue, build_chromium_lockdown_value, build_chromium_ingress_value, is_lockdown_value,
  ingress_host_from_value,
}
use warren_sdk_ts.Extension.Routing.{RoutingState}

pub data LevelOfControl : Type 0 where
  controllable_by_this_extension controlled_by_this_extension : LevelOfControl
  controlled_by_other_extensions not_controllable : LevelOfControl

pub record ProxySettings : Type 0 where
  pub value : ProxyValue
  pub level_of_control : LevelOfControl

abbrev pub controllable : LevelOfControl → Bool
controllable controllable_by_this_extension = true
controllable controlled_by_this_extension = true
controllable controlled_by_other_extensions = false
controllable not_controllable = false

abbrev pub is_ours : LevelOfControl → Bool
is_ours controlled_by_this_extension = true
is_ours controllable_by_this_extension = false
is_ours controlled_by_other_extensions = false
is_ours not_controllable = false

pub data Installed : Type 0 where
  installed proxy_uncontrollable : Installed

-- What `readChromiumRouting` returns. An empty host is left out.
pub record ReadRouting : Type 0 where
  pub controlled : Bool
  pub ours : Bool
  pub lockdown : Bool
  pub host : Option Text

abbrev pub is_host : Option Text → Text → Bool
is_host none expected = false
is_host (some host) expected = equal host expected

abbrev pub shown_host : Option Text → Option Text
shown_host none = none
shown_host (some []) = none
shown_host (some (c ∷ cs)) = some (c ∷ cs)

unfoldable pub read_chromium_routing : ProxySettings → Text → ReadRouting
unfolding equal is_lockdown_value ingress_host_from_value
read_chromium_routing settings expected = record {
  controlled = controlled;
  ours = controlled && is_host host expected;
  lockdown = lockdown;
  host = shown_host host;
}
  where
    controlled : Bool
    controlled = is_ours settings.level_of_control

    lockdown : Bool
    lockdown = controlled && is_lockdown_value settings.value

    host : Option Text
    host = if lockdown then none else ingress_host_from_value settings.value

module _ (lower : Text → Text) (browser_set : ProxySettings → ProxyValue → ProxySettings) where
  -- An ingress routing, or the exempt hosts of a lockdown
  abbrev pub chromium_value_of : RoutingState ⊎ List Text → ProxyValue
  chromium_value_of (inl state) = build_chromium_ingress_value lower state.endpoint state.split
  chromium_value_of (inr exempt) = build_chromium_lockdown_value exempt

  unfoldable pub install_chromium_routing :
      ProxySettings → RoutingState ⊎ List Text → ProxySettings × Installed
  unfolding build_chromium_ingress_value build_chromium_lockdown_value
  install_chromium_routing before state =
      if not (controllable before.level_of_control)
      then (before, proxy_uncontrollable)
      else let after : ProxySettings = browser_set before (chromium_value_of state) in
        if not (is_ours after.level_of_control)
        then (after, proxy_uncontrollable)
        else (after, installed)
