-- ===== src/FullCapture/Route.antt =====
-- The route policy of full_capture.py.
use discord_context_bridge.Shared.{
  List, [], ◌∷◌, String, ℕ, Bool, ◌≡◌, Dict, strip, if◌then◌else◌, codes_eq, codes, ◌||◌, lower,
  refl,
}

pub record RoutePolicy : Type 0 where
  pub route : List ℕ
  pub primary_read : String
  pub scroll_target : String
  pub scroll_order : List String
  pub approval_required_fallbacks : List String
  pub boundary_checks : List String

abbrev route_aliases : Dict String
route_aliases =
    ("iab", "in_app_browser")
    ∷ ("browser", "in_app_browser")
    ∷ ("internal_browser", "in_app_browser")
    ∷ ("chrome", "chrome_extension")
    ∷ ("extension", "chrome_extension")
    ∷ ("rest", "rest_backfill")
    ∷ ("api", "rest_backfill")
    ∷ ("saved", "saved_artifacts")
    ∷ ("cache", "saved_artifacts")
    ∷ ("desktop", "discord_desktop_accessibility")
    ∷ []

-- `_ROUTE_ALIASES.get(name, name)`
abbrev unaliased : Dict String → List ℕ → List ℕ
unaliased [] name = name
unaliased ((alias, route) ∷ rest) name =
    if codes_eq (codes alias) name then codes route else unaliased rest name

unfoldable pub normalized_route : String → List ℕ
unfolding strip lower
normalized_route route = unaliased route_aliases (lower (codes (strip route)))

abbrev rescan_boundaries : List String
rescan_boundaries = "oldest_reached" ∷ "latest_reached" ∷ "capture_stable_after_rescan" ∷ []

abbrev is_route : String → List ℕ → Bool
is_route name route = codes_eq (codes name) route

policy_of : List ℕ → RoutePolicy
policy_of route =
    if is_route "in_app_browser" route || is_route "chrome_extension" route
    then record {
      route = route;
      primary_read = "visible_message_dom";
      scroll_target = "scoped_message_list";
      scroll_order = "scoped_element_dom_scroll" ∷ [];
      approval_required_fallbacks =
          "scoped_dom_cua_scroll" ∷ "scoped_wheel_scroll" ∷ "focused_page_keys"
          ∷ "focused_home_end_keys" ∷ "human_assisted_scroll" ∷ [];
      boundary_checks = rescan_boundaries;
    }
    else if is_route "rest_backfill" route
    then record {
      route = route;
      primary_read = "discord_rest_api";
      scroll_target = "not_applicable";
      scroll_order = [];
      approval_required_fallbacks = [];
      boundary_checks = "oldest_reached" ∷ "latest_reached" ∷ [];
    }
    else if is_route "saved_artifacts" route
    then record {
      route = route;
      primary_read = "local_raw_markdown_ledger_reconcile";
      scroll_target = "not_applicable";
      scroll_order = [];
      approval_required_fallbacks = [];
      boundary_checks = "saved_boundaries_present" ∷ "artifact_counts_consistent" ∷ [];
    }
    else if is_route "discord_desktop_accessibility" route
    then record {
      route = route;
      primary_read = "accessibility_tree";
      scroll_target = "scoped_message_list";
      scroll_order = [];
      approval_required_fallbacks =
          "scoped_accessibility_scroll" ∷ "focused_page_keys" ∷ "focused_home_end_keys"
          ∷ "human_assisted_scroll" ∷ [];
      boundary_checks = rescan_boundaries;
    }
    else record {
      route = route;
      primary_read = "unsupported";
      scroll_target = "unknown";
      scroll_order = [];
      approval_required_fallbacks = [];
      boundary_checks = [];
    }

unfoldable pub build_capture_route_policy : String → RoutePolicy
unfolding normalized_route policy_of
build_capture_route_policy route = policy_of (normalized_route route)

alias_example : (build_capture_route_policy " Chrome\n").primary_read ≡ "visible_message_dom"
unfolding build_capture_route_policy
alias_example = refl
