-- ===== src/Gateway/Routing/Tests.antt =====
-- Concrete paths.

use platform_engineering_lab.Prelude.{◌≡◌, refl, some, none}
use platform_engineering_lab.Js.Text.{strip_prefix}
use platform_engineering_lab.Gateway.Routing.{path_of, is_under, route_of, app_routes}

longer_segment : route_of (app_routes "u" "o" "n") (path_of "/v1/users2/7?x") ≡ none
unfolding route_of app_routes path_of is_under strip_prefix
longer_segment = refl

second_route :
    route_of (app_routes "u" "o" "n") (path_of "/v1/orders/7?x") ≡ some ("/v1/orders", "o")
unfolding route_of app_routes path_of is_under strip_prefix
second_route = refl
