-- ===== src/Gateway/Routing.antt =====
-- isHealth, pathOf and the choice of a route in gateway/gateway.ts, and the routes of app.module.ts.
pub mod Laws
mod Tests
use Prim.Native.String.{[], ◌∷◌}
use Prim.Native.String
use platform_engineering_lab.Prelude.{
  String, Bool, ◌||◌, List, Option, code, eqb, ◌==◌, if◌then◌else◌, find,
}
use platform_engineering_lab.Js.Text.{starts_with}

abbrev pub is_health : String → Bool
is_health original_url = starts_with original_url "/health"

-- originalUrl.split('?')[0]
unfoldable pub path_of : String → String
path_of [] = []
path_of (c ∷ s) = let rest = path_of s in if eqb (code c) b'?' then [] else c ∷ rest

-- path === prefix || path.startsWith(`${prefix}/`)
unfoldable pub is_under : String → String → Bool
is_under path prefix = path == prefix || starts_with path (String.◌++◌ prefix "/")

-- A path prefix and its upstream's base URL.
abbrev pub Routes : Type 0
Routes = List (String × String)

unfoldable pub route_of : Routes → String → Option (String × String)
route_of routes path = find (λ r. is_under path r.0) routes

-- The routes that AppModule configures.
unfoldable pub app_routes : String → String → String → Routes
app_routes user_service_url order_service_url notification_worker_url =
    List.◌∷◌ ("/v1/users", user_service_url)
      (List.◌∷◌ ("/v1/orders", order_service_url)
        (List.◌∷◌ ("/v1/notifications", notification_worker_url) List.[]))
