-- ===== src/Orders/Publisher/Tests.antt =====
-- A channel that is lost.
use platform_engineering_lab.Prelude.{ℕ, ◌≡◌, ◌≢◌, refl, true, false, [], ◌∷◌, some}
use platform_engineering_lab.Orders.Publisher.{
  Publisher, promised, asks, at_start, after, idle, get_channel, opened, channel_closed,
  on_module_destroy,
}
use platform_engineering_lab.Orders.Publisher.Laws.{
  IsSingle, is_up, reachable-IsSingle, channel_closed-leaks,
}

abbrev connected : Publisher
connected = record { conn = some 1; channel = some 1; opening = false; running = 0; up = 1 ∷ [] }

reachable-IsSingle_example : IsSingle (get_channel idle).1
reachable-IsSingle_example = reachable-IsSingle (get_channel idle).1 (after at_start (asks idle))

one≢two : ◌≢◌ {A = ℕ} 1 2
one≢two e = cc

channel_closed-leaks_example :
    ((get_channel (channel_closed 1 connected)).0 ≡ promised)
    × (is_up 1 (on_module_destroy (opened 2 (get_channel (channel_closed 1 connected)).1)).up
        ≡ true)
channel_closed-leaks_example = channel_closed-leaks connected 1 2 one≢two refl refl
