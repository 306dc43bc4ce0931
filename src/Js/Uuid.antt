-- ===== src/Js/Uuid.antt =====
-- The UUID expression that token-verifier.ts and order-created.event.ts share.
use mathlib.Core.Option
use platform_engineering_lab.Prelude.{
  ◌≡◌, refl, String, Bool, true, false, Option, none, some, List, ◌∷◌, ◌++◌, replicate,
}
use platform_engineering_lab.Js.Text.{to_lower_case}
use platform_engineering_lab.Js.Pattern.{Class, hex, dash, match_prefix, match_prefix-to_lower_case}

-- /^[0-9a-f]{8}-[0-9a-f]{4}-[0-9a-f]{4}-[0-9a-f]{4}-[0-9a-f]{12}$/i
pub uuid : List Class
uuid =
    replicate 8 hex
    ++ (dash ∷ replicate 4 hex)
    ++ (dash ∷ replicate 4 hex)
    ++ (dash ∷ replicate 4 hex)
    ++ (dash ∷ replicate 12 hex)

abbrev pub is_end : Option String → Bool
is_end (some String.[]) = true
is_end _ = false

unfoldable pub is_uuid : String → Bool
unfolding uuid match_prefix
is_uuid s = is_end (match_prefix uuid s)

is_end-lower : (o : Option String) → is_end (Option.map to_lower_case o) ≡ is_end o
unfolding to_lower_case
is_end-lower none = refl
is_end-lower (some String.[]) = refl
is_end-lower (some (String.◌∷◌ c s)) = refl

-- A text is a UUID exactly when its lower case is.
pub is_uuid-to_lower_case : (s : String) → is_uuid (to_lower_case s) ≡ is_uuid s
is_uuid-to_lower_case s =
    unfold is_uuid in rw (match_prefix-to_lower_case uuid s) (is_end-lower (match_prefix uuid s))

mixed_case_uuid : is_uuid "3fa85F64-5717-4562-b3fc-2c963f66afa6" ≡ true
unfolding is_uuid
mixed_case_uuid = refl
