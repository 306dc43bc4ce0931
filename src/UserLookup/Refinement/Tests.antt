-- ===== src/UserLookup/Refinement/Tests.antt =====
-- A customer who registers, a cache for one value, and a user-service that is out of reach at the end.
use native.Mathlib.Decide.{dec_le}
use mathlib.Core.Option.{some-injective}
use platform_engineering_lab.Prelude.{
  ℕ, Bool-cases, inr, ◌≡◌, inl, refl, sym, ap, ◌∙◌, String, Bool, true, false, Option, none, some,
  Result, ok, throw, List, [], ◌∷◌, ◌==◌, eq_iff, if◌then◌else◌, eqb, arith,
}
use platform_engineering_lab.Js.Text.{strip_prefix, to_lower_case}
use platform_engineering_lab.Js.Pattern.{match_prefix, is_token}
use platform_engineering_lab.Auth.Verifier.{Principal, VerifyError, token_invalid, signature}
use platform_engineering_lab.Auth.Guard.{bearer_token, can_activate}
use platform_engineering_lab.Auth.Guard.Laws.{IsAuthorized}
use platform_engineering_lab.Auth.Ownership.{assert_self_or_admin}
use platform_engineering_lab.Pipeline.{serve}
use platform_engineering_lab.Database.Filter.{Exception, http, filter_exception}
use platform_engineering_lab.Users.Samples.{new_user, user_rows}
use platform_engineering_lab.Users.Service
use platform_engineering_lab.Users.Service.{CreateUserDto}
use platform_engineering_lab.Users.Controller
use platform_engineering_lab.Users.Controller.{find_one_route}
use platform_engineering_lab.Users.App.{State, Deployment, shown_to, get_user}
use platform_engineering_lab.Orders.Types.{World}
use platform_engineering_lab.Orders.Cache
use platform_engineering_lab.Orders.Cache.{Redis}
use platform_engineering_lab.Orders.Directory.Samples.{directory_config}
use platform_engineering_lab.Orders.Directory.{
  fetch_from, step_of, cache_key, fetch_exists, exists, lookup_unavailable,
}
use platform_engineering_lab.Orders.Directory.Refinement.{
  RedisLaws, Event, moves, lookup, answers, AllMatch, IsSound, run,
}
use platform_engineering_lab.UserLookup.Refinement.{has, MaySee, service, ReadsOnly, run-refines}

abbrev Held : Type 0
Held = Option (String × String)

abbrev get_one : String → Held → Result String (Option String) × Held
get_one key none = (ok none, none)
get_one key (some (k, v)) = (if k == key then ok (some v) else ok none, some (k, v))

abbrev one_value : Redis
one_value = record {
  State = Held;
  get = get_one;
  set = λ key value ttl s. (ok tt, some (key, value));
}

get_one-held :
    (key value : String) (s : Held) → (get_one key s).0 ≡ ok (some value) → s ≡ some (key, value)
get_one-held key value none h = absurd (cc)
get_one-held key value (some (k, v)) h = elim (Bool-cases (k == key)) [
  | inl e ↦ let same = (eq_iff k key).0 e in cc
  | inr e ↦ absurd (ground (arith, e, h))
]

get_one-same : (key : String) (s : Held) → (get_one key s).1 ≡ s
get_one-same key none = refl
get_one-same key (some (k, v)) = refl

one_value-laws : RedisLaws one_value
one_value-laws = record {
  Holds = λ s k v. s ≡ some (k, v);
  get_held = get_one-held;
  get_adds = λ key k value s h. sym (get_one-same key s) ∙ h;
  set_adds =
      λ key v ttl k value s h. inl (sym (ap (λ p. p.0) (some-injective (key, v) (k, value) h)));
}

abbrev customer : Principal
customer = record { sub = "ab"; roles = "customer" ∷ [] }

abbrev one_token : String → Result VerifyError Principal
one_token token = if token == "t" then ok customer else throw (token_invalid signature)

abbrev lab : Deployment CreateUserDto
lab = record { table = user_rows; verify = one_token; validation_pipe = ok; parse_uuid_pipe = ok }

abbrev no_user : State user_rows
no_user = record { db = []; rejections = []; outages = 0 }

abbrev one_user : State user_rows
one_user = record no_user {
  db = ("ab", new_user (record { id = "ab"; email = "ann@example.org"; name = "Ann" })) ∷ [];
}

-- The third lookup is answered from the cache; the fourth cannot reach the service.
abbrev fails : ℕ → ℕ → Option String
fails n k = if eqb n 3 then some "timeout" else none

abbrev events : List (Event (State user_rows))
events =
    lookup "AB" "r1" (some "Bearer t")
    ∷ moves one_user
    ∷ lookup "AB" "r2" (some "Bearer t")
    ∷ lookup "AB" "r3" (some "Bearer t")
    ∷ lookup "ab" "r4" (some "Bearer t")
    ∷ []

abbrev before : World Unit Held Unit
before = record { db = tt; redis = none; broker = tt; counts = [] }

abbrev told : List (Result Exception Bool)
told = ok false ∷ ok true ∷ ok true ∷ throw (http lookup_unavailable) ∷ []

runs : Unit {0}
unfolding exists fetch_exists fetch_from step_of Cache.get Cache.set strip_prefix serve can_activate
    bearer_token match_prefix is_token to_lower_case dec_le assert_self_or_admin get_user shown_to
    Controller.find_one Service.find_one filter_exception
runs = tt

told-run :
    run
      (has lab directory_config)
      one_value
      one_value-laws
      directory_config
      (service lab directory_config fails)
      events
      no_user
      0
      before
    ≡ told
unfolding runs
told-run = refl

served : IsAuthorized one_token find_one_route (some "Bearer t") customer
unfolding bearer_token match_prefix is_token
served = record { token = "t"; carried = refl; verified = refl; role = refl }

lower_id : MaySee lab directory_config "ab" (some "Bearer t")
unfolding runs
lower_id = (customer, served, refl, refl)

upper_id : MaySee lab directory_config "AB" (some "Bearer t")
unfolding runs
upper_id = (customer, served, refl, refl)

grows :
    (u : String)
    → has lab directory_config no_user u ≡ true
    → has lab directory_config one_user u ≡ true
grows u h = cc

none_held : (key value : String) → ◌≡◌ {A = Held} none (some (key, value)) → ⊥
none_held key value h = cc

nothing_held : IsSound (has lab directory_config) one_value one_value-laws no_user none
unfolding one_value-laws
nothing_held u value h = absurd (none_held (cache_key u) value h)

only_reads : ReadsOnly user_rows
only_reads i j rows = refl

run-refines_example :
    AllMatch
      (run
        (has lab directory_config)
        one_value
        one_value-laws
        directory_config
        (service lab directory_config fails)
        events
        no_user
        0
        before)
      (answers (has lab directory_config) events no_user)
run-refines_example =
    run-refines lab directory_config one_value one_value-laws only_reads fails events no_user 0
      before (upper_id, (upper_id, (upper_id, (lower_id, tt)))) (grows, tt) nothing_held
