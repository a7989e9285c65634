-- ===== src/RateLimit/Tests.antt =====
-- A window of a minute with room for two requests, and a request that logs in with a token.
use nightfury.RateLimit.Middleware.{
  Request, Method, api, login_route, Key, Sets, passed, dispatch, run_rules, check, resolve_rules,
  route_rule, client_ip,
}
use nightfury.RateLimit.Middleware.Ceiling.{Recorded, dispatch-Recorded}
use nightfury.Prelude.{some, none, true, false, ℕ, List, [], ◌∷◌, ◌≡◌, refl}
use nightfury.RateLimit.{refused, check_rate_limit}

-- The first request has left the window, and the two others fill it.
abbrev scores : List ℕ
scores = 1_000 ∷ 20_000 ∷ 50_500 ∷ []

third : check_rate_limit 61_000 2 60 scores ≡ (refused 19, 20_000 ∷ 50_500 ∷ 61_000 ∷ [])
unfolding check_rate_limit
third = refl

abbrev request : Request
request = record {
  method = Method.post;
  path = api login_route;
  forwarded_for = some 9;
  host = none;
  token = some 3;
}

abbrev no_sets : Sets
no_sets k = []

dispatch_run : (dispatch 61_000 (λ k. false) true true request no_sets).0 ≡ passed
unfolding dispatch run_rules check resolve_rules route_rule client_ip check_rate_limit
dispatch_run = refl

dispatch-Recorded_example :
    Recorded 61_000 []
      ((dispatch 61_000 (λ k. false) true true request no_sets).1 (Key.api_token 3))
dispatch-Recorded_example =
    dispatch-Recorded 61_000 (λ k. false) request 0 3 no_sets (λ k. refl) refl refl dispatch_run
