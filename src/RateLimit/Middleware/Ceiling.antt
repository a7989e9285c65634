-- ===== src/RateLimit/Middleware/Ceiling.antt =====
-- The ceiling of a bearer token on the API, whatever route and address a request has.
use mathlib.Core.Path.{subst}
use nightfury.Prelude.{
  ℕ, ◌*◌, ◌≤◌, List, [], ◌∷◌, ◌++◌, ◌≡◌, ◌⊎◌, refl, ap, ◌∙◌, inl, inr, some, Bool, true, false,
  ==_refl, any, length, arith,
}
use nightfury.RateLimit.{Verdict, allowed, refused, trim, check_rate_limit}
use nightfury.RateLimit.Window.{check_rate_limit_lem}
use nightfury.RateLimit.Middleware.{
  Request, api, Key, Rule, RouteRule, route_key, route_rule, route_rules, token_rule,
  with_token_rule, rules_for, is_api_token, resolve_rules, key_eq, Sets, passed,
  authenticated_api_limit, authenticated_api_window, check, run_rules, dispatch,
}

Verdict-cases : (v : Verdict) → (v ≡ allowed) ⊎ ((wait : ℕ) × (v ≡ refused wait))
Verdict-cases allowed = inl refl
Verdict-cases (refused wait) = inr (wait, refl)

route_key-other : (t : ℕ) (r : RouteRule) (q : Request) → is_api_token t (route_key r q) ≡ false
route_key-other t r q = ground arith

route_rule-other :
    (t : ℕ) (rules : List RouteRule) (q : Request)
    → any (λ r. is_api_token t r.key) (route_rule rules q) ≡ false
unfolding route_rule
route_rule-other t [] q = refl
route_rule-other t (r ∷ rules) q = ground (arith, route_key-other t r q, route_rule-other t rules q)

with_token_rule-other :
    (t : ℕ) (rules : List Rule)
    → any (λ r. is_api_token t r.key) rules ≡ false
    → with_token_rule (some t) rules ≡ rules ++ token_rule t ∷ []
with_token_rule-other t rules h = rw h refl

-- The rules of an authenticated request to the API end with that of its token.
resolve_rules-token :
    (q : Request) (n t : ℕ)
    → q.path ≡ api n
    → q.token ≡ some t
    → resolve_rules q ≡ route_rule route_rules q ++ token_rule t ∷ []
unfolding resolve_rules
resolve_rules-token q n t path token =
    let rules = route_rule route_rules q in
    ap (λ p. rules_for p q.token rules) path
    ∙ ap (λ o. with_token_rule o rules) token
    ∙ with_token_rule-other t rules (route_rule-other t route_rules q)

key_eq-api_token : (t : ℕ) (k : Key) → key_eq (Key.api_token t) k ≡ is_api_token t k
key_eq-api_token t (Key.by_ip route a) = refl
key_eq-api_token t (Key.by_token route u) = refl
key_eq-api_token t (Key.api_token u) = refl

-- The set of a token once a request at `now_ms` that was let through is recorded.
pub record Recorded (now_ms : ℕ) (before after : List ℕ) : Type 0 where
  pub entry : after ≡ trim now_ms (authenticated_api_window * 1000) before ++ now_ms ∷ []
  pub ceiling : length after ≤ authenticated_api_limit

module _ (now_ms : ℕ) (raises : Key → Bool) (quiet : (k : Key) → raises k ≡ false) (t : ℕ) where
  check-Recorded :
      (sets : Sets)
      → (check now_ms raises (token_rule t) sets).0 ≡ allowed
      → Recorded now_ms
          (sets (Key.api_token t))
          ((check now_ms raises (token_rule t) sets).1 (Key.api_token t))
  unfolding check check_rate_limit
  check-Recorded sets ok =
      let k = Key.api_token t in
      let (count, cases) =
        check_rate_limit_lem now_ms authenticated_api_limit authenticated_api_window (sets k) in
      record {
        entry = rw (quiet k, ==_refl t) refl;
        ceiling = ground (arith, quiet k, count, cases, ==_refl t);
      }

  -- A rule of another key leaves the set of the token alone.
  check-other :
      (r : Rule) (sets : Sets)
      → is_api_token t r.key ≡ false
      → (check now_ms raises r sets).1 (Key.api_token t) ≡ sets (Key.api_token t)
  unfolding check
  check-other r sets other = rw (quiet r.key, key_eq-api_token t r.key, other) refl

  run_rules-Recorded :
      (rules : List Rule) (sets : Sets)
      → any (λ r. is_api_token t r.key) rules ≡ false
      → (run_rules now_ms raises (rules ++ token_rule t ∷ []) sets).0 ≡ passed
      → Recorded now_ms
          (sets (Key.api_token t))
          ((run_rules now_ms raises (rules ++ token_rule t ∷ []) sets).1 (Key.api_token t))
  unfolding run_rules
  run_rules-Recorded [] sets apart h =
      elim (Verdict-cases (check now_ms raises (token_rule t) sets).0) [
        | inl e ↦ rw (e, run_rules) (check-Recorded sets e)
        | inr (wait, e) ↦ let no = (rw (e, run_rules) at h) in cc
      ]
  run_rules-Recorded (x ∷ rules) sets apart h =
      elim (Verdict-cases (check now_ms raises x sets).0) [
        | inl e ↦
            let next = (check now_ms raises x sets).1 in
            let rest = run_rules-Recorded rules next (ground arith) (rw (e, run_rules) at h) in
            rw (e, run_rules)
              (subst
                (λ b.
                  Recorded now_ms b (
                    (run_rules now_ms raises (rules ++ token_rule t ∷ []) next).1
                      (Key.api_token t)))
                (check-other x sets (ground arith)) rest)
        | inr (wait, e) ↦ let no = (rw (e, run_rules) at h) in cc
      ]

-- Where Redis answers and the limiter is on, a request to the API with a bearer token that is let
-- through is recorded under that token: the token's set holds its requests of the last minute
-- and this one, at most 120 together, whatever the route and the address that the request claims.
pub dispatch-Recorded :
    (now_ms : ℕ) (raises : Key → Bool) (q : Request) (n t : ℕ) (sets : Sets)
    → ((k : Key) → raises k ≡ false)
    → q.path ≡ api n
    → q.token ≡ some t
    → (dispatch now_ms raises true true q sets).0 ≡ passed
    → Recorded now_ms
        (sets (Key.api_token t))
        ((dispatch now_ms raises true true q sets).1 (Key.api_token t))
unfolding dispatch
dispatch-Recorded now_ms raises q n t sets quiet path token h =
    let rules = resolve_rules-token q n t path token in
    rw rules (
      run_rules-Recorded now_ms raises quiet t (route_rule route_rules q) sets
        (route_rule-other t route_rules q) (rw rules at h))
