-- ===== src/RateLimit/Middleware.antt =====
-- The rules of a request and the middleware of backend/app/core/rate_limit.py. A path is what the code
-- asks of its text; a route's text is a number. A check that raises leaves the sorted sets alone.
pub mod Ceiling
use nightfury.Prelude.{
  ℕ, List, [], ◌∷◌, ◌++◌, Option, none, some, Bool, true, false, ◌&&◌, ◌||◌, ◌==◌, if◌then◌else◌,
  any,
}
use nightfury.RateLimit.{Verdict, allowed, refused, check_rate_limit}

-- Texts that start with "/internal/", with "/ws/" or with "/api/", "/health", and the others.
pub data UrlPath : Type 0 where
  internal ws health : UrlPath
  api other : ℕ → UrlPath

pub data Method : Type 0 where
  post : Method
  another : ℕ → Method

pub data Scope : Type 0 where
  ip session : Scope

pub record RouteRule : Type 0 where
  pub method : Option Method
  pub route : ℕ
  pub limit : ℕ
  pub window : ℕ
  pub scope : Scope

abbrev pub login_route : ℕ
login_route = 0

abbrev pub signup_route : ℕ
signup_route = 1

abbrev pub pair_route : ℕ
pair_route = 2

abbrev pub claim_route : ℕ
claim_route = 3

abbrev pub provision_route : ℕ
provision_route = 4

abbrev pub post_rule : ℕ → ℕ → ℕ → RouteRule
post_rule route limit window = record {
  method = some post;
  route = route;
  limit = limit;
  window = window;
  scope = ip;
}

abbrev pub route_rules : List RouteRule
route_rules =
    post_rule login_route 10 60
    ∷ post_rule signup_route 5 3600
    ∷ post_rule pair_route 20 3600
    ∷ post_rule claim_route 10 60
    ∷ post_rule provision_route 30 3600
    ∷ []

abbrev pub authenticated_api_limit : ℕ
authenticated_api_limit = 120

abbrev pub authenticated_api_window : ℕ
authenticated_api_window = 60

-- The headers and the address that are read; `token` is the hash of a bearer token.
pub record Request : Type 0 where
  pub method : Method
  pub path : UrlPath
  pub forwarded_for : Option ℕ
  pub host : Option ℕ
  pub token : Option ℕ

pub data Address : Type 0 where
  address : ℕ → Address
  unknown : Address

-- `_client_ip`
unfoldable pub client_ip : Request → Address
client_ip q = elim q.forwarded_for [
  | some a ↦ address a
  | none ↦ elim q.host [ some h ↦ address h | none ↦ unknown ]
]

pub data Key : Type 0 where
  by_ip : (route : ℕ) → Address → Key
  by_token : (route token : ℕ) → Key
  api_token : ℕ → Key

pub record Rule : Type 0 where
  pub key : Key
  pub limit : ℕ
  pub window : ℕ

abbrev pub method_eq : Option Method → Method → Bool
method_eq none m = true
method_eq (some post) post = true
method_eq (some post) (another n) = false
method_eq (some (another k)) post = false
method_eq (some (another k)) (another n) = k == n

abbrev pub path_eq : ℕ → UrlPath → Bool
path_eq route internal = false
path_eq route ws = false
path_eq route health = false
path_eq route (api n) = route == n
path_eq route (other n) = false

abbrev pub route_key : RouteRule → Request → Key
route_key r q = elim r.scope [
  | ip ↦ by_ip r.route (client_ip q)
  | session ↦ elim q.token [ none ↦ by_ip r.route (client_ip q) | some t ↦ by_token r.route t ]
]

-- The loop over the rules of routes: the first that matches wins.
unfoldable pub route_rule : List RouteRule → Request → List Rule
unfolding client_ip
route_rule [] q = []
route_rule (r ∷ rules) q =
    if path_eq r.route q.path && method_eq r.method q.method
    then record { key = route_key r q; limit = r.limit; window = r.window } ∷ []
    else route_rule rules q

abbrev pub token_rule : ℕ → Rule
token_rule t = record {
  key = api_token t;
  limit = authenticated_api_limit;
  window = authenticated_api_window;
}

abbrev pub is_api_token : ℕ → Key → Bool
is_api_token t (by_ip route a) = false
is_api_token t (by_token route u) = false
is_api_token t (api_token u) = t == u

abbrev pub with_token_rule : Option ℕ → List Rule → List Rule
with_token_rule none rules = rules
with_token_rule (some t) rules =
    if any (λ r. is_api_token t r.key) rules then rules else rules ++ token_rule t ∷ []

-- The skipped paths, and the rule of the bearer token beside that of the route.
abbrev pub rules_for : UrlPath → Option ℕ → List Rule → List Rule
rules_for internal token rules = []
rules_for ws token rules = []
rules_for health token rules = []
rules_for (api _) token rules = with_token_rule token rules
rules_for (other _) token rules = rules

-- `_resolve_rules`
unfoldable pub resolve_rules : Request → List Rule
unfolding route_rule
resolve_rules q = rules_for q.path q.token (route_rule route_rules q)

abbrev pub address_eq : Address → Address → Bool
address_eq (address a) (address b) = a == b
address_eq (address a) unknown = false
address_eq unknown (address b) = false
address_eq unknown unknown = true

abbrev pub key_eq : Key → Key → Bool
key_eq (by_ip r a) (by_ip q b) = r == q && address_eq a b
key_eq (by_ip r a) (by_token q u) = false
key_eq (by_ip r a) (api_token u) = false
key_eq (by_token r t) (by_ip q b) = false
key_eq (by_token r t) (by_token q u) = r == q && t == u
key_eq (by_token r t) (api_token u) = false
key_eq (api_token t) (by_ip q b) = false
key_eq (api_token t) (by_token q u) = false
key_eq (api_token t) (api_token u) = t == u

-- The sorted sets of Redis by their keys.
abbrev pub Sets : Type 0
Sets = Key → List ℕ

abbrev pub write : Key → List ℕ → Sets → Sets
write k scores sets j = if key_eq j k then scores else sets j

pub data Reply : Type 0 where
  passed : Reply
  too_many_requests : (retry_after : ℕ) → Reply

module _ (now_ms : ℕ) (raises : Key → Bool) where
  -- One check, which lets the request through where it raises.
  unfoldable pub check : Rule → Sets → Verdict × Sets
  check r sets =
      if raises r.key
      then (allowed, sets)
      else (let (verdict, scores) = check_rate_limit now_ms r.limit r.window (sets r.key) in
          (verdict, write r.key scores sets))

  unfoldable pub run_rules : List Rule → Sets → Reply × Sets
  unfolding check
  run_rules [] sets = (passed, sets)
  run_rules (r ∷ rules) sets =
      let (verdict, sets') = check r sets in
      elim verdict [
        | allowed ↦ run_rules rules sets'
        | refused wait ↦ (too_many_requests wait, sets')
      ]

  -- `RateLimitMiddleware.dispatch`, until the request is handed on.
  unfoldable pub dispatch : (enabled redis_up : Bool) → Request → Sets → Reply × Sets
  unfolding resolve_rules run_rules
  dispatch enabled redis_up q sets =
      if enabled && redis_up then run_rules (resolve_rules q) sets else (passed, sets)
