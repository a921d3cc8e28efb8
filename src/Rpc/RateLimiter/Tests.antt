-- ===== src/Rpc/RateLimiter/Tests.antt =====
-- Requests of two addresses and a manager of two users, to which the theorems on the limiter apply.
use sarafu_core.Base.{ℕ, ◌+◌, ◌≡◌, ◌≤◌, refl, arith, true, false, some, List, [], ◌∷◌}
use sarafu_core.Base.Map.{lookup}
use sarafu_core.Rpc.RateLimiter.{
  RateLimitConfig, AuthManager, Credentials, RpcRequest, new_rate_limiter, nanoseconds,
  allow_request, middleware_allow_request, verify_token, is_allowed_method, cleanup_old_requests,
  remove_user, add_user,
}
use sarafu_core.Rpc.RateLimiter.Window.{Request, count_between, admitted, requests_within_window}
use sarafu_core.Rpc.RateLimiter.Access.{
  Call, Presents, run, middleware_allows_known, removed_token_refused,
}

abbrev config : RateLimitConfig
config = record { max_requests_per_window = 2; time_window = 60 }

abbrev request : ℕ → ℕ → Request
request ip now = record { ip = ip; now = now; entered = now + 1 }

abbrev requests : List Request
requests =
    request 1 10 ∷ request 2 20 ∷ request 1 30 ∷ request 1 40 ∷ request 1 (nanoseconds 61) ∷ []

requests_within_window_example :
    count_between 11 (11 + nanoseconds 60) (admitted (new_rate_limiter config) 1 requests) ≤ 2
requests_within_window_example = requests_within_window config 1 11 requests (
  omega arith,
  omega arith,
  (
    omega arith,
    omega arith,
    (omega arith, omega arith, (omega arith, omega arith, (omega arith, omega arith, tt))),
  ),
)

abbrev user : ℕ → Credentials
user name = record { username = name; password_hash = 500 + name; allowed_methods = 7 ∷ [] }

abbrev manager : AuthManager
manager = record {
  enabled = true;
  users = (1, user 1) ∷ (2, user 2) ∷ [];
  tokens = (91, 1) ∷ (92, 2) ∷ (93, 1) ∷ [];
}

abbrev by_token : RpcRequest
by_token = record { ip_address = 1; username = 0; password = 0; token = 92; method = 7 }

abbrev by_password : RpcRequest
by_password = record { ip_address = 1; username = 2; password = 2; token = 0; method = 7 }

abbrev digest : ℕ → ℕ
digest password = 500 + password

middleware_allows_known_example :
    ((allow_request (new_rate_limiter config) 1 10 11).1 ≡ true)
    × (name : ℕ) × (c : Credentials) × (lookup name manager.users ≡ some c)
    × Presents digest manager by_token name c
    × (is_allowed_method c.allowed_methods 7 ≡ true)
unfolding new_rate_limiter middleware_allow_request allow_request verify_token cleanup_old_requests
middleware_allows_known_example =
    middleware_allows_known digest (new_rate_limiter config) manager by_token 10 11 12 refl refl

abbrev calls : List Call
calls = Call.adds (user 3) ∷ Call.generates 1 94 ∷ Call.disables ∷ Call.enables ∷ []

removed_token_refused_example :
    verify_token (run (remove_user manager 1) (Call.adds (user 1) ∷ [])) 93 7 ≡ false
unfolding run add_user remove_user
removed_token_refused_example =
    removed_token_refused manager 1 93 7 (Call.adds (user 1) ∷ [])
      (omega arith, (omega arith, (omega arith, tt))) refl (tt, tt) refl
