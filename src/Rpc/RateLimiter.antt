-- ===== src/Rpc/RateLimiter.antt =====
-- src/rpc/rate_limiter.cpp: the rate limiter, the users and tokens, and the middleware that asks both.
-- A string that is only compared stands as a number, the empty one as 0. Clock readings are arguments, in
-- nanoseconds, as the steady clock of the C++ library counts them.
pub mod Window
pub mod Access
mod Tests
use sarafu_core.Base.{
  ℕ, ◌+◌, ◌-◌, ◌*◌, ◌/◌, Bool, true, false, not, Option, none, some, List, [], ◌∷◌, ◌++◌, ◌==◌, ltb,
  leb, ◌&&◌, if◌then◌else◌, length, elem,
}
use sarafu_core.Base.Map.{Map, lookup, insert, erase}
use sarafu_core.Base.Map

pub record RateLimitConfig : Type 0 where
  pub max_requests_per_window : ℕ
  pub time_window : ℕ

pub record RateLimiter : Type 0 where
  pub config : RateLimitConfig
  pub request_history : Map (List ℕ)

unfoldable pub new_rate_limiter : RateLimitConfig → RateLimiter
new_rate_limiter config = record { config = config; request_history = [] }

abbrev pub nanoseconds : ℕ → ℕ
nanoseconds seconds = seconds * 1000000000

-- `t < now - window` in signed numbers, which do not wrap here.
abbrev pub is_old : ℕ → ℕ → ℕ → Bool
is_old window now t = ltb (t + nanoseconds window) now

unfoldable pub cleanup_old_requests : ℕ → ℕ → List ℕ → List ℕ
cleanup_old_requests window now [] = []
cleanup_old_requests window now (t ∷ ts) =
    if is_old window now t then cleanup_old_requests window now ts else t ∷ ts

abbrev pub timestamps_of : Option (List ℕ) → List ℕ
timestamps_of none = []
timestamps_of (some ts) = ts

-- The clock is read for the cleanup and again for the entry.
unfoldable pub allow_request : RateLimiter → ℕ → ℕ → ℕ → RateLimiter × Bool
allow_request l ip_address now entered =
    let history =
      cleanup_old_requests l.config.time_window now
        (timestamps_of (lookup ip_address l.request_history)) in
    if leb l.config.max_requests_per_window (length history)
    then (record l { request_history = insert ip_address history l.request_history }, false)
    else (
      record l { request_history = insert ip_address (history ++ entered ∷ []) l.request_history },
      true,
    )

-- What the history holds, however old.
unfoldable pub get_request_count : RateLimiter → ℕ → ℕ
get_request_count l ip_address = length (timestamps_of (lookup ip_address l.request_history))

abbrev pub time_left : ℕ → ℕ → List ℕ → ℕ
time_left window now [] = 0
time_left window now (oldest ∷ ts) =
    let elapsed = (now - oldest) / 1000000000 in if leb window elapsed then 0 else window - elapsed

unfoldable pub get_time_until_reset : RateLimiter → ℕ → ℕ → ℕ
get_time_until_reset l ip_address now =
    time_left l.config.time_window now (timestamps_of (lookup ip_address l.request_history))

unfoldable pub clear_ip : RateLimiter → ℕ → RateLimiter
clear_ip l ip_address = record l { request_history = erase ip_address l.request_history }

unfoldable pub clear_all : RateLimiter → RateLimiter
clear_all l = record l { request_history = [] }

unfoldable pub update_config : RateLimiter → RateLimitConfig → RateLimiter
update_config l config = record l { config = config }

pub record Credentials : Type 0 where
  pub username : ℕ
  pub password_hash : ℕ
  pub allowed_methods : List ℕ

pub record AuthManager : Type 0 where
  pub enabled : Bool
  pub users : Map Credentials
  pub tokens : Map ℕ

unfoldable pub new_auth_manager : AuthManager
new_auth_manager = record { enabled = false; users = []; tokens = [] }

unfoldable pub enable : AuthManager → AuthManager
enable m = record m { enabled = true }

unfoldable pub disable : AuthManager → AuthManager
disable m = record m { enabled = false }

unfoldable pub add_user : AuthManager → Credentials → AuthManager
add_user m credentials = record m { users = insert credentials.username credentials m.users }

-- The loop over the tokens.
unfoldable pub erase_tokens_of : ℕ → Map ℕ → Map ℕ
erase_tokens_of username [] = []
erase_tokens_of username ((token, owner) ∷ tokens) =
    if owner == username
    then erase_tokens_of username tokens
    else (token, owner) ∷ erase_tokens_of username tokens

unfoldable pub remove_user : AuthManager → ℕ → AuthManager
remove_user m username = record m {
  users = erase username m.users;
  tokens = erase_tokens_of username m.tokens;
}

abbrev pub is_allowed_method : List ℕ → ℕ → Bool
is_allowed_method [] method = true
is_allowed_method (m ∷ ms) method = elem method (m ∷ ms)

-- `sha256` is `HashPassword`, the digest that OpenSSL computes, in hexadecimal.
unfoldable pub verify_password : (ℕ → ℕ) → ℕ → ℕ → Bool
verify_password sha256 password hash = sha256 password == hash

unfoldable pub authenticate : (ℕ → ℕ) → AuthManager → ℕ → ℕ → ℕ → Bool
authenticate sha256 m username password method =
    if not m.enabled then true else elim (lookup username m.users) [
      | none ↦ false
      | some credentials ↦
          if not (verify_password sha256 password credentials.password_hash)
          then false
          else is_allowed_method credentials.allowed_methods method
    ]

unfoldable pub verify_token : AuthManager → ℕ → ℕ → Bool
verify_token m token method = if not m.enabled then true else elim (lookup token m.tokens) [
  | none ↦ false
  | some username ↦ elim (lookup username m.users) [
    | none ↦ false
    | some credentials ↦ is_allowed_method credentials.allowed_methods method
  ]
]

-- `random` is the token that the random device gives.
unfoldable pub generate_token : AuthManager → ℕ → ℕ → AuthManager × ℕ
generate_token m username random =
    if Map.contains username m.users
    then (record m { tokens = insert random username m.tokens }, random)
    else (m, 0)

-- The two error messages: the first names the seconds until the reset.
pub data Refusal : Type 0 where
  rate_limit_exceeded : ℕ → Refusal
  authentication_failed : Refusal

pub record RpcRequest : Type 0 where
  pub ip_address : ℕ
  pub username : ℕ
  pub password : ℕ
  pub token : ℕ
  pub method : ℕ

abbrev pub authenticated : (ℕ → ℕ) → AuthManager → RpcRequest → Bool
authenticated sha256 m q =
    if not (q.token == 0)
    then verify_token m q.token q.method
    else (if not (q.username == 0) && not (q.password == 0)
        then authenticate sha256 m q.username q.password q.method
        else false)

-- RpcMiddleware::AllowRequest: the limiter after the call, and the refusal where the request is not
-- allowed. `later` is the clock when the time until the reset is asked for.
unfoldable pub middleware_allow_request :
    (ℕ → ℕ) → RateLimiter → AuthManager → RpcRequest → ℕ → ℕ → ℕ → RateLimiter × Option Refusal
middleware_allow_request sha256 l m q now entered later =
    let (l', allowed) = allow_request l q.ip_address now entered in
    if not allowed
    then (l', some (rate_limit_exceeded (get_time_until_reset l' q.ip_address later)))
    else (if m.enabled
        then (if not (authenticated sha256 m q)
            then (l', some authentication_failed)
            else (l', none))
        else (l', none))
