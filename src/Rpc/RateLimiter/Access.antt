-- ===== src/Rpc/RateLimiter/Access.antt =====
-- Who gets through the middleware of src/rpc/rate_limiter.cpp.
use sarafu_core.Base.{
  subst, sym, All, ◌+◌, ℕ, ◌≡◌, ◌⊎◌, refl, arith, true, false, none, some, List, [], ◌∷◌, ◌==◌,
  Bool-cases, Option-cases, inl, inr,
}
use sarafu_core.Base.Map.{
  Map, From, lookup, insert, insert-From, erase, lookup-erase, lookup-insert, lookup_below,
  From-mono,
}
use sarafu_core.Base.Map
use sarafu_core.Rpc.RateLimiter.{
  enable, disable, RateLimiter, AuthManager, Credentials, RpcRequest, allow_request, authenticate,
  verify_token, verify_password, generate_token, erase_tokens_of, remove_user, add_user,
  is_allowed_method, authenticated, middleware_allow_request,
}

-- A user who may make the request: one with the password's digest, or the owner of the token.
abbrev pub Presents : (ℕ → ℕ) → AuthManager → RpcRequest → ℕ → Credentials → Type 0
Presents sha256 m q name c =
    (lookup q.token m.tokens ≡ some name)
    ⊎ ((q.token ≡ 0) × (q.username ≡ name) × (sha256 q.password ≡ c.password_hash))

authenticated_user :
    (sha256 : ℕ → ℕ) (m : AuthManager) (q : RpcRequest)
    → m.enabled ≡ true
    → authenticated sha256 m q ≡ true
    → (name : ℕ) × (c : Credentials) × (lookup name m.users ≡ some c)
      × Presents sha256 m q name c
      × (is_allowed_method c.allowed_methods q.method ≡ true)
unfolding authenticate verify_token verify_password
authenticated_user sha256 m q on h = elim (Bool-cases (q.token == 0)) [
  | inr given ↦ elim (Option-cases (lookup q.token m.tokens)) [
    | inl missing ↦ absurd (ground (arith, h, given, on, missing))
    | inr (name, owner) ↦ elim (Option-cases (lookup name m.users)) [
      | inl gone ↦ absurd (ground (arith, h, given, on, owner, gone))
      | inr (c, found) ↦ (name, c, found, inl owner, ground (arith, h, given, on, owner, found))
    ]
  ]
  | inl absent ↦ elim (Option-cases (lookup q.username m.users)) [
    | inl gone ↦ absurd (ground (arith, h, absent, on, gone))
    | inr (c, found) ↦ (
      q.username,
      c,
      found,
      inr (ground (arith, absent), refl, ground (arith, h, absent, on, found)),
      ground (arith, h, absent, on, found),
    )
  ]
]

-- While authentication is on, a request that the middleware lets through was within the rate limit, and a
-- user who is known now stands behind it, by token or, where none is given, by name and password; that
-- user may call the method.
pub middleware_allows_known :
    (sha256 : ℕ → ℕ) (l : RateLimiter) (m : AuthManager) (q : RpcRequest) (now entered later : ℕ)
    → m.enabled ≡ true
    → (middleware_allow_request sha256 l m q now entered later).1 ≡ none
    → ((allow_request l q.ip_address now entered).1 ≡ true)
      × (name : ℕ) × (c : Credentials) × (lookup name m.users ≡ some c)
      × Presents sha256 m q name c
      × (is_allowed_method c.allowed_methods q.method ≡ true)
unfolding middleware_allow_request
middleware_allows_known sha256 l m q now entered later on h =
    let within : (allow_request l q.ip_address now entered).1 ≡ true = ground (arith, h) in
    let known : authenticated sha256 m q ≡ true = ground (arith, h, on, within) in
    let (name, c, found, shown, allows) = authenticated_user sha256 m q on known in
    (within, name, c, found, shown, allows)

-- The calls that change the manager.
pub data Call : Type 0 where
  enables disables : Call
  adds : Credentials → Call
  removes : ℕ → Call
  generates : ℕ → ℕ → Call

abbrev pub after : AuthManager → Call → AuthManager
after m enables = enable m
after m disables = disable m
after m (adds c) = add_user m c
after m (removes name) = remove_user m name
after m (generates name random) = (generate_token m name random).0

unfoldable pub run : AuthManager → List Call → AuthManager
run m [] = m
run m (c ∷ cs) = run (after m c) cs

-- The call does not add a user of that name.
abbrev pub Spares : ℕ → Call → Type 0
Spares name (adds c) = (c.username == name) ≡ false
Spares name _ = Unit

-- The call does not draw that token.
abbrev pub Avoids : ℕ → Call → Type 0
Avoids token (generates name random) = (random == token) ≡ false
Avoids token _ = Unit

after-absent :
    (m : AuthManager) (name : ℕ) (c : Call)
    → Spares name c
    → lookup name m.users ≡ none
    → lookup name (after m c).users ≡ none
unfolding add_user remove_user generate_token enable disable
after-absent m name enables s h = h
after-absent m name disables s h = h
after-absent m name (adds c) s h = ground (arith, s, h, lookup-insert name c.username c m.users)
after-absent m name (removes n) s h = ground (arith, h, lookup-erase name n m.users)
after-absent m name (generates n random) s h = ground (arith, h)

run-absent :
    (m : AuthManager) (name : ℕ) (cs : List Call)
    → All (Spares name) cs
    → lookup name m.users ≡ none
    → lookup name (run m cs).users ≡ none
unfolding run
run-absent m name [] s h = h
run-absent m name (c ∷ cs) s h = run-absent (after m c) name cs s.1 (after-absent m name c s.0 h)

differs :
    (users : Map Credentials) (other name : ℕ) (c : Credentials)
    → lookup other users ≡ some c
    → lookup name users ≡ none
    → (other == name) ≡ false
differs users other name c found absent = elim (Bool-cases (other == name)) [
  | inr apart ↦ apart
  | inl e ↦
      let same : other ≡ name = ground (arith, e) in
      absurd (ground (arith, found, subst (λ n. lookup n users ≡ none) (sym same) absent))
]

-- A user who is removed is shut out until a user of that name is added again: after any other calls, in any
-- order, behind a request that is let through while authentication is on stands a user of another name.
pub removed_user_locked_out :
    (sha256 : ℕ → ℕ) (l : RateLimiter) (m : AuthManager) (name : ℕ) (cs : List Call)
    (q : RpcRequest) (now entered later : ℕ)
    → All (Spares name) cs
    → (run (remove_user m name) cs).enabled ≡ true
    → (middleware_allow_request sha256 l (run (remove_user m name) cs) q now entered later).1 ≡ none
    → let m' = run (remove_user m name) cs in
      (other : ℕ) × (c : Credentials) × ((other == name) ≡ false)
      × (lookup other m'.users ≡ some c)
      × Presents sha256 m' q other c
unfolding remove_user
removed_user_locked_out sha256 l m name cs q now entered later s on h =
    let m' = run (remove_user m name) cs in
    let absent =
      run-absent (remove_user m name) name cs s (ground (arith, lookup-erase name name m.users)) in
    let (_, other, c, found, shown, _) =
      middleware_allows_known sha256 l m' q now entered later on h in
    (other, c, differs m'.users other name c found absent, found, shown)

lookup-erase_tokens :
    (name token : ℕ) (lo : ℕ) (tokens : Map ℕ)
    → From lo tokens
    → lookup token tokens ≡ some name ⊎ lookup token tokens ≡ none
    → lookup token (erase_tokens_of name tokens) ≡ none
unfolding erase_tokens_of
lookup-erase_tokens name token lo [] f h = refl
lookup-erase_tokens name token lo ((t, o) ∷ tokens) f h = ground (
  arith,
  f.0,
  h,
  lookup_below (t + 1) token tokens f.1,
  lookup-erase_tokens name token (t + 1) tokens f.1,
)

erase_tokens-From :
    (name lo : ℕ) (tokens : Map ℕ) → From lo tokens → From lo (erase_tokens_of name tokens)
unfolding erase_tokens_of
erase_tokens-From name lo [] f = tt
erase_tokens-From name lo ((t, o) ∷ tokens) f = ground (
  arith,
  f.0,
  erase_tokens-From name (t + 1) tokens f.1,
  From-mono lo (t + 1) (erase_tokens_of name tokens),
)

-- The token is not in the map.
record Dead (token : ℕ) (tokens : Map ℕ) : Type 0 where
  order : From 0 tokens
  gone : lookup token tokens ≡ none

after-Dead :
    (m : AuthManager) (token : ℕ) (c : Call)
    → Avoids token c
    → Dead token m.tokens
    → Dead token (after m c).tokens
unfolding add_user remove_user generate_token enable disable
after-Dead m token enables a d = d
after-Dead m token disables a d = d
after-Dead m token (adds c) a d = d
after-Dead m token (removes n) a d = record {
  order = erase_tokens-From n 0 m.tokens d.order;
  gone = lookup-erase_tokens n token 0 m.tokens d.order (inr d.gone);
}
after-Dead m token (generates n random) a d = elim (Bool-cases (Map.contains n m.users)) [
  | inr unknown ↦ rw (after, generate_token, unknown) d
  | inl known ↦
      rw (after, generate_token, known)
        (record {
          order = insert-From 0 random n m.tokens (omega arith) d.order;
          gone = ground (arith, a, d.gone, lookup-insert token random n m.tokens);
        })
]

run-Dead :
    (m : AuthManager) (token : ℕ) (cs : List Call)
    → All (Avoids token) cs
    → Dead token m.tokens
    → Dead token (run m cs).tokens
unfolding run
run-Dead m token [] a d = d
run-Dead m token (c ∷ cs) a d = run-Dead (after m c) token cs a.1 (after-Dead m token c a.0 d)

-- The tokens of a user who is removed die for good: after any calls that do not draw the same token again,
-- a new user of the same name among them, the token is refused while authentication is on.
pub removed_token_refused :
    (m : AuthManager) (name token method : ℕ) (cs : List Call)
    → From 0 m.tokens
    → lookup token m.tokens ≡ some name
    → All (Avoids token) cs
    → (run (remove_user m name) cs).enabled ≡ true
    → verify_token (run (remove_user m name) cs) token method ≡ false
unfolding remove_user verify_token
removed_token_refused m name token method cs f owned a on =
    let d = run-Dead (remove_user m name) token cs a (record {
      order = erase_tokens-From name 0 m.tokens f;
      gone = lookup-erase_tokens name token 0 m.tokens f (inl owned);
    }) in
    ground (arith, on, d.gone)
