-- ===== src/Rpc/RateLimiter/Window.antt =====
-- The sliding window of src/rpc/rate_limiter.cpp.
use sarafu_core.Base.{
  ℕ, ◌+◌, ◌<◌, ◌≤◌, ◌≡◌, ◌≢◌, subst, refl, arith, true, false, List, [], ◌∷◌, ◌++◌, ◌==◌, leb, ◌&&◌,
  if◌then◌else◌, length, Bool-cases, inl, inr,
}
use sarafu_core.Base.Map.{lookup, lookup-insert_self, lookup-insert_ne}
use sarafu_core.Rpc.RateLimiter.{
  RateLimitConfig, RateLimiter, new_rate_limiter, nanoseconds, cleanup_old_requests, timestamps_of,
  allow_request,
}

-- A call of AllowRequest with the two readings of the clock.
pub record Request : Type 0 where
  pub ip : ℕ
  pub now : ℕ
  pub entered : ℕ

-- The clock does not go back.
abbrev pub Clocked : ℕ → List Request → Type 0
Clocked lo [] = Unit
Clocked lo (q ∷ qs) = (lo ≤ q.now) × (q.now ≤ q.entered) × Clocked q.entered qs

-- The times at which the requests of an address are allowed.
unfoldable pub admitted : RateLimiter → ℕ → List Request → List ℕ
admitted l ip [] = []
admitted l ip (q ∷ qs) =
    let (l', allowed) = allow_request l q.ip q.now q.entered in
    let rest = admitted l' ip qs in if allowed && q.ip == ip then q.entered ∷ rest else rest

-- How many times of a list are between two.
abbrev pub count_between : ℕ → ℕ → List ℕ → ℕ
count_between a b [] = 0
count_between a b (t ∷ ts) = (if leb a t && leb t b then 1 else 0) + count_between a b ts

count-append :
    (a b : ℕ) (ts us : List ℕ)
    → count_between a b (ts ++ us) ≡ count_between a b ts + count_between a b us
count-append a b [] us = omega arith
count-append a b (t ∷ ts) us = omega (arith, count-append a b ts us)

count-le : (a b : ℕ) (ts : List ℕ) → count_between a b ts ≤ length ts
count-le a b [] = omega arith
count-le a b (t ∷ ts) = ground (arith, count-le a b ts)

-- Cleaning up while the window still reaches back to `a` takes away nothing from `a` on.
count-cleanup :
    (window a b now : ℕ) (ts : List ℕ)
    → now ≤ a + nanoseconds window
    → count_between a b (cleanup_old_requests window now ts) ≡ count_between a b ts
unfolding cleanup_old_requests
count-cleanup window a b now [] h = refl
count-cleanup window a b now (t ∷ ts) h = ground (arith, h, count-cleanup window a b now ts h)

history : RateLimiter → ℕ → List ℕ
history l ip = timestamps_of (lookup ip l.request_history)

count_after :
    (l : RateLimiter) (ip a b lo : ℕ) (qs : List Request)
    → b < lo
    → Clocked lo qs
    → count_between a b (admitted l ip qs) ≡ 0
unfolding admitted
count_after l ip a b lo [] h c = refl
count_after l ip a b lo (q ∷ qs) h c = ground (
  arith,
  h,
  c.0,
  c.1,
  count_after (allow_request l q.ip q.now q.entered).0 ip a b q.entered qs
      (omega (arith, h, c.0, c.1)) c.2,
)

-- What one call does to the history of its address: the cleanup, and the entry where it is allowed.
history-own :
    (l : RateLimiter) (q : Request)
    → let (l', allowed) = allow_request l q.ip q.now q.entered in
      let kept = cleanup_old_requests l.config.time_window q.now (history l q.ip) in
      history l' q.ip ≡ (if allowed then kept ++ q.entered ∷ [] else kept)
unfolding history allow_request
history-own l q =
    let kept =
      cleanup_old_requests l.config.time_window q.now
        (timestamps_of (lookup q.ip l.request_history)) in
    elim (Bool-cases (leb l.config.max_requests_per_window (length kept))) [
      | inl full ↦ rw (full, allow_request, history, lookup-insert_self q.ip kept l.request_history)
      | inr room ↦ rw (
        room,
        allow_request,
        history,
        lookup-insert_self q.ip (kept ++ q.entered ∷ []) l.request_history,
      )
    ]

history-other :
    (l : RateLimiter) (q : Request) (ip : ℕ)
    → (q.ip == ip) ≡ false
    → history (allow_request l q.ip q.now q.entered).0 ip ≡ history l ip
unfolding history allow_request
history-other l q ip h =
    let kept =
      cleanup_old_requests l.config.time_window q.now
        (timestamps_of (lookup q.ip l.request_history)) in
    let apart : ip ≢ q.ip = λ e. absurd (ground (arith, e, h)) in
    elim (Bool-cases (leb l.config.max_requests_per_window (length kept))) [
      | inl full ↦
          rw (full, allow_request, history, lookup-insert_ne ip q.ip kept l.request_history apart)
      | inr room ↦ rw (
        room,
        allow_request,
        history,
        lookup-insert_ne ip q.ip (kept ++ q.entered ∷ []) l.request_history apart,
      )
    ]

config-allow :
    (l : RateLimiter) (q : Request) → (allow_request l q.ip q.now q.entered).0.config ≡ l.config
unfolding allow_request
config-allow l q = ground arith

allowed_has_room :
    (l : RateLimiter) (q : Request)
    → (allow_request l q.ip q.now q.entered).1 ≡ true
    → length (cleanup_old_requests l.config.time_window q.now (history l q.ip))
      < l.config.max_requests_per_window
unfolding allow_request history
allowed_has_room l q h = ground (arith, h)

-- One call adds to the count of an address what it admits of it, and keeps the count within the maximum.
count-call :
    (l : RateLimiter) (q : Request) (ip a : ℕ)
    → let b = a + nanoseconds l.config.time_window in
      let (l', allowed) = allow_request l q.ip q.now q.entered in
      q.now ≤ b
      → count_between a b (history l ip) ≤ l.config.max_requests_per_window
      → (count_between a b (if allowed && q.ip == ip then q.entered ∷ [] else [])
            + count_between a b (history l ip)
          ≡ count_between a b (history l' ip))
        × (count_between a b (history l' ip) ≤ l.config.max_requests_per_window)
count-call l q ip a within room =
    let b = a + nanoseconds l.config.time_window in
    let (l', allowed) = allow_request l q.ip q.now q.entered in
    let kept = cleanup_old_requests l.config.time_window q.now (history l ip) in
    elim (Bool-cases (q.ip == ip)) [
      | inr other ↦ rw (other, history-other l q ip other) (ground (arith, room))
      | inl own ↦
          let e : q.ip ≡ ip = ground (arith, own) in
          let same =
            subst
              (λ n. history l' n ≡ (
                let k = cleanup_old_requests l.config.time_window q.now (history l n) in
                if allowed then k ++ q.entered ∷ [] else k))
              e (history-own l q) in
          let unchanged = count-cleanup l.config.time_window a b q.now (history l ip) within in
          elim (Bool-cases allowed) [
            | inr refused ↦
                rw (own, same, refused) (omega (arith, unchanged), omega (arith, unchanged, room))
            | inl admits ↦
                let free =
                  subst
                    (λ n.
                      length (cleanup_old_requests l.config.time_window q.now (history l n))
                      < l.config.max_requests_per_window)
                    e (allowed_has_room l q admits) in
                let both = count-append a b kept (q.entered ∷ []) in
                rw (own, same, admits)
                  (
                    omega (arith, unchanged, both),
                    ground (arith, unchanged, both, count-le a b kept, free),
                  )
          ]
    ]

admitted-cons :
    (l : RateLimiter) (ip : ℕ) (q : Request) (qs : List Request) (a b : ℕ)
    → let (l', allowed) = allow_request l q.ip q.now q.entered in
      count_between a b (admitted l ip (q ∷ qs))
      ≡ count_between a b (if allowed && q.ip == ip then q.entered ∷ [] else [])
        + count_between a b (admitted l' ip qs)
unfolding admitted
admitted-cons l ip q qs a b =
    elim (Bool-cases ((allow_request l q.ip q.now q.entered).1 && q.ip == ip)) [
      | inl e ↦ rw (admitted, e) (omega arith)
      | inr e ↦ rw (admitted, e) (omega arith)
    ]

count-room :
    (l : RateLimiter) (ip a lo : ℕ) (qs : List Request)
    → Clocked lo qs
    → let b = a + nanoseconds l.config.time_window in
      count_between a b (history l ip) ≤ l.config.max_requests_per_window
      → count_between a b (admitted l ip qs) + count_between a b (history l ip)
        ≤ l.config.max_requests_per_window
unfolding admitted
count-room l ip a lo [] c room = omega (arith, room)
count-room l ip a lo (q ∷ qs) c room =
    let window = l.config.time_window in
    let b = a + nanoseconds window in
    elim (Bool-cases (leb q.now b)) [
      | inr past ↦ omega (
        arith,
        room,
        count_after l ip a b q.now (q ∷ qs) (ground (arith, past)) (omega arith, c.1, c.2),
      )
      | inl within ↦
          let l' = (allow_request l q.ip q.now q.entered).0 in
          let same = config-allow l q in
          let rest = rw same at (count-room l' ip a q.entered qs c.2) in
          let (moved, still) = count-call l q ip a (ground (arith, within)) room in
          omega (arith, moved, still, rest still, admitted-cons l ip q qs a b)
    ]

-- The limiter keeps its promise for every window, not only for the one that ends now: however requests come
-- from all addresses, on a clock that does not go back, no more than the maximum of an address's requests
-- are admitted in any span as long as the time window.
pub requests_within_window :
    (config : RateLimitConfig) (ip a : ℕ) (qs : List Request)
    → Clocked 0 qs
    → count_between a
        (a + nanoseconds config.time_window)
        (admitted (new_rate_limiter config) ip qs)
      ≤ config.max_requests_per_window
unfolding new_rate_limiter history
requests_within_window config ip a qs c =
    omega (arith, count-room (new_rate_limiter config) ip a 0 qs c (omega arith))
