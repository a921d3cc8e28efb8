-- ===== src/Network/Layer/Seen.antt =====
-- Duplicates: what the layer does with a message that it has seen.
use sarafu_core.Base.{
  ℕ, ◌+◌, ◌≤◌, ◌<◌, ◌≡◌, refl, sym, subst, ◌∙◌, arith, true, false, none, some, List, [], ◌∷◌, ◌==◌,
  ltb, Bool-cases, inl, inr,
}
use sarafu_core.Base.Word.{u64_mod, sub64}
use sarafu_core.Base.Map.{Map, lookup, insert, lookup-insert}
use sarafu_core.Network.Messages.{NetworkMessage}
use sarafu_core.Network.Layer.{
  NetworkLayer, PeerId, seen_message_ttl, is_message_seen, drop_expired, mark_message_seen,
  touch_peer, handle_message,
}

-- A message that comes in.
pub record Arrival : Type 0 where
  pub message : NetworkMessage
  pub sender : PeerId
  pub now : ℕ

-- The clock does not go back, and stays within `last`.
abbrev pub Clocked : ℕ → ℕ → List Arrival → Type 0
Clocked lo last [] = lo ≤ last
Clocked lo last (a ∷ rest) = (lo ≤ a.now) × Clocked a.now last rest

Clocked-le : (lo last : ℕ) (rest : List Arrival) → Clocked lo last rest → lo ≤ last
Clocked-le lo last [] c = c
Clocked-le lo last (a ∷ rest) c = omega (arith, c.0, Clocked-le a.now last rest c.1)

-- The hash was marked at a time from `lo` to `hi`.
record Marked (hash lo hi : ℕ) (seen : Map ℕ) : Type 0 where
  time : ℕ
  stored : lookup hash seen ≡ some time
  from : lo ≤ time
  to : time ≤ hi

drop_expired_keeps :
    (hash now t : ℕ) (seen : Map ℕ)
    → lookup hash seen ≡ some t
    → ltb seen_message_ttl (sub64 now t) ≡ false
    → lookup hash (drop_expired now seen) ≡ some t
unfolding drop_expired
drop_expired_keeps hash now t [] h k = absurd (ground (arith, h))
drop_expired_keeps hash now t ((j, u) ∷ seen) h k = elim (Bool-cases (hash == j)) [
  | inl here ↦
      let e : u ≡ t = ground (arith, h, here) in
      let kept : ltb seen_message_ttl (sub64 now u) ≡ false =
        subst (λ x. ltb seen_message_ttl (sub64 now x) ≡ false) (sym e) k in
      rw (drop_expired, kept) (ground (arith, h, here))
  | inr other ↦ elim (Bool-cases (ltb seen_message_ttl (sub64 now u))) [
    | inl old ↦
        rw (drop_expired, old) (drop_expired_keeps hash now t seen (ground (arith, h, other)) k)
    | inr recent ↦
        rw (drop_expired, recent)
          (ground (arith, other, drop_expired_keeps hash now t seen (ground (arith, h, other)) k))
  ]
]

-- While no more than the time to live has passed, a marked hash stays marked.
mark-Marked :
    (n : NetworkLayer) (hash other lo hi now : ℕ)
    → Marked hash lo hi n.seen_messages
    → hi ≤ now
    → now ≤ lo + seen_message_ttl
    → now < u64_mod
    → Marked hash lo now (mark_message_seen n other now).seen_messages
unfolding mark_message_seen
mark-Marked n hash other lo hi now m h k w = elim (Bool-cases (hash == other)) [
  | inl same ↦ record {
    time = now;
    stored =
        drop_expired_keeps hash now now (insert other now n.seen_messages)
          (ground (arith, same, lookup-insert hash other now n.seen_messages)) (ground (arith, w));
    from = omega (arith, m.from, m.to, h);
    to = omega arith;
  }
  | inr apart ↦ record {
    time = m.time;
    stored =
        drop_expired_keeps hash now m.time (insert other now n.seen_messages)
          (ground (arith, apart, m.stored, lookup-insert hash other now n.seen_messages))
          (ground (arith, w, m.from, m.to, h, k));
    from = m.from;
    to = omega (arith, m.to, h);
  }
]

mark_self :
    (n : NetworkLayer) (hash now : ℕ)
    → now < u64_mod
    → Marked hash now now (mark_message_seen n hash now).seen_messages
unfolding mark_message_seen
mark_self n hash now w = record {
  time = now;
  stored =
      drop_expired_keeps hash now now (insert hash now n.seen_messages)
        (ground (arith, lookup-insert hash hash now n.seen_messages)) (ground (arith, w));
  from = omega arith;
  to = omega arith;
}

pub touch-seen :
    (n : NetworkLayer) (peer now : ℕ) → (touch_peer n peer now).seen_messages ≡ n.seen_messages
unfolding touch_peer
touch-seen n peer now = ground arith

module _ (shuffle : List PeerId → List PeerId)
    (handler : NetworkLayer → NetworkMessage → PeerId → NetworkLayer)
    (keeps : (n : NetworkLayer) (m : NetworkMessage) (s : PeerId)
      → (handler n m s).seen_messages ≡ n.seen_messages) where
  unfoldable pub run : NetworkLayer → List Arrival → NetworkLayer
  run n [] = n
  run n (a ∷ rest) = run (handle_message shuffle handler n a.message a.sender a.now).0 rest

  -- What a call leaves of the marks: as they were for a duplicate, the message's own added for a new one.
  handle-seen :
      (n : NetworkLayer) (m : NetworkMessage) (s : PeerId) (now : ℕ)
      → is_message_seen n m.hash ≡ false
      → (handle_message shuffle handler n m s now).0.seen_messages
        ≡ (mark_message_seen n m.hash now).seen_messages
  unfolding handle_message
  handle-seen n m s now new =
      let n₁ = touch_peer (mark_message_seen n m.hash now) s now in
      rw (handle_message, new) (keeps n₁ m s ∙ touch-seen (mark_message_seen n m.hash now) s now)

  handle-Marked :
      (n : NetworkLayer) (a : Arrival) (hash lo hi : ℕ)
      → Marked hash lo hi n.seen_messages
      → hi ≤ a.now
      → a.now ≤ lo + seen_message_ttl
      → a.now < u64_mod
      → Marked hash lo a.now
          (handle_message shuffle handler n a.message a.sender a.now).0.seen_messages
  unfolding handle_message
  handle-Marked n a hash lo hi m h k w = elim (Bool-cases (is_message_seen n a.message.hash)) [
    | inl again ↦
        rw (handle_message, again)
          (record { time = m.time; stored = m.stored; from = m.from; to = omega (arith, m.to, h) })
    | inr new ↦
        subst (λ seen. Marked hash lo a.now seen) (sym (handle-seen n a.message a.sender a.now new))
          (mark-Marked n hash a.message.hash lo hi a.now m h k w)
  ]

  run-Marked :
      (n : NetworkLayer) (rest : List Arrival) (hash lo hi last : ℕ)
      → Marked hash lo hi n.seen_messages
      → Clocked hi last rest
      → last ≤ lo + seen_message_ttl
      → last < u64_mod
      → Marked hash lo last (run n rest).seen_messages
  unfolding run
  run-Marked n [] hash lo hi last m c k w = record {
    time = m.time;
    stored = m.stored;
    from = m.from;
    to = omega (arith, m.to, c);
  }
  run-Marked n (a ∷ rest) hash lo hi last m c k w =
      let bound = Clocked-le a.now last rest c.1 in
      run-Marked (handle_message shuffle handler n a.message a.sender a.now).0 rest hash lo a.now
        last
        (handle-Marked n a hash lo hi m c.0 (omega (arith, bound, k)) (omega (arith, bound, w))) c.1
        k w

  -- A message is handled and relayed once: after it comes in for the first time, and whatever comes in then, a message
  -- with the same hash is ignored and changes nothing, from whomever it comes, until the time to live has
  -- passed. The clock does not go back, and the handlers do not touch the seen messages.
  pub duplicate_ignored :
      (n : NetworkLayer) (first again : Arrival) (rest : List Arrival)
      → is_message_seen n first.message.hash ≡ false
      → again.message.hash ≡ first.message.hash
      → Clocked first.now again.now rest
      → again.now ≤ first.now + seen_message_ttl
      → again.now < u64_mod
      → let n' = run n (first ∷ rest) in
        handle_message shuffle handler n' again.message again.sender again.now ≡ (n', none)
  unfolding run handle_message is_message_seen
  duplicate_ignored n first again rest new same c k w =
      let n₁ = (handle_message shuffle handler n first.message first.sender first.now).0 in
      let bound = Clocked-le first.now again.now rest c in
      let marked =
        subst (λ seen. Marked first.message.hash first.now first.now seen)
          (sym (handle-seen n first.message first.sender first.now new))
          (mark_self n first.message.hash first.now (omega (arith, bound, w))) in
      let kept = run-Marked n₁ rest first.message.hash first.now first.now again.now marked c k w in
      let seen : is_message_seen (run n₁ rest) again.message.hash ≡ true =
        ground (arith, same, kept.stored) in
      rw (handle_message, seen) refl
