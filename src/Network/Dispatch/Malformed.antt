-- ===== src/Network/Dispatch/Malformed.antt =====
-- What becomes of a peer whose payloads are malformed.
use sarafu_core.Base.{
  ℕ, ◌+◌, ◌*◌, ◌≤◌, ◌<◌, ◌≡◌, ◌∙◌, ap, ◌==◌, All, refl, arith, true, false, none, some, List, [],
  ◌∷◌, ltb, if◌then◌else◌, length, Bool-cases, inl, inr,
}
use sarafu_core.Base.Word.{u64_mod, add64}
use sarafu_core.Base.Map.{Map, lookup, insert, lookup-insert, lookup-insert_self, lookup-erase}
use sarafu_core.Network.Layer.{
  NetworkLayer, PeerId, PeerInfo, loss, new_reputation, update_reputation, ban_peer,
  default_ban_duration, is_peer_banned, touch_peer, mark_message_seen, is_message_seen,
  drop_expired, handle_message,
}
use sarafu_core.Network.Layer.Seen.{Arrival, touch-seen}
use sarafu_core.Network.Dispatch.{Handlers, decode_payload, handle_typed}

-- A peer that is connected with some score, which it loses.
struck :
    (n : NetworkLayer) (sender now : ℕ) (info : PeerInfo)
    → lookup sender n.peers ≡ some info
    → let n' = update_reputation n sender (loss 10) now in
      let score = new_reputation info.reputation_score (loss 10) in
      (lookup sender n'.peers
        ≡ (if ltb score 25 then none else some (record info { reputation_score = score })))
      × (lookup sender n'.banned_peers ≡ (
          if ltb score 25
          then some (add64 now default_ban_duration)
          else lookup sender n.banned_peers))
unfolding update_reputation ban_peer
struck n sender now info e =
    let score = new_reputation info.reputation_score (loss 10) in
    let info' = record info { reputation_score = score } in
    elim (Bool-cases (ltb score 25)) [
      | inl low ↦
          rw (update_reputation, e, low, ban_peer)
            (
              ground (arith, lookup-erase sender sender (insert sender info' n.peers)),
              lookup-insert_self sender (add64 now default_ban_duration) n.banned_peers,
            )
      | inr high ↦ rw (update_reputation, e, high) (lookup-insert_self sender info' n.peers, refl)
    ]

drop_expired-none :
    (hash now : ℕ) (seen : Map ℕ)
    → lookup hash seen ≡ none
    → lookup hash (drop_expired now seen) ≡ none
unfolding drop_expired
drop_expired-none hash now [] h = refl
drop_expired-none hash now ((j, time) ∷ seen) h = ground (arith, h, drop_expired-none hash now seen)

update_reputation-seen :
    (n : NetworkLayer) (peer now : ℕ)
    → (update_reputation n peer (loss 10) now).seen_messages ≡ n.seen_messages
unfolding update_reputation ban_peer
update_reputation-seen n peer now = ground arith

-- What the layer knows of a peer that sends it a new message, before the handler is called.
abbrev noticed : NetworkLayer → ℕ → PeerId → ℕ → NetworkLayer
noticed n hash sender now = touch_peer (mark_message_seen n hash now) sender now

noticed-peer :
    (n : NetworkLayer) (hash sender now : ℕ) (info : PeerInfo)
    → lookup sender n.peers ≡ some info
    → (lookup sender (noticed n hash sender now).peers ≡ some (record info { last_seen = now }))
      × ((noticed n hash sender now).banned_peers ≡ n.banned_peers)
unfolding touch_peer mark_message_seen
noticed-peer n hash sender now info e =
    rw (touch_peer, mark_message_seen, e)
      (lookup-insert_self sender (record info { last_seen = now }) n.peers, refl)

noticed_gone :
    (n : NetworkLayer) (hash sender now : ℕ)
    → lookup sender n.peers ≡ none
    → (lookup sender (noticed n hash sender now).peers ≡ none)
      × ((noticed n hash sender now).banned_peers ≡ n.banned_peers)
unfolding touch_peer mark_message_seen
noticed_gone n hash sender now e = rw (touch_peer, mark_message_seen, e) (e, refl)

gone_is_not_struck :
    (n : NetworkLayer) (sender now : ℕ)
    → lookup sender n.peers ≡ none
    → update_reputation n sender (loss 10) now ≡ n
unfolding update_reputation
gone_is_not_struck n sender now e = rw (update_reputation, e) refl

noticed-other :
    (n : NetworkLayer) (hash other sender now : ℕ)
    → (other == hash) ≡ false
    → is_message_seen n other ≡ false
    → lookup other (noticed n hash sender now).seen_messages ≡ none
unfolding mark_message_seen is_message_seen
noticed-other n hash other sender now apart new =
    ap (lookup other) (touch-seen (mark_message_seen n hash now) sender now)
    ∙ drop_expired-none other now (insert hash now n.seen_messages)
        (ground (arith, apart, new, lookup-insert other hash now n.seen_messages))

seen_none :
    (n : NetworkLayer) (hash : ℕ)
    → lookup hash n.seen_messages ≡ none
    → is_message_seen n hash ≡ false
unfolding is_message_seen
seen_none n hash e = ground (arith, e)

module _ (shuffle : List PeerId → List PeerId) (h : Handlers) (sender : PeerId) where
  -- A message of the sender comes in: the layer hands it to the handlers of its type.
  unfoldable pub arrive : NetworkLayer → Arrival → NetworkLayer
  arrive n a =
      (handle_message shuffle (λ n' m s. (handle_typed h n' m s a.now).0) n a.message sender
        a.now).0

  unfoldable pub run : NetworkLayer → List Arrival → NetworkLayer
  unfolding arrive
  run n [] = n
  run n (a ∷ rest) = run (arrive n a) rest

  -- Each is of a type with a handler, cannot be read, and has a hash of its own.
  abbrev pub Malformed : ℕ → List Arrival → Type 0
  Malformed lo [] = Unit
  Malformed lo (a ∷ rest) =
      (lo ≤ a.now)
      × (a.now + default_ban_duration < u64_mod)
      × (h.registered a.message.message_type ≡ true)
      × (decode_payload a.message.message_type a.message.payload ≡ none)
      × All (λ (b : Arrival). (b.message.hash == a.message.hash) ≡ false) rest
      × Malformed lo rest

  abbrev pub Unseen : NetworkLayer → List Arrival → Type 0
  Unseen n rest = All (λ (a : Arrival). is_message_seen n a.message.hash ≡ false) rest

  strike :
      (n : NetworkLayer) (a : Arrival)
      → is_message_seen n a.message.hash ≡ false
      → h.registered a.message.message_type ≡ true
      → decode_payload a.message.message_type a.message.payload ≡ none
      → arrive n a
        ≡ update_reputation (noticed n a.message.hash sender a.now) sender (loss 10) a.now
  unfolding arrive handle_message handle_typed
  strike n a new r m = rw (arrive, handle_message, new, handle_typed, r, m) refl

  arrive-Unseen :
      (n : NetworkLayer) (a : Arrival) (rest : List Arrival)
      → arrive n a
        ≡ update_reputation (noticed n a.message.hash sender a.now) sender (loss 10) a.now
      → All (λ (b : Arrival). (b.message.hash == a.message.hash) ≡ false) rest
      → Unseen n rest
      → Unseen (arrive n a) rest
  arrive-Unseen n a [] e apart new = tt
  arrive-Unseen n a (b ∷ rest) e apart new = (
    seen_none (arrive n a) b.message.hash (
        ap (λ (x : NetworkLayer). lookup b.message.hash x.seen_messages) e
        ∙ ap (lookup b.message.hash)
            (update_reputation-seen (noticed n a.message.hash sender a.now) sender a.now)
        ∙ noticed-other n a.message.hash b.message.hash sender a.now apart.0 new.0),
    arrive-Unseen n a rest e apart.1 new.1,
  )

  -- A peer that is not connected any more is not struck, and stays banned as it is.
  arrive_gone :
      (n : NetworkLayer) (a : Arrival)
      → h.registered a.message.message_type ≡ true
      → decode_payload a.message.message_type a.message.payload ≡ none
      → lookup sender n.peers ≡ none
      → (lookup sender (arrive n a).peers ≡ none) × ((arrive n a).banned_peers ≡ n.banned_peers)
  unfolding arrive handle_message
  arrive_gone n a r m gone = elim (Bool-cases (is_message_seen n a.message.hash)) [
    | inl again ↦ rw (arrive, handle_message, again) (gone, refl)
    | inr new ↦
        let n₁ = noticed n a.message.hash sender a.now in
        let (gone', bans) = noticed_gone n a.message.hash sender a.now gone in
        let same : arrive n a ≡ n₁ =
          strike n a new r m ∙ gone_is_not_struck n₁ sender a.now gone' in
        (
          ap (λ (x : NetworkLayer). lookup sender x.peers) same ∙ gone',
          ap (λ (x : NetworkLayer). x.banned_peers) same ∙ bans,
        )
  ]

  run_gone :
      (rest : List Arrival) (n : NetworkLayer) (lo : ℕ)
      → Malformed lo rest
      → lookup sender n.peers ≡ none
      → (lookup sender (run n rest).peers ≡ none) × ((run n rest).banned_peers ≡ n.banned_peers)
  unfolding run
  run_gone [] n lo m gone = (gone, refl)
  run_gone (a ∷ rest) n lo m gone =
      let (gone', bans) = arrive_gone n a m.2 m.3 gone in
      let (gone'', bans') = run_gone rest (arrive n a) lo m.5 gone' in (gone'', bans' ∙ bans)

  run_struck :
      (rest : List Arrival) (n : NetworkLayer) (lo : ℕ) (info : PeerInfo)
      → Malformed lo rest
      → Unseen n rest
      → lookup sender n.peers ≡ some info
      → info.reputation_score < 25 + 10 * length rest
      → 25 ≤ info.reputation_score
      → let n' = run n rest in
        (lookup sender n'.peers ≡ none)
        × (until : ℕ) × (lookup sender n'.banned_peers ≡ some until)
        × (lo + default_ban_duration ≤ until)
  unfolding run new_reputation
  run_struck [] n lo info m new e low high = absurd (omega (arith, low, high))
  run_struck (a ∷ rest) n lo info m new e low high =
      let n₁ = noticed n a.message.hash sender a.now in
      let score = new_reputation info.reputation_score (loss 10) in
      let info' = record info { last_seen = a.now } in
      let (there, same_bans) = noticed-peer n a.message.hash sender a.now info e in
      let (left, bans) = struck n₁ sender a.now info' there in
      let arrived = strike n a new.0 m.2 m.3 in
      let left' = ap (λ (x : NetworkLayer). lookup sender x.peers) arrived ∙ left in
      let bans' = ap (λ (x : NetworkLayer). lookup sender x.banned_peers) arrived ∙ bans in
      elim (Bool-cases (ltb score 25)) [
        | inl out ↦
            let gone : lookup sender (arrive n a).peers ≡ none = ground (arith, left', out) in
            let banned : lookup sender (arrive n a).banned_peers
                ≡ some (add64 a.now default_ban_duration) =
              ground (arith, bans', out) in
            let (gone', kept) = run_gone rest (arrive n a) lo m.5 gone in
            (
              gone',
              add64 a.now default_ban_duration,
              ap (lookup sender) kept ∙ banned,
              omega (arith, m.0, m.1),
            )
        | inr stays ↦
            let info'' = record info' { reputation_score = score } in
            let still : lookup sender (arrive n a).peers ≡ some info'' =
              ground (arith, left', stays) in
            run_struck rest (arrive n a) lo info'' m.5 (arrive-Unseen n a rest arrived m.4 new.1)
              still (omega (arith, low, high)) (ground (arith, stays))
      ]

  -- A peer that sends what cannot be read is soon gone: with a score of at most 100, not yet too low, and after
  -- eight messages with different hashes, not seen before, of types that have a handler and whose payloads
  -- cannot be decoded, each going through the layer's test of duplicates, it is not connected, and is banned
  -- for a day from `lo`, a time that none of them came before.
  pub unreadable_peer_is_banned :
      (n : NetworkLayer) (lo now : ℕ) (messages : List Arrival) (info : PeerInfo)
      → Malformed lo messages
      → Unseen n messages
      → lookup sender n.peers ≡ some info
      → 25 ≤ info.reputation_score
      → info.reputation_score ≤ 100
      → 8 ≤ length messages
      → now < lo + default_ban_duration
      → let n' = run n messages in
        (lookup sender n'.peers ≡ none) × (is_peer_banned n' sender now ≡ true)
  unfolding is_peer_banned
  unreadable_peer_is_banned n lo now messages info m new e high low many before =
      let (absent, until, banned, long) =
        run_struck messages n lo info m new e (omega (arith, low, many)) high in
      (absent, ground (arith, banned, long, before))
