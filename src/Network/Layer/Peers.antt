-- ===== src/Network/Layer/Peers.antt =====
-- How many peers stay, and whom gossip reaches.
use sarafu_core.Base.{
  ℕ, zero, suc, ◌+◌, ◌-◌, ◌<◌, ◌≤◌, ◌≡◌, ◌⊎◌, refl, ap, arith, min, Bool, true, false, none, List,
  [], ◌∷◌, ◌++◌, ◌==◌, ltb, length, take, length-take, length-append, Bool-cases, inl, inr,
}
use sarafu_core.Base.Map.{Map, From, lookup, insert, erase, erase-From, lookup_below}
use sarafu_core.Base.Map
use sarafu_core.Network.Layer.{
  PeerId, PeerInfo, NetworkLayer, lowest_non_validator, oldest_peer, to_disconnect,
  disconnect_excess, maintain_connections, validators_of, select_gossip_peers,
}

-- Every peer has an id that is not empty and was seen before the end of time.
abbrev pub Plain : Map PeerInfo → Type 0
Plain [] = Unit
Plain ((peer, info) ∷ rest) =
    ((peer == 0) ≡ false) × (info.last_seen < 18446744073709551615) × Plain rest

-- The peer found is one of the map, or what was found before.
abbrev Found : PeerId → PeerId → Map PeerInfo → Type 0
Found x found peers = (x ≡ found) ⊎ (Map.contains x peers ≡ true)

lowest-Found :
    (found lowest : ℕ) (peers : Map PeerInfo)
    → Found (lowest_non_validator found lowest peers) found peers
unfolding lowest_non_validator
lowest-Found found lowest [] = inl refl
lowest-Found found lowest ((peer, info) ∷ rest) =
    ground (arith, lowest-Found found lowest rest, lowest-Found peer info.reputation_score rest)

oldest-Found :
    (found oldest : ℕ) (peers : Map PeerInfo) → Found (oldest_peer found oldest peers) found peers
unfolding oldest_peer
oldest-Found found oldest [] = inl refl
oldest-Found found oldest ((peer, info) ∷ rest) =
    ground (arith, oldest-Found found oldest rest, oldest-Found peer info.last_seen rest)

oldest_nonzero :
    (found oldest : ℕ) (peers : Map PeerInfo)
    → Plain peers
    → (found == 0) ≡ false
    → (oldest_peer found oldest peers == 0) ≡ false
unfolding oldest_peer
oldest_nonzero found oldest [] pl h = h
oldest_nonzero found oldest ((peer, info) ∷ rest) pl h =
    ground (arith, h, pl, oldest_nonzero found oldest rest, oldest_nonzero peer info.last_seen rest)

to_disconnect_nonzero :
    (peer : ℕ) (info : PeerInfo) (rest : Map PeerInfo)
    → Plain ((peer, info) ∷ rest)
    → (to_disconnect ((peer, info) ∷ rest) == 0) ≡ false
unfolding to_disconnect oldest_peer
to_disconnect_nonzero peer info rest pl =
    ground (arith, pl, oldest_nonzero peer info.last_seen rest pl.2)

to_disconnect_known :
    (peers : Map PeerInfo)
    → (to_disconnect peers == 0) ≡ false
    → Map.contains (to_disconnect peers) peers ≡ true
unfolding to_disconnect
to_disconnect_known peers h =
    ground (arith, h, lowest-Found 0 101 peers, oldest-Found 0 18446744073709551615 peers)

erase_absent : (k : ℕ) (peers : Map PeerInfo) → lookup k peers ≡ none → erase k peers ≡ peers
erase_absent k [] h = refl
erase_absent k ((j, w) ∷ m) h = ground (arith, h, erase_absent k m)

length-erase :
    (lo k : ℕ) (peers : Map PeerInfo)
    → From lo peers
    → Map.contains k peers ≡ true
    → suc (length (erase k peers)) ≡ length peers
length-erase lo k [] f h = absurd (ground (arith, h))
length-erase lo k ((j, w) ∷ m) f h = elim (Bool-cases (k == j)) [
  | inl here ↦
      let e : k ≡ j = ground (arith, here) in
      let absent : lookup k m ≡ none = lookup_below (j + 1) k m f.1 (omega (arith, e)) in
      rw (here, erase_absent k m absent) refl
  | inr other ↦ rw other (ap suc (length-erase (j + 1) k m f.1 (ground (arith, other, h))))
]

Plain-erase : (k : ℕ) (peers : Map PeerInfo) → Plain peers → Plain (erase k peers)
Plain-erase k [] pl = tt
Plain-erase k ((j, w) ∷ m) pl = ground (arith, pl, Plain-erase k m)

disconnected :
    (fuel max_peers : ℕ) (peers : Map PeerInfo)
    → From 0 peers
    → Plain peers
    → length peers ≤ fuel
    → length (disconnect_excess fuel max_peers peers) ≡ min max_peers (length peers)
unfolding disconnect_excess
disconnected zero max_peers peers f pl h = omega (arith, h)
disconnected (suc fuel) max_peers [] f pl h = ground arith
disconnected (suc fuel) max_peers ((peer, info) ∷ rest) f pl h =
    let peers = (peer, info) ∷ rest in
    let some_peer = to_disconnect_nonzero peer info rest pl in
    let shorter =
      length-erase 0 (to_disconnect peers) peers f (to_disconnect_known peers some_peer) in
    let next =
      disconnected fuel max_peers (erase (to_disconnect peers) peers)
        (erase-From 0 (to_disconnect peers) peers f) (Plain-erase (to_disconnect peers) peers pl)
        (omega (arith, shorter, h)) in
    elim (Bool-cases (ltb max_peers (length peers))) [
      | inr few ↦ rw (disconnect_excess, few) (ground (arith, few))
      | inl excess ↦
          rw (disconnect_excess, excess, some_peer) (ground (arith, excess, next, shorter))
    ]

-- Maintenance of an initialized layer ends with no more peers than the maximum, and takes away no more than
-- it must: where every peer has an id and was seen before the last second of the clock, the smaller of their
-- number and the maximum stays connected. None is added, below the minimum either.
pub maintain_connections_bounds :
    (n : NetworkLayer) (now : ℕ)
    → n.initialized ≡ true
    → From 0 n.peers
    → Plain n.peers
    → length (maintain_connections n now).peers ≡ min n.config.max_peers (length n.peers)
unfolding maintain_connections
maintain_connections_bounds n now on f pl =
    rw (maintain_connections, on)
      (disconnected (length n.peers) n.config.max_peers n.peers f pl (omega arith))

length-validators_of :
    (peers : Map PeerInfo)
    → length (validators_of true peers) + length (validators_of false peers) ≡ length peers
unfolding validators_of
length-validators_of [] = refl
length-validators_of ((peer, info) ∷ rest) = ground (arith, length-validators_of rest)

-- Gossip reaches as many peers as it may: the fanout, or all where there are no more, validators first or
-- not, whatever the order in which they are drawn.
pub select_gossip_peers-length :
    (shuffle : List PeerId → List PeerId) (n : NetworkLayer) (count : ℕ) (prioritize : Bool)
    → ((xs : List PeerId) → length (shuffle xs) ≡ length xs)
    → length (select_gossip_peers shuffle n count prioritize) ≡ min count (length n.peers)
unfolding select_gossip_peers
select_gossip_peers-length shuffle n count prioritize same =
    let vs = validators_of true n.peers in
    let ws = validators_of false n.peers in
    let all = length-validators_of n.peers in
    let chosen = take (min count (length vs)) (shuffle vs) in
    let chosen_length = length-take (min count (length vs)) (shuffle vs) in
    let more = take (min (count - length chosen) (length ws)) (shuffle ws) in
    let more_length = length-take (min (count - length chosen) (length ws)) (shuffle ws) in
    let both = length-append chosen more in
    elim (Bool-cases prioritize) [
      | inr any ↦
          rw (select_gossip_peers, any)
            (omega (
              arith,
              all,
              same (vs ++ ws),
              length-append vs ws,
              length-take (min count (length (vs ++ ws))) (shuffle (vs ++ ws)),
            ))
      | inl first ↦ elim (Bool-cases (ltb (length chosen) count)) [
        | inl room ↦
            rw (select_gossip_peers, first, room)
              (ground (arith, room, all, same vs, same ws, chosen_length, more_length, both))
        | inr full ↦
            rw (select_gossip_peers, first, full)
              (ground (arith, full, all, same vs, chosen_length))
      ]
    ]
