-- ===== src/Network/Tests.antt =====
-- Peers and messages to which the theorems on the network apply.
use sarafu_core.Base.{ℕ, ◌≡◌, refl, arith, Bool, true, false, none, some, List, [], ◌∷◌, length}
use sarafu_core.Base.Map.{lookup}
use sarafu_core.Consensus.Tests.{vote}
use sarafu_core.Network.Messages.{
  NetworkMessage, serialize_vote, deserialize_vote, deserialize_vote,
}
use sarafu_core.Network.Messages.RoundTrip.{deserialize_vote_drops_signature}
use sarafu_core.Network.Layer.{
  NetworkLayer, PeerInfo, PeerId, maintain_connections, handle_message, is_message_seen,
  is_peer_banned,
}
use sarafu_core.Network.Layer.Peers.{maintain_connections_bounds}
use sarafu_core.Network.Layer.Seen.{Arrival, duplicate_ignored}
use sarafu_core.Network.Layer.Seen
use sarafu_core.Network.Dispatch.{Handlers, decode_payload}
use sarafu_core.Network.Dispatch.Malformed.{unreadable_peer_is_banned}
use sarafu_core.Network.Dispatch.Malformed

deserialize_vote_drops_signature_example :
    deserialize_vote (serialize_vote (vote 5)) ≡ some (record (vote 5) { signature = 0 })
deserialize_vote_drops_signature_example = deserialize_vote_drops_signature (vote 5) (record {
  height_fits = omega arith;
  hash_fits = omega arith;
  view_fits = omega arith;
  id_fits = omega arith;
  signature_fits = omega arith;
})

abbrev peer : ℕ → Bool → ℕ → PeerInfo
peer id is_validator score = record {
  id = id;
  addresses = [];
  is_validator = is_validator;
  last_seen = 50;
  reputation_score = score;
}

abbrev layer : NetworkLayer
layer = record {
  config = record { min_peers = 1; max_peers = 2; gossip_fanout = 2 };
  peers = (1, peer 1 true 90) ∷ (2, peer 2 false 100) ∷ (3, peer 3 false 80) ∷ [];
  banned_peers = (9, 40) ∷ [];
  seen_messages = [];
  initialized = true;
}

maintain_connections_bounds_example : length (maintain_connections layer 60).peers ≡ 2
maintain_connections_bounds_example =
    maintain_connections_bounds layer 60 refl (omega arith, (omega arith, (omega arith, tt)))
      (refl, omega arith, (refl, omega arith, (refl, omega arith, tt)))

abbrev message : ℕ → NetworkMessage
message hash = record { message_type = 2; payload = 1 ∷ 2 ∷ []; hash = hash }

abbrev arrival : ℕ → ℕ → ℕ → Arrival
arrival hash sender now = record { message = message hash; sender = sender; now = now }

abbrev silent : NetworkLayer → NetworkMessage → PeerId → NetworkLayer
silent n m s = n

duplicate_ignored_example :
    let n' =
      Seen.run (λ xs. xs) silent (λ n m s. refl) layer (arrival 7 1 100 ∷ arrival 8 2 200 ∷ []) in
    handle_message (λ xs. xs) silent n' (message 7) 3 300 ≡ (n', none)
unfolding is_message_seen
duplicate_ignored_example =
    duplicate_ignored (λ xs. xs) silent (λ n m s. refl) layer (arrival 7 1 100) (arrival 7 3 300)
      (arrival 8 2 200 ∷ []) refl refl (omega arith, omega arith) (omega arith) (omega arith)

abbrev handlers : Handlers
handlers = record { registered = λ t. true; accepts = λ x. true }

-- Two bytes that no vote has, with different hashes.
abbrev junk : List Arrival
junk =
    arrival 1 3 100
    ∷ arrival 2 3 101
    ∷ arrival 3 3 102
    ∷ arrival 4 3 103
    ∷ arrival 5 3 104
    ∷ arrival 6 3 105
    ∷ arrival 7 3 106
    ∷ arrival 8 3 107
    ∷ []

junk-Malformed : Malformed.Malformed (λ xs. xs) handlers 3 100 junk
unfolding decode_payload deserialize_vote
junk-Malformed = (
  omega arith,
  omega arith,
  refl,
  refl,
  (refl, (refl, (refl, (refl, (refl, (refl, (refl, tt))))))),
  (
    omega arith,
    omega arith,
    refl,
    refl,
    (refl, (refl, (refl, (refl, (refl, (refl, tt)))))),
    (
      omega arith,
      omega arith,
      refl,
      refl,
      (refl, (refl, (refl, (refl, (refl, tt))))),
      (
        omega arith,
        omega arith,
        refl,
        refl,
        (refl, (refl, (refl, (refl, tt)))),
        (
          omega arith,
          omega arith,
          refl,
          refl,
          (refl, (refl, (refl, tt))),
          (
            omega arith,
            omega arith,
            refl,
            refl,
            (refl, (refl, tt)),
            (
              omega arith,
              omega arith,
              refl,
              refl,
              (refl, tt),
              (omega arith, omega arith, refl, refl, tt, tt),
            ),
          ),
        ),
      ),
    ),
  ),
)

unreadable_peer_is_banned_example :
    let n' = Malformed.run (λ xs. xs) handlers 3 layer junk in
    (lookup 3 n'.peers ≡ none) × (is_peer_banned n' 3 5000 ≡ true)
unfolding is_message_seen
unreadable_peer_is_banned_example =
    unreadable_peer_is_banned (λ xs. xs) handlers 3 layer 100 5000 junk (peer 3 false 80)
      junk-Malformed (refl, (refl, (refl, (refl, (refl, (refl, (refl, (refl, tt)))))))) refl
      (omega arith) (omega arith) (omega arith) (omega arith)
