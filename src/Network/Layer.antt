-- ===== src/Network/Layer.antt =====
-- The peers, bans and seen messages of src/network/network_layer.cpp. A peer id is a number, the empty
-- string 0. The clock, in seconds, and the random order of peers are arguments.
pub mod Peers
pub mod Seen
use sarafu_core.Base.{
  ℕ, zero, suc, ◌+◌, ◌-◌, min, Bool, true, false, not, Option, none, some, List, [], ◌∷◌, ◌++◌,
  ◌==◌, ltb, leb, ◌&&◌, if◌then◌else◌, length, take,
}
use sarafu_core.Base.Word.{add64, sub64}
use sarafu_core.Base.Map.{Map, lookup, insert, erase}
use sarafu_core.Base.Map
use sarafu_core.State.Types.{Hash}
use sarafu_core.Network.Messages.{NetworkMessage}

abbrev pub PeerId : Type 0
PeerId = ℕ

pub record PeerInfo : Type 0 where
  pub id : PeerId
  pub addresses : List (List ℕ)
  pub is_validator : Bool
  pub last_seen : ℕ
  pub reputation_score : ℕ

-- The fields that are read after the host has been started.
pub record NetworkConfig : Type 0 where
  pub min_peers : ℕ
  pub max_peers : ℕ
  pub gossip_fanout : ℕ

pub record NetworkLayer : Type 0 where
  pub config : NetworkConfig
  pub peers : Map PeerInfo
  pub banned_peers : Map ℕ
  pub seen_messages : Map ℕ
  pub initialized : Bool

abbrev pub default_ban_duration : ℕ
default_ban_duration = 86400

abbrev pub seen_message_ttl : ℕ
seen_message_ttl = 3600

unfoldable pub is_connected : NetworkLayer → PeerId → Bool
is_connected n peer = Map.contains peer n.peers

unfoldable pub peer_count : NetworkLayer → ℕ
peer_count n = length n.peers

unfoldable pub is_peer_banned : NetworkLayer → PeerId → ℕ → Bool
is_peer_banned n peer now = elim (lookup peer n.banned_peers) [
  | none ↦ false
  | some until ↦ ltb now until
]

-- What connect_to_peers does with a peer once a connection to it stands.
unfoldable pub peer_connected : NetworkLayer → PeerId → List ℕ → ℕ → NetworkLayer × Bool
peer_connected n peer peer_addr now =
    if Map.contains peer n.peers
    then (n, false)
    else (if is_peer_banned n peer now then (n, false) else (
      record n {
        peers =
            insert peer
              (record {
                id = peer;
                addresses = peer_addr ∷ [];
                is_validator = false;
                last_seen = now;
                reputation_score = 100;
              })
              n.peers;
      },
      true,
    ))

unfoldable pub ban_peer : NetworkLayer → PeerId → ℕ → ℕ → NetworkLayer
ban_peer n peer duration_seconds now = record n {
  peers = erase peer n.peers;
  banned_peers = insert peer (add64 now duration_seconds) n.banned_peers;
}

-- The change of a score, an int of either sign.
pub data Delta : Type 0 where
  gain loss : ℕ → Delta

-- Bounded by 0 and 100.
unfoldable pub new_reputation : ℕ → Delta → ℕ
new_reputation score (gain d) = min 100 (score + d)
new_reputation score (loss d) = min 100 (score - d)

unfoldable pub update_reputation : NetworkLayer → PeerId → Delta → ℕ → NetworkLayer
update_reputation n peer delta now = elim (lookup peer n.peers) [
  | none ↦ n
  | some info ↦
      let score = new_reputation info.reputation_score delta in
      let n' = record n {
        peers = insert peer (record info { reputation_score = score }) n.peers;
      } in
      if ltb score 25 then ban_peer n' peer default_ban_duration now else n'
]

unfoldable pub set_validator_status : NetworkLayer → PeerId → Bool → NetworkLayer
set_validator_status n peer is_validator = elim (lookup peer n.peers) [
  | none ↦ n
  | some info ↦ record n {
    peers = insert peer (record info { is_validator = is_validator }) n.peers;
  }
]

unfoldable pub cleanup_bans : ℕ → Map ℕ → Map ℕ
cleanup_bans now [] = []
cleanup_bans now ((peer, until) ∷ bans) =
    if leb until now then cleanup_bans now bans else (peer, until) ∷ cleanup_bans now bans

-- The peer that is no validator and has the lowest score, the first of them; 0 for none below 101.
unfoldable pub lowest_non_validator : PeerId → ℕ → Map PeerInfo → PeerId
lowest_non_validator found lowest [] = found
lowest_non_validator found lowest ((peer, info) ∷ rest) =
    if not info.is_validator && ltb info.reputation_score lowest
    then lowest_non_validator peer info.reputation_score rest
    else lowest_non_validator found lowest rest

-- The peer that was not seen for the longest, the first of them; `found` for none before `oldest`.
unfoldable pub oldest_peer : PeerId → ℕ → Map PeerInfo → PeerId
oldest_peer found oldest [] = found
oldest_peer found oldest ((peer, info) ∷ rest) =
    if ltb info.last_seen oldest
    then oldest_peer peer info.last_seen rest
    else oldest_peer found oldest rest

-- The peer to disconnect from, 0 for none.
unfoldable pub to_disconnect : Map PeerInfo → PeerId
to_disconnect peers =
    let lowest = lowest_non_validator 0 101 peers in
    if lowest == 0 then oldest_peer 0 18446744073709551615 peers else lowest

-- The first loop of maintain_connections: each round erases a peer, so that there are no more rounds than
-- peers.
unfoldable pub disconnect_excess : ℕ → ℕ → Map PeerInfo → Map PeerInfo
disconnect_excess zero max_peers peers = peers
disconnect_excess (suc fuel) max_peers peers =
    let rest = disconnect_excess fuel max_peers (erase (to_disconnect peers) peers) in
    if ltb max_peers (length peers)
    then (if to_disconnect peers == 0 then peers else rest)
    else peers

-- The second loop asks discover_peers, which finds none, and so ends at once.
unfoldable pub maintain_connections : NetworkLayer → ℕ → NetworkLayer
maintain_connections n now =
    if n.initialized
    then (record n {
      banned_peers = cleanup_bans now n.banned_peers;
      peers = disconnect_excess (length n.peers) n.config.max_peers n.peers;
    })
    else n

unfoldable pub is_message_seen : NetworkLayer → Hash → Bool
is_message_seen n hash = Map.contains hash n.seen_messages

unfoldable pub drop_expired : ℕ → Map ℕ → Map ℕ
drop_expired now [] = []
drop_expired now ((hash, time) ∷ seen) =
    if ltb seen_message_ttl (sub64 now time)
    then drop_expired now seen
    else (hash, time) ∷ drop_expired now seen

unfoldable pub mark_message_seen : NetworkLayer → Hash → ℕ → NetworkLayer
mark_message_seen n hash now = record n {
  seen_messages = drop_expired now (insert hash now n.seen_messages);
}

unfoldable pub validators_of : Bool → Map PeerInfo → List PeerId
validators_of wanted [] = []
validators_of wanted ((peer, info) ∷ rest) =
    if (if wanted then info.is_validator else not info.is_validator)
    then peer ∷ validators_of wanted rest
    else validators_of wanted rest

-- `shuffle` is std::shuffle with a random generator.
unfoldable pub select_gossip_peers :
    (List PeerId → List PeerId) → NetworkLayer → ℕ → Bool → List PeerId
select_gossip_peers shuffle n count prioritize_validators =
    let validators = validators_of true n.peers in
    let non_validators = validators_of false n.peers in
    let chosen = take (min count (length validators)) (shuffle validators) in
    let remaining = count - length chosen in
    let all_peers = validators ++ non_validators in
    if prioritize_validators
    then (if ltb (length chosen) count
        then chosen ++ take (min remaining (length non_validators)) (shuffle non_validators)
        else chosen)
    else take (min count (length all_peers)) (shuffle all_peers)

-- The peers that a message is sent to: validators first for a block, whose type is 1.
unfoldable pub gossip_message :
    (List PeerId → List PeerId) → NetworkLayer → NetworkMessage → ℕ → List PeerId
gossip_message shuffle n message fanout =
    select_gossip_peers shuffle n fanout (message.message_type == 1)

-- `none` is the exception of a layer that is not initialized.
unfoldable pub broadcast :
    (List PeerId → List PeerId)
    → NetworkLayer
    → NetworkMessage
    → ℕ
    → Option (NetworkLayer × List PeerId)
broadcast shuffle n message now =
    if n.initialized
    then (let n' = mark_message_seen n message.hash now in
        some (n', gossip_message shuffle n' message n.config.gossip_fanout))
    else none

unfoldable pub touch_peer : NetworkLayer → PeerId → ℕ → NetworkLayer
touch_peer n sender now = elim (lookup sender n.peers) [
  | none ↦ n
  | some info ↦ record n { peers = insert sender (record info { last_seen = now }) n.peers }
]

-- handle_message of an initialized layer, with the registered handlers as what they do to the layer: the layer after the call, and
-- where the message is new the peers it is relayed to.
unfoldable pub handle_message :
    (List PeerId → List PeerId)
    → (NetworkLayer → NetworkMessage → PeerId → NetworkLayer)
    → NetworkLayer
    → NetworkMessage
    → PeerId
    → ℕ
    → NetworkLayer × Option (List PeerId)
handle_message shuffle handler n message sender now =
    if is_message_seen n message.hash
    then (n, none)
    else (let n₁ = touch_peer (mark_message_seen n message.hash now) sender now in
        let n₂ = handler n₁ message sender in
        (n₂, some (gossip_message shuffle n₂ message n.config.gossip_fanout)))
