-- ===== src/Examples/Nodes.antt =====
-- A node that serves an object to a client behind two hubs.
use samizdat.Prelude.{ℕ, zero, suc, ◌≡◌, ◌⊎◌, refl, false, List, [], ◌∷◌, Option, none, some, arith}
use samizdat.Hash.{Hash, hash_eq}
use samizdat.Codec.{Codec, ReadsBack}
use samizdat.Riddle.{Message, Riddle}
use samizdat.Patricia.Proof.Binding.{Collision}
use samizdat.Collection.Items.{CollectionItem}
use samizdat.Database.{put_cf, object_metadata}
use samizdat.Objects.Building.{ObjectMetadata}
use samizdat.Objects.Reading.{metadata, is_draft}
use samizdat.Rpc.{IpAddr, v4, v6, ChannelAddr, Resolution, found, empty_resolution, not_found}
use samizdat.Hub.Room.Peers.{Every}
use samizdat.Hub.Resolving.Chain.{descend, riddles_of, Passed}
use samizdat.NodeServer.{send_object_task, NodeTables, resolve_object, resolve_call}
use samizdat.NodeServer.Serving.{ObjectServed, resolve_object-served, asked, descend-resolve_object}
use samizdat.Examples.{key_of, toy}
use samizdat.Examples.Riddles.{tagged, tagged-IsCipher}
use samizdat.Examples.Objects.{formats, empty_db, plain}

abbrev address_bytes : IpAddr → List ℕ → List ℕ
address_bytes (v4 a) rest = 0 ∷ a ∷ rest
address_bytes (v6 a) rest = 1 ∷ a ∷ rest

abbrev message_of : IpAddr → ℕ → ℕ → ℕ → Message ChannelAddr
message_of ip port channel_id validation = record {
  payload = record { peer_addr = record { ip = ip; port = port }; channel_id = channel_id };
  validation = validation;
}

abbrev read_address : List ℕ → Option (Message ChannelAddr)
read_address (zero ∷ a ∷ port ∷ channel_id ∷ validation ∷ []) =
    some (message_of (v4 a) port channel_id validation)
read_address (suc n ∷ a ∷ port ∷ channel_id ∷ validation ∷ []) =
    some (message_of (v6 a) port channel_id validation)
read_address _ = none

abbrev addresses : Codec (Message ChannelAddr)
addresses = record {
  serialize = λ m.
      address_bytes m.payload.peer_addr.ip
        (m.payload.peer_addr.port ∷ m.payload.channel_id ∷ m.validation ∷ []);
  deserialize = read_address;
}

read_address-address_bytes :
    (ip : IpAddr) (port channel_id validation : ℕ)
    → read_address (address_bytes ip (port ∷ channel_id ∷ validation ∷ []))
      ≡ some (message_of ip port channel_id validation)
read_address-address_bytes (v4 a) port channel_id validation = refl
read_address-address_bytes (v6 a) port channel_id validation = refl

addresses-ReadsBack : ReadsBack addresses
addresses-ReadsBack = record {
  round_trip = λ m.
      read_address-address_bytes m.payload.peer_addr.ip m.payload.peer_addr.port
        m.payload.channel_id m.validation;
}

abbrev known : ObjectMetadata
known = record { hashes = []; header = plain; content_size = 0; received_at = 12 }

abbrev node : NodeTables
node = record {
  db = put_cf empty_db object_metadata (key_of 1) (formats.metadata.serialize known);
  objects = key_of 3 ∷ key_of 1 ∷ [];
  items = [];
}

abbrev no_items : Codec CollectionItem
no_items = record { serialize = λ item. item.name; deserialize = λ bytes. none }

abbrev client : ChannelAddr
client = record { peer_addr = record { ip = v4 9; port = 4510 }; channel_id = 77 }

node-draft : is_draft toy formats node.db (key_of 1) ≡ some false
unfolding is_draft metadata hash_eq
node-draft = refl

abbrev nonces : List Hash
nonces = key_of 5 ∷ key_of 6 ∷ key_of 7 ∷ []

descend-resolve_object_example :
    (checks : List (Riddle × List Hash)) × (last : Resolution) × (descend 2 (
        asked toy formats tagged addresses no_items (λ x. refl) (key_of 1) nonces (key_of 8) client)
      ≡ some (checks, last))
    × (((resolve_call toy formats tagged addresses no_items node last ≡ (
      found (riddles_of toy (key_of 1) last.validation_nonces),
      some (send_object_task client (key_of 1)),
    ))
          × Every (Passed toy (key_of 1) last) checks)
        ⊎ Collision toy)
descend-resolve_object_example =
    descend-resolve_object toy formats tagged addresses no_items (λ x. refl) 2 (key_of 1) nonces
      (key_of 8) client node (key_of 3 ∷ []) [] tagged-IsCipher addresses-ReadsBack (omega arith)
      refl node-draft

abbrev at_node : Resolution
at_node =
    asked toy formats tagged addresses no_items (λ x. refl) (key_of 1) nonces (key_of 8) client

resolve_object-served_example :
    ObjectServed toy formats tagged addresses no_items node at_node
    ⊎ ((resolve_object toy formats tagged addresses no_items node at_node
          ≡ (empty_resolution, none))
        ⊎ (resolve_object toy formats tagged addresses no_items node at_node ≡ (not_found, none)))
resolve_object-served_example =
    resolve_object-served toy formats tagged addresses no_items node at_node
