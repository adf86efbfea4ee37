-- ===== src/Media.antt =====
-- media-server/src/peer.ts and room.ts, and the state that server.ts keeps. A map is a list in the
-- order of insertion; transports, producers and consumers are objects of mediasoup, of which the
-- identifiers and what the server reads of them are kept.
pub mod Handlers
pub mod Steps
pub mod Rooms
pub mod Disconnect
pub mod Race
mod Tests
use najva_messenger.Base.{
  ℕ, ◌≡◌, Bool, not, Option, none, some, List, [], ◌∷◌, ◌++◌, find, select, exists, ◌==◌,
  if◌then◌else◌, false, true,
}
use najva_messenger.Store.{Text}

pub record Producer : Type 0 where
  pub id : Text
  pub kind : Text
  pub app_data : Text

pub record Consumer : Type 0 where
  pub id : Text
  pub producer_id : Text

pub record Peer : Type 0 where
  pub id : Text
  pub user_id : Text
  pub transports : List Text
  pub producers : List Producer
  pub consumers : List Consumer

abbrev pub new_peer : Text → Text → Peer
new_peer id user_id = record {
  id = id;
  user_id = user_id;
  transports = [];
  producers = [];
  consumers = [];
}

module _ {A : Type 0} (key : A → Text) where
  abbrev pub has_key : Text → A → Bool
  has_key id a = key a == id

  -- `map.set(a.id, a)`: in the place of the old value, or at the end.
  unfoldable pub set_at : A → List A → List A
  set_at a [] = a ∷ []
  set_at a (b ∷ bs) = if has_key (key a) b then a ∷ bs else b ∷ set_at a bs

abbrev pub producer_id : Producer → Text
producer_id p = p.id

abbrev pub consumer_id : Consumer → Text
consumer_id c = c.id

abbrev pub peer_id : Peer → Text
peer_id p = p.id

unfoldable pub add_transport : Text → Peer → Peer
add_transport t p = record p { transports = set_at (λ x. x) t p.transports }

pub get_transport : Text → Peer → Option Text
get_transport id p = find (has_key (λ x. x) id) p.transports

unfoldable pub add_producer : Producer → Peer → Peer
add_producer x p = record p { producers = set_at producer_id x p.producers }

pub get_producer : Text → Peer → Option Producer
get_producer id p = find (has_key producer_id id) p.producers

unfoldable pub add_consumer : Consumer → Peer → Peer
add_consumer c p = record p { consumers = set_at consumer_id c p.consumers }

pub get_consumer : Text → Peer → Option Consumer
get_consumer id p = find (has_key consumer_id id) p.consumers

pub record Room : Type 0 where
  pub id : Text
  pub router : Text
  pub peers : List Peer

abbrev pub room_id : Room → Text
room_id r = r.id

abbrev pub new_room : Text → Text → Room
new_room id router = record { id = id; router = router; peers = [] }

abbrev pub add_peer : Peer → Room → Room
add_peer p r = record r { peers = set_at peer_id p r.peers }

abbrev pub get_peer : Text → Room → Option Peer
get_peer id r = find (has_key peer_id id) r.peers

-- `peer.close()` closes the transports, which the peer that is dropped takes with it.
abbrev pub remove_peer : Text → Room → Room
remove_peer id r = record r { peers = select (λ p. not (has_key peer_id id p)) r.peers }

abbrev pub has_peers : Room → Bool
has_peers r = elim r.peers [ [] ↦ false | ◌∷◌ p (ps) ↦ true ]

-- `socket.data` with the socket's identifier: what its media grant says.
pub record SocketData : Type 0 where
  pub id : Text
  pub user_id : Text
  pub room_id : Text

-- A call of `joinRoom` that waits for the router of a new room.
pub record Joining : Type 0 where
  pub socket : SocketData
  pub router : Text

-- What is sent to the others in a room.
pub data MediaEvent : Type 0 where
  peer_closed : (room peer : Text) → MediaEvent
  new_producer : (room peer user : Text) → Producer → MediaEvent
  producer_closed : (room peer producer : Text) → MediaEvent

-- `admitted` are the sockets whose grant was verified.
pub record Media : Type 0 where
  pub rooms : List Room
  pub workers : ℕ
  pub next_worker_index : ℕ
  pub admitted : List SocketData
  pub joining : List Joining
  pub emitted : List MediaEvent
