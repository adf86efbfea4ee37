-- ===== src/Media/Handlers.antt =====
-- media-server/src/server.ts: the handlers of a socket. An error that a handler answers with is its
-- error here. What mediasoup makes is an argument: the identifiers of new objects, and whether it
-- can consume a producer.
use najva_messenger.Base.{
  ◌+◌, ◌%◌, Bool, not, Option, none, some, List, [], ◌∷◌, ◌++◌, map, Action, ok, or_throw, throw_if,
  modify, gets, pure, ◌>>=◌, ◌>>◌, find, update, ◌==◌, if◌then◌else◌,
}
use najva_messenger.Store.{Text, falsy}
use najva_messenger.Media.{
  Media, Room, Peer, Producer, Consumer, SocketData, Joining, MediaEvent, has_key, set_at, room_id,
  peer_id, new_peer, new_room, add_peer, get_peer, remove_peer, has_peers, add_transport,
  get_transport, add_producer, get_producer, add_consumer, get_consumer,
}

pub record MediaGrantClaims : Type 0 where
  pub user_id : Text
  pub room_id : Text

-- `io.use`: the user and the room of a socket come from its verified token.
unfoldable pub admit :
    (verify : Text → Option MediaGrantClaims)
    → Option Text
    → (socket_id : Text) → Action Media (Unit {0})
admit verify token socket_id = do
  t ← or_throw token "missing media grant" 0
  throw_if (falsy t) "missing media grant" 0
  claims ← or_throw (verify t) "invalid media grant" 0
  modify (λ m. record m {
    admitted =
        record { id = socket_id; user_id = claims.user_id; room_id = claims.room_id } ∷ m.admitted;
  })

abbrev pub emit : MediaEvent → Media → Media
emit e m = record m { emitted = e ∷ m.emitted }

-- One room of the loop of `disconnect`: the peer is removed, and an empty room goes with it.
abbrev pub without : Text → Room → Option Room
without id r = elim (get_peer id r) [
  | none ↦ some r
  | some p ↦ if has_peers (remove_peer id r) then some (remove_peer id r) else none
]

abbrev onto : Option Room → List Room → List Room
onto none rs = rs
onto (some r) rs = r ∷ rs

unfoldable pub leave_rooms : Text → List Room → List Room
leave_rooms id [] = []
leave_rooms id (r ∷ rs) = onto (without id r) (leave_rooms id rs)

abbrev closed_in : Text → Room → List MediaEvent → List MediaEvent
closed_in id r es = elim (get_peer id r) [
  | none ↦ es
  | some p ↦ MediaEvent.peer_closed r.id id ∷ es
]

unfoldable pub leave_events : Text → List Room → List MediaEvent → List MediaEvent
leave_events id [] es = es
leave_events id (r ∷ rs) es = leave_events id rs (closed_in id r es)

unfoldable pub disconnect : Text → Media → Media
disconnect id m = record m {
  rooms = leave_rooms id m.rooms;
  emitted = leave_events id m.rooms m.emitted;
}

pub record Existing : Type 0 where
  pub producer : Producer
  pub peer_id : Text
  pub user_id : Text

-- The producers of the other peers, for the one that joins.
unfoldable pub existing_producers : Text → List Peer → List Existing
existing_producers id [] = []
existing_producers id (p ∷ ps) =
    let rest = existing_producers id ps in
    if p.id == id
    then rest
    else map (λ x. record { producer = x; peer_id = p.id; user_id = p.user_id }) p.producers ++ rest

abbrev pub joined : SocketData → Room → Room
joined s r = add_peer (new_peer s.id s.user_id) r

-- What follows in `joinRoom` once there is a room; it is the same object as the one in the map, or
-- a new one that is put there.
unfoldable pub enter : SocketData → Room → Action Media (List Existing)
enter s r m = (
  ok (existing_producers s.id (joined s r).peers),
  record m { rooms = set_at room_id (joined s r) m.rooms },
)

-- `getNextWorker` and the start of `createRouter`, whose router comes later.
abbrev pub await_router : SocketData → Text → Media → Media
await_router s router m = record m {
  next_worker_index = (m.next_worker_index + 1) % m.workers;
  joining = record { socket = s; router = router } ∷ m.joining;
}

abbrev pub find_room : Text → Media → Option Room
find_room id m = find (has_key room_id id) m.rooms

-- `joinRoom`, which answers at once or waits for the router of a new room.
unfoldable pub join_room : SocketData → Text → Action Media (Option (List Existing))
join_room s router m = elim (find_room s.room_id m) [
  | none ↦ (ok none, await_router s router m)
  | some r ↦ (enter s r >>= λ existing. pure (some existing)) m
]

-- The rest of it when the router is there; the room is not looked up again.
unfoldable pub join_ready : Joining → Action Media (List Existing)
join_ready j = enter j.socket (new_room j.socket.room_id j.router)

abbrev pub peer_of : SocketData → Action Media Peer
peer_of s = do
  room ← or_throw (← gets (find_room s.room_id)) "Room not found" 0
  or_throw (get_peer s.id room) "Peer not found" 0

abbrev pub change_peer : SocketData → (Peer → Peer) → Media → Media
change_peer s f m = record m {
  rooms =
      update (has_key room_id s.room_id)
        (λ r. record r { peers = update (has_key peer_id s.id) f r.peers }) m.rooms;
}

unfoldable pub create_webrtc_transport : SocketData → (id : Text) → Action Media Text
create_webrtc_transport s id = do
  peer ← peer_of s
  modify (change_peer s (add_transport id))
  pure id

unfoldable pub connect_webrtc_transport :
    SocketData → (transport_id : Text) → Action Media (Unit {0})
connect_webrtc_transport s transport_id = do
  peer ← peer_of s
  transport ← or_throw (get_transport transport_id peer) "Transport not found" 0
  pure tt

unfoldable pub produce : SocketData → (transport_id : Text) → Producer → Action Media Text
produce s transport_id x = do
  peer ← peer_of s
  transport ← or_throw (get_transport transport_id peer) "Transport not found" 0
  modify (change_peer s (add_producer x))
  modify (emit (MediaEvent.new_producer s.room_id s.id peer.user_id x))
  pure x.id

abbrev pub producer_of : Option Room → SocketData → Text → Option Producer
producer_of none s id = none
producer_of (some r) s id = elim (get_peer s.id r) [ none ↦ none | some p ↦ get_producer id p ]

abbrev pub close_found : Option Producer → SocketData → Media → Media
close_found none s m = m
close_found (some x) s m = emit (MediaEvent.producer_closed s.room_id s.id x.id) m

-- The producer stays in the map of its peer. Its observer tells the room; a second call for the same
-- producer tells it again here, while the library closes a producer once.
unfoldable pub close_producer : SocketData → (producer_id : Text) → Media → Media
close_producer s producer_id m = close_found (producer_of (find_room s.room_id m) s producer_id) s m

unfoldable pub consume :
    SocketData → (transport_id : Text) → (can_consume : Bool) → Consumer → Action Media Text
consume s transport_id can_consume c = do
  peer ← peer_of s
  transport ← or_throw (get_transport transport_id peer) "Transport not found" 0
  throw_if (not can_consume) "Cannot consume" 0
  modify (change_peer s (add_consumer c))
  pure c.id

unfoldable pub resume_consumer : SocketData → (consumer_id : Text) → Action Media (Unit {0})
resume_consumer s consumer_id = do
  peer ← peer_of s
  consumer ← or_throw (get_consumer consumer_id peer) "Consumer not found" 0
  pure tt
