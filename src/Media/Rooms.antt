-- ===== src/Media/Rooms.antt =====
-- Who is in a room, in every order of events.
use najva_messenger.Base.{ℕ, ◌≡◌, refl, inl, inr, Bool, some, [], Bool-cases, Option-cases}
use najva_messenger.Base.Tables.Laws.{All-find}
use najva_messenger.Store.{Text}
use najva_messenger.Media.{
  Media, Room, Peer, Producer, Consumer, SocketData, add_transport, add_producer, add_consumer,
  get_transport, get_peer,
}
use najva_messenger.Media.Handlers.{
  find_room, create_webrtc_transport, produce, consume, close_producer, producer_of,
}
use najva_messenger.Media.Steps.{
  Step, Reaches, Granted, RoomSound, Sound, admit-Sound, join_room-Sound, join_ready-Sound,
  disconnect-Sound, change_peer-Sound, peer_of-cases,
}

create-Sound :
    (s : SocketData) (id : Text) (m : Media) → Sound m → Sound (create_webrtc_transport s id m).1
unfolding create_webrtc_transport add_transport
create-Sound s id m h = elim (peer_of-cases s m) [
  | inl (e, failed) ↦ rw failed h
  | inr (p, there) ↦ rw there (change_peer-Sound s (add_transport id) m (λ p. refl) (λ p. refl) h)
]

produce-Sound :
    (s : SocketData) (t : Text) (x : Producer) (m : Media) → Sound m → Sound (produce s t x m).1
unfolding produce add_producer
produce-Sound s t x m h = elim (peer_of-cases s m) [
  | inl (e, failed) ↦ rw failed h
  | inr (p, there) ↦ elim (Option-cases (get_transport t p)) [
    | inl missing ↦ rw (there, missing) h
    | inr (t', found) ↦
        rw (there, found) (change_peer-Sound s (add_producer x) m (λ p. refl) (λ p. refl) h)
  ]
]

consume-Sound :
    (s : SocketData) (t : Text) (can : Bool) (c : Consumer) (m : Media)
    → Sound m
    → Sound (consume s t can c m).1
unfolding consume add_consumer
consume-Sound s t can c m h = elim (peer_of-cases s m) [
  | inl (e, failed) ↦ rw failed h
  | inr (p, there) ↦ elim (Option-cases (get_transport t p)) [
    | inl missing ↦ rw (there, missing) h
    | inr (t', found) ↦ elim (Bool-cases can) [
      | inr refused ↦ rw (there, found, refused) h
      | inl able ↦
          rw (there, found, able) (change_peer-Sound s (add_consumer c) m (λ p. refl) (λ p. refl) h)
    ]
  ]
]

close-Sound : (s : SocketData) (id : Text) (m : Media) → Sound m → Sound (close_producer s id m)
unfolding close_producer
close-Sound s id m h = elim (Option-cases (producer_of (find_room s.room_id m) s id)) [
  | inl unknown ↦ rw unknown h
  | inr (x, there) ↦ rw there h
]

Step-Sound : {m m' : Media} → Step m m' → Sound m → Sound m'
Step-Sound (Step.admits verify token id m) h = admit-Sound verify token id m h
Step-Sound (Step.joins s router m i) h = join_room-Sound s router m i h
Step-Sound (Step.ready before after j m e) h = join_ready-Sound before after j m e h
Step-Sound (Step.disconnects id m) h = disconnect-Sound id m h
Step-Sound (Step.creates s id m) h = create-Sound s id m h
Step-Sound (Step.produces s t x m) h = produce-Sound s t x m h
Step-Sound (Step.consumes s t can c m) h = consume-Sound s t can c m h
Step-Sound (Step.closes s id m) h = close-Sound s id m h

Reaches-Sound : {m m' : Media} → Reaches m m' → Sound m → Sound m'
Reaches-Sound (Reaches.here m) h = h
Reaches-Sound (Reaches.step m n m' one rest) h = Reaches-Sound rest (Step-Sound one h)

-- The server as it starts.
abbrev pub started : ℕ → Media
started workers = record {
  rooms = [];
  workers = workers;
  next_worker_index = 0;
  admitted = [];
  joining = [];
  emitted = [];
}

-- In whatever order events come, also while calls of `joinRoom` wait for a router: a room that the
-- server has is not empty, and a peer in it is of an admitted socket, whose grant names that room
-- and the peer's user.
pub rooms-Granted :
    (workers : ℕ) (m : Media) (room : Text) (r : Room) (socket : Text) (p : Peer)
    → Reaches (started workers) m
    → find_room room m ≡ some r
    → get_peer socket r ≡ some p
    → RoomSound m.admitted r × Granted m.admitted r.id p
rooms-Granted workers m room r socket p reached there inside =
    let sound =
      All-find (RoomSound m.admitted) _ m.rooms r (Reaches-Sound reached (tt, tt)).0 there in
    (sound, All-find (Granted m.admitted r.id) _ r.peers p sound.1 inside)
