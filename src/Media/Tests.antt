-- ===== src/Media/Tests.antt =====
-- Sockets 1 and 2 of users 7 and 8, whose grants name the room 20.
use najva_messenger.Base.{◌≡◌, refl, ℕ, inl, inr, some, [], ◌∷◌, err, thrown, find}
use najva_messenger.Media.{Media, Room, SocketData, get_peer, set_at, new_peer}
use najva_messenger.Media.Handlers.{
  find_room, peer_of, join_room, join_ready, enter, disconnect, admit, MediaGrantClaims,
}
use najva_messenger.Media.Steps.{Step, Reaches, Granted, RoomSound}
use najva_messenger.Media.Rooms.{started, rooms-Granted}
use najva_messenger.Media.Disconnect.{disconnect_exact}
use najva_messenger.Media.Race.{second_enters, join_loses_peer}

abbrev socket : ℕ → ℕ → SocketData
socket id user = record { id = id; user_id = user; room_id = 20 }

abbrev waiting : Media
waiting = record (started 2) { admitted = socket 2 8 ∷ socket 1 7 ∷ [] }

abbrev busy : Media
busy = record waiting {
  rooms = record { id = 20; router = 5; peers = new_peer 1 7 ∷ new_peer 2 8 ∷ [] } ∷ [];
}

join_loses_peer_example :
    peer_of (socket 1 7) (second_enters 20 1 2 7 8 5 6 waiting)
    ≡ (err (thrown "Peer not found" 0), second_enters 20 1 2 7 8 5 6 waiting)
unfolding find
join_loses_peer_example =
    (join_loses_peer 20 1 2 7 8 5 6 waiting refl refl (inr (inl refl)) (inl refl)).2

disconnect_exact_example :
    (r : Room) × (find_room 20 (disconnect 1 busy) ≡ some r) × (get_peer 2 r ≡ some (new_peer 2 8))
unfolding find
disconnect_exact_example =
    (disconnect_exact 1 busy).1 20 2
      (record { id = 20; router = 5; peers = new_peer 1 7 ∷ new_peer 2 8 ∷ [] }) (new_peer 2 8) refl
      refl (λ e. absurd (cc e))

abbrev claims : MediaGrantClaims
claims = record { user_id = 7; room_id = 20 }

abbrev in_room : Media
in_room = record (started 2) {
  rooms = record { id = 20; router = 5; peers = new_peer 1 7 ∷ [] } ∷ [];
  next_worker_index = 1;
  admitted = socket 1 7 ∷ [];
}

admitted_first : Reaches (started 2) in_room
unfolding admit join_room join_ready enter set_at find
admitted_first =
    Reaches.step (started 2) (admit (λ t. some claims) (some 3) 1 (started 2)).1 in_room
      (Step.admits (λ t. some claims) (some 3) 1 (started 2))
      (Reaches.step (admit (λ t. some claims) (some 3) 1 (started 2)).1
        (join_room (socket 1 7) 5 (admit (λ t. some claims) (some 3) 1 (started 2)).1).1 in_room
        (Step.joins (socket 1 7) 5 (admit (λ t. some claims) (some 3) 1 (started 2)).1 (inl refl))
        (Reaches.step
          (join_room (socket 1 7) 5 (admit (λ t. some claims) (some 3) 1 (started 2)).1).1 in_room
          in_room
          (Step.ready [] [] (record { socket = socket 1 7; router = 5 })
            (join_room (socket 1 7) 5 (admit (λ t. some claims) (some 3) 1 (started 2)).1).1 refl)
          (Reaches.here in_room)))

rooms-Granted_example :
    RoomSound in_room.admitted (record { id = 20; router = 5; peers = new_peer 1 7 ∷ [] })
    × Granted in_room.admitted 20 (new_peer 1 7)
unfolding find
rooms-Granted_example =
    rooms-Granted 2 in_room 20 (record { id = 20; router = 5; peers = new_peer 1 7 ∷ [] }) 1
      (new_peer 1 7) admitted_first refl refl
