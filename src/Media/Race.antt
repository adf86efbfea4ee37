-- ===== src/Media/Race.antt =====
-- Two sockets that join a room which is not there yet.
use mathlib.Core.Path.{subst}
use najva_messenger.Base.{
  ◌≡◌, refl, inl, inr, false, none, some, List, [], ◌∷◌, ok, err, thrown, find, Bool-cases, ◌==◌,
  ==_refl,
}
use najva_messenger.Store.{Text}
use najva_messenger.Media.{
  Media, Peer, SocketData, Joining, has_key, set_at, room_id, new_room, new_peer,
}
use najva_messenger.Media.Handlers.{
  await_router, join_room, join_ready, enter, joined, find_room, peer_of,
}
use najva_messenger.Media.Steps.{In, Step, Reaches}

find-set_at :
    {A : Type 0} (key : A → Text) (a : A) (xs : List A)
    → find (has_key key (key a)) (set_at key a xs) ≡ some a
unfolding find set_at
find-set_at key a [] = rw (==_refl (key a)) refl
find-set_at key a (x ∷ xs) = elim (Bool-cases (has_key key (key a) x)) [
  | inl same ↦ rw (same, ==_refl (key a)) refl
  | inr other ↦ rw (other, other) (find-set_at key a xs)
]

module _ (room : Text) (a b a_user b_user a_router b_router : Text) where
  abbrev pub first : SocketData
  first = record { id = a; user_id = a_user; room_id = room }

  abbrev pub second : SocketData
  second = record { id = b; user_id = b_user; room_id = room }

  join_room-absent :
      (s : SocketData) (router : Text) (m : Media)
      → find_room s.room_id m ≡ none
      → (join_room s router m).1 ≡ await_router s router m
  unfolding join_room
  join_room-absent s router m missing = rw (join_room, missing) refl

  abbrev pub first_waits : Joining
  first_waits = record { socket = first; router = a_router }

  abbrev pub second_waits : Joining
  second_waits = record { socket = second; router = b_router }

  -- Both begin to join, and then both routers come.
  abbrev pub both_wait : Media → Media
  both_wait m = await_router second b_router (await_router first a_router m)

  abbrev pub first_enters : Media → Media
  first_enters m =
      (join_ready first_waits (record (both_wait m) { joining = second_waits ∷ m.joining })).1

  abbrev pub second_enters : Media → Media
  second_enters m = (join_ready second_waits (record (first_enters m) { joining = m.joining })).1

  entering :
      (m : Media)
      → find_room room m ≡ none
      → In first m.admitted
      → In second m.admitted
      → Reaches m (second_enters m)
  unfolding join_ready enter
  entering m missing i j =
      Reaches.step m (await_router first a_router m) (second_enters m)
        (subst (Step m) (join_room-absent first a_router m missing) (Step.joins first a_router m i))
        (Reaches.step (await_router first a_router m) (both_wait m) (second_enters m)
          (subst (Step (await_router first a_router m))
            (join_room-absent second b_router (await_router first a_router m) missing)
            (Step.joins second b_router (await_router first a_router m) j))
          (Reaches.step (both_wait m) (first_enters m) (second_enters m)
            (Step.ready (second_waits ∷ []) m.joining first_waits (both_wait m) refl)
            (Reaches.step (first_enters m) (second_enters m) (second_enters m)
              (Step.ready [] m.joining second_waits (first_enters m) refl)
              (Reaches.here (second_enters m)))))

  -- Where two sockets join a room that is not there, and both routers come after both have looked it
  -- up, the first one is a peer of the room at first, and after the second one has entered, its
  -- handlers find no peer: the room that it is in was replaced.
  pub join_loses_peer :
      (m : Media)
      → (b == a) ≡ false
      → find_room room m ≡ none
      → In first m.admitted
      → In second m.admitted
      → Reaches m (second_enters m)
        × ((p : Peer) × (peer_of first (first_enters m) ≡ (ok p, first_enters m)))
        × (peer_of first (second_enters m) ≡ (err (thrown "Peer not found" 0), second_enters m))
  unfolding join_ready enter set_at find
  join_loses_peer m differ missing i j =
      let one = joined first (new_room room a_router) in
      let two = joined second (new_room room b_router) in
      (
        entering m missing i j,
        (new_peer a a_user, rw (find-set_at room_id one m.rooms, ==_refl a) refl),
        rw (find-set_at room_id two (set_at room_id one m.rooms), differ) refl,
      )
