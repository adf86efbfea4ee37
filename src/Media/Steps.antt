-- ===== src/Media/Steps.antt =====
-- The media server as a relation between its states: any order of events, where other events may
-- come while a call of `joinRoom` waits for a router.
use mathlib.Core.Path.{subst}
use najva_messenger.Base.{
  ==_iff, Error, thrown, ◌≡◌, refl, sym, ◌∙◌, ◌⊎◌, inl, inr, Bool, true, Option, none, some, List,
  [], ◌∷◌, ◌++◌, ok, err, update, All, Bool-cases, Option-cases,
}
use najva_messenger.Base.Tables.Laws.{All-update, All-map, All-select_keep, All-find, find-holds}
use najva_messenger.Store.{Text, falsy}
use najva_messenger.Media.{
  Media, Room, Peer, Producer, Consumer, SocketData, Joining, has_key, set_at, room_id, peer_id,
  new_peer, new_room, get_peer, remove_peer, has_peers,
}
use najva_messenger.Media.Handlers.{
  MediaGrantClaims, admit, without, leave_rooms, disconnect, join_room, join_ready, enter, joined,
  find_room, peer_of, change_peer, create_webrtc_transport, produce, consume, close_producer,
}

abbrev pub In : {A : Type 0} → A → List A → Type 0
In a [] = ⊥
In a (x ∷ xs) = (a ≡ x) ⊎ In a xs

-- What one event does. `joins` ends where the handler first waits, and `ready` goes on from there.
pub data Step : Media → Media → Type 0 where
  admits :
      (verify : Text → Option MediaGrantClaims) (token : Option Text) (id : Text) (m : Media)
      → Step m (admit verify token id m).1
  joins :
      (s : SocketData) (router : Text) (m : Media)
      → In s m.admitted
      → Step m (join_room s router m).1
  ready :
      (before after : List Joining) (j : Joining) (m : Media)
      → m.joining ≡ before ++ j ∷ after
      → Step m (join_ready j (record m { joining = before ++ after })).1
  disconnects : (id : Text) (m : Media) → Step m (disconnect id m)
  creates : (s : SocketData) (id : Text) (m : Media) → Step m (create_webrtc_transport s id m).1
  produces : (s : SocketData) (t : Text) (x : Producer) (m : Media) → Step m (produce s t x m).1
  consumes :
      (s : SocketData) (t : Text) (can_consume : Bool) (c : Consumer) (m : Media)
      → Step m (consume s t can_consume c m).1
  closes : (s : SocketData) (id : Text) (m : Media) → Step m (close_producer s id m)

pub data Reaches : Media → Media → Type 0 where
  here : (m : Media) → Reaches m m
  step : (m m' m'' : Media) → Step m m' → Reaches m' m'' → Reaches m m''

-- The peer is of an admitted socket, with the user and the room of its grant.
abbrev pub Granted : List SocketData → Text → Peer → Type 0
Granted admitted room p =
    (s : SocketData) × In s admitted × (s.id ≡ p.id) × (s.user_id ≡ p.user_id) × (s.room_id ≡ room)

abbrev pub RoomSound : List SocketData → Room → Type 0
RoomSound admitted r = (has_peers r ≡ true) × All (Granted admitted r.id) r.peers

abbrev JoiningSound : List SocketData → Joining → Type 0
JoiningSound admitted j = In j.socket admitted

abbrev pub Sound : Media → Type 0
Sound m = All (RoomSound m.admitted) m.rooms × All (JoiningSound m.admitted) m.joining

pub All-set_at :
    {A : Type 0} (P : A → Type 0) (key : A → Text) (a : A) (xs : List A)
    → P a
    → All P xs
    → All P (set_at key a xs)
unfolding set_at
All-set_at P key a [] p h = (p, tt)
All-set_at P key a (x ∷ xs) p h = elim (Bool-cases (has_key key (key a) x)) [
  | inl same ↦ rw same (p, h.1)
  | inr other ↦ rw other (h.0, All-set_at P key a xs p h.1)
]

has_peers-set_at :
    (p : Peer) (ps : List Peer) (r : Room)
    → has_peers (record r { peers = set_at peer_id p ps }) ≡ true
unfolding set_at
has_peers-set_at p [] r = refl
has_peers-set_at p (q ∷ ps) r = elim (Bool-cases (has_key peer_id p.id q)) [
  | inl same ↦ rw same refl
  | inr other ↦ rw other refl
]

has_peers-update :
    (p : Peer → Bool) (f : Peer → Peer) (ps : List Peer) (r : Room)
    → has_peers (record r { peers = ps }) ≡ true
    → has_peers (record r { peers = update p f ps }) ≡ true
unfolding update
has_peers-update p f [] r h = h
has_peers-update p f (q ∷ ps) r h = refl

RoomSound-cons :
    (s : SocketData) (admitted : List SocketData) (r : Room)
    → RoomSound admitted r
    → RoomSound (s ∷ admitted) r
RoomSound-cons s admitted r h = (
  h.0,
  All-map (Granted admitted r.id) (Granted (s ∷ admitted) r.id) r.peers
      (λ p g. (g.0, inr g.1, g.2, g.3, g.4)) h.1,
)

pub admit-Sound :
    (verify : Text → Option MediaGrantClaims) (token : Option Text) (id : Text) (m : Media)
    → Sound m
    → Sound (admit verify token id m).1
unfolding admit
admit-Sound verify none id m h = h
admit-Sound verify (some t) id m h = elim (Bool-cases (falsy t)) [
  | inl empty ↦ rw empty h
  | inr given ↦ elim (Option-cases (verify t)) [
    | inl bad ↦ rw (given, bad) h
    | inr (claims, good) ↦
        rw (given, good)
          (
            All-map _ _ m.rooms (λ r. RoomSound-cons _ m.admitted r) h.0,
            All-map _ _ m.joining (λ j i. inr i) h.1,
          )
  ]
]

enter-Sound :
    (s : SocketData) (r : Room) (m : Media)
    → In s m.admitted
    → All (Granted m.admitted r.id) r.peers
    → s.room_id ≡ r.id
    → Sound m
    → Sound (enter s r m).1
unfolding enter
enter-Sound s r m i g same h = (
  All-set_at (RoomSound m.admitted) room_id (joined s r) m.rooms
      (
        has_peers-set_at (new_peer s.id s.user_id) r.peers r,
        All-set_at (Granted m.admitted r.id) peer_id (new_peer s.id s.user_id) r.peers
            (s, i, refl, refl, same) g,
      )
      h.0,
  h.1,
)

has_key-eq :
    {A : Type 0} (key : A → Text) (id : Text) (a : A) → has_key key id a ≡ true → key a ≡ id
has_key-eq key id a h = (==_iff (key a) id).0 h

pub join_room-Sound :
    (s : SocketData) (router : Text) (m : Media)
    → In s m.admitted
    → Sound m
    → Sound (join_room s router m).1
unfolding join_room enter
join_room-Sound s router m i h = elim (Option-cases (find_room s.room_id m)) [
  | inl missing ↦ rw (join_room, missing) (h.0, (i, h.1))
  | inr (r, there) ↦
      rw (join_room, there)
        (enter-Sound s r m i (All-find (RoomSound m.admitted) _ m.rooms r h.0 there).1
          (sym (has_key-eq room_id s.room_id r (find-holds _ m.rooms r there))) h)
]

All-middle :
    {A : Type 0} (P : A → Type 0) (xs ys : List A) (a : A)
    → All P (xs ++ a ∷ ys)
    → P a × All P (xs ++ ys)
All-middle P [] ys a h = h
All-middle P (x ∷ xs) ys a h = let rest = All-middle P xs ys a h.1 in (rest.0, (h.0, rest.1))

pub join_ready-Sound :
    (before after : List Joining) (j : Joining) (m : Media)
    → m.joining ≡ before ++ j ∷ after
    → Sound m
    → Sound (join_ready j (record m { joining = before ++ after })).1
unfolding join_ready
join_ready-Sound before after j m e h =
    let split =
      All-middle (JoiningSound m.admitted) before after j
        (subst (λ js. All (JoiningSound m.admitted) js) e h.1) in
    enter-Sound j.socket (new_room j.socket.room_id j.router)
      (record m { joining = before ++ after }) split.0 tt refl (h.0, split.1)

without-Sound :
    (admitted : List SocketData) (id : Text) (r r' : Room)
    → RoomSound admitted r
    → without id r ≡ some r'
    → RoomSound admitted r'
without-Sound admitted id r r' h e = elim (Option-cases (get_peer id r)) [
  | inl stranger ↦ subst (RoomSound admitted) (some_inj (rw (without, stranger) at e)) h
  | inr (p, there) ↦ elim (Bool-cases (has_peers (remove_peer id r))) [
    | inr last ↦ absurd (cc (rw (without, there, last) at e))
    | inl more ↦
        subst (RoomSound admitted) (some_inj (rw (without, there, more) at e))
          (more, All-select_keep (Granted admitted r.id) _ r.peers h.1)
  ]
]
  where
    some_inj : {a b : Room} → some a ≡ some b → a ≡ b
    some_inj e = cc e

leave_rooms-Sound :
    (admitted : List SocketData) (id : Text) (rs : List Room)
    → All (RoomSound admitted) rs
    → All (RoomSound admitted) (leave_rooms id rs)
unfolding leave_rooms
leave_rooms-Sound admitted id [] h = tt
leave_rooms-Sound admitted id (r ∷ rs) h = elim (Option-cases (without id r)) [
  | inl gone ↦ rw gone (leave_rooms-Sound admitted id rs h.1)
  | inr (r', kept) ↦
      rw kept (without-Sound admitted id r r' h.0 kept, leave_rooms-Sound admitted id rs h.1)
]

pub disconnect-Sound : (id : Text) (m : Media) → Sound m → Sound (disconnect id m)
unfolding disconnect
disconnect-Sound id m h = (leave_rooms-Sound m.admitted id m.rooms h.0, h.1)

-- A change of a peer that keeps its identifier and its user.
pub change_peer-Sound :
    (s : SocketData) (f : Peer → Peer) (m : Media)
    → ((p : Peer) → (f p).id ≡ p.id)
    → ((p : Peer) → (f p).user_id ≡ p.user_id)
    → Sound m
    → Sound (change_peer s f m)
change_peer-Sound s f m same_id same_user h = (
  All-update (RoomSound m.admitted) (has_key room_id s.room_id) _ m.rooms
      (λ r sound hit. (
        has_peers-update (has_key peer_id s.id) f r.peers r sound.0,
        All-update (Granted m.admitted r.id) (has_key peer_id s.id) f r.peers
            (λ p g hit'. (g.0, g.1, g.2 ∙ sym (same_id p), g.3 ∙ sym (same_user p), g.4)) sound.1,
      ))
      h.0,
  h.1,
)

-- A handler that finds the socket's peer first.
pub peer_of-cases :
    (s : SocketData) (m : Media)
    → ((e : Error) × (peer_of s m ≡ (err e, m))) ⊎ ((p : Peer) × (peer_of s m ≡ (ok p, m)))
peer_of-cases s m = elim (Option-cases (find_room s.room_id m)) [
  | inl missing ↦ rw missing (inl (thrown "Room not found" 0, refl))
  | inr (r, there) ↦ elim (Option-cases (get_peer s.id r)) [
    | inl absent ↦ rw (there, absent) (inl (thrown "Peer not found" 0, refl))
    | inr (p, found) ↦ rw (there, found) (inr (p, refl))
  ]
]
