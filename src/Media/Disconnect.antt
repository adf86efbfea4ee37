-- ===== src/Media/Disconnect.antt =====
-- What is left after a socket has gone.
use mathlib.Core.Path.{subst}
use najva_messenger.Base.{
  ◌==◌, sym, ap, ◌∙◌, ◌≡◌, refl, inl, inr, true, false, not, none, some, List, [], ◌∷◌, find,
  select, All, Bool-cases, Option-cases, arith,
}
use najva_messenger.Base.Tables.Laws.{All-find}
use najva_messenger.Store.{Text}
use najva_messenger.Media.{
  Media, Room, Peer, has_key, room_id, peer_id, get_peer, remove_peer, has_peers,
}
use najva_messenger.Media.Handlers.{without, leave_rooms, disconnect, find_room}

some_inj : {A : Type 0} {a b : A} → some a ≡ some b → a ≡ b
some_inj e = cc e

find-removed :
    (id : Text) (ps : List Peer)
    → find (has_key peer_id id) (select (λ p. not (has_key peer_id id p)) ps) ≡ none
unfolding find select
find-removed id [] = refl
find-removed id (p ∷ ps) = ground (arith, find-removed id ps)

find-kept :
    (id other : Text) (ps : List Peer)
    → (other ≡ id → ⊥)
    → find (has_key peer_id other) (select (λ p. not (has_key peer_id id p)) ps)
      ≡ find (has_key peer_id other) ps
unfolding find select
find-kept id other [] h = refl
find-kept id other (p ∷ ps) h = ground (arith, find-kept id other ps h, h)

without-gone : (id : Text) (r r' : Room) → without id r ≡ some r' → get_peer id r' ≡ none
without-gone id r r' e = elim (Option-cases (get_peer id r)) [
  | inl stranger ↦
      subst (λ x. get_peer id x ≡ none) (some_inj (rw (without, stranger) at e)) stranger
  | inr (p, there) ↦ elim (Bool-cases (has_peers (remove_peer id r))) [
    | inr last ↦ absurd (cc (rw (without, there, last) at e))
    | inl more ↦
        subst (λ x. get_peer id x ≡ none) (some_inj (rw (without, there, more) at e))
          (find-removed id r.peers)
  ]
]

without-kept :
    (id other : Text) (r : Room) (p : Peer)
    → (other ≡ id → ⊥)
    → get_peer other r ≡ some p
    → (r' : Room) × (without id r ≡ some r') × (r'.id ≡ r.id) × (get_peer other r' ≡ some p)
unfolding find
without-kept id other r p h e = elim (Option-cases (get_peer id r)) [
  | inl stranger ↦ (r, rw (without, stranger) refl, refl, e)
  | inr (q, there) ↦
      let stays = find-kept id other r.peers h ∙ e in
      elim (Bool-cases (has_peers (remove_peer id r))) [
        | inl more ↦ (remove_peer id r, rw (without, there, more) refl, refl, stays)
        | inr last ↦ absurd (cc (sym (nobody (remove_peer id r) last) ∙ stays))
      ]
]
  where
    nobody : (x : Room) → has_peers x ≡ false → get_peer other x ≡ none
    nobody x none_left =
        elim x.peers
            as (λ (ps : List Peer).
              has_peers (record x { peers = ps }) ≡ false
              → get_peer other (record x { peers = ps }) ≡ none) [
                | [] ↦ λ e. refl
                | ◌∷◌ q (ps) ↦ λ e. absurd (cc e)
              ]
          none_left

without-id : (id : Text) (r r' : Room) → without id r ≡ some r' → r'.id ≡ r.id
without-id id r r' e = elim (Option-cases (get_peer id r)) [
  | inl stranger ↦ ap (λ (x : Room). x.id) (sym (some_inj (rw (without, stranger) at e)))
  | inr (p, there) ↦ elim (Bool-cases (has_peers (remove_peer id r))) [
    | inr last ↦ absurd (cc (rw (without, there, last) at e))
    | inl more ↦ ap (λ (x : Room). x.id) (sym (some_inj (rw (without, there, more) at e)))
  ]
]

leave_rooms-gone :
    (id : Text) (rs : List Room) → All (λ r. get_peer id r ≡ none) (leave_rooms id rs)
unfolding leave_rooms
leave_rooms-gone id [] = tt
leave_rooms-gone id (r ∷ rs) = elim (Option-cases (without id r)) [
  | inl gone ↦ rw gone (leave_rooms-gone id rs)
  | inr (r', kept) ↦ rw kept (without-gone id r r' kept, leave_rooms-gone id rs)
]

-- A room that stays is found where it was.
find-leave_rooms :
    (id room : Text) (rs : List Room) (r r' : Room)
    → find (has_key room_id room) rs ≡ some r
    → without id r ≡ some r'
    → find (has_key room_id room) (leave_rooms id rs) ≡ some r'
unfolding find leave_rooms
find-leave_rooms id room [] r r' e k = absurd (cc e)
find-leave_rooms id room (x ∷ rs) r r' e k = elim (Bool-cases (has_key room_id room x)) [
  | inl hit ↦
      let same = some_inj (rw hit at e) in
      let kept = subst (λ (y : Room). without id y ≡ some r') (sym same) k in
      let hit' : has_key room_id room r' ≡ true =
        ap (λ i. i == room) (without-id id x r' kept) ∙ hit in
      rw (kept, hit') refl
  | inr miss ↦
      let ih = find-leave_rooms id room rs r r' (rw miss at e) k in
      elim (Option-cases (without id x)) [
        | inl gone ↦ rw gone ih
        | inr (x', kept) ↦
            let miss' : has_key room_id room x' ≡ false =
              ap (λ i. i == room) (without-id id x x' kept) ∙ miss in
            rw (kept, miss') ih
      ]
]

-- After a socket has disconnected it is a peer of no room, and every other peer of a room is still
-- there with all that it has.
pub disconnect_exact :
    (id : Text) (m : Media)
    → ((room : Text) (r : Room) → find_room room (disconnect id m) ≡ some r → get_peer id r ≡ none)
      × ((room other : Text) (r : Room) (p : Peer)
          → find_room room m ≡ some r
          → get_peer other r ≡ some p
          → (other ≡ id → ⊥)
          → (r' : Room) × (find_room room (disconnect id m) ≡ some r')
            × (get_peer other r' ≡ some p))
unfolding disconnect
disconnect_exact id m = (
  λ room r e. All-find (λ x. get_peer id x ≡ none) _ _ r (leave_rooms-gone id m.rooms) e,
  λ room other r p there inside differs.
      let (r', kept, same, stays) = without-kept id other r p differs inside in
      (r', find-leave_rooms id room m.rooms r r' there kept, stays),
)
