-- ===== src/Server/Rooms/Arrivals.antt =====
-- The operations of `RoomService` by which users come into rooms, and the invariant.
use chess_kung_fu.Prelude.{
  ◌≡◌, ◌≢◌, refl, ◌∙◌, sym, ap, subst, true, false, Option, none, some, [], arith, string_eq,
  nat_eq, String, Dict, lookup, insert, contains, contains-none, insert-cases, insert_here,
  insert_twice, if-cases, inl, inr, Option-cases,
}
use mathlib.Core.Option.{some_inj, none-ne-some}
use text.Mathlib.TextEquality.{eq_iff}
use chess_kung_fu.Server.Rooms.{
  as_white, as_black, Room, RoomMember, new_member, joining_role, player_count, RoomService, Result,
  ok, raise, truthy, chosen_id, opened, create_room, create_matched_room, seat, join_room,
}
use chess_kung_fu.Server.Rooms.Members.{IsSeated, join-IsSeated, creator-IsSeated, pair-IsSeated}
use chess_kung_fu.Server.Rooms.Service.{IsHoused, Resident, rewrite-IsHoused}

-- A user who is in no room takes a seat in a room: the room is new and was empty, or is there.
module _ (rooms : Dict String Room) (user_room : Dict String String) (rid u : String)
    (m : RoomMember) (members : Dict String RoomMember) (room' : Room)
    (v : IsHoused rooms user_room) (out : lookup u user_room ≡ none) (name : "" ≢ rid)
    (fill : room'.members ≡ insert u m members)
    (enter : (x : String) → lookup x user_room ≡ some rid → Resident members x)
    (sent : (x : String) → Resident members x → lookup x user_room ≡ some rid)
    (seats : IsSeated room'.members) where
  pub arrive-IsHoused : IsHoused (insert rid room' rooms) (insert u rid user_room)
  arrive-IsHoused =
      rewrite-IsHoused rooms user_room (insert u rid user_room) rid room' v
        (λ x r other h. elim (insert-cases u x rid user_room) [
          | inl (same, here) ↦ absurd (other (some_inj.0 (sym h ∙ here)))
          | inr (apart, there) ↦ sym there ∙ h
        ])
        (λ x r other h. elim (insert-cases u x rid user_room) [
          | inl (same, here) ↦
              absurd (none-ne-some r (sym out ∙ ap (λ z. lookup z user_room) (sym same) ∙ h))
          | inr (apart, there) ↦ there ∙ h
        ])
        (λ x h. elim (insert-cases u x m members) [
          | inl (same, here) ↦ (m, ap (λ z. lookup x z) fill ∙ here)
          | inr (apart, there) ↦ (elim (insert-cases u x rid user_room) [
            | inl (same, _) ↦ absurd (apart same)
            | inr (_, stays) ↦
                let (old, k) = enter x (sym stays ∙ h) in
                (old, ap (λ z. lookup x z) fill ∙ there ∙ k)
          ])
        ])
        (λ x res. elim (insert-cases u x rid user_room) [
          | inl (same, here) ↦ here
          | inr (apart, there) ↦ (elim (insert-cases u x m members) [
            | inl (same, _) ↦ absurd (apart same)
            | inr (_, stays) ↦
                there ∙ sent x (res.0, sym stays ∙ ap (λ z. lookup x z) (sym fill) ∙ res.1)
          ])
        ])
        seats name

fresh-enter :
    (rooms : Dict String Room) (user_room : Dict String String) (rid : String)
    → IsHoused rooms user_room
    → lookup rid rooms ≡ none
    → (x : String) → lookup x user_room ≡ some rid
    → Resident [] x
fresh-enter rooms user_room rid v fresh x h =
    let (room, _, there, _) = v.housed x rid h in absurd (none-ne-some room (sym fresh ∙ there))

fresh-sent :
    (user_room : Dict String String) (rid x : String)
    → Resident [] x
    → lookup x user_room ≡ some rid
unfolding lookup
fresh-sent user_room rid x (m, h) = absurd (none-ne-some m h)

-- A user whose entry Python takes for no room has none.
pub not_truthy :
    (s : RoomService) (u : String)
    → IsHoused s.rooms s.user_room
    → truthy (lookup u s.user_room) ≡ false
    → lookup u s.user_room ≡ none
not_truthy s u v h = elim (Option-cases (lookup u s.user_room)) [
  | inl none_there ↦ none_there
  | inr (r, there) ↦
      let empty : r ≡ "" = ground (arith, eq_iff r "") in
      let (room, _, here, _) = v.housed u r there in
      absurd (none-ne-some room (sym v.named ∙ ap (λ z. lookup z s.rooms) (sym empty) ∙ here))
]

-- A result that has a property if it is one.
abbrev pub Succeeds {ℓ} : {A : Type 0} → (A → Type ℓ) → Result A → Type ℓ
Succeeds P (ok a) = P a
Succeeds P (raise _) = Unit

-- `create_room`, if it does not raise, keeps the invariant, when `secrets.token_hex` gives a name
-- that is not empty and that no room has.
pub create_room-IsHoused :
    (s : RoomService) (token u : String)
    → IsHoused s.rooms s.user_room
    → lookup token s.rooms ≡ none
    → "" ≢ token
    → Succeeds (λ s'. IsHoused s'.rooms s'.user_room) (create_room s token u)
unfolding create_room
create_room-IsHoused s token u v fresh name =
    if-cases (Succeeds (λ s'. IsHoused s'.rooms s'.user_room)) (truthy (lookup u s.user_room))
      (λ busy. tt)
      (λ free.
        arrive-IsHoused s.rooms s.user_room token u (new_member u as_white) []
          (record {
            room_id = token;
            members = insert u (new_member u as_white) [];
            elo_updated = false;
            game_started = true;
          })
          v (not_truthy s u v free) name refl (fresh-enter s.rooms s.user_room token v fresh)
          (fresh-sent s.user_room token) (creator-IsSeated u))

-- A room for two users who are in none.
pair-IsHoused :
    (s : RoomService) (id a b : String)
    → IsHoused s.rooms s.user_room
    → lookup id s.rooms ≡ none
    → "" ≢ id
    → lookup a s.user_room ≡ none
    → lookup b s.user_room ≡ none
    → a ≢ b
    → let members = insert b (new_member b as_black) (insert a (new_member a as_white) []) in
      let s' = opened s id members (insert b id (insert a id s.user_room)) in
      IsHoused s'.rooms s'.user_room
pair-IsHoused s id a b v fresh name out_a out_b apart =
    let ma = insert a (new_member a as_white) [] in
    let mb = insert b (new_member b as_black) ma in
    let room_a : Room = record {
      room_id = id;
      members = ma;
      elo_updated = false;
      game_started = true;
    } in
    let room_b : Room = record {
      room_id = id;
      members = mb;
      elo_updated = false;
      game_started = true;
    } in
    let first =
      arrive-IsHoused s.rooms s.user_room id a (new_member a as_white) [] room_a v out_a name refl
        (fresh-enter s.rooms s.user_room id v fresh) (fresh-sent s.user_room id)
        (creator-IsSeated a) in
    let still : lookup b (insert a id s.user_room) ≡ none = elim (insert-cases a b id s.user_room) [
      | inl (same, _) ↦ absurd (apart (sym same))
      | inr (_, stays) ↦ stays ∙ out_b
    ] in
    let here : lookup id (insert id room_a s.rooms) ≡ some room_a = insert_here id room_a s.rooms in
    let second =
      arrive-IsHoused (insert id room_a s.rooms) (insert a id s.user_room) id b
        (new_member b as_black) ma room_b first still name refl
        (λ x h.
          let (room, m, there, k) = first.housed x id h in
          (m, subst (λ z. lookup x z.members ≡ some m) (some_inj.0 (sym there ∙ here)) k))
        (λ x res. first.listed id x room_a res.0 here res.1) (pair-IsSeated a b apart) in
    subst (λ z. IsHoused z (insert b id (insert a id s.user_room)))
      (insert_twice id room_b room_a s.rooms) second

-- `create_matched_room`, if it does not raise, keeps the invariant for two different users, when
-- the room's name is not empty.
pub create_matched_room-IsHoused :
    (s : RoomService) (token a b : String) (room_id : Option String)
    → IsHoused s.rooms s.user_room
    → "" ≢ chosen_id room_id token
    → a ≢ b
    → Succeeds (λ s'. IsHoused s'.rooms s'.user_room) (create_matched_room s token a b room_id)
unfolding create_matched_room
create_matched_room-IsHoused s token a b room_id v name apart =
    let id = chosen_id room_id token in
    let Kept = Succeeds (λ s'. IsHoused s'.rooms s'.user_room) in
    if-cases Kept (contains a s.user_room) (λ _. tt)
      (λ out_a.
        if-cases Kept (contains b s.user_room) (λ _. tt)
          (λ out_b.
            if-cases Kept (contains id s.rooms) (λ _. tt)
              (λ fresh.
                pair-IsHoused s id a b v (contains-none id s.rooms fresh) name
                  (contains-none a s.user_room out_a) (contains-none b s.user_room out_b) apart)))

pub room_name :
    (rooms : Dict String Room) (user_room : Dict String String) (rid : String) (room : Room)
    → IsHoused rooms user_room
    → lookup rid rooms ≡ some room
    → "" ≢ rid
room_name rooms user_room rid room v there h =
    none-ne-some room (sym v.named ∙ ap (λ z. lookup z rooms) h ∙ there)

pub stay_home :
    (rooms : Dict String Room) (user_room : Dict String String) (rid : String) (room : Room)
    → IsHoused rooms user_room
    → lookup rid rooms ≡ some room
    → (x : String) → lookup x user_room ≡ some rid
    → Resident room.members x
stay_home rooms user_room rid room v there x h =
    let (room', m, here, k) = v.housed x rid h in
    (m, subst (λ z. lookup x z.members ≡ some m) (some_inj.0 (sym here ∙ there)) k)

new_resident :
    (rooms : Dict String Room) (user_room : Dict String String) (rid u : String) (room : Room)
    → IsHoused rooms user_room
    → lookup rid rooms ≡ some room
    → lookup u user_room ≡ none
    → lookup u room.members ≡ none
new_resident rooms user_room rid u room v there out = elim (Option-cases (lookup u room.members)) [
  | inl absent ↦ absent
  | inr (m, here) ↦ absurd (none-ne-some rid (sym out ∙ v.listed rid u room m there here))
]

-- `join_room`, if it does not raise, keeps the invariant.
pub join_room-IsHoused :
    (s : RoomService) (rid u : String)
    → IsHoused s.rooms s.user_room
    → Succeeds (λ r. IsHoused r.0.rooms r.0.user_room) (join_room s rid u)
unfolding seat join_room
join_room-IsHoused s rid u v = elim (Option-cases (lookup rid s.rooms)) [
  | inl none_there ↦ rw (none_there, join_room) tt
  | inr (room, there) ↦
      rw (there, join_room)
        (if-cases (Succeeds (λ r. IsHoused r.0.rooms r.0.user_room)) (contains u s.user_room)
          (λ _. tt)
          (λ out.
            let absent = contains-none u s.user_room out in
            arrive-IsHoused s.rooms s.user_room rid u
              (new_member u (joining_role (player_count room.members))) room.members _ v absent
              (room_name s.rooms s.user_room rid room v there) refl
              (stay_home s.rooms s.user_room rid room v there)
              (λ x res. v.listed rid x room res.0 there res.1)
              (join-IsSeated u room.members
                (new_resident s.rooms s.user_room rid u room v there absent)
                (v.seated rid room there))))
]
