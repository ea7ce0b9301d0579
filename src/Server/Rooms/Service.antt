-- ===== src/Server/Rooms/Service.antt =====
-- The invariant that ties the two dictionaries of `RoomService` together, and what a change to
-- one room needs to keep it.
use chess_kung_fu.Prelude.{
  ◌≡◌, ◌≢◌, ◌∙◌, sym, ap, subst, none, some, string_eq, nat_eq, String, Dict, lookup, insert,
  insert-cases, inl, inr,
}
use mathlib.Core.Option.{some_inj}
use chess_kung_fu.Server.Rooms.{Room, RoomMember}
use chess_kung_fu.Server.Rooms.Members.{IsSeated}

pub record IsHoused (rooms : Dict String Room) (user_room : Dict String String) : Type 0 where
  -- A user is a member of the room that `_user_room` gives.
  pub housed :
      (u rid : String)
      → lookup u user_room ≡ some rid
      → (room : Room) × (m : RoomMember) × (lookup rid rooms ≡ some room)
        × (lookup u room.members ≡ some m)
  -- A member of a room is given that room.
  pub listed :
      (rid u : String) (room : Room) (m : RoomMember)
      → lookup rid rooms ≡ some room
      → lookup u room.members ≡ some m
      → lookup u user_room ≡ some rid
  pub seated : (rid : String) (room : Room) → lookup rid rooms ≡ some room → IsSeated room.members
  -- No room has the empty name, which `create_room` takes for no room.
  pub named : lookup "" rooms ≡ none

abbrev pub Resident : Dict String RoomMember → String → Type 0
Resident members x = (m : RoomMember) × (lookup x members ≡ some m)

-- A write of one room and of the users' rooms, when the others stay where they are.
module _ (rooms : Dict String Room) (user_room user_room' : Dict String String) (rid : String)
    (room' : Room) (v : IsHoused rooms user_room)
    (away : (x r : String) → r ≢ rid → lookup x user_room' ≡ some r → lookup x user_room ≡ some r)
    (back : (x r : String) → r ≢ rid → lookup x user_room ≡ some r → lookup x user_room' ≡ some r)
    (enter : (x : String) → lookup x user_room' ≡ some rid → Resident room'.members x)
    (sent : (x : String) → Resident room'.members x → lookup x user_room' ≡ some rid)
    (seats : IsSeated room'.members) (name : "" ≢ rid) where
  pub rewrite-IsHoused : IsHoused (insert rid room' rooms) user_room'
  rewrite-IsHoused = record {
    housed = λ x r h. elim (insert-cases rid r room' rooms) [
      | inl (same, here) ↦ let (m, k) = enter x (h ∙ ap some same) in (room', m, here, k)
      | inr (other, there) ↦
          let (room, m, i, k) = v.housed x r (away x r other h) in (room, m, there ∙ i, k)
    ];
    listed = λ r x room m h k. elim (insert-cases rid r room' rooms) [
      | inl (same, here) ↦
          let e : room ≡ room' = some_inj.0 (sym h ∙ here) in
          sent x (m, subst (λ z. lookup x z.members ≡ some m) e k) ∙ ap some (sym same)
      | inr (other, there) ↦ back x r other (v.listed r x room m (sym there ∙ h) k)
    ];
    seated = λ r room h. elim (insert-cases rid r room' rooms) [
      | inl (same, here) ↦ subst (λ z. IsSeated z.members) (some_inj.0 (sym here ∙ h)) seats
      | inr (other, there) ↦ v.seated r room (sym there ∙ h)
    ];
    named = elim (insert-cases rid "" room' rooms) [
      | inl (same, here) ↦ absurd (name same)
      | inr (other, there) ↦ there ∙ v.named
    ];
  }
