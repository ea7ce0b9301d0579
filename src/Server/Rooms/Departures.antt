-- ===== src/Server/Rooms/Departures.antt =====
-- The operations of `RoomService` by which users go and come back, and the invariant.
use chess_kung_fu.Prelude.{
  ℕ, ◌+◌, ◌≡◌, refl, ◌∙◌, sym, ap, false, Option, none, some, string_eq, nat_eq, String, Dict,
  lookup, insert, erase, insert-cases, erase-cases, erase_other, inl, inr, Bool-cases, Option-cases,
}
use mathlib.Core.Option.{some_inj, none-ne-some}
use chess_kung_fu.Server.Rooms.{
  disconnected, Room, RoomMember, is_player, RoomService, new_service, find_member, put_member,
  drop_user, mark_disconnected, reconnect, clear_disconnect_deadline, mark_elo_updated,
  disconnect_grace_ms,
}
use chess_kung_fu.Server.Rooms.Members.{IsSeated, update-IsSeated, erase-IsSeated}
use chess_kung_fu.Server.Rooms.Service.{IsHoused, Resident, rewrite-IsHoused}
use chess_kung_fu.Server.Rooms.Arrivals.{room_name, stay_home}

-- A room is written with the same users in it.
module _ (rooms : Dict String Room) (user_room : Dict String String) (rid : String)
    (room room' : Room) (v : IsHoused rooms user_room) (there : lookup rid rooms ≡ some room) where
  pub update-IsHoused :
      (to : (x : String) → Resident room.members x → Resident room'.members x)
      → (of : (x : String) → Resident room'.members x → Resident room.members x)
      → IsSeated room'.members
      → IsHoused (insert rid room' rooms) user_room
  update-IsHoused to of seats =
      rewrite-IsHoused rooms user_room user_room rid room' v (λ x r other h. h) (λ x r other h. h)
        (λ x h. to x (stay_home rooms user_room rid room v there x h))
        (λ x res. let (m, k) = of x res in v.listed rid x room m there k) seats
        (room_name rooms user_room rid room v there)

pub put_member-IsHoused :
    (s : RoomService) (rid u : String) (room : Room) (old m : RoomMember)
    → IsHoused s.rooms s.user_room
    → lookup rid s.rooms ≡ some room
    → lookup u room.members ≡ some old
    → m.role ≡ old.role
    → let s' = put_member s rid room u m in IsHoused s'.rooms s'.user_room
put_member-IsHoused s rid u room old m v there here same =
    update-IsHoused s.rooms s.user_room rid room (record room { members = insert u m room.members })
      v there
      (λ x (n, k). elim (insert-cases u x m room.members) [
        | inl (_, e) ↦ (m, e)
        | inr (_, e) ↦ (n, e ∙ k)
      ])
      (λ x (n, k). elim (insert-cases u x m room.members) [
        | inl (e, _) ↦ (old, ap (λ z. lookup z room.members) e ∙ here)
        | inr (_, e) ↦ (n, sym e ∙ k)
      ])
      (update-IsSeated u old m room.members here same (v.seated rid room there))

pub drop_user-IsHoused :
    (s : RoomService) (rid u : String) (room : Room) (old : RoomMember)
    → IsHoused s.rooms s.user_room
    → lookup rid s.rooms ≡ some room
    → lookup u room.members ≡ some old
    → is_player old.role ≡ false
    → let s' = drop_user s rid room u in IsHoused s'.rooms s'.user_room
unfolding drop_user
drop_user-IsHoused s rid u room old v there here out =
    rewrite-IsHoused s.rooms s.user_room (erase u s.user_room) rid
      (record room { members = erase u room.members }) v
      (λ x r other h. elim (erase-cases u x s.user_room) [
        | inl (_, e) ↦ absurd (none-ne-some r (sym e ∙ h))
        | inr (_, e) ↦ sym e ∙ h
      ])
      (λ x r other h. elim (erase-cases u x s.user_room) [
        | inl (e, _) ↦ absurd (
            other (
              some_inj.0
                (sym h ∙ ap (λ z. lookup z s.user_room) e ∙ v.listed rid u room old there here)))
        | inr (_, e) ↦ e ∙ h
      ])
      (λ x h. elim (erase-cases u x s.user_room) [
        | inl (_, e) ↦ absurd (none-ne-some rid (sym e ∙ h))
        | inr (apart, e) ↦
            let (m, k) = stay_home s.rooms s.user_room rid room v there x (sym e ∙ h) in
            (m, erase_other u x room.members apart ∙ k)
      ])
      (λ x (m, k). elim (erase-cases u x room.members) [
        | inl (_, e) ↦ absurd (none-ne-some m (sym e ∙ k))
        | inr (apart, e) ↦
            erase_other u x s.user_room apart ∙ v.listed rid x room m there (sym e ∙ k)
      ])
      (erase-IsSeated u old room.members here out (v.seated rid room there))
      (room_name s.rooms s.user_room rid room v there)

-- With the invariant, `mark_disconnected` raises no `KeyError` and keeps the invariant.
pub mark_disconnected-IsHoused :
    (s : RoomService) (now : ℕ) (u : String)
    → IsHoused s.rooms s.user_room
    → (s' : RoomService) × (r : Option String) × (mark_disconnected s now u ≡ some (s', r))
      × IsHoused s'.rooms s'.user_room
unfolding mark_disconnected
mark_disconnected-IsHoused s now u v = elim (Option-cases (lookup u s.user_room)) [
  | inl out ↦ (s, none, rw (out, mark_disconnected) refl, v)
  | inr (rid, home) ↦
      let (room, m, there, here) = v.housed u rid home in
      elim (Bool-cases (is_player m.role)) [
        | inl plays ↦ (
          put_member s rid room u (record m {
            status = disconnected;
            disconnect_deadline = some (now + disconnect_grace_ms);
          }),
          some rid,
          rw (home, there, here, plays, mark_disconnected) refl,
          put_member-IsHoused s rid u room m _ v there here refl,
        )
        | inr views ↦ (
          drop_user s rid room u,
          none,
          rw (home, there, here, views, mark_disconnected) refl,
          drop_user-IsHoused s rid u room m v there here views,
        )
      ]
]

-- `reconnect` keeps the invariant, and gives the room of every user who has one.
pub reconnect-IsHoused :
    (s : RoomService) (u : String)
    → IsHoused s.rooms s.user_room
    → let s' = (reconnect s u).0 in
      IsHoused s'.rooms s'.user_room × ((reconnect s u).1 ≡ lookup u s.user_room)
unfolding reconnect find_member
reconnect-IsHoused s u v = elim (Option-cases (lookup u s.user_room)) [
  | inl out ↦ rw (out, reconnect) (v, refl)
  | inr (rid, home) ↦
      let (room, m, there, here) = v.housed u rid home in
      rw (home, there, here, reconnect)
        (put_member-IsHoused s rid u room m _ v there here refl, refl)
]

pub clear_disconnect_deadline-IsHoused :
    (s : RoomService) (rid u : String)
    → IsHoused s.rooms s.user_room
    → let s' = clear_disconnect_deadline s rid u in IsHoused s'.rooms s'.user_room
unfolding clear_disconnect_deadline find_member
clear_disconnect_deadline-IsHoused s rid u v = elim (Option-cases (lookup rid s.rooms)) [
  | inl none_there ↦ rw (none_there, clear_disconnect_deadline) v
  | inr (room, there) ↦ (elim (Option-cases (lookup u room.members)) [
    | inl absent ↦ rw (there, absent, clear_disconnect_deadline) v
    | inr (m, here) ↦
        rw (there, here, clear_disconnect_deadline)
          (put_member-IsHoused s rid u room m _ v there here refl)
  ])
]

pub mark_elo_updated-IsHoused :
    (s : RoomService) (rid : String)
    → IsHoused s.rooms s.user_room
    → let s' = mark_elo_updated s rid in IsHoused s'.rooms s'.user_room
unfolding mark_elo_updated
mark_elo_updated-IsHoused s rid v = elim (Option-cases (lookup rid s.rooms)) [
  | inl none_there ↦ rw (none_there, mark_elo_updated) v
  | inr (room, there) ↦
      rw (there, mark_elo_updated)
        (update-IsHoused s.rooms s.user_room rid room _ v there (λ x r. r) (λ x r. r)
          (v.seated rid room there))
]

pub new_service-IsHoused : IsHoused new_service.rooms new_service.user_room
unfolding lookup
new_service-IsHoused = record {
  housed = λ u r h. absurd (none-ne-some r h);
  listed = λ r u room m h k. absurd (none-ne-some room h);
  seated = λ r room h. absurd (none-ne-some room h);
  named = refl;
}
