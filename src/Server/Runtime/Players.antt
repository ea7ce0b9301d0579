-- ===== src/Server/Runtime/Players.antt =====
-- A player of a room, as the rooms are written: marks and deadlines.
use chess_kung_fu.Prelude.{
  ◌≡◌, refl, ◌∙◌, sym, ap, true, none, some, String, string_eq, Dict, lookup, insert, insert-cases,
  Option-cases, inl, inr,
}
use mathlib.Core.Option.{some_inj}
use chess_kung_fu.Server.Rooms.{
  Room, RoomMember, RoomService, is_player, clear_disconnect_deadline, mark_elo_updated,
  find_member,
}

-- The user is a member of the room with a player's role.
pub record Player (rooms : Dict String Room) (rid u : String) : Type 0 where
  pub room : Room
  pub member : RoomMember
  pub there : lookup rid rooms ≡ some room
  pub here : lookup u room.members ≡ some member
  pub player : is_player member.role ≡ true

-- A write to a room that keeps its members and their roles.
pub rewrite-Player :
    (rooms : Dict String Room) (r rid u : String) (old new : Room)
    → lookup r rooms ≡ some old
    → ((m : RoomMember)
        → lookup u old.members ≡ some m
        → (n : RoomMember) × (lookup u new.members ≡ some n) × (n.role ≡ m.role))
    → Player rooms rid u
    → Player (insert r new rooms) rid u
rewrite-Player rooms r rid u old new there keep p = elim (insert-cases r rid new rooms) [
  | inl (same, now) ↦
      let at : p.room ≡ old = some_inj.0 (sym p.there ∙ ap (λ z. lookup z rooms) same ∙ there) in
      let (n, here, role) =
        keep p.member (ap (λ (x : Room). lookup u x.members) (sym at) ∙ p.here) in
      record {
        room = new;
        member = n;
        there = now;
        here = here;
        player = ap is_player role ∙ p.player;
      }
  | inr (_, stays) ↦ record {
    room = p.room;
    member = p.member;
    there = stays ∙ p.there;
    here = p.here;
    player = p.player;
  }
]

pub mark-Player :
    (s : RoomService) (r rid u : String)
    → Player s.rooms rid u
    → Player (mark_elo_updated s r).rooms rid u
unfolding mark_elo_updated
mark-Player s r rid u p = elim (Option-cases (lookup r s.rooms)) [
  | inl nowhere ↦ rw (nowhere, mark_elo_updated) p
  | inr (old, there) ↦
      rw (there, mark_elo_updated)
        (rewrite-Player s.rooms r rid u old (record old { elo_updated = true }) there
          (λ m h. (m, h, refl)) p)
]

pub clear-Player :
    (s : RoomService) (r v rid u : String)
    → Player s.rooms rid u
    → Player (clear_disconnect_deadline s r v).rooms rid u
unfolding clear_disconnect_deadline find_member
clear-Player s r v rid u p = elim (Option-cases (lookup r s.rooms)) [
  | inl nowhere ↦ rw (nowhere, clear_disconnect_deadline) p
  | inr (old, there) ↦ (elim (Option-cases (lookup v old.members)) [
    | inl absent ↦ rw (there, absent, clear_disconnect_deadline) p
    | inr (m, here) ↦
        let m' = record m { disconnect_deadline = none } in
        rw (there, here, clear_disconnect_deadline)
          (rewrite-Player s.rooms r rid u old (record old { members = insert v m' old.members })
            there
            (λ n h. elim (insert-cases v u m' old.members) [
              | inl (same, now) ↦ (
                m',
                now,
                ap (λ (x : RoomMember). x.role)
                    (some_inj.0 (sym here ∙ ap (λ z. lookup z old.members) (sym same) ∙ h)),
              )
              | inr (_, stays) ↦ (n, stays ∙ h, refl)
            ])
            p)
  ])
]
