-- ===== src/Server/Shard/Hosting.antt =====
-- What a shard has done once it has taken a match.
use chess_kung_fu.Prelude.{
  ◌≡◌, refl, sym, ◌∙◌, true, false, ◌||◌, Option, some, List, [], ◌∷◌, if◌then◌else◌, ◌==◌,
  Bool-cases, inl, inr, ◌⊎◌, arith, ==-refl, lookup, contains, contains-some, lookup-insert,
  if-elim, insert, insert_here, subst, String, string_eq, Dict,
}
use chess_kung_fu.Model.{Text, text, text_eq}
use chess_kung_fu.Engine.{GameEngine}
use chess_kung_fu.Server.Protocol.{Fields}
use chess_kung_fu.Server.Rooms.{
  RoomService, RoomMember, Result, ok, raise, create_matched_room, opened, new_member, as_white,
  as_black, user_already_in_room, room_already_exists,
}
use chess_kung_fu.Server.Rooms.Arrivals.{Succeeds}
use chess_kung_fu.Server.Router.{on_room_created}
use chess_kung_fu.Server.Redis.{Keys, IsKeys}
use chess_kung_fu.Server.Allocator.{shard_for_user}
use chess_kung_fu.Server.Allocator.Matches.{shard_for_user-bind_match}
use chess_kung_fu.Server.Shard.{Shard, host_match, handle_create_match}

-- The two users are in the room.
record Seats (room_id white_id black_id : String) (rooms : RoomService) : Type 0 where
  there : contains room_id rooms.rooms ≡ true
  white_in : lookup white_id rooms.user_room ≡ some room_id
  black_in : lookup black_id rooms.user_room ≡ some room_id

opened-Seats :
    (s : RoomService) (room_id a b : String) (members : Dict String RoomMember)
    → Seats room_id a b (opened s room_id members (insert b room_id (insert a room_id s.user_room)))
opened-Seats s room_id a b members = record {
  there = contains-some room_id _ (insert_here room_id _ s.rooms);
  white_in =
      lookup-insert b a room_id (insert a room_id s.user_room)
      ∙ if-elim (λ (x : Option String). x ≡ some room_id) (a == b) refl
          (insert_here a room_id s.user_room);
  black_in = insert_here b room_id (insert a room_id s.user_room);
}

matched-Seats :
    (s : RoomService) (room_id a b : String)
    → Succeeds (Seats room_id a b) (create_matched_room s room_id a b (some room_id))
unfolding create_matched_room
matched-Seats s room_id a b =
    subst
      (λ (id : String). Succeeds (Seats room_id a b) (
        if contains a s.user_room
        then raise (user_already_in_room a)
        else if contains b s.user_room
        then raise (user_already_in_room b)
        else if contains id s.rooms
        then raise (room_already_exists id)
        else ok (opened s id (members a b) (insert b id (insert a id s.user_room)))))
      (sym (if-elim (λ (x : String). x ≡ room_id) (room_id == "") refl refl))
      (if-elim P (contains a s.user_room) tt (
        if-elim P (contains b s.user_room) tt
          (if-elim P (contains room_id s.rooms) tt (opened-Seats s room_id a b (members a b)))))
  where
    P : Result RoomService → Type 0
    P = Succeeds (Seats room_id a b)

    members : String → String → Dict String RoomMember
    members a b = insert b (new_member b as_black) (insert a (new_member a as_white) [])

module _ {K : Type 0} (rk : Keys K) (h : IsKeys rk) (shard_id : Text) (fresh : GameEngine) where
  -- The shard plays the room, and Redis leads the commands of both players to it.
  pub IsHosted : Shard K → String → String → String → Type 0
  IsHosted s room_id white_id black_id =
      (contains room_id s.engines ≡ true)
      × (contains room_id s.lobby.rooms.rooms ≡ true)
      × (lookup white_id s.lobby.rooms.user_room ≡ some room_id)
      × (lookup black_id s.lobby.rooms.user_room ≡ some room_id)
      × (shard_for_user rk s.keys (text white_id) ≡ some shard_id)
      × (shard_for_user rk s.keys (text black_id) ≡ some shard_id)

  has_engine :
      (engines : Dict String GameEngine) (room_id : String)
      → contains room_id (on_room_created fresh engines room_id) ≡ true
  unfolding on_room_created
  has_engine engines room_id = elim (Bool-cases (contains room_id engines)) [
    | inl there ↦ rw there there
    | inr new ↦
        rw new
          (contains-some room_id (insert room_id fresh engines) (insert_here room_id fresh engines))
  ]

  -- What a shard has made of a match: nothing, without a message, or a room that it hosts.
  pub Taken : Shard K → String → String → String → Shard K × List (List String × Fields) → Type 0
  Taken s room_id white_id black_id x =
      ((x.0 ≡ s) × (x.1 ≡ [])) ⊎ IsHosted x.0 room_id white_id black_id

  module _ (s : Shard K) (room_id a b : String) (room : (text room_id == []) ≡ false)
      (white : (text a == []) ≡ false) (black : (text b == []) ≡ false) where
    host_match-Taken :
        (result : Result RoomService)
        → Succeeds (Seats room_id a b) result
        → Taken s room_id a b (host_match rk shard_id fresh s room_id a b result)
    unfolding host_match Taken IsHosted
    host_match-Taken (raise _) seats = inl (refl, refl)
    host_match-Taken (ok rooms) seats =
        let users = text a ∷ text b ∷ [] in
        inr (
          has_engine s.engines room_id,
          seats.there,
          seats.white_in,
          seats.black_in,
          shard_for_user-bind_match rk h s.keys (text room_id) shard_id users (text a) room white
              (ground (arith, ==-refl (text a))),
          shard_for_user-bind_match rk h s.keys (text room_id) shard_id users (text b) room black
              (ground (arith, ==-refl (text b))),
        )

  -- A match that comes to a shard is either refused by the rooms, and then nothing changes and
  -- nobody is told; or it is hosted: the room is there with an engine, both users are in it, and
  -- their commands are led to this shard.
  pub handle_create_match_lem :
      (s : Shard K) (room_id white_id black_id : String)
      → (text room_id == []) ≡ false
      → (text white_id == []) ≡ false
      → (text black_id == []) ≡ false
      → Taken s room_id white_id black_id
          (handle_create_match rk shard_id fresh s room_id white_id black_id)
  unfolding handle_create_match Taken
  handle_create_match_lem s room_id white_id black_id room white black =
      if-elim (Taken s room_id white_id black_id)
        ((room_id == "") || ((white_id == "") || (black_id == ""))) (inl (refl, refl))
        (host_match-Taken s room_id white_id black_id room white black
          (create_matched_room s.lobby.rooms room_id white_id black_id (some room_id))
          (matched-Seats s.lobby.rooms room_id white_id black_id))
