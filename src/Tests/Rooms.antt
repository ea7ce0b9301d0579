-- ===== src/Tests/Rooms.antt =====
-- The witnesses of the rooms.
use chess_kung_fu.Prelude.{
  true, false, ◌≡◌, ◌≢◌, refl, Option, none, some, [], arith, lookup, insert, String, string_eq,
}
use chess_kung_fu.Server.Rooms.{
  Room, RoomService, new_service, opened, new_member, as_white, create_room, create_matched_room,
  join_room, mark_disconnected, reconnect,
}
use chess_kung_fu.Server.Rooms.Service.{IsHoused}
use chess_kung_fu.Server.Rooms.Arrivals.{
  Succeeds, create_room-IsHoused, create_matched_room-IsHoused, join_room-IsHoused,
}
use chess_kung_fu.Server.Rooms.Departures.{
  new_service-IsHoused, mark_disconnected-IsHoused, reconnect-IsHoused,
}
use text.Mathlib.TextEquality.{eq_iff}

abbrev pub IsHousedService : RoomService → Type 0
IsHousedService s = IsHoused s.rooms s.user_room

unnamed : ◌≢◌ {A = String} "" "a1b2c3"
unnamed e = ground (arith, eq_iff "" "a1b2c3")

apart : ◌≢◌ {A = String} "ann" "bob"
apart e = ground (arith, eq_iff "ann" "bob")

create_matched_room-IsHoused_example :
    Succeeds IsHousedService (create_matched_room new_service "a1b2c3" "ann" "bob" none)
create_matched_room-IsHoused_example =
    create_matched_room-IsHoused new_service "a1b2c3" "ann" "bob" none new_service-IsHoused unnamed
      apart

-- The room that Ann has made.
abbrev pub service : RoomService
service =
    opened new_service "a1b2c3" (insert "ann" (new_member "ann" as_white) [])
      (insert "ann" "a1b2c3" [])

pub service-IsHoused : IsHousedService service
unfolding create_room lookup
service-IsHoused = create_room-IsHoused new_service "a1b2c3" "ann" new_service-IsHoused refl unnamed

join_room-IsHoused_example : Succeeds (λ r. IsHousedService r.0) (join_room service "a1b2c3" "bob")
join_room-IsHoused_example = join_room-IsHoused service "a1b2c3" "bob" service-IsHoused

mark_disconnected-IsHoused_example :
    (s' : RoomService) × (r : Option String) × (mark_disconnected service 5000 "ann" ≡ some (s', r))
    × IsHousedService s'
mark_disconnected-IsHoused_example = mark_disconnected-IsHoused service 5000 "ann" service-IsHoused

reconnect-IsHoused_example :
    IsHousedService (reconnect service "ann").0
    × ((reconnect service "ann").1 ≡ lookup "ann" service.user_room)
reconnect-IsHoused_example = reconnect-IsHoused service "ann" service-IsHoused

abbrev anns_room : Room
anns_room = record {
  room_id = "a1b2c3";
  members = insert "ann" (new_member "ann" as_white) [];
  elo_updated = false;
  game_started = true;
}
