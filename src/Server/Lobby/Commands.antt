-- ===== src/Server/Lobby/Commands.antt =====
-- The commands of the lobby, in any order, and sessions: what they keep and what they answer.
use chess_kung_fu.Prelude.{
  ℕ, ◌≡◌, ◌≢◌, refl, sym, true, false, Option, none, some, String, string_eq, lookup, ℤ, if-cases,
  inl, inr, ◌⊎◌,
}
use mathlib.Core.Bool.{true≢false}
use chess_kung_fu.Server.Rooms.{
  PlayerRole, RoomService, room_id_for_user, truthy, Result, ok, raise, create_room, join_room,
}
use chess_kung_fu.Server.Rooms.Service.{IsHoused}
use chess_kung_fu.Server.Rooms.Arrivals.{
  Succeeds, create_room-IsHoused, join_room-IsHoused, not_truthy,
}
use chess_kung_fu.Server.Matchmaking.{is_queued}
use chess_kung_fu.Server.Matchmaking.Rounds.{IsUnique}
use chess_kung_fu.Server.Matchmaking.Queue.{enqueue-IsUnique, cancel-IsUnique}
use chess_kung_fu.Server.Lobby.{
  Lobby, CommandOutcome, play, cancel_play, created, create, joined, join,
}

-- A command of a user. The name that `secrets.token_hex` gives for a new room is not empty, and
-- no room has it.
pub data Command : Lobby → Lobby → Type 0 where
  plays : (s : Lobby) (now : ℕ) (elo : ℤ) (user_id : String) → Command s (play s now elo user_id).0
  cancels : (s : Lobby) (user_id : String) → Command s (cancel_play s user_id).0
  creates :
      (s : Lobby) (token user_id : String)
      → lookup token s.rooms.rooms ≡ none
      → "" ≢ token
      → Command s (create s token user_id).0
  joins : (s : Lobby) (user_id room_id : String) → Command s (join s user_id room_id).0

pub data Commands (s : Lobby) : Lobby → Type 0 where
  start : Commands s s
  then_one : {s' s'' : Lobby} → Commands s s' → Command s' s'' → Commands s s''

-- The rooms keep their invariant, and no user is queued twice.
pub record IsSound (s : Lobby) : Type 0 where
  pub rooms : IsHoused s.rooms.rooms s.rooms.user_room
  pub queue : IsUnique s.queue

pub created-IsSound :
    (s : Lobby) (token : String) (r : Result RoomService)
    → IsSound s
    → Succeeds (λ s'. IsHoused s'.rooms s'.user_room) r
    → IsSound (created s token r).0
created-IsSound s token (ok rooms) v h = record { rooms = h; queue = v.queue }
created-IsSound s token (raise e) v h = v

pub joined-IsSound :
    (s : Lobby) (user_id room_id : String) (r : Result (RoomService × PlayerRole))
    → IsSound s
    → Succeeds (λ p. IsHoused p.0.rooms p.0.user_room) r
    → IsSound (joined s user_id room_id r).0
joined-IsSound s user_id room_id (ok (rooms, role)) v h = record { rooms = h; queue = v.queue }
joined-IsSound s user_id room_id (raise e) v h = v

pub play-IsSound :
    (s : Lobby) (now : ℕ) (elo : ℤ) (user_id : String)
    → IsSound s
    → IsSound (play s now elo user_id).0
unfolding play
play-IsSound s now elo user_id v =
    if-cases (λ (r : Lobby × CommandOutcome). IsSound r.0)
      (truthy (room_id_for_user s.rooms user_id)) (λ busy. v)
      (λ free. record {
        rooms = v.rooms;
        queue = (enqueue-IsUnique s.queue now elo user_id v.queue).0;
      })

pub Command-IsSound : {s s' : Lobby} → Command s s' → IsSound s → IsSound s'
Command-IsSound (plays s now elo user_id) v = play-IsSound s now elo user_id v
Command-IsSound (cancels s user_id) v =
    unfold cancel_play in
    record { rooms = v.rooms; queue = (cancel-IsUnique s.queue user_id v.queue).0 }
Command-IsSound (creates s token user_id fresh name) v =
    unfold create in
    created-IsSound s token (create_room s.rooms token user_id) v
      (create_room-IsHoused s.rooms token user_id v.rooms fresh name)
Command-IsSound (joins s user_id room_id) v =
    unfold join in
    joined-IsSound s user_id room_id (join_room s.rooms room_id user_id) v
      (join_room-IsHoused s.rooms room_id user_id v.rooms)

truthy-some : (o : Option String) → truthy o ≡ true → (r : String) × (o ≡ some r)
truthy-some none h = absurd (true≢false (sym h))
truthy-some (some r) h = (r, refl)

-- `play` queues exactly the users who are in no room; for the others it changes nothing and says
-- that it has failed.
pub play_lem :
    (s : Lobby) (now : ℕ) (elo : ℤ) (user_id : String)
    → IsSound s
    → let (s', outcome) = play s now elo user_id in
      ((lookup user_id s.rooms.user_room ≡ none)
        × (outcome.succeeded ≡ true)
        × (is_queued s'.queue user_id ≡ true))
      ⊎ ((r : String) × (lookup user_id s.rooms.user_room ≡ some r)
          × (outcome.succeeded ≡ false)
          × (s' ≡ s))
unfolding play
play_lem s now elo user_id v =
    let home = lookup user_id s.rooms.user_room in
    if-cases
      (λ (p : Lobby × CommandOutcome).
        ((home ≡ none) × (p.1.succeeded ≡ true) × (is_queued p.0.queue user_id ≡ true))
        ⊎ ((r : String) × (home ≡ some r) × (p.1.succeeded ≡ false) × (p.0 ≡ s)))
      (truthy home)
      (λ busy. let (r, at_home) = truthy-some home busy in inr (r, at_home, refl, refl))
      (λ free. inl (
        not_truthy s.rooms user_id v.rooms free,
        refl,
        (enqueue-IsUnique s.queue now elo user_id v.queue).1,
      ))
