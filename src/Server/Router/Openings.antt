-- ===== src/Server/Router/Openings.antt =====
-- Each room gets an engine when it is opened: the rooms' list of callbacks, and the engines.
use chess_kung_fu.Prelude.{
  ◌≡◌, refl, ◌∙◌, sym, ap, subst, true, false, not, ◌&&◌, some, List, [], ◌∷◌, ◌++◌, length, String,
  string_eq, Dict, lookup, insert, Each, Each-insert, contains, contains-none, insert-cases,
  insert_here, if-elim, if-cases, Bool-cases, Option-cases, inl, inr, ◌⊎◌, arith, if_true, if_false,
}
use mathlib.Core.Option.{none-ne-some}
use chess_kung_fu.Engine.{GameEngine}
use chess_kung_fu.Engine.Valid.{IsValid}
use chess_kung_fu.Server.Rooms.{
  Room, RoomService, truthy, create_room, join_room, seat, new_member, as_white, is_player,
  joining_role, player_count,
}
use chess_kung_fu.Server.Rooms.Arrivals.{Succeeds}
use chess_kung_fu.Server.Games.Arenas.{IsManned}
use chess_kung_fu.Server.Router.{on_room_created, open_games}

-- The rooms of `t` are those of `s`, but for one that has been opened since, if any.
pub data Opens (s t : RoomService) : Type 0 where
  same :
      ((rid : String) (room : Room)
        → lookup rid t.rooms ≡ some room
        → (old : Room) × (lookup rid s.rooms ≡ some old))
      → t.started ≡ s.started
      → Opens s t
  one_more :
      (new : String)
      → ((rid : String) (room : Room)
          → lookup rid t.rooms ≡ some room
          → (rid ≡ new) ⊎ ((old : Room) × (lookup rid s.rooms ≡ some old)))
      → t.started ≡ s.started ++ new ∷ []
      → Opens s t

pub Opens-refl : (s : RoomService) → Opens s s
Opens-refl s = same (λ rid room h. (room, h)) refl

pub create_room-Opens :
    (s : RoomService) (token u : String) → Succeeds (Opens s) (create_room s token u)
unfolding create_room
create_room-Opens s token u =
    let anew : Room = record {
      room_id = token;
      members = insert u (new_member u as_white) [];
      elo_updated = false;
      game_started = true;
    } in
    if-elim (Succeeds (Opens s)) (truthy (lookup u s.user_room)) tt (
      one_more token
        (λ rid room h. elim (insert-cases token rid anew s.rooms) [
          | inl (here, _) ↦ inl here
          | inr (_, there) ↦ inr (room, sym there ∙ h)
        ])
        refl)

-- A write to a room that is there.
rewritten :
    (rooms : Dict String Room) (rid : String) (old new : Room)
    → lookup rid rooms ≡ some old
    → (x : String) (room : Room) → lookup x (insert rid new rooms) ≡ some room
    → (was : Room) × (lookup x rooms ≡ some was)
rewritten rooms rid old new here x room h = elim (insert-cases rid x new rooms) [
  | inl (at, _) ↦ (old, ap (λ z. lookup z rooms) at ∙ here)
  | inr (_, there) ↦ (room, sym there ∙ h)
]

seat-Opens :
    (s : RoomService) (room : Room) (rid u : String)
    → lookup rid s.rooms ≡ some room
    → Opens s (seat s room rid u).0
unfolding seat
seat-Opens s room rid u here =
    elim (Bool-cases
      (is_player (joining_role (player_count room.members)) && not room.game_started)) [
        | inl starts ↦
            one_more rid (λ x r h. inr (rewritten s.rooms rid room _ here x r h))
              (if_true _ _ _ starts)
        | inr waits ↦ same (rewritten s.rooms rid room _ here) (if_false _ _ _ waits)
      ]

pub join_room-Opens :
    (s : RoomService) (rid u : String) → Succeeds (λ p. Opens s p.0) (join_room s rid u)
unfolding join_room
join_room-Opens s rid u = elim (Option-cases (lookup rid s.rooms)) [
  | inl nowhere ↦ rw (nowhere, join_room) tt
  | inr (room, here) ↦
      rw (here, join_room)
        (if-elim (Succeeds (λ p. Opens s p.0)) (contains u s.user_room) tt
          (seat-Opens s room rid u here))
]

-- The engine of a room that is opened is there, or is made.
module _ (fresh : GameEngine) where
  pub on_room_created_keeps :
      (engines : Dict String GameEngine) (rid x : String) (e : GameEngine)
      → lookup x engines ≡ some e
      → lookup x (on_room_created fresh engines rid) ≡ some e
  unfolding on_room_created
  on_room_created_keeps engines rid x e h =
      if-cases (λ (d : Dict String GameEngine). lookup x d ≡ some e) (contains rid engines)
        (λ there. h)
        (λ absent. elim (insert-cases rid x fresh engines) [
          | inl (at, _) ↦ absurd (
              none-ne-some e
                (sym (contains-none rid engines absent) ∙ ap (λ z. lookup z engines) (sym at) ∙ h))
          | inr (_, stays) ↦ stays ∙ h
        ])

  pub on_room_created_makes :
      (engines : Dict String GameEngine) (rid : String)
      → (e : GameEngine) × (lookup rid (on_room_created fresh engines rid) ≡ some e)
  unfolding on_room_created contains
  on_room_created_makes engines rid =
      if-cases (λ (d : Dict String GameEngine). (e : GameEngine) × (lookup rid d ≡ some e))
        (contains rid engines)
        (λ there. elim (Option-cases (lookup rid engines)) [
          | inl absent ↦ absurd (ground arith)
          | inr found ↦ found
        ])
        (λ absent. (fresh, insert_here rid fresh engines))

  pub on_room_created-IsValid :
      (engines : Dict String GameEngine) (rid : String)
      → IsValid fresh
      → Each IsValid engines
      → Each IsValid (on_room_created fresh engines rid)
  unfolding on_room_created
  on_room_created-IsValid engines rid v valid =
      if-elim (Each IsValid) (contains rid engines) valid
        (Each-insert IsValid rid fresh engines v valid)

  open_games_no_more :
      (ids : List String) (engines : Dict String GameEngine)
      → open_games fresh (length ids) ids engines ≡ engines
  unfolding open_games
  open_games_no_more [] engines = refl
  open_games_no_more (x ∷ ids) engines = open_games_no_more ids engines

  open_games_one_more :
      (ids : List String) (new : String) (engines : Dict String GameEngine)
      → open_games fresh (length ids) (ids ++ new ∷ []) engines ≡ on_room_created fresh engines new
  unfolding open_games
  open_games_one_more [] new engines = refl
  open_games_one_more (x ∷ ids) new engines = open_games_one_more ids new engines

-- The callbacks keep every engine that is there, give every room one, and make no invalid one.
module _ (fresh : GameEngine) (s t : RoomService) (engines : Dict String GameEngine) where
  abbrev pub callbacks : Dict String GameEngine
  callbacks = open_games fresh (length s.started) t.started engines

  unmoved : t.started ≡ s.started → callbacks ≡ engines
  unmoved quiet =
      ap (λ ids. open_games fresh (length s.started) ids engines) quiet
      ∙ open_games_no_more fresh s.started engines

  made :
      (new : String)
      → t.started ≡ s.started ++ new ∷ []
      → callbacks ≡ on_room_created fresh engines new
  made new told =
      ap (λ ids. open_games fresh (length s.started) ids engines) told
      ∙ open_games_one_more fresh s.started new engines

  pub callbacks_keep :
      Opens s t
      → (x : String) (e : GameEngine) → lookup x engines ≡ some e
      → lookup x callbacks ≡ some e
  callbacks_keep (same old quiet) x e h = ap (lookup x) (unmoved quiet) ∙ h
  callbacks_keep (one_more new old told) x e h =
      ap (lookup x) (made new told) ∙ on_room_created_keeps fresh engines new x e h

  pub callbacks-IsManned : Opens s t → IsManned s.rooms engines → IsManned t.rooms callbacks
  callbacks-IsManned (same old quiet) manned rid room h =
      let (was, here) = old rid room h in
      let (e, there) = manned rid was here in (e, ap (lookup rid) (unmoved quiet) ∙ there)
  callbacks-IsManned (one_more new old told) manned rid room h = elim (old rid room h) [
    | inl at ↦
        let (e, there) = on_room_created_makes fresh engines new in
        (
          e,
          ap (lookup rid) (made new told)
              ∙ ap (λ z. lookup z (on_room_created fresh engines new)) at
              ∙ there,
        )
    | inr (was, here) ↦
        let (e, there) = manned rid was here in
        (e, ap (lookup rid) (made new told) ∙ on_room_created_keeps fresh engines new rid e there)
  ]

  pub callbacks-IsValid : Opens s t → IsValid fresh → Each IsValid engines → Each IsValid callbacks
  callbacks-IsValid (same old quiet) v valid = subst (Each IsValid) (sym (unmoved quiet)) valid
  callbacks-IsValid (one_more new old told) v valid =
      subst (Each IsValid) (sym (made new told)) (on_room_created-IsValid fresh engines new v valid)
