-- ===== src/Server/Rooms/Marks.antt =====
-- No operation of `RoomService` but `mark_elo_updated` marks a game as rated, or takes a mark away;
-- and which rooms there are after each.
use chess_kung_fu.Prelude.{
  ℕ, ◌≡◌, refl, ◌∙◌, sym, ap, Bool, true, false, not, Option, none, some, String, string_eq, Dict,
  lookup, insert, insert-cases, contains, contains-none, Option-cases, if-cases, if-elim, inl, inr,
  ◌⊎◌, nat_eq,
}
use chess_kung_fu.Server.Rooms.{
  Room, RoomMember, RoomService, truthy, create_room, create_matched_room, join_room, seat, opened,
  is_player, reconnect, find_member, clear_disconnect_deadline, mark_disconnected, drop_user,
  is_elo_updated,
}
use chess_kung_fu.Server.Rooms.Arrivals.{Succeeds}

-- The same rooms are there, with the same marks.
pub record SameGames (s t : RoomService) : Type 0 where
  pub known :
      (x : String) (room : Room)
      → lookup x t.rooms ≡ some room
      → (was : Room) × (lookup x s.rooms ≡ some was)
  pub marks : (x : String) → is_elo_updated t x ≡ is_elo_updated s x

pub SameGames-refl : (s : RoomService) → SameGames s s
SameGames-refl s = record { known = λ x room h. (room, h); marks = λ x. refl }

mark_of : Option Room → Bool
mark_of none = false
mark_of (some room) = room.elo_updated

mark_lem : (s : RoomService) (x : String) → is_elo_updated s x ≡ mark_of (lookup x s.rooms)
unfolding is_elo_updated mark_of
mark_lem s x = elim (Option-cases (lookup x s.rooms)) [
  | inl nothing ↦ rw (nothing, is_elo_updated) refl
  | inr (room, there) ↦ rw (there, is_elo_updated) refl
]

-- A room is written anew with the same mark.
pub rewritten-SameGames :
    (s t : RoomService) (r : String) (old new : Room)
    → lookup r s.rooms ≡ some old
    → new.elo_updated ≡ old.elo_updated
    → t.rooms ≡ insert r new s.rooms
    → SameGames s t
unfolding mark_of
rewritten-SameGames s t r old new there mark written = record {
  known = λ x room h. elim (insert-cases r x new s.rooms) [
    | inl (same, _) ↦ (old, ap (λ z. lookup z s.rooms) same ∙ there)
    | inr (_, stays) ↦ (room, sym stays ∙ ap (lookup x) (sym written) ∙ h)
  ];
  marks = λ x.
      mark_lem t x ∙ ap (λ d. mark_of (lookup x d)) written ∙ elim (insert-cases r x new s.rooms) [
        | inl (same, here) ↦
            ap mark_of here
            ∙ mark
            ∙ ap mark_of (sym there)
            ∙ ap (λ z. mark_of (lookup z s.rooms)) (sym same)
            ∙ sym (mark_lem s x)
        | inr (_, stays) ↦ ap mark_of stays ∙ sym (mark_lem s x)
      ];
}

pub reconnect-SameGames : (s : RoomService) (u : String) → SameGames s (reconnect s u).0
unfolding reconnect find_member
reconnect-SameGames s u = elim (Option-cases (lookup u s.user_room)) [
  | inl away ↦ rw (away, reconnect) (SameGames-refl s)
  | inr (r, home) ↦ (elim (Option-cases (lookup r s.rooms)) [
    | inl nowhere ↦ rw (home, nowhere, reconnect) (SameGames-refl s)
    | inr (old, there) ↦ (elim (Option-cases (lookup u old.members)) [
      | inl absent ↦ rw (home, there, absent, reconnect) (SameGames-refl s)
      | inr (m, here) ↦
          rw (home, there, here, reconnect) (rewritten-SameGames s _ r old _ there refl refl)
    ])
  ])
]

pub clear_disconnect_deadline-SameGames :
    (s : RoomService) (r v : String) → SameGames s (clear_disconnect_deadline s r v)
unfolding clear_disconnect_deadline find_member
clear_disconnect_deadline-SameGames s r v = elim (Option-cases (lookup r s.rooms)) [
  | inl nowhere ↦ rw (nowhere, clear_disconnect_deadline) (SameGames-refl s)
  | inr (old, there) ↦ (elim (Option-cases (lookup v old.members)) [
    | inl absent ↦ rw (there, absent, clear_disconnect_deadline) (SameGames-refl s)
    | inr (m, here) ↦
        rw (there, here, clear_disconnect_deadline)
          (rewritten-SameGames s _ r old _ there refl refl)
  ])
]

-- A result with the same games, if it is one.
abbrev pub Keeps : RoomService → Option (RoomService × Option String) → Type 0
Keeps s none = Unit
Keeps s (some (t, r)) = SameGames s t

pub mark_disconnected-Keeps :
    (s : RoomService) (now : ℕ) (u : String) → Keeps s (mark_disconnected s now u)
unfolding mark_disconnected drop_user
mark_disconnected-Keeps s now u = elim (Option-cases (lookup u s.user_room)) [
  | inl away ↦ rw (away, mark_disconnected) (SameGames-refl s)
  | inr (r, home) ↦ (elim (Option-cases (lookup r s.rooms)) [
    | inl nowhere ↦ rw (home, nowhere, mark_disconnected) tt
    | inr (old, there) ↦ (elim (Option-cases (lookup u old.members)) [
      | inl absent ↦
          rw (home, there, absent, mark_disconnected)
            (rewritten-SameGames s _ r old _ there refl refl)
      | inr (m, here) ↦
          rw (home, there, here, mark_disconnected)
            (if-elim (Keeps s) (not (is_player m.role))
              (rewritten-SameGames s _ r old _ there refl refl)
              (rewritten-SameGames s _ r old _ there refl refl))
    ])
  ])
]

abbrev pub SameMarks : RoomService → RoomService → Type 0
SameMarks s t = (x : String) → is_elo_updated t x ≡ is_elo_updated s x

-- A new room has no mark.
opened-SameMarks :
    (s : RoomService) (id : String) (members : Dict String RoomMember)
    (user_room : Dict String String)
    → lookup id s.rooms ≡ none
    → SameMarks s (opened s id members user_room)
unfolding mark_of
opened-SameMarks s id members user_room fresh x =
    let room : Room = record {
      room_id = id;
      members = members;
      elo_updated = false;
      game_started = true;
    } in
    mark_lem (opened s id members user_room) x ∙ elim (insert-cases id x room s.rooms) [
      | inl (same, here) ↦
          ap mark_of here
          ∙ ap mark_of (sym fresh)
          ∙ ap (λ z. mark_of (lookup z s.rooms)) (sym same)
          ∙ sym (mark_lem s x)
      | inr (_, stays) ↦ ap mark_of stays ∙ sym (mark_lem s x)
    ]

pub create_room-SameMarks :
    (s : RoomService) (token u : String)
    → lookup token s.rooms ≡ none
    → Succeeds (SameMarks s) (create_room s token u)
unfolding create_room
create_room-SameMarks s token u fresh =
    if-elim (Succeeds (SameMarks s)) (truthy (lookup u s.user_room)) tt
      (opened-SameMarks s token _ _ fresh)

pub join_room-SameMarks :
    (s : RoomService) (r u : String) → Succeeds (λ p. SameMarks s p.0) (join_room s r u)
unfolding join_room seat
join_room-SameMarks s r u = elim (Option-cases (lookup r s.rooms)) [
  | inl nowhere ↦ rw (nowhere, join_room) tt
  | inr (old, there) ↦
      rw (there, join_room)
        (if-elim (Succeeds (λ p. SameMarks s p.0)) (contains u s.user_room) tt
          (rewritten-SameGames s _ r old _ there refl refl).marks)
]

-- What `create_matched_room` makes: one room more, without a mark.
pub record OneMore (s : RoomService) (id : String) (t : RoomService) : Type 0 where
  pub known :
      (x : String) (room : Room)
      → lookup x t.rooms ≡ some room
      → (x ≡ id) ⊎ (lookup x s.rooms ≡ some room)
  pub marks : SameMarks s t

opened-OneMore :
    (s : RoomService) (id : String) (members : Dict String RoomMember)
    (user_room : Dict String String)
    → lookup id s.rooms ≡ none
    → OneMore s id (opened s id members user_room)
opened-OneMore s id members user_room fresh =
    let room' : Room = record {
      room_id = id;
      members = members;
      elo_updated = false;
      game_started = true;
    } in
    record {
      known = λ x room h. elim (insert-cases id x room' s.rooms) [
        | inl (same, _) ↦ inl same
        | inr (_, stays) ↦ inr (sym stays ∙ h)
      ];
      marks = opened-SameMarks s id members user_room fresh;
    }

pub create_matched_room-OneMore :
    (s : RoomService) (token a b : String)
    → Succeeds (OneMore s token) (create_matched_room s token a b none)
unfolding create_matched_room
create_matched_room-OneMore s token a b =
    if-elim (Succeeds (OneMore s token)) (contains a s.user_room) tt (
      if-elim (Succeeds (OneMore s token)) (contains b s.user_room) tt (
        if-cases (Succeeds (OneMore s token)) (contains token s.rooms) (λ taken. tt)
          (λ free. opened-OneMore s token _ _ (contains-none token s.rooms free))))
