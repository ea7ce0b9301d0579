-- ===== src/Server/Gateway/Rejoins.antt =====
-- What `RedisRoomRejoinProxy.reconnect` leaves behind.
use chess_kung_fu.Prelude.{
  ◌≡◌, refl, sym, ◌∙◌, subst, true, false, Option, none, some, [], ◌==◌, Bool-cases, Option-cases,
  inl, inr, arith, if_true, if_false, ==-refl, lookup, insert, insert_here,
}
use chess_kung_fu.Model.{Text, text_eq}
use chess_kung_fu.Server.Rooms.{PlayerRole}
use chess_kung_fu.Server.Redis.{Keys, IsKeys}
use chess_kung_fu.Server.Allocator.{room_for_user, shard_for, unbind_player}
use chess_kung_fu.Server.Allocator.Matches.{unbound, unbound_room}
use chess_kung_fu.Server.Gateway.{
  Command, player_reconnect, Reply, Rejoin, found_shard, rejoined, reconnect, member_role, text_or,
  color_to_role,
}

member_role_there :
    {K : Type 0} (s : Rejoin K) (known room_id u : Text) (role : PlayerRole)
    → lookup u s.role_by_user ≡ some (known, role)
    → (known == room_id) ≡ true
    → member_role s room_id u ≡ some role
unfolding member_role
member_role_there s known room_id u role there same = rw (there, same, member_role) refl

module _ {K : Type 0} (rk : Keys K) (h : IsKeys rk) (call : Text → Command → Reply) where
  -- The end of a `reconnect` of a user: without a room nothing leads the user to one any more; with
  -- a room the keys are what they were, and the user's role in it is known.
  pub IsSettled : Rejoin K → Rejoin K → Text → Option Text → Type 0
  IsSettled s s' u none =
      (found_shard (room_for_user rk s'.keys u) ≡ none) × (s'.role_by_user ≡ s.role_by_user)
  IsSettled s s' u (some room_id) =
      (s'.keys ≡ s.keys) × ((role : PlayerRole) × (member_role s' room_id u ≡ some role))

  -- The others' keys.
  pub IsApart : Rejoin K → Rejoin K → Text → Text → Type 0
  IsApart s s' v q =
      (room_for_user rk s'.keys v ≡ room_for_user rk s.keys v)
      × (shard_for rk s'.keys q ≡ shard_for rk s.keys q)

  module _ (s : Rejoin K) (u v q : Text) (user : (u == []) ≡ false) (other : (u == v) ≡ false) where
    lost : Rejoin K
    lost = record s { keys = unbind_player rk s.keys u }

    Ends : Rejoin K × Option Text → Type 0
    Ends x = IsSettled s x.0 u x.1 × IsApart s x.0 v q

    nowhere : room_for_user rk (unbind_player rk s.keys u) u ≡ none
    nowhere = unbound rk h s.keys u u ∙ ground (arith, user, ==-refl u)

    lost-Ends : Ends (lost, none)
    unfolding lost Ends IsSettled IsApart
    lost-Ends = (
      (subst (λ (x : Option Text). found_shard x ≡ none) (sym nowhere) refl, refl),
      (unbound rk h s.keys u v ∙ ground (arith, other), unbound_room rk h s.keys u q),
    )

    with_role : Text → Reply → Rejoin K
    with_role room_id reply = record s {
      role_by_user =
          insert u (text_or reply.room_id room_id, color_to_role (text_or reply.color []))
            s.role_by_user;
    }

    rejoined_refused :
        (room_id : Text) (reply : Reply)
        → reply.accepted ≡ false
        → rejoined rk call s u room_id reply ≡ (lost, none)
    unfolding rejoined lost
    rejoined_refused room_id reply refuses = if_false reply.accepted _ _ refuses

    rejoined_accepted :
        (room_id : Text) (reply : Reply)
        → reply.accepted ≡ true
        → rejoined rk call s u room_id reply
          ≡ (with_role room_id reply, some (text_or reply.room_id room_id))
    unfolding rejoined with_role
    rejoined_accepted room_id reply fine = if_true reply.accepted _ _ fine

    known :
        (room_id : Text) (reply : Reply)
        → member_role (with_role room_id reply) (text_or reply.room_id room_id) u
          ≡ some (color_to_role (text_or reply.color []))
    unfolding with_role
    known room_id reply =
        let room = text_or reply.room_id room_id in
        member_role_there (with_role room_id reply) room room u
          (color_to_role (text_or reply.color []))
          (insert_here u (room, color_to_role (text_or reply.color [])) s.role_by_user)
          (==-refl room)

    found-Ends : (room_id : Text) (reply : Reply) → Ends (rejoined rk call s u room_id reply)
    unfolding Ends IsSettled IsApart with_role
    found-Ends room_id reply = elim (Bool-cases reply.accepted) [
      | inr refuses ↦ subst Ends (sym (rejoined_refused room_id reply refuses)) lost-Ends
      | inl fine ↦
          subst Ends (sym (rejoined_accepted room_id reply fine))
            ((refl, (color_to_role (text_or reply.color []), known room_id reply)), (refl, refl))
    ]

  -- `reconnect` of a user either gives a room, in which the user's role is then known, or leaves the
  -- user without a room in Redis, so that the next one asks no shard; the room of another user, and
  -- the shard of each room, stay as they were.
  pub reconnect_lem :
      (s : Rejoin K) (u v q : Text)
      → (u == []) ≡ false
      → (u == v) ≡ false
      → let (s', answer) = reconnect rk call s u in IsSettled s s' u answer × IsApart s s' v q
  unfolding reconnect Ends lost IsSettled IsApart
  reconnect_lem s u v q user other = elim (Option-cases (found_shard (room_for_user rk s.keys u))) [
    | inl homeless ↦ rw (homeless, reconnect) ((homeless, refl), (refl, refl))
    | inr (room_id, housed) ↦ (elim (Option-cases (found_shard (shard_for rk s.keys room_id))) [
      | inl gone ↦ rw (housed, gone, reconnect) (lost-Ends s u v q user other)
      | inr (shard, there) ↦
          rw (housed, there, reconnect)
            (found-Ends s u v q user other room_id (call shard (player_reconnect u)))
    ])
  ]
