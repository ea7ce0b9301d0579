-- ===== src/Server/Allocator/Matches.antt =====
-- The players of a match and their shard.
use chess_kung_fu.Prelude.{
  ◌≡◌, refl, sym, ◌∙◌, ap, true, false, not, ◌&&◌, none, some, List, [], ◌∷◌, elem, if◌then◌else◌,
  ◌==◌, Bool-cases, inl, inr, arith, ==-sym, eq_of_==, ==-refl,
}
use chess_kung_fu.Model.{Text, text_eq, text_beq}
use chess_kung_fu.Server.Redis.{Keys, IsKeys}
use chess_kung_fu.Server.Allocator.{
  room_shard_key, user_room_key, claim_room, shard_for, bind_player, unbind_player, room_for_user,
  shard_for_user, bind_players, bind_match, unbind_players, release_match,
}

-- The keys of rooms and of users are apart.
keys_apart : (room_id user_id : Text) → (room_shard_key room_id == user_room_key user_id) ≡ false
unfolding text_beq
keys_apart room_id user_id = refl

keys_apart' : (room_id user_id : Text) → (user_room_key user_id == room_shard_key room_id) ≡ false
unfolding text_beq
keys_apart' room_id user_id = refl

user_key_iff : (u v : Text) → (user_room_key u == user_room_key v) ≡ (u == v)
unfolding text_beq
user_key_iff u v = refl

room_key_iff : (u v : Text) → (room_shard_key u == room_shard_key v) ≡ (u == v)
unfolding text_beq
room_key_iff u v = refl

-- A name that is empty is no user's.
named_if : (u v : Text) → (not (u == []) && (v == u)) ≡ (not (v == []) && (u == v))
named_if u v = elim (Bool-cases (u == v)) [
  | inl same ↦ rw (eq_of_== {a = u} {b = v} same) refl
  | inr other ↦ rw (other, ==-sym v u, other) (ground arith)
]

module _ {K : Type 0} (r : Keys K) (h : IsKeys r) where
  bound :
      (k : K) (u room_id v : Text)
      → (room_id == []) ≡ false
      → r.get_key (bind_player r k u room_id) (user_room_key v)
        ≡ (if not (v == []) && (u == v) then some room_id else r.get_key k (user_room_key v))
  bound k u room_id v named = elim (Bool-cases (u == [])) [
    | inl empty ↦ ground (arith, named_if u v, empty)
    | inr full ↦ ground (
      arith,
      named_if u v,
      full,
      named,
      h.get-set k (user_room_key u) room_id (user_room_key v),
      user_key_iff v u,
    )
  ]

  pub unbound :
      (k : K) (u v : Text)
      → r.get_key (unbind_player r k u) (user_room_key v)
        ≡ (if not (v == []) && (u == v) then none else r.get_key k (user_room_key v))
  unbound k u v = elim (Bool-cases (u == [])) [
    | inl empty ↦ ground (arith, named_if u v, empty)
    | inr full ↦ ground (
      arith,
      named_if u v,
      full,
      h.get-delete k (user_room_key u) (user_room_key v),
      user_key_iff v u,
    )
  ]

  bound_room :
      (k : K) (u room_id q : Text)
      → r.get_key (bind_player r k u room_id) (room_shard_key q) ≡ r.get_key k (room_shard_key q)
  bound_room k u room_id q = elim (Bool-cases (not (u == []) && not (room_id == []))) [
    | inl sets ↦
        ground
          (arith, sets, h.get-set k (user_room_key u) room_id (room_shard_key q), keys_apart q u)
    | inr keeps ↦ ground (arith, keeps)
  ]

  pub unbound_room :
      (k : K) (u q : Text)
      → r.get_key (unbind_player r k u) (room_shard_key q) ≡ r.get_key k (room_shard_key q)
  unbound_room k u q = elim (Bool-cases (u == [])) [
    | inl empty ↦ ground (arith, empty)
    | inr full ↦
        ground (arith, full, h.get-delete k (user_room_key u) (room_shard_key q), keys_apart q u)
  ]

  all_bound :
      (user_ids : List Text) (k : K) (room_id v : Text)
      → (room_id == []) ≡ false
      → r.get_key (bind_players r k room_id user_ids) (user_room_key v)
        ≡ (if not (v == []) && elem v user_ids then some room_id else r.get_key k (user_room_key v))
  unfolding bind_players
  all_bound [] k room_id v named = ground arith
  all_bound (u ∷ user_ids) k room_id v named = ground (
    arith,
    all_bound user_ids (bind_player r k u room_id) room_id v named,
    bound k u room_id v named,
  )

  all_unbound :
      (user_ids : List Text) (k : K) (v : Text)
      → r.get_key (unbind_players r k user_ids) (user_room_key v)
        ≡ (if not (v == []) && elem v user_ids then none else r.get_key k (user_room_key v))
  unfolding unbind_players
  all_unbound [] k v = ground arith
  all_unbound (u ∷ user_ids) k v =
      ground (arith, all_unbound user_ids (unbind_player r k u) v, unbound k u v)

  all_bound_room :
      (user_ids : List Text) (k : K) (room_id q : Text)
      → r.get_key (bind_players r k room_id user_ids) (room_shard_key q)
        ≡ r.get_key k (room_shard_key q)
  unfolding bind_players
  all_bound_room [] k room_id q = refl
  all_bound_room (u ∷ user_ids) k room_id q =
      all_bound_room user_ids (bind_player r k u room_id) room_id q ∙ bound_room k u room_id q

  all_unbound_room :
      (user_ids : List Text) (k : K) (q : Text)
      → r.get_key (unbind_players r k user_ids) (room_shard_key q) ≡ r.get_key k (room_shard_key q)
  unfolding unbind_players
  all_unbound_room [] k q = refl
  all_unbound_room (u ∷ user_ids) k q =
      all_unbound_room user_ids (unbind_player r k u) q ∙ unbound_room k u q

  -- After `bind_match` each of the named players is in the room, and the room is on the shard; the
  -- room of any other user and the shard of any other room are what they were.
  pub bind_match_lem :
      (k : K) (room_id shard_id : Text) (user_ids : List Text) (v q : Text)
      → (room_id == []) ≡ false
      → let k' = bind_match r k room_id shard_id user_ids in
        (room_for_user r k' v
          ≡ (if not (v == []) && elem v user_ids then some room_id else room_for_user r k v))
        × (shard_for r k' q ≡ (if q == room_id then some shard_id else shard_for r k q))
  unfolding bind_match
  bind_match_lem k room_id shard_id user_ids v q named =
      let k1 = claim_room r k room_id shard_id in
      (
        ground (
          arith,
          all_bound user_ids k1 room_id v named,
          h.get-set k (room_shard_key room_id) shard_id (user_room_key v),
          keys_apart' room_id v,
        ),
        ground (
          arith,
          all_bound_room user_ids k1 room_id q,
          h.get-set k (room_shard_key room_id) shard_id (room_shard_key q),
          room_key_iff q room_id,
        ),
      )

  -- So a command of a player of a match goes to the shard of the match.
  pub shard_for_user-bind_match :
      (k : K) (room_id shard_id : Text) (user_ids : List Text) (u : Text)
      → (room_id == []) ≡ false
      → (u == []) ≡ false
      → elem u user_ids ≡ true
      → shard_for_user r (bind_match r k room_id shard_id user_ids) u ≡ some shard_id
  unfolding shard_for_user
  shard_for_user-bind_match k room_id shard_id user_ids u named player among =
      let (room, shard) = bind_match_lem k room_id shard_id user_ids u room_id named in
      ground (arith, room, shard, ==-refl room_id)

  -- After `release_match` of a match none of its players has a room and the room has no shard; the
  -- room of any other user and the shard of any other room are what they were.
  pub release_match_lem :
      (k : K) (room_id : Text) (user_ids : List Text) (v q : Text)
      → (room_id == []) ≡ false
      → let k' = release_match r k room_id user_ids in
        (room_for_user r k' v
          ≡ (if not (v == []) && elem v user_ids then none else room_for_user r k v))
        × (shard_for r k' q ≡ (if q == room_id then none else shard_for r k q))
  unfolding release_match
  release_match_lem k room_id user_ids v q named =
      let k1 = r.delete_key k (room_shard_key room_id) in
      rw named (
        all_unbound user_ids k1 v
            ∙ ground (
              arith,
              h.get-delete k (room_shard_key room_id) (user_room_key v),
              keys_apart' room_id v,
            ),
        all_unbound_room user_ids k1 q
            ∙ ground (
              arith,
              h.get-delete k (room_shard_key room_id) (room_shard_key q),
              room_key_iff q room_id,
            ),
      )

  -- A match that is released leaves the rooms as they were before it was bound, if its room and
  -- its players were free.
  pub release_match-bind_match :
      (k : K) (room_id shard_id : Text) (user_ids : List Text) (v q : Text)
      → (room_id == []) ≡ false
      → shard_for r k room_id ≡ none
      → (elem v user_ids ≡ true → room_for_user r k v ≡ none)
      → let k' = release_match r (bind_match r k room_id shard_id user_ids) room_id user_ids in
        (room_for_user r k' v ≡ room_for_user r k v) × (shard_for r k' q ≡ shard_for r k q)
  release_match-bind_match k room_id shard_id user_ids v q named free idle =
      let k1 = bind_match r k room_id shard_id user_ids in
      let (room, shard) = bind_match_lem k room_id shard_id user_ids v q named in
      let (room', shard') = release_match_lem k1 room_id user_ids v q named in
      (
        elim (Bool-cases (elem v user_ids)) [
          | inl among ↦ ground (arith, room, room', among, idle among)
          | inr other ↦ ground (arith, room, room', other)
        ],
        elim (Bool-cases (q == room_id)) [
          | inl same ↦
              shard'
              ∙ rw same (sym (ap (shard_for r k) (eq_of_== {a = q} {b = room_id} same) ∙ free))
          | inr other ↦ ground (arith, shard, shard', other)
        ],
      )
