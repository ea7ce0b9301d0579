-- ===== src/Server/Allocator.antt =====
-- Server/infrastructure/matchmaking/allocator.py (`GameAllocator`), which keeps in Redis the shard
-- of each room and the room of each player. `hash` of a text, which the language leaves open, is an
-- argument.
pub mod Matches
pub mod Turns
use chess_kung_fu.Prelude.{
  ℕ, zero, suc, ◌+◌, ◌-◌, ◌%◌, Bool, true, false, not, ◌&&◌, Option, none, some, List, [], ◌∷◌,
  ◌++◌, filter, length, if◌then◌else◌, ◌==◌,
}
use chess_kung_fu.Model.{Text, text, text_eq}
use chess_kung_fu.Server.Redis.{Keys}

abbrev pub room_shard_key : Text → Text
room_shard_key room_id = text "room:shard:" ++ room_id

abbrev pub user_room_key : Text → Text
user_room_key user_id = text "user:room:" ++ user_id

abbrev pub shard_rr_key : Text
shard_rr_key = text "kungfu:shard:rr"

-- `[s for s in (shard_ids or []) if s] or ["game-server-1"]`
unfoldable pub shards_of : List Text → List Text
shards_of shard_ids = elim (filter (λ s. not (s == [])) shard_ids) [
  | [] ↦ text "game-server-1" ∷ []
  | s ∷ shards ↦ s ∷ shards
]

-- `shards[i]`, none for an IndexError.
unfoldable pub nth : List Text → ℕ → Option Text
nth [] i = none
nth (s ∷ shards) zero = some s
nth (s ∷ shards) (suc i) = nth shards i

module _ {K : Type 0} (r : Keys K) where
  abbrev pub claim_room : K → Text → Text → K
  claim_room k room_id shard_id = r.set_key k (room_shard_key room_id) shard_id

  abbrev pub shard_for : K → Text → Option Text
  shard_for k room_id = r.get_key k (room_shard_key room_id)

  unfoldable pub allocate : (Text → ℕ) → List Text → K → Text → Option (K × Text)
  unfolding nth
  allocate hash shards k room_id = elim (nth shards (hash room_id % length shards)) [
    | none ↦ none
    | some shard ↦ some (claim_room k room_id shard, shard)
  ]

  abbrev pub bind_player : K → Text → Text → K
  bind_player k user_id room_id =
      if not (user_id == []) && not (room_id == [])
      then r.set_key k (user_room_key user_id) room_id
      else k

  abbrev pub unbind_player : K → Text → K
  unbind_player k user_id = if user_id == [] then k else r.delete_key k (user_room_key user_id)

  abbrev pub room_for_user : K → Text → Option Text
  room_for_user k user_id = r.get_key k (user_room_key user_id)

  unfoldable pub shard_for_user : K → Text → Option Text
  shard_for_user k user_id = elim (room_for_user k user_id) [
    | none ↦ none
    | some room_id ↦ if room_id == [] then none else shard_for k room_id
  ]

  -- `(n - 1) % len(self._shards)`; INCR of a key that holds a number from 0 on.
  abbrev pub turn : List Text → K → ℕ
  turn shards k = ((r.incr k shard_rr_key).1 + length shards - 1) % length shards

  unfoldable pub pick_shard : List Text → K → K × Option Text
  unfolding nth
  pick_shard shards k = ((r.incr k shard_rr_key).0, nth shards (turn shards k))

  -- `for uid in user_ids: self.bind_player(uid, room_id)`
  unfoldable pub bind_players : K → Text → List Text → K
  bind_players k room_id [] = k
  bind_players k room_id (u ∷ user_ids) = bind_players (bind_player k u room_id) room_id user_ids

  unfoldable pub bind_match : K → Text → Text → List Text → K
  unfolding bind_players
  bind_match k room_id shard_id user_ids =
      bind_players (claim_room k room_id shard_id) room_id user_ids

  unfoldable pub unbind_players : K → List Text → K
  unbind_players k [] = k
  unbind_players k (u ∷ user_ids) = unbind_players (unbind_player k u) user_ids

  -- No `user_ids` are none of them.
  unfoldable pub release_match : K → Text → List Text → K
  unfolding unbind_players
  release_match k room_id user_ids =
      unbind_players (if room_id == [] then k else r.delete_key k (room_shard_key room_id)) user_ids
