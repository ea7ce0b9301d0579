-- ===== src/Tests/Shards.antt =====
-- The witnesses of the shards: a Redis of dictionaries, two shards, Ann and Bob.
use mathlib.Core.Option.{none-ne-some}
use chess_kung_fu.Prelude.{
  ℕ, ◌+◌, ◌≡◌, ◌≢◌, refl, sym, Bool, true, not, Option, none, some, List, [], ◌∷◌, ◌++◌, map,
  filter, elem, length, if◌then◌else◌, ◌==◌, Bool-cases, inl, inr, arith, String, string_eq, ℤ, pos,
  nat_eq, contains, Dict, lookup, insert, erase, lookup-insert, lookup-erase, HasUniqueKeys,
  insert-HasUniqueKeys,
}
use chess_kung_fu.Model.{Text, text, text_eq, text_beq, string_of}
use chess_kung_fu.Server.Rooms.{new_service, create_matched_room, reconnect as back}
use chess_kung_fu.Server.Router.{on_room_created}
use chess_kung_fu.Server.Redis.{Keys, IsKeys, Waiting, IsWaiting}
use chess_kung_fu.Server.Allocator.{
  room_for_user, shard_for, bind_match, release_match, pick_shard, turn,
}
use chess_kung_fu.Server.Allocator.Turns.{after, pick_shard_lem}
use chess_kung_fu.Server.Allocator.Matches.{release_match-bind_match}
use chess_kung_fu.Server.Matchmaking.{is_overdue, tick}
use chess_kung_fu.Server.Matchmaking.Workers.{Worker, worker_tick, snapshot_of, timeout_event}
use chess_kung_fu.Server.Matchmaking.Workers.Refines.{reserve, match_event, worker_tick-tick}
use chess_kung_fu.Server.Gateway.{Command, Reply, Rejoin, reconnect}
use chess_kung_fu.Server.Gateway.Rejoins.{IsSettled, IsApart, reconnect_lem}
use chess_kung_fu.Server.Shard.{Shard, handle_command, handle_create_match}
use chess_kung_fu.Server.Shard.Hosting.{Taken, handle_create_match_lem}
use chess_kung_fu.Tests.Games.{game}

-- The keys, and one counter.
abbrev Memory : Type 0
Memory = Dict Text Text × ℕ

abbrev keys : Keys Memory
keys = record {
  get_key = λ k key. lookup key k.0;
  set_key = λ k key value. (insert key value k.0, k.1);
  delete_key = λ k key. (erase key k.0, k.1);
  incr = λ k key. ((k.0, k.1 + 1), k.1 + 1);
}

keys-IsKeys : IsKeys keys
keys-IsKeys = record {
  get-set = λ k key value q. lookup-insert key q value k.0;
  get-delete = λ k key q. lookup-erase key q k.0;
  incr_positive = λ k key. omega arith;
  incr_again = λ k key. refl;
}

-- A queue, each user once.
record Queue : Type 0 where
  rows : Dict String ℕ
  unique : HasUniqueKeys rows
  elos : String → Option ℤ

filter_absent :
    (p : String × ℕ → Bool) (k : String) (rows : Dict String ℕ)
    → lookup k rows ≡ none
    → lookup k (filter p rows) ≡ none
unfolding lookup
filter_absent p k [] h = refl
filter_absent p k (row ∷ rows) h = elim (Bool-cases (k == row.0)) [
  | inl same ↦ absurd (none-ne-some row.1 (sym (rw same at h)))
  | inr other ↦
      let rest = filter_absent p k rows (rw other at h) in
      (elim (Bool-cases (p row)) [ inl keep ↦ rw (keep, other) rest | inr drop ↦ rw drop rest ])
]

filter-HasUniqueKeys :
    (p : String × ℕ → Bool) (rows : Dict String ℕ)
    → HasUniqueKeys rows
    → HasUniqueKeys (filter p rows)
filter-HasUniqueKeys p [] u = tt
filter-HasUniqueKeys p (row ∷ rows) u = elim (Bool-cases (p row)) [
  | inl keep ↦ rw keep (filter_absent p row.0 rows u.0, filter-HasUniqueKeys p rows u.1)
  | inr drop ↦ rw drop (filter-HasUniqueKeys p rows u.1)
]

abbrev left : List String → String × ℕ → Bool
left us e = not (elem e.0 us)

abbrev waiting : Waiting Queue
waiting = record {
  zscore = λ q u. lookup u q.rows;
  zadd = λ q u t. record {
    rows = insert u t q.rows;
    unique = insert-HasUniqueKeys u t q.rows q.unique;
    elos = q.elos;
  };
  zrem = λ q us. record {
    rows = filter (left us) q.rows;
    unique = filter-HasUniqueKeys (left us) q.rows q.unique;
    elos = q.elos;
  };
  zrange = λ q. q.rows;
  hset = λ q u elo. record q { elos = λ v. if v == u then some elo else q.elos v };
  hdel = λ q us. record q { elos = λ v. if elem v us then none else q.elos v };
  hget = λ q u. q.elos u;
}

waiting-IsWaiting : IsWaiting waiting
waiting-IsWaiting = record {
  single = λ q. q.unique;
  zrange-zrem = λ q us. refl;
  zrange-hdel = λ q us. refl;
  hget-hdel = λ q us u. refl;
  hget-zrem = λ q us u. refl;
}

abbrev shards : List Text
shards = text "game-server-1" ∷ text "game-server-2" ∷ []

abbrev empty : Memory
empty = ([], 0)

pick_shard_lem_example :
    ((s : Text) × ((pick_shard keys shards empty).1 ≡ some s) × (elem s shards ≡ true))
    × (turn keys shards (after keys keys-IsKeys shards (omega arith) 1 empty)
        ≢ turn keys shards empty)
pick_shard_lem_example =
    pick_shard_lem keys keys-IsKeys shards (omega arith) empty 1 (omega arith) (omega arith)

abbrev players : List Text
players = text "ann" ∷ text "bob" ∷ []

release_match-bind_match_example :
    let k =
      release_match keys
        (bind_match keys empty (text "a1b2c3") (text "game-server-1") players)
        (text "a1b2c3")
        players in
    (room_for_user keys k (text "bob") ≡ none) × (shard_for keys k (text "a1b2c3") ≡ none)
unfolding lookup text_beq
release_match-bind_match_example =
    release_match-bind_match keys keys-IsKeys empty (text "a1b2c3") (text "game-server-1") players
      (text "bob") (text "a1b2c3") refl refl (λ among. refl)

-- Ann and Bob are waiting, Cid for more than a minute.
abbrev worker : Worker Memory Queue
worker = record {
  next = 0;
  keys = empty;
  queue =
      waiting.zadd
        (waiting.zadd
          (waiting.zadd (record { rows = []; unique = tt; elos = λ u. some (pos 1200) }) "cid" 1000)
          "ann" 70000)
        "bob" 71000;
}

abbrev token : ℕ → String
token n = if n == 0 then "a1b2c3" else "d4e5f6"

worker_tick-tick_example :
    let (w', published, failed) = worker_tick keys token length shards waiting 72000 worker in
    let (p, queue) =
      tick (reserve keys token length shards) (0, empty) 72000 (snapshot_of waiting worker.queue) in
    (snapshot_of waiting w'.queue ≡ queue)
    × ((w'.next, w'.keys) ≡ p.world)
    × (failed ≡ p.raised)
    × (published
        ≡ map timeout_event (filter (is_overdue 72000) (snapshot_of waiting worker.queue))
          ++ map (match_event keys token length shards) p.matches)
worker_tick-tick_example =
    worker_tick-tick keys token length shards waiting waiting-IsWaiting 72000 worker

-- A shard without rooms, which takes a match.
abbrev shard : Shard Memory
shard = record {
  lobby = record { rooms = new_service; queue = [] };
  engines = [];
  published = [];
  keys = empty;
}

handle_create_match_lem_example :
    Taken keys keys-IsKeys
      (text "game-server-1")
      game
      shard
      "a1b2c3"
      "ann"
      "bob"
      (handle_create_match keys (text "game-server-1") game shard "a1b2c3" "ann" "bob")
unfolding text_beq
handle_create_match_lem_example =
    handle_create_match_lem keys keys-IsKeys (text "game-server-1") game shard "a1b2c3" "ann" "bob"
      refl refl refl

abbrev hosting : Shard Memory
hosting = (handle_create_match keys (text "game-server-1") game shard "a1b2c3" "ann" "bob").0

-- The reply of that shard.
answer : Text → Command → Reply
answer shard_id command =
    (handle_command keys (text "game-server-1") game hosting "d4e5f6" command).1

abbrev rejoin : Rejoin Memory
rejoin = record { keys = hosting.keys; role_by_user = [] }

reconnect_lem_example :
    let (s', room) = reconnect keys answer rejoin (text "ann") in
    IsSettled keys keys-IsKeys answer rejoin s' (text "ann") room
    × IsApart keys keys-IsKeys answer rejoin s' (text "bob") (text "a1b2c3")
unfolding text_beq
reconnect_lem_example =
    reconnect_lem keys keys-IsKeys answer rejoin (text "ann") (text "bob") (text "a1b2c3") refl refl

-- Ann comes back as White to the room that the shard hosts.
ann_is_back : (reconnect keys answer rejoin (text "ann")).1 ≡ some (text "a1b2c3")
unfolding reconnect answer handle_command handle_create_match lookup create_matched_room contains
    bind_match text_beq insert back string_of on_room_created
ann_is_back = refl
