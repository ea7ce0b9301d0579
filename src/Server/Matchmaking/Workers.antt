-- ===== src/Server/Matchmaking/Workers.antt =====
-- Server/infrastructure/matchmaking/: the queue in Redis (redis_queue.py, `RedisMatchmakingQueue`)
-- and the process that matches its users (worker.py, `RedisMatchmakerWorker`). Redis and `hash`
-- are arguments; `next` counts the names of `token_hex`. A published payload is its fields.
pub mod Refines
pub mod Removals
use chess_kung_fu.Prelude.{
  ℕ, ◌+◌, ◌≡◌, refl, sym, ◌∙◌, ap, Bool, true, false, not, Option, none, some, List, [], ◌∷◌, ◌++◌,
  map, filter, elem, if◌then◌else◌, ◌==◌, String, string_eq, ℤ, pos, leb, arith, Bool-cases,
  Option-cases, inl, inr, abs, ◌-ℤ◌, nat_eq, length,
}
use chess_kung_fu.Model.{Text, text}
use chess_kung_fu.Server.Redis.{Waiting, Keys}
use chess_kung_fu.Server.Allocator.{allocate}
use chess_kung_fu.Server.Matchmaking.{
  QueueEntry, QueueStatus, queued, already_queued, is_overdue, elo_window, find_match, is_close,
  Match, Progress, match_from, try_match, tick, expire_timeouts,
}

pub data MatchEvent : Type 0 where
  create_match : String → String → String → Text → MatchEvent
  match_timeout : String → Text → MatchEvent

module _ {Q : Type 0} (r : Waiting Q) where
  unfoldable pub enqueue_user : Q → ℕ → String → ℤ → Q × QueueStatus
  enqueue_user q now user_id elo = elim (r.zscore q user_id) [
    | some _ ↦ (q, already_queued)
    | none ↦ (r.hset (r.zadd q user_id now) user_id elo, queued)
  ]

  unfoldable pub cancel_user : Q → String → Q × Bool
  cancel_user q user_id =
      let removed : Bool = elim (r.zscore q user_id) [ none ↦ false | some _ ↦ true ] in
      (r.hdel (r.zrem q (user_id ∷ [])) (user_id ∷ []), removed)

  -- `snapshot`, from the rows; 1200 for an Elo that is missing.
  unfoldable pub entries : Q → List (String × ℕ) → List QueueEntry
  entries q [] = []
  entries q (row ∷ rows) =
      record {
        user_id = row.0;
        elo = elim (r.hget q row.0) [ none ↦ pos 1200 | some elo ↦ elo ];
        enqueued_at = row.1;
      }
      ∷ entries q rows

  abbrev pub snapshot_of : Q → List QueueEntry
  snapshot_of q = entries q (r.zrange q)

  unfoldable pub remove_users : Q → List String → Q
  remove_users q [] = q
  remove_users q (u ∷ us) = r.hdel (r.zrem q (u ∷ us)) (u ∷ us)

abbrev pub timeout_event : QueueEntry → MatchEvent
timeout_event e = match_timeout e.user_id (text "no opponent within 60 seconds")

-- The loop of `_expire_timeouts`: who has timed out, and the events.
unfoldable pub timed_out : ℕ → List QueueEntry → List String × List MatchEvent
timed_out now [] = ([], [])
timed_out now (e ∷ queue) =
    let (users, events) = timed_out now queue in
    if is_overdue now e then (e.user_id ∷ users, timeout_event e ∷ events) else (users, events)

-- How far the loop of `_try_match` has come, and whether `allocate` has raised.
pub record Matching (K : Type 0) : Type 0 where
  pub next : ℕ
  pub keys : K
  pub taken : List String
  pub events : List MatchEvent
  pub failed : Bool

pub record Worker (K Q : Type 0) : Type 0 where
  pub next : ℕ
  pub keys : K
  pub queue : Q

module _ {K : Type 0} (rk : Keys K) (token : ℕ → String) (hash : Text → ℕ)
    (shards : List Text) where
  -- The outer loop, over the rest of the snapshot; the inner one is word for word the one of
  -- `MatchmakingService`.
  unfoldable pub match_loop : ℕ → K → List String → List MatchEvent → List QueueEntry → Matching K
  match_loop next k taken events [] = record {
    next = next;
    keys = k;
    taken = taken;
    events = events;
    failed = false;
  }
  match_loop next k taken events (a ∷ queue) =
      elim (if elem a.user_id taken then none else find_match a taken queue) [
        | none ↦ match_loop next k taken events queue
        | some b ↦
            let taken' = taken ++ a.user_id ∷ b.user_id ∷ [] in
            (elim (allocate rk hash shards k (text (token next))) [
              | none ↦ record {
                next = next;
                keys = k;
                taken = taken';
                events = events;
                failed = true;
              }
              | some (k', shard) ↦
                  let event = create_match (token next) a.user_id b.user_id shard in
                  match_loop (next + 1) k' taken' (events ++ event ∷ []) queue
            ])
      ]

  -- `tick`, with the events published; the last is whether it raised.
  unfoldable pub worker_tick :
      {Q : Type 0} → Waiting Q → ℕ → Worker K Q → Worker K Q × List MatchEvent × Bool
  unfolding timed_out match_loop remove_users
  worker_tick r now w =
      let (users, late) = timed_out now (snapshot_of r w.queue) in
      let q = remove_users r w.queue users in
      let m = match_loop w.next w.keys [] [] (snapshot_of r q) in
      let q' = if m.failed then q else remove_users r q m.taken in
      (record { next = m.next; keys = m.keys; queue = q' }, late ++ m.events, m.failed)
