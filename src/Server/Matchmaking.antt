-- ===== src/Server/Matchmaking.antt =====
-- Server/application/matchmaking_service.py (`MatchmakingService`). Time is counted in
-- milliseconds. The callbacks that the service is given are arguments: `create` for
-- `create_matched_room` on the rooms `W` (`none` is an exception), and the Elo of a user. What
-- `notify_user` is called with is listed in order; no other call comes in between.
pub mod Rounds
pub mod Pairs
pub mod Queue
pub mod Worlds
pub mod Workers
use chess_kung_fu.Prelude.{
  ℕ, ◌+◌, ◌*◌, ◌≡◌, Bool, true, false, not, ◌&&◌, ◌||◌, Option, none, some, List, [], ◌∷◌, ◌++◌,
  filter, any, length, elem, if◌then◌else◌, ◌==◌, Eq, string_eq, leb, ltb, String, ℤ, ◌-ℤ◌, abs,
}
use chess_kung_fu.Model.{Text, text}
use chess_kung_fu.Server.Protocol.{Fields, field, no_fields, str}
use chess_kung_fu.Server.Protocol.Games.{
  MatchFoundMessage, match_found_to_dict, MatchTimeoutMessage, match_timeout_to_dict,
}

-- `QueueEntry`
pub record QueueEntry : Type 0 where
  pub user_id : String
  pub elo : ℤ
  pub enqueued_at : ℕ

abbrev pub elo_window : ℕ
elo_window = 100

abbrev pub queue_timeout_ms : ℕ
queue_timeout_ms = 60 * 1000

-- `"queued"` and `"already_queued"`
pub data QueueStatus : Type 0 where
  queued already_queued : QueueStatus

abbrev pub is_queued : List QueueEntry → String → Bool
is_queued queue user_id = any (λ e. e.user_id == user_id) queue

unfoldable pub enqueue : List QueueEntry → ℕ → ℤ → String → List QueueEntry × QueueStatus
enqueue queue now elo user_id =
    if is_queued queue user_id
    then (queue, already_queued)
    else (queue ++ record { user_id = user_id; elo = elo; enqueued_at = now } ∷ [], queued)

unfoldable pub cancel : List QueueEntry → String → List QueueEntry × Bool
cancel queue user_id =
    let queue' = filter (λ e. not (e.user_id == user_id)) queue in
    (queue', ltb (length queue') (length queue))

-- `now - entry.enqueued_at >= QUEUE_TIMEOUT_SECONDS`
abbrev pub is_overdue : ℕ → QueueEntry → Bool
is_overdue now e = leb (e.enqueued_at + queue_timeout_ms) now

abbrev pub Notice : Type 0
Notice = String × Fields

abbrev pub timeout_notice : QueueEntry → Notice
timeout_notice e =
    (e.user_id, match_timeout_to_dict (record { reason = text "no opponent within 60 seconds" }))

-- `_expire_timeouts`: what stays in the queue, and the notices.
unfoldable pub expire_timeouts : ℕ → List QueueEntry → List QueueEntry × List Notice
expire_timeouts now [] = ([], [])
expire_timeouts now (e ∷ queue) =
    let (still, notices) = expire_timeouts now queue in
    if is_overdue now e then (still, timeout_notice e ∷ notices) else (e ∷ still, notices)

-- `abs(a.elo - b.elo) <= ELO_WINDOW`
abbrev pub is_close : QueueEntry → QueueEntry → Bool
is_close a b = leb (abs (a.elo -ℤ b.elo)) elo_window

-- The inner loop of `_try_match`.
unfoldable pub find_match : QueueEntry → List String → List QueueEntry → Option QueueEntry
find_match a used [] = none
find_match a used (b ∷ queue) =
    let rest = find_match a used queue in
    if elem b.user_id used then rest else if is_close a b then some b else rest

pub record Match : Type 0 where
  pub room_id : String
  pub first : QueueEntry
  pub second : QueueEntry

-- The two notices of a match, to White and to Black.
abbrev pub match_notices : Match → List Notice
match_notices m =
    let players =
      field "w" (str (text m.first.user_id)) (field "b" (str (text m.second.user_id)) no_fields) in
    let message = λ (color : Text).
      match_found_to_dict
        (record { room_id = text m.room_id; players = players; color = str color }) in
    (m.first.user_id, message (text "w")) ∷ (m.second.user_id, message (text "b")) ∷ []

-- How far the outer loop has come: the rooms, `used`, the matches made, and whether
-- `create_matched_room` has raised.
pub record Progress (W : Type 0) : Type 0 where
  pub world : W
  pub used : List String
  pub matches : List Match
  pub raised : Bool

module _ {W : Type 0} (create : W → String → String → Option (W × String)) where
  -- The outer loop, over the rest of the queue.
  unfoldable pub match_from : W → List String → List Match → List QueueEntry → Progress W
  match_from w used matches [] = record {
    world = w;
    used = used;
    matches = matches;
    raised = false;
  }
  match_from w used matches (a ∷ queue) =
      elim (if elem a.user_id used then none else find_match a used queue) [
        | none ↦ match_from w used matches queue
        | some b ↦
            let used' = used ++ a.user_id ∷ b.user_id ∷ [] in
            (elim (create w a.user_id b.user_id) [
              | none ↦ record { world = w; used = used'; matches = matches; raised = true }
              | some (w', room_id) ↦
                  match_from w' used'
                    (matches ++ record { room_id = room_id; first = a; second = b } ∷ []) queue
            ])
      ]

  -- `_try_match`: an exception leaves the queue alone.
  unfoldable pub try_match : W → List QueueEntry → Progress W × List QueueEntry
  unfolding match_from
  try_match w queue =
      let p = match_from w [] [] queue in
      (p, if p.raised then queue else filter (λ e. not (elem e.user_id p.used)) queue)

  -- `tick`
  unfoldable pub tick : W → ℕ → List QueueEntry → Progress W × List QueueEntry
  unfolding expire_timeouts try_match
  tick w now queue = try_match w (expire_timeouts now queue).0
