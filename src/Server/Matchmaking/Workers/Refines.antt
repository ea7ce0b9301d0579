-- ===== src/Server/Matchmaking/Workers/Refines.antt =====
-- The worker makes the matches of `MatchmakingService`.
use chess_kung_fu.Prelude.{
  ℕ, ◌+◌, ◌%◌, length, ◌≡◌, refl, sym, ◌∙◌, ap, Option, none, some, List, [], ◌∷◌, ◌++◌, map,
  filter, elem, if◌then◌else◌, String, string_eq, Bool-cases, Option-cases, inl, inr, subst,
  if_true, if_false,
}
use chess_kung_fu.Model.{Text, text}
use chess_kung_fu.Server.Redis.{Keys, Waiting, IsWaiting}
use mathlib.Core.Option.{some_inj, none-ne-some}
use chess_kung_fu.Server.Allocator.{nth, allocate}
use chess_kung_fu.Server.Matchmaking.{
  QueueEntry, find_match, Match, Progress, match_from, try_match, tick, is_overdue, expire_timeouts,
}
use chess_kung_fu.Server.Matchmaking.Workers.{
  MatchEvent, create_match, Matching, match_loop, Worker, worker_tick, snapshot_of, timeout_event,
  timed_out, remove_users,
}
use chess_kung_fu.Server.Matchmaking.Workers.Removals.{
  is_left, timed_out_lem, not_overdue, snapshot_of-remove_users,
}

module _ {K : Type 0} (rk : Keys K) (token : ℕ → String) (hash : Text → ℕ)
    (shards : List Text) where
  -- What takes the place of `create_matched_room`: a token, and a shard for it.
  abbrev pub reserve : ℕ × K → String → String → Option ((ℕ × K) × String)
  reserve (next, k) white_id black_id = elim (allocate rk hash shards k (text (token next))) [
    | none ↦ none
    | some (k', shard) ↦ some ((next + 1, k'), token next)
  ]

  -- The shard of a room, and the event of a match.
  abbrev pub shard_at : String → Text
  shard_at room_id = elim (nth shards (hash (text room_id) % length shards)) [
    | none ↦ []
    | some s ↦ s
  ]

  abbrev pub match_event : Match → MatchEvent
  match_event m = create_match m.room_id m.first.user_id m.second.user_id (shard_at m.room_id)

  allocate-shard_at :
      (k k' : K) (room_id : String) (shard : Text)
      → allocate rk hash shards k (text room_id) ≡ some (k', shard)
      → shard ≡ shard_at room_id
  unfolding allocate
  allocate-shard_at k k' room_id shard made =
      elim (Option-cases (nth shards (hash (text room_id) % length shards))) [
        | inl short ↦ absurd (none-ne-some (k', shard) (rw (short, allocate) at made))
        | inr (s, found) ↦
            rw (found, shard_at) (sym (ap (λ x. x.1) (some_inj.0 (rw (found, allocate) at made))))
      ]

  -- A worker that has come as far as the service.
  pub record IsLike (m : Matching K) (p : Progress (ℕ × K)) : Type 0 where
    pub same_world : (m.next, m.keys) ≡ p.world
    pub same_used : m.taken ≡ p.used
    pub same_end : m.failed ≡ p.raised
    pub same_events : m.events ≡ map match_event p.matches

  map_snoc :
      (matches : List Match) (m : Match)
      → map match_event (matches ++ m ∷ []) ≡ map match_event matches ++ match_event m ∷ []
  map_snoc [] m = refl
  map_snoc (x ∷ matches) m = ap (λ (es : List MatchEvent). match_event x ∷ es) (map_snoc matches m)

  told_more :
      (events : List MatchEvent) (matches : List Match) (m : Match) (shard : Text)
      → events ≡ map match_event matches
      → shard ≡ shard_at m.room_id
      → events ++ create_match m.room_id m.first.user_id m.second.user_id shard ∷ []
        ≡ map match_event (matches ++ m ∷ [])
  told_more events matches m shard told same = rw (told, same) (sym (map_snoc matches m))

  pub match_loop-IsLike :
      (queue : List QueueEntry) (next : ℕ) (k : K) (taken : List String) (events : List MatchEvent)
      (matches : List Match)
      → events ≡ map match_event matches
      → IsLike
          (match_loop rk token hash shards next k taken events queue)
          (match_from reserve (next, k) taken matches queue)
  unfolding match_loop match_from
  match_loop-IsLike [] next k taken events matches told = record {
    same_world = refl;
    same_used = refl;
    same_end = refl;
    same_events = told;
  }
  match_loop-IsLike (a ∷ queue) next k taken events matches told =
      elim (Option-cases (if elem a.user_id taken then none else find_match a taken queue)) [
        | inl nobody ↦
            rw (nobody, match_loop, match_from)
              (match_loop-IsLike queue next k taken events matches told)
        | inr (b, found) ↦ (elim (Option-cases (allocate rk hash shards k (text (token next)))) [
          | inl fails ↦
              rw (found, fails, match_loop, match_from)
                (record {
                  same_world = refl;
                  same_used = refl;
                  same_end = refl;
                  same_events = told;
                })
          | inr ((k', shard), made) ↦
              rw (found, made, match_loop, match_from)
                (match_loop-IsLike queue (next + 1) k' (taken ++ a.user_id ∷ b.user_id ∷ [])
                  (events ++ create_match (token next) a.user_id b.user_id shard ∷ [])
                  (matches ++ record { room_id = token next; first = a; second = b } ∷ [])
                  (told_more events matches (record { room_id = token next; first = a; second = b })
                    shard told (allocate-shard_at k k' (token next) shard made)))
        ])
      ]

  -- A tick of the worker does to the queue in Redis what `tick` of `MatchmakingService` does to a
  -- queue in memory, whose rooms are tokens with a shard: it makes the same matches, in the same
  -- order, keeps the same users, and raises when it does. What it publishes are the timeouts of
  -- the users that waited for a minute, and then the matches.
  pub worker_tick-tick :
      {Q : Type 0} (r : Waiting Q)
      → IsWaiting r
      → (now : ℕ) (w : Worker K Q)
      → let (w', published, failed) = worker_tick rk token hash shards r now w in
        let (p, queue) = tick reserve (w.next, w.keys) now (snapshot_of r w.queue) in
        (snapshot_of r w'.queue ≡ queue)
        × ((w'.next, w'.keys) ≡ p.world)
        × (failed ≡ p.raised)
        × (published
            ≡ map timeout_event (filter (is_overdue now) (snapshot_of r w.queue))
              ++ map match_event p.matches)
  unfolding worker_tick tick try_match
  worker_tick-tick r h now w =
      let queue = snapshot_of r w.queue in
      let users = (timed_out now queue).0 in
      let q = remove_users r w.queue users in
      let left = (expire_timeouts now queue).0 in
      let m = match_loop rk token hash shards w.next w.keys [] [] (snapshot_of r q) in
      let p = match_from reserve (w.next, w.keys) [] [] left in
      let snap : snapshot_of r q ≡ left = not_overdue r h now w.queue in
      let like : IsLike m p =
        subst (λ (es : List QueueEntry). IsLike m (match_from reserve (w.next, w.keys) [] [] es))
          snap (match_loop-IsLike (snapshot_of r q) w.next w.keys [] [] [] refl) in
      let late = map timeout_event (filter (is_overdue now) queue) in
      (
        elim (Bool-cases m.failed) [
          | inl fails ↦
              ap (snapshot_of r) (if_true m.failed q (remove_users r q m.taken) fails)
              ∙ snap
              ∙ sym
                  (if_true p.raised left (filter (is_left p.used) left) (sym like.same_end ∙ fails))
          | inr fine ↦
              ap (snapshot_of r) (if_false m.failed q (remove_users r q m.taken) fine)
              ∙ snapshot_of-remove_users r h q m.taken
              ∙ ap (λ (us : List String). filter (is_left us) (snapshot_of r q)) like.same_used
              ∙ ap (filter (is_left p.used)) snap
              ∙ sym
                  (if_false p.raised left (filter (is_left p.used) left) (sym like.same_end ∙ fine))
        ],
        like.same_world,
        like.same_end,
        ap (λ x. x.1 ++ m.events) (timed_out_lem now queue)
            ∙ ap (λ (es : List MatchEvent). late ++ es) like.same_events,
      )
