-- ===== src/Server/Matchmaking/Pairs.antt =====
-- `_try_match`: which pairs it makes, and which it leaves.
use chess_kung_fu.Prelude.{
  ◌≡◌, ◌≢◌, refl, sym, ap, ◌∙◌, subst, true, false, Option, none, some, List, [], ◌∷◌, ◌++◌, elem,
  elem-append_left, elem-append_right, All, All_imp, All-append, ==-refl, string_eq, String, arith,
  Bool-cases, if_true, if_false, inl, inr, ◌⊎◌,
}
use mathlib.Core.Bool.{true≢false}
use text.Mathlib.TextEquality.{eq_iff}
use chess_kung_fu.Server.Matchmaking.{
  QueueEntry, is_queued, find_match, Match, Progress, match_from, try_match,
}
use chess_kung_fu.Server.Matchmaking.Rounds.{
  match_from-cases, IsUnique, IsApart, find_match-some, find_match-none, find_match-All, NoRepeat,
  NoRepeat-pair, players, players-snoc, Fair, left_over, far_left,
}

record Outcome (W : Type 0) (P : QueueEntry → Type 0) (used : List String) (ms : List Match)
    (queue : List QueueEntry) (p : Progress W) : Type 0 where
  kept : (u : String) → elem u used ≡ true → elem u p.used ≡ true
  left : p.raised ≡ false → IsApart (left_over p.used queue)
  fair : All (Fair P) ms → All (Fair P) p.matches
  once : NoRepeat used → NoRepeat p.used
  told : used ≡ players ms → p.raised ≡ false → p.used ≡ players p.matches

elem_first : (a b : String) (used : List String) → elem a (used ++ a ∷ b ∷ []) ≡ true
elem_first a b used = elem-append_right a used (a ∷ b ∷ []) (ground (arith, ==-refl a))

module _ {W : Type 0} (create : W → String → String → Option (W × String))
    (P : QueueEntry → Type 0) where
  -- The entry `a` is passed over.
  pass-Outcome :
      (used : List String) (ms : List Match) (a : QueueEntry) (queue : List QueueEntry)
      (p : Progress W)
      → (elem a.user_id used ≡ true) ⊎ (find_match a used queue ≡ none)
      → Outcome W P used ms queue p
      → Outcome W P used ms (a ∷ queue) p
  pass-Outcome used ms a queue p why o = record {
    kept = o.kept;
    left = λ fine. elim (Bool-cases (elem a.user_id p.used)) [
      | inl there ↦ rw there (o.left fine)
      | inr new ↦ rw new (elim why [
        | inl old ↦ absurd (ground (arith, o.kept a.user_id old))
        | inr nobody ↦
            (far_left a used p.used queue o.kept (find_match-none a used queue nobody), o.left fine)
      ])
    ];
    fair = o.fair;
    once = o.once;
    told = o.told;
  }

  -- The entry `a` is matched with `b`.
  pair-Outcome :
      (used : List String) (ms : List Match) (a b : QueueEntry) (room_id : String)
      (queue : List QueueEntry) (p : Progress W)
      → elem a.user_id used ≡ false
      → find_match a used queue ≡ some b
      → P a
      → All P queue
      → All (λ x. x.user_id ≢ a.user_id) queue
      → Outcome W P
          (used ++ a.user_id ∷ b.user_id ∷ [])
          (ms ++ record { room_id = room_id; first = a; second = b } ∷ [])
          queue
          p
      → Outcome W P used ms (a ∷ queue) p
  pair-Outcome used ms a b room_id queue p new found pa pq others o =
      let m : Match = record { room_id = room_id; first = a; second = b } in
      let (unused, close) = find_match-some a b used queue found in
      record {
        kept = λ u h. o.kept u (elem-append_left u used (a.user_id ∷ b.user_id ∷ []) h);
        left = λ fine. rw (o.kept a.user_id (elem_first a.user_id b.user_id used)) (o.left fine);
        fair = λ h. o.fair (
            All-append (Fair P) ms (m ∷ []) h
              ((pa, find_match-All P a b used queue pq found, close), tt));
        once = λ n. o.once (
            NoRepeat-pair used a.user_id b.user_id n new unused
              (find_match-All (λ x. x.user_id ≢ a.user_id) a b used queue others found));
        told = λ e fine. o.told (rw e (sym (players-snoc ms m))) fine;
      }

  -- The match of `a` with `b` raises.
  raise-Outcome :
      (used : List String) (ms : List Match) (a b : QueueEntry) (queue : List QueueEntry)
      (p : Progress W)
      → elem a.user_id used ≡ false
      → find_match a used queue ≡ some b
      → All (λ x. x.user_id ≢ a.user_id) queue
      → p.raised ≡ true
      → p.matches ≡ ms
      → p.used ≡ used ++ a.user_id ∷ b.user_id ∷ []
      → Outcome W P used ms (a ∷ queue) p
  raise-Outcome used ms a b queue p new found others raised matched taken =
      let (unused, close) = find_match-some a b used queue found in
      record {
        kept = λ u h. ap (elem u) taken ∙ elem-append_left u used (a.user_id ∷ b.user_id ∷ []) h;
        left = λ fine. absurd (true≢false (sym raised ∙ fine));
        fair = λ h. subst (All (Fair P)) (sym matched) h;
        once = λ n. subst NoRepeat (sym taken) (
            NoRepeat-pair used a.user_id b.user_id n new unused
              (find_match-All (λ x. x.user_id ≢ a.user_id) a b used queue others found));
        told = λ e fine. absurd (true≢false (sym raised ∙ fine));
      }

  match_from-Outcome :
      (w : W) (used : List String) (ms : List Match) (queue : List QueueEntry)
      → All P queue
      → IsUnique queue
      → Outcome W P used ms queue (match_from create w used ms queue)
  unfolding match_from
  match_from-Outcome w used ms [] pq u = record {
    kept = λ u h. h;
    left = λ fine. tt;
    fair = λ h. h;
    once = λ n. n;
    told = λ e fine. e;
  }
  match_from-Outcome w used ms (a ∷ queue) pq u = elim (match_from-cases create w used ms a queue) [
    | inl (same, why) ↦
        rw same (pass-Outcome used ms a queue _ why (match_from-Outcome w used ms queue pq.1 u.1))
    | inr (b, new, found, inl (raised, matched, taken)) ↦
        raise-Outcome used ms a b queue _ new found u.0 raised matched taken
    | inr (b, new, found, inr (w', room_id, same)) ↦ rw same (
        pair-Outcome used ms a b room_id queue _ new found pq.0 pq.1 u.0 (
          match_from-Outcome w' (used ++ a.user_id ∷ b.user_id ∷ [])
            (ms ++ record { room_id = room_id; first = a; second = b } ∷ []) queue pq.1 u.1))
  ]

all_queued : (queue : List QueueEntry) → All (λ e. is_queued queue e.user_id ≡ true) queue
all_queued [] = tt
all_queued (e ∷ queue) = (
  ground (arith, eq_iff e.user_id e.user_id),
  All_imp (λ x h. ground (arith, h)) queue (all_queued queue),
)

-- What `_try_match` makes of a queue.
pub record Matched (W : Type 0) (queue queue' : List QueueEntry) (p : Progress W) : Type 0 where
  -- The two of a match are queued and close in Elo.
  pub fair : All (Fair (λ e. is_queued queue e.user_id ≡ true)) p.matches
  -- Nobody is taken twice.
  pub once : NoRepeat p.used
  -- Without an exception those matched leave the queue, and no two that stay could be matched.
  pub told : p.raised ≡ false → p.used ≡ players p.matches
  pub left : p.raised ≡ false → (queue' ≡ left_over p.used queue) × IsApart queue'
  -- With one, the queue stays.
  pub stuck : p.raised ≡ true → queue' ≡ queue

-- In a queue with no user twice, `_try_match` matches only queued users, no one twice, each pair
-- within the Elo window; if no room is refused, then exactly those matched leave the queue and no
-- two of the rest are within the window of one another; if `create_matched_room` raises, then the
-- queue stays as it was, with those matched before still in it.
pub try_match_lem :
    {W : Type 0} (create : W → String → String → Option (W × String)) (w : W)
    (queue : List QueueEntry)
    → IsUnique queue
    → let (p, queue') = try_match create w queue in Matched W queue queue' p
unfolding try_match
try_match_lem {W} create w queue u =
    let P = λ (e : QueueEntry). is_queued queue e.user_id ≡ true in
    let p = match_from create w [] [] queue in
    let o : Outcome W P [] [] queue p =
      match_from-Outcome create P w [] [] queue (all_queued queue) u in
    record {
      fair = o.fair tt;
      once = o.once tt;
      told = o.told refl;
      left = λ fine.
          let stays = if_false p.raised queue (left_over p.used queue) fine in
          (stays, subst IsApart (sym stays) (o.left fine));
      stuck = λ h. if_true p.raised queue (left_over p.used queue) h;
    }
