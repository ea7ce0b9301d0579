-- ===== src/Server/Matchmaking/Workers/Removals.antt =====
-- What the worker takes out of the queue in Redis.
use mathlib.Core.Option.{none-ne-some}
use text.Mathlib.TextEquality.{eq_iff}
use chess_kung_fu.Prelude.{
  ℕ, ◌≡◌, ◌≢◌, refl, sym, ◌∙◌, ap, Bool, false, not, none, List, [], ◌∷◌, map, filter, elem, All,
  ◌==◌, String, string_eq, Bool-cases, inl, inr, arith, lookup, HasUniqueKeys, Dict, subst, ==-refl,
}
use chess_kung_fu.Server.Redis.{Waiting, IsWaiting}
use chess_kung_fu.Server.Matchmaking.{QueueEntry, is_overdue, expire_timeouts}
use chess_kung_fu.Server.Matchmaking.Queue.{expire_timeouts_lem}
use chess_kung_fu.Server.Matchmaking.Rounds.{IsUnique}
use chess_kung_fu.Server.Matchmaking.Workers.{
  timeout_event, entries, snapshot_of, remove_users, timed_out,
}

abbrev pub is_left : List String → QueueEntry → Bool
is_left us e = not (elem e.user_id us)

-- The users of the overdue entries are theirs alone.
not_among :
    (p : QueueEntry → Bool) (u : String) (queue : List QueueEntry)
    → All (λ x. x.user_id ≢ u) queue
    → elem u (map (λ e. e.user_id) (filter p queue)) ≡ false
not_among p u [] h = refl
not_among p u (x ∷ queue) h = elim (Bool-cases (p x)) [
  | inl yes_ ↦ rw yes_ (ground (arith, eq_iff x.user_id u, h.0, not_among p u queue h.1))
  | inr no_ ↦ rw no_ (not_among p u queue h.1)
]

filter_but :
    (u : String) (us : List String) (queue : List QueueEntry)
    → All (λ x. x.user_id ≢ u) queue
    → filter (is_left (u ∷ us)) queue ≡ filter (is_left us) queue
filter_but u us [] h = refl
filter_but u us (x ∷ queue) h =
    let other : (u == x.user_id) ≡ false = ground (arith, eq_iff u x.user_id, h.0) in
    rw (other, filter_but u us queue h.1) refl

pub filter-is_left :
    (p : QueueEntry → Bool) (queue : List QueueEntry)
    → IsUnique queue
    → filter (is_left (map (λ e. e.user_id) (filter p queue))) queue ≡ filter (λ e. not (p e)) queue
filter-is_left p [] u = refl
filter-is_left p (e ∷ queue) u = elim (Bool-cases (p e)) [
  | inl yes_ ↦
      let users' : users (e ∷ queue) ≡ e.user_id ∷ users queue = rw yes_ refl in
      subst P (sym users') (
        rw (yes_, filter_but e.user_id (users queue) queue u.0, ==-refl e.user_id)
          (filter-is_left p queue u.1))
  | inr no_ ↦
      let users' : users (e ∷ queue) ≡ users queue = rw no_ refl in
      subst P (sym users') (
        rw (no_, not_among p e.user_id queue u.0)
          (ap (λ (es : List QueueEntry). e ∷ es) (filter-is_left p queue u.1)))
]
  where
    users : List QueueEntry → List String
    users es = map (λ e. e.user_id) (filter p es)

    P : List String → Type 0
    P us = filter (is_left us) (e ∷ queue) ≡ filter (λ e. not (p e)) (e ∷ queue)

filter_none : (queue : List QueueEntry) → filter (is_left []) queue ≡ queue
filter_none [] = refl
filter_none (e ∷ queue) = ap (λ (es : List QueueEntry). e ∷ es) (filter_none queue)

pub timed_out_lem :
    (now : ℕ) (queue : List QueueEntry)
    → timed_out now queue ≡ (
      map (λ e. e.user_id) (filter (is_overdue now) queue),
      map timeout_event (filter (is_overdue now) queue),
    )
unfolding timed_out
timed_out_lem now [] = refl
timed_out_lem now (e ∷ queue) = elim (Bool-cases (is_overdue now e)) [
  | inl late ↦ rw (late, timed_out_lem now queue) refl
  | inr early ↦ rw (early, timed_out_lem now queue) refl
]

module _ {Q : Type 0} (r : Waiting Q) (h : IsWaiting r) where
  entries-IsUnique :
      (q : Q) (rows : Dict String ℕ) → HasUniqueKeys rows → IsUnique (entries r q rows)
  unfolding entries lookup
  entries-IsUnique q [] u = tt
  entries-IsUnique q (row ∷ rows) u = (absent q row.0 rows u.0, entries-IsUnique q rows u.1)
    where
      absent :
          (q : Q) (k : String) (rows : Dict String ℕ)
          → lookup k rows ≡ none
          → All (λ e. e.user_id ≢ k) (entries r q rows)
      absent q k [] free = tt
      absent q k (row ∷ rows) free = elim (Bool-cases (k == row.0)) [
        | inl same ↦ absurd (none-ne-some row.1 (sym (rw same at free)))
        | inr other ↦
            (λ e. ground (arith, eq_iff k row.0, e, other), absent q k rows (rw other at free))
      ]

  kept :
      (q q' : Q) (us : List String) (rows : List (String × ℕ))
      → ((u : String) → elem u us ≡ false → r.hget q' u ≡ r.hget q u)
      → entries r q' (filter (λ e. not (elem e.0 us)) rows) ≡ filter (is_left us) (entries r q rows)
  unfolding entries
  kept q q' us [] same = refl
  kept q q' us (row ∷ rows) same = elim (Bool-cases (elem row.0 us)) [
    | inl gone ↦ rw gone (kept q q' us rows same)
    | inr stays ↦ rw (stays, same row.0 stays, kept q q' us rows same) refl
  ]

  pub snapshot_of-remove_users :
      (q : Q) (us : List String)
      → snapshot_of r (remove_users r q us) ≡ filter (is_left us) (snapshot_of r q)
  unfolding remove_users
  snapshot_of-remove_users q [] = sym (filter_none (snapshot_of r q))
  snapshot_of-remove_users q (u ∷ us) =
      let q' = r.hdel (r.zrem q (u ∷ us)) (u ∷ us) in
      ap (entries r q') (h.zrange-hdel (r.zrem q (u ∷ us)) (u ∷ us) ∙ h.zrange-zrem q (u ∷ us))
      ∙ kept q q' (u ∷ us) (r.zrange q) (λ v stays.
        h.hget-hdel (r.zrem q (u ∷ us)) (u ∷ us) v ∙ rw stays (h.hget-zrem q (u ∷ us) v))

  -- Without the users that have timed out, the queue is what `_expire_timeouts` leaves.
  pub not_overdue :
      (now : ℕ) (q : Q)
      → snapshot_of r (remove_users r q (timed_out now (snapshot_of r q)).0)
        ≡ (expire_timeouts now (snapshot_of r q)).0
  not_overdue now q =
      let queue = snapshot_of r q in
      snapshot_of-remove_users q (timed_out now queue).0
      ∙ ap (λ x. filter (is_left x.0) queue) (timed_out_lem now queue)
      ∙ filter-is_left (is_overdue now) queue (entries-IsUnique q (r.zrange q) (h.single q))
      ∙ sym (ap (λ x. x.0) (expire_timeouts_lem now queue))
