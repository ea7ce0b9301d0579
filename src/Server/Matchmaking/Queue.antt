-- ===== src/Server/Matchmaking/Queue.antt =====
-- The queue of `MatchmakingService`: coming, going, and waiting too long.
use chess_kung_fu.Prelude.{
  ℕ, ◌≡◌, ◌≢◌, refl, sym, ◌∙◌, Bool, true, false, not, List, [], ◌∷◌, ◌++◌, filter, All, All-filter,
  All-append, any-append, ◌==◌, string_eq, ltb, String, ℤ, arith, Bool-cases, if-cases, inl, inr,
  map, length, length-filter-le,
}
use text.Mathlib.TextEquality.{eq_iff}
use chess_kung_fu.Server.Matchmaking.{
  QueueEntry, is_queued, QueueStatus, enqueue, cancel, is_overdue, timeout_notice, expire_timeouts,
}
use chess_kung_fu.Server.Matchmaking.Rounds.{IsUnique}

not_queued :
    (queue : List QueueEntry) (u : String)
    → is_queued queue u ≡ false
    → All (λ e. e.user_id ≢ u) queue
not_queued [] u h = tt
not_queued (e ∷ queue) u h =
    (λ same. ground (arith, eq_iff e.user_id u, same), not_queued queue u (ground arith))

snoc-IsUnique :
    (queue : List QueueEntry) (e : QueueEntry)
    → IsUnique queue
    → All (λ x. x.user_id ≢ e.user_id) queue
    → IsUnique (queue ++ e ∷ [])
snoc-IsUnique [] e u h = (tt, tt)
snoc-IsUnique (x ∷ queue) e u h = (
  All-append (λ y. y.user_id ≢ x.user_id) queue (e ∷ []) u.0 (λ same. h.0 (sym same), tt),
  snoc-IsUnique queue e u.1 h.1,
)

pub filter-IsUnique :
    (p : QueueEntry → Bool) (queue : List QueueEntry) → IsUnique queue → IsUnique (filter p queue)
filter-IsUnique p [] u = tt
filter-IsUnique p (e ∷ queue) u = elim (Bool-cases (p e)) [
  | inl yes_ ↦
      rw yes_ (All-filter (λ x. x.user_id ≢ e.user_id) p queue u.0, filter-IsUnique p queue u.1)
  | inr no_ ↦ rw no_ (filter-IsUnique p queue u.1)
]

still_queued :
    (queue : List QueueEntry) (e : QueueEntry) → is_queued (queue ++ e ∷ []) e.user_id ≡ true
still_queued queue e =
    any-append (λ x. x.user_id == e.user_id) queue (e ∷ [])
    ∙ ground (arith, eq_iff e.user_id e.user_id)

-- After `enqueue` the user is queued, once, whether new or there before.
pub enqueue-IsUnique :
    (queue : List QueueEntry) (now : ℕ) (elo : ℤ) (user_id : String)
    → IsUnique queue
    → IsUnique (enqueue queue now elo user_id).0
      × (is_queued (enqueue queue now elo user_id).0 user_id ≡ true)
unfolding enqueue
enqueue-IsUnique queue now elo user_id u =
    let e : QueueEntry = record { user_id = user_id; elo = elo; enqueued_at = now } in
    if-cases (λ (r : List QueueEntry × QueueStatus). IsUnique r.0 × (is_queued r.0 user_id ≡ true))
      (is_queued queue user_id) (λ there. (u, there))
      (λ new. (snoc-IsUnique queue e u (not_queued queue user_id new), still_queued queue e))

gone :
    (queue : List QueueEntry) (u : String)
    → is_queued (filter (λ e. not (e.user_id == u)) queue) u ≡ false
gone [] u = refl
gone (e ∷ queue) u = elim (Bool-cases (e.user_id == u)) [
  | inl same ↦ rw same (gone queue u)
  | inr other ↦ rw (other, gone queue u) (rw other refl)
]

shorter :
    (queue : List QueueEntry) (u : String)
    → ltb (length (filter (λ e. not (e.user_id == u)) queue)) (length queue) ≡ is_queued queue u
shorter [] u = refl
shorter (e ∷ queue) u = elim (Bool-cases (e.user_id == u)) [
  | inl same ↦ rw same (ground (arith, length-filter-le (λ x. not (x.user_id == u)) queue))
  | inr other ↦ rw other (ground (arith, shorter queue u))
]

-- `cancel` takes the user out, keeps users single, and says whether the user was there.
pub cancel-IsUnique :
    (queue : List QueueEntry) (user_id : String)
    → IsUnique queue
    → let (queue', was) = cancel queue user_id in
      IsUnique queue' × (is_queued queue' user_id ≡ false) × (was ≡ is_queued queue user_id)
unfolding cancel
cancel-IsUnique queue user_id u = (
  filter-IsUnique (λ e. not (e.user_id == user_id)) queue u,
  gone queue user_id,
  shorter queue user_id,
)

-- `_expire_timeouts` keeps exactly the entries whose minute is not over, in order, and tells
-- exactly the others.
pub expire_timeouts_lem :
    (now : ℕ) (queue : List QueueEntry)
    → expire_timeouts now queue ≡ (
      filter (λ e. not (is_overdue now e)) queue,
      map timeout_notice (filter (is_overdue now) queue),
    )
unfolding expire_timeouts
expire_timeouts_lem now [] = refl
expire_timeouts_lem now (e ∷ queue) = elim (Bool-cases (is_overdue now e)) [
  | inl late ↦ rw (late, expire_timeouts_lem now queue) refl
  | inr early ↦ rw (early, expire_timeouts_lem now queue) refl
]
