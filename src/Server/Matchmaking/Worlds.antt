-- ===== src/Server/Matchmaking/Worlds.antt =====
-- What `create_matched_room` keeps, the matchmaking keeps.
use chess_kung_fu.Prelude.{
  ℕ, ◌≡◌, ◌≢◌, sym, not, Option, some, List, [], ◌∷◌, ◌++◌, elem, Bool-cases, Option-cases, inl,
  inr, String, string_eq, if-elim,
}
use chess_kung_fu.Server.Matchmaking.{
  QueueEntry, is_overdue, expire_timeouts, find_match, Match, match_from, try_match,
}
use chess_kung_fu.Server.Matchmaking.Rounds.{IsUnique, find_match-All}
use chess_kung_fu.Server.Matchmaking.Queue.{filter-IsUnique, expire_timeouts_lem}

module _ {W : Type 0} (create : W → String → String → Option (W × String)) (Inv : W → Type 0)
    (keep : (w w' : W) (a b r : String)
      → a ≢ b
      → create w a b ≡ some (w', r)
      → Inv w
      → Inv w') where
  match_from-keeps :
      (w : W) (used : List String) (ms : List Match) (queue : List QueueEntry)
      → IsUnique queue
      → Inv w
      → Inv (match_from create w used ms queue).world
  unfolding match_from
  match_from-keeps w used ms [] u v = v
  match_from-keeps w used ms (a ∷ queue) u v = elim (Bool-cases (elem a.user_id used)) [
    | inl there ↦ rw (there, match_from) (match_from-keeps w used ms queue u.1 v)
    | inr new ↦ (elim (Option-cases (find_match a used queue)) [
      | inl nobody ↦ rw (new, nobody, match_from) (match_from-keeps w used ms queue u.1 v)
      | inr (b, found) ↦ (elim (Option-cases (create w a.user_id b.user_id)) [
        | inl fails ↦ rw (new, found, fails, match_from) v
        | inr ((w', r), made) ↦
            let apart = find_match-All (λ x. x.user_id ≢ a.user_id) a b used queue u.0 found in
            rw (new, found, made, match_from)
              (match_from-keeps w' (used ++ a.user_id ∷ b.user_id ∷ [])
                (ms ++ record { room_id = r; first = a; second = b } ∷ []) queue u.1
                (keep w w' a.user_id b.user_id r (λ e. apart (sym e)) made v))
      ])
    ])
  ]

  -- And the queue stays without a user twice.
  pub try_match-keeps :
      (w : W) (queue : List QueueEntry)
      → IsUnique queue
      → Inv w
      → let (p, queue') = try_match create w queue in Inv p.world × IsUnique queue'
  unfolding try_match
  try_match-keeps w queue u v =
      let p = match_from create w [] [] queue in
      (
        match_from-keeps w [] [] queue u v,
        if-elim IsUnique p.raised u (filter-IsUnique (λ e. not (elem e.user_id p.used)) queue u),
      )

pub expire_timeouts-IsUnique :
    (now : ℕ) (queue : List QueueEntry) → IsUnique queue → IsUnique (expire_timeouts now queue).0
expire_timeouts-IsUnique now queue u =
    rw (expire_timeouts_lem now queue) (filter-IsUnique (λ e. not (is_overdue now e)) queue u)
