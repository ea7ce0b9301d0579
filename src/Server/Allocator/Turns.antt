-- ===== src/Server/Allocator/Turns.antt =====
-- The shards that `allocate` and `pick_shard` choose.
use native.Mathlib.Nat.{mod-lt, mod-eq_of_lt, mod-add-mod, mod-eq-sub-mod}
use chess_kung_fu.Prelude.{
  ℕ, zero, suc, ◌+◌, ◌-◌, ◌%◌, ◌≤◌, ◌<◌, ◌≡◌, ◌≢◌, refl, ◌∙◌, ap, true, not, some, List, [], ◌∷◌,
  filter, length, elem, ◌==◌, Bool-cases, inl, inr, arith, ltb, ==-refl,
}
use chess_kung_fu.Model.{Text, text, text_eq}
use chess_kung_fu.Server.Redis.{Keys, IsKeys}
use chess_kung_fu.Server.Allocator.{
  shards_of, nth, allocate, turn, pick_shard, shard_rr_key, room_shard_key, claim_room, shard_for,
}

-- The configured shards are never none at all.
pub shards_of_positive : (shard_ids : List Text) → 0 < length (shards_of shard_ids)
unfolding shards_of
shards_of_positive shard_ids = go (filter (λ s. not (s == [])) shard_ids)
  where
    go :
        (shards : List Text)
        → 0 < length (elim shards [ [] ↦ text "game-server-1" ∷ [] | s ∷ shards ↦ s ∷ shards ])
    go [] = omega arith
    go (s ∷ shards) = omega arith

nth-elem :
    (shards : List Text) (i : ℕ)
    → i < length shards
    → (s : Text) × (nth shards i ≡ some s) × (elem s shards ≡ true)
unfolding nth
nth-elem [] i lt = absurd (omega (arith, lt))
nth-elem (s ∷ shards) zero lt = (s, refl, ground (arith, ==-refl s))
nth-elem (s ∷ shards) (suc i) lt =
    let (t, found, among) = nth-elem shards i (omega (arith, lt)) in
    (t, found, ground (arith, among))

-- Two places of a turn that are less than a round apart.
round_apart : (a j n : ℕ) → 0 < j → j < n → (a + j) % n ≢ a % n
round_apart a j n pos_ lt same =
    let small = mod-lt a {m = n} (omega (arith, pos_, lt)) in
    let moved = mod-add-mod a n j in
    (elim (Bool-cases (ltb (a % n + j) n)) [
      | inl under ↦
          let whole = mod-eq_of_lt {n = a % n + j} {m = n} (ground (arith, under)) in
          omega (arith, whole, moved, same, pos_)
      | inr over ↦
          let less = mod-eq-sub-mod {n = a % n + j} {m = n} (ground (arith, over)) in
          let rest : a % n + j - n < n = omega (arith, small, lt) in
          let whole = mod-eq_of_lt {n = a % n + j - n} {m = n} rest in
          let reached : n ≤ a % n + j = ground (arith, over) in
          omega (arith, less, whole, moved, same, lt, reached)
    ])

module _ {K : Type 0} (r : Keys K) (h : IsKeys r) (shards : List Text)
    (some_shard : 0 < length shards) where
  -- `allocate` puts the room on one of the shards.
  pub allocate_lem :
      (hash : Text → ℕ) (k : K) (room_id : Text)
      → (k' : K) × (s : Text) × (allocate r hash shards k room_id ≡ some (k', s))
        × (elem s shards ≡ true)
        × (shard_for r k' room_id ≡ some s)
  unfolding allocate
  allocate_lem hash k room_id =
      let (s, found, among) =
        nth-elem shards (hash room_id % length shards) (mod-lt (hash room_id) some_shard) in
      (
        claim_room r k room_id s,
        s,
        rw (found, allocate) refl,
        among,
        h.get-set k (room_shard_key room_id) s (room_shard_key room_id)
            ∙ rw (==-refl (room_shard_key room_id)) refl,
      )

  -- `n` calls of `pick_shard`
  unfoldable pub after : ℕ → K → K
  unfolding pick_shard
  after zero k = k
  after (suc n) k = after n (pick_shard r shards k).0

  counted : (j : ℕ) (k : K) → (r.incr (after j k) shard_rr_key).1 ≡ (r.incr k shard_rr_key).1 + j
  unfolding after pick_shard
  counted zero k = omega arith
  counted (suc j) k =
      omega (arith, counted j (r.incr k shard_rr_key).0, h.incr_again k shard_rr_key)

  moved :
      (k : K) (j : ℕ)
      → (r.incr k shard_rr_key).1 + length shards - 1 + j
        ≡ (r.incr (after j k) shard_rr_key).1 + length shards - 1
  moved k j = omega (arith, counted j k, h.incr_positive k shard_rr_key)

  -- `pick_shard` gives one of the shards, and before a round of the shards is over it does not come
  -- to a place of the list a second time.
  pub pick_shard_lem :
      (k : K) (j : ℕ)
      → 0 < j
      → j < length shards
      → ((s : Text) × ((pick_shard r shards k).1 ≡ some s) × (elem s shards ≡ true))
        × (turn r shards (after j k) ≢ turn r shards k)
  unfolding pick_shard
  pick_shard_lem k j from to =
      let n = length shards in
      let i = (r.incr k shard_rr_key).1 in
      (
        nth-elem shards (turn r shards k) (mod-lt (i + n - 1) some_shard),
        λ same. round_apart (i + n - 1) j n from to (ap (λ (x : ℕ). x % n) (moved k j) ∙ same),
      )
