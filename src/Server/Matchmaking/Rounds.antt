-- ===== src/Server/Matchmaking/Rounds.antt =====
-- One round of `_try_match`: what the inner loop finds, and the three ways of the outer loop.
use chess_kung_fu.Prelude.{
  ◌≡◌, ◌≢◌, refl, subst, true, false, not, ◌||◌, Option, none, some, List, [], ◌∷◌, ◌++◌, filter,
  elem, elem-append, All, string_eq, String, arith, Bool-cases, Option-cases, inl, inr, ◌⊎◌,
}
use text.Mathlib.TextEquality.{eq_iff}
use chess_kung_fu.Server.Matchmaking.{QueueEntry, is_close, find_match, Match, match_from}

-- No user twice in a queue.
abbrev pub IsUnique : List QueueEntry → Type 0
IsUnique [] = Unit
IsUnique (e ∷ queue) = All (λ x. x.user_id ≢ e.user_id) queue × IsUnique queue

-- No two entries of a queue that could be matched.
abbrev pub IsApart : List QueueEntry → Type 0
IsApart [] = Unit
IsApart (a ∷ queue) = All (λ b. is_close a b ≡ false) queue × IsApart queue

-- What the inner loop finds.
pub find_match-some :
    (a b : QueueEntry) (used : List String) (queue : List QueueEntry)
    → find_match a used queue ≡ some b
    → (elem b.user_id used ≡ false) × (is_close a b ≡ true)
unfolding find_match
find_match-some a b used [] h = absurd (ground arith)
find_match-some a b used (x ∷ queue) h = elim (Bool-cases (elem x.user_id used)) [
  | inl there ↦ find_match-some a b used queue (ground arith)
  | inr new ↦ (elim (Bool-cases (is_close a x)) [
    | inl close ↦
        let same : x ≡ b = ground arith in
        subst (λ (y : QueueEntry). (elem y.user_id used ≡ false) × (is_close a y ≡ true)) same
          (new, close)
    | inr far ↦ find_match-some a b used queue (ground arith)
  ])
]

-- Where it finds none.
pub find_match-none :
    (a : QueueEntry) (used : List String) (queue : List QueueEntry)
    → find_match a used queue ≡ none
    → All (λ b. (elem b.user_id used || not (is_close a b)) ≡ true) queue
unfolding find_match
find_match-none a used [] h = tt
find_match-none a used (x ∷ queue) h = (ground arith, find_match-none a used queue (ground arith))

pub find_match-All :
    (P : QueueEntry → Type 0) (a b : QueueEntry) (used : List String) (queue : List QueueEntry)
    → All P queue
    → find_match a used queue ≡ some b
    → P b
unfolding find_match
find_match-All P a b used [] al h = absurd (ground arith)
find_match-All P a b used (x ∷ queue) al h = elim (Bool-cases (elem x.user_id used)) [
  | inl there ↦ find_match-All P a b used queue al.1 (ground arith)
  | inr new ↦ (elim (Bool-cases (is_close a x)) [
    | inl close ↦ subst P (ground arith) al.0
    | inr far ↦ find_match-All P a b used queue al.1 (ground arith)
  ])
]

module _ {W : Type 0} (create : W → String → String → Option (W × String)) where
  -- The three ways of a round of the outer loop.
  pub match_from-cases :
      (w : W) (used : List String) (ms : List Match) (a : QueueEntry) (queue : List QueueEntry)
      → ((match_from create w used ms (a ∷ queue) ≡ match_from create w used ms queue)
          × ((elem a.user_id used ≡ true) ⊎ (find_match a used queue ≡ none)))
        ⊎ ((b : QueueEntry) × (elem a.user_id used ≡ false)
            × (find_match a used queue ≡ some b)
            × (((match_from create w used ms (a ∷ queue)).raised ≡ true)
                  × ((match_from create w used ms (a ∷ queue)).matches ≡ ms)
                  × ((match_from create w used ms (a ∷ queue)).used
                      ≡ used ++ a.user_id ∷ b.user_id ∷ [])
                ⊎ ((w' : W) × (room_id : String) × (match_from create w used ms (a ∷ queue)
                      ≡ match_from create w'
                          (used ++ a.user_id ∷ b.user_id ∷ [])
                          (ms ++ record { room_id = room_id; first = a; second = b } ∷ [])
                          queue))))
  unfolding match_from
  match_from-cases w used ms a queue = elim (Bool-cases (elem a.user_id used)) [
    | inl there ↦ inl (rw (there, match_from) refl, inl there)
    | inr new ↦ (elim (Option-cases (find_match a used queue)) [
      | inl nobody ↦ inl (rw (new, nobody, match_from) refl, inr nobody)
      | inr (b, found) ↦ inr (
        b,
        new,
        found,
        (elim (Option-cases (create w a.user_id b.user_id)) [
          | inl fails ↦ inl (rw (new, found, fails, match_from) (refl, refl, refl))
          | inr (r, made) ↦ inr (r.0, r.1, rw (new, found, made, match_from) refl)
        ]),
      )
    ])
  ]

-- No name twice.
abbrev pub NoRepeat : List String → Type 0
NoRepeat [] = Unit
NoRepeat (x ∷ xs) = (elem x xs ≡ false) × NoRepeat xs

pub NoRepeat-pair :
    (xs : List String) (a b : String)
    → NoRepeat xs
    → elem a xs ≡ false
    → elem b xs ≡ false
    → b ≢ a
    → NoRepeat (xs ++ a ∷ b ∷ [])
NoRepeat-pair [] a b n ha hb ne = (ground (arith, eq_iff b a), (refl, tt))
NoRepeat-pair (x ∷ xs) a b n ha hb ne = (
  ground
      (arith, elem-append x xs (a ∷ b ∷ []), eq_iff x a, eq_iff x b, eq_iff a x, eq_iff b x, n.0),
  NoRepeat-pair xs a b n.1 (ground arith) (ground arith) ne,
)

-- The users of the matches, in order.
abbrev pub players : List Match → List String
players [] = []
players (m ∷ ms) = m.first.user_id ∷ m.second.user_id ∷ players ms

pub players-snoc :
    (ms : List Match) (m : Match)
    → players (ms ++ m ∷ []) ≡ players ms ++ m.first.user_id ∷ m.second.user_id ∷ []
players-snoc [] m = refl
players-snoc (x ∷ ms) m = rw (players-snoc ms m) refl

-- A match of two entries with `P` whose Elo is close.
abbrev pub Fair : (QueueEntry → Type 0) → Match → Type 0
Fair P m = P m.first × P m.second × (is_close m.first m.second ≡ true)

abbrev pub left_over : List String → List QueueEntry → List QueueEntry
left_over used queue = filter (λ e. not (elem e.user_id used)) queue

pub left_over_in :
    (used : List String) (a : QueueEntry) (queue : List QueueEntry)
    → elem a.user_id used ≡ true
    → left_over used (a ∷ queue) ≡ left_over used queue
left_over_in used a queue h = rw h refl

-- What is left of the rest of the queue is not close to `a`.
pub far_left :
    (a : QueueEntry) (used used' : List String) (queue : List QueueEntry)
    → ((u : String) → elem u used ≡ true → elem u used' ≡ true)
    → All (λ b. (elem b.user_id used || not (is_close a b)) ≡ true) queue
    → All (λ b. is_close a b ≡ false) (left_over used' queue)
far_left a used used' [] kept h = tt
far_left a used used' (b ∷ queue) kept h = elim (Bool-cases (elem b.user_id used')) [
  | inl there ↦ rw there (far_left a used used' queue kept h.1)
  | inr new ↦ rw new (ground (arith, kept b.user_id, h.0), far_left a used used' queue kept h.1)
]
