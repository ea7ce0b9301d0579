-- ===== src/Server/Games/Players.antt =====
-- The players that `get_room_players` of Server/application/room_service.py finds, in a room with
-- its seats in order.
use chess_kung_fu.Prelude.{
  ◌≤◌, ◌≡◌, refl, ◌∙◌, sym, ap, true, false, Option, some, [], ◌∷◌, ◌==◌, String, string_eq, Dict,
  lookup, HasUniqueKeys, Bool-cases, inl, inr, if_true, if_false, if-elim, if-cases, arith,
  eq_of_==,
}
use mathlib.Core.Option.{some_inj, none-ne-some}
use chess_kung_fu.Server.Rooms.{RoomMember, is_white, is_black, last_players}
use chess_kung_fu.Server.Rooms.Members.{whites, blacks}
use chess_kung_fu.Server.Games.Endings.{is_user}

-- A member who is White counts as one.
counted_white :
    (members : Dict String RoomMember) (u : String) (m : RoomMember)
    → lookup u members ≡ some m
    → is_white m.role ≡ true
    → 1 ≤ whites members
unfolding lookup
counted_white [] u m h w = absurd (none-ne-some m h)
counted_white ((v, n) ∷ members) u m h w = ground (arith, counted_white members u m)

counted_black :
    (members : Dict String RoomMember) (u : String) (m : RoomMember)
    → lookup u members ≡ some m
    → is_black m.role ≡ true
    → 1 ≤ blacks members
unfolding lookup
counted_black [] u m h w = absurd (none-ne-some m h)
counted_black ((v, n) ∷ members) u m h w = ground (arith, counted_black members u m)

-- Without a White, the loop of `get_room_players` keeps the one that it has.
no_white :
    (members : Dict String RoomMember) (a b : Option String)
    → whites members ≡ 0
    → (last_players members (a, b)).0 ≡ a
unfolding last_players
no_white [] a b h = refl
no_white ((v, n) ∷ members) a b h =
    if-cases (λ (p : Option String × Option String). (last_players members p).0 ≡ a)
      (is_white n.role) (λ w. absurd (ground arith))
      (λ w.
        if-elim (λ (p : Option String × Option String). (last_players members p).0 ≡ a)
          (is_black n.role) (no_white members a (some v) (ground arith))
          (no_white members a b (ground arith)))

no_black :
    (members : Dict String RoomMember) (a b : Option String)
    → blacks members ≡ 0
    → (last_players members (a, b)).1 ≡ b
unfolding last_players
no_black [] a b h = refl
no_black ((v, n) ∷ members) a b h =
    if-cases (λ (p : Option String × Option String). (last_players members p).1 ≡ b)
      (is_white n.role) (λ w. no_black members (some v) b (ground arith))
      (λ w.
        if-cases (λ (p : Option String × Option String). (last_players members p).1 ≡ b)
          (is_black n.role) (λ k. absurd (ground arith)) (λ k. no_black members a b (ground arith)))

-- Whether the last White found is the user: so for a White who is the only one.
pub white_found :
    (members : Dict String RoomMember) (a b : Option String) (u : String) (m : RoomMember)
    → lookup u members ≡ some m
    → is_white m.role ≡ true
    → whites members ≤ 1
    → (last_players members (a, b)).0 ≡ some u
unfolding last_players lookup
white_found [] a b u m h w one = absurd (none-ne-some m h)
white_found ((v, n) ∷ members) a b u m h w one =
    if-cases (λ (p : Option String × Option String). (last_players members p).0 ≡ some u)
      (is_white n.role)
      (λ here. elim (Bool-cases (u == v)) [
        | inl same ↦
            no_white members (some v) b (ground arith)
            ∙ ap some (sym (eq_of_== {a = u} {b = v} same))
        | inr other ↦ absurd (ground (arith, counted_white members u m))
      ])
      (λ w'. elim (Bool-cases (u == v)) [
        | inl same ↦ absurd (ground arith)
        | inr other ↦
            let rest : lookup u members ≡ some m =
              sym (if_false (u == v) (some n) (lookup u members) other) ∙ h in
            if-elim (λ (p : Option String × Option String). (last_players members p).0 ≡ some u)
              (is_black n.role) (white_found members a (some v) u m rest w (ground arith))
              (white_found members a b u m rest w (ground arith))
      ])

pub black_found :
    (members : Dict String RoomMember) (a b : Option String) (u : String) (m : RoomMember)
    → lookup u members ≡ some m
    → is_black m.role ≡ true
    → blacks members ≤ 1
    → (last_players members (a, b)).1 ≡ some u
unfolding last_players lookup
black_found [] a b u m h k one = absurd (none-ne-some m h)
black_found ((v, n) ∷ members) a b u m h k one = elim (Bool-cases (u == v)) [
  | inl same ↦
      let found : n ≡ m =
        some_inj.0 (sym (if_true (u == v) (some n) (lookup u members) same) ∙ h) in
      let role = ap (λ (x : RoomMember). is_black x.role) found ∙ k in
      if-cases (λ (p : Option String × Option String). (last_players members p).1 ≡ some u)
        (is_white n.role) (λ w. absurd (ground arith))
        (λ w.
          if-cases (λ (p : Option String × Option String). (last_players members p).1 ≡ some u)
            (is_black n.role)
            (λ here.
              no_black members a (some v) (ground arith)
              ∙ ap some (sym (eq_of_== {a = u} {b = v} same)))
            (λ k'. absurd (ground arith)))
  | inr other ↦
      let rest : lookup u members ≡ some m =
        sym (if_false (u == v) (some n) (lookup u members) other) ∙ h in
      if-cases (λ (p : Option String × Option String). (last_players members p).1 ≡ some u)
        (is_white n.role) (λ w. black_found members (some v) b u m rest k (ground arith))
        (λ w.
          if-cases (λ (p : Option String × Option String). (last_players members p).1 ≡ some u)
            (is_black n.role) (λ k'. absurd (ground (arith, counted_black members u m)))
            (λ k'. black_found members a b u m rest k (ground arith)))
]

-- A user who is not White is not found as White.
pub not_found :
    (members : Dict String RoomMember) (a b : Option String) (u : String)
    → HasUniqueKeys members
    → ((m : RoomMember) → lookup u members ≡ some m → is_white m.role ≡ false)
    → is_user a u ≡ false
    → is_user (last_players members (a, b)).0 u ≡ false
unfolding last_players lookup
not_found [] a b u d role apart = apart
not_found ((v, n) ∷ members) a b u d role apart =
    let rest : (m : RoomMember) → lookup u members ≡ some m → is_white m.role ≡ false = λ m h.
      elim (Bool-cases (u == v)) [
        | inl same ↦ absurd (
            none-ne-some m
              (sym (d.0) ∙ ap (λ z. lookup z members) (sym (eq_of_== {a = u} {b = v} same)) ∙ h))
        | inr other ↦ role m (if_false (u == v) (some n) (lookup u members) other ∙ h)
      ] in
    if-cases (λ (p : Option String × Option String). is_user (last_players members p).0 u ≡ false)
      (is_white n.role)
      (λ w. elim (Bool-cases (u == v)) [
        | inl same ↦
            absurd (ground (arith, role n (if_true (u == v) (some n) (lookup u members) same)))
        | inr other ↦ not_found members (some v) b u d.1 rest other
      ])
      (λ w.
        if-elim
          (λ (p : Option String × Option String). is_user (last_players members p).0 u ≡ false)
          (is_black n.role) (not_found members a (some v) u d.1 rest apart)
          (not_found members a b u d.1 rest apart))
