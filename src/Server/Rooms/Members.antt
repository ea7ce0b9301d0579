-- ===== src/Server/Rooms/Members.antt =====
-- The members of a room: what each operation of `RoomService` does to the players' seats.
use chess_kung_fu.Prelude.{
  ℕ, ◌+◌, ◌≤◌, ◌≡◌, ◌≢◌, refl, ◌∙◌, sym, false, none, some, [], arith, ◌==◌, string_eq, nat_eq,
  String, Dict, lookup, insert, erase, lookup-insert, HasUniqueKeys, insert-HasUniqueKeys,
  erase-HasUniqueKeys, count, count-insert_new, count-insert_same, count-erase, if_false, ◌∷◌,
}
use text.Mathlib.TextEquality.{eq_iff}
use chess_kung_fu.Server.Rooms.{
  as_white, as_black, RoomMember, new_member, is_player, is_white, is_black, player_count,
  joining_role,
}

abbrev pub whites : Dict String RoomMember → ℕ
whites members = count (λ m. is_white m.role) members

abbrev pub blacks : Dict String RoomMember → ℕ
blacks members = count (λ m. is_black m.role) members

-- One white player, at most one black, any number of viewers.
pub record IsSeated (members : Dict String RoomMember) : Type 0 where
  pub unique : HasUniqueKeys members
  pub one_white : whites members ≡ 1
  pub one_black : blacks members ≤ 1

player_count-eq :
    (members : Dict String RoomMember) → player_count members ≡ whites members + blacks members
player_count-eq [] = refl
player_count-eq ((uid, m) ∷ members) = ground (arith, player_count-eq members)

-- A user who comes to a seated room takes the black seat if it is free, else views.
pub join-IsSeated :
    (user_id : String) (members : Dict String RoomMember)
    → lookup user_id members ≡ none
    → IsSeated members
    → IsSeated (insert user_id (new_member user_id (joining_role (player_count members))) members)
join-IsSeated user_id members new s =
    let m = new_member user_id (joining_role (player_count members)) in
    record {
      unique = insert-HasUniqueKeys user_id m members s.unique;
      one_white = ground (
        arith,
        s.one_white,
        s.one_black,
        player_count-eq members,
        count-insert_new (λ x. is_white x.role) user_id m members new,
      );
      one_black = ground (
        arith,
        s.one_white,
        s.one_black,
        player_count-eq members,
        count-insert_new (λ x. is_black x.role) user_id m members new,
      );
    }

-- A change to a member that leaves the role alone leaves the seats alone.
pub update-IsSeated :
    (user_id : String) (old m : RoomMember) (members : Dict String RoomMember)
    → lookup user_id members ≡ some old
    → m.role ≡ old.role
    → IsSeated members
    → IsSeated (insert user_id m members)
update-IsSeated user_id old m members here same s = record {
  unique = insert-HasUniqueKeys user_id m members s.unique;
  one_white =
      count-insert_same (λ x. is_white x.role) user_id m old members here (rw same) ∙ s.one_white;
  one_black =
      rw (count-insert_same (λ x. is_black x.role) user_id m old members here (rw same))
        s.one_black;
}

-- A viewer who goes leaves the seats alone.
pub erase-IsSeated :
    (user_id : String) (old : RoomMember) (members : Dict String RoomMember)
    → lookup user_id members ≡ some old
    → is_player old.role ≡ false
    → IsSeated members
    → IsSeated (erase user_id members)
erase-IsSeated user_id old members here out s = record {
  unique = erase-HasUniqueKeys user_id members s.unique;
  one_white =
      count-erase (λ x. is_white x.role) user_id old members s.unique here (ground arith)
      ∙ s.one_white;
  one_black =
      rw (count-erase (λ x. is_black x.role) user_id old members s.unique here (ground arith))
        s.one_black;
}

pub creator-IsSeated : (u : String) → IsSeated (insert u (new_member u as_white) [])
unfolding insert lookup
creator-IsSeated u = record { unique = (refl, tt); one_white = refl; one_black = omega arith }

apart_sym : (a b : String) → a ≢ b → b ≢ a
apart_sym a b h e = h (sym e)

not_first : (a b : String) → a ≢ b → lookup b (insert a (new_member a as_white) []) ≡ none
unfolding lookup
not_first a b apart =
    lookup-insert a b (new_member a as_white) []
    ∙ if_false (◌==◌ {A = String} b a) (some (new_member a as_white)) (lookup b [])
        (ground (arith, eq_iff b a, apart_sym a b apart))

no_blacks : (a : String) → blacks (insert a (new_member a as_white) []) ≡ 0
unfolding insert
no_blacks a = refl

pub pair-IsSeated :
    (a b : String)
    → a ≢ b
    → IsSeated (insert b (new_member b as_black) (insert a (new_member a as_white) []))
pair-IsSeated a b apart =
    let first = insert a (new_member a as_white) [] in
    let m = new_member b as_black in
    let absent : lookup b first ≡ none = not_first a b apart in
    record {
      unique = insert-HasUniqueKeys b m first (creator-IsSeated a).unique;
      one_white =
          count-insert_new (λ x. is_white x.role) b m first absent
          ∙ omega (arith, (creator-IsSeated a).one_white);
      one_black =
          rw (count-insert_new (λ x. is_black x.role) b m first absent)
            (omega (arith, no_blacks a));
    }
