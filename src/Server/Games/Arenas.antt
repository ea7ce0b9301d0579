-- ===== src/Server/Games/Arenas.antt =====
-- What the games' clock, forfeits and the Elo keep.
use chess_kung_fu.Prelude.{
  ◌≡◌, refl, sym, ap, subst, ◌∙◌, not, ◌&&◌, true, some, [], ◌∷◌, String, string_eq, Dict, lookup,
  insert, insert-cases, Each, Each-insert, Each-lookup, ℤ, if-elim, inl, inr, ◌⊎◌, Option-cases,
}
use mathlib.Core.Option.{none-ne-some}
use chess_kung_fu.Model.{Color}
use chess_kung_fu.Engine.{GameEngine, update_game_clock}
use chess_kung_fu.Engine.Valid.{IsValid, update_game_clock-IsValid}
use chess_kung_fu.Server.Rooms.{Room, RoomService, mark_elo_updated, is_elo_updated}
use chess_kung_fu.Server.Rooms.Service.{IsHoused}
use chess_kung_fu.Server.Rooms.Departures.{mark_elo_updated-IsHoused}
use chess_kung_fu.Server.Games.{forfeit}
use chess_kung_fu.Server.Games.Endings.{
  Arena, Broadcasts, apply_elo, tick_ms, tick_room, tick_rooms, tick_all, force_forfeit,
}
use chess_kung_fu.Server.Games.Ratings.{IsSettled, apply_elo-IsSettled, force_forfeit-IsSettled}
use chess_kung_fu.Server.Games.Forfeits.{apply_elo-engines, apply_elo-rooms, force_forfeit-cases}

-- Every room has an engine.
abbrev pub IsManned : Dict String Room → Dict String GameEngine → Type 0
IsManned rooms engines =
    (rid : String) (room : Room)
    → lookup rid rooms ≡ some room
    → (e : GameEngine) × (lookup rid engines ≡ some e)

-- The rooms are sound, every engine is valid, every room has one, and no game is rated twice.
pub record IsPlaying (a : Arena) : Type 0 where
  pub housed : IsHoused a.rooms.rooms a.rooms.user_room
  pub valid : Each IsValid a.engines
  pub manned : IsManned a.rooms.rooms a.engines
  pub settled : IsSettled a

-- The rooms after one of them is marked.
mark_elo_updated-rooms :
    (s : RoomService) (r x : String) (room : Room)
    → lookup x (mark_elo_updated s r).rooms ≡ some room
    → (was : Room) × (lookup x s.rooms ≡ some was)
unfolding mark_elo_updated
mark_elo_updated-rooms s r x room = elim (Option-cases (lookup r s.rooms)) [
  | inl nowhere ↦ rw (nowhere, mark_elo_updated) (λ h. (room, h))
  | inr (old, there) ↦
      rw (there, mark_elo_updated)
        (λ h. elim (insert-cases r x (record old { elo_updated = true }) s.rooms) [
          | inl (same, _) ↦ (old, ap (λ z. lookup z s.rooms) same ∙ there)
          | inr (_, stays) ↦ (room, sym stays ∙ h)
        ])
]

-- An engine of a room in place of another, or of none.
pub insert-IsManned :
    (rooms : Dict String Room) (engines : Dict String GameEngine) (r : String) (e : GameEngine)
    → IsManned rooms engines
    → IsManned rooms (insert r e engines)
insert-IsManned rooms engines r e manned x room h = elim (insert-cases r x e engines) [
  | inl (_, here) ↦ (e, here)
  | inr (_, stays) ↦ let (f, there) = manned x room h in (f, stays ∙ there)
]

-- Rooms that are the same but for a mark.
marked-Sound :
    (s t : RoomService) (r : String) (engines : Dict String GameEngine)
    → (t ≡ s) ⊎ (t ≡ mark_elo_updated s r)
    → IsHoused s.rooms s.user_room
    → IsManned s.rooms engines
    → IsHoused t.rooms t.user_room × IsManned t.rooms engines
marked-Sound s t r engines (inl same) h m =
    subst (λ (x : RoomService). IsHoused x.rooms x.user_room × IsManned x.rooms engines) (sym same)
      (h, m)
marked-Sound s t r engines (inr marked) h m =
    subst (λ (x : RoomService). IsHoused x.rooms x.user_room × IsManned x.rooms engines)
      (sym marked)
      (
        mark_elo_updated-IsHoused s r h,
        λ x room at. let (was, there) = mark_elo_updated-rooms s r x room at in m x was there,
      )

forfeit-IsValid : (e : GameEngine) (winner : Color) → IsValid e → IsValid (forfeit e winner)
unfolding forfeit
forfeit-IsValid e winner v = if-elim IsValid e.game_over v (record {
  placed = v.placed;
  flying = v.flying;
  pilots = v.pilots;
  ids = v.ids;
  decided = inl (refl, λ h. none-ne-some winner (sym h));
})

module _ (calc_elo : ℤ → ℤ → ℤ × ℤ) where
  apply_elo-IsPlaying :
      (a : Arena) (r : String) (e : GameEngine)
      → IsPlaying a
      → IsPlaying (apply_elo calc_elo a r e).0
  apply_elo-IsPlaying a r e v =
      let same = apply_elo-engines calc_elo a r e in
      let (housed, manned) =
        marked-Sound a.rooms (apply_elo calc_elo a r e).0.rooms r a.engines
          (apply_elo-rooms calc_elo a r e) v.housed v.manned in
      record {
        housed = housed;
        valid = subst (Each IsValid) (sym same) v.valid;
        manned = subst (IsManned (apply_elo calc_elo a r e).0.rooms.rooms) (sym same) manned;
        settled = apply_elo-IsSettled calc_elo a r e v.settled;
      }

  -- A valid engine is put in the place of the room's.
  insert-IsPlaying :
      (a : Arena) (r : String) (e : GameEngine)
      → IsPlaying a
      → IsValid e
      → IsPlaying (record a { engines = insert r e a.engines })
  insert-IsPlaying a r e v ok = record {
    housed = v.housed;
    valid = Each-insert IsValid r e a.engines ok v.valid;
    manned = insert-IsManned a.rooms.rooms a.engines r e v.manned;
    settled = v.settled;
  }

  tick_room-IsPlaying :
      (a : Arena) (r : String) (e : GameEngine)
      → IsPlaying a
      → IsValid e
      → IsPlaying (tick_room calc_elo a r e).0
  unfolding tick_room
  tick_room-IsPlaying a r e v ok =
      let e' = update_game_clock e tick_ms in
      let a' : Arena = record a { engines = insert r e' a.engines } in
      let v' = insert-IsPlaying a r e' v (update_game_clock-IsValid e tick_ms ok) in
      if-elim (λ (x : Arena × Broadcasts). IsPlaying x.0)
        (e'.game_over && not (is_elo_updated a'.rooms r)) (apply_elo-IsPlaying a' r e' v') v'

  tick_rooms-IsPlaying :
      (a : Arena) (engines : Dict String GameEngine)
      → IsPlaying a
      → Each IsValid engines
      → IsPlaying (tick_rooms calc_elo a engines).0
  unfolding tick_rooms
  tick_rooms-IsPlaying a [] v ok = v
  tick_rooms-IsPlaying a ((r, e) ∷ engines) v ok =
      tick_rooms-IsPlaying (tick_room calc_elo a r e).0 engines (tick_room-IsPlaying a r e v ok.0)
        ok.1

  pub tick_all-IsPlaying : (a : Arena) → IsPlaying a → IsPlaying (tick_all calc_elo a).0
  unfolding tick_all
  tick_all-IsPlaying a v = tick_rooms-IsPlaying a a.engines v v.valid

  pub force_forfeit-IsPlaying :
      (a : Arena) (r loser : String) → IsPlaying a → IsPlaying (force_forfeit calc_elo a r loser).0
  force_forfeit-IsPlaying a r loser v = elim (force_forfeit-cases calc_elo a r loser) [
    | inl nothing ↦ subst IsPlaying (sym nothing) v
    | inr (e, winner, there, ended, marked) ↦
        let b = (force_forfeit calc_elo a r loser).0 in
        let (housed, manned) = marked-Sound a.rooms b.rooms r a.engines marked v.housed v.manned in
        record {
          housed = housed;
          valid = subst (Each IsValid) (sym ended) (
              Each-insert IsValid r (forfeit e winner) a.engines
                (forfeit-IsValid e winner (Each-lookup IsValid r a.engines v.valid there)) v.valid);
          manned =
              subst (IsManned b.rooms.rooms) (sym ended)
                (insert-IsManned b.rooms.rooms a.engines r (forfeit e winner) manned);
          settled = force_forfeit-IsSettled calc_elo a r loser v.settled;
        }
  ]
