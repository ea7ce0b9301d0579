-- ===== src/Server/Connections/Bindings.antt =====
-- Which connection is whose.
use chess_kung_fu.Prelude.{
  ℕ, ◌≡◌, ◌≢◌, refl, ◌∙◌, sym, ap, subst, not, ◌&&◌, Option, none, some, [], ◌∷◌, ◌==◌, nat_eq,
  String, string_eq, Dict, lookup, erase, insert-cases, insert_here, erase-cases, ℤ, arith,
  Option-cases, inl, inr, ◌⊎◌, if_true, if_false, ==-refl, if-elim, nat_beq_iff,
}
use mathlib.Core.Option.{some_inj, none-ne-some}
use chess_kung_fu.Model.{Text}
use chess_kung_fu.Server.Connections.{
  ConnectionContext, ConnectionRegistry, put_context, drop_old, bind_user, is_context, forget_user,
  remove, send_to_user,
}

-- The connection that a user is looked up at knows that user, and no other.
abbrev pub IsBound : ConnectionRegistry → Type 0
IsBound s = (u : String) (c : ℕ) → lookup u s.by_user ≡ some c → (s.contexts c).user_id ≡ some u

put_here :
    (contexts : ℕ → ConnectionContext) (c : ℕ) (x : ConnectionContext)
    → put_context contexts c x c ≡ x
put_here contexts c x = if_true (c == c) x (contexts c) (==-refl c)

put_other :
    (contexts : ℕ → ConnectionContext) (c d : ℕ) (x : ConnectionContext)
    → d ≢ c
    → put_context contexts c x d ≡ contexts d
put_other contexts c d x apart = if_false (d == c) x (contexts d) (ground (arith, nat_beq_iff d c))

drop_other :
    (contexts : ℕ → ConnectionContext) (o : Option ℕ) (c d : ℕ)
    → ((old : ℕ) → o ≡ some old → d ≢ old)
    → drop_old contexts o c d ≡ contexts d
drop_other contexts none c d apart = refl
drop_other contexts (some old) c d apart =
    if-elim (λ (f : ℕ → ConnectionContext). f d ≡ contexts d)
      ((contexts old).websocket == (contexts c).websocket) refl
      (put_other contexts old d (record (contexts old) { user_id = none }) (apart old refl))

-- Who such a connection knows.
only_user :
    {o : Option String} {user_id u : String}
    → (o ≡ none) ⊎ (o ≡ some user_id)
    → o ≡ some u
    → u ≡ user_id
only_user {o} {user_id} {u} (inl nobody) h = absurd (none-ne-some u (sym nobody ∙ h))
only_user (inr known) h = some_inj.0 (sym h ∙ known)

-- A connection that knew no user, or the same one already, is bound to the user.
pub bind_user-IsBound :
    (s : ConnectionRegistry) (c : ℕ) (user_id : String) (username : Text) (elo : ℤ) (token : Text)
    → IsBound s
    → ((s.contexts c).user_id ≡ none) ⊎ ((s.contexts c).user_id ≡ some user_id)
    → IsBound (bind_user s c user_id username elo token)
unfolding bind_user
bind_user-IsBound s c user_id username elo token v before = λ u d h.
    elim (insert-cases user_id u c s.by_user) [
      | inl (same, here) ↦
          subst (λ x. ((bind_user s c user_id username elo token).contexts x).user_id ≡ some u)
            (some_inj.0 (sym here ∙ h))
            (ap (λ (x : ConnectionContext). x.user_id)
                (put_here (drop_old s.contexts (lookup user_id s.by_user) c) c _)
              ∙ ap some (sym same))
      | inr (other, there) ↦
          let at_d : lookup u s.by_user ≡ some d = sym there ∙ h in
          let knows = v u d at_d in
          let apart : d ≢ c =
            λ e. other (only_user before (ap (λ x. (s.contexts x).user_id) (sym e) ∙ knows)) in
          ap (λ (x : ConnectionContext). x.user_id)
            (put_other (drop_old s.contexts (lookup user_id s.by_user) c) c d _ apart
              ∙ drop_other s.contexts (lookup user_id s.by_user) c d (λ old at_old e. other (
                  some_inj.0
                    (sym knows ∙ ap (λ x. (s.contexts x).user_id) e ∙ v user_id old at_old))))
          ∙ knows
    ]

erase-some :
    (by_user : Dict String ℕ) (w u : String) (d : ℕ)
    → lookup u (erase w by_user) ≡ some d
    → lookup u by_user ≡ some d
erase-some by_user w u d h = elim (erase-cases w u by_user) [
  | inl (_, nothing) ↦ absurd (none-ne-some d (sym nothing ∙ h))
  | inr (_, stays) ↦ sym stays ∙ h
]

forget_some :
    (by_user : Dict String ℕ) (o : Option String) (c : ℕ) (u : String) (d : ℕ)
    → lookup u (forget_user by_user o c) ≡ some d
    → lookup u by_user ≡ some d
forget_some by_user none c u d = λ h. h
forget_some by_user (some w) c u d =
    if-elim (λ (b : Dict String ℕ). lookup u b ≡ some d → lookup u by_user ≡ some d)
      (not (w == "") && is_context (lookup w by_user) c) (erase-some by_user w u d) (λ h. h)

-- A connection that goes leaves the others bound.
pub remove-IsBound :
    (s : ConnectionRegistry) (websocket : ℕ) → IsBound s → IsBound (remove s websocket).0
unfolding remove
remove-IsBound s websocket v = elim (Option-cases (lookup websocket s.by_ws)) [
  | inl nothing ↦ rw (nothing, remove) v
  | inr (c, here) ↦
      rw (here, remove) (λ u d h. v u d (forget_some s.by_user (s.contexts c).user_id c u d h))
]

sent_to :
    (s : ConnectionRegistry) (u message : String) (c : ℕ)
    → lookup u s.by_user ≡ some c
    → send_to_user s u message ≡ ((s.contexts c).websocket, message) ∷ []
unfolding send_to_user
sent_to s u message c h = rw (h, send_to_user) refl

-- A connection that knows another user is bound to a second one: the first is still looked up at
-- it, so what is sent to the first goes to the connection of the second.
pub bind_user_twice :
    (s : ConnectionRegistry) (c : ℕ) (first user_id : String) (username : Text) (elo : ℤ)
    (token : Text) (message : String)
    → lookup first s.by_user ≡ some c
    → first ≢ user_id
    → let s' = bind_user s c user_id username elo token in
      ((s'.contexts c).user_id ≡ some user_id)
      × (send_to_user s' first message ≡ send_to_user s' user_id message)
unfolding bind_user
bind_user_twice s c first user_id username elo token message here apart =
    let s' = bind_user s c user_id username elo token in
    let kept : lookup first s'.by_user ≡ some c = elim (insert-cases user_id first c s.by_user) [
      | inl (same, _) ↦ absurd (apart same)
      | inr (_, stays) ↦ stays ∙ here
    ] in
    (
      ap (λ (x : ConnectionContext). x.user_id)
          (put_here (drop_old s.contexts (lookup user_id s.by_user) c) c _),
      sent_to s' first message c kept
          ∙ sym (sent_to s' user_id message c (insert_here user_id c s.by_user)),
    )
