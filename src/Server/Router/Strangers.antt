-- ===== src/Server/Router/Strangers.antt =====
-- What comes over a connection without a user, and what is no message.
use chess_kung_fu.Prelude.{
  ℕ, ◌≡◌, refl, ◌∙◌, Option, none, some, string_eq, ◌⊎◌, inl, inr, Bool-cases, eq_of_==, if_false,
  ◌==◌, if-elim, subst, if◌then◌else◌,
}
use chess_kung_fu.Model.{Text, text, text_eq}
use chess_kung_fu.Server.Protocol.{
  Json, str, object, Fields, get, missing_type, Parsed, parsed, refused, decode, value, login, auth,
  is_empty,
}
use chess_kung_fu.Server.Protocol.Make.{make_error}
use chess_kung_fu.Server.Router.Changes.{Parsed-cases}
use chess_kung_fu.Server.Router.{
  App, Outside, send, protocol_error, answer_refusal, answer_error, current_user, dispatch_authed,
  dispatch, type_text_of, handle_raw,
}

-- A refusal that is a `ProtocolError`, with its text.
abbrev Told : Outside → Parsed Fields → Type 0
Told o (parsed d) = Unit
Told o (refused e) = (reason : Text) × (protocol_error o e ≡ some reason)

decode-Told : (o : Outside) (raw : Option Json) → Told o (decode raw)
unfolding decode protocol_error
decode-Told o none = (_, refl)
decode-Told o (some (object d)) =
    elim (get "type" d)
      as (λ t. Told o (elim t [
        | str s ↦ if is_empty s then refused missing_type else parsed d
        | _ ↦ refused missing_type
      ])) [ str s ↦ if-elim (Told o) (is_empty s) (_, refl) tt | _ ↦ (_, refl) ]
decode-Told o (some _) = (_, refl)

-- Whether a message is for a handler that asks for no user.
abbrev pub IsPublic : Fields → Type 0
IsPublic d = (type_text_of d ≡ text (value login)) ⊎ (type_text_of d ≡ text (value auth))

stranger_dispatch :
    (o : Outside) (s : App) (c : ℕ) (d : Fields)
    → current_user s c ≡ none
    → IsPublic d
      ⊎ (dispatch o s c (type_text_of d) d ≡ answer_error s c (text "please login first"))
unfolding dispatch dispatch_authed
stranger_dispatch o s c d nobody = elim (Bool-cases (type_text_of d == text (value login))) [
  | inl logs_in ↦ inl (inl (eq_of_== logs_in))
  | inr other ↦ (elim (Bool-cases (type_text_of d == text (value auth))) [
    | inl shows_token ↦ inl (inr (eq_of_== shows_token))
    | inr private ↦
        inr (if_false _ _ _ other ∙ if_false _ _ _ private ∙ rw (nobody, dispatch_authed) refl)
  ])
]

-- Over a connection without a user, whatever is sent is a message to `login` or `auth`, or it
-- changes nothing, and one error answers it, over this connection.
pub handle_raw_stranger :
    (o : Outside) (s : App) (c : ℕ) (raw : Option Json)
    → current_user s c ≡ none
    → ((d : Fields) × (decode raw ≡ parsed d) × IsPublic d)
      ⊎ ((reason : Text) × (handle_raw o s c raw ≡ (s, send s c (make_error reason))))
unfolding handle_raw answer_refusal
handle_raw_stranger o s c raw nobody = elim (Parsed-cases (decode raw)) [
  | inl (e, bad) ↦
      let (reason, told) = subst (Told o) bad (decode-Told o raw) in
      inr (reason, rw (bad, told, handle_raw, answer_refusal) refl)
  | inr (d, fine) ↦ (elim (stranger_dispatch o s c d nobody) [
    | inl public ↦ inl (d, fine, public)
    | inr answered ↦ inr (text "please login first", rw (fine, answered, handle_raw) refl)
  ])
]
