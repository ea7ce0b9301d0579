-- ===== src/Tests/Server.antt =====
-- The witnesses of the queue and of the protocol.
use chess_kung_fu.Prelude.{ℕ, ◌≢◌, Option, none, some, List, [], ◌∷◌, String, string_eq, pos, arith}
use package.text.Mathlib.TextEquality.{eq_iff}
use chess_kung_fu.Model.{text, text_eq}
use chess_kung_fu.Server.Matchmaking.{QueueEntry, try_match}
use chess_kung_fu.Server.Matchmaking.Rounds.{IsUnique}
use chess_kung_fu.Server.Matchmaking.Pairs.{Matched, try_match_lem}
use chess_kung_fu.Server.Protocol.{refused, Builtins, type_error}
use chess_kung_fu.Server.Protocol.Messages.{Message, login_message, message_to_dict}
use chess_kung_fu.Server.Protocol.Wire.{Decodes, message-Decodes}

abbrev entry : String → ℕ → QueueEntry
entry user_id elo = record { user_id = user_id; elo = pos elo; enqueued_at = 0 }

abbrev two_users : List QueueEntry
two_users = entry "ann" 1200 ∷ entry "bob" 1250 ∷ []

apart : ◌≢◌ {A = String} "bob" "ann"
apart e = ground (arith, eq_iff "bob" "ann")

two_users-IsUnique : IsUnique two_users
two_users-IsUnique = ((apart, tt), (tt, tt))

-- Every room is granted, under the name of the first user.
abbrev grant : ℕ → String → String → Option (ℕ × String)
grant n a b = some (n, a)

try_match_lem_example :
    Matched ℕ two_users (try_match grant 0 two_users).1 (try_match grant 0 two_users).0
try_match_lem_example = try_match_lem grant 0 two_users two_users-IsUnique

-- Some behaviour for the stray values.
abbrev builtins : Builtins
builtins = record { repr = λ v. []; read_int = λ t. none; dict_of_items = λ v. refused type_error }

abbrev ann : Message
ann = login_message (record { username = text "ann"; password = text "x" })

message-Decodes_example : Decodes ann (message_to_dict ann)
message-Decodes_example = message-Decodes ann
