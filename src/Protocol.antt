-- ===== src/Protocol.antt =====
-- internal/protocol/names.go: the names that a topic and a channel may have. A name is its bytes, and the
-- regular expression `^[.a-zA-Z0-9_-]+(#ephemeral)?$` is read from left to right.
mod Tests
pub mod Names
use xmq.Base.{
  ℕ, Bool, true, false, ◌&&◌, ◌||◌, List, [], ◌∷◌, leb, ltb, ◌==◌, if◌then◌else◌, length,
}
use xmq.Js.Text.{Text, lit, ◌===◌}

unfoldable pub is_name_char : ℕ → Bool
is_name_char c =
    (c == b'.')
    || ((leb b'a' c && leb c b'z')
        || ((leb b'A' c && leb c b'Z')
            || ((leb b'0' c && leb c b'9') || ((c == b'_') || (c == b'-')))))

abbrev pub ephemeral : Text
ephemeral = lit "#ephemeral"

-- What may follow the first character.
unfoldable pub is_name_rest : Text → Bool
unfolding is_name_char ◌===◌
is_name_rest [] = true
is_name_rest (c ∷ s) = (is_name_char c && is_name_rest s) || ((c ∷ s) === ephemeral)

unfoldable pub matches_name : Text → Bool
unfolding is_name_char is_name_rest
matches_name [] = false
matches_name (c ∷ s) = is_name_char c && is_name_rest s

unfoldable pub is_valid_name : Text → Bool
unfolding matches_name
is_valid_name name =
    if ltb 64 (length name) || ltb (length name) 1 then false else matches_name name

unfoldable pub is_valid_topic_name : Text → Bool
unfolding is_valid_name
is_valid_topic_name name = is_valid_name name

unfoldable pub is_valid_channel_name : Text → Bool
unfolding is_valid_name
is_valid_channel_name name = is_valid_name name
