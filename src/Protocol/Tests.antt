-- ===== src/Protocol/Tests.antt =====
-- Names that are valid, and names that are not.
use xmq.Base.{◌≡◌, ◌⊎◌, refl, false, some, ◌++◌}
use xmq.Js.Text.{Text, lit, ◌===◌}
use xmq.Js.Uri.{encode_uri_component}
use xmq.Helpers.Graphite.{sanitize_graphite_key}
use xmq.Protocol.{is_valid_name, is_valid_topic_name, is_valid_channel_name}
use xmq.Protocol.Names.{valid_name_lem}

valid_name_lem_example :
    ((encode_uri_component (lit "a.b#ephemeral") ≡ some (lit "a.b#ephemeral"))
      × (sanitize_graphite_key (lit "a.b#ephemeral") ≡ lit "a.b#ephemeral"))
    ⊎ ((t : Text) × (lit "a.b#ephemeral" ≡ t ++ lit "#ephemeral")
        × (encode_uri_component (lit "a.b#ephemeral") ≡ some (t ++ lit "%23ephemeral"))
        × (sanitize_graphite_key (lit "a.b#ephemeral") ≡ t ++ lit "ephemeral"))
unfolding is_valid_topic_name is_valid_name ◌===◌
valid_name_lem_example = valid_name_lem (lit "a.b#ephemeral") refl

test_space : is_valid_channel_name (lit "a b") ≡ false
unfolding is_valid_channel_name is_valid_name ◌===◌
test_space = refl

test_suffix_alone : is_valid_channel_name (lit "#ephemeral") ≡ false
unfolding is_valid_channel_name is_valid_name ◌===◌
test_suffix_alone = refl

test_twice : is_valid_channel_name (lit "a#ephemeral#ephemeral") ≡ false
unfolding is_valid_channel_name is_valid_name ◌===◌
test_twice = refl
