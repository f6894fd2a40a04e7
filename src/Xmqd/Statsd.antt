-- ===== src/Xmqd/Statsd.antt =====
-- xmqd/xmqd.go and internal/statsd/host.go: the prefix under which a daemon sends its metrics, from the
-- configured prefix and the daemon's host with its port. The colon of that host leaves a character in
-- the key, so the code that asks for the last character of the prefix finds one.
mod Tests
pub mod Page
use xmq.Base.{ℕ, List, [], ◌∷◌, ◌++◌, map, ◌==◌, if◌then◌else◌}
use xmq.Js.Text.{Text, lit, last_of}
use xmq.Js.Text.Replace.{splice}

replace_char : ℕ → ℕ → ℕ
replace_char old c = if c == old then b'_' else c

-- `HostKey`
unfoldable pub daemon_host_key : Text → Text
unfolding replace_char
daemon_host_key h = map (replace_char b':') (map (replace_char b'.') h)

-- `strings.Replace(prefix, "%s", key, -1)`
unfoldable pub prefix_with_host : Text → Text → Text
unfolding daemon_host_key
prefix_with_host prefix host = splice (daemon_host_key host) prefix

unfoldable pub daemon_prefix : Text → Text → Text
unfolding prefix_with_host
daemon_prefix [] host = []
daemon_prefix (c ∷ s) host =
    let p = prefix_with_host (c ∷ s) host in if last_of 0 p == b'.' then p else p ++ lit "."
