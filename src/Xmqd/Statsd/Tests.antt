-- ===== src/Xmqd/Statsd/Tests.antt =====
-- The prefixes of a daemon and of the page.
use xmq.Base.{◌≡◌, refl, ◌++◌, ◌==◌, if◌then◌else◌, arith}
use xmq.Js.Text.{Text, lit, last_of}
use xmq.Js.Text.Replace.{splice, replace_format}
use xmq.Samples.{sample_globals}
use xmq.Helpers.Graphite.{host_key, host_char, host_prefix, statsd_prefix}
use xmq.Xmqd.Statsd.{daemon_prefix, daemon_host_key, prefix_with_host}
use xmq.Xmqd.Statsd.Page.{statsd_prefix-daemon}

abbrev host : Text
host = lit "10.0.0.1:4151"

test_daemon : daemon_prefix (lit "xmq.%s") host ≡ lit "xmq.10_0_0_1_4151."
unfolding daemon_prefix prefix_with_host daemon_host_key splice
test_daemon = refl

statsd_prefix-daemon_example : statsd_prefix sample_globals host ≡ (
    if last_of 0 (host_prefix sample_globals host) == b'.'
    then daemon_prefix (lit "xmq.%s.") host ++ lit "."
    else daemon_prefix (lit "xmq.%s.") host)
unfolding host_prefix host_key host_char replace_format
statsd_prefix-daemon_example =
    statsd_prefix-daemon sample_globals host (λ e. cc) (omega arith) (λ e. cc)
