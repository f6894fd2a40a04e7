-- ===== src/Xmqd/Statsd/Page.antt =====
-- The daemon's prefix against the one that the admin page asks Graphite for.
use mathlib.Core.Path.{ap₂}
use xmq.Base.{
  ◌≡◌, ◌≢◌, refl, ap, ◌∙◌, sym, Bool, true, false, [], ◌∷◌, ◌++◌, length, ◌==◌, if◌then◌else◌,
  arith,
}
use xmq.Js.Text.{Text, lit, last_of, substring, ◌===◌}
use xmq.Js.Text.Split.{Lacks}
use xmq.Js.Text.Replace.{replace_format, splice, replace_format-splice}
use xmq.AppState.{Globals}
use xmq.Helpers.Graphite.{host_key, host_prefix, statsd_prefix}
use xmq.Helpers.Graphite.Prefix.{statsd_prefix_lem}
use xmq.Xmqd.Statsd.{daemon_host_key, prefix_with_host, daemon_prefix}

-- Both replace the dots and the colons of a host alike.
pub host_key-daemon : (h : Text) → host_key h ≡ daemon_host_key h
unfolding host_key daemon_host_key
host_key-daemon [] = refl
host_key-daemon (c ∷ h) = ap₂ (λ x xs. x ∷ xs) (ground arith) (host_key-daemon h)

host_prefix-daemon :
    (g : Globals) (host : Text)
    → Lacks b'$' (host_key host)
    → host_prefix g host ≡ prefix_with_host g.statsd_prefix host
unfolding host_prefix prefix_with_host
host_prefix-daemon g host h =
    replace_format-splice (host_key host) g.statsd_prefix h
    ∙ ap (λ k. splice k g.statsd_prefix) (host_key-daemon host)

daemon_prefix_full :
    (p host : Text)
    → p ≢ []
    → daemon_prefix p host ≡ (
        if last_of 0 (prefix_with_host p host) == b'.'
        then prefix_with_host p host
        else prefix_with_host p host ++ lit ".")
unfolding daemon_prefix
daemon_prefix_full [] host h = absurd (h refl)
daemon_prefix_full (c ∷ p) host h = refl

one_dot :
    (b : Bool) (p : Text)
    → p ++ lit "."
      ≡ (if b then (if b then p else p ++ lit ".") ++ lit "." else (if b then p else p ++ lit "."))
one_dot true p = refl
one_dot false p = refl

-- For a configured prefix that is not empty and a host whose key has no "$": unless the prefix with the
-- host in it has two characters, the page asks for the daemon's prefix, but for one more dot where the
-- prefix with the host in it already ends in a dot.
pub statsd_prefix-daemon :
    (g : Globals) (host : Text)
    → g.statsd_prefix ≢ []
    → Lacks b'$' (host_key host)
    → length (host_prefix g host) ≢ 2
    → statsd_prefix g host ≡ (
        if last_of 0 (host_prefix g host) == b'.'
        then daemon_prefix g.statsd_prefix host ++ lit "."
        else daemon_prefix g.statsd_prefix host)
statsd_prefix-daemon g host full plain two =
    statsd_prefix_lem g host two
    ∙ rw (daemon_prefix_full g.statsd_prefix host full, sym (host_prefix-daemon g host plain))
        (one_dot (last_of 0 (host_prefix g host) == b'.') (host_prefix g host))

-- With no configured prefix the daemon puts nothing before its metrics; the page asks for a dot.
pub statsd_prefix_empty :
    (g : Globals) (host : Text)
    → g.statsd_prefix ≡ []
    → (daemon_prefix g.statsd_prefix host ≡ []) × (statsd_prefix g host ≡ lit ".")
unfolding daemon_prefix statsd_prefix host_prefix replace_format substring ◌===◌
statsd_prefix_empty g host e = rw e (refl, refl)
