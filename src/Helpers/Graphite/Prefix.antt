-- ===== src/Helpers/Graphite/Prefix.antt =====
-- The dot behind the prefix of a host's metrics.
use xmq.Base.{
  ◌≡◌, ◌≢◌, refl, false, List, [], ◌∷◌, ◌++◌, length, take, drop, arith, ap, ◌∙◌, append_assoc,
  length-append, All,
}
use xmq.Js.Text.{Text, lit, substring, ◌===◌, join}
use xmq.Js.Text.Split.{Lacks}
use xmq.Js.Text.Replace.{replace_format-join}
use xmq.AppState.{Globals}
use xmq.Helpers.Graphite.{host_prefix, statsd_prefix, host_key}

take_all : (s : Text) → take (length s) s ≡ s
take_all [] = refl
take_all (c ∷ s) = ap (λ t. c ∷ t) (take_all s)

-- `prefix.substring(prefix.length, 1)` is the prefix without its first character.
substring_swapped : (s : Text) → substring s (length s) 1 ≡ drop 1 s
unfolding substring
substring_swapped [] = refl
substring_swapped (c ∷ []) = refl
substring_swapped (c ∷ (d ∷ s)) = ground (arith, take_all (d ∷ s))

not_dot : (p : Text) → length p ≢ 2 → (drop 1 p === lit ".") ≡ false
unfolding ◌===◌
not_dot [] h = refl
not_dot (c ∷ []) h = refl
not_dot (c ∷ (d ∷ [])) h = absurd (h refl)
not_dot (c ∷ (d ∷ (e ∷ s))) h = ground arith

-- Unless the expanded prefix has two characters, a dot is put behind it, also behind a dot.
pub statsd_prefix_lem :
    (g : Globals) (host : Text)
    → length (host_prefix g host) ≢ 2
    → statsd_prefix g host ≡ host_prefix g host ++ lit "."
unfolding statsd_prefix
statsd_prefix_lem g host h =
    rw (substring_swapped (host_prefix g host), not_dot (host_prefix g host) h)

-- A prefix that with the host in it ends in a dot, and has a length other than two, gets a second dot.
pub statsd_prefix_doubles_dot :
    (g : Globals) (host p : Text)
    → host_prefix g host ≡ p ++ lit "."
    → length p ≢ 1
    → statsd_prefix g host ≡ p ++ lit ".."
statsd_prefix_doubles_dot g host p e h =
    statsd_prefix_lem g host (λ two. h (omega (arith, ap length e, length-append p (lit "."))))
    ∙ (ap (λ t. t ++ lit ".") e ∙ append_assoc p (lit ".") (lit "."))

-- The host's key stands for each `%s` of the configured prefix.
pub host_prefix-join :
    (g : Globals) (host : Text) (ps : List Text)
    → g.statsd_prefix ≡ join (lit "%s") ps
    → All (Lacks b'%') ps
    → Lacks b'$' (host_key host)
    → host_prefix g host ≡ join (host_key host) ps
unfolding host_prefix
host_prefix-join g host ps e h k = rw e (replace_format-join (host_key host) ps k h)
