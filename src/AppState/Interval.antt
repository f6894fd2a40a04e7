-- ===== src/AppState/Interval.antt =====
-- Where the graph interval of a page comes from.
use xmq.Base.{map, ◌≡◌, ◌≢◌, refl, ap, ◌∙◌, Option, none, some, [], ◌∷◌, ◌++◌, drop, arith}
use xmq.Js.Text.{Text, lit, split, ◌===◌}
use xmq.Js.Text.Split.{Lacks, split_of_Lacks, split-cons}
use xmq.Vendor.{Underscore, ModelEvents, last_pair, somes}
use xmq.AppState.{
  Globals, Session, set_graph_interval, initialize, query_param, query_item, or_else,
}

-- Setting the interval makes it the model's, whether or not an event fires.
pub set_interval :
    (events : ModelEvents) (v : Text) (s : Session)
    → (set_graph_interval events v s).app.graph_interval ≡ v
unfolding set_graph_interval
set_interval events v s = ground arith

pub set_stored :
    (events : ModelEvents) (v : Text) (s : Session)
    → s.app.graph_interval ≢ v
    → (set_graph_interval events v s).stored ≡ some v
unfolding set_graph_interval
set_stored events v s h = rw ((events.changes_iff s.app.graph_interval v).1 h)

or_else-some : (v d : Text) → v ≢ [] → or_else (some v) d ≡ v
or_else-some [] d h = absurd (h refl)
or_else-some (c ∷ v) d h = refl

-- An interval that differs from the shown one and is not empty, once set, is what the next page
-- starts with, if its address names none.
pub initialize-set_graph_interval :
    (events : ModelEvents) (u : Underscore) (g : Globals) (search v : Text) (s : Session)
    → s.app.graph_interval ≢ v
    → v ≢ []
    → query_param u search (lit "t") ≡ none
    → (initialize events u g search (set_graph_interval events v s).stored).app.graph_interval ≡ v
unfolding initialize
initialize-set_graph_interval events u g search v s new full absent =
    set_interval events _ _ ∙ rw (absent, set_stored events v s new) (or_else-some v _ full)

query_param_lem :
    (u : Underscore) (search k : Text)
    → query_param u search k ≡ last_pair (somes (map query_item (split b'&' (drop 1 search)))) k
unfolding query_param
query_param_lem u search k = simp (u.each_lem, u.compact_lem, u.object_lem)

query_param_first :
    (u : Underscore) (v : Text)
    → Lacks b'&' v
    → Lacks b'=' v
    → query_param u (lit "?t=" ++ v) (lit "t") ≡ some v
unfolding query_item ◌===◌
query_param_first u v amp eq =
    let whole : split b'&' (lit "t=" ++ v) ≡ (lit "t=" ++ v) ∷ [] =
      split_of_Lacks b'&' (lit "t=" ++ v) (omega arith, (omega arith, amp)) in
    let parts : split b'=' (lit "t=" ++ v) ≡ lit "t" ∷ v ∷ [] =
      split-cons b'=' (lit "t") v (omega arith, tt)
      ∙ ap (λ l. lit "t" ∷ l) (split_of_Lacks b'=' v eq) in
    query_param_lem u _ (lit "t") ∙ rw (whole, parts)

-- An interval in the address, `?t=` and then the interval, wins over the stored one.
pub initialize_of_search :
    (events : ModelEvents) (u : Underscore) (g : Globals) (v : Text) (stored : Option Text)
    → v ≢ []
    → Lacks b'&' v
    → Lacks b'=' v
    → (initialize events u g (lit "?t=" ++ v) stored).app.graph_interval ≡ v
unfolding initialize
initialize_of_search events u g v stored full amp eq =
    set_interval events _ _ ∙ rw (query_param_first u v amp eq) (or_else-some v _ full)
