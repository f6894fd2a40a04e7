-- ===== src/Helpers/Tests.antt =====
-- The helpers at concrete values.
use xmq.Base.{subst, sym, ◌≡◌, refl, List, [], ◌∷◌, ◌++◌, arith}
use xmq.Js.Text.{Text, lit, ◌===◌, join, substring}
use xmq.Js.Text.Split.{Lacks}
use xmq.Js.Text.Replace.{replace_format}
use xmq.Js.Decimal.{show}
use xmq.Vendor.{plain_underscore}
use xmq.Samples.{sample_globals, sample_app, whole_numbers}
use xmq.Helpers.Graphite.{
  counter, metric_type, gen_targets, of_topic, of_channel, of_node, color_list, statsd_prefix,
  host_of,
}
use xmq.Helpers.Graphite.Targets.{gen_targets-channel, channel_key}
use xmq.Helpers.Graph.{
  Query, one, many, sparkline, sparkline_query, sparkline_targets, large_graph, large_graph_query,
  large_graph_targets, interval_text, summarize,
}
use xmq.Helpers.Numbers.{commafy, nanotohuman, perc_suffix}
use xmq.Helpers.Numbers.Commas.{commafy_thousands}
use xmq.Helpers.Numbers.Duration.{nanotohuman_parts, part, small_part}

abbrev host : Text
host = lit "10.0.0.1:4150"

abbrev pieces : List Text
pieces = lit "stats.counters." ∷ lit ".count" ∷ []

prefix_of_host : statsd_prefix sample_globals (host_of host) ≡ lit "xmq.10_0_0_1_4150.."
unfolding statsd_prefix host_of replace_format substring ◌===◌
prefix_of_host = refl

prefix-plain : Lacks b'$' (statsd_prefix sample_globals (host_of host))
prefix-plain = subst (Lacks b'$') (sym prefix_of_host) (omega arith)

gen_targets-channel_example :
    gen_targets whole_numbers plain_underscore sample_globals
      (of_channel (lit "t") (lit "c d"))
      host
      (lit "message_count")
    ≡ (lit "sumSeries("
        ++ (join
              (channel_key sample_globals host (lit "message_count") (lit "t") (lit "c d"))
              pieces
            ++ lit ")"))
      ∷ []
unfolding metric_type join
gen_targets-channel_example =
    gen_targets-channel whole_numbers plain_underscore sample_globals counter host
      (lit "message_count") pieces refl refl (omega arith) prefix-plain (lit "t") (lit "c d")

test_targets :
    gen_targets whole_numbers plain_underscore sample_globals
      (of_channel (lit "t") (lit "c d"))
      (lit "h")
      (lit "depth")
    ≡ lit "sumSeries(stats.gauges.xmq.h..topic.t.channel.c_d.depth)" ∷ []
unfolding gen_targets replace_format substring ◌===◌
test_targets = refl

-- A query written as its names and values, with no escapes.
write_query : Query → Text
write_query [] = []
write_query ((k, one v) ∷ q) = k ++ (lit "=" ++ (v ++ (lit "&" ++ write_query q)))
write_query ((k, many vs) ∷ q) = k ++ (lit "=" ++ (join (lit "|") vs ++ (lit "&" ++ write_query q)))

test_sparkline :
    sparkline whole_numbers plain_underscore sample_app write_query of_node
      (lit "h")
      (lit "gc_runs")
    ≡ (lit "http://graphite/render?colorList=red,green,blue,purple&height=20&width=120&"
        ++ (lit "hideGrid=true&hideLegend=true&hideAxes=true&bgcolor=ff000000&fgcolor=black&"
            ++ (lit "margin=0&yMin=0&lineMode=connected&drawNullAsZero=false&from=-2h&until=-1min&"
                ++ (lit
                    "target=summarize(stats.counters.movingAverage(xmq.h..mem.gc_runs,45).count,\"60sec\",\"avg\")&"))))
unfolding sparkline sparkline_query sparkline_targets gen_targets replace_format substring ◌===◌
    join interval_text summarize write_query show color_list
test_sparkline = refl

test_large_graph :
    large_graph whole_numbers plain_underscore sample_app write_query
      (of_topic (lit "t"))
      []
      (lit "depth")
    ≡ (lit "http://graphite/render?colorList=red&height=450&width=800&bgcolor=ff000000&"
        ++ (lit "fgcolor=999999&yMin=0&lineMode=connected&drawNullAsZero=false&from=-2h&"
            ++ (lit "until=-1min&"
                ++ (lit
                    "target=summarize(sumSeries(stats.gauges.xmq.*..topic.t.depth),\"60sec\",\"avg\")&"))))
unfolding large_graph large_graph_query large_graph_targets gen_targets replace_format substring
    ◌===◌ join interval_text summarize write_query show color_list
test_large_graph = refl

commafy_thousands_example : commafy 1234567 ≡ commafy 1234 ++ lit ",567"
commafy_thousands_example = commafy_thousands 1234567

test_commafy : commafy 1234567 ≡ lit "1,234,567"
unfolding commafy show
test_commafy = refl

nanotohuman_parts_example :
    nanotohuman whole_numbers 3665000000000
    ≡ (part 1 (lit "h") ++ part 1 (lit "m")) ++ small_part whole_numbers 5000000000
nanotohuman_parts_example =
    nanotohuman_parts whole_numbers 1 1 5000000000 (omega arith) (omega arith) (omega arith)

-- Eleven per cent is written "11st".
test_eleventh : perc_suffix (record whole_numbers { floor = λ a. 11 }) 1 ≡ lit "st"
unfolding perc_suffix
test_eleventh = refl
