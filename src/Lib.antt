-- ===== src/Lib.antt =====
-- xmq: the admin page, which is the JavaScript of xmqadmin/static/js, and parts of the daemons
-- behind it: the names of topics and channels, the message ids, the messages with those in
-- flight, the clients of a channel and the metrics' prefix of xmqd, and the lookup daemon xmqlookupd.
--
-- The page is one AppView, which keeps a header and one current view. The router turns an address into
-- an event on the bus `Pubsub`; AppView answers the event by removing its current view and appending a
-- new one. A page view fetches a model or a collection, draws a template with it, and draws it again
-- when the graph interval of AppState changes; its buttons send requests to the API. The counter view
-- polls the server and animates a number. The templates call the helpers of handlebars_helpers.js,
-- which compute Graphite targets and write numbers. The server of the page, which is not modelled, asks
-- the lookup daemons, whose database says which producers have a topic or a channel; the message daemon
-- gives each message an id, and keeps those in flight by the time at which it stops waiting for them.
--
-- Files and code:
--   AppState      xmqadmin/static/js/app_state.js: `initialize`, the listener on the graph interval
--                 with `localStorage` (`set_graph_interval`), `basePath`, `apiPath`. `Session` is the
--                 model with what is stored.
--   Helpers       xmqadmin/static/js/lib/handlebars_helpers.js: Graphite (`formatStatsdKey` to
--                 `genTargets`, `rate`), Graph (`sparkline`, `large_graph`), Logic (`default` to
--                 `urlencode`, `basePath`), Numbers (`floatToPercent`, `percSuffix`, `commafy`,
--                 `nanotohuman`).
--   Models        xmqadmin/static/js/models and xmqadmin/static/js/collections: `url` and `parse`.
--   Router        xmqadmin/static/js/router.js: the patterns, and the event of each callback.
--   Views.Base    xmqadmin/static/js/views/base.js: a view is a tree of fields and subviews. `remove`
--                 also returns the ids of the views that Backbone's `remove` is called for, in order.
--   Views.App     xmqadmin/static/js/views/app.js: `showView` and the handlers of the events.
--   Views.Header  xmqadmin/static/js/views/header.js: the menu of graph intervals.
--   Views.Rates   xmqadmin/static/js/views/app.js: the rate cells that are filled on `view:ready`.
--   Ajax          xmqadmin/static/js/lib/ajax_setup.js: the filter of every request.
--   Views.Page    xmqadmin/static/js/views/topics.js, topic.js, channel.js, lookup.js, nodes.js and
--                 node.js: what an answer, a failure and a change of the graph interval do.
--   Views.Actions the clicks of topic.js, channel.js, lookup.js and app.js: each is the list of its
--                 effects, given the user's and the server's answers.
--   Views.Counter xmqadmin/static/js/views/counter.js: `World` is the view's state with the timers that
--                 have not fired, the requests without an answer, and the page's boxes. Timers holds
--                 the step relation: an answer, a failure, a due timer, a new graph interval, the
--                 removal. Image is the large graph beside the counter.
--   Build         xmqadmin/gulpfile.js: the pipes of the tasks, and what is watched and logged.
--   Protocol      internal/protocol/names.go: the names that topics and channels may have.
--   Xmqd.Guid     xmqd/guid.go: `NewGUID` with its time and its node's hash as arguments, and `Hex`.
--   Xmqd.InFlight xmqd/in_flight_pqueue.go: the slice of messages as a heap, with each message's index.
--   Xmqd.Channel  xmqd/channel.go: the dictionary and the heap of the messages in flight, the calls
--                 `TouchMessage`, `FinishMessage`, `StartInFlightTimeout`, and `processInFlightQueue`.
--   Xmqd.Message  xmqd/message.go: `WriteTo` on any writer, and `decodeMessage`.
--   Xmqd.Clients  xmqd/channel.go: `AddClient`, `RemoveClient`, and the flag that `exit` sets.
--   Xmqd.Statsd   xmqd/xmqd.go and internal/statsd/host.go: the prefix of a daemon's metrics.
--   Xmqlookupd.Registrations
--                 xmqlookupd/registration_db.go: the database as an association list of association
--                 lists (Xmqlookupd.Dict), its calls and its queries. Abstract has the specification:
--                 which registrations there are, and which ids each has.
--   Xmqlookupd.Daemon
--                 xmqlookupd/grpc.go: `Ping`, `Identify`, `Register`, `Unregister`. `Lookupd` is the
--                 daemon with its peers and its database.
--   Xmqlookupd.Admin
--                 xmqlookupd/http.go: the requests that create, delete, tombstone and look up, and
--                 `getNodes`; internal/http_api/topic_channel_args.go.
--   Xmqlookupd.History
--                 the calls on a lookup daemon one after another, as moves of its state (Moves).
--   Xmqlookupd.Members
--                 which ids `Register` and `Unregister` put under which registrations.
--   Base, Js, Vendor, Samples
--                 shared lemmas; texts, decimals and URI encoding of the language; the libraries'
--                 functions as parameters; test data.
--
-- Bounds: a text is a list of numbers, each a UTF-16 code unit where a statement needs it to be below
-- 65536. Whole numbers are ℕ, exact in the source below 2 ^ 53 and written out in digits below
-- 10 ^ 21. Other numbers are the parameter `Number`, a type with the operations called. The loop of
-- the helper `for` runs on fuel, and so do the loops of the heap, with more rounds than slots, and the
-- loop of `processInFlightQueue`, for which more rounds than messages are enough. An int64 of guid.go
-- is its bit pattern below 2 ^ 64, with the shifts' wrap-around and the signed comparison written out;
-- the numbers of a message are bit patterns of 64 and 16 bits.
--
-- Parameters: `Underscore` holds underscore's functions with their documented behaviour, and
-- `ModelEvents` says when Backbone triggers a change. `lower` is `toLowerCase`, `param` is jQuery's
-- `$.param`, `parse` is `JSON.parse` with the read of `message`, `node_url` is Backbone's address of a
-- model under `urlRoot`, `to_fixed` is the number's `toFixed`. `hash` is the CRC-32 of the MD5 sum of a
-- node's id, `MapOrder` the order in which Go visits the entries of a map, and `Writer` an
-- `io.Writer` (`Appends`: it appends as many of the bytes as it says, and all unless it fails). Which
-- route Backbone chooses is not modelled: the router's `Call` is the callback it makes.
--
-- Not modelled: the templates; what the plugins of the build (xmqadmin/gulpfile.js) do; what
-- `main.js` and `lib/pubsub.js` start; of xmqlookupd, what only reads or logs (`doInfo`, `doDebug`,
-- `String`) and the addresses in the answers; of xmqd/channel.go, the deferred messages and the storage
-- behind a channel; the interleaving of calls of the daemons, which run one at a time here; and the
-- rest of the Go programs.
pub mod Base
pub mod Js
pub mod Vendor
pub mod AppState
pub mod Helpers
pub mod Models
pub mod Views
pub mod Router
pub mod Samples
pub mod Ajax
pub mod Xmqd
pub mod Xmqlookupd
pub mod Build
pub mod Protocol
