-- ===== src/Xmqd.antt =====
-- xmqd: the message daemon. Its message ids, its messages, the messages in flight, the clients of a
-- channel and the prefix of its metrics are modelled.
pub mod Channel
pub mod Clients
pub mod Guid
pub mod InFlight
pub mod Message
pub mod Statsd
