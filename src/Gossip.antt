-- ===== src/Gossip.antt =====
-- The gossip protocol of src/gossip.
pub mod Queue
pub mod Bloom
pub mod Strikes
pub mod Fanout
pub mod Round
pub mod Errors
pub mod State
pub mod Ingress
pub mod FanoutRound
pub mod Loop
pub mod Run
