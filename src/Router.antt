-- ===== src/Router.antt =====
-- src/router: which peers a message is sent to on its way to a relay.
pub mod PathFinder
pub mod Table
