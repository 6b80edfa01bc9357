-- ===== src/Witness/Runs.antt =====
-- The theorem on the gossip loop at a concrete run.
use stellarconduit_core.Prelude.{none, some}
use stellarconduit_core.Prelude.HashMap
use stellarconduit_core.Metrics
use stellarconduit_core.Gossip.Bloom
use stellarconduit_core.Gossip.Strikes
use stellarconduit_core.Gossip.Round
use stellarconduit_core.Gossip.Run.{Node, fire}
use stellarconduit_core.Gossip.State.{add_envelope}
use stellarconduit_core.Witness.{envelope, exact}
use stellarconduit_core.Witness.Rounds.{first_ones, one_peer, one_waiting}
use stellarconduit_core.Witness.Tables.{roomy, one_route}

abbrev start : Node exact roomy
start = record {
  scheduler = Round.new 0;
  bloom = Bloom.new exact 10 1;
  state = one_waiting;
  bans = record {
    strike_tracker = Strikes.new;
    peer_list = one_peer;
    db = none;
    metrics = Metrics.new;
  };
  routing_table = some one_route;
}

abbrev more : Node exact roomy
more = record start { state = (add_envelope one_waiting (envelope 2)).0 }

abbrev fired : Node exact roomy
fired = fire exact roomy (λ n. 2) first_ones more 600 (50, 50)
