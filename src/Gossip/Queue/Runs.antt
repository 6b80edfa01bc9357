-- ===== src/Gossip/Queue/Runs.antt =====
-- src/gossip/queue.rs: sequences of calls on a queue.
use stellarconduit_core.Prelude.{ℕ, List, [], ◌∷◌, ◌++◌, Option, none, some}
use stellarconduit_core.Message.{ProtocolMessage}
use stellarconduit_core.Gossip.Queue.{PriorityQueue, push, pop, drain_batch}

pub data Call : Type 0 where
  pushes : ProtocolMessage → Call
  pops : Call
  drains : ℕ → ℕ → Call

abbrev pub of_option : Option ProtocolMessage → List ProtocolMessage
of_option none = []
of_option (some m) = m ∷ []

-- The queue after the call, and the messages that left it.
unfoldable pub step : PriorityQueue → Call → PriorityQueue × List ProtocolMessage
step q (pushes m) = ((push q m).0, of_option (push q m).1)
step q pops = ((pop q).0, of_option (pop q).1)
step q (drains n now) = drain_batch q n now

unfoldable pub run : PriorityQueue → List Call → PriorityQueue × List ProtocolMessage
run q [] = (q, [])
run q (c ∷ cs) = let (q', out) = step q c in let (q'', rest) = run q' cs in (q'', out ++ rest)

abbrev pub pushed : List Call → List ProtocolMessage
pushed [] = []
pushed (pushes m ∷ cs) = m ∷ pushed cs
pushed (pops ∷ cs) = pushed cs
pushed (drains n now ∷ cs) = pushed cs
