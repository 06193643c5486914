-- ===== src/Messaging/Broker/Tests.antt =====
-- Runs of the model of src/messaging/in-memory-broker.ts at concrete inputs.
use boilerplate_nestjs_api.Prelude.{ℕ, ◌≡◌, refl, true, false, [], ◌∷◌, List, none, some, arith}
use boilerplate_nestjs_api.Messaging.Broker.{Group, rebalance, Partition, empty_group}
use boilerplate_nestjs_api.Messaging.Broker.Assignment.{holders, rebalance_hands_out}
use boilerplate_nestjs_api.Messaging.Broker.Logs.{Broker, partition_for}
use boilerplate_nestjs_api.Messaging.Broker.Calls.{
  Call, joins, leaves, begins, reads, settles, run, commits_handled,
}
use boilerplate_nestjs_api.Messaging.Broker.AtLeastOnce.{was_handled}

abbrev orders : Partition
orders = record { topic = "orders"; number = 0 }

-- A handler that fails at first, so that the record is read twice, and a member that then goes.
abbrev some_calls : List Call
some_calls =
    joins 0 ("orders" ∷ []) (orders ∷ [])
    ∷ begins 0
    ∷ reads 0 (λ p. some 2)
    ∷ settles 0 false
    ∷ begins 0
    ∷ reads 0 (λ p. some 2)
    ∷ settles 0 true
    ∷ leaves 0 []
    ∷ joins 1 ("orders" ∷ []) (orders ∷ [])
    ∷ begins 1
    ∷ reads 1 (λ p. some 2)
    ∷ settles 1 true
    ∷ []

committed_two : (run some_calls empty_group).committed ≡ (orders, 2) ∷ []
unfolding run
committed_two = refl

commits_handled_example : was_handled orders 0 (run some_calls empty_group).handled ≡ true
unfolding run
commits_handled_example = commits_handled some_calls orders 2 0 refl (ground arith)

abbrev empty_broker : Broker ℕ
empty_broker = record { partitions = []; groups = []; members = 0; round_robin = 0; closed = false }

keyless_alternate : partition_for none 2 0 ≡ (1, 1)
unfolding partition_for
keyless_alternate = refl

abbrev three : List Partition
three =
    record { topic = "orders"; number = 0 }
    ∷ record { topic = "orders"; number = 1 }
    ∷ record { topic = "orders"; number = 2 }
    ∷ []

abbrev two_members : Group
unfolding run
two_members = run (joins 0 ("orders" ∷ []) three ∷ joins 1 ("orders" ∷ []) three ∷ []) empty_group

rebalance_hands_out_example : holders orders (rebalance three two_members).members ≡ 1
unfolding run
rebalance_hands_out_example = rebalance_hands_out orders three two_members (ground arith)
