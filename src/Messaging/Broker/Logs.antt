-- ===== src/Messaging/Broker/Logs.antt =====
-- src/messaging/in-memory-broker.ts: logs by topic and partition, and what producers add to them. `V` is
-- a record's value, headers and time.
use Prim.Native.Nat.{bit_xor}
use boilerplate_nestjs_api.Prelude.{
  ℕ, ◌+◌, ◌*◌, ◌^◌, ◌%◌, Utf16, String, Bool, List, [], ◌∷◌, ◌++◌, Option, none, some, length,
  get_elem?, set, replicate, Dict, lookup, insert, if◌then◌else◌,
}
use boilerplate_nestjs_api.Messaging.Broker.{Partition, Group}

pub record Broker (V : Type 0) : Type 0 where
  pub partitions : Dict (List (List V))
  pub groups : Dict Group
  pub members : ℕ
  pub round_robin : ℕ
  pub closed : Bool

-- FNV-1a on 32 bits, over the UTF-16 units of a key.
pub fnv : ℕ → Utf16 → ℕ
fnv hash [] = hash
fnv hash (unit ∷ key) = fnv (bit_xor hash unit * 0x01000193 % 2 ^ 32) key

-- Where a record goes among so many partitions, and the counter for records without a key.
unfoldable pub partition_for : Option Utf16 → ℕ → ℕ → ℕ × ℕ
unfolding fnv
partition_for none partitions round_robin =
    let next = (round_robin + 1) % 9007199254740991 in (next % partitions, next)
partition_for (some key) partitions round_robin = (fnv 0x811c9dc5 key % partitions, round_robin)

pub record OutgoingMessage (V : Type 0) : Type 0 where
  pub topic : String
  pub key : Option Utf16
  pub value : V

pub numbered : {V : Type 0} → String → ℕ → List (List V) → List Partition
numbered topic number [] = []
numbered topic number (log ∷ logs) =
    record { topic = topic; number = number } ∷ numbered topic (number + 1) logs

-- How many records a partition has, where there is one.
pub log_length : {V : Type 0} → Broker V → Partition → Option ℕ
log_length broker p = elim (lookup p.topic broker.partitions) [
  | none ↦ none
  | some logs ↦ elim (get_elem? logs p.number) [ none ↦ none | some log ↦ some (length log) ]
]

module _ {V : Type 0} (default_partitions : ℕ) where
  -- The logs of a topic, which is made where it is missing.
  abbrev pub or_new : Option (List (List V)) → List (List V)
  or_new none = replicate default_partitions []
  or_new (some logs) = logs

  pub with_topic : String → Broker V → Broker V
  with_topic topic broker = elim (lookup topic broker.partitions) [
    | some _ ↦ broker
    | none ↦ record broker {
      partitions = insert topic (replicate default_partitions []) broker.partitions;
    }
  ]

  -- The partitions of the topics, in order; every topic is there by then.
  pub partitions_of : List String → Broker V → List Partition
  unfolding numbered
  partitions_of [] broker = []
  partitions_of (topic ∷ topics) broker =
      numbered topic 0 (or_new (lookup topic broker.partitions)) ++ partitions_of topics broker

  -- `log.push`, where the topic has the partition.
  pub push : ℕ → V → List (List V) → List (List V)
  push number value logs = elim (get_elem? logs number) [
    | none ↦ logs
    | some log ↦ set logs number (log ++ value ∷ [])
  ]

  pub produce_one : OutgoingMessage V → Broker V → Broker V
  unfolding push partition_for
  produce_one message broker =
      let logs = or_new (lookup message.topic broker.partitions) in
      let (number, round_robin) = partition_for message.key (length logs) broker.round_robin in
      record broker {
        partitions = insert message.topic (push number message.value logs) broker.partitions;
        round_robin = round_robin;
      }

  pub produce_all : List (OutgoingMessage V) → Broker V → Broker V
  unfolding produce_one
  produce_all [] broker = broker
  produce_all (message ∷ messages) broker = produce_all messages (produce_one message broker)

  -- `none`: the broker is closed, and `BrokerClosedError` is thrown.
  pub produce : List (OutgoingMessage V) → Broker V → Option (Broker V)
  unfolding produce_all
  produce messages broker = if broker.closed then none else some (produce_all messages broker)

  pub add_topics : List (String × ℕ) → Broker V → Broker V
  add_topics [] broker = broker
  add_topics ((topic, partitions) ∷ specs) broker =
      let added : Broker V = elim (lookup topic broker.partitions) [
        | some _ ↦ broker
        | none ↦ record broker {
          partitions = insert topic (replicate partitions []) broker.partitions;
        }
      ] in
      add_topics specs added

  pub ensure_topics : List (String × ℕ) → Broker V → Option (Broker V)
  unfolding add_topics
  ensure_topics specs broker = if broker.closed then none else some (add_topics specs broker)
