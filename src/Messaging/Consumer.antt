-- ===== src/Messaging/Consumer.antt =====
-- internal/infra/messaging/consumer.go: how the reader of kafka-go is set up. Its other methods only
-- forward to it. `kafka.NewReader`, which panics on a configuration that it does not accept, is a parameter.
use event_observability_plat.Common.{String, Option, List, ℕ}

pub record ReaderConfig : Type 0 where
  pub brokers : List String
  pub topic : String
  pub group_id : String
  pub min_bytes : ℕ
  pub max_bytes : ℕ
  pub max_wait : ℕ
  pub commit_interval : ℕ

-- Commits are made by hand.
abbrev pub reader_config : List String → String → String → ReaderConfig
reader_config brokers topic group_id = record {
  brokers = brokers;
  topic = topic;
  group_id = group_id;
  min_bytes = 1;
  max_bytes = 10000000;
  max_wait = 1000000000;
  commit_interval = 0;
}

-- `NewConsumer`: the text with which `kafka.NewReader` panics, if it does.
unfoldable pub new_consumer :
    (new_reader : ReaderConfig → Option String) → List String → String → String → Option String
new_consumer new_reader brokers topic group_id = new_reader (reader_config brokers topic group_id)
