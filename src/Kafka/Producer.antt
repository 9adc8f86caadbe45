-- ===== src/Kafka/Producer.antt =====
-- pkg/kafka/producer.go. The log of the broker keeps the messages of all topics in the order of their
-- acknowledgement.
use rush_delivery_engine.Prelude.{String, [], ◌∷◌, ◌++◌}
use rush_delivery_engine.Platform.{Env}
use rush_delivery_engine.Wire.{Object, Body, json, Message}
use rush_delivery_engine.Store.{Action}
use rush_delivery_engine.Store.Tx.{call, writing}
use rush_delivery_engine.Kafka.Headers.{inject}

-- The message of `PublishRaw`, with the trace context of the producer's span in its headers.
unfoldable pub message : Env → String → String → Body → Message
message env topic key body = record {
  topic = topic;
  key = key;
  value = body;
  headers = inject (env.start_span env.trace) [];
}

unfoldable pub publish_raw : Env → String → String → Body → Action (Unit {0})
unfolding call
publish_raw env topic key body =
    call env (writing λ w. record w { log = w.log ++ message env topic key body ∷ [] })

-- `Publish`: the payloads are objects of texts and finite numbers, which `json.Marshal` accepts.
unfoldable pub publish : Env → String → String → Object → Action (Unit {0})
unfolding publish_raw
publish env topic key payload = publish_raw env topic key (json payload)
