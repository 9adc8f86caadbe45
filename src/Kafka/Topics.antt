-- ===== src/Kafka/Topics.antt =====
-- pkg/kafka/topics.go.
use rush_delivery_engine.Prelude.{String, List, [], ◌∷◌}

abbrev pub topic_order_placed : String
topic_order_placed = "order.placed"

abbrev pub topic_order_assigned : String
topic_order_assigned = "order.assigned"

abbrev pub topic_order_status_updated : String
topic_order_status_updated = "order.status.updated"

abbrev pub topic_rider_location_update : String
topic_rider_location_update = "rider.location.updated"

abbrev pub topic_eta_updated : String
topic_eta_updated = "eta.updated"

abbrev pub all_topics : List String
all_topics =
    topic_order_placed ∷ topic_order_assigned ∷ topic_order_status_updated
    ∷ topic_rider_location_update ∷ topic_eta_updated ∷ []
