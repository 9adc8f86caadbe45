-- ===== src/Kafka/Admin/Connections.antt =====
-- EnsureTopics of pkg/kafka/admin.go closes the connections that it opens.
use rush_delivery_engine.Prelude.{inl, inr, String, List, [], ◌∷◌, Option-cases}
use rush_delivery_engine.Startup.Process.{TopicConfig, Host, wrapped, call}
use rush_delivery_engine.Startup.Process.Open.{
  Opens, opens, Releases, call-Releases, bind-Releases, acquiring-Releases, wrapped-Opens,
}
use rush_delivery_engine.Kafka.Admin.{
  missing_topics, dial, create_topics, controller_addr, create_missing, ensure_with, ensure_topics,
}

module _ (host : Host) where
  dial-Opens : (addr : String) → Opens (dial host addr)
  unfolding dial call
  dial-Opens addr rs p o = elim (Option-cases (host.fails p.calls)) [
    | inl up ↦ rw up (opens o)
    | inr (s, down) ↦ rw down o
  ]

  create_topics-Releases : (missing : List TopicConfig) → Releases (create_topics host missing)
  unfolding create_topics
  create_topics-Releases missing rs p o = elim (Option-cases (host.fails p.calls)) [
    | inl up ↦ rw up o
    | inr (s, down) ↦ rw down o
  ]

  create_missing-Releases : (missing : List TopicConfig) → Releases (create_missing host missing)
  unfolding create_missing
  create_missing-Releases [] = λ rs p o. o
  create_missing-Releases (t ∷ missing) =
      bind-Releases (wrapped "get controller" (call host _)) _ (call-Releases host _ (λ rs p o. o))
        λ c.
          acquiring-Releases (wrapped "dial controller" (dial host (controller_addr c))) _
            (wrapped-Opens "dial controller" (dial host (controller_addr c))
              (dial-Opens (controller_addr c)))
            (λ r. create_topics-Releases (t ∷ missing))

  ensure_with-Releases : (topics : List String) → Releases (ensure_with host topics)
  unfolding ensure_with
  ensure_with-Releases topics =
      bind-Releases (wrapped "read partitions" (call host _)) _ (call-Releases host _ (λ rs p o. o))
        (λ parts. create_missing-Releases (missing_topics parts topics))

  pub ensure_topics-Releases :
      (brokers topics : List String) → Releases (ensure_topics host brokers topics)
  unfolding ensure_topics
  ensure_topics-Releases [] topics = λ rs p o. o
  ensure_topics-Releases (b ∷ brokers) topics =
      acquiring-Releases (wrapped "dial broker" (dial host b)) _
        (wrapped-Opens "dial broker" (dial host b) (dial-Opens b))
        (λ r. ensure_with-Releases topics)
