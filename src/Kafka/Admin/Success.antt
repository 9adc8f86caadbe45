-- ===== src/Kafka/Admin/Success.antt =====
-- EnsureTopics succeeds where no call fails and a broker is configured.
use rush_delivery_engine.Prelude.{ℕ, ◌≡◌, refl, none, String, List, [], ◌∷◌}
use rush_delivery_engine.Kafka.Admin.{
  dial, create_topics, missing_topics, create_missing, ensure_with, ensure_topics,
}
use rush_delivery_engine.Startup.Process.{TopicConfig, Host}
use rush_delivery_engine.Startup.Process.Success.{
  Succeeds, pure-Succeeds, opening-Succeeds, bind-Succeeds, acquiring-Succeeds, wrapped-Succeeds,
  call-Succeeds,
}

module _ (host : Host) (up : (n : ℕ) → host.fails n ≡ none) where
  create_missing-Succeeds : (missing : List TopicConfig) → Succeeds (create_missing host missing)
  unfolding create_missing dial create_topics
  create_missing-Succeeds [] = pure-Succeeds tt
  create_missing-Succeeds (t ∷ missing) =
      bind-Succeeds _ _
        (wrapped-Succeeds "get controller" _
          (call-Succeeds host up _ (record { result = λ p. (_, refl) })))
        λ c.
          acquiring-Succeeds _ _
            (wrapped-Succeeds "dial controller" _ (call-Succeeds host up _ (opening-Succeeds _)))
            λ r.
              wrapped-Succeeds "create topics" _
                (record { result = λ p. (tt, rw (up p.calls) refl) })

  pub ensure_topics-Succeeds :
      (broker : String) (more topics : List String)
      → Succeeds (ensure_topics host (broker ∷ more) topics)
  unfolding ensure_topics ensure_with dial
  ensure_topics-Succeeds broker more topics =
      acquiring-Succeeds _ _
        (wrapped-Succeeds "dial broker" _ (call-Succeeds host up _ (opening-Succeeds _)))
        λ r.
          bind-Succeeds _ _
            (wrapped-Succeeds "read partitions" _
              (call-Succeeds host up _ (record { result = λ p. (_, refl) })))
            (λ parts. create_missing-Succeeds (missing_topics parts topics))
