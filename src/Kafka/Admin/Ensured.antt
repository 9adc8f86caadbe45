-- ===== src/Kafka/Admin/Ensured.antt =====
-- What EnsureTopics of pkg/kafka/admin.go leaves in the cluster.
use text.Mathlib.TextEquality.{eq_iff}
use rush_delivery_engine.Prelude.{
  ◌≡◌, refl, sym, subst, ap, ◌∙◌, ◌⊎◌, inl, inr, Bool, true, ◌||◌, String, List, [], ◌∷◌, any,
  str_eq, arith, Option-cases,
}
use rush_delivery_engine.Store.Errors.{Error, Result, ok, err}
use rush_delivery_engine.Startup.Process.{
  Partition, TopicConfig, Host, Process, call, tick, deferring,
}
use rush_delivery_engine.Startup.Process.Workers.{workers}
use rush_delivery_engine.Kafka.Admin.{
  exists_in, missing_topics, dial, create_topics, create_missing, ensure_with, ensure_topics,
}

-- What `CreateTopics` does: where it succeeds, the topics are those that were there and those that it was
-- asked for; where it reports an error, those that were there are still there, and it has added none but
-- those that it was asked for.
pub record IsCreating (host : Host) : Type 0 where
  pub all :
      (cs : List TopicConfig) (parts : List Partition) (t : String)
      → exists_in (host.create cs parts) t
        ≡ (any (λ (c : TopicConfig). str_eq c.topic t) cs || exists_in parts t)
  pub kept :
      (cs : List TopicConfig) (parts : List Partition) (t : String)
      → exists_in parts t ≡ true
      → exists_in (host.create_partly cs parts) t ≡ true
  pub only :
      (cs : List TopicConfig) (parts : List Partition) (t : String)
      → exists_in (host.create_partly cs parts) t ≡ true
      → (any (λ (c : TopicConfig). str_eq c.topic t) cs || exists_in parts t) ≡ true

exists_in_self :
    (parts : List Partition) (t u : String)
    → exists_in parts u ≡ true
    → str_eq u t ≡ true
    → exists_in parts t ≡ true
exists_in_self parts t u there same = rw (sym ((eq_iff u t).0 same)) there

-- Those missing and those there are those asked for and those there.
missing_topics-exists_in :
    (parts : List Partition) (topics : List String) (t : String)
    → (any (λ (c : TopicConfig). str_eq c.topic t) (missing_topics parts topics)
        || exists_in parts t)
      ≡ (any (λ u. str_eq u t) topics || exists_in parts t)
unfolding missing_topics
missing_topics-exists_in parts [] t = refl
missing_topics-exists_in parts (u ∷ topics) t =
    ground (arith, missing_topics-exists_in parts topics t, exists_in_self parts t u)

abbrev created : Host → List TopicConfig → List Partition → List Partition
created host [] parts = parts
created host (t ∷ missing) parts = host.create (t ∷ missing) parts

-- `CreateTopics` is called only where something is missing.
abbrev partly : Host → List TopicConfig → List Partition → List Partition
partly host [] parts = parts
partly host (t ∷ missing) parts = host.create_partly (t ∷ missing) parts

-- The call failed, with the topics as they were or as a failed `CreateTopics` leaves them, or it created
-- what was missing; it set nothing going.
abbrev pub Ends : Host → List TopicConfig → Process → Result (Unit {0}) × Process → Type 0
Ends host missing p r =
    (((e : Error) × (r.0 ≡ err e)
        × ((r.1.partitions ≡ p.partitions) ⊎ (r.1.partitions ≡ partly host missing p.partitions)))
      ⊎ ((r.0 ≡ ok tt) × (r.1.partitions ≡ created host missing p.partitions)))
    × (workers r.1.events ≡ workers p.events)

module _ (host : Host) where
  create_missing-Ends :
      (missing : List TopicConfig) (p : Process)
      → Ends host missing p (create_missing host missing p)
  unfolding create_missing dial create_topics call deferring
  create_missing-Ends [] p = (inr (refl, refl), refl)
  create_missing-Ends (t ∷ missing) p = elim (Option-cases (host.fails p.calls)) [
    | inr (s, down) ↦ rw down (inl (_, refl, inl refl), refl)
    | inl up ↦ elim (Option-cases (host.fails (tick p).calls)) [
      | inr (s, down) ↦ rw (up, down) (inl (_, refl, inl refl), refl)
      | inl up' ↦ elim (Option-cases (host.fails (tick (tick p)).calls)) [
        | inr (s, down) ↦ rw (up, up', down) (inl (_, refl, inr refl), refl)
        | inl up'' ↦ rw (up, up', up'') (inr (refl, refl), refl)
      ]
    ]
  ]

  ensure_with-Ends :
      (topics : List String) (p : Process)
      → Ends host (missing_topics p.partitions topics) p (ensure_with host topics p)
  unfolding ensure_with call
  ensure_with-Ends topics p = elim (Option-cases (host.fails p.calls)) [
    | inr (s, down) ↦ rw down (inl (_, refl, inl refl), refl)
    | inl up ↦ rw up (create_missing-Ends (missing_topics p.partitions topics) (tick p))
  ]

  pub ensure_topics-Ends :
      (brokers topics : List String) (p : Process)
      → Ends host (missing_topics p.partitions topics) p (ensure_topics host brokers topics p)
  unfolding ensure_topics dial call deferring
  ensure_topics-Ends [] topics p = (inl (_, refl, inl refl), refl)
  ensure_topics-Ends (b ∷ brokers) topics p = elim (Option-cases (host.fails p.calls)) [
    | inr (s, down) ↦ rw down (inl (_, refl, inl refl), refl)
    | inl up ↦ rw up (ensure_with-Ends topics _)
  ]

module _ (host : Host) (creating : IsCreating host) where
  created-exists_in :
      (missing : List TopicConfig) (parts : List Partition) (t : String)
      → exists_in (created host missing parts) t
        ≡ (any (λ (c : TopicConfig). str_eq c.topic t) missing || exists_in parts t)
  created-exists_in [] parts t = refl
  created-exists_in (c ∷ missing) parts t = creating.all (c ∷ missing) parts t

  -- The topics after a failure.
  abbrev pub Partly : List String → String → List Partition → List Partition → Type 0
  Partly topics t before after =
      (exists_in before t ≡ true → exists_in after t ≡ true)
      × (exists_in after t ≡ true → (any (λ u. str_eq u t) topics || exists_in before t) ≡ true)

  or_there :
      (b : Bool) (parts : List Partition) (t : String)
      → exists_in parts t ≡ true
      → (b || exists_in parts t) ≡ true
  or_there b parts t there = ground (arith, there)

  partly-Partly :
      (missing : List TopicConfig) (topics : List String) (parts : List Partition) (t : String)
      → (any (λ (c : TopicConfig). str_eq c.topic t) missing || exists_in parts t)
        ≡ (any (λ u. str_eq u t) topics || exists_in parts t)
      → Partly topics t parts (partly host missing parts)
  partly-Partly [] topics parts t same = (λ there. there, λ there. or_there _ parts t there)
  partly-Partly (c ∷ missing) topics parts t same = (
    creating.kept (c ∷ missing) parts t,
    λ there. sym same ∙ creating.only (c ∷ missing) parts t there,
  )

  -- Where a successful CreateTopics adds the topics that it is asked for, and one that reports an error
  -- has added some of them at most: EnsureTopics fails, no topic is gone and none is new but those asked
  -- for; or it succeeds, and then the topics are those that were there and those asked for.
  pub ensure_topics_adds :
      (brokers topics : List String) (p : Process) (t : String)
      → let r = ensure_topics host brokers topics p in
        ((e : Error) × (r.0 ≡ err e) × Partly topics t p.partitions r.1.partitions)
        ⊎ ((r.0 ≡ ok tt)
            × (exists_in r.1.partitions t
                ≡ (any (λ u. str_eq u t) topics || exists_in p.partitions t)))
  ensure_topics_adds brokers topics p t = elim (ensure_topics-Ends host brokers topics p).0 [
    | inl (e, failed, inl same) ↦ inl (
      e,
      failed,
      subst (Partly topics t p.partitions) (sym same)
          (λ there. there, λ there. or_there _ p.partitions t there),
    )
    | inl (e, failed, inr some_of) ↦ inl (
      e,
      failed,
      subst (Partly topics t p.partitions) (sym some_of) (
          partly-Partly (missing_topics p.partitions topics) topics p.partitions t
            (missing_topics-exists_in p.partitions topics t)),
    )
    | inr (fine, made) ↦ inr (
      fine,
      ap (λ parts. exists_in parts t) made
          ∙ created-exists_in (missing_topics p.partitions topics) p.partitions t
          ∙ missing_topics-exists_in p.partitions topics t,
    )
  ]

str_eq_refl : (t : String) → str_eq t t ≡ true
str_eq_refl t = (eq_iff t t).1 refl

missing_topics-nil :
    (parts : List Partition) (topics : List String)
    → ((t : String) → any (λ u. str_eq u t) topics ≡ true → exists_in parts t ≡ true)
    → missing_topics parts topics ≡ []
unfolding missing_topics
missing_topics-nil parts [] h = refl
missing_topics-nil parts (u ∷ topics) h =
    let there = h u (rw (str_eq_refl u) refl) in
    rw there (missing_topics-nil parts topics (λ t e. h t (rw e (or_true (str_eq u t)))))
  where
    or_true : (b : Bool) → (b || true) ≡ true
    or_true b = ground arith

module _ (host : Host) (creating : IsCreating host) where
  -- Where a successful CreateTopics adds the topics that it is asked for: once EnsureTopics has
  -- succeeded, another call for the same topics creates none, whichever broker it asks.
  pub ensure_topics_again :
      (brokers others topics : List String) (p q : Process)
      → (ensure_topics host brokers topics p).0 ≡ ok tt
      → q.partitions ≡ (ensure_topics host brokers topics p).1.partitions
      → (ensure_topics host others topics q).1.partitions ≡ q.partitions
  ensure_topics_again brokers others topics p q fine same =
      elim (ensure_topics-Ends host others topics q).0 [
        | inl (e, _, inl kept) ↦ kept
        | inl (e, _, inr some_of) ↦
            some_of ∙ ap (λ missing. partly host missing q.partitions) none_missing
        | inr (_, made) ↦ made ∙ ap (λ missing. created host missing q.partitions) none_missing
      ]
    where
      there : (t : String) → any (λ u. str_eq u t) topics ≡ true → exists_in q.partitions t ≡ true
      there t asked = elim (ensure_topics_adds host creating brokers topics p t) [
        | inl (e, failed, _) ↦ absurd (ground (arith, fine, failed))
        | inr (_, added) ↦ rw (same, added, asked) refl
      ]

      none_missing : missing_topics q.partitions topics ≡ []
      none_missing = missing_topics-nil q.partitions topics there
