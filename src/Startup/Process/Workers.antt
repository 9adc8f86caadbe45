-- ===== src/Startup/Process/Workers.antt =====
-- What a process has set going after its events, and the steps that set nothing going.
use rush_delivery_engine.Prelude.{
  ◌≡◌, refl, sym, subst, ◌∙◌, ◌⊎◌, inl, inr, List, [], ◌∷◌, ◌++◌, Option-cases,
}
use rush_delivery_engine.Store.Errors.{Error, Result, ok, err}
use rush_delivery_engine.Startup.Process.{
  Partition, Resource, Worker, Event, opened, closed, started, Process, Host, Boot, ◌>>=◌, continue,
  call, tick, note, deferring, open_all, close_all, deferring_all,
}

-- The goroutines started, the latest first.
abbrev pub workers : List Event → List Worker
workers [] = []
workers (opened r ∷ es) = workers es
workers (closed r ∷ es) = workers es
workers (started k ∷ es) = k ∷ workers es

-- The action starts nothing and leaves the topics alone.
abbrev pub Silent : {A : Type 0} → Boot A → Type 0
Silent m =
    (p : Process)
    → (workers (m p).1.events ≡ workers p.events) × ((m p).1.partitions ≡ p.partitions)

-- It failed before it started anything, or it started exactly `ks` and the topics are as they should be.
abbrev pub Started :
    (List Partition → Type 0) → List Worker → List Worker → Result (Unit {0}) × Process → Type 0
Started Q ks before r =
    ((e : Error) × (r.0 ≡ err e) × (workers r.1.events ≡ before))
    ⊎ ((workers r.1.events ≡ ks ++ before) × Q r.1.partitions)

abbrev pub Starts :
    (List Partition → Type 0) → (List Partition → Type 0) → List Worker → Boot (Unit {0}) → Type 0
Starts I Q ks m = (p : Process) → I p.partitions → Started Q ks (workers p.events) (m p)

pub call-Silent : {A : Type 0} (host : Host) (op : Boot A) → Silent op → Silent (call host op)
unfolding call
call-Silent host op h p = elim (Option-cases (host.fails p.calls)) [
  | inl up ↦ rw up (h (tick p))
  | inr (s, down) ↦ rw down (refl, refl)
]

module _ {A B : Type 0} where
  continue-Silent :
      (r : Result A) (f : A → Boot B) → ((a : A) → Silent (f a)) → Silent (continue r f)
  continue-Silent (ok a) f h p = h a p
  continue-Silent (err e) f h p = (refl, refl)

  pub bind-Silent :
      (m : Boot A) (f : A → Boot B) → Silent m → ((a : A) → Silent (f a)) → Silent (m >>= f)
  bind-Silent m f hm hf p =
      let (ws, ps) = continue-Silent (m p).0 f hf (m p).1 in (ws ∙ (hm p).0, ps ∙ (hm p).1)

module _ (I Q : List Partition → Type 0) (ks : List Worker) where
  deferring-Starts :
      (r : Resource) (body : Boot (Unit {0}))
      → Starts I Q ks body
      → Starts I Q ks (deferring r body)
  unfolding deferring
  deferring-Starts r body h p i = h p i

  continue-Starts :
      {A : Type 0} (r : Result A) (f : A → Boot (Unit {0}))
      → ((a : A) → Starts I Q ks (f a))
      → Starts I Q ks (continue r f)
  continue-Starts (ok a) f h p i = h a p i
  continue-Starts (err e) f h p i = inl (e, refl, refl)

  pub bind-Starts :
      {A : Type 0} (m : Boot A) (f : A → Boot (Unit {0}))
      → Silent m
      → ((a : A) → Starts I Q ks (f a))
      → Starts I Q ks (m >>= f)
  bind-Starts m f hm hf p i =
      subst (λ before. Started Q ks before ((m >>= f) p)) (hm p).0
        (continue-Starts (m p).0 f hf (m p).1 (subst I (sym (hm p).1) i))

  pub acquiring-Starts :
      (m : Boot Resource) (body : Boot (Unit {0}))
      → Silent m
      → Starts I Q ks body
      → Starts I Q ks (m >>= λ r. deferring r body)
  acquiring-Starts m body hm hb =
      bind-Starts m (λ r. deferring r body) hm (λ r. deferring-Starts r body hb)

  closed-Started :
      (rs : List Resource) (before : List Worker) (r : Result (Unit {0})) (p : Process)
      → Started Q ks before (r, p)
      → Started Q ks before (r, close_all rs p)
  unfolding close_all
  closed-Started [] before r p h = h
  closed-Started (x ∷ rs) before r p h = closed-Started rs before r (note (closed x) p) h

  pub deferring_all-Starts :
      (rs : List Resource) (body : Boot (Unit {0}))
      → Starts I Q ks body
      → Starts I Q ks (deferring_all rs body)
  unfolding deferring_all
  deferring_all-Starts rs body h p i =
      let (r, p') = body p in closed-Started rs (workers p.events) r p' (h p i)

  pub open_all-Starts :
      (rs : List Resource) (body : Boot (Unit {0}))
      → Starts I Q ks body
      → Starts I Q ks (λ p. body (open_all rs p))
  unfolding open_all
  open_all-Starts [] body h p i = h p i
  open_all-Starts (r ∷ rs) body h p i = open_all-Starts rs body h (note (opened r) p) i

  pub initialising-Starts :
      (m : Boot (List Resource)) (body : Boot (Unit {0}))
      → Silent m
      → Starts I Q ks body
      → Starts I Q ks (m >>= λ rs. deferring_all rs body)
  initialising-Starts m body hm hb =
      bind-Starts m (λ rs. deferring_all rs body) hm (λ rs. deferring_all-Starts rs body hb)
