-- ===== src/Startup/Process/Open.antt =====
-- What a process has open after its events: a resource is closed only while it is open.
use rush_delivery_engine.Prelude.{String, List, [], ◌∷◌, ◌≡◌, ◌⊎◌, inl, inr, Option-cases}
use rush_delivery_engine.Store.Errors.{Error, call_failed, Result, ok, err}
use rush_delivery_engine.Startup.Process.{
  Resource, Worker, Event, opened, closed, started, Process, Host, Boot, ◌>>=◌, continue, wrapped,
  map_err, tick, call, deferring, open_all, close_all, starting, exporter,
}

-- The second list is the first without one resource.
pub data Without (r : Resource) : List Resource → List Resource → Type 0 where
  at_once : {rs : List Resource} → Without r (r ∷ rs) rs
  further : {q : Resource} {rs qs : List Resource} → Without r rs qs → Without r (q ∷ rs) (q ∷ qs)

-- The latest of those open is the first.
pub data Open : List Resource → List Event → Type 0 where
  nothing : Open [] []
  opens :
      {r : Resource} {rs : List Resource} {es : List Event}
      → Open rs es
      → Open (r ∷ rs) (opened r ∷ es)
  closes :
      {r : Resource} {rs qs : List Resource} {es : List Event}
      → Without r rs qs
      → Open rs es
      → Open qs (closed r ∷ es)
  starts :
      {k : Worker} {rs : List Resource} {es : List Event} → Open rs es → Open rs (started k ∷ es)

-- The action leaves open what was open, and no more.
abbrev pub Releases : {A : Type 0} → Boot A → Type 0
Releases m = (rs : List Resource) (p : Process) → Open rs p.events → Open rs (m p).1.events

abbrev pub WithResult : List Resource → List Event → Result Resource → Type 0
WithResult rs es (ok r) = Open (r ∷ rs) es
WithResult rs es (err e) = Open rs es

-- The action leaves its result open as well, if it has one.
abbrev pub Opens : Boot Resource → Type 0
Opens m =
    (rs : List Resource) (p : Process) → Open rs p.events → WithResult rs (m p).1.events (m p).0

-- `telemetry.Init` returned an error and left the exporter open, and nothing else.
abbrev pub Left : {A : Type 0} → List Resource → Result A × Process → Type 0
Left rs r =
    (s : String) × (endpoint : String) × (r.0
      ≡ err (Error.wrap "init telemetry" (Error.wrap "resource" (call_failed s))))
    × Open (exporter endpoint ∷ rs) r.1.events

-- The action leaves open what was open, and no more, or it has left the exporter.
abbrev pub LeavesAtMost : {A : Type 0} → Boot A → Type 0
LeavesAtMost m =
    (rs : List Resource) (p : Process) → Open rs p.events → Open rs (m p).1.events ⊎ Left rs (m p)

module _ {A : Type 0} where
  continue-Releases :
      {B : Type 0} (r : Result A) (f : A → Boot B)
      → ((a : A) → Releases (f a))
      → Releases (continue r f)
  continue-Releases (ok a) f hf = hf a
  continue-Releases (err e) f hf = λ rs p o. o

  pub bind-Releases :
      {B : Type 0} (m : Boot A) (f : A → Boot B)
      → Releases m
      → ((a : A) → Releases (f a))
      → Releases (m >>= f)
  bind-Releases m f hm hf rs p o = continue-Releases (m p).0 f hf rs (m p).1 (hm rs p o)

  pub deferring-Releases :
      (r : Resource) (body : Boot A) (rs : List Resource) (p : Process)
      → Releases body
      → Open (r ∷ rs) p.events
      → Open rs (deferring r body p).1.events
  unfolding deferring
  deferring-Releases r body rs p hb o = closes at_once (hb (r ∷ rs) p o)

  after_opening :
      (res : Result Resource) (body : Resource → Boot A) (rs : List Resource) (p : Process)
      → ((r : Resource) → Releases (body r))
      → WithResult rs p.events res
      → Open rs (continue res (λ r. deferring r (body r)) p).1.events
  after_opening (ok r) body rs p hb o = deferring-Releases r (body r) rs p (hb r) o
  after_opening (err e) body rs p hb o = o

  -- Open, `defer Close`, and go on.
  pub acquiring-Releases :
      (m : Boot Resource) (body : Resource → Boot A)
      → Opens m
      → ((r : Resource) → Releases (body r))
      → Releases (m >>= λ r. deferring r (body r))
  acquiring-Releases m body hm hb rs p o = after_opening (m p).0 body rs (m p).1 hb (hm rs p o)

  -- The same, where the rest may leave the exporter.
  pub acquiring-LeavesAtMost :
      (r : Resource) (body : Boot A) (rs : List Resource) (p : Process)
      → LeavesAtMost body
      → Open (r ∷ rs) p.events
      → Open rs (deferring r body p).1.events ⊎ Left rs (deferring r body p)
  unfolding deferring
  acquiring-LeavesAtMost r body rs p hb o = elim (hb (r ∷ rs) p o) [
    | inl all ↦ inl (closes at_once all)
    | inr (s, endpoint, failed, but_one) ↦
        inr (s, endpoint, failed, closes (further at_once) but_one)
  ]

  pub call-Releases : (host : Host) (op : Boot A) → Releases op → Releases (call host op)
  unfolding call
  call-Releases host op h rs p o = elim (Option-cases (host.fails p.calls)) [
    | inl up ↦ rw up (h rs (tick p) o)
    | inr (s, down) ↦ rw down o
  ]

pub starting-Releases : (k : Worker) → Releases (starting k)
starting-Releases k rs p o = starts o

wrapped_result :
    (text : String) (rs : List Resource) (es : List Event) (res : Result Resource)
    → WithResult rs es res
    → WithResult rs es (map_err (Error.wrap text) res)
wrapped_result text rs es (ok r) o = o
wrapped_result text rs es (err e) o = o

pub wrapped-Opens : (text : String) (m : Boot Resource) → Opens m → Opens (wrapped text m)
wrapped-Opens text m h rs p o = wrapped_result text rs (m p).1.events (m p).0 (h rs p o)

-- What is open after all of a list are opened, and what is left when they are closed in the same order.
abbrev pub onto : List Resource → List Resource → List Resource
onto [] rs = rs
onto (q ∷ qs) rs = onto qs (q ∷ rs)

pub open_all-Open :
    (qs rs : List Resource) (p : Process)
    → Open rs p.events
    → Open (onto qs rs) (open_all qs p).events
unfolding open_all
open_all-Open [] rs p o = o
open_all-Open (q ∷ qs) rs p o = open_all-Open qs (q ∷ rs) _ (opens o)

onto-Without :
    (q : Resource) (qs rs us : List Resource)
    → Without q rs us
    → Without q (onto qs rs) (onto qs us)
onto-Without q [] rs us without = without
onto-Without q (x ∷ qs) rs us without = onto-Without q qs (x ∷ rs) (x ∷ us) (further without)

pub close_all-Open :
    (qs rs : List Resource) (p : Process)
    → Open (onto qs rs) p.events
    → Open rs (close_all qs p).events
unfolding close_all
close_all-Open [] rs p o = o
close_all-Open (q ∷ qs) rs p o =
    close_all-Open qs rs _ (closes (onto-Without q qs (q ∷ rs) rs at_once) o)
