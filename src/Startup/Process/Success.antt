-- ===== src/Startup/Process/Success.antt =====
-- Steps of a start that return a result.
use rush_delivery_engine.Prelude.{ℕ, ◌≡◌, refl, sym, subst, none, String, List}
use rush_delivery_engine.Store.Errors.{ok}
use rush_delivery_engine.Startup.Process.{
  Resource, Worker, Host, Process, Boot, continue, ◌>>=◌, ◌>>◌, pure, wrapped, call, opening,
  starting, deferring, deferring_all,
}

pub record Succeeds {A : Type 0} (m : Boot A) : Type 0 where
  pub result : (p : Process) → (a : A) × ((m p).0 ≡ ok a)

pub pure-Succeeds : {A : Type 0} (a : A) → Succeeds (pure a)
pure-Succeeds a = record { result = λ p. (a, refl) }

pub opening-Succeeds : (r : Resource) → Succeeds (opening r)
opening-Succeeds r = record { result = λ p. (r, refl) }

pub starting-Succeeds : (k : Worker) → Succeeds (starting k)
starting-Succeeds k = record { result = λ p. (tt, refl) }

pub bind-Succeeds :
    {A B : Type 0} (m : Boot A) (f : A → Boot B)
    → Succeeds m
    → ((a : A) → Succeeds (f a))
    → Succeeds (m >>= f)
bind-Succeeds {A} {B} m f hm hf = record {
  result = λ p.
      let (a, fine) = hm.result p in
      subst (λ r. (b : B) × ((continue r f (m p).1).0 ≡ ok b)) (sym fine) ((hf a).result (m p).1);
}

pub then-Succeeds :
    {A B : Type 0} (m : Boot A) (n : Boot B) → Succeeds m → Succeeds n → Succeeds (m >> n)
then-Succeeds m n hm hn = bind-Succeeds m (λ _. n) hm (λ _. hn)

pub wrapped-Succeeds : {A : Type 0} (s : String) (m : Boot A) → Succeeds m → Succeeds (wrapped s m)
wrapped-Succeeds s m h = record { result = λ p. let (a, fine) = h.result p in (a, rw fine refl) }

pub deferring-Succeeds :
    {A : Type 0} (r : Resource) (body : Boot A) → Succeeds body → Succeeds (deferring r body)
unfolding deferring
deferring-Succeeds r body h = record { result = h.result }

pub acquiring-Succeeds :
    {A : Type 0} (m : Boot Resource) (body : Resource → Boot A)
    → Succeeds m
    → ((r : Resource) → Succeeds (body r))
    → Succeeds (m >>= λ r. deferring r (body r))
acquiring-Succeeds m body hm hb =
    bind-Succeeds m (λ r. deferring r (body r)) hm (λ r. deferring-Succeeds r (body r) (hb r))

pub deferring_all-Succeeds :
    {A : Type 0} (rs : List Resource) (body : Boot A)
    → Succeeds body
    → Succeeds (deferring_all rs body)
unfolding deferring_all
deferring_all-Succeeds rs body h = record { result = h.result }

pub call-Succeeds :
    {A : Type 0} (host : Host) (up : (n : ℕ) → host.fails n ≡ none) (op : Boot A)
    → Succeeds op
    → Succeeds (call host op)
unfolding call
call-Succeeds host up op h = record { result = λ p. rw (up p.calls) (h.result _) }

pub initialising-Succeeds :
    (m : Boot (List Resource)) (body : Boot (Unit {0}))
    → Succeeds m
    → Succeeds body
    → Succeeds (m >>= λ rs. deferring_all rs body)
initialising-Succeeds m body hm hb =
    bind-Succeeds m (λ rs. deferring_all rs body) hm (λ rs. deferring_all-Succeeds rs body hb)
