-- ===== src/Metrics/Counting.antt =====
-- What the counters of pkg/metrics/metrics.go count.
use text.Mathlib.TextEquality.{eq_iff}
use rush_delivery_engine.Prelude.{
  str_eq, itoa, All, ap, ◌∙◌, suc, ℕ, suc, ◌+◌, ◌≡◌, refl, String, List, [], ◌∷◌, arith, length,
  length-append, if◌then◌else◌,
}
use rush_delivery_engine.Metrics.{
  Write, write_header, write_body, recorded_status, Labels, same_labels, CounterVec, inc, Registry,
  Served, labels_of, http_middleware, serve_all,
}

-- The value of a counter; 0 for labels that were never used.
abbrev pub value : Labels → CounterVec → ℕ
value labels [] = 0
value labels ((l, n) ∷ rest) = if same_labels l labels then n else value labels rest

value-inc :
    (k labels : Labels) (cs : CounterVec)
    → value labels (inc k cs) ≡ value labels cs + (if same_labels k labels then 1 else 0)
unfolding inc
value-inc k labels [] = ground arith
value-inc k labels ((l, n) ∷ rest) = ground (
  arith,
  value-inc k labels rest,
  eq_iff l.service k.service,
  eq_iff l.method k.method,
  eq_iff l.route k.route,
  eq_iff l.status k.status,
  eq_iff l.service labels.service,
  eq_iff l.method labels.method,
  eq_iff l.route labels.route,
  eq_iff l.status labels.status,
  eq_iff k.service labels.service,
  eq_iff k.method labels.method,
  eq_iff k.route labels.route,
  eq_iff k.status labels.status,
)

-- The status that net/http sends: that of the first call, 200 where it is a write of the body or there is
-- none.
abbrev pub sent_status : List Write → ℕ
sent_status [] = 200
sent_status (write_header code ∷ more) = code
sent_status (write_body text ∷ more) = 200

-- The calls of WriteHeader.
abbrev pub headers : List Write → ℕ
headers [] = 0
headers (write_header code ∷ more) = suc (headers more)
headers (write_body text ∷ more) = headers more

recorded-no_header :
    (status : ℕ) (ws : List Write) → headers ws ≡ 0 → recorded_status status ws ≡ status
unfolding recorded_status
recorded-no_header status [] h = refl
recorded-no_header status (write_header code ∷ more) h = absurd (omega (arith, h))
recorded-no_header status (write_body text ∷ more) h = recorded-no_header status more h

-- A handler that calls WriteHeader at most once, and then first, is counted under the status that is sent.
pub recorded_status-sent :
    (first : Write) (more : List Write)
    → headers more ≡ 0
    → recorded_status 200 (first ∷ more) ≡ sent_status (first ∷ more)
unfolding recorded_status
recorded_status-sent (write_header code) more h = recorded-no_header code more h
recorded_status-sent (write_body text) more h = recorded-no_header 200 more h

-- The labels that a request should be counted under: with the status that the client got.
abbrev pub sent_labels : String → Served → Labels
sent_labels service r = record {
  service = service;
  method = r.method;
  route = if str_eq r.pattern_ "" then "unknown" else r.pattern_;
  status = itoa (sent_status r.writes);
}

-- The requests with these labels.
abbrev pub requests_with : String → Labels → List Served → ℕ
requests_with service labels [] = 0
requests_with service labels (r ∷ rs) =
    (if same_labels (sent_labels service r) labels then 1 else 0) + requests_with service labels rs

-- The handler calls WriteHeader at most once, before it writes a body.
abbrev pub IsOrderly : List Write → Type 0
IsOrderly [] = Unit {0}
IsOrderly (first ∷ more) = headers more ≡ 0

recorded-sent : (ws : List Write) → IsOrderly ws → recorded_status 200 ws ≡ sent_status ws
unfolding recorded_status
recorded-sent [] h = refl
recorded-sent (first ∷ more) h = recorded_status-sent first more h

labels-sent :
    (service : String) (r : Served)
    → IsOrderly r.writes
    → labels_of service r ≡ sent_labels service r
labels-sent service r h =
    ap
      (λ n. record {
        service = service;
        method = r.method;
        route = if str_eq r.pattern_ "" then "unknown" else r.pattern_;
        status = itoa n;
      })
      (recorded-sent r.writes h)

module _ (service : String) where
  -- Where each handler calls WriteHeader at most once, before it writes a body: after requests one after the
  -- other, each counter has grown by the number of requests with its service, method and route to which
  -- net/http sent its status, and every request has one observation of its duration.
  pub serve_all-counts :
      (labels : Labels) (rs : List Served) (reg : Registry)
      → All (λ (r : Served). IsOrderly r.writes) rs
      → let after = serve_all service rs reg in
        (value labels after.requests_total
          ≡ value labels reg.requests_total + requests_with service labels rs)
        × (length after.durations ≡ length reg.durations + length rs)
  unfolding serve_all http_middleware
  serve_all-counts labels [] reg h = (omega arith, omega arith)
  serve_all-counts labels (r ∷ rs) reg (orderly, h) =
      let rest = serve_all-counts labels rs (http_middleware service r reg) h in
      let one : value labels (inc (labels_of service r) reg.requests_total)
          ≡ value labels reg.requests_total
            + (if same_labels (sent_labels service r) labels then 1 else 0) =
        value-inc (labels_of service r) labels reg.requests_total
        ∙ ap (λ k. value labels reg.requests_total + (if same_labels k labels then 1 else 0))
            (labels-sent service r orderly) in
      (omega (arith, rest.0, one), omega (arith, rest.1, length-append reg.durations _))
