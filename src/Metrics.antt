-- ===== src/Metrics.antt =====
-- pkg/metrics/metrics.go: the middleware that counts requests. The duration of a request is the time that
-- its caller measures.
pub mod Counting
use rush_delivery_engine.Prelude.{
  itoa, ℕ, ◌+◌, Bool, String, List, [], ◌∷◌, ◌++◌, ◌&&◌, str_eq, if◌then◌else◌,
}

-- What a handler does with its ResponseWriter, in order.
pub data Write : Type 0 where
  write_header : ℕ → Write
  write_body : String → Write

-- `statusRecorder.WriteHeader`; a body passes through.
abbrev note_write : ℕ → Write → ℕ
note_write status (write_header code) = code
note_write status (write_body text) = status

-- The status of a `statusRecorder` after the handler's calls.
unfoldable pub recorded_status : ℕ → List Write → ℕ
recorded_status status [] = status
recorded_status status (wr ∷ more) = recorded_status (note_write status wr) more

pub record Labels : Type 0 where
  pub service : String
  pub method : String
  pub route : String
  pub status : String

abbrev pub same_labels : Labels → Labels → Bool
same_labels a b =
    str_eq a.service b.service
    && str_eq a.method b.method
    && str_eq a.route b.route
    && str_eq a.status b.status

-- A counter for each combination of labels that was used.
abbrev pub CounterVec : Type 0
CounterVec = List (Labels × ℕ)

-- `WithLabelValues(labels).Inc()`
unfoldable pub inc : Labels → CounterVec → CounterVec
inc labels [] = (labels, 1) ∷ []
inc labels ((l, n) ∷ rest) =
    let later = inc labels rest in
    if same_labels l labels then (l, n + 1) ∷ rest else (l, n) ∷ later

pub record Observation : Type 0 where
  pub service : String
  pub method : String
  pub route : String
  pub elapsed : ℕ

pub record Registry : Type 0 where
  pub requests_total : CounterVec
  pub durations : List Observation

-- A request, with what its handler writes, the pattern of its route, which is empty where none matched,
-- and the time that it took.
pub record Served : Type 0 where
  pub method : String
  pub writes : List Write
  pub pattern_ : String
  pub elapsed : ℕ

abbrev pub route_of : String → String
route_of pattern = if str_eq pattern "" then "unknown" else pattern

-- The labels of a request.
abbrev pub labels_of : String → Served → Labels
labels_of service r = record {
  service = service;
  method = r.method;
  route = route_of r.pattern_;
  status = itoa (recorded_status 200 r.writes);
}

-- `HTTPMiddleware`, once the handler has returned.
unfoldable pub http_middleware : String → Served → Registry → Registry
unfolding recorded_status inc
http_middleware service r reg = record {
  requests_total = inc (labels_of service r) reg.requests_total;
  durations =
      reg.durations
      ++ record {
        service = service;
        method = r.method;
        route = route_of r.pattern_;
        elapsed = r.elapsed;
      }
        ∷ [];
}

-- Requests one after the other.
unfoldable pub serve_all : String → List Served → Registry → Registry
serve_all service [] reg = reg
serve_all service (r ∷ rs) reg = serve_all service rs (http_middleware service r reg)
