-- ===== src/Metrics/Recorder.antt =====
-- The Prometheus recorder of middleware/metrics/metrics.go, with its two vectors as maps from the
-- values of the labels.
use api_toolkit.Prelude.{
  ℕ, ◌+◌, ◌≡◌, ◌↔◌, Bool, true, ◌&&◌, List, [], ◌∷◌, Option, none, some, if◌then◌else◌, Text,
  lookup, insert, Eq, ◌==◌, list_eq, arith,
}
use api_toolkit.Metrics.{Labels, Observation, sanitize_http_labels}

-- The values of `method`, `route` and `status`.
abbrev pub Series : Type 0
Series = Text × Text × Text

abbrev pub series_beq : Series → Series → Bool
series_beq (m, r, s) (m', r', s') = m == m' && r == r' && s == s'

pub series_beq_iff : (x y : Series) → (series_beq x y ≡ true) ↔ (x ≡ y)
series_beq_iff (m, r, s) (m', r', s') =
    ground (arith, list_eq.beq_iff m m', list_eq.beq_iff r r', list_eq.beq_iff s s')

instance abbrev pub series_eq : Eq Series
series_eq = record { beq = series_beq; beq_iff = series_beq_iff }

-- A counter for each series, and the values observed in it, the last one first.
pub record PrometheusRecorder : Type 0 where
  pub requests : List (Series × ℕ)
  pub durations : List (Series × List ℕ)

unfoldable pub new_prometheus_recorder : PrometheusRecorder
new_prometheus_recorder = record { requests = []; durations = [] }

abbrev pub count_of : Option ℕ → ℕ
count_of none = 0
count_of (some n) = n

abbrev pub values_of : Option (List ℕ) → List ℕ
values_of none = []
values_of (some vs) = vs

-- The nil recorder is `none`.
unfoldable pub inc_counter : Labels → Option PrometheusRecorder → Option PrometheusRecorder
inc_counter labels none = none
inc_counter labels (some p) =
    let k = sanitize_http_labels labels in
    some (record p { requests = insert k (count_of (lookup k p.requests) + 1) p.requests })

unfoldable pub observe_histogram :
    ℕ → Labels → Option PrometheusRecorder → Option PrometheusRecorder
observe_histogram value labels none = none
observe_histogram value labels (some p) =
    let k = sanitize_http_labels labels in
    some (record p { durations = insert k (value ∷ values_of (lookup k p.durations)) p.durations })

-- `MetricsRecorder`, and its default that keeps nothing.
pub record MetricsRecorder (R : Type 0) : Type 0 where
  pub inc_counter : Labels → R → R
  pub observe_histogram : ℕ → Labels → R → R

abbrev pub noop_metrics : {R : Type 0} → MetricsRecorder R
noop_metrics = record { inc_counter = λ l r. r; observe_histogram = λ v l r. r }

abbrev pub recorder_port : MetricsRecorder (Option PrometheusRecorder)
recorder_port = record { inc_counter = inc_counter; observe_histogram = observe_histogram }

-- The two calls of the middleware's handler.
unfoldable pub record_observation :
    Observation → Option PrometheusRecorder → Option PrometheusRecorder
unfolding inc_counter observe_histogram
record_observation o p = observe_histogram o.duration o.labels (inc_counter o.labels p)

pub record_all : List Observation → Option PrometheusRecorder → Option PrometheusRecorder
record_all [] p = p
record_all (o ∷ os) p = record_all os (record_observation o p)

-- How many observations a series gets, and their durations on top of earlier ones.
unfoldable pub matching : Series → List Observation → ℕ
matching k [] = 0
matching k (o ∷ os) = (if sanitize_http_labels o.labels == k then 1 else 0) + matching k os

unfoldable pub observed : Series → List Observation → List ℕ → List ℕ
observed k [] earlier = earlier
observed k (o ∷ os) earlier =
    observed k os (if sanitize_http_labels o.labels == k then o.duration ∷ earlier else earlier)

-- What a recorder has of a series.
abbrev pub Holds : Series → ℕ → List ℕ → Option PrometheusRecorder → Type 0
Holds k n values none = ⊥
Holds k n values (some p) =
    (count_of (lookup k p.requests) ≡ n) × (values_of (lookup k p.durations) ≡ values)
