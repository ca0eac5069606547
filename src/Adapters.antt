-- ===== src/Adapters.antt =====
-- The small adapters: clock/clock.go, idgen/ulid.go, logzap/logzap.go and chi/chi.go, as implementations of
-- the interfaces of ports/ports.go. What they call of the time, of ulid, of zap and of chi are
-- arguments.
use api_toolkit.Prelude.{ℕ, String, List, Text}
use api_toolkit.Ports.Database.{Op}
use api_toolkit.Ports.Services.{Logger, Clock, IdGen, HttpMiddleware, UrlParamExtractor}

module _ {W : Type 0} (time_now : Op W ℕ) where
  -- `SystemClock`: the instant is the same in UTC.
  abbrev pub system_clock : Clock W
  system_clock = record { now = time_now }

  -- `ULIDGen`: the time first, and then an id for its milliseconds and random bytes, where the package
  -- does not panic.
  abbrev pub new_ulid : (timestamp : ℕ → ℕ) (must_new : ℕ → Op W Text) → Op W Text
  new_ulid timestamp must_new w = let (t, w') = time_now w in must_new (timestamp t) w'

  abbrev pub ulid_gen : (timestamp : ℕ → ℕ) (must_new : ℕ → Op W Text) → IdGen W
  ulid_gen timestamp must_new = record { new = new_ulid timestamp must_new }

-- `zap.SugaredLogger`.
pub record SugaredLogger (W : Type 0) : Type 0 where
  pub debugw : String → List Text → W → W
  pub infow : String → List Text → W → W
  pub warnw : String → List Text → W → W
  pub errorw : String → List Text → W → W

pub record ZapLogger (W : Type 0) : Type 0 where
  pub sugared : SugaredLogger W

abbrev pub zap_logger_port : {W : Type 0} → ZapLogger W → Logger W
zap_logger_port l = record {
  debug = l.sugared.debugw;
  info = l.sugared.infow;
  warn = l.sugared.warnw;
  error = l.sugared.errorw;
}

-- The package middleware of chi, and its `URLParam`.
pub record Chi (H R : Type 0) : Type 0 where
  pub request_id : H → H
  pub real_ip : H → H
  pub recoverer : H → H
  pub url_param : R → String → Text

module _ {H R : Type 0} (chi : Chi H R) where
  abbrev pub new_middleware : HttpMiddleware H
  new_middleware = record {
    request_id = chi.request_id;
    real_ip = chi.real_ip;
    recoverer = chi.recoverer;
  }

  abbrev pub url_param : R → String → Text
  url_param r key = chi.url_param r key

  abbrev pub new_url_param_extractor : UrlParamExtractor R
  new_url_param_extractor = record { url_param = chi.url_param }
