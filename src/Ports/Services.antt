-- ===== src/Ports/Services.antt =====
-- The interfaces of ports/ports.go for transactions, migrations, the clock, ids, the log and the environment, as records
-- of their methods on a world `W`. A logger's key and value pairs are texts.
use api_toolkit.Prelude.{ℕ, Bool, Option, String, List, Text}
use api_toolkit.Prelude.Int.{ℤ}
use api_toolkit.Ports.Database.{Op}

pub record Logger (W : Type 0) : Type 0 where
  pub debug : String → List Text → W → W
  pub info : String → List Text → W → W
  pub warn : String → List Text → W → W
  pub error : String → List Text → W → W

-- In nanoseconds.
pub record Clock (W : Type 0) : Type 0 where
  pub now : Op W ℕ

pub record IdGen (W : Type 0) : Type 0 where
  pub new : Op W Text

-- `C` is what a function sees of its context, `E` how it ends.
pub record TxManager (W C E : Type 0) : Type 0 where
  pub within_tx : (C → Op W E) → Op W E

pub record Migrator (W E R : Type 0) : Type 0 where
  pub up : (dir : Text) → Op W E
  pub down : (dir : Text) → Op W E
  pub status : (dir : Text) → Op W R

-- A middleware of net/http: a handler made from the next one.
pub record HttpMiddleware (H : Type 0) : Type 0 where
  pub request_id : H → H
  pub real_ip : H → H
  pub recoverer : H → H

-- `R` are requests.
pub record UrlParamExtractor (R : Type 0) : Type 0 where
  pub url_param : R → String → Text

-- `none` is a panic; `F` are the numbers of float64.
pub record EnvVar (F : Type 0) : Type 0 where
  pub must_get : Text → Option Text
  pub must_get_bool : Text → Option Bool
  pub must_get_int : Text → Option ℤ
  pub must_get_int64 : Text → Option ℤ
  pub must_get_uint : Text → Option ℕ
  pub must_get_uint64 : Text → Option ℕ
  pub must_get_float64 : Text → Option F
  pub must_get_duration : Text → Option ℤ
