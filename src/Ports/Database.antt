-- ===== src/Ports/Database.antt =====
-- DatabasePool and the interfaces that it leads to, in ports/ports.go. A method that acts is a function
-- on the world `W`, which holds the database, the pool and the memory that `Scan` writes to. A
-- statement is a text with its arguments; what a context's end does is the implementation's answer.
use api_toolkit.Prelude.{ℕ, Bool, Option, String}
use api_toolkit.Prelude.Int.{ℤ}

-- A value and a nil error, or an error with a nil value.
pub data Result (A : Type 0) : Type 0 where
  ok : A → Result A
  failed : ℕ → Result A

abbrev pub Op : Type 0 → Type 0 → Type 0
Op W A = W → A × W

-- An error, or `none` for nil.
abbrev pub Error : Type 0
Error = Option ℕ

pub record DatabaseRows (W : Type 0) : Type 0 where
  pub next : Op W Bool
  pub scan : Op W Error
  pub close : W → W
  pub rows_error : W → Error

pub record DatabaseRow (W : Type 0) : Type 0 where
  pub scan : Op W Error

pub record DatabaseResult : Type 0 where
  pub rows_affected : ℤ

pub record DatabaseTransaction (W : Type 0) : Type 0 where
  pub query : String → Op W (Result (DatabaseRows W))
  pub query_row : String → Op W (DatabaseRow W)
  pub exec : String → Op W (Result DatabaseResult)
  pub commit : Op W Error
  pub rollback : Op W Error

pub record DatabaseConnection (W : Type 0) : Type 0 where
  pub query : String → Op W (Result (DatabaseRows W))
  pub query_row : String → Op W (DatabaseRow W)
  pub exec : String → Op W (Result DatabaseResult)
  pub start : Op W (Result (DatabaseTransaction W))
  pub release : W → W

pub record DatabaseStats : Type 0 where
  pub acquire_count : ℤ
  pub acquire_duration : ℤ
  pub acquired_conns : ℤ
  pub canceled_acquire_count : ℤ
  pub constructing_conns : ℤ
  pub empty_acquire_count : ℤ
  pub idle_conns : ℤ
  pub max_conns : ℤ
  pub new_conns_count : ℤ
  pub total_conns : ℤ

pub record DatabasePool (W : Type 0) : Type 0 where
  pub ping : Op W Error
  pub close : W → W
  pub acquire : Op W (Result (DatabaseConnection W))
  pub stat : W → DatabaseStats

-- `if err != nil { return nil, err }; return &X{...}, nil`.
abbrev pub map_ok : {A B : Type 0} → (A → B) → Result A → Result B
map_ok f (ok a) = ok (f a)
map_ok f (failed e) = failed e

abbrev pub wrap : {A B W : Type 0} → (A → B) → Result A × W → Result B × W
wrap f (r, w) = (map_ok f r, w)
