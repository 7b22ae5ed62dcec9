-- ===== src/Db/Transaction.antt =====
-- internal/db/history_ops.go: withTx, and internal/db/database.go: Transaction. The connection of
-- database/sql is an argument: a world, with what Begin, Commit and Rollback do to it. A function that
-- runs in the transaction returns an error or nil, or panics.
pub mod Atomic
pub mod Tests
use kiya.Base.{ℕ, ◌≡◌, Bool, true, false, Option, none, some}

-- an error of the driver, by its number
abbrev pub Fault : Type 0
Fault = ℕ

pub record Driver (W : Type 0) : Type 0 where
  pub begin : W → Option Fault × W
  pub commit : W → Option Fault × W
  pub rollback : W → Option Fault × W

-- how a call ends: with an error or nil, or in a panic with a value
pub data Outcome (E : Type 0) : Type 0 where
  returned : Option E → Outcome E
  panicked : ℕ → Outcome E

-- the executor of a builder or database: the one of the connection, or a transaction
pub data Executor : Type 0 where
  connection transaction : Executor

module _ {W E : Type 0} (driver : Driver W) (fault : Fault → E) where
  abbrev pub fault_outcome : Option Fault → Outcome E
  fault_outcome none = returned none
  fault_outcome (some f) = returned (some (fault f))

  -- what follows the function: `Commit`, or `Rollback`, whose error is only logged
  unfoldable pub end_tx : Outcome E → W → Outcome E × W
  end_tx (returned none) w = let (c, after) = driver.commit w in (fault_outcome c, after)
  end_tx (returned (some e)) w = (returned (some e), (driver.rollback w).1)
  end_tx (panicked p) w = (panicked p, (driver.rollback w).1)

  unfoldable pub run_in_tx : (W → Outcome E × W) → Option Fault → W → Outcome E × W
  run_in_tx fn (some f) w = (returned (some (fault f)), w)
  run_in_tx fn none w = let (o, after) = fn w in end_tx o after

  -- `withTx`
  unfoldable pub with_tx : Executor → (W → Outcome E × W) → W → Outcome E × W
  with_tx transaction fn w = fn w
  with_tx connection fn w = let (begun, after) = driver.begin w in run_in_tx fn begun after

  -- `Transaction` of a database, where `nested` is the error of `loggedTx.Begin`
  unfoldable pub transact : E → Executor → (W → Outcome E × W) → W → Outcome E × W
  transact nested transaction fn w = (returned (some nested), w)
  transact nested connection fn w = let (begun, after) = driver.begin w in run_in_tx fn begun after
