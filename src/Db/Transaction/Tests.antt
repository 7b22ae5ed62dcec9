-- ===== src/Db/Transaction/Tests.antt =====
-- A connection that holds one number.
use kiya.Base.{ℕ, ◌+◌, ◌≡◌, ◌==◌, refl, ap, Option, none, some, if◌then◌else◌}
use kiya.Db.Transaction.{
  Fault, Driver, Outcome, returned, connection, transaction, end_tx, run_in_tx, with_tx, transact,
}
use kiya.Db.Transaction.Atomic.{IsTransactional, Within, Ended, last_world, with_tx-Ended}

-- the committed number, and the number in the transaction
abbrev pub Store : Type 0
Store = ℕ × Option ℕ

abbrev pub store_view : Store → ℕ
store_view w = w.0

abbrev pub store_open : Store → Option ℕ
store_open w = w.1

abbrev committed_number : Store → ℕ
committed_number (n, none) = n
committed_number (n, some m) = m

abbrev pub driver : Driver Store
driver = record {
  begin = λ w. (none, (w.0, some w.0));
  commit = λ w. (none, (committed_number w, none));
  rollback = λ w. (none, (w.0, none));
}

committed_number_lem : (w : Store) (d : ℕ) → store_open w ≡ some d → committed_number w ≡ d
committed_number_lem (n, none) d e = cc
committed_number_lem (n, some m) d e = cc

pub driver-IsTransactional : IsTransactional driver store_view store_open
driver-IsTransactional = record {
  begin-open = λ w e. refl;
  begin-view = λ w. refl;
  begin-fault = λ w f e. absurd cc;
  commit-view = λ w d o e. committed_number_lem w d o;
  commit-fault = λ w f e. absurd cc;
  commit-open = λ w. refl;
  rollback-view = λ w. refl;
  rollback-open = λ w. refl;
}

-- adds one, and then returns an error for 5
abbrev pub incremented : Option ℕ → Option ℕ
incremented none = none
incremented (some n) = some (n + 1)

abbrev increment : Store → Outcome Fault × Store
increment w =
    (if store_view w == 5 then returned (some 9) else returned none, (w.0, incremented w.1))

increment-open :
    (w : Store) (d : ℕ) → store_open w ≡ some d → (e : ℕ) × (store_open (increment w).1 ≡ some e)
increment-open w d o = (d + 1, ap incremented o)

increment-Within : Within store_view store_open increment
increment-Within = record { view_kept = λ w. refl; stays_open = increment-open }

with_tx-Ended_example :
    (store_open (with_tx driver (λ f. f) connection increment (3, none)).1 ≡ none)
    × Ended store_view store_open 3
        (last_world driver (λ f. f) store_view store_open increment (3, none))
        (store_view (with_tx driver (λ f. f) connection increment (3, none)).1)
        (with_tx driver (λ f. f) connection increment (3, none)).0
with_tx-Ended_example =
    with_tx-Ended driver (λ f. f) store_view store_open increment (3, none) driver-IsTransactional
      increment-Within refl

with_tx-commits :
    with_tx driver (λ f. f) connection increment (3, none) ≡ (returned none, (4, none))
unfolding with_tx run_in_tx end_tx
with_tx-commits = refl

with_tx-rolls_back :
    with_tx driver (λ f. f) connection increment (5, none) ≡ (returned (some 9), (5, none))
unfolding with_tx run_in_tx end_tx
with_tx-rolls_back = refl

-- A transaction in a transaction is refused.
transact-nested :
    transact driver (λ f. f) 7 transaction increment (3, some 4) ≡ (returned (some 7), (3, some 4))
unfolding transact
transact-nested = refl
