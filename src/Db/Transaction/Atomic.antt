-- ===== src/Db/Transaction/Atomic.antt =====
-- A function in a transaction takes effect as a whole or not at all.
use kiya.Base.{ℕ, ◌≡◌, refl, sym, ap, ◌∙◌, Option, none, some}
use kiya.Db.Transaction.{
  Fault, Driver, Outcome, returned, panicked, connection, fault_outcome, end_tx, run_in_tx, with_tx,
}

-- What a database documents of transactions: `view` is the committed data of a world, and `open` the data
-- as the transaction on it sees them, where there is one.
pub record IsTransactional {W D : Type 0} (driver : Driver W) (view : W → D)
    (open_data : W → Option D) : Type 0 where
  pub begin-open :
      (w : W) → (driver.begin w).0 ≡ none → open_data (driver.begin w).1 ≡ some (view w)
  pub begin-view : (w : W) → view (driver.begin w).1 ≡ view w
  pub begin-fault :
      (w : W) (f : Fault) → (driver.begin w).0 ≡ some f → open_data (driver.begin w).1 ≡ open_data w
  pub commit-view :
      (w : W) (d : D)
      → open_data w ≡ some d
      → (driver.commit w).0 ≡ none
      → view (driver.commit w).1 ≡ d
  pub commit-fault :
      (w : W) (f : Fault) → (driver.commit w).0 ≡ some f → view (driver.commit w).1 ≡ view w
  pub commit-open : (w : W) → open_data (driver.commit w).1 ≡ none
  pub rollback-view : (w : W) → view (driver.rollback w).1 ≡ view w
  pub rollback-open : (w : W) → open_data (driver.rollback w).1 ≡ none

-- a step that works in the open transaction only
pub record Within {W D A : Type 0} (view : W → D) (open_data : W → Option D) (fn : W → A × W)
    : Type 0 where
  pub view_kept : (w : W) → view (fn w).1 ≡ view w
  pub stays_open : (w : W) (d : D) → open_data w ≡ some d → (e : D) × (open_data (fn w).1 ≡ some e)

-- The data after an answer, from the data before it and the world in which the function ended.
pub data Ended {W D E : Type 0} (view : W → D) (open_data : W → Option D) (before : D) (last : W)
    (after : D) : Outcome E → Type 0 where
  committed : open_data last ≡ some after → Ended view open_data before last after (returned none)
  refused : (e : E) → after ≡ before → Ended view open_data before last after (returned (some e))
  stopped : (p : ℕ) → after ≡ before → Ended view open_data before last after (panicked p)

module _ {W D E : Type 0} (driver : Driver W) (fault : Fault → E) (view : W → D)
    (open_data : W → Option D) where
  -- the world in which the function ends
  abbrev pub last_world : (W → Outcome E × W) → W → W
  last_world fn w = (fn (driver.begin w).1).1

  fault_outcome-Ended :
      (before : D) (last : W) (c : Option Fault)
      → IsTransactional driver view open_data
      → (driver.commit last).0 ≡ c
      → view last ≡ before
      → (d : D) → open_data last ≡ some d
      → Ended view open_data before last
          (view (driver.commit last).1)
          (fault_outcome driver fault c)
  fault_outcome-Ended before last none laws e v d o =
      committed (o ∙ ap some (sym (laws.commit-view last d o e)))
  fault_outcome-Ended before last (some f) laws e v d o =
      refused (fault f) (laws.commit-fault last f e ∙ v)

  end_tx-Ended :
      (before : D) (last : W) (o : Outcome E)
      → IsTransactional driver view open_data
      → view last ≡ before
      → (d : D) → open_data last ≡ some d
      → Ended view open_data before last
          (view (end_tx driver fault o last).1)
          (end_tx driver fault o last).0
  unfolding end_tx
  end_tx-Ended before last (returned none) laws v d o =
      fault_outcome-Ended before last (driver.commit last).0 laws refl v d o
  end_tx-Ended before last (returned (some e)) laws v d o = refused e (laws.rollback-view last ∙ v)
  end_tx-Ended before last (panicked p) laws v d o = stopped p (laws.rollback-view last ∙ v)

  end_tx-closed :
      (last : W) (o : Outcome E)
      → IsTransactional driver view open_data
      → open_data (end_tx driver fault o last).1 ≡ none
  unfolding end_tx
  end_tx-closed last (returned none) laws = laws.commit-open last
  end_tx-closed last (returned (some e)) laws = laws.rollback-open last
  end_tx-closed last (panicked p) laws = laws.rollback-open last

  run_in_tx-Ended :
      (fn : W → Outcome E × W) (w : W) (begun : Option Fault)
      → IsTransactional driver view open_data
      → Within view open_data fn
      → open_data w ≡ none
      → (driver.begin w).0 ≡ begun
      → (open_data (run_in_tx driver fault fn begun (driver.begin w).1).1 ≡ none)
        × Ended view open_data
            (view w)
            (last_world fn w)
            (view (run_in_tx driver fault fn begun (driver.begin w).1).1)
            (run_in_tx driver fault fn begun (driver.begin w).1).0
  unfolding run_in_tx
  run_in_tx-Ended fn w (some f) laws within o e =
      (laws.begin-fault w f e ∙ o, refused (fault f) (laws.begin-view w))
  run_in_tx-Ended fn w none laws within o e =
      let started = (driver.begin w).1 in
      let (d, still) = within.stays_open started (view w) (laws.begin-open w e) in
      (
        end_tx-closed (fn started).1 (fn started).0 laws,
        end_tx-Ended (view w) (fn started).1 (fn started).0 laws
            (within.view_kept started ∙ laws.begin-view w) d still,
      )

  -- On a connection without an open transaction whose driver keeps transactions apart, and for a
  -- function that works in its transaction: withTx leaves none open; an answer without an error means
  -- that the data are those in which the function ended; after an error, of Begin, of the function or
  -- of Commit, and after a panic, the data are those from before.
  pub with_tx-Ended :
      (fn : W → Outcome E × W) (w : W)
      → IsTransactional driver view open_data
      → Within view open_data fn
      → open_data w ≡ none
      → (open_data (with_tx driver fault connection fn w).1 ≡ none)
        × Ended view open_data
            (view w)
            (last_world fn w)
            (view (with_tx driver fault connection fn w).1)
            (with_tx driver fault connection fn w).0
  unfolding with_tx
  with_tx-Ended fn w laws within o = run_in_tx-Ended fn w (driver.begin w).0 laws within o refl
