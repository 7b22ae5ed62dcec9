-- ===== src/Router/Request/Scope.antt =====
-- The transaction of a request.
use kiya.Base.{ℕ, ◌≡◌, refl, sym, ap, ◌∙◌, ◌∷◌, Option, none, some}
use kiya.Text.{Text}
use kiya.Db.Transaction.{Fault, Driver, Outcome, returned, panicked}
use kiya.Db.Transaction.Atomic.{IsTransactional, Within}
use kiya.Router.Request.{
  Handler, scope_statement, Reply, internal_server_error, handled, end_request, handle_in_tx,
  init_tx, serve_scoped,
}

-- The data after a reply, from the data before the request and the world in which the handler ended.
pub data Served {W D : Type 0} (driver : Driver W) (open_data : W → Option D) (before : D)
    (last : W) (after : D) : Reply → Type 0 where
  committed :
      (driver.commit last).0 ≡ none
      → open_data last ≡ some after
      → Served driver open_data before last after (handled (returned none))
  commit_lost :
      (f : Fault)
      → (driver.commit last).0 ≡ some f
      → after ≡ before
      → Served driver open_data before last after (handled (returned none))
  refused :
      (e : ℕ)
      → after ≡ before
      → Served driver open_data before last after (handled (returned (some e)))
  broken : after ≡ before → Served driver open_data before last after internal_server_error

module _ {W D : Type 0} (driver : Driver W) (view : W → D) (open_data : W → Option D) where
  -- the world in which the handler ends
  abbrev pub served_world : (W → Option Fault × W) → Handler W → W → W
  served_world init h w = (h (init (driver.begin w).1).1).1

  abbrev IsServed : D → W → Reply × W → Type 0
  IsServed before last r =
      (open_data r.1 ≡ none) × Served driver open_data before last (view r.1) r.0

  committed-Served :
      (before : D) (last : W) (c : Option Fault)
      → IsTransactional driver view open_data
      → (driver.commit last).0 ≡ c
      → view last ≡ before
      → (d : D) → open_data last ≡ some d
      → Served driver open_data before last
          (view (driver.rollback (driver.commit last).1).1)
          (handled (returned none))
  committed-Served before last none laws e v d o =
      committed e (
        o ∙ ap some (sym (laws.rollback-view (driver.commit last).1 ∙ laws.commit-view last d o e)))
  committed-Served before last (some f) laws e v d o =
      commit_lost f e (laws.rollback-view (driver.commit last).1 ∙ laws.commit-fault last f e ∙ v)

  end_request-Served :
      (before : D) (last : W) (o : Outcome ℕ)
      → IsTransactional driver view open_data
      → view last ≡ before
      → (d : D) → open_data last ≡ some d
      → IsServed before last (end_request driver o last)
  unfolding end_request
  end_request-Served before last (returned none) laws v d o = (
    laws.rollback-open (driver.commit last).1,
    committed-Served before last (driver.commit last).0 laws refl v d o,
  )
  end_request-Served before last (returned (some e)) laws v d o = (
    laws.rollback-open (driver.rollback last).1,
    refused e (laws.rollback-view (driver.rollback last).1 ∙ laws.rollback-view last ∙ v),
  )
  end_request-Served before last (panicked p) laws v d o =
      (laws.rollback-open last, broken (laws.rollback-view last ∙ v))

  handle_in_tx-Served :
      (h : Handler W) (before : D) (w : W) (e : Option Fault)
      → IsTransactional driver view open_data
      → Within view open_data h
      → view w ≡ before
      → (d : D) → open_data w ≡ some d
      → IsServed before (h w).1 (handle_in_tx driver h e w)
  unfolding handle_in_tx
  handle_in_tx-Served h before w (some f) laws within v d o =
      (laws.rollback-open w, broken (laws.rollback-view w ∙ v))
  handle_in_tx-Served h before w none laws within v d o =
      let (c, still) = within.stays_open w d o in
      end_request-Served before (h w).1 (h w).0 laws (within.view_kept w ∙ v) c still

  init_tx-Served :
      (init : W → Option Fault × W) (h : Handler W) (w : W) (begun : Option Fault)
      → IsTransactional driver view open_data
      → Within view open_data init
      → Within view open_data h
      → open_data w ≡ none
      → (driver.begin w).0 ≡ begun
      → IsServed (view w) (served_world init h w) (init_tx driver init h begun (driver.begin w).1)
  unfolding init_tx
  init_tx-Served init h w (some f) laws starts within o e =
      (laws.begin-fault w f e ∙ o, broken (laws.begin-view w))
  init_tx-Served init h w none laws starts within o e =
      let started = (driver.begin w).1 in
      let (d, still) = starts.stays_open started (view w) (laws.begin-open w e) in
      handle_in_tx-Served h (view w) (init started).1 (init started).0 laws within
        (starts.view_kept started ∙ laws.begin-view w) d still

  -- A request that the application gives a first statement, on a connection without an open transaction
  -- whose driver keeps transactions apart, with a first statement and a handler that work in it: none is left
  -- open; after an error or a panic the data are those from before; after a handler's answer without an
  -- error they are those in which it ended, or, where Commit fails, those from before under the same reply.
  pub serve_scoped-Served :
      (init : Text → W → Option Fault × W) (h : Handler W) (c : ℕ) (s : Text) (w : W)
      → IsTransactional driver view open_data
      → Within view open_data (init (c ∷ s))
      → Within view open_data h
      → open_data w ≡ none
      → (open_data (serve_scoped driver init h (scope_statement (c ∷ s)) w).1 ≡ none)
        × Served driver open_data
            (view w)
            (served_world (init (c ∷ s)) h w)
            (view (serve_scoped driver init h (scope_statement (c ∷ s)) w).1)
            (serve_scoped driver init h (scope_statement (c ∷ s)) w).0
  unfolding serve_scoped
  serve_scoped-Served init h c s w laws starts within o =
      init_tx-Served (init (c ∷ s)) h w (driver.begin w).0 laws starts within o refl
