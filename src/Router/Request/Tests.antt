-- ===== src/Router/Request/Tests.antt =====
-- Middleware that writes its number, and a request on a connection that holds one number.
use kiya.Base.{ℕ, ◌+◌, ◌≡◌, refl, ap, Bool, true, false, List, [], ◌∷◌, ◌++◌, Option, none}
use kiya.Text.{Text, codes}
use kiya.Db.Transaction.{Outcome, returned, panicked}
use kiya.Db.Transaction.Atomic.{Within}
use kiya.Db.Transaction.Tests.{
  Store, store_view, store_open, driver, driver-IsTransactional, incremented,
}
use kiya.Router.Request.{
  Handler, chain, scope_statement, handled, internal_server_error, end_request, handle_in_tx,
  init_tx, serve_scoped,
}
use kiya.Router.Request.Order.{
  Around, around_all, nested, abort_and_go_on, chain-nested, chain-aborted,
}
use kiya.Router.Request.Scope.{Served, served_world, serve_scoped-Served}

-- a context: whether it is aborted, and what was written
abbrev Written : Type 0
Written = Bool × List ℕ

abbrev is_aborted : Written → Bool
is_aborted w = w.0

abbrev write_number : ℕ → Written → Written
write_number n w = (w.0, w.1 ++ n ∷ [])

abbrev abort : Written → Written
abort w = (true, w.1)

abbrev handler : Handler Written
handler w = (returned none, write_number 0 w)

abbrev marks : List (Around Written)
marks =
    record { before = write_number 1; after = write_number 10 }
    ∷ record { before = write_number 2; after = write_number 20 }
    ∷ []

chain-nested_example :
    chain is_aborted handler (around_all is_aborted marks) (false, [])
    ≡ nested is_aborted handler marks (false, [])
chain-nested_example =
    chain-nested is_aborted handler marks (false, []) (λ w. refl, (λ w. refl, tt)) refl

nested-marks :
    nested is_aborted handler marks (false, []) ≡ (returned none, (false, 1 ∷ 2 ∷ 0 ∷ 20 ∷ 10 ∷ []))
unfolding nested
nested-marks = refl

chain-aborted_example :
    (chain is_aborted handler
        (abort_and_go_on is_aborted abort ∷ abort_and_go_on is_aborted abort ∷ [])
        (false, [])
      ≡ (returned none, abort (false, [])))
    × (chain is_aborted handler (abort_and_go_on is_aborted abort ∷ []) (false, [])
        ≡ handler (abort (false, [])))
chain-aborted_example =
    chain-aborted is_aborted handler abort (abort_and_go_on is_aborted abort) [] (false, [])
      (λ v. refl) refl

-- the first statement changes nothing, and the handler adds one
abbrev init : Text → Store → Option ℕ × Store
init query w = (none, w)

abbrev adding : Outcome ℕ → Handler Store
adding o w = (o, (w.0, incremented w.1))

init-Within : (query : Text) → Within store_view store_open (init query)
init-Within query = record { view_kept = λ w. refl; stays_open = λ w d o. (d, o) }

adding-Within : (o : Outcome ℕ) → Within store_view store_open (adding o)
adding-Within o = record { view_kept = λ w. refl; stays_open = λ w d e. (d + 1, ap incremented e) }

serve_scoped-Served_example :
    (store_open
        (serve_scoped driver init
          (adding (panicked 7))
          (scope_statement (codes "SELECT 1"))
          (3, none)).1
      ≡ none)
    × Served driver store_open 3
        (served_world driver store_view store_open
          (init (codes "SELECT 1"))
          (adding (panicked 7))
          (3, none))
        (store_view
          (serve_scoped driver init
            (adding (panicked 7))
            (scope_statement (codes "SELECT 1"))
            (3, none)).1)
        (serve_scoped driver init
          (adding (panicked 7))
          (scope_statement (codes "SELECT 1"))
          (3, none)).0
unfolding codes
serve_scoped-Served_example =
    serve_scoped-Served driver store_view store_open init (adding (panicked 7)) b'S'
      (codes "ELECT 1") (3, none) driver-IsTransactional (init-Within (codes "SELECT 1"))
      (adding-Within (panicked 7)) refl

serve_scoped-commits :
    serve_scoped driver init (adding (returned none)) (scope_statement (codes "SELECT 1")) (3, none)
    ≡ (handled (returned none), (4, none))
unfolding serve_scoped init_tx handle_in_tx end_request codes
serve_scoped-commits = refl

serve_scoped-panics :
    serve_scoped driver init (adding (panicked 7)) (scope_statement (codes "SELECT 1")) (3, none)
    ≡ (internal_server_error, (3, none))
unfolding serve_scoped init_tx handle_in_tx end_request codes
serve_scoped-panics = refl
