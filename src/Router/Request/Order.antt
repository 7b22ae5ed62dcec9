-- ===== src/Router/Request/Order.antt =====
-- The order of the middleware, and what an abort stops.
use kiya.Base.{◌≡◌, refl, ap, ◌∙◌, Bool, true, false, List, [], ◌∷◌, none, All}
use kiya.Db.Transaction.{returned}
use kiya.Router.Request.{Handler, Middleware, unless_aborted, chain}

-- a middleware that does something before the rest and something after it
pub record Around (W : Type 0) : Type 0 where
  pub before : W → W
  pub after : W → W

module _ {W : Type 0} (is_aborted : W → Bool) where
  abbrev pub around : Around W → Middleware W
  around a next w = let (o, end) = next (a.before w) in (o, a.after end)

  unfoldable pub around_all : List (Around W) → List (Middleware W)
  around_all [] = []
  around_all (a ∷ parts) = around a ∷ around_all parts

  -- the parts before in turn, the handler, and the parts after in the reverse order
  unfoldable pub nested : Handler W → List (Around W) → Handler W
  nested h [] w = h w
  nested h (a ∷ parts) w = let (o, end) = nested h parts (a.before w) in (o, a.after end)

  -- no part before a handler aborts
  abbrev pub KeepsOn : Around W → Type 0
  KeepsOn a = (w : W) → is_aborted (a.before w) ≡ is_aborted w

  unless_aborted-running :
      (h : Handler W) (w : W) → is_aborted w ≡ false → unless_aborted is_aborted h w ≡ h w
  unfolding unless_aborted
  unless_aborted-running h w e = rw e refl

  unless_aborted-stopped :
      (h : Handler W) (w : W)
      → is_aborted w ≡ true
      → unless_aborted is_aborted h w ≡ (returned none, w)
  unfolding unless_aborted
  unless_aborted-stopped h w e = rw e refl

  -- Middleware that does something before and after the rest, where no part before aborts the request, runs
  -- in the order in which it was added: from the first to the last before the handler, and from the last
  -- to the first after it, with the handler's own answer.
  pub chain-nested :
      (h : Handler W) (parts : List (Around W)) (w : W)
      → All KeepsOn parts
      → is_aborted w ≡ false
      → chain is_aborted h (around_all parts) w ≡ nested h parts w
  unfolding chain around_all nested
  chain-nested h [] w ks e = refl
  chain-nested h (a ∷ parts) w (k, ks) e =
      unless_aborted-running (around a (chain is_aborted h (around_all parts))) w e
      ∙ ap (λ r. (r.0, a.after r.1)) (chain-nested h parts (a.before w) ks (k w ∙ e))

  -- a middleware that aborts the request and calls the rest all the same
  abbrev pub abort_and_go_on : (W → W) → Middleware W
  abort_and_go_on abort next w = next (abort w)

  -- After a middleware has aborted the request and called the rest, no middleware behind it runs and the
  -- handler does not; but if none is behind it, the handler runs on the aborted request.
  pub chain-aborted :
      (h : Handler W) (abort : W → W) (m : Middleware W) (ms : List (Middleware W)) (w : W)
      → ((v : W) → is_aborted (abort v) ≡ true)
      → is_aborted w ≡ false
      → (chain is_aborted h (abort_and_go_on abort ∷ m ∷ ms) w ≡ (returned none, abort w))
        × (chain is_aborted h (abort_and_go_on abort ∷ []) w ≡ h (abort w))
  unfolding chain
  chain-aborted h abort m ms w a e = (
    unless_aborted-running _ w e
        ∙ unless_aborted-stopped (m (chain is_aborted h ms)) (abort w) (a w),
    unless_aborted-running _ w e,
  )
