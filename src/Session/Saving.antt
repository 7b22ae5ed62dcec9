-- ===== src/Session/Saving.antt =====
-- The state machine of a session in a request: any order of changes, reads of flashes and saves.
use kiya.Base.{◌≡◌, Bool, true, false, List, [], ◌∷◌, none, some}
use kiya.Base.Int.{ℤ, pos, ltb_ℤ}
use kiya.Text.{Text}
use kiya.Session.{
  stored_of, Value, Session, set, delete, clear, destroy, regenerate_id, set_max_age, save, flash,
  get_flash,
}

-- one call of a method that writes; a save comes with whether the store takes it
pub data Call : Type 0 where
  call_set call_flash : Text → Value → Call
  call_delete call_get_flash : Text → Call
  call_clear call_destroy : Call
  call_regenerate_id : Text → Call
  call_set_max_age : ℤ → Call
  call_save : Bool → Call

unfoldable pub step : Call → Session → Session
step (call_set key v) s = set key v s
step (call_flash key v) s = flash key v s
step (call_delete key) s = delete key s
step (call_get_flash key) s = (get_flash key s).1
step call_clear s = clear s
step call_destroy s = destroy s
step (call_regenerate_id random) s = regenerate_id random s
step (call_set_max_age seconds) s = set_max_age seconds s
step (call_save succeeds) s = (save succeeds s).1

unfoldable pub run : List Call → Session → Session
run [] s = s
run (c ∷ cs) s = run cs (step c s)

-- The flag is set, or the store has what the session holds.
data Synced (s : Session) : Type 0 where
  pending : s.dirty ≡ true → Synced s
  same : s.dirty ≡ false → s.stored ≡ stored_of s.raw → Synced s

-- the state after a save without an error: the store holds the session, or nothing of it
unfoldable pub Saved : Session → Session → Type 0
Saved s after =
    (after.raw ≡ s.raw)
    × (after.dirty ≡ false)
    × (ltb_ℤ (pos 0) s.raw.max_age ≡ true → after.stored ≡ some s.raw)
    × (ltb_ℤ (pos 0) s.raw.max_age ≡ false → after.stored ≡ none)
