-- ===== src/Db/History/Audit.antt =====
-- The history column that an update of a model writes.
use kiya.Base.{
  List, ◌++◌, ℕ, ◌≡◌, refl, sym, ap, ◌∙◌, Bool, true, false, [], ◌∷◌, map, Option, none, some,
  if◌then◌else◌, arith, Bool-cases, inl, inr,
}
use kiya.Text.{Text, codes, text_eq}
use kiya.Text.Laws.{text_eq_iff}
use kiya.Db.Builder.{Value, text, Columns, Action, Builder}
use kiya.Db.Sql.{value_at}
use kiya.Db.Write.{ok, err, check_where, check_data, ◌>>◌}
use kiya.Db.Model.{
  Model, CachedField, table_name, struct_to_map, struct_to_history_map, is_taken, is_tracked,
  stored_value,
}
use kiya.Db.Model.Keys.{has_field}
use kiya.Db.Model.WellFormed.{Ensures-bind}
use kiya.Db.Write.Laws.{Ensures, fails, of_Ensures, holds, Ensures-guard}
use kiya.Db.Scope.{apply_scope}
use kiya.Db.Scope.Laws.{selects-apply_scope}
use kiya.Db.Model.Writing.{selected_names, update_model, update_model_scoped, table_or_model}
use kiya.Db.Model.Scanning.{Conversions}
use kiya.Db.History.{
  HistoryEntry, Json, Actor, entries_of, marshalled, append_history_json, build_history_entry,
}
use kiya.Db.History.Steps.{
  entry_text, with_entry, stamped, tracked_history, ensured, updated_model, updating_builder,
}
use kiya.Db.History.Models.{
  ModelStatements, ensure_aux_col, has_changed, changed_columns, diff_for_history,
}
use kiya.Db.History.Column.{
  HistoryAt, string_field-HistoryAt, HistoryAt-set, HistoryAt-actor, put_columns-HistoryAt,
}

module _ (same : Value → Value → Bool) where
  has_changed-same :
      (key : Text) (v w : Value) (old : Columns)
      → has_changed same key v old ≡ false
      → value_at key old ≡ w
      → same w v ≡ true
  unfolding has_changed value_at
  has_changed-same key v w [] n e = absurd cc
  has_changed-same key v w ((k, u) ∷ old) n e = elim (Bool-cases (text_eq k key)) [
    | inl t ↦ let uw : u ≡ w = ground arith in ap (λ x. same x v) (sym uw) ∙ ground arith
    | inr t ↦ has_changed-same key v w old (ground arith) (ground arith)
  ]

  changed_columns-none :
      (key s : Text) (old m : Columns)
      → changed_columns same old m ≡ []
      → value_at key m ≡ text s
      → has_changed same key (text s) old ≡ false
  unfolding changed_columns value_at
  changed_columns-none key s old [] n e = absurd cc
  changed_columns-none key s old ((k, v) ∷ m) n e = elim (Bool-cases (text_eq k key)) [
    | inl t ↦ elim (Bool-cases (has_changed same k v old)) [
      | inl h ↦ absurd (ground arith)
      | inr h ↦
          let vs : v ≡ text s = ground arith in
          ap (λ x. has_changed same x (text s) old) (sym ((text_eq_iff k key).0 t))
          ∙ (ap (λ x. has_changed same k x old) (sym vs) ∙ h)
    ]
    | inr t ↦ elim (Bool-cases (has_changed same k v old)) [
      | inl h ↦ absurd (ground arith)
      | inr h ↦ changed_columns-none key s old m (ground arith) (ground arith)
    ]
  ]

  -- without a change, the texts of the history are the same
  no_change-HistoryAt :
      (c : CachedField) (hist mine : Text) (old self : Model)
      → is_tracked [] c ≡ true
      → HistoryAt c hist old.fields
      → HistoryAt c mine self.fields
      → diff_for_history same old self [] ≡ []
      → same (text hist) (text mine) ≡ true
  unfolding diff_for_history struct_to_history_map
  no_change-HistoryAt c hist mine old self t ho hs n =
      let before = put_columns-HistoryAt (is_tracked []) (λ d v. v) c hist old.fields t ho in
      let after = put_columns-HistoryAt (is_tracked []) (λ d v. v) c mine self.fields t hs in
      has_changed-same c.name (text mine) (text hist) (struct_to_history_map old [])
        (changed_columns-none c.name mine (struct_to_history_map old [])
          (struct_to_history_map self []) n after)
        before

module _ {W : Type 0} (db : ModelStatements W) (conv : Conversions) (same : Value → Value → Bool)
    (json : Json) (actor : Actor) (now : ℕ) where
  -- what the model holds after the change of its history
  abbrev marked : Bool → Columns → Text → Text → Text
  marked true changes hist mine = mine
  marked false [] hist mine = mine
  marked false (e ∷ changes) hist mine =
      entry_text db conv same json actor now (codes "modified") (e ∷ changes) hist

  -- the entries of a history, none of the empty text
  abbrev entries_before : Text → List HistoryEntry
  entries_before [] = []
  entries_before (c ∷ s) = json.unmarshal (c ∷ s)

  abbrev or_before : Text → Option Text → Text
  or_before hist none = hist
  or_before hist (some t) = t

  -- the history of the row, with one more entry where there are changes; as it was, where JSON cannot write it
  abbrev pub kept_history : Columns → Text → Text
  kept_history [] hist = hist
  kept_history (e ∷ changes) hist = or_before hist (
      json.marshal (
        entries_before hist
        ++ record {
          action = codes "modified";
          changes = e ∷ changes;
          actor_id = actor.id;
          actor_name = actor.name;
          at = now;
        }
          ∷ []))

  marshalled-or_before : (h : Text) (o : Option Text) → marshalled h o ≡ or_before h o
  unfolding marshalled
  marshalled-or_before h none = refl
  marshalled-or_before h (some t) = refl

  kept_history-entry_text :
      (e : Text × Value) (changes : Columns) (hist : Text)
      → entry_text db conv same json actor now (codes "modified") (e ∷ changes) hist
        ≡ kept_history (e ∷ changes) hist
  unfolding append_history_json build_history_entry entries_of
  kept_history-entry_text e changes [] = marshalled-or_before [] _
  kept_history-entry_text e changes (c ∷ s) = marshalled-or_before (c ∷ s) _

  HistoryAt-with_entry :
      (c : CachedField) (hist mine : Text) (b : Builder) (old self : Model) (disabled : Bool)
      (changes : Columns)
      → b.history_tracking_disabled ≡ disabled
      → HistoryAt c hist old.fields
      → HistoryAt c mine self.fields
      → HistoryAt c
          (marked disabled changes hist mine)
          (with_entry db conv same json actor now
            (codes "modified")
            changes
            (tracked_history db conv same json actor now b changes old)
            self).fields
  HistoryAt-with_entry c hist mine b old self true [] d ho hs = hs
  HistoryAt-with_entry c hist mine b old self false [] d ho hs = hs
  HistoryAt-with_entry c hist mine b old self true (e ∷ changes) d ho hs = rw d hs
  HistoryAt-with_entry c hist mine b old self false (e ∷ changes) d ho hs =
      rw (d, string_field-HistoryAt c hist old.fields ho)
        (HistoryAt-set c mine
          (entry_text db conv same json actor now (codes "modified") (e ∷ changes) hist) self.fields
          hs)

  HistoryAt-stamped :
      (c : CachedField) (hist field : Text) (self : Model)
      → text_eq (codes "History") field ≡ false
      → HistoryAt c hist self.fields
      → HistoryAt c hist (stamped db conv same json actor now field self).fields
  unfolding stamped
  HistoryAt-stamped c hist field self d h = elim (Bool-cases (has_field field self.fields)) [
    | inl e ↦ rw e (HistoryAt-actor c hist field actor.name self.fields d h)
    | inr e ↦ rw e h
  ]

  marked-kept :
      (disabled : Bool) (changes : Columns) (hist mine : Text)
      → (changes ≡ [] → hist ≡ mine)
      → marked disabled changes hist mine ≡ (if disabled then mine else kept_history changes hist)
  marked-kept true changes hist mine h = refl
  marked-kept false [] hist mine h = sym (h refl)
  marked-kept false (e ∷ changes) hist mine h = kept_history-entry_text e changes hist

  HistoryAt-updated_model :
      (c : CachedField) (hist mine : Text) (old self : Model) (tb : Builder)
      → tb.selects ≡ []
      → HistoryAt c hist old.fields
      → HistoryAt c mine self.fields
      → HistoryAt c
          (marked tb.history_tracking_disabled (diff_for_history same old self []) hist mine)
          (updated_model db conv same json actor now old tb self).fields
  unfolding updated_model
  HistoryAt-updated_model c hist mine old self tb sel ho hs =
      let names : selected_names tb ≡ [] = ap (map (λ x. x.expr)) sel in
      rw names (
        HistoryAt-stamped c _ (codes "ModifiedBy") _ (unfold text_eq codes in refl) (
          HistoryAt-with_entry c hist mine tb old self tb.history_tracking_disabled
            (diff_for_history same old self []) refl ho hs))

  selected-ensure_aux_col :
      (self : Model) (field column : Text) (b : Builder)
      → b.selects ≡ []
      → ensure_aux_col self field column b ≡ b
  unfolding ensure_aux_col
  selected-ensure_aux_col self field column b e = rw e refl

  selected-ensured :
      (h : Option Text) (self : Model) (b : Builder)
      → b.selects ≡ []
      → ensured db conv same json actor now h self b ≡ b
  selected-ensured none self b e = refl
  selected-ensured (some hist) self b e =
      selected-ensure_aux_col self (codes "History") (codes "history") b e

  selected-updating_builder :
      (old self : Model) (tb : Builder)
      → tb.selects ≡ []
      → updating_builder db conv same json actor now old tb self ≡ tb
  unfolding updating_builder
  selected-updating_builder old self tb e =
      let hist =
        tracked_history db conv same json actor now tb
          (diff_for_history same old self (selected_names tb)) old in
      ap (ensure_aux_col self (codes "ModifiedBy") (codes "modified_by"))
        (selected-ensured hist self tb e)
      ∙ selected-ensure_aux_col self (codes "ModifiedBy") (codes "modified_by") tb e

  any_table : (t name : Text) → Ensures (λ (_ : Text). Unit {0}) (table_or_model t name)
  any_table t name = elim (table_or_model t name) as (λ r. Ensures (λ (_ : Text). Unit {0}) r) [
    | ok t ↦ holds tt
    | err e ↦ fails
  ]

  updates-update_model :
      (d : Model) (b : Builder)
      → Ensures (λ u. u.updates ≡ struct_to_map d (selected_names b)) (update_model d true b)
  unfolding update_model update_model_scoped
  updates-update_model d b =
      let names = ap (λ s. struct_to_map d (map (λ x. x.expr) s)) (selects-apply_scope b) in
      Ensures-guard
        (check_where true (apply_scope b)
          >> check_data (struct_to_map d (selected_names (apply_scope b))))
        (Ensures-bind _ (any_table (apply_scope b).table (table_name d)) (λ t ht.
          holds
            {c = record (apply_scope b) {
              action = Action.update;
              updates = struct_to_map d (selected_names (apply_scope b));
              table = t;
            }}
            names))

  -- An update of a model in a transaction, on the row that was locked as `old` and without selected columns,
  -- where History is a string in a column that is neither nullable nor left to the database and that is
  -- compared: the UPDATE that is executed writes into that column the JSON of the entries of the row with one more
  -- entry behind them, of the action modified, the changes, the actor and the time; or the history of the row as it
  -- was, where no column has changed or JSON cannot write the entries; whatever history the model came with. With
  -- NoHistory it writes the text that the model came with.
  pub update_model-history :
      (c : CachedField) (hist mine : Text) (old self : Model) (tb : Builder) {u : Builder}
      → HistoryAt c hist old.fields
      → HistoryAt c mine self.fields
      → is_taken [] c ≡ true
      → is_tracked [] c ≡ true
      → c.is_nullable ≡ false
      → tb.selects ≡ []
      → ((s t : Text) → same (text s) (text t) ≡ true → s ≡ t)
      → update_model
          (updated_model db conv same json actor now old tb self)
          true
          (updating_builder db conv same json actor now old tb self)
        ≡ ok u
      → value_at c.name u.updates
        ≡ text (
            if tb.history_tracking_disabled
            then mine
            else kept_history (diff_for_history same old self []) hist)
  update_model-history c hist mine old self tb ho hs taken tracked nullable sel law e =
      let m = updated_model db conv same json actor now old tb self in
      let changes = diff_for_history same old self [] in
      let written =
        of_Ensures
          (updates-update_model m (updating_builder db conv same json actor now old tb self)) e in
      let names =
        ap selected_names (selected-updating_builder old self tb sel)
        ∙ ap (map (λ x. x.expr)) sel in
      let x = marked tb.history_tracking_disabled changes hist mine in
      let at =
        put_columns-HistoryAt (is_taken []) stored_value c x m.fields taken
          (HistoryAt-updated_model c hist mine old self tb sel ho hs) in
      ap (value_at c.name) (written ∙ ap (struct_to_map m) names)
      ∙ unfold struct_to_map in
        at
        ∙ unfold stored_value in
          rw nullable refl
          ∙ ap text (
              marked-kept tb.history_tracking_disabled changes hist mine (λ n.
                law hist mine (no_change-HistoryAt same c hist mine old self tracked ho hs n)))
