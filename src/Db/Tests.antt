-- ===== src/Db/Tests.antt =====
-- Queries at concrete inputs.
use kiya.Base.{some, ◌≡◌, refl, List, [], ◌∷◌, ◌++◌, Bool, true, false, arith}
use kiya.Base.Int.{pos}
use kiya.Text.{Text, codes, count_in}
use kiya.Db.Builder.{Dialect, Builder, int, text, new_builder}
use kiya.Db.Sql.{Output}
use kiya.Db.Write.{ok, Write}
use kiya.Db.Chain.{Call, Comparison}
use kiya.Db.Query.{Ending, query, ScopeFunc, scoped_table}
use kiya.Db.Query.Guarded.{prepare-IsGuarded}
use kiya.Db.Query.Safety.{placeholders_match, no_foreign_bytes, is_mark, is_foreign}
use kiya.Text.{
  codes, text_eq, has_prefix, contains, join, all_in, is_digit, is_letter, is_space, to_lower,
  text_lt, trim_left, trim_space, sort_texts, count_in,
}
use kiya.Db.Sql.{
  nothing_written, write, push, junction_text, more_clauses, write_clauses, and_clauses, has_or,
  soft_wheres, build_wheres, select_exprs, write_selects, write_table, write_joins, write_list,
  write_havings, write_count, write_lock, build_select, value_at, valid_keys, sorted_keys,
  upsert_sets, upsert_for, write_returning, insert_columns, build_insert, insert_rows,
  build_insert_batch, update_columns, build_update, build_delete, build_action,
}
use kiya.Db.Scope.{
  scope_fields, all_keys, scope_round, scope_group, grouped, scoped_wheres, add_nonempty, add_group,
  add_conditions, scope_query, apply_scope_once, apply_scope,
}
use kiya.Db.Write.{
  member, accepted, stored, map_data, check_data, check_table, check_where_required, check_where,
  exec_insert, update_scoped, exec_update, delete_scoped, exec_delete, purge, restore, exec,
}
use kiya.Db.Read.{counting, testing, exec_count, exec_exist, clamp_page, clamp_per_page, paginate}
use kiya.Db.Query.{prepare, query}
use kiya.Db.Sanitize.{
  ident_byte, order_byte, sanitize_identifier, order_by_checked, sanitize_order_by,
  sanitize_on_clause,
}
use kiya.Db.Builder.{
  new_builder, no_scope, unsafe, no_history, lock, cols, nullable, on_conflict_update, and_where,
  or_where, bind, set_resources, unless_empty, compare_with, where_eq, where_not_eq, where_gt,
  where_gte, where_lt, where_lte, where_like, where_null, placeholders, where_in_safe, where_in,
  where_not_in_safe, where_not_in, join_safe, join_table, left_join, right_join, inner_join,
  valid_cols, group_by, having, order_by_safe, order_by, set_limit, set_offset,
  set_soft_delete_condition, clear_soft_delete_condition, is_zero,
}
use kiya.Db.Chain.{call, run}
use kiya.Base.{◌↔◌, ◌<◌, ◌≤◌, not, ◌&&◌}
use kiya.Db.Builder.{WhereClause, and, or, Action}
use kiya.Db.Sql.{nothing_written}
use kiya.Db.Sql.Balanced.{plain}
use kiya.Db.Sql.Meaning.{print, IsReadable, holds, chain_truth, soft_condition, either, both, leaf}
use kiya.Db.Sql.SoftDelete.{soft_delete_binds, raw_or_escapes}
use kiya.Db.Write.Laws.{IsGuarded}
use kiya.Db.Read.Pages.{InWindow, page_of, paginate_covers}

abbrev users : Text
users = codes "users"

-- a column name that is no identifier is dropped
abbrev calls : List Call
calls =
    Call.compare Comparison.eq (codes "id") (int (pos 7))
    ∷ Call.compare Comparison.gt (codes "id; DROP TABLE users") (int (pos 1))
    ∷ Call.or_where (codes "name = ?") (text (codes "x") ∷ [])
    ∷ Call.join_table (codes "teams") (codes "teams.id = team_id") (codes "LEFT")
    ∷ Call.set_resources (some (int (pos 3)))
    ∷ Call.set_soft_delete (codes "deleted_at IS NULL")
    ∷ []

-- the rows of one tenant
abbrev tenant : ScopeFunc
tenant fields res = (codes "tenant_id", res) ∷ []

abbrev update_name : Ending
update_name = Ending.write (Write.update ((codes "name", text (codes "it's")) ∷ []) false)

abbrev updated : Output
updated = record {
  sql =
      codes
        "UPDATE users SET name = ? WHERE deleted_at IS NULL AND (id = ? OR name = ?) AND (tenant_id = ?)";
  args = text (codes "it's") ∷ int (pos 7) ∷ text (codes "x") ∷ int (pos 3) ∷ [];
}

update-updated : query users Dialect.mysql (some tenant) calls update_name ≡ ok updated
unfolding codes text_eq has_prefix contains join all_in is_digit is_letter is_space to_lower text_lt
    trim_left trim_space sort_texts count_in nothing_written write push junction_text more_clauses
    write_clauses and_clauses has_or soft_wheres build_wheres select_exprs write_selects write_table
    write_joins write_list write_havings write_count write_lock build_select value_at valid_keys
    sorted_keys upsert_sets upsert_for write_returning insert_columns build_insert insert_rows
    build_insert_batch update_columns build_update build_delete build_action scope_fields all_keys
    scope_round scope_group grouped scoped_wheres add_nonempty add_group add_conditions scope_query
    apply_scope_once apply_scope member accepted stored map_data check_data check_table
    check_where_required check_where exec_insert update_scoped exec_update delete_scoped exec_delete
    purge restore exec counting testing exec_count exec_exist clamp_page clamp_per_page paginate
    prepare query scoped_table ident_byte order_byte sanitize_identifier order_by_checked
    sanitize_order_by sanitize_on_clause new_builder no_scope unsafe no_history lock cols nullable
    on_conflict_update and_where or_where bind set_resources unless_empty compare_with where_eq
    where_not_eq where_gt where_gte where_lt where_lte where_like where_null placeholders
    where_in_safe where_in where_not_in_safe where_not_in join_safe join_table left_join right_join
    inner_join valid_cols group_by having order_by_safe order_by set_limit set_offset
    set_soft_delete_condition clear_soft_delete_condition is_zero call run
update-updated = refl

placeholders_match_example : count_in is_mark updated.sql ≡ 4
unfolding count_in codes
placeholders_match_example =
    placeholders_match users Dialect.mysql (some tenant) calls update_name
      (tt, (tt, (refl, ((refl, refl), (tt, (refl, tt)))))) tt update-updated

no_foreign_bytes_example : count_in is_foreign updated.sql ≡ 0
unfolding count_in codes plain
no_foreign_bytes_example =
    no_foreign_bytes users Dialect.mysql (some tenant) calls update_name
      (tt, (tt, (refl, ((refl, refl), (tt, (refl, tt)))))) tt update-updated

abbrev deleted_null : Text
deleted_null = codes "deleted_at IS NULL"

abbrev either_name : List WhereClause
either_name =
    record { boolean = and; expr = codes "name = ?"; args = text (codes "x") ∷ [] }
    ∷ record { boolean = or; expr = codes "id = ?"; args = int (pos 7) ∷ [] }
    ∷ []

soft_delete_binds_example :
    ((build_wheres deleted_null either_name nothing_written).sql
      ≡ nothing_written.sql ++ (codes " WHERE " ++ print (soft_condition deleted_null either_name)))
    × IsReadable (soft_condition deleted_null either_name)
    × ((v : Text → Bool)
        → holds v (soft_condition deleted_null either_name)
          ≡ (v deleted_null && chain_truth v either_name))
unfolding codes
soft_delete_binds_example = soft_delete_binds deleted_null either_name nothing_written (λ e. cc)

abbrev raw_or : WhereClause
raw_or = record {
  boolean = and;
  expr = codes "role = 'a'" ++ (codes " OR " ++ codes "role = 'b'");
  args = [];
}

abbrev all_but_deleted : Text → Bool
all_but_deleted t = not (text_eq t deleted_null)

raw_or_escapes_example :
    ((build_wheres deleted_null (raw_or ∷ []) nothing_written).sql
      ≡ nothing_written.sql
        ++ (codes " WHERE "
            ++ print (
                either
                  (both (leaf deleted_null) (leaf (codes "role = 'a'")))
                  (leaf (codes "role = 'b'")))))
    × IsReadable
        (either (both (leaf deleted_null) (leaf (codes "role = 'a'"))) (leaf (codes "role = 'b'")))
    × (holds all_but_deleted (
          either (both (leaf deleted_null) (leaf (codes "role = 'a'"))) (leaf (codes "role = 'b'")))
        ≡ true)
unfolding codes text_eq
raw_or_escapes_example =
    raw_or_escapes deleted_null (codes "role = 'a'") (codes "role = 'b'") raw_or nothing_written
      all_but_deleted (λ e. cc) refl refl refl refl

abbrev found_user : Builder
found_user = run calls (new_builder users Dialect.mysql)

abbrev removed_user : Builder
removed_user = record found_user {
  action = Action.update;
  updates = (codes "deleted_at", text (codes "now")) ∷ [];
  scope_applied = true;
}

abbrev delete_user : Write
delete_user = Write.delete (text (codes "now")) false

delete-removed : exec delete_user found_user ≡ ok removed_user
unfolding codes text_eq has_prefix contains join all_in is_digit is_letter is_space to_lower text_lt
    trim_left trim_space sort_texts count_in nothing_written write push junction_text more_clauses
    write_clauses and_clauses has_or soft_wheres build_wheres select_exprs write_selects write_table
    write_joins write_list write_havings write_count write_lock build_select value_at valid_keys
    sorted_keys upsert_sets upsert_for write_returning insert_columns build_insert insert_rows
    build_insert_batch update_columns build_update build_delete build_action scope_fields all_keys
    scope_round scope_group grouped scoped_wheres add_nonempty add_group add_conditions scope_query
    apply_scope_once apply_scope member accepted stored map_data check_data check_table
    check_where_required check_where exec_insert update_scoped exec_update delete_scoped exec_delete
    purge restore exec counting testing exec_count exec_exist clamp_page clamp_per_page paginate
    prepare query scoped_table ident_byte order_byte sanitize_identifier order_by_checked
    sanitize_order_by sanitize_on_clause new_builder no_scope unsafe no_history lock cols nullable
    on_conflict_update and_where or_where bind set_resources unless_empty compare_with where_eq
    where_not_eq where_gt where_gte where_lt where_lte where_like where_null placeholders
    where_in_safe where_in where_not_in_safe where_not_in join_safe join_table left_join right_join
    inner_join valid_cols group_by having order_by_safe order_by set_limit set_offset
    set_soft_delete_condition clear_soft_delete_condition is_zero call run
delete-removed = refl

prepare-IsGuarded_example : IsGuarded removed_user
unfolding prepare
prepare-IsGuarded_example =
    prepare-IsGuarded (Ending.write delete_user) found_user refl delete-removed

paginate_covers_example :
    InWindow (paginate (pos 2) (pos 10) 25) 12
    ↔ ((12 < 25) × (2 ≡ page_of (pos 10) 12) × (2 ≤ (paginate (pos 2) (pos 10) 25).last_page))
paginate_covers_example = paginate_covers (pos 10) 25 12 2 (omega arith)
