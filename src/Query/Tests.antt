-- ===== src/Query/Tests.antt =====
-- Runs of queries, and instances of the theorems about them.
use tab_conductor.Prelude.{◌≡◌, refl, [], ◌∷◌}
use tab_conductor.Prelude.Int.{pos}
use tab_conductor.Prelude.Call.{returns, raises}
use tab_conductor.Value.{Value, null, str, int, list, dict, nil, cons, end, field, get}
use tab_conductor.Value.Text.{strip, lstrip, rstrip, is_space, is_empty}
use tab_conductor.Query.Text.{
  snoc, at_end, is_word_tail, is_field, index_digits, index_of, split_bracket, split_filter,
  rstrip_dots, after, value_of, comparison, filter_of,
}
use tab_conductor.Query.Paths.{dotted, walk, is_name, is_word, query-walk}
use tab_conductor.Query.{
  query, value_error, type_error, dict_access, count_items, nth, item_at, apply_segment, flush,
  tokens, reverse_onto, tokenise, follow, resolve_prefix, matches, count_matches,
}

abbrev state : Value
state = dict (
    field "status" (str "running") (
      field "tasks"
        (list (
          cons (dict (field "id" (str "a") (field "status" (str "done") end)))
            (cons (dict (field "id" (str "b") (field "status" (str "pending") end))) nil)))
        end))

runs : Unit {0}
unfolding get strip lstrip rstrip is_space is_empty snoc at_end is_word_tail is_field index_digits
    index_of split_bracket split_filter rstrip_dots after value_of comparison filter_of query
    dict_access count_items nth item_at apply_segment flush tokens reverse_onto tokenise follow
    resolve_prefix matches count_matches
runs = tt

query-index : query state " tasks[-1].id " ≡ returns (str "b")
unfolding runs
query-index = refl

query-count : query state "tasks[?status=='done']|length" ≡ returns (int (pos 1))
unfolding runs
query-count = refl

query-missing : query state "workers[0].id" ≡ returns null
unfolding runs
query-missing = refl

query-bracket : query state "tasks[0" ≡ raises value_error
unfolding runs
query-bracket = refl

query-type : query state "status.x" ≡ raises type_error
unfolding runs
query-type = refl

-- a nested mapping
abbrev nested : Value
nested = dict (field "run" (dict (field "id" (str "x") end)) end)

query-walk_example : query nested (dotted "run" ("id" ∷ [])) ≡ walk ("run" ∷ "id" ∷ []) nested
unfolding is_name is_word
query-walk_example = query-walk nested "run" ("id" ∷ []) (refl, (refl, tt))

walk-nested : walk ("run" ∷ "id" ∷ []) nested ≡ returns (str "x")
unfolding runs walk
walk-nested = refl
