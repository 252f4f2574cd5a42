-- ===== src/Jiutai/Hsm/Tests.antt =====
-- jiutai/jf_hsm.c: runs and examples of the state machine.
use jiufeng.Prelude.{ℕ, ◌+◌, ◌≡◌, refl, Bool, false, Option, none, some, [], ◌∷◌, if◌then◌else◌}
use jiufeng.Jiutai.Err.{Err}
use jiufeng.Jiutai.Hsm.{
  post_transition, Event, Transition, Table, Callback, Hsm, Call, last_id, process_event,
  get_current_state_id, process_rows,
}
use jiufeng.Jiutai.Hsm.Enter.{entered_state, get_current_state_id-post_transition}
use jiufeng.Jiutai.Hsm.Setup.{add_state_transition}
use jiufeng.Jiutai.Hsm.Rows.{taken_row, has_match, enabled_row, process_rows_lem}
use jiufeng.Jiutai.Hsm.Events.{IsHsm, offered, offer_lower, process_event_lem, machine}
use jiufeng.Jiutai.Hsm.Tables.{add_state_transition-IsHsm}

abbrev row : ℕ → ℕ → Option (Event → Bool) → ℕ → Transition
row state e g next = record {
  current_state = state;
  event = e;
  guard = g;
  action = some (100 + state);
  next_state = next;
}

abbrev last_row : Transition
last_row = record {
  current_state = last_id;
  event = last_id;
  guard = none;
  action = none;
  next_state = last_id;
}

-- The states 1 and 2, where 2 has the lower states 21 and 22.
abbrev top_table : Table
top_table = record {
  state_id = last_id;
  initial = 1;
  current = 1;
  rows = row 1 7 (some (λ e. false)) 3 ∷ row 1 7 none 2 ∷ row 2 9 none 1 ∷ last_row ∷ [];
}

abbrev lower_table : Table
lower_table = record {
  state_id = 2;
  initial = 21;
  current = 22;
  rows = row 21 8 none 22 ∷ last_row ∷ [];
}

abbrev on_two : Callback
on_two = record { of_state = 2; on_entry = 50; on_exit = 51 }

abbrev two_levels : Hsm
two_levels = machine top_table (lower_table ∷ []) (on_two ∷ [])

abbrev event_of : ℕ → Event
event_of n = record { event_id = n; event_data = 0 }

-- Event 7 enters state 2, whose table begins anew; event 8 then moves on the lower level.
enter_two : get_current_state_id ((process_event two_levels (event_of 7)).0) ≡ some 21
unfolding get_current_state_id process_event
enter_two = refl

calls_of_seven : (process_event two_levels (event_of 7)).1 ≡ Call.ran 101 ∷ Call.entered 50 2 ∷ []
unfolding process_event
calls_of_seven = refl

move_below :
    get_current_state_id
      ((process_event ((process_event two_levels (event_of 7)).0) (event_of 8)).0)
    ≡ some 22
unfolding get_current_state_id process_event
move_below = refl

process_rows_lem_example :
    process_rows two_levels 0 1 (event_of 7) false top_table.rows
    ≡ taken_row two_levels 0 1
        (has_match 1 (event_of 7) top_table.rows)
        (enabled_row 1 (event_of 7) top_table.rows)
process_rows_lem_example = process_rows_lem two_levels 0 1 (event_of 7) false top_table.rows

process_event_lem_example : process_event two_levels (event_of 7) ≡ (
    if (offered two_levels 0 (event_of 7) top_table).0
    then (
      (offered two_levels 0 (event_of 7) top_table).1,
      (offered two_levels 0 (event_of 7) top_table).2,
    )
    else offer_lower two_levels (event_of 7) 1 1 (lower_table ∷ []))
process_event_lem_example =
    process_event_lem (event_of 7) top_table (lower_table ∷ []) (on_two ∷ []) (refl, (refl, tt, tt))

add_state_transition-IsHsm_example :
    IsHsm (Hsm.tables ((add_state_transition Err.no_error (last_row ∷ []) 2 20 two_levels).1))
add_state_transition-IsHsm_example =
    add_state_transition-IsHsm Err.no_error (last_row ∷ []) 2 20 top_table (lower_table ∷ [])
      (on_two ∷ []) refl (refl, (refl, tt, tt))

get_current_state_id-post_transition_example :
    get_current_state_id ((post_transition two_levels 0 1 (row 1 7 none 2)).0)
    ≡ some (entered_state (lower_table ∷ []) 2)
get_current_state_id-post_transition_example =
    get_current_state_id-post_transition top_table (lower_table ∷ []) (on_two ∷ []) 1
      (row 1 7 none 2) refl refl refl
