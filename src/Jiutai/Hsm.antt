-- ===== src/Jiutai/Hsm.antt =====
-- jiutai/jf_hsm.c: the hierarchical state machine.
-- Functions that the user registers are numbers, but guards, which only decide; a run keeps the list
-- of the calls that it made. A row of a transition table stays in the list up to the last row, whose
-- ids are JF_HSM_LAST_STATE_ID and JF_HSM_LAST_EVENT_ID.
pub mod Setup
pub mod Rows
pub mod Events
pub mod Tables
pub mod Enter
mod Tests
use jiufeng.Prelude.{
  ℕ, zero, suc, ◌+◌, ◌-◌, ◌^◌, Bool, true, false, not, ◌&&◌, ◌||◌, Option, none, some, List, [],
  ◌∷◌, ◌++◌, ◌==◌, if◌then◌else◌, set, get_elem?,
}
use jiufeng.Jiutai.Err.{Code, Err, Result, ok, err, on_alloc}

-- JF_HSM_LAST_STATE_ID and JF_HSM_LAST_EVENT_ID
abbrev pub last_id : ℕ
last_id = 2 ^ 32 - 1

-- `jf_hsm_event_t`
pub record Event : Type 0 where
  pub event_id : ℕ
  pub event_data : ℕ

-- `jf_hsm_transition_t`; `none` is a NULL function.
pub record Transition : Type 0 where
  pub current_state : ℕ
  pub event : ℕ
  pub guard : Option (Event → Bool)
  pub action : Option ℕ
  pub next_state : ℕ

-- `internal_hsm_state_transition_table_t`
pub record Table : Type 0 where
  pub state_id : ℕ
  pub initial : ℕ
  pub current : ℕ
  pub rows : List Transition

-- `internal_hsm_state_callback_t`
pub record Callback : Type 0 where
  pub of_state : ℕ
  pub on_entry : ℕ
  pub on_exit : ℕ

-- `internal_hsm_t`
pub record Hsm : Type 0 where
  pub tables : List Table
  pub callbacks : List Callback

-- A call of a function of the user: an action, or a callback with the state that it gets.
pub data Call : Type 0 where
  ran : ℕ → Call
  entered exited : ℕ → ℕ → Call

-- The rows that `_getJfHsmTransitionTableSize` counts, with the one that ends them.
pub table_rows : List Transition → List Transition
table_rows [] = []
table_rows (t ∷ ts) =
    let rest = table_rows ts in if t.current_state == last_id then t ∷ [] else t ∷ rest

-- `_createInternalHsmStateTransitionTable` behind its allocation.
pub create_table : ℕ → List Transition → ℕ → Table
unfolding table_rows
create_table state rows initial = record {
  state_id = state;
  initial = initial;
  current = initial;
  rows = table_rows rows;
}

-- The loop of `_getInternalHsmStateTransitionTable`: the place of the table in the list.
pub find_table : List Table → ℕ → Option ℕ
find_table [] state = none
find_table (t ∷ ts) state =
    let rest = find_table ts state in
    if t.state_id == state then some 0 else elim rest [ none ↦ none | some i ↦ some (suc i) ]

-- `_getInternalHsmStateTransitionTable`
pub get_table : Hsm → ℕ → Result ℕ
unfolding find_table
get_table h state =
    if state == last_id
    then err Code.invalid_param
    else elim (find_table h.tables state) [ none ↦ err Code.hsm_state_not_found | some i ↦ ok i ]

-- The loop of `_getInternalHsmStateCallback`
pub find_callback : List Callback → ℕ → Option Callback
find_callback [] state = none
find_callback (c ∷ cs) state =
    let rest = find_callback cs state in if c.of_state == state then some c else rest

-- `_getInternalHsmStateCallback`
pub get_callback : Hsm → ℕ → Result Callback
unfolding find_callback
get_callback h state =
    if state == last_id then err Code.invalid_param else elim (find_callback h.callbacks state) [
      | none ↦ err Code.hsm_state_not_found
      | some c ↦ ok c
    ]

-- `_executeHsmStateAction`
pub execute_action : Transition → List Call
execute_action t = elim t.action [ none ↦ [] | some f ↦ Call.ran f ∷ [] ]

-- The two calls of callbacks in `_postHsmStateTransition`.
pub call_exit : Result Callback → List Call
call_exit (err e) = []
call_exit (ok c) = Call.exited c.on_exit c.of_state ∷ []

pub call_entry : Result Callback → List Call
call_entry (err e) = []
call_entry (ok c) = Call.entered c.on_entry c.of_state ∷ []

-- A write to the current state of the table at a place of the list.
abbrev pub set_current : List Table → ℕ → (Table → ℕ) → List Table
set_current [] i f = []
set_current (t ∷ ts) zero f = record t { current = f t } ∷ ts
set_current (t ∷ ts) (suc i) f = t ∷ set_current ts i f

-- The last lines of `_postHsmStateTransition`: the table of the new state begins anew.
pub reset_lower : Hsm → Result ℕ → Hsm
reset_lower h (err e) = h
reset_lower h (ok i) = record h { tables = set_current h.tables i (λ t. t.initial) }

-- `_postHsmStateTransition`, on the table at place `i` with the current state `state`.
pub post_transition : Hsm → ℕ → ℕ → Transition → Hsm × List Call
unfolding get_table get_callback call_exit call_entry reset_lower
post_transition h i state t =
    let exits = call_exit (get_callback h state) in
    let h1 = record h { tables = set_current h.tables i (λ u. t.next_state) } in
    let entries = call_entry (get_callback h1 t.next_state) in
    let h2 = reset_lower h1 (get_table h1 t.next_state) in
    if not (t.next_state == last_id) && not (t.next_state == t.current_state)
    then (h2, exits ++ entries)
    else (h, [])

-- The test of a row in `_processHsmEvent`, without its guard.
pub is_match : ℕ → Event → Transition → Bool
is_match state e t = (t.current_state == state) && (t.event == e.event_id)

-- The guard of a row lets the event pass.
pub passes : Event → Transition → Bool
passes e t = elim t.guard [ none ↦ true | some g ↦ g e ]

-- What `_processHsmEvent` does with the row that it takes.
pub fire : Hsm → ℕ → ℕ → Transition → Hsm × List Call
unfolding execute_action post_transition
fire h i state t = let r = post_transition h i state t in (r.0, execute_action t ++ (r.1))

-- The loop of `_processHsmEvent` on the table at place `i`; `hit` is `*pbHit`.
pub process_rows : Hsm → ℕ → ℕ → Event → Bool → List Transition → Bool × Hsm × List Call
unfolding is_match passes fire
process_rows h i state e hit [] = (hit, h, [])
process_rows h i state e hit (t ∷ ts) =
    let fired = fire h i state t in
    let go_on = process_rows h i state e hit ts in
    let go_on_hit = process_rows h i state e true ts in
    if t.event == last_id
    then (hit, h, [])
    else if is_match state e t
    then (if passes e t then (true, fired.0, fired.1) else go_on_hit)
    else go_on

-- The loop of `jf_hsm_processEvent` over the tables from place `i` on; `state` is its `stateId`.
pub process_tables : Hsm → Event → ℕ → ℕ → List Table → Hsm × List Call
unfolding process_rows
process_tables h e i state [] = (h, [])
process_tables h e i state (t ∷ ts) =
    let state' = if t.state_id == last_id then t.current else state in
    let r = process_rows h i t.current e false t.rows in
    let rest = process_tables (r.1) e (suc i) state' ts in
    let skip = process_tables h e (suc i) state' ts in
    if (t.state_id == last_id) || (t.state_id == state)
    then (if r.0 then (r.1, r.2) else (rest.0, (r.2) ++ (rest.1)))
    else skip

-- `jf_hsm_processEvent`
pub process_event : Hsm → Event → Hsm × List Call
unfolding process_tables
process_event h e = process_tables h e 0 last_id h.tables

-- `jf_hsm_create`, whose two allocations return the first two arguments.
pub create_hsm : Err → Err → List Transition → ℕ → Result Hsm
unfolding create_table
create_hsm a a' rows initial =
    let h : Hsm = record { tables = create_table last_id rows initial ∷ []; callbacks = [] } in
    elim (on_alloc a h) [ err c ↦ err c | ok h' ↦ on_alloc a' h' ]

-- The lower level in `jf_hsm_getCurrentStateId`.
pub lower_state : List Table → ℕ → Result ℕ → ℕ
lower_state ts state (err e) = state
lower_state ts state (ok i) = elim (get_elem? ts i) [ none ↦ state | some t ↦ t.current ]

-- `jf_hsm_getCurrentStateId`; `none` is its assertion that there is a table.
pub get_current_state_id : Hsm → Option ℕ
unfolding get_table lower_state
get_current_state_id h = elim h.tables [
  | [] ↦ none
  | top ∷ rest ↦ some (lower_state h.tables top.current (get_table h top.current))
]
