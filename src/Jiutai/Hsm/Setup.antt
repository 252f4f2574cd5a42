-- ===== src/Jiutai/Hsm/Setup.antt =====
-- jiutai/jf_hsm.c: the functions that add tables and callbacks to a state machine.
pub mod Callbacks
use jiufeng.Prelude.{remove_at, ℕ, zero, suc, List, [], ◌∷◌, ◌++◌, ◌==◌, if◌then◌else◌}
use jiufeng.Jiutai.Err.{Code, Err, Result, ok, err}
use jiufeng.Jiutai.Hsm.{Transition, Callback, Hsm, create_table, get_table, get_callback}

-- The creation of the table in `jf_hsm_addStateTransition`.
unfoldable pub add_table : Err → List Transition → ℕ → ℕ → Hsm → Err × Hsm
add_table Err.no_error rows state initial h =
    (Err.no_error, record h { tables = h.tables ++ create_table state rows initial ∷ [] })
add_table (Err.failed c) rows state initial h = (Err.failed c, h)

-- The tables behind the lookup of `jf_hsm_addStateTransition`: an old table of the state goes first,
-- also when the allocation of the new one then fails.
unfoldable pub add_behind : Result ℕ → Err → List Transition → ℕ → ℕ → Hsm → Err × Hsm
unfolding add_table
add_behind (ok i) a rows state initial h =
    add_table a rows state initial (record h { tables = remove_at h.tables i })
add_behind (err Code.hsm_state_not_found) a rows state initial h = add_table a rows state initial h
add_behind (err c) a rows state initial h = (Err.failed c, h)

-- `jf_hsm_addStateTransition`
unfoldable pub add_state_transition : Err → List Transition → ℕ → ℕ → Hsm → Err × Hsm
unfolding add_behind
add_state_transition a rows state initial h = add_behind (get_table h state) a rows state initial h

-- The callback of a state overwritten, as `jf_hsm_addStateCallback` does behind its lookup.
pub overwrite_callback : List Callback → ℕ → ℕ → ℕ → List Callback
overwrite_callback [] state on_entry on_exit = []
overwrite_callback (c ∷ cs) state on_entry on_exit =
    let rest = overwrite_callback cs state on_entry on_exit in
    if c.of_state == state
    then record c { on_entry = on_entry; on_exit = on_exit } ∷ cs
    else c ∷ rest

-- `_createInternalHsmStateCallback` and the lines behind it.
pub add_callback : Err → ℕ → ℕ → ℕ → Hsm → Err × Hsm
add_callback Err.no_error state on_entry on_exit h = (
  Err.no_error,
  record h {
    callbacks =
        h.callbacks ++ record { of_state = state; on_entry = on_entry; on_exit = on_exit } ∷ [];
  },
)
add_callback (Err.failed c) state on_entry on_exit h = (Err.failed c, h)

-- `jf_hsm_addStateCallback`
pub add_state_callback : Err → ℕ → ℕ → ℕ → Hsm → Err × Hsm
unfolding overwrite_callback add_callback
add_state_callback a state on_entry on_exit h = elim (get_callback h state) [
  | ok c ↦
      (Err.no_error, record h { callbacks = overwrite_callback h.callbacks state on_entry on_exit })
  | err Code.hsm_state_not_found ↦ add_callback a state on_entry on_exit h
  | err c ↦ (Err.failed c, h)
]
