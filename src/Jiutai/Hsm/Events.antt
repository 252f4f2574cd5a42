-- ===== src/Jiutai/Hsm/Events.antt =====
-- jiutai/jf_hsm.c: `jf_hsm_processEvent` over the levels of the machine.
use jiufeng.Prelude.{
  ℕ, suc, ◌≡◌, refl, ap, ◌∙◌, arith, Bool, true, false, Option, none, some, List, [], ◌∷◌, ◌++◌,
  ◌==◌, if◌then◌else◌, Bool-cases, inl, inr, All,
}
use jiufeng.Jiutai.Hsm.{
  Event, Transition, Table, Callback, Hsm, Call, last_id, process_tables, process_event,
}
use jiufeng.Jiutai.Hsm.Rows.{enabled_row, has_match, taken_row, process_rows_lem}

-- An event offered to the table at a place: whether a row matches, and what is left.
abbrev pub offered : Hsm → ℕ → Event → Table → Bool × Hsm × List Call
offered h i e t =
    taken_row h i t.current (has_match t.current e t.rows) (enabled_row t.current e t.rows)

-- The event offered to the first of some tables that belongs to a state.
unfoldable pub offer_lower : Hsm → Event → ℕ → ℕ → List Table → Hsm × List Call
offer_lower h e i state [] = (h, [])
offer_lower h e i state (t ∷ ts) =
    if t.state_id == state
    then ((offered h i e t).1, (offered h i e t).2)
    else offer_lower h e (suc i) state ts

-- Tables that are not the top one and belong to different states.
abbrev pub AreLower : List Table → Type 0
AreLower [] = Unit
AreLower (t ∷ ts) =
    ((t.state_id == last_id) ≡ false)
    × All (λ u. (u.state_id == t.state_id) ≡ false) ts
    × AreLower ts

-- The loop passes over tables of other states.
passed_over :
    (h : Hsm) (e : Event) (i state : ℕ) (ts : List Table)
    → AreLower ts
    → All (λ u. (u.state_id == state) ≡ false) ts
    → process_tables h e i state ts ≡ (h, [])
unfolding process_tables
passed_over h e i state [] v a = refl
passed_over h e i state (t ∷ ts) (l, d, v) (n, a) = rw (l, n) (passed_over h e (suc i) state ts v a)

-- One round of the loop: the rest of it, `behind`, runs unless the event hit.
abbrev then_behind : Bool × Hsm × List Call → (Hsm → Hsm × List Call) → Hsm × List Call
then_behind r behind = if r.0 then (r.1, r.2) else ((behind (r.1)).0, (r.2) ++ ((behind (r.1)).1))

-- A level ends the loop, when nothing behind it would do more.
last_level :
    (h : Hsm) (i state : ℕ) (m : Bool) (o : Option Transition) (behind : Hsm → Hsm × List Call)
    → behind h ≡ (h, [])
    → Path
        (Hsm × List Call)
        (then_behind (taken_row h i state m o) behind)
        ((taken_row h i state m o).1, (taken_row h i state m o).2)
last_level h i state true none behind e = refl
last_level h i state false none behind e = e
last_level h i state m (some t) behind e = refl

first_level :
    (h : Hsm) (i state : ℕ) (m : Bool) (o : Option Transition) (behind : Hsm → Hsm × List Call)
    → then_behind (taken_row h i state m o) behind ≡ (
        if (taken_row h i state m o).0
        then ((taken_row h i state m o).1, (taken_row h i state m o).2)
        else behind h)
first_level h i state true none behind = refl
first_level h i state false none behind = refl
first_level h i state m (some t) behind = refl

same_state : (a b c : ℕ) → (c == a) ≡ false → (a == b) ≡ true → (c == b) ≡ false
same_state a b c x y = ground arith

All-other :
    (a b : ℕ)
    → (a == b) ≡ true
    → (ts : List Table) → All (λ u. (u.state_id == a) ≡ false) ts
    → All (λ u. (u.state_id == b) ≡ false) ts
All-other a b e [] v = v
All-other a b e (t ∷ ts) (n, v) = (same_state a b t.state_id n e, All-other a b e ts v)

lower_tables_lem :
    (h : Hsm) (e : Event) (i state : ℕ) (ts : List Table)
    → AreLower ts
    → process_tables h e i state ts ≡ offer_lower h e i state ts
unfolding process_tables offer_lower
lower_tables_lem h e i state [] v = refl
lower_tables_lem h e i state (t ∷ ts) (l, d, v) = elim (Bool-cases (t.state_id == state)) [
  | inl x ↦
      let behind : Hsm → Hsm × List Call = λ k. process_tables k e (suc i) state ts in
      let row = process_rows_lem h i t.current e false t.rows in
      let over = passed_over h e (suc i) state ts v (All-other t.state_id state x ts d) in
      rw (l, x)
        (ap (λ r. then_behind r behind) row
          ∙ last_level h i t.current (has_match t.current e t.rows) (enabled_row t.current e t.rows)
              behind over)
  | inr x ↦ rw (l, x) (lower_tables_lem h e (suc i) state ts v)
]

-- A machine: the top table first, then tables of different states.
abbrev pub IsHsm : List Table → Type 0
IsHsm [] = ⊥
IsHsm (t ∷ ts) = ((t.state_id == last_id) ≡ true) × AreLower ts

-- A machine by its top table, the others and the callbacks.
abbrev pub machine : Table → List Table → List Callback → Hsm
machine t ts cs = record { tables = t ∷ ts; callbacks = cs }

-- `jf_hsm_processEvent` on a machine whose first table is the top one and whose others belong to
-- different states: the event is offered to the top table, and only if no row there is for the
-- current state and the event, whatever the guards say, to the table of that state, if there is one.
-- In a table the first row for the state and the event whose guard passes is taken, and no other.
pub process_event_lem :
    (e : Event) (t : Table) (ts : List Table) (cs : List Callback)
    → IsHsm (t ∷ ts)
    → process_event (machine t ts cs) e ≡ (
        if (offered (machine t ts cs) 0 e t).0
        then ((offered (machine t ts cs) 0 e t).1, (offered (machine t ts cs) 0 e t).2)
        else offer_lower (machine t ts cs) e 1 t.current ts)
unfolding process_event process_tables
process_event_lem e t ts cs (top, v) =
    let h = machine t ts cs in
    let behind : Hsm → Hsm × List Call = λ k. process_tables k e 1 t.current ts in
    let row = process_rows_lem h 0 t.current e false t.rows in
    let lower = lower_tables_lem h e 1 t.current ts v in
    let level =
      first_level h 0 t.current (has_match t.current e t.rows) (enabled_row t.current e t.rows)
        behind in
    rw top (
      ap (λ r. then_behind r behind) row
      ∙ level
      ∙ ap (λ d. if (offered h 0 e t).0 then ((offered h 0 e t).1, (offered h 0 e t).2) else d)
          lower)
