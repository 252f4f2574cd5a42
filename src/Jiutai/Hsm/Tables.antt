-- ===== src/Jiutai/Hsm/Tables.antt =====
-- jiutai/jf_hsm.c: the list of tables keeps its form.
use jiufeng.Prelude.{
  remove_at, ℕ, zero, suc, ◌≡◌, sym, subst, arith, Bool, true, false, Option, none, some, List, [],
  ◌∷◌, ◌++◌, ◌==◌, if◌then◌else◌, Bool-cases, inl, inr, All,
}
use jiufeng.Jiutai.Err.{Code, Err, Result, ok, err}
use jiufeng.Jiutai.Hsm.{
  Event, Transition, Table, Callback, Hsm, Call, last_id, fire, post_transition, reset_lower,
  process_event, set_current, find_table, get_table, create_table,
}
use jiufeng.Jiutai.Hsm.Setup.{add_table, add_behind, add_state_transition}
use jiufeng.Jiutai.Hsm.Rows.{taken_row, has_match, enabled_row}
use jiufeng.Jiutai.Hsm.Events.{IsHsm, AreLower, offered, offer_lower, process_event_lem, machine}

-- Tables that do not belong to a state.
abbrev Others : ℕ → List Table → Type 0
Others s ts = All (λ u. (u.state_id == s) ≡ false) ts

==_comm : (a b : ℕ) → (a == b) ≡ false → (b == a) ≡ false
==_comm a b h = ground arith

trans_other : (a b c : ℕ) → (c == a) ≡ false → (a == b) ≡ true → (c == b) ≡ false
trans_other a b c x y = ground arith

set_current-Others :
    (s : ℕ) (ts : List Table) (i : ℕ) (f : Table → ℕ) → Others s ts → Others s (set_current ts i f)
set_current-Others s [] i f o = o
set_current-Others s (t ∷ ts) zero f o = o
set_current-Others s (t ∷ ts) (suc i) f (n, o) = (n, set_current-Others s ts i f o)

set_current-AreLower :
    (ts : List Table) (i : ℕ) (f : Table → ℕ) → AreLower ts → AreLower (set_current ts i f)
set_current-AreLower [] i f v = v
set_current-AreLower (t ∷ ts) zero f v = v
set_current-AreLower (t ∷ ts) (suc i) f (l, d, v) =
    (l, set_current-Others t.state_id ts i f d, set_current-AreLower ts i f v)

set_current-IsHsm :
    (ts : List Table) (i : ℕ) (f : Table → ℕ) → IsHsm ts → IsHsm (set_current ts i f)
set_current-IsHsm [] i f v = elim v [ ]
set_current-IsHsm (t ∷ ts) zero f v = v
set_current-IsHsm (t ∷ ts) (suc i) f (top, v) = (top, set_current-AreLower ts i f v)

remove_at-Others : (s : ℕ) (ts : List Table) (i : ℕ) → Others s ts → Others s (remove_at ts i)
remove_at-Others s [] i o = o
remove_at-Others s (t ∷ ts) zero (n, o) = o
remove_at-Others s (t ∷ ts) (suc i) (n, o) = (n, remove_at-Others s ts i o)

remove_at-AreLower : (ts : List Table) (i : ℕ) → AreLower ts → AreLower (remove_at ts i)
remove_at-AreLower [] i v = v
remove_at-AreLower (t ∷ ts) zero (l, d, v) = v
remove_at-AreLower (t ∷ ts) (suc i) (l, d, v) =
    (l, remove_at-Others t.state_id ts i d, remove_at-AreLower ts i v)

Others-same : (a b : ℕ) → (a == b) ≡ true → (ts : List Table) → Others a ts → Others b ts
Others-same a b e [] v = v
Others-same a b e (t ∷ ts) (n, v) = (trans_other a b t.state_id n e, Others-same a b e ts v)

-- Without the table that a lookup found, no other belongs to the state.
abbrev LeftOver : ℕ → List Table → Option ℕ → Type 0
LeftOver s ts none = Others s ts
LeftOver s ts (some i) = Others s (remove_at ts i)

LeftOver-below :
    (s : ℕ) (t : Table) (ts : List Table) (o : Option ℕ)
    → (t.state_id == s) ≡ false
    → LeftOver s ts o
    → LeftOver s (t ∷ ts) (elim o [ none ↦ none | some i ↦ some (suc i) ])
LeftOver-below s t ts none n v = (n, v)
LeftOver-below s t ts (some i) n v = (n, v)

find_table-LeftOver : (s : ℕ) (ts : List Table) → AreLower ts → LeftOver s ts (find_table ts s)
unfolding find_table
find_table-LeftOver s [] v = tt
find_table-LeftOver s (t ∷ ts) (l, d, v) = elim (Bool-cases (t.state_id == s)) [
  | inl e ↦ rw e (Others-same t.state_id s e ts d)
  | inr e ↦ rw e (LeftOver-below s t ts (find_table ts s) e (find_table-LeftOver s ts v))
]

append-Others :
    (s : ℕ) (ts : List Table) (t : Table)
    → Others s ts
    → (t.state_id == s) ≡ false
    → Others s (ts ++ t ∷ [])
append-Others s [] t o n = (n, tt)
append-Others s (u ∷ us) t (m, o) n = (m, append-Others s us t o n)

append-AreLower :
    (ts : List Table) (t : Table)
    → (t.state_id == last_id) ≡ false
    → AreLower ts
    → Others t.state_id ts
    → AreLower (ts ++ t ∷ [])
append-AreLower [] t l v o = (l, tt, tt)
append-AreLower (u ∷ us) t l (lu, d, v) (n, o) = (
  lu,
  append-Others u.state_id us t d (==_comm u.state_id t.state_id n),
  append-AreLower us t l v o,
)

add_table-IsHsm :
    (a : Err) (rows : List Transition) (s initial : ℕ) (t : Table) (ts : List Table)
    (cs : List Callback)
    → (s == last_id) ≡ false
    → IsHsm (t ∷ ts)
    → Others s ts
    → IsHsm (Hsm.tables ((add_table a rows s initial (machine t ts cs)).1))
unfolding add_table create_table
add_table-IsHsm Err.no_error rows s initial t ts cs l (top, v) o = (top, append-AreLower ts _ l v o)
add_table-IsHsm (Err.failed c) rows s initial t ts cs l v o = v

found_behind :
    (a : Err) (rows : List Transition) (s initial : ℕ) (t : Table) (ts : List Table)
    (cs : List Callback) (o : Option ℕ)
    → (s == last_id) ≡ false
    → IsHsm (t ∷ ts)
    → LeftOver s ts o
    → IsHsm (
        Hsm.tables (
          (add_behind
            (elim (elim o as (λ x. Option ℕ) [ none ↦ none | some i ↦ some (suc i) ])
              as (λ x. Result ℕ) [ none ↦ err Code.hsm_state_not_found | some i ↦ ok i ])
            a
            rows
            s
            initial
            (machine t ts cs)).1))
unfolding add_behind
found_behind a rows s initial t ts cs none l v o = add_table-IsHsm a rows s initial t ts cs l v o
found_behind a rows s initial t ts cs (some i) l (top, v) o =
    add_table-IsHsm a rows s initial t (remove_at ts i) cs l (top, remove_at-AreLower ts i v) o

top_other : (a s : ℕ) → (a == last_id) ≡ true → (s == last_id) ≡ false → (a == s) ≡ false
top_other a s x y = ground arith

-- `jf_hsm_addStateTransition`, for a state other than JF_HSM_LAST_STATE_ID and whether or not its
-- allocation succeeds and the state had a table: if the first table is the top one and the others
-- belong to different states, that is so afterwards too.
pub add_state_transition-IsHsm :
    (a : Err) (rows : List Transition) (s initial : ℕ) (t : Table) (ts : List Table)
    (cs : List Callback)
    → (s == last_id) ≡ false
    → IsHsm (t ∷ ts)
    → IsHsm (Hsm.tables ((add_state_transition a rows s initial (machine t ts cs)).1))
unfolding add_state_transition get_table find_table
add_state_transition-IsHsm a rows s initial t ts cs l (top, v) =
    let n : (t.state_id == s) ≡ false = top_other t.state_id s top l in
    rw (l, n)
      (found_behind a rows s initial t ts cs (find_table ts s) l (top, v)
        (find_table-LeftOver s ts v))

reset_lower-IsHsm : (h : Hsm) (r : Result ℕ) → IsHsm h.tables → IsHsm (Hsm.tables (reset_lower h r))
unfolding reset_lower
reset_lower-IsHsm h (err c) v = v
reset_lower-IsHsm h (ok i) v = set_current-IsHsm h.tables i (λ t. t.initial) v

either-IsHsm :
    (b : Bool) (r q : Hsm × List Call)
    → IsHsm (Hsm.tables (r.0))
    → IsHsm (Hsm.tables (q.0))
    → IsHsm (Hsm.tables ((if b then r else q).0))
either-IsHsm true r q v w = v
either-IsHsm false r q v w = w

fire-IsHsm :
    (h : Hsm) (i state : ℕ) (t : Transition)
    → IsHsm h.tables
    → IsHsm (Hsm.tables ((fire h i state t).0))
unfolding fire post_transition
fire-IsHsm h i state t v =
    let h1 : Hsm = record h { tables = set_current h.tables i (λ u. t.next_state) } in
    either-IsHsm _ (reset_lower h1 (get_table h1 t.next_state), _) (h, [])
      (reset_lower-IsHsm h1 (get_table h1 t.next_state)
        (set_current-IsHsm h.tables i (λ u. t.next_state) v))
      v

taken-IsHsm :
    (h : Hsm) (i state : ℕ) (m : Bool) (o : Option Transition)
    → IsHsm h.tables
    → IsHsm (Hsm.tables ((taken_row h i state m o).1))
taken-IsHsm h i state m none v = v
taken-IsHsm h i state m (some t) v = fire-IsHsm h i state t v

offer_lower-IsHsm :
    (h : Hsm) (e : Event) (i state : ℕ) (ts : List Table)
    → IsHsm h.tables
    → IsHsm (Hsm.tables ((offer_lower h e i state ts).0))
unfolding offer_lower
offer_lower-IsHsm h e i state [] v = v
offer_lower-IsHsm h e i state (t ∷ ts) v = elim (Bool-cases (t.state_id == state)) [
  | inl x ↦
      rw x (
        taken-IsHsm h i t.current (has_match t.current e t.rows) (enabled_row t.current e t.rows) v)
  | inr x ↦ rw x (offer_lower-IsHsm h e (suc i) state ts v)
]

-- `jf_hsm_processEvent`: if the first table is the top one and the others belong to different
-- states, that is so afterwards too.
pub process_event-IsHsm :
    (e : Event) (t : Table) (ts : List Table) (cs : List Callback)
    → IsHsm (t ∷ ts)
    → IsHsm (Hsm.tables ((process_event (machine t ts cs) e).0))
process_event-IsHsm e t ts cs v =
    let h = machine t ts cs in
    let hit = (offered h 0 e t).0 in
    subst (λ r. IsHsm (Hsm.tables (r.0))) (sym (process_event_lem e t ts cs v))
      (either-IsHsm hit ((offered h 0 e t).1, (offered h 0 e t).2) (offer_lower h e 1 t.current ts)
        (taken-IsHsm h 0 t.current (has_match t.current e t.rows) (enabled_row t.current e t.rows)
          v)
        (offer_lower-IsHsm h e 1 t.current ts v))
