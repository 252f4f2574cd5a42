-- ===== src/Jiutai/Hsm/Enter.antt =====
-- jiutai/jf_hsm.c: the state in which a transition of the top table leaves the machine.
use jiufeng.Prelude.{
  ℕ, zero, suc, ◌≡◌, refl, sym, ap, ◌∙◌, arith, Bool, true, false, not, ◌&&◌, Option, none, some,
  List, [], ◌∷◌, ◌==◌, if◌then◌else◌, Bool-cases, inl, inr, get_elem?,
}
use jiufeng.Jiutai.Hsm.{
  Transition, Table, Callback, Hsm, Call, last_id, post_transition, reset_lower, set_current,
  find_table, get_table, get_current_state_id, lower_state,
}
use jiufeng.Jiutai.Hsm.Events.{machine}

-- The state that is entered: the initial state of its table, or itself.
pub entered_state : List Table → ℕ → ℕ
entered_state [] s = s
entered_state (t ∷ ts) s = if t.state_id == s then t.initial else entered_state ts s

find_table-set_current :
    (ts : List Table) (i : ℕ) (f : Table → ℕ) (s : ℕ)
    → find_table (set_current ts i f) s ≡ find_table ts s
unfolding find_table
find_table-set_current [] i f s = refl
find_table-set_current (t ∷ ts) zero f s = refl
find_table-set_current (t ∷ ts) (suc i) f s =
    ap
      (λ o.
        if t.state_id == s
        then some 0
        else elim o as (λ x. Option ℕ) [ none ↦ none | some j ↦ some (suc j) ])
      (find_table-set_current ts i f s)

-- The lower table that a lookup finds, begun anew.
abbrev EntersAt : List Table → ℕ → Option ℕ → Type 0
EntersAt ts s none = entered_state ts s ≡ s
EntersAt ts s (some i) =
    (t : Table) × (get_elem? (set_current ts i (λ u. u.initial)) i ≡ some t)
    × (t.current ≡ entered_state ts s)

EntersAt-below :
    (t : Table) (ts : List Table) (s : ℕ) (o : Option ℕ)
    → (t.state_id == s) ≡ false
    → EntersAt ts s o
    → EntersAt (t ∷ ts) s (elim o [ none ↦ none | some i ↦ some (suc i) ])
unfolding entered_state
EntersAt-below t ts s none n h = rw n h
EntersAt-below t ts s (some i) n (u, e, c) = (u, e, rw n c)

EntersAt-find_table : (ts : List Table) (s : ℕ) → EntersAt ts s (find_table ts s)
unfolding find_table entered_state
EntersAt-find_table [] s = refl
EntersAt-find_table (t ∷ ts) s = elim (Bool-cases (t.state_id == s)) [
  | inl x ↦ rw x (record t { current = t.initial }, refl, rw x refl)
  | inr x ↦ rw x (EntersAt-below t ts s (find_table ts s) x (EntersAt-find_table ts s))
]

-- The machine after the top table has moved to the state `s` and its lower table was looked up.
current_after :
    (t : Table) (ts : List Table) (cs : List Callback) (s : ℕ) (o : Option ℕ)
    → (s == last_id) ≡ false
    → (t.state_id == s) ≡ false
    → find_table ts s ≡ o
    → EntersAt ts s o
    → get_current_state_id (
        reset_lower
          (machine (record t { current = s }) ts cs)
          (get_table (machine (record t { current = s }) ts cs) s))
      ≡ some (entered_state ts s)
unfolding get_current_state_id reset_lower get_table find_table lower_state
current_after t ts cs s none l n e h = rw (l, n, e) (rw (l, n, e) (ap some (sym h)))
current_after t ts cs s (some i) l n e (u, f, c) =
    let g = find_table-set_current ts i (λ u. u.initial) s in
    rw (l, n, e) (rw (l, n, g, e) (rw f (ap some c)))

not_top : (a s : ℕ) → (a == last_id) ≡ true → (s == last_id) ≡ false → (a == s) ≡ false
not_top a s x y = ground arith

then_of : (b : Bool) (x y : Hsm × List Call) → b ≡ true → (if b then x else y) ≡ x
then_of b x y e = rw e refl

-- `_postHsmStateTransition` with a row of the top table that leads to another state: the current
-- state of the machine is then the initial state of the table of that state, if there is one,
-- wherever that table was left before, and else that state itself.
pub get_current_state_id-post_transition :
    (t : Table) (ts : List Table) (cs : List Callback) (state : ℕ) (r : Transition)
    → (t.state_id == last_id) ≡ true
    → (r.next_state == last_id) ≡ false
    → (r.next_state == r.current_state) ≡ false
    → get_current_state_id ((post_transition (machine t ts cs) 0 state r).0)
      ≡ some (entered_state ts r.next_state)
unfolding post_transition
get_current_state_id-post_transition t ts cs state r top l n =
    let c : (not (r.next_state == last_id) && not (r.next_state == r.current_state)) ≡ true =
      rw (l, n) refl in
    ap (λ p. get_current_state_id (p.0)) (then_of _ _ (machine t ts cs, []) c)
    ∙ current_after t ts cs r.next_state (find_table ts r.next_state) l
        (not_top t.state_id r.next_state top l) refl (EntersAt-find_table ts r.next_state)
