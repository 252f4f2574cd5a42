-- ===== src/Jiutai/Hsm/Rows.antt =====
-- jiutai/jf_hsm.c: which row of a transition table an event takes.
use jiufeng.Prelude.{
  ℕ, ◌≡◌, refl, sym, ap, ◌∙◌, Bool, true, false, ◌&&◌, ◌||◌, Option, none, some, List, [], ◌∷◌,
  ◌==◌, if◌then◌else◌, Bool-cases, inl, inr,
}
use jiufeng.Jiutai.Hsm.{Event, Transition, Hsm, Call, last_id, is_match, passes, fire, process_rows}

-- The rows before the end of the table.
pub live_rows : List Transition → List Transition
live_rows [] = []
live_rows (t ∷ ts) = if t.event == last_id then [] else t ∷ live_rows ts

-- The first of some rows that a test picks.
pub first_row : (Transition → Bool) → List Transition → Option Transition
first_row p [] = none
first_row p (t ∷ ts) = if p t then some t else first_row p ts

-- The first row for a state and an event whose guard lets the event pass.
abbrev pub enabled_row : ℕ → Event → List Transition → Option Transition
enabled_row state e ts = first_row (λ t. is_match state e t && passes e t) (live_rows ts)

abbrev pub picked : Option Transition → Bool
picked none = false
picked (some t) = true

or_true : (b : Bool) → (b || true) ≡ true
or_true true = refl
or_true false = refl

-- Whether there is a row for a state and an event, whatever its guard says.
abbrev pub has_match : ℕ → Event → List Transition → Bool
has_match state e ts = picked (first_row (is_match state e) (live_rows ts))

-- What the loop leaves, by the row that the event takes.
abbrev pub taken_row : Hsm → ℕ → ℕ → Bool → Option Transition → Bool × Hsm × List Call
taken_row h i state hit none = (hit, h, [])
taken_row h i state hit (some t) = (true, (fire h i state t).0, (fire h i state t).1)

-- One round of the loop, for any tests: `last` ends the table.
round_lem :
    (h : Hsm) (i state : ℕ) (hit last : Bool) (m p : Transition → Bool) (t : Transition)
    (ts : List Transition) (go_on go_on_hit : Bool × Hsm × List Call)
    → go_on ≡ taken_row h i state (hit || picked (first_row m ts)) (first_row (λ u. m u && p u) ts)
    → go_on_hit ≡ taken_row h i state true (first_row (λ u. m u && p u) ts)
    → (if last
        then (hit, h, [])
        else if m t
        then (if p t then (true, (fire h i state t).0, (fire h i state t).1) else go_on_hit)
        else go_on)
      ≡ taken_row h i state
          (hit || picked (first_row m (if last then [] else t ∷ ts)))
          (first_row (λ u. m u && p u) (if last then [] else t ∷ ts))
unfolding first_row
round_lem h i state true true m p t ts a b e f = refl
round_lem h i state false true m p t ts a b e f = refl
round_lem h i state hit false m p t ts a b e f = elim (Bool-cases (m t)) [
  | inl x ↦ elim (Bool-cases (p t)) [
    | inl y ↦ rw (x, y) refl
    | inr y ↦
        rw (x, y)
          (f ∙ ap (λ c. taken_row h i state c (first_row (λ u. m u && p u) ts)) (sym (or_true hit)))
  ]
  | inr x ↦ rw x e
]

-- The loop of `_processHsmEvent` over a transition table: it takes the first row before the end of
-- the table that is for the current state and the event and whose guard is NULL or passes, calls
-- its action and moves; if there is none, nothing changes, and `*pbHit` is set if a row for the
-- state and the event was there or if it was set before.
pub process_rows_lem :
    (h : Hsm) (i state : ℕ) (e : Event) (hit : Bool) (ts : List Transition)
    → process_rows h i state e hit ts
      ≡ taken_row h i state (hit || has_match state e ts) (enabled_row state e ts)
unfolding process_rows live_rows first_row
process_rows_lem h i state e true [] = refl
process_rows_lem h i state e false [] = refl
process_rows_lem h i state e hit (t ∷ ts) =
    round_lem h i state hit (t.event == last_id) (is_match state e) (passes e) t (live_rows ts)
      (process_rows h i state e hit ts) (process_rows h i state e true ts)
      (process_rows_lem h i state e hit ts) (process_rows_lem h i state e true ts)
