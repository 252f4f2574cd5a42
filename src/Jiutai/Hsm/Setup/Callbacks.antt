-- ===== src/Jiutai/Hsm/Setup/Callbacks.antt =====
-- jiutai/jf_hsm.c: the list of callbacks.
use jiufeng.Prelude.{
  ℕ, ◌≡◌, refl, ap, ◌∙◌, arith, true, false, none, some, List, [], ◌∷◌, ◌++◌, ◌==◌, if◌then◌else◌,
  Bool-cases, Option-cases, inl, inr, ==_iff,
}
use jiufeng.Jiutai.Err.{Code, Err, Result, ok, err}
use jiufeng.Jiutai.Hsm.{Callback, Hsm, last_id, find_callback, get_callback}
use jiufeng.Jiutai.Hsm.Setup.{add_state_callback, overwrite_callback, add_callback}

abbrev pub callback_of : ℕ → ℕ → ℕ → Callback
callback_of s on_entry on_exit = record { of_state = s; on_entry = on_entry; on_exit = on_exit }

eqb_refl : (s : ℕ) → (s == s) ≡ true
eqb_refl s = ground arith

find_callback-append :
    (cs : List Callback) (s en ex : ℕ)
    → find_callback cs s ≡ none
    → find_callback (cs ++ callback_of s en ex ∷ []) s ≡ some (callback_of s en ex)
unfolding find_callback
find_callback-append [] s en ex e = rw (eqb_refl s) refl
find_callback-append (c ∷ cs) s en ex e = elim (Bool-cases (c.of_state == s)) [
  | inl x ↦ let e' = rw x at e in absurd (ground (arith, e'))
  | inr x ↦ let e' = rw x at e in rw x (find_callback-append cs s en ex e')
]

find_callback-append_other :
    (cs : List Callback) (s en ex other : ℕ)
    → (s == other) ≡ false
    → find_callback (cs ++ callback_of s en ex ∷ []) other ≡ find_callback cs other
unfolding find_callback
find_callback-append_other [] s en ex other n = rw n refl
find_callback-append_other (c ∷ cs) s en ex other n =
    ap (λ r. if c.of_state == other then some c else r)
      (find_callback-append_other cs s en ex other n)

same_callback :
    (c : Callback) (s en ex : ℕ)
    → (c.of_state == s) ≡ true
    → record c { on_entry = en; on_exit = ex } ≡ callback_of s en ex
same_callback c s en ex x = ap (λ t. callback_of t en ex) ((==_iff c.of_state s).0 x)

find_callback-overwrite :
    (cs : List Callback) (s en ex : ℕ) (d : Callback)
    → find_callback cs s ≡ some d
    → find_callback (overwrite_callback cs s en ex) s ≡ some (callback_of s en ex)
unfolding find_callback overwrite_callback
find_callback-overwrite [] s en ex d e = absurd (ground (arith, e))
find_callback-overwrite (c ∷ cs) s en ex d e = elim (Bool-cases (c.of_state == s)) [
  | inl x ↦ rw (x, x) (ap some (same_callback c s en ex x))
  | inr x ↦ let e' = rw x at e in rw (x, x) (find_callback-overwrite cs s en ex d e')
]

find_callback-overwrite_other :
    (cs : List Callback) (s en ex other : ℕ)
    → (s == other) ≡ false
    → find_callback (overwrite_callback cs s en ex) other ≡ find_callback cs other
unfolding find_callback overwrite_callback
find_callback-overwrite_other [] s en ex other n = refl
find_callback-overwrite_other (c ∷ cs) s en ex other n = elim (Bool-cases (c.of_state == s)) [
  | inl x ↦
      let y : (c.of_state == other) ≡ false =
        ap (λ t. t == other) ((==_iff c.of_state s).0 x) ∙ n in
      rw (x, y) refl
  | inr x ↦ rw x (
      ap (λ r. if c.of_state == other then some c else r)
        (find_callback-overwrite_other cs s en ex other n))
]

-- The list of callbacks that a registration leaves.
abbrev Registered : List Callback → ℕ → ℕ → ℕ → List Callback → Type 0
Registered cs s en ex ds =
    (find_callback ds s ≡ some (callback_of s en ex))
    × ((other : ℕ) → (s == other) ≡ false → find_callback ds other ≡ find_callback cs other)

abbrev with_callbacks : Hsm → List Callback → Hsm
with_callbacks h ds = record h { callbacks = ds }

add_state_callback_lem :
    (s en ex : ℕ) (h : Hsm)
    → (s == last_id) ≡ false
    → (ds : List Callback) × (add_state_callback Err.no_error s en ex h
        ≡ (Err.no_error, with_callbacks h ds))
      × Registered h.callbacks s en ex ds
unfolding add_state_callback get_callback add_callback
add_state_callback_lem s en ex h l = elim (Option-cases (find_callback h.callbacks s)) [
  | inl e ↦ (
    h.callbacks ++ callback_of s en ex ∷ [],
    rw (add_state_callback, l, e) refl,
    (find_callback-append h.callbacks s en ex e, find_callback-append_other h.callbacks s en ex),
  )
  | inr (c, e) ↦ (
    overwrite_callback h.callbacks s en ex,
    rw (add_state_callback, l, e) refl,
    (
      find_callback-overwrite h.callbacks s en ex c e,
      find_callback-overwrite_other h.callbacks s en ex,
    ),
  )
]

get_callback-some :
    (h : Hsm) (s : ℕ) (c : Callback)
    → (s == last_id) ≡ false
    → find_callback h.callbacks s ≡ some c
    → get_callback h s ≡ ok c
unfolding get_callback
get_callback-some h s c l e = rw (get_callback, l, e) refl

get_callback-same :
    (h k : Hsm) (s : ℕ)
    → find_callback h.callbacks s ≡ find_callback k.callbacks s
    → get_callback h s ≡ get_callback k s
unfolding get_callback
get_callback-same h k s e =
    ap
      (λ o. if s == last_id then err Code.invalid_param else elim o as (λ x. Result Callback) [
        | none ↦ err Code.hsm_state_not_found
        | some c ↦ ok c
      ])
      e

-- On a state other than JF_HSM_LAST_STATE_ID, when the allocation, if one is needed, succeeds,
-- `jf_hsm_addStateCallback` succeeds. Then a lookup of the state gives the new functions, whether it
-- had others before or none, and a lookup of any other state gives what it gave before.
pub get_callback-add_state_callback :
    (s en ex : ℕ) (h : Hsm)
    → (s == last_id) ≡ false
    → (h' : Hsm) × (add_state_callback Err.no_error s en ex h ≡ (Err.no_error, h'))
      × (get_callback h' s ≡ ok (callback_of s en ex))
      × ((other : ℕ) → (s == other) ≡ false → get_callback h' other ≡ get_callback h other)
get_callback-add_state_callback s en ex h l =
    let (ds, e, (here, there)) = add_state_callback_lem s en ex h l in
    let h' = with_callbacks h ds in
    (
      h',
      e,
      get_callback-some h' s (callback_of s en ex) l here,
      λ other n. get_callback-same h' h other (there other n),
    )
