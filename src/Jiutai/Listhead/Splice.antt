-- ===== src/Jiutai/Listhead/Splice.antt =====
-- jiutai/jf_listhead.h: the entries of a list go to the front of another.
use jiufeng.Prelude.{
  append-nil, ℕ, ◌+◌, ◌≤◌, ◌≡◌, refl, sym, subst, arith, true, false, List, [], ◌∷◌, ◌++◌, ◌==◌,
}
use jiufeng.Prelude.Counts.{count, count-append}
use jiufeng.Jiutai.Listhead.{
  Links, set_next, set_prev, listhead_is_empty, list_splice, listhead_splice,
}
use jiufeng.Jiutai.Listhead.Rings.{
  Leads, IsList, Leads-append, Leads-set_next, Leads-set_prev, last_entry, count-last_entry,
  prev_end, Leads-to,
}
use jiufeng.Jiutai.Listhead.Insert.{listhead_init-IsList}

-- `jf_listhead_isEmpty` is true of the lists without entries.
pub listhead_is_empty_lem :
    (m : Links) (head : ℕ) (xs : List ℕ)
    → IsList m head xs
    → listhead_is_empty head m ≡ elim xs [ [] ↦ true | x ∷ l ↦ false ]
listhead_is_empty_lem m head [] v = let (n, p) = v.leads in ground (arith, n)
listhead_is_empty_lem m head (x ∷ xs) v = let (n, p, l) = v.leads in ground (arith, n, v.once head)

-- The writes of `_listSplice`, for a list with a first entry.
abbrev spliced : Links → ℕ → ℕ → ℕ → ℕ → Links
spliced m head first last at =
    set_prev at last (set_next last at (set_next head first (set_prev first head m)))

-- The entries of the list that is joined, in front of the entry that was the first one.
front-Leads :
    (m : Links) (head y at list : ℕ) (ys : List ℕ)
    → Leads m y ys list
    → ((x : ℕ) → count x (list ∷ y ∷ ys) ≤ 1)
    → count head (y ∷ ys) ≡ 0
    → count at (y ∷ ys) ≡ 0
    → Leads (spliced m head y (last_entry y ys) at) head (y ∷ ys) at
front-Leads m head y at list ys l o h k =
    let c = count-last_entry y ys in
    let last = last_entry y ys in
    let m0 = set_next head y (set_prev y head m) in
    let l0 : Leads m0 y ys list =
      Leads-set_next (set_prev y head m) head y y ys list h
        (Leads-set_prev m y head y ys list (ground (arith, o y)) l) in
    let t = Leads-to m0 y ys list at (λ x. omega (arith, o x)) (omega (arith, k)) l0 in
    let a : (head == last) ≡ false = ground (arith, h, c) in
    let b : (y == at) ≡ false = ground (arith, k) in
    let s : (head == head) ≡ true = ground arith in
    let s' : (y == y) ≡ true = ground arith in (rw (a, s) refl, rw (b, s') refl, t)

splice-Leads :
    (m : Links) (head list y : ℕ) (xs ys : List ℕ)
    → Leads m head xs head
    → Leads m y ys list
    → ((x : ℕ) → count x (head ∷ xs) + count x (list ∷ y ∷ ys) ≤ 1)
    → Leads (spliced m head y (last_entry y ys) (m.next head)) head ((y ∷ ys) ++ xs) head
splice-Leads m head list y [] ys (n, p) l d =
    let f =
      front-Leads m head y head list ys l (λ x. omega (arith, d x)) (ground (arith, d head))
        (ground (arith, d head)) in
    let f' =
      subst (λ k. Leads (spliced m head y (last_entry y ys) head) head k head)
        (sym (append-nil (y ∷ ys))) f in
    subst (λ a. Leads (spliced m head y (last_entry y ys) a) head ((y ∷ ys) ++ []) head) (sym n) f'
splice-Leads m head list y (x ∷ xs) ys (n, p, q) l d =
    let last = last_entry y ys in
    let c = count-last_entry y ys in
    let f =
      front-Leads m head y x list ys l (λ z. omega (arith, d z)) (ground (arith, d head))
        (ground (arith, d x)) in
    let m1 = set_prev y head m in
    let m2 = set_next head y m1 in
    let m3 = set_next last x m2 in
    let rest : Leads (spliced m head y last x) x xs head =
      Leads-set_prev m3 x last x xs head (ground (arith, d x)) (
        Leads-set_next m2 last x x xs head (omega (arith, d last, c)) (
          Leads-set_next m1 head y x xs head (ground (arith, d head))
            (Leads-set_prev m y head x xs head (ground (arith, d y)) q))) in
    let whole = Leads-append (spliced m head y last x) head (y ∷ ys) x xs head f rest in
    subst (λ a. Leads (spliced m head y last a) head ((y ∷ ys) ++ (x ∷ xs)) head) (sym n) whole

-- `jf_listhead_splice` of two lists that have no entry in common puts the entries of the second, in
-- their order, in front of those of the first and leaves the second empty.
pub listhead_splice_lem :
    (m : Links) (head list : ℕ) (xs ys : List ℕ)
    → IsList m head xs
    → IsList m list ys
    → ((x : ℕ) → count x (head ∷ xs) + count x (list ∷ ys) ≤ 1)
    → IsList (listhead_splice head list m) head (ys ++ xs)
      × IsList (listhead_splice head list m) list []
listhead_splice_lem m head list xs [] v w d = rw (listhead_is_empty_lem m list [] w) (v, w)
listhead_splice_lem m head list xs (y ∷ ys) v w d =
    let (n, p, l) = w.leads in
    let e = prev_end m y ys list l in
    let s = splice-Leads m head list y xs ys v.leads l d in
    let s' =
      subst (λ z. Leads (spliced m head y z (m.next head)) head ((y ∷ ys) ++ xs) head) (sym e) s in
    let s'' : Leads (list_splice head list m) head ((y ∷ ys) ++ xs) head =
      subst (λ z. Leads (spliced m head z (m.prev list) (m.next head)) head ((y ∷ ys) ++ xs) head)
        (sym n) s' in
    let c = λ (x : ℕ). count-append x (y ∷ ys) xs in
    let away : count list (head ∷ ((y ∷ ys) ++ xs)) ≡ 0 = ground (arith, c list, d list) in
    rw (listhead_is_empty_lem m list (y ∷ ys) w) (
      record {
        leads =
            Leads-set_prev (set_next list list (list_splice head list m)) list list head
              ((y ∷ ys) ++ xs) head away
              (Leads-set_next (list_splice head list m) list list head ((y ∷ ys) ++ xs) head away
                s'');
        once = λ x. omega (arith, c x, d x);
      },
      listhead_init-IsList list (list_splice head list m),
    )
