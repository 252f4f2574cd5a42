-- ===== src/Jiutai/Listhead/Insert.antt =====
-- jiutai/jf_listhead.h: an entry is added behind or in front of the head.
use jiufeng.Prelude.{
  append_assoc, ℕ, ◌≤◌, ◌<◌, ◌≡◌, ◌⊎◌, inl, inr, refl, sym, ap, subst, ◌∙◌, arith, true, false,
  List, [], ◌∷◌, ◌++◌, ◌==◌,
}
use jiufeng.Prelude.Counts.{count, count-append}
use jiufeng.Jiutai.Listhead.{
  Links, set_next, set_prev, listhead_init, list_add, listhead_add, listhead_add_tail,
}
use jiufeng.Jiutai.Listhead.Rings.{
  Leads, IsList, Leads-append, Leads-split, Leads-set_next, Leads-set_prev,
}
use jiufeng.Jiutai.Listhead.Frame.{Kept, Kept-set_next, Kept-set_prev, Kept-same, first_in, last_in}

-- `jf_listhead_init` makes an empty list.
pub listhead_init-IsList : (list : ℕ) (m : Links) → IsList (listhead_init list m) list []
listhead_init-IsList list m =
    let s : (list == list) ≡ true = ground arith in
    record { leads = (rw s refl, rw s refl); once = λ x. ground arith }

-- An entry added between an entry of a round and the one behind it.
add-Leads :
    (m : Links) (p new : ℕ) (xs : List ℕ)
    → Leads m p xs p
    → ((x : ℕ) → count x (p ∷ xs) ≤ 1)
    → count new (p ∷ xs) ≡ 0
    → Leads (list_add new p (m.next p) m) p (new ∷ xs) p
add-Leads m p new [] (n, q) o h =
    let a : (new == p) ≡ false = ground (arith, h) in
    let b : (p == new) ≡ false = ground (arith, h) in
    let s : (p == p) ≡ true = ground arith in
    let s' : (new == new) ≡ true = ground arith in rw (n, a, b, s, s') (refl, refl, (refl, refl))
add-Leads m p new (x ∷ xs) (n, q, l) o h =
    let a : (new == p) ≡ false = ground (arith, h) in
    let b : (x == new) ≡ false = ground (arith, h) in
    let s : (p == p) ≡ true = ground arith in
    let s' : (new == new) ≡ true = ground arith in
    let s'' : (x == x) ≡ true = ground arith in
    let m1 = set_prev x new m in
    let m2 = set_next new x m1 in
    let m3 = set_prev new p m2 in
    let rest : Leads (list_add new p x m) x xs p =
      Leads-set_next m3 p new x xs p (ground (arith, o p)) (
        Leads-set_prev m2 new p x xs p (ground (arith, h)) (
          Leads-set_next m1 new x x xs p (ground (arith, h))
            (Leads-set_prev m x new x xs p (ground (arith, o x)) l))) in
    subst (λ y. Leads (list_add new p y m) p (new ∷ x ∷ xs) p) (sym n)
      (rw s refl, rw s' refl, (rw (a, s') refl, rw (b, s'') refl, rest))

snoc_cases : (xs : List ℕ) → (xs ≡ []) ⊎ ((l : List ℕ) × (p : ℕ) × (xs ≡ l ++ (p ∷ [])))
snoc_cases [] = inl refl
snoc_cases (x ∷ xs) = elim (snoc_cases xs) [
  | inl e ↦ inr ([], x, ap (λ l. x ∷ l) e)
  | inr (l, p, e) ↦ inr (x ∷ l, p, ap (λ k. x ∷ k) e)
]

-- An entry added in front of the start of a round.
add_tail-Leads :
    (m : Links) (head new : ℕ) (xs : List ℕ)
    → Leads m head xs head
    → ((x : ℕ) → count x (head ∷ xs) ≤ 1)
    → count new (head ∷ xs) ≡ 0
    → Leads (listhead_add_tail head new m) head (xs ++ (new ∷ [])) head
add_tail-Leads m head new xs v o h = elim (snoc_cases xs) [
  | inl e ↦
      let (n, q) = subst (λ l. Leads m head l head) e v in
      let r = add-Leads m head new [] (n, q) (λ x. ground arith) (ground (arith, h)) in
      let r' = subst (λ y. Leads (list_add new head y m) head (new ∷ []) head) n r in
      let r'' = subst (λ y. Leads (list_add new y head m) head (new ∷ []) head) (sym q) r' in
      subst (λ l. Leads (listhead_add_tail head new m) head (l ++ (new ∷ [])) head) (sym e) r''
  | inr (l, p, e) ↦
      let (f, (n, q)) = Leads-split m head l p [] head (subst (λ k. Leads m head k head) e v) in
      let c = λ (x : ℕ). count-append x l (p ∷ []) in
      let o' = subst (λ k. (x : ℕ) → count x (head ∷ k) ≤ 1) e o in
      let h' = subst (λ k. count new (head ∷ k) ≡ 0) e h in
      let r =
        add-Leads m p new (head ∷ l) (n, q, f) (λ x. omega (arith, c x, o' x))
          (omega (arith, c new, h')) in
      let r' = subst (λ y. Leads (list_add new p y m) p (new ∷ head ∷ l) p) n r in
      let r'' = subst (λ y. Leads (list_add new y head m) p (new ∷ head ∷ l) p) (sym q) r' in
      let (a, b, (x, y, g)) = r'' in
      let whole =
        Leads-append (listhead_add_tail head new m) head l p (new ∷ []) head g (a, b, (x, y)) in
      subst (λ k. Leads (listhead_add_tail head new m) head k head)
        (sym (ap (λ k. k ++ (new ∷ [])) e ∙ append_assoc l (p ∷ []) (new ∷ []))) whole
]

module _ (m : Links) (head new : ℕ) (xs : List ℕ) (v : IsList m head xs)
    (fresh : count new (head ∷ xs) ≡ 0) where
  -- `jf_listhead_add` of an entry that is not in the list makes it the first one, and changes no links
  -- but those of the list and of the entry.
  pub listhead_add_lem :
      IsList (listhead_add head new m) head (new ∷ xs)
      × Kept m (listhead_add head new m) (head ∷ new ∷ xs)
  listhead_add_lem =
      let f = first_in m head xs head v.leads in
      let ne : 0 < count (m.next head) (head ∷ new ∷ xs) = omega (arith, f) in
      (
        record {
          leads = add-Leads m head new xs v.leads v.once fresh;
          once = λ x. ground (arith, v.once x, fresh);
        },
        Kept-set_next m (head ∷ new ∷ xs) head new _ (ground arith) (
            Kept-set_prev m (head ∷ new ∷ xs) new head _ (ground arith) (
              Kept-set_next m (head ∷ new ∷ xs) new (m.next head) _ (ground arith) (
                Kept-set_prev m (head ∷ new ∷ xs) (m.next head) new m ne
                  (Kept-same m (head ∷ new ∷ xs))))),
      )

  -- `jf_listhead_addTail` of an entry that is not in the list makes it the last one, and changes no
  -- links but those of the list and of the entry.
  pub listhead_add_tail_lem :
      IsList (listhead_add_tail head new m) head (xs ++ (new ∷ []))
      × Kept m (listhead_add_tail head new m) (head ∷ new ∷ xs)
  listhead_add_tail_lem =
      let f = last_in m head xs head v.leads in
      let ne : 0 < count (m.prev head) (head ∷ new ∷ xs) = omega (arith, f) in
      (
        record {
          leads = add_tail-Leads m head new xs v.leads v.once fresh;
          once = λ x. ground (arith, v.once x, fresh, count-append x xs (new ∷ []));
        },
        Kept-set_next m (head ∷ new ∷ xs) (m.prev head) new _ ne (
            Kept-set_prev m (head ∷ new ∷ xs) new (m.prev head) _ (ground arith) (
              Kept-set_next m (head ∷ new ∷ xs) new head _ (ground arith) (
                Kept-set_prev m (head ∷ new ∷ xs) head new m (ground arith)
                  (Kept-same m (head ∷ new ∷ xs))))),
      )
