-- ===== src/Jiutai/Listhead/Remove.antt =====
-- jiutai/jf_listhead.h: an entry leaves its list, for good or for another one.
use jiufeng.Prelude.{
  append-nil, ℕ, ◌+◌, ◌≤◌, ◌<◌, ◌≡◌, inl, inr, refl, sym, ap, subst, ◌∙◌, arith, true, List, [],
  ◌∷◌, ◌++◌, ◌==◌, Bool-cases, ==_iff,
}
use jiufeng.Prelude.Counts.{erase, count, count-append, count-erase}
use jiufeng.Jiutai.Listhead.{
  Links, set_next, set_prev, list_del, listhead_del, listhead_del_init, listhead_move,
  listhead_move_tail,
}
use jiufeng.Jiutai.Listhead.Rings.{
  Leads, IsList, Leads-append, Leads-split, Leads-set_next, Leads-set_prev, last_entry,
  count-last_entry, prev_end, Leads-to,
}
use jiufeng.Jiutai.Listhead.Frame.{
  Kept, Kept-set_next, Kept-set_prev, Kept-same, IsList-Kept, first_in, last_in,
}
use jiufeng.Jiutai.Listhead.Insert.{listhead_init-IsList, listhead_add_lem, listhead_add_tail_lem}

split_at :
    (e : ℕ) (xs : List ℕ)
    → 0 < count e xs
    → (l : List ℕ) × (r : List ℕ) × (xs ≡ l ++ (e ∷ r)) × (erase e xs ≡ l ++ r)
split_at e [] h = absurd (omega (arith, h))
split_at e (x ∷ xs) h = elim (Bool-cases (x == e)) [
  | inl f ↦ ([], xs, ap (λ y. y ∷ xs) ((==_iff x e).0 f), rw f refl)
  | inr f ↦
      let (l, r, a, b) = split_at e xs (ground (arith, h, f)) in
      (x ∷ l, r, ap (λ y. x ∷ y) a, rw f (ap (λ y. x ∷ y) b))
]

-- The links around an entry of a round are led past it.
del-Leads :
    (m : Links) (head e : ℕ) (l r : List ℕ)
    → Leads m head l e
    → Leads m e r head
    → ((x : ℕ) → count x (head ∷ l) + count x (e ∷ r) ≤ 1)
    → Leads (list_del (m.prev e) (m.next e) m) head (l ++ r) head
del-Leads m head e l [] p (n, q) o =
    let t = Leads-to m head l e head (λ x. omega (arith, o x)) (ground (arith, o head)) p in
    let t' =
      subst (λ z. Leads (set_prev head z (set_next z head m)) head l head)
        (sym (prev_end m head l e p)) t in
    let t'' = subst (λ z. Leads (list_del (m.prev e) z m) head l head) (sym n) t' in
    subst (λ k. Leads (list_del (m.prev e) (m.next e) m) head k head) (sym (append-nil l)) t''
del-Leads m head e l (x ∷ r) p (n, q, f) o =
    let pr = last_entry head l in
    let c = count-last_entry head l in
    let t = Leads-to m head l e x (λ y. omega (arith, o y)) (ground (arith, o x)) p in
    let f' : Leads (set_next pr x (set_prev x pr m)) x r head =
      Leads-set_next (set_prev x pr m) pr x x r head (omega (arith, o pr, c))
        (Leads-set_prev m x pr x r head (ground (arith, o x)) f) in
    let whole = Leads-append (set_next pr x (set_prev x pr m)) head l x r head t f' in
    let whole' =
      subst (λ z. Leads (list_del z x m) head (l ++ (x ∷ r)) head) (sym (prev_end m head l e p))
        whole in
    subst (λ z. Leads (list_del (m.prev e) z m) head (l ++ (x ∷ r)) head) (sym n) whole'

module _ (m : Links) (head e : ℕ) (xs : List ℕ) (v : IsList m head xs) (here : 0 < count e xs) where
  abbrev unlinked : Links
  unlinked = list_del (m.prev e) (m.next e) m

  list_del_lem : IsList unlinked head (erase e xs) × Kept m unlinked (head ∷ xs)
  list_del_lem =
      let (l, r, a, b) = split_at e xs here in
      let (p, q) = Leads-split m head l e r head (subst (λ k. Leads m head k head) a v.leads) in
      let o = subst (λ k. (x : ℕ) → count x (head ∷ k) ≤ 1) a v.once in
      let c = λ (x : ℕ). count-append x l (e ∷ r) in
      let both : (x : ℕ) → count x xs ≡ count x l + count x (e ∷ r) = λ x. ap (count x) a ∙ c x in
      let f = first_in m e r head q in
      let g = last_in m head l e p in
      (
        record {
          leads =
              subst (λ k. Leads unlinked head k head) (sym b)
                (del-Leads m head e l r p q (λ x. omega (arith, c x, o x)));
          once = λ x. ground (arith, count-erase x e xs, v.once x);
        },
        Kept-set_next m (head ∷ xs) (m.prev e) (m.next e) _ (omega (arith, g, both (m.prev e))) (
            Kept-set_prev m (head ∷ xs) (m.next e) (m.prev e) m (omega (arith, f, both (m.next e)))
              (Kept-same m (head ∷ xs))),
      )

  gone : count e (head ∷ erase e xs) ≡ 0
  gone = ground (arith, count-erase e e xs, v.once e, here)

  -- The list behind writes to the links of the entry that left it.
  rewritten : (n p : ℕ) → IsList (set_prev e p (set_next e n unlinked)) head (erase e xs)
  rewritten n p =
      let w = list_del_lem.0 in
      record {
        leads =
            Leads-set_prev (set_next e n unlinked) e p head (erase e xs) head gone
              (Leads-set_next unlinked e n head (erase e xs) head gone w.leads);
        once = w.once;
      }

  rewritten-Kept : (n p : ℕ) → Kept m (set_prev e p (set_next e n unlinked)) (head ∷ xs)
  rewritten-Kept n p =
      Kept-set_prev m (head ∷ xs) e p _ (omega (arith, here))
        (Kept-set_next m (head ∷ xs) e n unlinked (omega (arith, here)) (list_del_lem.1))

  -- `jf_listhead_del` of an entry of a list takes it out of the list and leaves it with no links;
  -- `jf_listhead_delInit` leaves it as an empty list. Neither changes other links than those of the
  -- list.
  pub listhead_del_lem :
      (IsList (listhead_del e m) head (erase e xs)
        × ((listhead_del e m).next e ≡ 0)
        × ((listhead_del e m).prev e ≡ 0)
        × Kept m (listhead_del e m) (head ∷ xs))
      × (IsList (listhead_del_init e m) head (erase e xs)
          × IsList (listhead_del_init e m) e []
          × Kept m (listhead_del_init e m) (head ∷ xs))
  listhead_del_lem =
      let s : (e == e) ≡ true = ground arith in
      (
        (rewritten 0 0, rw s refl, rw s refl, rewritten-Kept 0 0),
        (rewritten e e, listhead_init-IsList e unlinked, rewritten-Kept e e),
      )

  -- `jf_listhead_move` and `jf_listhead_moveTail` of an entry of a list take it out of the list and
  -- make it the first or the last one of another list that has no entry in common.
  pub listhead_move_lem :
      (other : ℕ) (ys : List ℕ)
      → IsList m other ys
      → ((x : ℕ) → count x (head ∷ xs) + count x (other ∷ ys) ≤ 1)
      → (IsList (listhead_move other e m) head (erase e xs)
          × IsList (listhead_move other e m) other (e ∷ ys))
        × (IsList (listhead_move_tail other e m) head (erase e xs)
            × IsList (listhead_move_tail other e m) other (ys ++ (e ∷ [])))
  listhead_move_lem other ys w d =
      let (a, k) = list_del_lem in
      let b = IsList-Kept m unlinked (head ∷ xs) other ys k w (λ x h. omega (arith, d x, h)) in
      let fresh : count e (other ∷ ys) ≡ 0 = omega (arith, d e, here) in
      let (c, f) = listhead_add_lem unlinked other e ys b fresh in
      let (c', f') = listhead_add_tail_lem unlinked other e ys b fresh in
      let apart : (x : ℕ) → 0 < count x (head ∷ erase e xs) → count x (other ∷ e ∷ ys) ≡ 0 =
        λ x h. ground (arith, d x, count-erase x e xs, h, v.once x, here) in
      (
        (
          IsList-Kept unlinked (listhead_move other e m) (other ∷ e ∷ ys) head (erase e xs) f a
              apart,
          c,
        ),
        (
          IsList-Kept unlinked (listhead_move_tail other e m) (other ∷ e ∷ ys) head (erase e xs) f'
              a apart,
          c',
        ),
      )
