-- ===== src/Jiukun/Slab/Objects.antt =====
-- jiukun/slab.c: one object taken from a slab and one given back.
use jiufeng.Prelude.{
  ℕ, zero, suc, ◌≤◌, ◌<◌, ◌≡◌, inl, inr, refl, sym, ap, subst, ◌∙◌, arith, true, List, [], ◌∷◌,
  ◌==◌, ltb, length, All, Bool-cases,
}
use jiufeng.Prelude.Counts.{update, erase, count, count-erase, length-erased, All-erased, All-other}
use jiufeng.Prelude.Word.{inc_u32, dec_u32}
use jiufeng.Jiukun.Slab.{Slab, bufctl_end}
use jiufeng.Jiukun.Slab.Chain.{Linked, Linked-update, IsSlab}

-- Distinct numbers below `n` are at most `n`.
pigeonhole :
    (n : ℕ) (xs : List ℕ) → ((x : ℕ) → count x xs ≤ 1) → All (λ x. x < n) xs → length xs ≤ n
pigeonhole zero [] o a = omega arith
pigeonhole zero (x ∷ xs) o (h, a) = absurd (omega (arith, h))
pigeonhole (suc n) xs o a = elim (Bool-cases (ltb 0 (count n xs))) [
  | inl e ↦
      let h : 0 < count n xs = ground (arith, e) in
      let l = length-erased n xs h in
      let here : count n (erase n xs) ≡ 0 = ground (arith, count-erase n n xs, o n) in
      let rest =
        pigeonhole n (erase n xs) (λ x. ground (arith, count-erase x n xs, o x))
          (All-other (λ x. x < suc n) (λ x. x < n) n (λ y f g. ground (arith, f, g)) (erase n xs)
            here (All-erased (λ x. x < suc n) n xs a)) in
      omega (arith, l, rest)
  | inr e ↦
      let rest = pigeonhole n xs o (
        All-other (λ x. x < suc n) (λ x. x < n) n (λ y f g. ground (arith, f, g)) xs
          (ground (arith, e)) a) in
      omega (arith, rest)
]

-- A number below `num` that is not free leaves less than `num` free ones.
pub not_all_free :
    (num x : ℕ) (s : Slab) (xs : List ℕ)
    → IsSlab num s xs
    → x < num
    → count x xs ≡ 0
    → length xs < num
not_all_free num x s xs v h n =
    let p = pigeonhole num (x ∷ xs) (λ y. ground (arith, v.once y, n)) (h, v.below) in
    omega (arith, p)

abbrev pub taken : Slab → Slab
taken s = record s { in_use = inc_u32 s.in_use; free_head = s.bufctl s.free_head }

abbrev pub given : Slab → ℕ → Slab
given s x = record s {
  bufctl = update s.bufctl x s.free_head;
  free_head = x;
  in_use = dec_u32 s.in_use;
}

end-Linked :
    (b : ℕ → ℕ) (h num : ℕ) (xs : List ℕ)
    → num < bufctl_end
    → Linked b h xs
    → All (λ x. x < num) xs
    → (h == bufctl_end) ≡ (length xs == 0)
end-Linked b h num [] small l a = ground (arith, l)
end-Linked b h num (x ∷ xs) small (e, l) (lt, a) = ground (arith, e, lt, small)

module _ (num : ℕ) (s : Slab) (x : ℕ) (xs : List ℕ) (small : num < bufctl_end) where
  pub taken-IsSlab : IsSlab num s (x ∷ xs) → IsSlab num (taken s) xs
  taken-IsSlab v =
      let (e, l) = v.linked in
      record {
        linked = subst (λ h. Linked s.bufctl (s.bufctl h) xs) (sym e) l;
        once = λ y. omega (arith, v.once y);
        below = v.below.1;
        used = omega (arith, v.used, small);
      }

  -- The chain ends behind the first free object exactly when that is the only one.
  pub next-end : IsSlab num s (x ∷ xs) → (s.bufctl s.free_head == bufctl_end) ≡ (length xs == 0)
  next-end v =
      let (e, l) = v.linked in
      let h : s.bufctl s.free_head ≡ s.bufctl x = ap s.bufctl e in
      ap (λ y. y == bufctl_end) h ∙ end-Linked s.bufctl (s.bufctl x) num xs small l (v.below.1)

  pub given-IsSlab : IsSlab num s xs → x < num → count x xs ≡ 0 → IsSlab num (given s x) (x ∷ xs)
  given-IsSlab v h n =
      let free = not_all_free num x s xs v h n in
      let self : (x == x) ≡ true = ground arith in
      record {
        linked = (refl, rw self (Linked-update s.bufctl x s.free_head s.free_head xs n v.linked));
        once = λ y. ground (arith, v.once y, n);
        below = (h, v.below);
        used = omega (arith, v.used, small, free);
      }
