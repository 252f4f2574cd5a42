-- ===== src/Jiukun/Buddy/Free.antt =====
-- jiukun/buddy.c: `_freeOnePage` on a zone that is cut into free blocks and blocks in use.
use native.Mathlib.Nat.{mod-eq_of_lt}
use jiufeng.Prelude.{
  ℕ, ◌+◌, ◌-◌, ◌%◌, ◌^◌, ◌≤◌, ◌<◌, ◌≡◌, inl, inr, refl, sym, ap, subst, ◌∙◌, arith, false, List,
  ◌==◌, Bool-cases,
}
use jiufeng.Prelude.Counts.{erase, update}
use jiufeng.Jiukun.Buddy.{Zone, free_one_page, merge_page}
use jiufeng.Jiukun.Buddy.Blocks.{IsBlock}
use jiufeng.Jiukun.Buddy.Counts.{weigh, total, pages, pow_pos, pow_le, pages-IsHalving}
use jiufeng.Jiukun.Buddy.Heads.{
  heads, heads_le, weigh_le_total, All-erase, All-avoid, All-heads, total-erase,
}
use jiufeng.Jiukun.Buddy.Tiles.{Tiled, UsedAt, all_pages, one_piece, absent}
use jiufeng.Jiukun.Buddy.Merge.{merge_page-Tiled, merge_page-keeps}

-- A zone between two calls: the free blocks and the blocks in use, listed by order, cut it into
-- pieces; what is recorded of each is true; and the counter of free pages is their sum.
pub record IsTiled (z : Zone) (held : ℕ → List ℕ) : Type 0 where
  pub tiled : Tiled z.max_order z held (λ w. 0)
  pub counted : z.free_pages ≡ total pages z.free z.max_order
  pub width : z.num_of_page ≡ all_pages z.max_order

pub IsTiled-at :
    (m : ℕ) (z : Zone) (held : ℕ → List ℕ)
    → z.max_order ≡ m
    → z.num_of_page ≡ all_pages m
    → z.free_pages ≡ total pages z.free m
    → Tiled m z held (λ w. 0)
    → IsTiled z held
IsTiled-at m z held e n c t = record {
  tiled = subst (λ i. Tiled i z held (λ w. 0)) (sym e) t;
  counted = c ∙ sym (ap (total pages z.free) e);
  width = n ∙ sym (ap all_pages e);
}

-- The zone and the blocks in use at the head of the loop of `_freeOnePage`.
module _ (m n : ℕ) (z : Zone) (held : ℕ → List ℕ) (k p : ℕ) (t : Tiled m z held (λ w. 0))
    (lt : k < m) (at : 0 < weigh (heads p) k (held k)) where
  pub held-IsBlock : IsBlock (all_pages m) k p
  held-IsBlock = (All-heads p (UsedAt m z k) k (held k) (t.helds k) at).0

  held_once : (total (heads p) held m ≤ 1) × (total (heads p) z.free m ≡ 0)
  held_once =
      let pos = pow_pos k in
      let one = one_piece m held z (λ w. 0) p t (omega (arith, held-IsBlock.1, pos)) in
      let le = weigh_le_total (heads p) held k m lt in
      (
        omega (arith, one, heads_le p held m),
        omega (arith, one, heads_le p held m, heads_le p z.free m, le, at),
      )

  abbrev pub released : Zone
  released = record z { allocated = update z.allocated p false; free_pages = n }

  abbrev pub rest : ℕ → List ℕ
  rest j = erase p (held j)

  pub release-Tiled : Tiled m released rest (λ w. w k p)
  release-Tiled =
      let once = held_once.0 in
      let self : heads p k p ≡ 1 = ground arith in
      let none : total (heads p) rest m ≡ 0 =
        omega (arith, total-erase p (heads p) held k m once lt at, once, self) in
      record {
        top = t.top;
        balance = λ w half. omega (arith, t.balance w half, total-erase p w held k m once lt at);
        exact = t.exact;
        outside = λ j h. ((t.outside j h).0, ap (erase p) ((t.outside j h).1));
        frees = t.frees;
        helds = λ j.
            All-avoid p (UsedAt m z j) (UsedAt m released j) (λ q e x. (x.0, rw e (x.1))) j (rest j)
              (absent m held p rest j none (λ h. ap (erase p) ((t.outside j h).1)))
              (All-erase p (UsedAt m z j) (held j) (t.helds j));
        marks = λ q h. elim (Bool-cases (q == p)) [
          | inl e ↦ rw e refl
          | inr e ↦
              let other : heads q k p ≡ 0 = ground (arith, e) in
              rw e
                (t.marks q (omega (arith, total-erase p (heads q) held k m once lt at, h, other)))
        ];
      }

-- The index that `_freeOnePage` works with is that of the page.
pub page_in_range : (m k p : ℕ) → IsBlock (all_pages m) k p → p % 2 ^ m ≡ p
page_in_range m k p block =
    let pos = pow_pos k in
    mod-eq_of_lt (omega (arith, block.1, pos, pow_le (m - 1) m (omega arith)))

-- `_freeOnePage` of a block that is in use, on a zone that the free blocks and the blocks in use cut
-- into pieces, each where a multiple of its size begins, with true counters and true flags (the order
-- of each free block, and the marks of exactly the blocks in use): the zone is such a cut again,
-- without that block among those in use, however many buddies the block was merged with.
pub free_one_page_lem :
    (z : Zone) (held : ℕ → List ℕ) (k p : ℕ)
    → IsTiled z held
    → k < z.max_order
    → 0 < weigh (heads p) k (held k)
    → IsTiled (free_one_page z p k) (λ j. erase p (held j))
unfolding free_one_page
free_one_page_lem z held k p v lt at =
    let m = z.max_order in
    let n = (z.free_pages + 2 ^ k) % 2 ^ 32 in
    let t = v.tiled in
    let block = held-IsBlock m n z held k p t lt at in
    let same = page_in_range m k p block in
    let z' = released m n z held k p t lt at in
    let r = release-Tiled m n z held k p t lt at in
    let done =
      merge_page-Tiled m (m - 1 - k) z' (λ j. erase p (held j)) k p (omega (arith, lt)) block r in
    let keep = merge_page-keeps (m - 1 - k) z' p p k in
    let y = merge_page (m - 1 - k) z' p p k in
    let count : n ≡ total pages (Zone.free y) m = omega (
      arith,
      t.balance pages pages-IsHalving,
      r.balance pages pages-IsHalving,
      done.balance pages pages-IsHalving,
      v.counted,
      pow_le (m - 1) 31 (omega (arith, t.top)),
    ) in
    rw same
      (IsTiled-at m y (λ j. erase p (held j)) (keep.1) (keep.2 ∙ v.width) (keep.0 ∙ count) done)

pub free_one_page-max_order :
    (z : Zone) (p k : ℕ) → Zone.max_order (free_one_page z p k) ≡ z.max_order
unfolding free_one_page
free_one_page-max_order z p k =
    let z' = record z {
      allocated = update z.allocated p false;
      free_pages = (z.free_pages + 2 ^ k) % 2 ^ 32;
    } in
    (merge_page-keeps (z.max_order - 1 - k) z' p (p % 2 ^ z.max_order) k).1
