-- ===== src/Jiukun/Pages/Address.antt =====
-- jiukun/buddy.c: pages and addresses.
use jiufeng.Prelude.{
  ℕ, zero, suc, ◌+◌, ◌-◌, ◌*◌, ◌/◌, ◌≤◌, ◌<◌, ◌≡◌, ◌⊎◌, inl, inr, ap, sym, subst, ◌∙◌, refl, arith,
  true, false, ◌&&◌, some, List, [], ◌∷◌, ltb, leb, get_elem?, some_injective,
}
use jiufeng.Jiukun.Buddy.{Zone}
use jiufeng.Jiukun.Pages.{
  Buddy, addr_to_page, addr_to_jiukun_page, jiukun_page_to_addr, buddy_page_size,
}

-- No address of the pool of a zone lies in the pool of the other.
abbrev Apart : Zone → Zone → Type 0
Apart y z =
    (y.pool + y.num_of_page * buddy_page_size ≤ z.pool)
    ⊎ (z.pool + z.num_of_page * buddy_page_size ≤ y.pool)

-- The pools of zones that stand at different places of the array do not overlap.
abbrev pub ArePoolsApart : List Zone → Type 0
ArePoolsApart zs =
    (i j : ℕ) (y z : Zone) → i < j → get_elem? zs i ≡ some y → get_elem? zs j ≡ some z → Apart y z

page_at :
    (pool p offset : ℕ)
    → offset < buddy_page_size
    → (pool + p * buddy_page_size + offset - pool) / buddy_page_size ≡ p
page_at pool p offset h = omega (arith, h)

in_pool :
    (pool num p offset : ℕ)
    → p < num
    → offset < buddy_page_size
    → (leb pool (pool + p * buddy_page_size + offset)
        && ltb (pool + p * buddy_page_size + offset) (pool + num * buddy_page_size))
      ≡ true
in_pool pool num p offset h k = ground (arith, h, k)

not_in_pool :
    (pool num addr : ℕ)
    → (addr < pool) ⊎ (pool + num * buddy_page_size ≤ addr)
    → (leb pool addr && ltb addr (pool + num * buddy_page_size)) ≡ false
not_in_pool pool num addr h = ground (arith, h)

addr_to_page-here :
    (z : Zone) (zs : List Zone) (index p offset : ℕ)
    → p < z.num_of_page
    → offset < buddy_page_size
    → addr_to_page (z ∷ zs) index (z.pool + p * buddy_page_size + offset) ≡ some (index + 0, p)
unfolding addr_to_page
addr_to_page-here z zs index p offset h k =
    rw (in_pool z.pool z.num_of_page p offset h k)
      (ap (λ q. some (index, q)) (page_at z.pool p offset k) ∙ ap (λ i. some (i, p)) (omega arith))

-- The address lies behind the pool of a zone that is not its own.
Apart-shift :
    (y z : Zone) (p offset : ℕ)
    → Apart y z
    → p < z.num_of_page
    → offset < buddy_page_size
    → (z.pool + p * buddy_page_size + offset < y.pool)
      ⊎ (y.pool + y.num_of_page * buddy_page_size ≤ z.pool + p * buddy_page_size + offset)
Apart-shift y z p offset (inl a) h k = inr (omega (arith, a))
Apart-shift y z p offset (inr a) h k = inl (omega (arith, a, h, k))

addr_to_page_lem :
    (zs : List Zone) (index id p offset : ℕ) (z : Zone)
    → ArePoolsApart zs
    → get_elem? zs id ≡ some z
    → p < z.num_of_page
    → offset < buddy_page_size
    → addr_to_page zs index (z.pool + p * buddy_page_size + offset) ≡ some (index + id, p)
unfolding addr_to_page
addr_to_page_lem [] index id p offset z a e h k = ground arith
addr_to_page_lem (y ∷ zs) index zero p offset z a e h k =
    subst
      (λ x.
        addr_to_page (x ∷ zs) index (z.pool + p * buddy_page_size + offset) ≡ some (index + 0, p))
      (sym (some_injective y z e)) (addr_to_page-here z zs index p offset h k)
addr_to_page_lem (y ∷ zs) index (suc id) p offset z a e h k =
    let away = Apart-shift y z p offset (a 0 (suc id) y z (omega arith) refl e) h k in
    let rest =
      addr_to_page_lem zs (index + 1) id p offset z
        (λ i j x w l f g. a (suc i) (suc j) x w (omega (arith, l)) f g) e h k in
    rw (not_in_pool y.pool y.num_of_page (z.pool + p * buddy_page_size + offset) away)
      (rest ∙ ap (λ i. some (i, p)) (omega arith))

-- While the pools of the zones do not overlap, `addrToJiukunPage` takes any address inside a page,
-- which begins where `jiukunPageToAddr` says, back to that page: the search over the zones finds
-- the right one.
pub addr_to_jiukun_page-page_to_addr :
    (b : Buddy) (id p offset : ℕ) (z : Zone)
    → ArePoolsApart b.zones
    → get_elem? b.zones id ≡ some z
    → p < z.num_of_page
    → offset < buddy_page_size
    → (addr : ℕ) × (jiukun_page_to_addr b (id, p) ≡ some addr)
      × (addr_to_jiukun_page b (addr + offset) ≡ some (id, p))
unfolding jiukun_page_to_addr addr_to_jiukun_page
addr_to_jiukun_page-page_to_addr b id p offset z a e h k =
    let back = addr_to_page_lem b.zones 0 id p offset z a e h k in
    (
      z.pool + p * buddy_page_size,
      rw (e, jiukun_page_to_addr) refl,
      back ∙ ap (λ i. some (i, p)) (omega arith),
    )
