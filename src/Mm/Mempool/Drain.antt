-- ===== src/Mm/Mempool/Drain.antt =====
-- How many chunks a pool of kernel/src/mm/mempool.c gives.
use goofyos.Base.{
  ℕ, zero, suc, ◌+◌, ◌*◌, ◌≡◌, ◌<◌, refl, sym, ◌∙◌, ap, true, false, none, some, List, [], ◌∷◌, ltb,
  length, arith,
}
use goofyos.Dsa.Links.{Links, null, update}
use goofyos.Dsa.Links.Chain.{first}
use goofyos.Dsa.ListHead.{list_pop_front, list_push_front}
use goofyos.Dsa.ListHead.Laws.{IsList, list_push_front_lem, list_pop_front_lem}
use goofyos.Mm.Pages.{page_to_virt, hhdm_to_page, base_pfn, objects, length-objects, has-objects}
use goofyos.Mm.Mempool.{
  Mempool, max_count, down, popped_chunk, pop_chunk, push_chunks, refill, alloc_from,
  mempool_alloc_nolock, allocs, and_allocs,
}

-- A list with some back pointer at its front.
abbrev Listed : ℕ × Links → List ℕ → Type 0
Listed l xs = (before : ℕ) × IsList l.1 l.0 before xs

-- The loop over a page makes a list of its chunks, the last in front.
push_chunks_lem :
    (base size t i n : ℕ) (l : ℕ × Links)
    → 0 < base
    → 0 < size
    → i + n ≡ t
    → Listed l (objects base size i)
    → Listed (push_chunks base size i n l) (objects base size t)
unfolding push_chunks
push_chunks_lem base size t i zero l b p e h = let same : i ≡ t = omega arith in rw (sym same) h
push_chunks_lem base size t i (suc n) l b p e (before, is) =
    let (next, _) =
      list_push_front_lem (base + size * i) is (omega arith)
        (has-objects base size i i p (omega arith)) in
    push_chunks_lem base size t (suc i) n (list_push_front l.1 l.0 (base + size * i)) b p
      (omega arith) (_, next)

alloc_pops : (hhdm : ℕ) (m : Mempool) → 0 < m.count → mempool_alloc_nolock hhdm m ≡ pop_chunk hhdm m
unfolding mempool_alloc_nolock alloc_from
alloc_pops hhdm m pos = from m.pages
  where
    yes : ltb 0 m.count ≡ true
    yes = ground arith

    from : (pages : List ℕ) → alloc_from hhdm m pages ≡ pop_chunk hhdm m
    from [] = rw yes refl
    from (page ∷ rest) = rw yes refl

pop_none : (hhdm : ℕ) (m : Mempool) → m.freelist ≡ null → pop_chunk hhdm m ≡ none
unfolding pop_chunk list_pop_front
pop_none hhdm m e = ap (popped_chunk hhdm m) (at_null m.freelist e)
  where
    at_null : (head : ℕ) → head ≡ null → list_pop_front m.links head ≡ none
    at_null head e = ground arith

pop_some :
    (hhdm x rest : ℕ) (m : Mempool)
    → list_pop_front m.links m.freelist ≡ some (x, rest)
    → pop_chunk hhdm m ≡ popped_chunk hhdm m (some (x, rest))
unfolding pop_chunk
pop_some hhdm x rest m e = ap (popped_chunk hhdm m) e

-- A pool that has given all its chunks, and was never given one back, does not ask for a page.
drain :
    (hhdm : ℕ) (xs : List ℕ) (m : Mempool)
    → 0 < m.count
    → Listed (m.freelist, m.links) xs
    → (m' : Mempool) × ((allocs hhdm (length xs) m ≡ some (xs, m'))
        × (mempool_alloc_nolock hhdm m' ≡ none)
        × (m'.pages ≡ m.pages))
unfolding allocs
drain hhdm [] m pos is = (m, (refl, alloc_pops hhdm m pos ∙ pop_none hhdm m is.1.start, refl))
drain hhdm (x ∷ xs) m pos (before, is) =
    let (e, rest) = list_pop_front_lem is in
    let base : ℕ = base_pfn (hhdm_to_page hhdm x) m.order in
    let m₁ : Mempool = record m {
      freelist = first xs null;
      n_free = update m.n_free base (down (m.n_free base));
    } in
    let (m', q) = drain hhdm xs m₁ pos (x, rest) in
    (m', (rw (alloc_pops hhdm m pos ∙ pop_some hhdm x (first xs null) m e, q.0) refl, q.1, q.2))

same_calls :
    (hhdm n : ℕ) (m k : Mempool)
    → 0 < n
    → mempool_alloc_nolock hhdm m ≡ mempool_alloc_nolock hhdm k
    → allocs hhdm n m ≡ allocs hhdm n k
unfolding allocs
same_calls hhdm zero m k pos e = absurd (omega arith)
same_calls hhdm (suc n) m k pos e = ap (and_allocs (allocs hhdm n)) e

refill_first :
    (hhdm page : ℕ) (rest : List ℕ) (m : Mempool)
    → m.count ≡ 0
    → m.pages ≡ page ∷ rest
    → mempool_alloc_nolock hhdm m ≡ mempool_alloc_nolock hhdm (refill hhdm m page rest)
unfolding mempool_alloc_nolock alloc_from refill
refill_first hhdm page rest m z e = ap (alloc_from hhdm m) e ∙ refilled (ground arith)
  where
    refilled :
        ltb 0 m.count ≡ false
        → alloc_from hhdm m (page ∷ rest)
          ≡ alloc_from hhdm (refill hhdm m page rest) (refill hhdm m page rest).pages
    refilled zero_count = rw zero_count refl

-- A pool without chunks takes the next page, gives its chunks, the last of the page first, and then
-- reads through NULL on the next allocation, whether or not there are more pages. The direct map does not
-- start at address 0, and the page has room for an object.
pub mempool_alloc_nolock-drains :
    (hhdm page : ℕ) (rest : List ℕ) (m : Mempool)
    → 0 < hhdm
    → 0 < m.size
    → 0 < max_count m
    → m.count ≡ 0
    → m.pages ≡ page ∷ rest
    → let chunks : List ℕ = objects (page_to_virt hhdm page) m.size (max_count m) in
      (m' : Mempool) × ((allocs hhdm (max_count m) m ≡ some (chunks, m'))
        × (mempool_alloc_nolock hhdm m' ≡ none)
        × (m'.pages ≡ rest))
unfolding refill page_to_virt
mempool_alloc_nolock-drains hhdm page rest m b p pos z e =
    let chunks : List ℕ = objects (page_to_virt hhdm page) m.size (max_count m) in
    let full : Mempool = refill hhdm m page rest in
    let listed : Listed (full.freelist, full.links) chunks =
      push_chunks_lem (page_to_virt hhdm page) m.size (max_count m) 0 (max_count m) (null, m.links)
        (omega arith) p (omega arith) (null, record { start = refl; chain = tt; distinct = tt }) in
    let first_calls : allocs hhdm (max_count m) m ≡ allocs hhdm (max_count m) full =
      same_calls hhdm (max_count m) m full pos (refill_first hhdm page rest m z e) in
    let (m', q) = drain hhdm chunks full pos listed in
    (
      m',
      (
        first_calls ∙ rw (length-objects (page_to_virt hhdm page) m.size (max_count m)) at q.0,
        q.1,
        q.2,
      ),
    )
