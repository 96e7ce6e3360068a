-- ===== src/Markdown/Reader/Caches/Bounds.antt =====
-- What the page cache and the document cache hold.
use sony_prs.Base.{
  ℕ, ◌+◌, ◌-◌, ◌≤◌, ◌<◌, ◌≡◌, refl, arith, false, List, [], ◌∷◌, ◌++◌, some, ◌==◌, ==_refl, leb,
  if◌then◌else◌, length, length-append, Bool-cases, inl, inr,
}
use sony_prs.Markdown.Pagination.Scan.{PageLayout}
use sony_prs.Markdown.Reader.{PageCache}
use sony_prs.Markdown.Reader.Caches.{
  new_page_cache, find_page, get_page, remove_page, evict, insert_page,
}

length-evict :
    {A : Type 0} (capacity : ℕ) (xs : List A) → 1 ≤ capacity → length (evict capacity xs) < capacity
length-evict capacity [] h = omega arith
length-evict capacity (x ∷ xs) h = elim (Bool-cases (leb capacity (length (x ∷ xs)))) [
  | inl e ↦ rw e (length-evict capacity xs h)
  | inr e ↦ rw e (ground (arith, e))
]

-- No entry for the index, or just one.
abbrev count_page : List (ℕ × PageLayout) → ℕ → ℕ
count_page [] index = 0
count_page (e ∷ es) index = (if e.0 == index then 1 else 0) + count_page es index

count_page-remove :
    (es : List (ℕ × PageLayout)) (i j : ℕ)
    → count_page (remove_page es i) j ≡ count_page es j - (if i == j then 1 else 0)
count_page-remove [] i j = ground arith
count_page-remove (e ∷ es) i j = ground (arith, count_page-remove es i j)

count_page-evict :
    (capacity : ℕ) (es : List (ℕ × PageLayout)) (i : ℕ)
    → count_page (evict capacity es) i ≤ count_page es i
count_page-evict capacity [] i = omega arith
count_page-evict capacity (e ∷ es) i = ground (arith, count_page-evict capacity es i)

count_page-append :
    (xs ys : List (ℕ × PageLayout)) (i : ℕ)
    → count_page (xs ++ ys) i ≡ count_page xs i + count_page ys i
count_page-append [] ys i = omega arith
count_page-append (x ∷ xs) ys i = omega (arith, count_page-append xs ys i)

-- The found page is the last one when the others have another index.
find_page-last :
    (es : List (ℕ × PageLayout)) (i : ℕ) (page : PageLayout)
    → count_page es i ≡ 0
    → find_page (es ++ (i, page) ∷ []) i ≡ some page
find_page-last [] i page h = rw (==_refl i) refl
find_page-last (e ∷ es) i page h =
    let other : (e.0 == i) ≡ false = ground (arith, h) in
    rw other (find_page-last es i page (ground (arith, h)))

-- At most `capacity` pages, at least one of them possible, and no index twice.
pub record IsCache (c : PageCache) : Type 0 where
  pub positive : 1 ≤ c.capacity
  pub size : length c.entries ≤ c.capacity
  pub distinct : (i : ℕ) → count_page c.entries i ≤ 1

pub new_page_cache-IsCache : (capacity : ℕ) → IsCache (new_page_cache capacity)
unfolding new_page_cache
new_page_cache-IsCache capacity = record {
  positive = omega arith;
  size = omega arith;
  distinct = λ i. omega arith;
}

-- A cache within its bounds stays so when a page is inserted, with no index in it twice, and the
-- inserted page is found under its index.
pub insert_page-IsCache :
    (c : PageCache) (index : ℕ) (page : PageLayout)
    → IsCache c
    → IsCache (insert_page c index page) × (get_page (insert_page c index page) index ≡ some page)
unfolding insert_page
insert_page-IsCache c index page h =
    let kept = remove_page c.entries index in
    let gone : count_page kept index ≡ 0 =
      ground (arith, count_page-remove c.entries index index, h.distinct index) in
    let left : count_page (evict c.capacity kept) index ≡ 0 =
      omega (arith, gone, count_page-evict c.capacity kept index) in
    (
      record {
        positive = h.positive;
        size = omega (
          arith,
          length-append (evict c.capacity kept) ((index, page) ∷ []),
          length-evict c.capacity kept h.positive,
        );
        distinct = λ i. ground (
          arith,
          left,
          count_page-append (evict c.capacity kept) ((index, page) ∷ []) i,
          count_page-evict c.capacity kept i,
          count_page-remove c.entries index i,
          h.distinct i,
        );
      },
      find_page-last (evict c.capacity kept) index page left,
    )
