-- ===== src/MemoryManager/Free.antt =====
-- `mm_free` of myos-lib/src/mm.c as a whole, on a heap that is laid out in blocks.
use freelang_independent_ful.Prelude.{
  ℕ, ◌+◌, ◌/◌, ◌<◌, ◌≡◌, ◌≢◌, refl, ap, ◌∙◌, false, not, ◌||◌, Option, none, some, List, ◌∷◌, ◌++◌,
  ◌==◌, arith, inl, inr, ◌⊎◌, Bool-cases,
}
use freelang_independent_ful.Memory.{size_mod, sub_size}
use freelang_independent_ful.MemoryManager.{
  MemBlock, Manager, mem_magic, put, set_next, rounds, find_place, linked, merge_after,
  merge_before, returned, mm_free,
}
use freelang_independent_ful.MemoryManager.Layout.{
  Apart, Linked, Apart-bound, Apart-split, Linked-split, last_free, Redirects, last_free-Redirects,
  IsLaid,
}
use freelang_independent_ful.MemoryManager.Alloc.{put-at, put-off}
use freelang_independent_ful.MemoryManager.Frame.{Alike, Alike-trans}
use freelang_independent_ful.MemoryManager.Place.{
  find_place_lem, Lies, linked-Lies, set_prev-fields,
}
use freelang_independent_ful.MemoryManager.Merge.{linked-Alike}
use freelang_independent_ful.MemoryManager.Join.{
  IsShortened, Covers, IsJoined, merge_before-Covers, merge_after-Covers, merge_after-Alike,
}

linked-at :
    (f : ℕ → MemBlock) (head mid last : Option ℕ) (a : ℕ)
    → (last ≡ none ⊎ (p : ℕ) × (last ≡ some p) × p < a)
    → let g = (linked last mid a head f).1 in
      (g a).next ≡ mid × (g a).is_free ≡ 1 × (g a).size ≡ (f a).size
unfolding linked set_next
linked-at f head mid none a o =
    let b = record (f a) { is_free = 1; next = mid; prev = none } in
    let (nx, fr, sz) = set_prev-fields (put a b f) mid (some a) a in
    let w = put-at a b f in
    (nx ∙ ap (λ t. t.next) w, fr ∙ ap (λ t. t.is_free) w, sz ∙ ap (λ t. t.size) w)
linked-at f head mid (some p) a o =
    let below : p < a = elim o [
      | inl e ↦ absurd (ground (arith, e))
      | inr (q, e, l) ↦ ground (arith, e, l)
    ] in
    let b = record (f a) { is_free = 1; next = mid; prev = some p } in
    let n = put p (record (put a b f p) { next = some a }) (put a b f) in
    let (nx, fr, sz) = set_prev-fields n mid (some a) a in
    let w =
      put-off p (record (put a b f p) { next = some a }) (put a b f) a (λ s. omega arith)
      ∙ put-at a b f in
    (nx ∙ ap (λ t. t.next) w, fr ∙ ap (λ t. t.is_free) w, sz ∙ ap (λ t. t.size) w)

last_below :
    (f : ℕ → MemBlock) (head : Option ℕ) (lo : ℕ) (xs : List ℕ) (a : ℕ) (last : Option ℕ)
    → Redirects f head lo xs a none last
    → last ≡ none ⊎ (p : ℕ) × (last ≡ some p) × p < a
unfolding Redirects
last_below f head lo xs a last (inl (e, _)) = inl e
last_below f head lo xs a last (inr (p, e, _, l, _)) = inr (p, e, l)

-- the headers that the steps behind the checks leave
steps : (ℕ → MemBlock) → Option ℕ → Option ℕ → Option ℕ → ℕ → Option ℕ × (ℕ → MemBlock)
steps f head mid last a =
    let (head', g) = linked last mid a head f in (head', merge_before last a (merge_after mid a g))

-- What `mm_free` does: the bytes from the header of `p` up to `e` are one free block, made of `a` and of
-- the free blocks that touch it, and no other block has changed.
unfoldable pub Joins :
    (ℕ → MemBlock) → (ℕ → MemBlock) → List ℕ → ℕ → List ℕ → List ℕ → ℕ → List ℕ → Type 0
Joins f g xs a ys us p zs =
    IsJoined f xs a us p
    × IsShortened f (a + 32 + (f a).size) ys zs (p + 32 + (g p).size)
    × (g p).is_free ≡ 1
    × ((q : ℕ) → q ≡ a ⊎ q ≡ p ⊎ Alike (f q) (g q))

steps-Joins :
    (f : ℕ → MemBlock) (head mid : Option ℕ) (lo : ℕ) (xs : List ℕ) (a : ℕ) (ys : List ℕ) (hi : ℕ)
    → hi < size_mod
    → Linked f head xs mid
    → Apart f lo xs a
    → Linked f mid ys none
    → Apart f (a + 32 + (f a).size) ys hi
    → let (head', k) = steps f head mid (last_free f none xs) a in
      (us : List ℕ) × (p : ℕ) × (zs : List ℕ) × Lies lo (us ++ (p ∷ zs)) hi (head', k)
      × Joins f k xs a ys us p zs
unfolding Covers Joins steps
steps-Joins f head mid lo xs a ys hi bound l h l' h' =
    let last = last_free f none xs in
    let r = last_free-Redirects f head lo xs a none mid h l in
    let lies = linked-Lies f head mid last lo xs a ys hi h r l' h' in
    let head' = (linked last mid a head f).0 in
    let g = (linked last mid a head f).1 in
    let k = merge_after mid a g in
    let (nx, fr, sz) = linked-at f head mid last a (last_below f head lo xs a last r) in
    let kept = linked-Alike f head mid last a in
    let (zs, e, shortened, (lies', u, end)) =
      merge_after-Covers f g head' mid lo xs a ys hi (a + 32 + (f a).size) bound l' h' kept lies fr
        (ap (λ s. a + 32 + s) sz) in
    let kept' : (q : ℕ) → q ≢ a → Alike (f q) (k q) =
      λ q d. Alike-trans (f q) (g q) (k q) (kept q d) (merge_after-Alike mid a g q d) in
    let (us, p, joins, (lies'', v, end'), others) =
      merge_before-Covers f k head mid head' last lo xs a zs hi e bound l h refl kept' lies' u
        end in
    (
      us,
      p,
      zs,
      lies'',
      (
        joins,
        rw end' shortened,
        v,
        λ q. elim (Bool-cases (q == a)) [
          | inl s ↦ inl (ground arith)
          | inr s ↦ elim (Bool-cases (q == p)) [
            | inl s' ↦ inr (inl (ground arith))
            | inr s' ↦ inr (
                inr (
                  Alike-trans (f q) (k q) (merge_before last a k q) (kept' q (λ t. ground arith))
                    (others q (λ t. ground arith))))
          ]
        ],
      ),
    )

free_some :
    (m : Manager) (base a : ℕ) (pos curr : Option ℕ)
    → m.heap_base ≡ some base
    → a + 32 < size_mod
    → (m.blocks a).magic ≡ mem_magic
    → (m.blocks a).is_free ≡ 0
    → find_place (rounds m) none m.free_list a m.blocks ≡ some (pos, curr)
    → mm_free (some (a + 32)) m ≡ some (returned pos curr a m)
unfolding mm_free
free_some m base a pos curr e h g u found =
    let back : sub_size (a + 32) 32 ≡ a = omega arith in
    let t : (not ((m.blocks a).magic == mem_magic) || not ((m.blocks a).is_free == 0)) ≡ false =
      ground (arith, g) in
    simp (mm_free, e, back, t, found) refl

used_head :
    (f : ℕ → MemBlock) (head : Option ℕ) (a : ℕ) (ys : List ℕ)
    → (f a).is_free ≡ 0
    → Linked f head (a ∷ ys) none
    → Linked f head ys none
unfolding Linked
used_head f head a ys u (inl (_, l)) = l
used_head f head a ys u (inr (v, _, _)) = absurd (omega arith)

-- On a heap laid out in blocks, `mm_free` of the address behind the header of a block in use ends
-- with the heap laid out again, in the same blocks but for a free block of exactly these bytes: the
-- block given back, with the free block that ends where it begins, if there is one, and with the free
-- block that begins where it ends, if there is one. The marks and sizes of the other blocks stay.
pub free-IsLaid :
    (m : Manager) (base : ℕ) (xs : List ℕ) (a : ℕ) (ys : List ℕ)
    → IsLaid m base (xs ++ (a ∷ ys))
    → (m.blocks a).magic ≡ mem_magic
    → (m.blocks a).is_free ≡ 0
    → (m' : Manager) × (mm_free (some (a + 32)) m ≡ some m')
      × (us : List ℕ) × (p : ℕ) × (zs : List ℕ) × IsLaid m' base (us ++ (p ∷ zs))
      × Joins m.blocks m'.blocks xs a ys us p zs
unfolding IsLaid returned Lies rounds steps
free-IsLaid m base xs a ys (e, bound, l, h) g u =
    let f = m.blocks in
    let hi : ℕ = base + m.heap_size in
    let (below, above) = Apart-split f base xs a ys hi h in
    let (mid, before, after) = Linked-split f m.free_list xs (a ∷ ys) none l in
    let behind_a = used_head f mid a ys u after in
    let w = Apart-bound f base (xs ++ (a ∷ ys)) hi h in
    let w' = Apart-bound f (a + 32 + (f a).size) ys hi above in
    let w'' = Apart-bound f base xs a below in
    let found =
      find_place_lem (m.heap_size / 32 + 1) none m.free_list mid base xs a (a + 32 + (f a).size) ys
        hi f (omega arith) before below behind_a above (omega arith) in
    let (us, p, zs, (l', h'), joins) =
      steps-Joins f m.free_list mid base xs a ys hi bound before below behind_a above in
    (
      returned (last_free f none xs) mid a m,
      free_some m base a (last_free f none xs) mid e (omega arith) g u found,
      us,
      p,
      zs,
      (e, bound, l', h'),
      joins,
    )
