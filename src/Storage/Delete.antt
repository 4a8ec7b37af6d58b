-- ===== src/Storage/Delete.antt =====
-- Deletion by moving the last item into the gap: the map loses the key and nothing else.
use freelang_independent_ful.Prelude.{
  ℕ, ◌+◌, ◌-◌, ◌≤◌, ◌<◌, ◌≡◌, refl, sym, ap, ◌∙◌, arith, Bool, true, false, Option, none, some,
  List, [], ◌∷◌, ◌++◌, ltb, if◌then◌else◌, set, length, length-append, length-set, ◌⊎◌, inl, inr,
  dec_lt,
}
use mathlib.Core.Path.{subst}
use freelang_independent_ful.Status.{ok, fail}
use freelang_independent_ful.Storage.{
  Text, StorageItem, Storage, same_text, find_item, drop_last, replace_item, storage_delete,
  storage_get,
}
use freelang_independent_ful.Storage.Laws.{lookup, shown, get-lookup}
use freelang_independent_ful.Storage.Gap.{
  Distinct, At, Removed, find_item-At, drop_last-snoc, replace-snoc, set-snoc, Distinct-snoc,
  gap-Removed, gap-Distinct, last-Removed, At-lt, At-last, snoc_view,
}

-- the items that `storage_delete` leaves when the search has found item `k`
left : List StorageItem → ℕ → List StorageItem
left items k = drop_last (if ltb k (length items - 1) then replace_item items k items else items)

Left : List StorageItem → Text → List StorageItem → Type 0
Left items key items' =
    Removed items key items' × Distinct items' × length items' + 1 ≡ length items

left-snoc :
    (front : List StorageItem) (last : StorageItem) (key : Text) (k : ℕ)
    → At (front ++ (last ∷ [])) key k
    → Distinct (front ++ (last ∷ []))
    → Left (front ++ (last ∷ [])) key (left (front ++ (last ∷ [])) k)
unfolding left Left
left-snoc front last key k a d =
    let total = length-append front (last ∷ []) in
    let below = At-lt (front ++ (last ∷ [])) key k a in
    elim (dec_lt k (length front)) [
      | yes h ↦
          let t : ltb k (length (front ++ (last ∷ [])) - 1) ≡ true =
            let q : k < length (front ++ (last ∷ [])) - 1 = omega arith in ground (arith, q) in
          let e : drop_last (replace_item (front ++ (last ∷ [])) k (front ++ (last ∷ [])))
              ≡ set front k last =
            ap drop_last
              (replace-snoc (front ++ (last ∷ [])) front last k ∙ set-snoc front last last k h)
            ∙ drop_last-snoc (set front k last) last in
          rw (t, e)
            (
              gap-Removed front last key k h a d,
              gap-Distinct front last key k h a d,
              omega (arith, length-set front k last),
            )
      | no h ↦
          let t : ltb k (length (front ++ (last ∷ [])) - 1) ≡ false =
            let q : length (front ++ (last ∷ [])) - 1 ≤ k = omega arith in ground (arith, q) in
          let (r, _) = Distinct-snoc front last d in
          rw (t, drop_last-snoc front last)
            (
              last-Removed front last key (At-last front last key k (omega arith) a) d,
              r,
              omega arith,
            )
    ]

left-Left :
    (items : List StorageItem) (key : Text) (k : ℕ)
    → At items key k
    → Distinct items
    → Left items key (left items k)
left-Left [] key k a d = absurd (let z = At-lt [] key k a in omega arith)
left-Left (x ∷ xs) key k a d =
    let (front, last, e) = snoc_view x xs in
    subst (λ l. At l key k → Distinct l → Left l key (left l k)) (sym e)
      (left-snoc front last key k) a d

shown_unless :
    (size : ℕ) (b : Bool) (o : Option Text)
    → shown size (if b then none else o) ≡ (if b then none else shown size o)
unfolding shown
shown_unless size true o = refl
shown_unless size false o = refl

-- On a store with no key twice, `storage_delete` of a key that is there makes `storage_get` of it
-- fail and of every other key answer what it did, although the last item takes the place of the
-- deleted one; the items are one fewer and no key is there twice. A key that is not there is
-- reported, and nothing changes.
pub get-storage_delete :
    (s : Storage) (key : Text)
    → Distinct s.items
    → let (status, s') = storage_delete s key in
      ((status ≡ ok)
        × length s'.items + 1 ≡ length s.items
        × Distinct s'.items
        × ((other : Text) (size : ℕ)
            → storage_get s' other size
              ≡ (if same_text key other then none else storage_get s other size)))
      ⊎ (status ≡ fail × s' ≡ s × ((size : ℕ) → storage_get s key size ≡ none))
unfolding storage_delete left Left Removed shown
get-storage_delete s key d = elim (find_item-At s.items key 0) [
  | inl (f, l) ↦
      rw (storage_delete, f) (inr (refl, refl, λ size. get-lookup s key size ∙ ap (shown size) l))
  | inr (k, f, a) ↦
      let e : find_item s.items key 0 ≡ some k = f ∙ ap some (omega arith) in
      let (removed, distinct, n) = left-Left s.items key k a d in
      rw (storage_delete, e)
        (inl (
          refl,
          n,
          distinct,
          λ other size.
              get-lookup (record s { items = left s.items k }) other size
              ∙ ap (shown size) (removed other)
              ∙ shown_unless size (same_text key other) (lookup s.items other)
              ∙ ap (λ o. if same_text key other then none else o) (sym (get-lookup s other size)),
        ))
]
