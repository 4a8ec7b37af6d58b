-- ===== src/Storage/Gap.antt =====
-- The last item moved over the item with a key: what the array then holds as a map.
use freelang_independent_ful.Prelude.{
  ℕ, zero, suc, ◌+◌, ◌<◌, ◌≡◌, refl, sym, ap, ◌∙◌, arith, Bool, true, false, Option, none, some,
  List, [], ◌∷◌, ◌++◌, if◌then◌else◌, set, length, ◌⊎◌, inl, inr, Bool-cases,
}
use freelang_independent_ful.Storage.{
  Text, StorageItem, same_text, find_item, drop_last, replace_item,
}
use freelang_independent_ful.Storage.Laws.{lookup, same_text-eq, same_text_refl, lookup-append}

-- no two items have the same key
unfoldable pub Distinct : List StorageItem → Type 0
Distinct [] = Unit
Distinct (item ∷ items) = lookup items item.key ≡ none × Distinct items

-- item `k` is the first with the key
unfoldable pub At : List StorageItem → Text → ℕ → Type 0
At [] key k = ⊥
At (item ∷ items) key zero = item.key ≡ key
At (item ∷ items) key (suc k) = same_text item.key key ≡ false × At items key k

pub find_item-At :
    (items : List StorageItem) (key : Text) (i : ℕ)
    → (find_item items key i ≡ none × lookup items key ≡ none)
      ⊎ (k : ℕ) × (find_item items key i ≡ some (i + k)) × At items key k
unfolding find_item lookup At
find_item-At [] key i = inl (refl, refl)
find_item-At (item ∷ items) key i = elim (Bool-cases (same_text item.key key)) [
  | inl e ↦ rw e (inr (0, ap some (omega arith), same_text-eq item.key key e))
  | inr e ↦ elim (find_item-At items key (i + 1)) [
    | inl (f, l) ↦ rw e (inl (f, l))
    | inr (k, f, a) ↦ rw e (inr (suc k, f ∙ ap some (omega arith), (e, a)))
  ]
]

ne_sym : (a b : Text) → same_text a b ≡ false → same_text b a ≡ false
ne_sym a b h = elim (Bool-cases (same_text b a)) [
  | inl e ↦
      let same : b ≡ a = same_text-eq b a e in
      let z : true ≡ false = sym (same_text_refl a) ∙ ap (same_text a) (sym same) ∙ h in
      ground arith
  | inr e ↦ e
]

-- A list that is not empty, by its last item.
pub snoc_view :
    (x : StorageItem) (xs : List StorageItem)
    → (front : List StorageItem) × (last : StorageItem) × (x ∷ xs ≡ front ++ (last ∷ []))
snoc_view x [] = ([], x, refl)
snoc_view x (y ∷ ys) = let (front, last, e) = snoc_view y ys in (x ∷ front, last, ap (λ l. x ∷ l) e)

pub drop_last-snoc :
    (front : List StorageItem) (last : StorageItem) → drop_last (front ++ (last ∷ [])) ≡ front
unfolding drop_last
drop_last-snoc [] last = refl
drop_last-snoc (x ∷ []) last = refl
drop_last-snoc (x ∷ y ∷ front) last = ap (λ l. x ∷ l) (drop_last-snoc (y ∷ front) last)

pub replace-snoc :
    (items front : List StorageItem) (last : StorageItem) (k : ℕ)
    → replace_item items k (front ++ (last ∷ [])) ≡ set items k last
unfolding replace_item
replace-snoc items [] last k = refl
replace-snoc items (x ∷ []) last k = refl
replace-snoc items (x ∷ y ∷ front) last k = replace-snoc items (y ∷ front) last k

pub set-snoc :
    (front : List StorageItem) (last item : StorageItem) (k : ℕ)
    → k < length front
    → set (front ++ (last ∷ [])) k item ≡ set front k item ++ (last ∷ [])
set-snoc [] last item k h = absurd (omega arith)
set-snoc (x ∷ front) last item zero h = refl
set-snoc (x ∷ front) last item (suc k) h =
    ap (λ l. x ∷ l) (set-snoc front last item k (omega arith))

-- A key that a list with a last item does not hold is not in front of it, and is not the last one's.
absent-snoc :
    (front : List StorageItem) (last : StorageItem) (key : Text)
    → lookup (front ++ (last ∷ [])) key ≡ none
    → lookup front key ≡ none × same_text last.key key ≡ false
unfolding lookup
absent-snoc [] last key h = elim (Bool-cases (same_text last.key key)) [
  | inl e ↦ let z : some last.value ≡ none = rw e at h in ground arith
  | inr e ↦ (refl, e)
]
absent-snoc (x ∷ front) last key h = elim (Bool-cases (same_text x.key key)) [
  | inl e ↦ let z : some x.value ≡ none = rw e at h in ground arith
  | inr e ↦ rw e (absent-snoc front last key (rw e at h))
]

pub Distinct-snoc :
    (front : List StorageItem) (last : StorageItem)
    → Distinct (front ++ (last ∷ []))
    → Distinct front × lookup front last.key ≡ none
unfolding Distinct lookup
Distinct-snoc [] last d = (tt, refl)
Distinct-snoc (x ∷ front) last (d, ds) =
    let (p, q) = absent-snoc front last x.key d in
    let (r, t) = Distinct-snoc front last ds in ((p, r), rw (ne_sym last.key x.key q) t)

-- the map without a key
unfoldable pub Removed : List StorageItem → Text → List StorageItem → Type 0
Removed items key items' =
    (other : Text)
    → lookup items' other ≡ (if same_text key other then none else lookup items other)

none_either : (b : Bool) (o : Option Text) → o ≡ none → (if b then none else o) ≡ none
none_either true o h = refl
none_either false o h = h

tail_removed :
    (x : StorageItem) (items items' : List StorageItem) (key other : Text)
    → same_text x.key key ≡ false
    → lookup items' other ≡ (if same_text key other then none else lookup items other)
    → lookup (x ∷ items') other ≡ (if same_text key other then none else lookup (x ∷ items) other)
unfolding lookup
tail_removed x items items' key other ne h = elim (Bool-cases (same_text x.key other)) [
  | inl s ↦ elim (Bool-cases (same_text key other)) [
    | inl t ↦
        let both : x.key ≡ key = same_text-eq x.key other s ∙ sym (same_text-eq key other t) in
        let z : true ≡ false =
          sym (same_text_refl key) ∙ ap (λ k. same_text k key) (sym both) ∙ ne in
        ground arith
    | inr t ↦ rw (s, t) refl
  ]
  | inr s ↦ rw s h
]

-- the last item moved to the front, over the item with the key
head_moved :
    (x : StorageItem) (front : List StorageItem) (last : StorageItem) (key other : Text)
    → x.key ≡ key
    → lookup front x.key ≡ none
    → same_text last.key x.key ≡ false
    → lookup (front ++ (last ∷ [])) other
      ≡ (if same_text last.key other then some last.value else lookup front other)
    → lookup (last ∷ front) other
      ≡ (if same_text key other then none else lookup (x ∷ (front ++ (last ∷ []))) other)
unfolding lookup
head_moved x front last key other e absent apart rest = elim (Bool-cases (same_text key other)) [
  | inl t ↦
      let same : other ≡ x.key = sym (same_text-eq key other t) ∙ sym e in
      let off : same_text last.key other ≡ false = ap (same_text last.key) same ∙ apart in
      rw (t, off) (ap (lookup front) same ∙ absent)
  | inr t ↦
      let off : same_text x.key other ≡ false = ap (λ k. same_text k other) e ∙ t in
      rw (t, off) (sym rest)
]

pub gap-Removed :
    (front : List StorageItem) (last : StorageItem) (key : Text) (k : ℕ)
    → k < length front
    → At (front ++ (last ∷ [])) key k
    → Distinct (front ++ (last ∷ []))
    → Removed (front ++ (last ∷ [])) key (set front k last)
unfolding Removed At Distinct
gap-Removed [] last key k h a d = absurd (omega arith)
gap-Removed (x ∷ front) last key zero h a (d, ds) = λ other.
    let (absent, apart) = absent-snoc front last x.key d in
    let (_, alone) = Distinct-snoc front last ds in
    let rest = lookup-append front last.key other last alone refl in
    head_moved x front last key other a absent apart rest
gap-Removed (x ∷ front) last key (suc k) h (ne, a) (d, ds) = λ other.
    tail_removed x (front ++ (last ∷ [])) (set front k last) key other ne
      (gap-Removed front last key k (omega arith) a ds other)

pub gap-Distinct :
    (front : List StorageItem) (last : StorageItem) (key : Text) (k : ℕ)
    → k < length front
    → At (front ++ (last ∷ [])) key k
    → Distinct (front ++ (last ∷ []))
    → Distinct (set front k last)
unfolding At Distinct Removed
gap-Distinct [] last key k h a d = absurd (omega arith)
gap-Distinct (x ∷ front) last key zero h a (d, ds) =
    let (r, alone) = Distinct-snoc front last ds in (alone, r)
gap-Distinct (x ∷ front) last key (suc k) h (ne, a) (d, ds) =
    let removed = gap-Removed front last key k (omega arith) a ds x.key in
    (
      removed ∙ none_either (same_text key x.key) (lookup (front ++ (last ∷ [])) x.key) d,
      gap-Distinct front last key k (omega arith) a ds,
    )

last_moved :
    (last_key key other : Text) (value : Text) (o : Option Text)
    → last_key ≡ key
    → (other ≡ last_key → o ≡ none)
    → o ≡ (if same_text key other then none else if same_text last_key other then some value else o)
last_moved last_key key other value o e h = elim (Bool-cases (same_text key other)) [
  | inl t ↦ rw t (h (sym (same_text-eq key other t) ∙ sym e))
  | inr t ↦
      let off : same_text last_key other ≡ false = ap (λ k. same_text k other) e ∙ t in
      rw (t, off) refl
]

pub last-Removed :
    (front : List StorageItem) (last : StorageItem) (key : Text)
    → last.key ≡ key
    → Distinct (front ++ (last ∷ []))
    → Removed (front ++ (last ∷ [])) key front
unfolding Removed
last-Removed front last key e d = λ other.
    let (_, alone) = Distinct-snoc front last d in
    let rest = lookup-append front last.key other last alone refl in
    last_moved last.key key other last.value (lookup front other) e
      (λ same. ap (lookup front) same ∙ alone)
    ∙ ap (λ o. if same_text key other then none else o) (sym rest)

pub At-lt : (items : List StorageItem) (key : Text) (k : ℕ) → At items key k → k < length items
unfolding At
At-lt [] key k a = elim a [ ]
At-lt (x ∷ items) key zero a = omega arith
At-lt (x ∷ items) key (suc k) (_, a) = omega (arith, At-lt items key k a)

pub At-last :
    (front : List StorageItem) (last : StorageItem) (key : Text) (k : ℕ)
    → k ≡ length front
    → At (front ++ (last ∷ [])) key k
    → last.key ≡ key
unfolding At
At-last [] last key zero e a = a
At-last [] last key (suc k) e a = absurd (omega arith)
At-last (x ∷ front) last key zero e a = absurd (omega arith)
At-last (x ∷ front) last key (suc k) e (_, a) = At-last front last key k (omega arith) a
