-- ===== src/HashMap/Search.antt =====
-- The probe of `hash_find_entry`: the slots that it visits, in order, and that it ends.
use freelang_independent_ful.Prelude.{
  ℕ, zero, suc, ◌+◌, ◌-◌, ◌%◌, ◌^◌, ◌≤◌, ◌<◌, ◌≡◌, ◌≢◌, refl, sym, ap, ◌∙◌, Bool, true, List, arith,
  ltb, ◌⊎◌, if◌then◌else◌, get_or, length, dec_lt, ==_iff, inl, inr,
}
use native.Mathlib.Nat.{mod-add-mod, mod-eq_of_lt, mod-eq-sub-mod}
use freelang_independent_ful.HashMap.{
  KeyOps, Entry, HashMap, Action, stop, pass, give_up, Probe, found, absent, spinning, narrowed,
  blank, action, probe, find_entry,
}

-- the slot that the probe visits in round `k`
abbrev pub visited : ℕ → ℕ → ℕ → ℕ
visited capacity start k = (start + k) % capacity

pub visited-lt : (capacity start k : ℕ) → 0 < capacity → visited capacity start k < capacity
visited-lt capacity start k h = omega arith

visited_next :
    (capacity start k : ℕ)
    → (visited capacity start k + 1) % capacity ≡ visited capacity start (k + 1)
visited_next capacity start k = rw mod-add-mod (ap (λ n. n % capacity) (omega arith))

visited_mod :
    (capacity start k : ℕ)
    → start < capacity
    → k < capacity
    → visited capacity start k
      ≡ (if ltb (start + k) capacity then start + k else start + k - capacity)
visited_mod capacity start k p q = elim (dec_lt (start + k) capacity) [
  | yes h ↦ ground (arith, mod-eq_of_lt h)
  | no h ↦ ground (
    arith,
    mod-eq-sub-mod {n = start + k} {m = capacity} (omega arith),
    mod-eq_of_lt {n = start + k - capacity} {m = capacity} (omega arith),
  )
]

-- The rounds visit different slots.
pub visited-injective :
    (capacity start j k : ℕ)
    → start < capacity
    → j < capacity
    → k < capacity
    → visited capacity start j ≡ visited capacity start k
    → j ≡ k
visited-injective capacity start j k s p q e =
    ground (arith, visited_mod capacity start j s p, visited_mod capacity start k s q)

-- After as many rounds as there are slots the probe is back at its start, and not before.
visited_last :
    (capacity start k : ℕ)
    → start < capacity
    → suc k ≡ capacity
    → visited capacity start (k + 1) ≡ start
visited_last capacity start k s e =
    let e' : start + (k + 1) ≡ start + capacity = omega arith in
    rw e' (
      omega (
        arith,
        mod-eq-sub-mod {n = start + capacity} {m = capacity} (omega arith),
        mod-eq_of_lt {n = start + capacity - capacity} {m = capacity} (omega arith),
      ))

visited_again :
    (capacity start k : ℕ)
    → start < capacity
    → k + 1 < capacity
    → visited capacity start (k + 1) ≢ start
visited_again capacity start k s h e =
    let z = visited_mod capacity start 0 s (omega arith) in
    let n = visited_mod capacity start (k + 1) s h in ground arith

-- The first round from `k` on, of `n` rounds, in which the slot is not passed over.
pub look : (ℕ → Action) → ℕ → ℕ → Probe
look f zero k = absent
look f (suc n) k =
    let rest = look f n (k + 1) in elim (f k) [ stop ↦ found k | give_up ↦ absent | pass ↦ rest ]

abbrev pub slot_of : ℕ → ℕ → Probe → Probe
slot_of capacity start (found k) = found (visited capacity start k)
slot_of capacity start absent = absent
slot_of capacity start spinning = spinning

narrowed-found : (i : ℕ) → narrowed (found i) ≡ spinning → ⊥
unfolding narrowed
narrowed-found i h = ground arith

narrowed-absent : narrowed absent ≡ spinning → ⊥
unfolding narrowed
narrowed-absent h = ground arith

narrowed-nothing : (i : ℕ) → narrowed absent ≡ found i → ⊥
unfolding narrowed
narrowed-nothing i h = ground arith

narrowed-spinning : (i : ℕ) → narrowed spinning ≡ found i → ⊥
unfolding narrowed
narrowed-spinning i h = ground arith

-- An index below 2^31 is returned as it is.
narrowed_small : (i : ℕ) → i < 2 ^ 31 → narrowed (found i) ≡ found i
unfolding narrowed
narrowed_small i h =
    let e : i % 2 ^ 32 ≡ i = omega arith in
    let t : ltb i (2 ^ 31) ≡ true = ground arith in rw (e, t) refl

-- A round that stops, with every round before it passed over.
pub record FirstStop (f : ℕ → Action) (j : ℕ) : Type 0 where
  pub stops : f j ≡ stop
  pub passed : (m : ℕ) → m < j → f m ≡ pass

Action-cases : (a : Action) → (a ≡ stop) ⊎ ((a ≡ pass) ⊎ (a ≡ give_up))
Action-cases stop = inl refl
Action-cases pass = inr (inl refl)
Action-cases give_up = inr (inr refl)

-- What `look` found is the first stop.
look_sound :
    (f : ℕ → Action) (n k j : ℕ)
    → ((m : ℕ) → m < k → f m ≡ pass)
    → look f n k ≡ found j
    → FirstStop f j × (j < k + n)
unfolding look
look_sound f zero k j before h = cc
look_sound f (suc n) k j before h = elim (Action-cases (f k)) [
  | inl s ↦
      let e : k ≡ j = ground arith in
      (record { stops = rw e at s; passed = λ m p. before m (omega arith) }, omega arith)
  | inr (inr g) ↦ ground arith
  | inr (inl p) ↦
      let ahead : (m : ℕ) → m < k + 1 → f m ≡ pass = λ m q. elim (dec_lt m k) [
        | yes r ↦ before m r
        | no r ↦ let e : m ≡ k = omega arith in rw e p
      ] in
      let (first, lt) = look_sound f n (k + 1) j ahead (ground arith) in (first, omega arith)
]

pub look-ne-spinning : (f : ℕ → Action) (n k : ℕ) → look f n k ≢ spinning
unfolding look
look-ne-spinning f zero k = λ h. cc
look-ne-spinning f (suc n) k = ground (arith, look-ne-spinning f n (k + 1))

-- The first stop, within the rounds, is what `look` finds.
look_complete :
    (f : ℕ → Action) (n k j : ℕ) → k ≤ j → j < k + n → FirstStop f j → look f n k ≡ found j
unfolding look
look_complete f zero k j p q first = absurd (omega arith)
look_complete f (suc n) k j p q first = elim (dec_lt k j) [
  | yes r ↦
      rw (first.passed k r, look) (look_complete f n (k + 1) j (omega arith) (omega arith) first)
  | no r ↦ let e : j ≡ k = omega arith in rw e (let s = rw e at first.stops in rw (s, look))
]

module _ {K V : Type 0} where
  -- The number of slots is the capacity, and there is one.
  pub record IsTable (m : HashMap K V) : Type 0 where
    pub sized : length m.entries ≡ m.capacity
    pub roomy : 0 < m.capacity

  -- A table whose indices fit an `int`.
  pub record IsIndexed (m : HashMap K V) : Type 0 where
    pub sized : length m.entries ≡ m.capacity
    pub roomy : 0 < m.capacity
    pub bounded : m.capacity ≤ 2 ^ 31

  pub IsIndexed-IsTable : {m : HashMap K V} → IsIndexed m → IsTable m
  IsIndexed-IsTable t = record { sized = t.sized; roomy = t.roomy }

  -- the slot visited in round `k` of the search for a hash
  abbrev pub slot_at : HashMap K V → ℕ → ℕ → ℕ
  slot_at m hash k = visited m.capacity (hash % m.capacity) k

module _ {K V : Type 0} (ops : KeyOps K) where
  -- the action of round `k` of the probe for a key
  abbrev pub round : Bool → K → ℕ → List (Entry K V) → ℕ → ℕ → ℕ → Action
  round find_empty key hash entries capacity start k =
      action ops find_empty key hash (get_or entries (visited capacity start k) blank)

  probe-look :
      (find_empty : Bool) (key : K) (hash : ℕ) (entries : List (Entry K V)) (capacity start n k : ℕ)
      → start < capacity
      → k + suc n ≡ capacity
      → probe ops find_empty key hash entries capacity start (suc n) (visited capacity start k)
        ≡ slot_of capacity start (look (round find_empty key hash entries capacity start) (suc n) k)
  unfolding probe look
  probe-look find_empty key hash entries capacity start zero k s e =
      elim (Action-cases (round find_empty key hash entries capacity start k)) [
        | inl a ↦ rw (a, probe, look)
        | inr (inr a) ↦ rw (a, probe, look)
        | inr (inl a) ↦
            let back =
              visited_next capacity start k ∙ visited_last capacity start k s (omega arith) in
            let test = (==_iff ((visited capacity start k + 1) % capacity) start).1 back in
            rw (a, probe, look, test)
      ]
  probe-look find_empty key hash entries capacity start (suc n) k s e =
      elim (Action-cases (round find_empty key hash entries capacity start k)) [
        | inl a ↦ rw (a, probe, look)
        | inr (inr a) ↦ rw (a, probe, look)
        | inr (inl a) ↦
            let ih =
              probe-look find_empty key hash entries capacity start n (k + 1) s (omega arith) in
            let away = visited_again capacity start k s (omega arith) in
            let next = visited_next capacity start k in ground (arith, ih, away, next, a)
      ]

  abbrev pub round_of : HashMap K V → Bool → K → ℕ → ℕ → Action
  round_of m find_empty key hash k =
      round find_empty key hash m.entries m.capacity (hash % m.capacity) k

  find_entry-look :
      {m : HashMap K V} (key : K) (hash : ℕ) (find_empty : Bool)
      → IsTable m
      → find_entry ops m key hash find_empty
        ≡ narrowed (
            slot_of m.capacity
              (hash % m.capacity)
              (look (round_of m find_empty key hash) m.capacity 0))
  unfolding find_entry
  find_entry-look {m} key hash find_empty t =
      let start = hash % m.capacity in
      let n = m.capacity - 1 in
      let cap : m.capacity ≡ suc n = omega (arith, t.roomy) in
      let lt : start < m.capacity = omega (arith, t.roomy) in
      let first : visited m.capacity start 0 ≡ start =
        ap (λ k. k % m.capacity) (omega arith) ∙ mod-eq_of_lt lt in
      let p = probe-look find_empty key hash m.entries m.capacity start n 0 lt (omega arith) in
      ap narrowed (rw (first, ← cap) at p)

  -- The probe ends: it does not use up its rounds undecided.
  pub find_entry-ne-spinning :
      {m : HashMap K V} (key : K) (hash : ℕ) (find_empty : Bool)
      → IsTable m
      → find_entry ops m key hash find_empty ≢ spinning
  find_entry-ne-spinning {m} key hash find_empty t e =
      ends (look (round_of m find_empty key hash) m.capacity 0)
        (look-ne-spinning (round_of m find_empty key hash) m.capacity 0)
        (sym (find_entry-look key hash find_empty t) ∙ e)
    where
      ends :
          (p : Probe)
          → p ≢ spinning
          → narrowed (slot_of m.capacity (hash % m.capacity) p) ≡ spinning
          → ⊥
      ends (found k) n h = narrowed-found (visited m.capacity (hash % m.capacity) k) h
      ends absent n h = narrowed-absent h
      ends spinning n h = n refl

  -- What the probe finds is the first slot, in the order of the rounds, at which it stops.
  pub find_entry_sound :
      {m : HashMap K V} (key : K) (hash : ℕ) (find_empty : Bool) (i : ℕ)
      → IsIndexed m
      → find_entry ops m key hash find_empty ≡ found i
      → (j : ℕ) × (j < m.capacity)
        × (i ≡ slot_at m hash j)
        × FirstStop (round_of m find_empty key hash) j
  find_entry_sound {m} key hash find_empty i t e =
      from (look f m.capacity 0) refl
        (sym (find_entry-look key hash find_empty (IsIndexed-IsTable t)) ∙ e)
    where
      f : ℕ → Action
      f = round_of m find_empty key hash

      from :
          (p : Probe)
          → look f m.capacity 0 ≡ p
          → narrowed (slot_of m.capacity (hash % m.capacity) p) ≡ found i
          → (j : ℕ) × (j < m.capacity) × (i ≡ slot_at m hash j) × FirstStop f j
      from (found j) q h =
          let (first, lt) = look_sound f m.capacity 0 j (λ k z. absurd (omega arith)) q in
          let small = visited-lt m.capacity (hash % m.capacity) j t.roomy in
          let same =
            narrowed_small (visited m.capacity (hash % m.capacity) j)
              (omega (arith, small, t.bounded)) in
          (j, omega arith, cc, first)
      from absent q h = absurd (narrowed-nothing i h)
      from spinning q h = absurd (narrowed-spinning i h)

  pub find_entry_complete :
      {m : HashMap K V} (key : K) (hash : ℕ) (find_empty : Bool) (j : ℕ)
      → IsIndexed m
      → j < m.capacity
      → FirstStop (round_of m find_empty key hash) j
      → find_entry ops m key hash find_empty ≡ found (slot_at m hash j)
  find_entry_complete {m} key hash find_empty j t lt first =
      find_entry-look key hash find_empty (IsIndexed-IsTable t)
      ∙ ap (λ p. narrowed (slot_of m.capacity (hash % m.capacity) p))
          (look_complete (round_of m find_empty key hash) m.capacity 0 j (omega arith) (omega arith)
            first)
      ∙ narrowed_small (slot_at m hash j)
          (omega (arith, visited-lt m.capacity (hash % m.capacity) j t.roomy, t.bounded))
