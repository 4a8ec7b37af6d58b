-- ===== src/HashMap/Overwrite.antt =====
-- One slot of the table overwritten: what the rounds of a search meet afterwards.
use freelang_independent_ful.Prelude.{
  ℕ, ◌%◌, ◌<◌, ◌≡◌, ◌≢◌, refl, sym, ap, ◌∙◌, arith, get_or, set, length, length-set,
  get_or-set_self, get_or-set_apart,
}
use freelang_independent_ful.HashMap.{Entry, HashMap, blank}
use freelang_independent_ful.HashMap.Search.{
  visited, visited-lt, visited-injective, IsIndexed, slot_at,
}

module _ {K V : Type 0} where
  -- `m'` is `m` with `w` in the slot that round `j` of the search for `hash` visits.
  pub record Overwritten (m : HashMap K V) (hash j : ℕ) (w : Entry K V) (m' : HashMap K V)
      : Type 0 where
    pub entries : m'.entries ≡ set m.entries (slot_at m hash j) w
    pub capacity : m'.capacity ≡ m.capacity

  module _ {m m' : HashMap K V} {hash j : ℕ} {w : Entry K V} (o : Overwritten m hash j w m')
      (t : IsIndexed m) where
    pub Overwritten-IsIndexed : IsIndexed m'
    Overwritten-IsIndexed = record {
      sized =
          ap length o.entries
          ∙ length-set m.entries (slot_at m hash j) w
          ∙ t.sized
          ∙ sym o.capacity;
      roomy = rw o.capacity t.roomy;
      bounded = rw o.capacity t.bounded;
    }

    pub same_slot : (hash' k : ℕ) → slot_at m' hash' k ≡ slot_at m hash' k
    same_slot hash' k = ap (λ c. visited c (hash' % c) k) o.capacity

    pub entry_here : get_or m'.entries (slot_at m' hash j) blank ≡ w
    entry_here =
        ap (get_or m'.entries (slot_at m' hash j)) refl
        ∙ ap (λ i. get_or m'.entries i blank) (same_slot hash j)
        ∙ ap (λ es. get_or es (slot_at m hash j) blank) o.entries
        ∙ get_or-set_self m.entries (slot_at m hash j) w blank
            (rw t.sized (visited-lt m.capacity (hash % m.capacity) j t.roomy))

    pub entry_apart :
        (hash' k : ℕ)
        → slot_at m hash j ≢ slot_at m hash' k
        → get_or m'.entries (slot_at m' hash' k) blank ≡ get_or m.entries (slot_at m hash' k) blank
    entry_apart hash' k ne =
        ap (λ i. get_or m'.entries i blank) (same_slot hash' k)
        ∙ ap (λ es. get_or es (slot_at m hash' k) blank) o.entries
        ∙ get_or-set_apart m.entries (slot_at m hash j) (slot_at m hash' k) w blank ne

    -- Different rounds of one search visit different slots.
    pub rounds_apart :
        (k : ℕ) → j < m.capacity → k < m.capacity → k ≢ j → slot_at m hash j ≢ slot_at m hash k
    rounds_apart k p q ne e =
        let lt : hash % m.capacity < m.capacity = omega (arith, t.roomy) in
        ne (sym (visited-injective m.capacity (hash % m.capacity) j k lt p q e))
