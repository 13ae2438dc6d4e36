-- ===== src/Table/Find.antt =====
-- What a lookup finds after an insertion.
use intrusion_detection.Base.{
  ℕ, zero, suc, ◌+◌, ◌-◌, ◌%◌, ◌≤◌, ◌<◌, ◌≡◌, refl, Bool, true, false, Option, none, some,
  if◌then◌else◌, arith, Option-cases, inl, inr, ◌⊎◌,
}
use native.Mathlib.Decide.{ℕ_discrete}
use intrusion_detection.Table.{
  capacity, max_search, Cells, Table, find_from, find, emplace_from, insert_entry,
}

-- The distance from `start` to cell `i`, going up round the table.
abbrev distance : ℕ → ℕ → ℕ
distance start i = (i + capacity - start) % capacity

-- The comparison of keys is equality.
pub record IsKeyEq {K : Type 0} (same : K → K → Bool) : Type 0 where
  pub reflexive : (k : K) → same k k ≡ true
  pub sound : (a b : K) → same a b ≡ true → a ≡ b

other_key :
    {K : Type 0} (same : K → K → Bool)
    → IsKeyEq same
    → (k key key' : K) → same k key ≡ true
    → same key key' ≡ false
    → same k key' ≡ false
other_key same laws k key key' e ne = rw (laws.sound k key e) ne

module _ {K V : Type 0} (same : K → K → Bool) where
  -- Among the next cells there is an empty one, or the key's.
  unfoldable pub has_place : ℕ → Cells K V → K → ℕ → Bool
  has_place zero cells key idx = false
  has_place (suc probes) cells key idx =
      let rest = has_place probes cells key ((idx + 1) % capacity) in
      elim (cells idx) [ none ↦ true | some (k, v) ↦ if same k key then true else rest ]

  -- A cell that is not among the next is left alone.
  emplace_from-before :
      (n : ℕ) (cells : Cells K V) (key : K) (val : V) (idx i : ℕ)
      → idx < capacity
      → i < capacity
      → n ≤ distance idx i
      → ((emplace_from same n cells key val idx).0) i ≡ cells i
  unfolding emplace_from
  emplace_from-before zero cells key val idx i hidx hi far = refl
  emplace_from-before (suc n) cells key val idx i hidx hi far = ground (
    arith,
    Option-cases (cells idx),
    emplace_from-before n cells key val ((idx + 1) % capacity) i,
  )

  find_from-emplace_from :
      (m n : ℕ) (cells : Cells K V) (key : K) (val : V) (idx : ℕ)
      → same key key ≡ true
      → m ≤ n
      → n ≤ capacity
      → idx < capacity
      → has_place m cells key idx ≡ true
      → find_from same m (emplace_from same n cells key val idx).0 key idx ≡ some val
  unfolding emplace_from find_from has_place
  find_from-emplace_from zero n cells key val idx eq hm hn hidx place = absurd (ground arith)
  find_from-emplace_from (suc m) zero cells key val idx eq hm hn hidx place = absurd (omega arith)
  find_from-emplace_from (suc m) (suc n) cells key val idx eq hm hn hidx place = ground (
    arith,
    Option-cases (cells idx),
    emplace_from-before n cells key val ((idx + 1) % capacity) idx,
    find_from-emplace_from m n cells key val ((idx + 1) % capacity),
  )

  -- A lookup that has no place among its cells gives nothing after the insertion.
  find_from-no_place :
      (m n : ℕ) (cells : Cells K V) (key : K) (val : V) (idx : ℕ)
      → m ≤ n
      → n ≤ capacity
      → idx < capacity
      → has_place m cells key idx ≡ false
      → find_from same m (emplace_from same n cells key val idx).0 key idx ≡ none
  unfolding emplace_from find_from has_place
  find_from-no_place zero n cells key val idx hm hn hidx place = refl
  find_from-no_place (suc m) zero cells key val idx hm hn hidx place = absurd (omega arith)
  find_from-no_place (suc m) (suc n) cells key val idx hm hn hidx place = ground (
    arith,
    Option-cases (cells idx),
    emplace_from-before n cells key val ((idx + 1) % capacity) idx,
    find_from-no_place m n cells key val ((idx + 1) % capacity),
  )

  -- An insertion leaves a cell, or writes its key to a cell that was empty or the key's.
  abbrev Writes : K → V → Option (K × V) → Option (K × V) → Type 0
  Writes key val none after = (after ≡ none) ⊎ (after ≡ some (key, val))
  Writes key val (some (k, v)) after =
      (after ≡ some (k, v)) ⊎ (same k key ≡ true) × (after ≡ some (key, val))

  emplace_from-Writes :
      (n : ℕ) (cells : Cells K V) (key : K) (val : V) (idx i : ℕ)
      → Writes key val (cells i) ((emplace_from same n cells key val idx).0 i)
  unfolding emplace_from
  emplace_from-Writes zero cells key val idx i = ground (arith, Option-cases (cells i))
  emplace_from-Writes (suc n) cells key val idx i = elim (ℕ_discrete i idx) [
    | yes e ↦ ground (
      arith,
      Option-cases (cells idx),
      emplace_from-Writes n cells key val ((idx + 1) % capacity) i,
    )
    | no other ↦ ground (
      arith,
      Option-cases (cells idx),
      Option-cases (cells i),
      emplace_from-Writes n cells key val ((idx + 1) % capacity) i,
    )
  ]

  find_from-Writes :
      IsKeyEq same
      → (n : ℕ) (cells cells' : Cells K V) (key key' : K) (val v : V) (idx : ℕ)
      → ((i : ℕ) → Writes key val (cells i) (cells' i))
      → same key key' ≡ false
      → find_from same n cells key' idx ≡ some v
      → find_from same n cells' key' idx ≡ some v
  unfolding find_from
  find_from-Writes laws zero cells cells' key key' val v idx written ne found = found
  find_from-Writes laws (suc n) cells cells' key key' val v idx written ne found =
      let rest =
        find_from-Writes laws n cells cells' key key' val v ((idx + 1) % capacity) written ne in
      elim (Option-cases (cells idx)) [
        | inl nothing ↦ absurd (ground arith)
        | inr ((k, w), e) ↦
            let here : Writes key val (some (k, w)) (cells' idx) = rw e at (written idx) in
            elim here [
              | inl kept ↦ ground (arith, rest)
              | inr (mine, new) ↦ ground (arith, rest, other_key same laws k key key' mine ne)
            ]
      ]

module _ {K V : Type 0} (same : K → K → Bool) (hash : K → ℕ) (laws : IsKeyEq same) where
  -- Where the comparison of keys is equality: what is inserted is found, if among the 64 cells
  -- from the key's home on one is empty or the key's own.
  pub find-insert_entry :
      (t : Table K V) (key : K) (val : V)
      → has_place same max_search t.cells key (hash key % capacity) ≡ true
      → find same hash (insert_entry same hash t key val) key ≡ some val
  unfolding find insert_entry
  find-insert_entry t key val place =
      find_from-emplace_from same max_search capacity t.cells key val (hash key % capacity)
        (laws.reflexive key) (omega arith) (omega arith) (omega arith) place

  -- Where the comparison of keys is equality: an entry that is found is still found, unchanged,
  -- after an insertion of another key.
  pub find-insert_other :
      (t : Table K V) (key key' : K) (val v : V)
      → same key key' ≡ false
      → find same hash t key' ≡ some v
      → find same hash (insert_entry same hash t key val) key' ≡ some v
  unfolding find insert_entry
  find-insert_other t key key' val v ne found =
      find_from-Writes same laws max_search t.cells
        (emplace_from same capacity t.cells key val (hash key % capacity)).0 key key' val v
        (hash key' % capacity)
        (emplace_from-Writes same capacity t.cells key val (hash key % capacity)) ne found

  -- An entry whose 64 cells from its home on all hold other keys is not found after it is inserted.
  pub find-insert_lost :
      (t : Table K V) (key : K) (val : V)
      → has_place same max_search t.cells key (hash key % capacity) ≡ false
      → find same hash (insert_entry same hash t key val) key ≡ none
  unfolding find insert_entry
  find-insert_lost t key val full =
      find_from-no_place same max_search capacity t.cells key val (hash key % capacity)
        (omega arith) (omega arith) (omega arith) full
