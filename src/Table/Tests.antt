-- ===== src/Table/Tests.antt =====
-- Runs of the table at concrete inputs: keys are numbers, and every key has its home at cell 131070.
use intrusion_detection.Base.{
  ℕ, ◌%◌, ◌≡◌, refl, Bool, true, false, ◌==◌, none, some, if◌then◌else◌, arith,
}
use intrusion_detection.Table.{
  capacity, max_search, Table, empty_table, find_from, find, emplace_from, insert_entry, locate,
  shift_back, erase,
}
use intrusion_detection.Table.Find.{IsKeyEq, has_place, find-insert_entry, find-insert_lost}

abbrev same : ℕ → ℕ → Bool
same a b = a == b

abbrev home : ℕ → ℕ
home k = 131070

same-IsKeyEq : IsKeyEq same
same-IsKeyEq = record { reflexive = λ k. ground arith; sound = λ a b e. ground arith }

abbrev three : Table ℕ ℕ
three =
    insert_entry same home (insert_entry same home (insert_entry same home empty_table 7 70) 8 80) 9
      90

-- Erasing the first of three keys that share a home, across the end of the table, keeps the others.
erased_others : find same home (erase same home three 7) 9 ≡ some 90
unfolding find find_from erase locate shift_back insert_entry emplace_from
erased_others = refl

erased_key : find same home (erase same home three 7) 7 ≡ none
unfolding find find_from erase locate shift_back insert_entry emplace_from
erased_key = refl

place : has_place same max_search three.cells 5 131070 ≡ true
unfolding has_place insert_entry emplace_from
place = refl

find-insert_entry_example : find same home (insert_entry same home three 5 50) 5 ≡ some 50
find-insert_entry_example = find-insert_entry same home same-IsKeyEq three 5 50 place

nine_there : find same home three 9 ≡ some 90
unfolding find find_from insert_entry emplace_from
nine_there = refl

-- Every cell but 0 holds key 1.
abbrev crowded : Table ℕ ℕ
crowded = record { cells = λ i. if i == 0 then none else some (1, i); size = 131071 }

crowded_out : has_place same max_search crowded.cells 5 (7 % capacity) ≡ false
unfolding has_place
crowded_out = refl

find-insert_lost_example : find same (λ k. 7) (insert_entry same (λ k. 7) crowded 5 50) 5 ≡ none
find-insert_lost_example = find-insert_lost same (λ k. 7) same-IsKeyEq crowded 5 50 crowded_out
