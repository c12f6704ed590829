-- ===== src/Tests/Queues.antt =====
-- A queue of numbers, each of the cost of its size and of the priority of its last digit.
use sedsprintf_rs.Prelude.{
  ℕ, ◌+◌, ◌%◌, ◌≤◌, ◌<◌, ◌≡◌, refl, ◌↔◌, ◌⊎◌, true, false, none, some, List, [], ◌∷◌, ◌++◌, length,
  drop, ◌==◌, ltb, All, Descending, if◌then◌else◌, leb, arith,
}
use sedsprintf_rs.Error.{ok, err, io}
use sedsprintf_rs.Queue.{
  BoundedDeque, Allocator, AllocatorLaws, push_back, push_back_prioritized, retain, remove_value,
}
use sedsprintf_rs.Queue.Bytes.{total}
use sedsprintf_rs.Queue.Valid.{IsValid}
use sedsprintf_rs.Queue.Fifo.{Fits, push_back-longest_suffix}
use sedsprintf_rs.Queue.Priority.{push_back_prioritized_lem}
use sedsprintf_rs.Queue.Filter.{filter, retain-filter, remove_value-first}
use sedsprintf_rs.SmallPayload
use sedsprintf_rs.SmallPayload.{SmallPayload, as_slice, to_arc, len, is_inline, byte_cost}
use sedsprintf_rs.SmallPayload.Slices.{new-as_slice, new-none_iff}

abbrev exact : Allocator
exact = record { with_capacity = λ n. n; reserve_exact = λ len cap add. len + add }

exact_laws : AllocatorLaws exact
exact_laws = record { reserve_room = λ len cap add. omega arith }

abbrev cost : ℕ → ℕ
cost n = n

abbrev digit : ℕ → ℕ
digit n = n % 10

abbrev three_items : BoundedDeque ℕ
three_items = record {
  q = 25 ∷ 13 ∷ 32 ∷ [];
  capacity = 4;
  max_bytes = 80;
  cur_bytes = 70;
  max_elems = 4;
  grow_num = 3;
  grow_den = 2;
}

three_items-IsValid : IsValid cost three_items
three_items-IsValid = record {
  counted = refl;
  budget = omega arith;
  elems = omega arith;
  some_elems = omega arith;
  half = omega arith;
}

push_back-longest_suffix_example :
    let (after, result) = push_back cost exact three_items 41 in
    (result ≡ ok tt)
    × ((k : ℕ) × (after.q ≡ drop k three_items.q ++ (41 ∷ []))
        × ((j : ℕ) → j < k → ¬ Fits cost exact three_items (drop j three_items.q) 41))
    × (length after.q ≤ after.capacity)
    × IsValid cost after
push_back-longest_suffix_example =
    push_back-longest_suffix cost exact exact_laws three_items 41 three_items-IsValid (omega arith)

push_back_prioritized_lem_example :
    let (after, result) = push_back_prioritized cost exact digit three_items 33 in
    IsValid cost after
    × Descending digit after.q
    × ((kept gone : List ℕ) × (three_items.q ≡ kept ++ gone)
        × All (λ w. digit w ≤ digit 33) gone
        × (((result ≡ err (io "priority queue saturated"))
              × (after.q ≡ kept)
              × ((xs : List ℕ) × (w : ℕ) × (kept ≡ xs ++ (w ∷ [])) × (digit 33 < digit w)))
            ⊎ ((result ≡ ok tt)
                × ((hi lo : List ℕ) × (kept ≡ hi ++ lo)
                    × (after.q ≡ hi ++ (33 ∷ lo))
                    × All (λ w. digit 33 ≤ digit w) hi
                    × All (λ w. digit w < digit 33) lo))))
push_back_prioritized_lem_example =
    push_back_prioritized_lem cost exact digit exact_laws three_items 33 three_items-IsValid
      ((omega arith, (omega arith, tt)), ((omega arith, tt), (tt, tt))) (omega arith)

retain-filter_example :
    (retain cost exact three_items (ltb 20) ≡ record three_items {
      q = filter (ltb 20) three_items.q;
      cur_bytes = total cost (filter (ltb 20) three_items.q);
    })
    × IsValid cost (retain cost exact three_items (ltb 20))
retain-filter_example = retain-filter cost exact three_items (ltb 20) three_items-IsValid

remove_value-first_example :
    let after = remove_value cost exact ◌==◌ three_items 13 in
    IsValid cost after
    × (((after ≡ three_items) × All (λ w. (w == 13) ≡ false) three_items.q)
        ⊎ ((xs ys : List ℕ) × (v : ℕ) × (three_items.q ≡ xs ++ (v ∷ ys))
            × (after.q ≡ xs ++ ys)
            × ((v == 13) ≡ true)
            × All (λ w. (w == 13) ≡ false) xs))
remove_value-first_example = remove_value-first cost exact ◌==◌ three_items 13 three_items-IsValid

new-as_slice_example :
    (p : SmallPayload) × (SmallPayload.new 64 (1 ∷ 2 ∷ 3 ∷ []) ≡ some p)
    × (as_slice p ≡ some (1 ∷ 2 ∷ 3 ∷ []))
    × (to_arc p ≡ some (1 ∷ 2 ∷ 3 ∷ []))
    × (len p ≡ 3)
    × (is_inline p ≡ leb 3 64)
    × (byte_cost 16 p ≡ (if is_inline p then 3 else 3 + 16))
new-as_slice_example = new-as_slice 64 16 (1 ∷ 2 ∷ 3 ∷ []) (omega arith)

abbrev nothing : List ℕ
nothing = []

new-none_iff_example :
    (SmallPayload.new 300 nothing ≡ none) ↔ ((255 < length nothing) × (length nothing ≤ 300))
new-none_iff_example = new-none_iff 300 nothing
