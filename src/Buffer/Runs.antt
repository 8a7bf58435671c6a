-- ===== src/Buffer/Runs.antt =====
-- Runs of the write buffer, and the theorem at one of them.
use vexfs.Base.{◌≡◌, refl, [], ◌∷◌, some, none, true, false}
use vexfs.Base.Map.{member, lookup}
use vexfs.Base.Map
use vexfs.Buffer.{WriteBuffer, new, write, get, due_for_flush, take, take_all, is_empty}
use vexfs.Buffer.Due.{member-due_for_flush, is_due}

-- Two files written at the times 100 and 104.
abbrev two_files : WriteBuffer
two_files = write 104 3 (98 ∷ []) (2 ∷ []) 1 (write 100 2 (97 ∷ []) (1 ∷ 1 ∷ 1 ∷ []) 0 (new 32 5))

get_test : get 2 two_files ≡ some (1 ∷ 1 ∷ 1 ∷ [])
unfolding get lookup write Map.insert
get_test = refl

due_test : due_for_flush 105 two_files ≡ (2 ∷ [])
unfolding due_for_flush write Map.insert
due_test = refl

taken_test : get 2 (take 2 two_files).1 ≡ none
unfolding get take lookup write Map.insert Map.remove
taken_test = refl

drained_test : is_empty (take_all two_files).1 ≡ true
unfolding is_empty take_all write Map.insert
drained_test = refl

member-due_for_flush_example :
    member 2 (due_for_flush 105 two_files) ≡ is_due 105 false 5 (lookup 2 two_files.pending)
unfolding write Map.insert lookup due_for_flush member
member-due_for_flush_example = member-due_for_flush 105 2 two_files (refl, (refl, tt))
