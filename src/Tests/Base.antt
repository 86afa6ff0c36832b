-- ===== src/Tests/Base.antt =====
-- The quorums, the queue and the memory storage on concrete inputs.
use libpaxos.Prelude.{ℕ, ◌≡◌, refl, ◌+◌, ◌<◌, ◌↔◌, true, some, [], ◌∷◌, ◌++◌, arith}
use libpaxos.Types.{Accepted}
use libpaxos.Khash.Assoc.{assoc}
use libpaxos.Quorum.{Quorum, init, reached}
use libpaxos.Quorum.Majority.{add_all, distinct_from, add_all-reached}
use libpaxos.Carray.{Carray, push_within}
use libpaxos.Carray.Cells.{contents}
use libpaxos.Carray.Queue.{push_within-contents}
use libpaxos.Carray.Cells
use libpaxos.Storage.{StorageLaws}
use libpaxos.Storage.Mem.{MemStorage, storage_mem}
use libpaxos.Storage.Mem.Laws.{mem_laws}
use libpaxos.Storage.Mem.Laws

abbrev three : Quorum
three = init 3

add_all-reached_example :
    (q : Quorum) × (add_all (init 3) (2 ∷ 0 ∷ 2 ∷ []) ≡ some q)
    × ((reached q ≡ true)
        ↔ (3 < distinct_from [] (2 ∷ 0 ∷ 2 ∷ []) + distinct_from [] (2 ∷ 0 ∷ 2 ∷ [])))
add_all-reached_example =
    add_all-reached 3 (2 ∷ 0 ∷ 2 ∷ []) (omega arith, (omega arith, (omega arith, tt)))

-- A full array of two cells that has gone round.
abbrev full_array : Carray ℕ
full_array = record { head = 1; tail = 1; size = 2; count = 2; array = some 8 ∷ some 7 ∷ [] }

full_array-IsValid : Cells.IsValid full_array
full_array-IsValid = record {
  sized = refl;
  some_room = omega arith;
  head_in = omega arith;
  count_in = omega arith;
  tail_at = refl;
}

push_within-contents_example :
    Cells.IsValid (push_within 1 full_array (some 9))
    × (contents (push_within 1 full_array (some 9)) ≡ contents full_array ++ (some 9 ∷ []))
push_within-contents_example = push_within-contents 0 full_array (some 9) full_array-IsValid

abbrev record_5 : Accepted
record_5 = record { iid = 5; ballot = 12; value_ballot = 12; aid = 1; value = 65 ∷ [] }

abbrev one_record : MemStorage (assoc Accepted)
one_record = record { trim_iid = 0; records = ((5, record_5) ∷ [], (tt, tt)) }

one_record-IsValid : Laws.IsValid (assoc Accepted) one_record
one_record-IsValid k a e = ground arith

mem_laws_example : StorageLaws (storage_mem (assoc Accepted)) (Laws.IsValid (assoc Accepted))
mem_laws_example = mem_laws (assoc Accepted)
