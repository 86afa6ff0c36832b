-- ===== src/Tests/Acceptors.antt =====
-- An acceptor over the memory storage.
use libpaxos.Prelude.{List, ℕ, ◌≡◌, ◌≢◌, refl, ◌<◌, ◌⊎◌, none, some, [], ◌∷◌, arith, length, ap}
use libpaxos.Types.{Repeat, Promise, Accept, Accepted, Trim, promise, accepted, prepare_of}
use libpaxos.Khash.Assoc.{assoc}
use libpaxos.Storage.{StorageApi}
use libpaxos.Storage.Mem.{
  mem_storage_tx_begin, mem_storage_tx_commit, mem_storage_get, mem_storage_put, mem_storage_trim,
  trim_buckets, storage_mem,
}
use libpaxos.Storage.Mem.Laws.{mem_laws}
use libpaxos.Storage.Mem.Laws
use libpaxos.Acceptor.{
  Acceptor, receive_prepare, receive_accept, receive_repeat, receive_trim, prepared,
  commit_and_reply, accept_to_accepted, accepted_to_promise,
}
use libpaxos.Acceptor.Store.{recs, Kept, receive_repeat_lem}
use libpaxos.Acceptor.Outcomes.{
  AcceptOutcome, PrepareOutcome, TrimOutcome, receive_accept-AcceptOutcome,
  receive_prepare-PrepareOutcome, receive_trim-TrimOutcome,
}
use libpaxos.Evpaxos.Acceptors.{
  Send, Announces, Repeats, evacceptor_handle_accept, evacceptor_handle_repeat,
  handle_accept-Announces, handle_repeat-Repeats,
}
use libpaxos.Acceptor.Progress.{Reliable, Below, round_answered}
use mathlib.Core.Option.{some-injective}
use libpaxos.Acceptor.Promises.{
  Input, prepares, accepts, repeats, trims, step, run, promise_kept, vote_reported,
}

abbrev mem : StorageApi
mem = storage_mem (assoc Accepted)

-- It has voted under the ballot 12 in the instance 5.
abbrev record_5 : Accepted
record_5 = record { iid = 5; ballot = 12; value_ballot = 12; aid = 1; value = 65 ∷ [] }

abbrev voter : Acceptor mem
voter = record {
  id = 1;
  trim_iid = 0;
  store = record { trim_iid = 0; records = ((5, record_5) ∷ [], (tt, tt)) };
}

voter-IsValid : Laws.IsValid (assoc Accepted) voter.store
voter-IsValid k a e = ground arith

-- An accept in the instance 5.
abbrev asks : ℕ → Accept
asks ballot = record { iid = 5; ballot = ballot; value_ballot = ballot; aid = 0; value = 66 ∷ [] }

receive_repeat_lem_example :
    (recs mem (receive_repeat mem voter 5).1 ≡ recs mem voter)
    × Kept mem (Laws.IsValid (assoc Accepted)) voter (receive_repeat mem voter 5).1
    × (((receive_repeat mem voter 5).0 ≡ none)
        ⊎ ((acc : Accepted) × ((receive_repeat mem voter 5).0 ≡ some acc)
            × (recs mem voter 5 ≡ some acc)
            × (0 < length acc.value)))
receive_repeat_lem_example =
    receive_repeat_lem mem (Laws.IsValid (assoc Accepted)) (mem_laws (assoc Accepted)) voter 5
      voter-IsValid

abbrev trim_3 : Trim
trim_3 = record { iid = 3 }

receive_prepare-PrepareOutcome_example :
    PrepareOutcome mem voter (prepare_of 5 23) (receive_prepare mem voter (prepare_of 5 23))
    × Kept mem (Laws.IsValid (assoc Accepted)) voter (receive_prepare mem voter (prepare_of 5 23)).1
receive_prepare-PrepareOutcome_example =
    receive_prepare-PrepareOutcome mem (Laws.IsValid (assoc Accepted)) (mem_laws (assoc Accepted))
      voter (prepare_of 5 23) voter-IsValid

receive_accept-AcceptOutcome_example :
    AcceptOutcome mem voter (asks 11) (receive_accept mem voter (asks 11))
    × Kept mem (Laws.IsValid (assoc Accepted)) voter (receive_accept mem voter (asks 11)).1
receive_accept-AcceptOutcome_example =
    receive_accept-AcceptOutcome mem (Laws.IsValid (assoc Accepted)) (mem_laws (assoc Accepted))
      voter (asks 11) voter-IsValid

receive_trim-TrimOutcome_example :
    TrimOutcome mem
      (Laws.IsValid (assoc Accepted))
      (mem_laws (assoc Accepted))
      voter
      trim_3
      (receive_trim mem voter trim_3)
receive_trim-TrimOutcome_example =
    receive_trim-TrimOutcome mem (Laws.IsValid (assoc Accepted)) (mem_laws (assoc Accepted)) voter
      trim_3 voter-IsValid

-- The promise for a prepare under the ballot 23.
abbrev promise_23 : Promise
promise_23 = record { iid = 5; ballot = 23; value_ballot = 12; aid = 1; value = 65 ∷ [] }

promised_23 : (receive_prepare mem voter (prepare_of 5 23)).0 ≡ some (promise promise_23)
unfolding receive_prepare prepared commit_and_reply accepted_to_promise mem_storage_tx_begin
    mem_storage_tx_commit mem_storage_get mem_storage_put
promised_23 = refl

promise_kept_example :
    (receive_accept mem
      (run mem (receive_prepare mem voter (prepare_of 5 23)).1 (repeats 5 ∷ accepts (asks 34) ∷ []))
      (asks 12)).0
    ≢ some (accepted (accept_to_accepted 1 (asks 12)))
promise_kept_example =
    promise_kept mem (Laws.IsValid (assoc Accepted)) (mem_laws (assoc Accepted)) voter
      (prepare_of 5 23) promise_23 (repeats 5 ∷ accepts (asks 34) ∷ []) (asks 12)
      (accept_to_accepted 1 (asks 12)) voter-IsValid promised_23 refl (omega arith)

accepted_15 :
    (receive_accept mem voter (asks 15)).0 ≡ some (accepted (accept_to_accepted 1 (asks 15)))
unfolding receive_accept commit_and_reply mem_storage_tx_begin mem_storage_tx_commit mem_storage_get
    mem_storage_put
accepted_15 = refl

-- The promise that reports this vote.
abbrev promise_33 : Promise
promise_33 = record { iid = 5; ballot = 33; value_ballot = 15; aid = 1; value = 66 ∷ [] }

promised_33 :
    (receive_prepare mem
      (run mem
        (receive_accept mem voter (asks 15)).1
        (prepares (prepare_of 5 22) ∷ trims trim_3 ∷ []))
      (prepare_of 5 33)).0
    ≡ some (promise promise_33)
unfolding run step receive_prepare receive_accept receive_trim accept_to_accepted prepared
    commit_and_reply accepted_to_promise mem_storage_tx_begin mem_storage_tx_commit mem_storage_get
    mem_storage_put mem_storage_trim trim_buckets
promised_33 = refl

vote_reported_example :
    (15 < promise_33.value_ballot)
    ⊎ ((promise_33.value_ballot ≡ 15) × (promise_33.value ≡ (asks 15).value))
vote_reported_example =
    vote_reported mem (Laws.IsValid (assoc Accepted)) (mem_laws (assoc Accepted)) voter (asks 15)
      (accept_to_accepted 1 (asks 15)) (prepares (prepare_of 5 22) ∷ trims trim_3 ∷ [])
      (prepare_of 5 33) promise_33 voter-IsValid accepted_15 (tt, (tt, tt)) refl promised_33

handle_accept-Announces_example :
    Announces mem voter (asks 15) (evacceptor_handle_accept mem voter (asks 15))
handle_accept-Announces_example =
    handle_accept-Announces mem (Laws.IsValid (assoc Accepted)) (mem_laws (assoc Accepted)) voter
      (asks 15) voter-IsValid

abbrev repeat_4_6 : Repeat
repeat_4_6 = record { from = 4; to = 6 }

handle_repeat-Repeats_example :
    (r : List Send × Acceptor mem) × (evacceptor_handle_repeat mem voter repeat_4_6 ≡ some r)
    × Repeats mem
        (Laws.IsValid (assoc Accepted))
        (mem_laws (assoc Accepted))
        (recs mem voter)
        3
        4
        r.0
    × (recs mem r.1 ≡ recs mem voter)
    × Laws.IsValid (assoc Accepted) r.1.store
handle_repeat-Repeats_example =
    handle_repeat-Repeats mem (Laws.IsValid (assoc Accepted)) (mem_laws (assoc Accepted)) voter
      repeat_4_6 voter-IsValid (omega arith) (omega arith)

mem-Reliable : Reliable mem (Laws.IsValid (assoc Accepted))
unfolding mem_storage_tx_begin mem_storage_tx_commit mem_storage_put
mem-Reliable = record { begins = λ h v. refl; puts = λ h a v. refl; commits = λ h v. refl }

voter-Below : Below mem (Laws.IsValid (assoc Accepted)) (mem_laws (assoc Accepted)) 5 23 voter
unfolding mem_storage_get
voter-Below = record {
  valid = voter-IsValid;
  untrimmed = omega arith;
  low = λ x e. omega (arith, ap (λ (y : Accepted). y.ballot) (some-injective record_5 x e));
}

-- Another prepare, a repeat and a trim come between.
abbrev between : List Input
between = prepares (prepare_of 5 22) ∷ repeats 5 ∷ trims trim_3 ∷ []

round_answered_example :
    ((receive_prepare mem voter (prepare_of 5 23)).0
      ≡ some (accepted_to_promise (prepared 1 (prepare_of 5 23) (recs mem voter 5))))
    × ((receive_accept mem
          (run mem (receive_prepare mem voter (prepare_of 5 23)).1 between)
          (asks 23)).0
        ≡ some (
            accepted (
              accept_to_accepted
                (run mem (receive_prepare mem voter (prepare_of 5 23)).1 between).id
                (asks 23))))
round_answered_example =
    round_answered mem (Laws.IsValid (assoc Accepted)) (mem_laws (assoc Accepted)) voter
      (prepare_of 5 23) between (asks 23) mem-Reliable voter-Below
      ((λ e. omega arith), (tt, (omega arith, tt))) refl refl
