-- ===== src/Tests/Storages.antt =====
-- The LMDB storage over the cells of `Storage/Lmdb/Cells.antt`. Numbers stand for bytes, one for each field.
use mathlib.Core.Option.{some-injective}
use libpaxos.Prelude.{
  ℕ, ◌+◌, ◌≡◌, refl, ◌⊎◌, inl, inr, Option, none, some, List, [], ◌∷◌, arith, get_elem?, leb, ◌==◌,
  if◌then◌else◌, ap, true, sym, ◌∙◌,
}
use libpaxos.Types.{Accepted}
use libpaxos.Storage.Records.{
  Layout, paxos_accepted_to_buffer, paxos_accepted_from_buffer, from_buffer-to_buffer,
}
use libpaxos.Storage.Lmdb.{
  failed, LmdbStorage, lmdb_storage_tx_begin, lmdb_storage_tx_commit, lmdb_storage_get,
  lmdb_storage_put, lmdb_storage_trim,
}
use libpaxos.Storage.Lmdb.Laws.{get-tx_begin}
use libpaxos.Storage.Lmdb.Trims.{Deletes, lmdb_storage_trim-view}
use libpaxos.Storage.Lmdb.Cells.{Cells, next_key-keys, cells, cells_laws}

abbrev nth : List ℕ → ℕ → ℕ
nth bytes i = elim (get_elem? bytes i) [ none ↦ 0 | some b ↦ b ]

abbrev layout : Layout
layout = record {
  sizeof = 5;
  image = λ h. h.iid ∷ h.ballot ∷ h.value_ballot ∷ h.aid ∷ h.value_len ∷ [];
  header_of = λ bytes. record {
    iid = nth bytes 0;
    ballot = nth bytes 1;
    value_ballot = nth bytes 2;
    aid = nth bytes 3;
    value_len = nth bytes 4;
  };
  iid_image = λ iid. iid ∷ [];
  iid_of = λ bytes. get_elem? bytes 0;
  length-image = λ h. refl;
  header_of-image = λ h n. refl;
  iid_of-image = λ iid lt. refl;
}

abbrev vote_in : ℕ → Accepted
vote_in iid = record { iid = iid; ballot = 12; value_ballot = 12; aid = 1; value = 65 ∷ 66 ∷ [] }

from_buffer-to_buffer_example :
    paxos_accepted_from_buffer layout (paxos_accepted_to_buffer layout (vote_in 3))
    ≡ some (vote_in 3)
from_buffer-to_buffer_example =
    from_buffer-to_buffer layout (vote_in 3)
      (omega arith, omega arith, omega arith, omega arith, omega arith)

abbrev stored_in : ℕ → Option (List ℕ)
stored_in iid = some (paxos_accepted_to_buffer layout (vote_in iid))

-- Votes in the instances 1, 2 and 3, and a transaction that is open.
abbrev three_votes : Cells
three_votes = none ∷ stored_in 1 ∷ stored_in 2 ∷ stored_in 3 ∷ []

abbrev storage : LmdbStorage cells layout
storage = record { env = three_votes; txn = some three_votes; acceptor_id = 1 }

cells-Deletes : Deletes cells layout cells_laws
cells-Deletes t c c' k e = elim (next_key-keys t 0 c) [
  | inl (f, g) ↦ absurd (cc (f, e))
  | inr (j, le, f, g) ↦
      let same : j + 1 ≡ c' =
        ap (λ (r : ℕ × ℕ). r.1) (some-injective (j, j + 1) (k, c') (sym f ∙ e)) in
      ground arith
]

lmdb_storage_trim-view_example :
    (t' : Cells) × (lmdb_storage_trim cells layout storage 2
      ≡ some (true, record storage { txn = some t' }))
    × ((k : ℕ)
        → cells_laws.view t' k ≡ (
            if k == 0
            then some (2 ∷ [])
            else if leb k 2
            then none
            else cells_laws.view three_votes k))
lmdb_storage_trim-view_example =
    lmdb_storage_trim-view cells layout cells_laws storage three_votes 0 2 refl (omega arith) refl
      refl cells-Deletes

abbrev buffer_2 : List ℕ
buffer_2 = paxos_accepted_to_buffer layout (vote_in 2)

abbrev with_vote : Cells
with_vote = none ∷ stored_in 1 ∷ some buffer_2 ∷ stored_in 3 ∷ []

get-tx_begin_example :
    (s1 : LmdbStorage cells layout) × (s2 : LmdbStorage cells layout) × (s3 : LmdbStorage cells
      layout)
    × (lmdb_storage_put cells layout storage (vote_in 2) ≡ some (true, s1))
    × (lmdb_storage_tx_commit cells layout s1 ≡ some (true, s2))
    × (lmdb_storage_tx_begin cells layout s2 ≡ some (true, s3))
    × ((lmdb_storage_get cells layout s3 2 ≡ some (some (vote_in 2)))
        ⊎ (cells.get with_vote 2 ≡ failed))
get-tx_begin_example =
    get-tx_begin cells layout cells_laws storage three_votes with_vote (vote_in 2)
      (omega arith, omega arith, omega arith, omega arith, omega arith) refl refl refl refl
