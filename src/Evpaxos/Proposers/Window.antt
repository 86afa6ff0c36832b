-- ===== src/Evpaxos/Proposers/Window.antt =====
-- `proposer_preexecute` and `try_accept`: they return, and keep the window of instances open.
use libpaxos.Prelude.{
  ℕ, zero, suc, ◌+◌, ◌-◌, ◌<◌, ◌≤◌, ◌≡◌, refl, Option, none, some, List, [], ◌∷◌, ◌++◌, map, arith,
  length, ◌∙◌,
}
use libpaxos.Types.{Accept, Message, prepare, accept}
use libpaxos.Khash.{Khash}
use libpaxos.Proposer.Instances.{Instance}
use libpaxos.Proposer.{Proposer, proposer_accept}
use libpaxos.Proposer.Orderly.{Orderly, Room, proposer_prepare-Opened}
use libpaxos.Proposer.Accepting.{Continues, Accepting, proposer_accept-Accepting}
use libpaxos.Proposer.Timeouts.{drain}
use libpaxos.Evpaxos.Proposers.{
  Evproposer, open_instances, proposer_prepared_count, proposer_preexecute, try_accept,
}

module _ (kh : Khash Instance) where
  -- What opening `count` instances leaves.
  pub record Filled (p : Proposer kh) (count : ℕ) (r : List Message × Proposer kh) : Type 0 where
    pub orderly : Orderly kh r.1
    pub next : r.1.next_prepare_iid ≡ p.next_prepare_iid + count
    pub size : kh.size r.1.prepare_instances ≡ kh.size p.prepare_instances + count
    pub sent : length r.0 ≡ count

  open_instances-Filled :
      (count : ℕ) (p : Proposer kh) (now : ℕ)
      → Room kh
      → Orderly kh p
      → p.next_prepare_iid + count < 4294967296
      → (r : List Message × Proposer kh) × (open_instances kh count p now ≡ some r)
        × Filled p count r
  unfolding open_instances
  open_instances-Filled zero p now room o lt =
      (([], p), refl, record { orderly = o; next = omega arith; size = omega arith; sent = refl })
  open_instances-Filled (suc count) p now room o lt =
      let (pr, p', e, a) = proposer_prepare-Opened kh p now room o (omega arith) in
      let (r, f, b) = open_instances-Filled count p' now room a.orderly (omega (arith, a.next)) in
      (
        (prepare pr ∷ r.0, r.1),
        rw (e, open_instances) (rw f refl),
        record {
          orderly = b.orderly;
          next = omega (arith, a.next, b.next);
          size = omega (arith, a.size, b.size);
          sent = omega (arith, b.sent);
        },
      )

  -- The loop of `try_accept`: one accept for every instance that leaves the table.
  pub record Drained (p : Proposer kh) (r : List Accept × Proposer kh) : Type 0 where
    pub continues : Continues kh p r.1
    pub fewer : kh.size r.1.prepare_instances + length r.0 ≡ kh.size p.prepare_instances

  accept_drain :
      (fuel : ℕ) (p : Proposer kh)
      → Room kh
      → Orderly kh p
      → kh.size p.prepare_instances < fuel
      → (r : List Accept × Proposer kh) × (drain (proposer_accept kh) fuel p ≡ some r) × Drained p r
  unfolding drain
  accept_drain zero p room o lt = elim lt [ ]
  accept_drain (suc fuel) p room o lt =
      let (a, e, ac) = proposer_accept-Accepting kh p room o in go a e ac (accept_drain fuel)
    where
      go :
          (a : Option Accept × Proposer kh)
          → proposer_accept kh p ≡ some a
          → Accepting kh p a
          → ((q : Proposer kh)
              → Room kh
              → Orderly kh q
              → kh.size q.prepare_instances < fuel
              → (r : List Accept × Proposer kh) × (drain (proposer_accept kh) fuel q ≡ some r)
                × Drained q r)
          → (r : List Accept × Proposer kh) × (drain (proposer_accept kh) (suc fuel) p ≡ some r)
            × Drained p r
      go (none, q) e ac ih = (
        ([], q),
        rw (e, drain) refl,
        record { continues = ac.continues; fewer = omega (arith, ac.fewer) },
      )
      go (some acc, q) e ac ih =
          let (r, f, d) = ih q room ac.continues.orderly (omega (arith, ac.fewer)) in
          (
            (acc ∷ r.0, r.1),
            rw (e, drain) (rw f refl),
            record {
              continues = record {
                orderly = d.continues.orderly;
                next = d.continues.next ∙ ac.continues.next;
              };
              fewer = omega (arith, ac.fewer, d.fewer);
            },
          )

  -- The window is open again, and the ids have grown by no more than the window.
  pub record Settled (p : Evproposer kh) (r : List Message × Evproposer kh) : Type 0 where
    pub orderly : Orderly kh r.1.state
    pub window_open : p.preexec_window ≤ proposer_prepared_count kh r.1.state
    pub window : r.1.preexec_window ≡ p.preexec_window
    pub next : r.1.state.next_prepare_iid ≤ p.state.next_prepare_iid + p.preexec_window

  pub preexecute-Settled :
      (p : Evproposer kh) (now : ℕ)
      → Room kh
      → Orderly kh p.state
      → p.state.next_prepare_iid + p.preexec_window < 4294967296
      → (r : List Message × Evproposer kh) × (proposer_preexecute kh p now ≡ some r) × Settled p r
  unfolding proposer_preexecute proposer_prepared_count
  preexecute-Settled p now room o lt =
      let (r, e, f) =
        open_instances-Filled (p.preexec_window - kh.size p.state.prepare_instances) p.state now
          room o (omega arith) in
      (
        (r.0, record p { state = r.1 }),
        rw (e, proposer_preexecute) refl,
        record {
          orderly = f.orderly;
          window_open = omega (arith, f.size);
          window = refl;
          next = omega (arith, f.next);
        },
      )

  -- In an orderly proposer, with memory for table entries, and ids that stay below 2^32 by the width of the window,
  -- `try_accept` returns: its loop ends, and no assertion fails. The proposer it leaves is orderly and
  -- has at least `preexec_window` instances in phase 1.
  pub try_accept-Settled :
      (p : Evproposer kh) (now : ℕ)
      → Room kh
      → Orderly kh p.state
      → p.state.next_prepare_iid + p.preexec_window < 4294967296
      → (r : List Message × Evproposer kh) × (try_accept kh p now ≡ some r) × Settled p r
  unfolding try_accept proposer_prepared_count
  try_accept-Settled p now room o lt =
      let (a, e, d) =
        accept_drain (kh.size p.state.prepare_instances + 1) p.state room o (omega arith) in
      let (r, f, s) =
        preexecute-Settled (record p { state = a.1 }) now room d.continues.orderly
          (omega (arith, d.continues.next)) in
      (
        (map accept a.0 ++ r.0, r.1),
        rw (e, try_accept) (rw f refl),
        record {
          orderly = s.orderly;
          window_open = s.window_open;
          window = s.window;
          next = omega (arith, s.next, d.continues.next);
        },
      )
