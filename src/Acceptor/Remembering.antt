-- ===== src/Acceptor/Remembering.antt =====
-- Every input of an acceptor keeps what its records and promises tell of the messages that it has sent.
use mathlib.Core.List.{Memᴰ}
use libpaxos.Prelude.{
  ℕ, ◌≡◌, ◌≢◌, refl, ◌<◌, ◌≤◌, inl, inr, true, Option, none, some, List, [], ◌∙◌, arith, ap, sym,
  subst, leb→le, u16,
}
use mathlib.Core.Option.{some-injective}
use libpaxos.Types.{Prepare, Promise, Accept, Accepted, Trim, Message, accepted, promise}
use libpaxos.Storage.{StorageApi, StorageLaws}
use libpaxos.Acceptor.{
  Acceptor, accepted_to_promise, accept_to_accepted, accepted_to_preempted, may_move, prepared,
  receive_prepare, receive_accept,
}
use libpaxos.Acceptor.Store.{
  recs, dropped, stored, refused, receive_prepare-Moves, receive_accept-Moves, receive_repeat_lem,
  receive_trim_lem,
}
use libpaxos.Acceptor.Promises.{
  Input, prepares, accepts, repeats, trims, step, Holds, promise-Holds,
}
use libpaxos.Acceptor.History.{
  push, Untrimmed, as_accepted, answer, Vote, Remembers, Extends, Extends-Remembers,
}
use libpaxos.Acceptor.Records.{
  keeps_higher, keeps_later, OnRecord-push, Moves-OnRecord, OnRecord-Promise, prepared-OnRecord,
  promised_record, accept_vote, repeat_vote,
}

module _ (api : StorageApi) (Valid : api.Handle → Type 0) (laws : StorageLaws api Valid) where
  pub prepare_no_vote :
      (a : Acceptor api) (m : Prepare) (v : Accepted)
      → Valid a.store
      → (receive_prepare api a m).0 ≢ some (accepted v)
  unfolding accepted_to_promise
  prepare_no_vote a m v valid e = elim (receive_prepare-Moves api Valid laws a m valid).0 [
    | dropped o _ ↦ cc
    | stored lt move o _ ↦ cc
    | refused lt move o _ ↦ cc
  ]

  prepare-Extends :
      (a : Acceptor api) (sent : List Message) (m : Prepare)
      → Remembers api Valid laws a sent
      → let (o, a') = receive_prepare api a m in Extends api Valid laws a a' sent o
  unfolding step accepted_to_promise
  prepare-Extends a sent m rem =
      let (moves, k) = receive_prepare-Moves api Valid laws a m rem.valid in
      record {
        id = k.id;
        valid = k.valid;
        higher = λ b j h. keeps_higher api Valid laws a (prepares m) b j rem.valid h;
        later = λ b j h. keeps_later api Valid laws a (prepares m) b j rem.valid h;
        on_record =
            Moves-OnRecord api Valid laws a sent m.iid m.ballot _ _ _ _ rem k prepared_iid
              (λ o lt move.
                OnRecord-push api Valid laws _ a.id sent m.iid _
                  (prepared-OnRecord api Valid laws a sent m (recs api a m.iid) rem lt refl move))
              moves;
        promises = λ p e.
            let (y, ask, lt, on, vb) = promised_record api Valid laws a sent m p rem e in
            let (i, aid, le, t, same) = OnRecord-Promise api Valid laws a sent m.iid y p on ask in
            (
              (
                aid ∙ ap u16 (sym k.id),
                le,
                t,
                subst
                    (λ j.
                      Holds api Valid laws (λ x. p.ballot ≤ x.ballot) j (receive_prepare api a m).1)
                    (sym i) (promise-Holds api Valid laws a m p rem.valid e),
              ),
              λ v i' vote key lower. elim (rem.votes v i' vote).1 [
                | inl t ↦ absurd (omega arith)
                | inr (x, z, q) ↦
                    omega (arith, same, q.0, vb x (ap (recs api a) (sym i ∙ sym key) ∙ z))
              ],
            );
        votes = λ v e vote. absurd (prepare_no_vote a m v rem.valid e);
      }
    where
      prepared_iid : (o : Option Accepted) → (prepared a.id m o).iid ≡ m.iid
      prepared_iid o = unfold prepared in refl

  accept-Extends :
      (a : Acceptor api) (sent : List Message) (m : Accept)
      → Remembers api Valid laws a sent
      → let (o, a') = receive_accept api a m in Extends api Valid laws a a' sent o
  unfolding step accept_to_accepted accepted_to_preempted
  accept-Extends a sent m rem =
      let (moves, k) = receive_accept-Moves api Valid laws a m rem.valid in
      record {
        id = k.id;
        valid = k.valid;
        higher = λ b j h. keeps_higher api Valid laws a (accepts m) b j rem.valid h;
        later = λ b j h. keeps_later api Valid laws a (accepts m) b j rem.valid h;
        on_record =
            Moves-OnRecord api Valid laws a sent m.iid m.ballot _ _ _ _ rem k (λ o. refl)
              (λ o lt move. (
                refl,
                refl,
                omega arith,
                inl (
                    subst (λ s. Vote (push s sent) m.iid m.ballot m.value) (sym o)
                      (_, Memᴰ.head refl, refl, refl, refl, refl)),
              ))
              moves;
        promises = λ p e. absurd (no_promise p e);
        votes = λ v e vote.
            let (is, move, lt, put) = accept_vote api Valid laws a m v rem.valid e in
            (
              (
                ap (λ (y : Accepted). y.aid) (sym is) ∙ ap u16 (sym k.id),
                inr (
                  v,
                  ap (λ j. recs api (receive_accept api a m).1 j)
                        (ap (λ (y : Accepted). y.iid) (sym is))
                      ∙ put,
                  (omega arith, voted_ballots v is),
                ),
              ),
              λ p i _ key lower. elim (rem.promises p i).3 [
                | inl t ↦ absurd (omega (arith, ap (λ (y : Accepted). y.iid) is))
                | inr (y, z, q) ↦ absurd (
                    omega (
                      arith,
                      q,
                      ap (λ (y : Accepted). y.ballot) is,
                      leb→le y.ballot m.ballot (
                          subst (λ f. may_move f m.ballot ≡ true)
                            (ap (recs api a) (ap (λ (y : Accepted). y.iid) is ∙ key) ∙ z) move),
                    ))
              ],
            );
      }
    where
      voted_ballots : (v : Accepted) → accept_to_accepted a.id m ≡ v → v.value_ballot ≤ v.ballot
      voted_ballots v is = subst (λ (y : Accepted). y.value_ballot ≤ y.ballot) is (omega arith)

      no_promise : (p : Promise) → (receive_accept api a m).0 ≢ some (promise p)
      no_promise p e = elim (receive_accept-Moves api Valid laws a m rem.valid).0 [
        | dropped o _ ↦ cc
        | stored lt move o _ ↦ cc
        | refused lt move o _ ↦ cc
      ]

  repeat-Extends :
      (a : Acceptor api) (sent : List Message) (iid : ℕ)
      → Remembers api Valid laws a sent
      → a.trim_iid < iid
      → let (o, a') = answer api a (repeats iid) in Extends api Valid laws a a' sent o
  unfolding answer step
  repeat-Extends a sent iid rem lt =
      let (same, k, out) = receive_repeat_lem api Valid laws a iid rem.valid in
      record {
        id = k.id;
        valid = k.valid;
        higher = λ b j h. keeps_higher api Valid laws a (repeats iid) b j rem.valid h;
        later = λ b j h. keeps_later api Valid laws a (repeats iid) b j rem.valid h;
        on_record = λ j x l e.
            OnRecord-push api Valid laws _ a.id sent j x
              (rem.on_record j x (omega (arith, k.trim_iid)) (sym (ap (λ g. g j) same) ∙ e));
        promises = λ p e. absurd (no_promise _ p e);
        votes = λ v e vote.
            let (found, _) = repeat_vote (recs api a iid) _ v out e in
            let (i, aid, le, t) = rem.on_record iid v lt found in
            (
              (
                aid ∙ ap u16 (sym k.id),
                inr (v, ap (λ g. g v.iid) same ∙ ap (recs api a) i ∙ found, (omega arith, le)),
              ),
              λ p is _ key lower. elim (rem.promises p is).3 [
                | inl t ↦ absurd (omega arith)
                | inr (y, z, q) ↦
                    let again : some v ≡ some y = sym found ∙ ap (recs api a) (sym i ∙ key) ∙ z in
                    absurd
                      (omega (arith, ap (λ (x : Accepted). x.ballot) (some-injective v y again)))
              ],
            );
      }
    where
      no_promise : (o : Option Accepted) (p : Promise) → as_accepted o ≢ some (promise p)
      no_promise none p e = cc
      no_promise (some acc) p e = cc

  trim-Extends :
      (a : Acceptor api) (sent : List Message) (m : Trim)
      → Remembers api Valid laws a sent
      → let (o, a') = answer api a (trims m) in Extends api Valid laws a a' sent o
  unfolding answer step
  trim-Extends a sent m rem =
      let (up, _, w, same_id, kept) = receive_trim_lem api Valid laws a m rem.valid in
      record {
        id = same_id;
        valid = w;
        higher = λ b j h. keeps_higher api Valid laws a (trims m) b j rem.valid h;
        later = λ b j h. keeps_later api Valid laws a (trims m) b j rem.valid h;
        on_record = λ j x l e. rem.on_record j x (omega arith) (sym (kept j l) ∙ e);
        promises = λ p e. cc;
        votes = λ v e vote. cc;
      }

  answer-Extends :
      (a : Acceptor api) (sent : List Message) (m : Input)
      → Remembers api Valid laws a sent
      → Untrimmed api a m
      → let (o, a') = answer api a m in Extends api Valid laws a a' sent o
  answer-Extends a sent (prepares m) rem ok = unfold answer in prepare-Extends a sent m rem
  answer-Extends a sent (accepts m) rem ok = unfold answer in accept-Extends a sent m rem
  answer-Extends a sent (repeats iid) rem ok = repeat-Extends a sent iid rem ok
  answer-Extends a sent (trims m) rem ok = trim-Extends a sent m rem

  -- Whatever input an acceptor handles, over a storage that meets its laws and may fail, it keeps remembering
  -- what it has sent. Every record above the trim mark, and every promise sent, reports the value and the
  -- ballot of a vote sent, or that there was none; no promise that was sent overlooks a vote under a lower
  -- ballot; and the records above the trim mark are not behind any promise or vote. Repeats are for
  -- instances above the trim mark.
  pub answer-Remembers :
      (a : Acceptor api) (sent : List Message) (m : Input)
      → Remembers api Valid laws a sent
      → Untrimmed api a m
      → let (o, a') = answer api a m in Remembers api Valid laws a' (push o sent) × (a'.id ≡ a.id)
  answer-Remembers a sent m rem ok =
      let x = answer-Extends a sent m rem ok in
      (Extends-Remembers api Valid laws a _ sent _ rem x, x.id)

  -- A new acceptor on an empty storage has nothing to remember.
  pub empty-Remembers :
      (a : Acceptor api)
      → Valid a.store
      → ((j : ℕ) → recs api a j ≡ none)
      → Remembers api Valid laws a []
  empty-Remembers a v empty = record {
    valid = v;
    on_record = λ j x lt e. absurd (cc (empty j));
    promises = λ p i. elim i [ ];
    votes = λ m i. elim i [ ];
    reports = λ p m i. elim i [ ];
  }
