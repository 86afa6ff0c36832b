-- ===== src/System/Asks.antt =====
-- The turn of a proposer that sends a new accept, and what this accept rests on.
use mathlib.Core.List.{Memᴰ}
use mathlib.Core.Option.{some-injective}
use libpaxos.Prelude.{
  ℕ, ◌≡◌, refl, ◌<◌, true, none, some, ◌∷◌, ◌∙◌, ltb, arith, length, ap, sym, subst,
}
use libpaxos.Types.{Accept}
use libpaxos.Quorum
use libpaxos.Quorum.{Quorum}
use libpaxos.Khash.{Khash}
use libpaxos.Storage.{StorageApi}
use libpaxos.Proposer.Instances.{Instance, instance_new, instance_to_accept}
use libpaxos.Proposer.{Proposer, proposer_accept}
use libpaxos.Proposer.Ballots.{Owns}
use libpaxos.Proposer.Orderly.{Each}
use libpaxos.Proposer.Proposals.{sent_instance, proposer_accept-Proposed}
use libpaxos.System.{System, AllSent, Proposal}
use libpaxos.System.Instances.{Preparing, Asking}
use libpaxos.System.Instances.{clear-init, restarted}
use libpaxos.System.Proposers.{Each-update, Proposing, AllFit}

module _ (api : StorageApi) (kh : Khash Instance) where
  -- A request of the proposer adds to what was sent.
  abbrev pub requesting : System api → Accept → System api
  requesting s acc = record s { requests = acc ∷ s.requests }

  pub asks-Proposing :
      (n id : ℕ) (s : System api) (p p' : Proposer kh) (acc : Accept)
      → Proposing api kh n id s p
      → AllFit api kh p
      → proposer_accept kh p ≡ some (some acc, p')
      → Proposing api kh n id (requesting s acc) p'
  asks-Proposing n id s p p' acc h fits e =
      let f = proposer_accept-Proposed kh p p' acc e in
      let here = h.prepares f.key f.inst f.waits in
      let k = f.inst.iid in
      let key : acc.iid ≡ k = f.iid in
      let full = here.standing.key in
      let ballot : acc.ballot ≡ f.inst.ballot =
        omega (arith, f.ballot, fits.0 f.key f.inst f.waits) in
      let next : p'.next_prepare_iid ≡ p.next_prepare_iid =
        ap (λ (x : Proposer kh). x.next_prepare_iid) f.others in
      record {
        id_is = ap (λ (x : Proposer kh). x.id) f.others ∙ h.id_is;
        acceptors = ap (λ (x : Proposer kh). x.acceptors) f.others ∙ h.acceptors;
        prepares =
            subst
              (λ l. Each (Preparing api n id l (requesting s acc)) (kh.get p'.prepare_instances))
              (sym next)
              (Each-update (Preparing api n id p.next_prepare_iid s) _ (kh.get p.prepare_instances)
                _ k none h.prepares f.gone (λ v g. cc)
                (λ j v ne x. record {
                  standing = x.standing;
                  gathered = x.gathered;
                  unasked = λ r i a o. elim i [
                    | Memᴰ.head is ↦ absurd (ne (sym a ∙ ap (λ (y : Accept). y.iid) is ∙ key))
                    | Memᴰ.tail i' ↦ x.unasked r i' a o
                  ];
                }));
        accepts =
            subst (λ l. Each (Asking api n id l (requesting s acc)) (kh.get p'.accept_instances))
              (sym next)
              (Each-update (Asking api n id p.next_prepare_iid s) _ (kh.get p.accept_instances) _ k
                (some (sent_instance kh p f.inst)) h.accepts f.kept
                (λ v g.
                  subst (Asking api n id p.next_prepare_iid (requesting s acc) k)
                    (some-injective _ v g)
                    (record {
                      standing = record {
                        key = refl;
                        positive = omega (arith, here.standing.positive);
                        known = omega (arith, here.standing.known);
                        owned = here.standing.owned;
                        clears = ap Quorum.clear here.standing.clears ∙ clear-init n;
                      };
                      asked = λ acc' out. Memᴰ.head (some-injective acc' acc (sym out ∙ f.asks));
                      unasked = λ r i a o. elim i [
                        | Memᴰ.head is ↦ omega (arith, ballot, ap (λ (y : Accept). y.ballot) is)
                        | Memᴰ.tail i' ↦ omega (arith, here.unasked r i' (a ∙ full) o)
                      ];
                    }))
                (λ j v ne x. record {
                  standing = x.standing;
                  asked = λ acc' out. Memᴰ.tail (x.asked acc' out);
                  unasked = λ r i a o. elim i [
                    | Memᴰ.head is ↦ absurd (ne (sym a ∙ ap (λ (y : Accept). y.iid) is ∙ key))
                    | Memᴰ.tail i' ↦ x.unasked r i' a o
                  ];
                }));
        closed = λ r i o. elim i [
          | Memᴰ.head is ↦
              omega (arith, next, ap (λ (y : Accept). y.iid) is, key, full, here.standing.known)
          | Memᴰ.tail i' ↦ omega (arith, next, h.closed r i' o)
        ];
      }

  -- What the request of a proposer rests on.
  pub asks-Proposal :
      (n id : ℕ) (s : System api) (p p' : Proposer kh) (acc : Accept)
      → Proposing api kh n id s p
      → AllFit api kh p
      → proposer_accept kh p ≡ some (some acc, p')
      → 0 < length acc.value
      → Proposal api n s acc
  unfolding instance_new instance_to_accept
  asks-Proposal n id s p p' acc h fits e filled =
      let f = proposer_accept-Proposed kh p p' acc e in
      let here = h.prepares f.key f.inst f.waits in
      let (created, ps, sent, all) = here.gathered in
      let pos : ltb 0 f.inst.iid ≡ true =
        ground (arith, here.standing.key, here.standing.positive) in
      record {
        id = id;
        ballot = f.inst.ballot;
        created = created;
        now = 0;
        promises = ps;
        started = record (restarted n created f.inst) { value = none };
        prepared = record f.inst { created_at = created };
        waiting = f.inst.value;
        client = (sent_instance kh p f.inst).value;
        sent = subst (λ k. AllSent api n s.nodes k f.inst.ballot ps) (sym here.standing.key) sent;
        starts = rw pos refl;
        receives = all;
        reached = f.quorum;
        filled = filled;
        asks = f.asks;
        positive = here.standing.owned.0;
        fits = omega (arith, fits.0 f.key f.inst f.waits);
        fresh = λ r i a b. omega (
          arith,
          here.unasked r i (a ∙ here.standing.key) (subst (Owns id) (sym b) here.standing.owned),
          b,
        );
      }

  -- Its ballot is one of the proposer's own.
  pub asks-Owns :
      (n id : ℕ) (s : System api) (p p' : Proposer kh) (acc : Accept)
      → Proposing api kh n id s p
      → AllFit api kh p
      → proposer_accept kh p ≡ some (some acc, p')
      → Owns id acc.ballot
  asks-Owns n id s p p' acc h fits e =
      let f = proposer_accept-Proposed kh p p' acc e in
      subst (Owns id) {x = f.inst.ballot} (omega (arith, f.ballot, fits.0 f.key f.inst f.waits))
        (h.prepares f.key f.inst f.waits).standing.owned
