-- ===== src/Proposer/Promises.antt =====
-- Phase 1 for one instance: which value an instance takes over from the promises that it counts.
use libpaxos.Prelude.{
  ℕ, ◌+◌, ◌<◌, ◌≡◌, refl, ◌↔◌, inl, inr, Bool, true, false, ◌&&◌, Option, none, some, List, [], ◌∷◌,
  arith, length, ltb, if◌then◌else◌, Bool-cases, ap, sym, subst, ◌∙◌, ◌>>=◌,
}
use libpaxos.Types.{Value, Promise, Prepare}
use libpaxos.Quorum.{Quorum, paxos_quorum}
use libpaxos.Quorum
use libpaxos.Quorum.Count.{IsValid, Added, add-Added, init-IsValid}
use libpaxos.Quorum.Majority.{mem, Shows, Added-Shows, init-Shows}
use libpaxos.Proposer.Instances.{Instance, instance_receive_promise, save_promised, instance_new}

-- The promises that arrive for an instance, in turn.
unfoldable pub receive_all : ℕ → Instance → List Promise → ℕ → Option Instance
receive_all id inst [] now = some inst
receive_all id inst (p ∷ ps) now = do
  (out, inst') ← instance_receive_promise id inst p now
  receive_all id inst' ps now

-- The first promise of each acceptor, those in `seen` left out.
abbrev pub counted : List ℕ → List Promise → List Promise
counted seen [] = []
counted seen (p ∷ ps) = if mem p.aid seen then counted seen ps else p ∷ counted (p.aid ∷ seen) ps

-- The spec of phase 1: starting from a value and its ballot, the value of the highest ballot, where a
-- promise without a value does not count, and of equal ballots the first wins.
abbrev pub highest : Option Value × ℕ → List Promise → Option Value × ℕ
highest best [] = best
highest (v, b) (p ∷ ps) =
    highest
      (if ltb 0 (length p.value) && ltb b p.value_ballot
        then (some p.value, p.value_ballot)
        else (v, b))
      ps

abbrev pub AllFrom : ℕ → ℕ → List Promise → Type 0
AllFrom ballot acceptors [] = Unit {0}
AllFrom ballot acceptors (p ∷ ps) =
    ((p.ballot ≡ ballot) × (p.aid < acceptors)) × AllFrom ballot acceptors ps

-- An instance that has counted the acceptors in `seen`.
pub record Counting (inst : Instance) (n : ℕ) (seen : List ℕ) : Type 0 where
  valid : IsValid inst.quorum
  shows : Shows inst.quorum seen
  acceptors : inst.quorum.acceptors ≡ n

-- What one promise under the instance's own ballot does.
data Step (inst : Instance) (p : Promise) (n : ℕ) (seen : List ℕ)
    (r : Option (Option Prepare × Instance)) : Type 0 where
  again : mem p.aid seen ≡ true → r ≡ some (none, inst) → Step inst p n seen r
  counts :
      (q : Quorum)
      → mem p.aid seen ≡ false
      → r ≡ some (none, save_promised (record inst { quorum = q }) p)
      → IsValid q
      → Shows q (p.aid ∷ seen)
      → q.acceptors ≡ n
      → q.count ≡ inst.quorum.count + 1
      → Step inst p n seen r

receive_promise-Step :
    (id : ℕ) (inst : Instance) (p : Promise) (n : ℕ) (seen : List ℕ) (now : ℕ)
    → Counting inst n seen
    → p.ballot ≡ inst.ballot
    → p.aid < n
    → Step inst p n seen (instance_receive_promise id inst p now)
unfolding instance_receive_promise
receive_promise-Step id inst p n seen now c e lt =
    let h : p.aid < inst.quorum.acceptors = omega (arith, c.acceptors) in
    let (new, q, added, a) = add-Added inst.quorum p.aid c.valid h in
    let below : ltb p.ballot inst.ballot ≡ false = ground arith in
    let above : ltb inst.ballot p.ballot ≡ false = ground arith in
    elim (Bool-cases (mem p.aid seen)) [
      | inl m ↦ again m (rw (below, above, added, old new a m) refl)
      | inr m ↦
          counts q m (rw (below, above, added, fresh new a m) refl) a.valid
            (Added-Shows inst.quorum q p.aid new seen c.valid h a c.shows) (a.size ∙ c.acceptors)
            (a.counted ∙ ap (λ b. inst.quorum.count + (if b then 1 else 0)) (fresh new a m))
    ]
  where
    here : p.aid < inst.quorum.acceptors
    here = omega (arith, c.acceptors)

    old :
        (new : Bool) {q : Quorum}
        → Added inst.quorum p.aid new q
        → mem p.aid seen ≡ true
        → new ≡ false
    old new a m = ground (arith, c.shows p.aid here, a.fresh)

    fresh :
        (new : Bool) {q : Quorum}
        → Added inst.quorum p.aid new q
        → mem p.aid seen ≡ false
        → new ≡ true
    fresh new a m = ground (arith, c.shows p.aid here, a.fresh)

-- One round of `highest`.
abbrev pick : Promise → Option Value × ℕ → Option Value × ℕ
pick p (v, b) =
    if ltb 0 (length p.value) && ltb b p.value_ballot
    then (some p.value, p.value_ballot)
    else (v, b)

save_promised-pick :
    (inst : Instance) (p : Promise)
    → let i = save_promised inst p in
      (i.quorum ≡ inst.quorum)
      × (i.ballot ≡ inst.ballot)
      × (i.iid ≡ inst.iid)
      × ((i.promised_value, i.value_ballot) ≡ pick p (inst.promised_value, inst.value_ballot))
unfolding save_promised
save_promised-pick inst p = go (ltb 0 (length p.value) && ltb inst.value_ballot p.value_ballot)
  where
    go :
        (b : Bool)
        → let i =
            if b
            then record inst { value_ballot = p.value_ballot; promised_value = some p.value }
            else inst in
          (i.quorum ≡ inst.quorum)
          × (i.ballot ≡ inst.ballot)
          × (i.iid ≡ inst.iid)
          × (◌≡◌ {A = Option Value × ℕ}
              (i.promised_value, i.value_ballot)
              (if b
                then (some p.value, p.value_ballot)
                else (inst.promised_value, inst.value_ballot)))
    go true = (refl, refl, refl, refl)
    go false = (refl, refl, refl, refl)

-- What the promises leave behind.
pub record Phase1 (n : ℕ) (inst : Instance) (seen : List ℕ) (ps : List Promise) (inst' : Instance)
    : Type 0 where
  pub valid : IsValid inst'.quorum
  pub acceptors : inst'.quorum.acceptors ≡ n
  pub ballot : inst'.ballot ≡ inst.ballot
  pub iid : inst'.iid ≡ inst.iid
  pub count : inst'.quorum.count ≡ inst.quorum.count + length (counted seen ps)
  pub value :
      (inst'.promised_value, inst'.value_ballot)
      ≡ highest (inst.promised_value, inst.value_ballot) (counted seen ps)

pub receive_all-Phase1 :
    (id n now : ℕ) (ps : List Promise) (seen : List ℕ) (inst : Instance)
    → Counting inst n seen
    → AllFrom inst.ballot n ps
    → (inst' : Instance) × (receive_all id inst ps now ≡ some inst') × Phase1 n inst seen ps inst'
unfolding receive_all
receive_all-Phase1 id n now [] seen inst c h = (
  inst,
  refl,
  record {
    valid = c.valid;
    acceptors = c.acceptors;
    ballot = refl;
    iid = refl;
    count = omega arith;
    value = refl;
  },
)
receive_all-Phase1 id n now (p ∷ ps) seen inst c h =
    elim (receive_promise-Step id inst p n seen now c h.0.0 h.0.1) [
      | again m r ↦
          let (inst', e, f) = receive_all-Phase1 id n now ps seen inst c h.1 in
          (
            inst',
            ap (λ o. o >>= λ x. receive_all id x.1 ps now) r ∙ e,
            record {
              valid = f.valid;
              acceptors = f.acceptors;
              ballot = f.ballot;
              iid = f.iid;
              count = rw m f.count;
              value = rw m f.value;
            },
          )
      | counts q m r v s a k ↦
          let i1 : Instance = save_promised (record inst { quorum = q }) p in
          let (sq, sb, si, sv) = save_promised-pick (record inst { quorum = q }) p in
          let (inst', e, f) =
            receive_all-Phase1 id n now ps (p.aid ∷ seen) i1
              (record {
                valid = subst IsValid (sym sq) v;
                shows = subst (λ (x : Quorum). Shows x (p.aid ∷ seen)) (sym sq) s;
                acceptors = ap (λ (x : Quorum). x.acceptors) sq ∙ a;
              })
              (subst (λ b. AllFrom b n ps) (sym sb) h.1) in
          (
            inst',
            ap (λ o. o >>= λ x. receive_all id x.1 ps now) r ∙ e,
            record {
              valid = f.valid;
              acceptors = f.acceptors;
              ballot = f.ballot ∙ sb;
              iid = f.iid ∙ si;
              count = rw m (f.count ∙ omega (arith, ap (λ (x : Quorum). x.count) sq, k));
              value = rw m (f.value ∙ ap (λ x. highest x (counted (p.aid ∷ seen) ps)) sv);
            },
          )
    ]

-- The quorum of a new instance, and of one that was preempted, has counted nobody.
pub clear-Counting : (n : ℕ) (inst : Instance) → inst.quorum ≡ Quorum.init n → Counting inst n []
clear-Counting n inst e = record {
  valid = subst IsValid (sym e) (init-IsValid n);
  shows = subst (λ q. Shows q []) (sym e) (init-Shows n);
  acceptors = ap (λ (q : Quorum). q.acceptors) e ∙ init_acceptors;
}
  where
    init_acceptors : (Quorum.init n).acceptors ≡ n
    init_acceptors = unfold Quorum.init in refl

-- A quorum that has counted `k` acceptors is reached if they are a majority.
pub reached_iff :
    (n k : ℕ) (q : Quorum)
    → IsValid q
    → q.acceptors ≡ n
    → q.count ≡ k
    → (Quorum.reached q ≡ true) ↔ (n < k + k)
unfolding paxos_quorum
reached_iff n k q v a c = unfold Quorum.reached in ground (arith, v.majority)

-- Phase 1 of a new instance. The promises under its ballot, from acceptors that exist, are all taken without a
-- fault. Each acceptor's first promise counts; the quorum is reached exactly if more than half of
-- the acceptors sent one; and the instance then holds the value of the highest ballot that these
-- promises report, or none if none of them reports a value. The instance keeps its number and ballot.
pub phase1_value :
    (id iid ballot n created now : ℕ) (ps : List Promise)
    → 0 < iid
    → AllFrom ballot n ps
    → (inst : Instance) × (inst' : Instance) × (instance_new iid ballot n created ≡ some inst)
      × (receive_all id inst ps now ≡ some inst')
      × ((Quorum.reached inst'.quorum ≡ true)
          ↔ (n < length (counted [] ps) + length (counted [] ps)))
      × ((inst'.promised_value, inst'.value_ballot) ≡ highest (none, 0) (counted [] ps))
      × (inst'.ballot ≡ ballot)
      × (inst'.iid ≡ iid)
unfolding instance_new paxos_quorum
phase1_value id iid ballot n created now ps pos h =
    let new : Instance = record {
      iid = iid;
      ballot = ballot;
      value_ballot = 0;
      value = none;
      promised_value = none;
      created_at = created;
      quorum = Quorum.init n;
    } in
    let (inst', e, f) = receive_all-Phase1 id n now ps [] new (clear-Counting n new refl) h in
    let zero_count : (Quorum.init n).count ≡ 0 = unfold Quorum.init in refl in
    let made : ltb 0 iid ≡ true = ground arith in
    (
      new,
      inst',
      rw made refl,
      e,
      reached_iff n _ inst'.quorum f.valid f.acceptors (f.count ∙ omega arith),
      f.value,
      f.ballot,
      f.iid,
    )
