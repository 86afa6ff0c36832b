-- ===== src/System/Delivery.antt =====
-- The learners on top of the acceptors and proposers: what two of them deliver.
use libpaxos.Prelude.{ℕ, ◌+◌, ◌≡◌, refl, true, some, List, [], ◌∷◌, ◌∙◌, ap, sym, u32}
use libpaxos.Types.{Accepted}
use libpaxos.Khash.{Khash}
use libpaxos.Storage.{StorageApi, StorageLaws}
use libpaxos.Learner.Gaps.{Gap}
use libpaxos.Learner.Instances.{Instance}
use libpaxos.Proposer.Instances
use libpaxos.Learner.{Learner, learner_new}
use libpaxos.Learner.Delivery.{LearnerValid}
use libpaxos.Learner.Runs.{Event, run, InOrder, AllReceived, run-InOrder}
use libpaxos.System.{System, Start, Reach}
use libpaxos.System.Campaigns.{Campaign, Opening, Moves, Moves-Reach}
use libpaxos.System.Agreement.{VotedIn, chosen_agree}

-- As far as both go, the instances and values are the same.
abbrev pub SameOrder : List Accepted → List Accepted → Type 0
SameOrder [] ys = Unit {0}
SameOrder (x ∷ xs) [] = Unit {0}
SameOrder (x ∷ xs) (y ∷ ys) = (x.iid ≡ y.iid) × (x.value ≡ y.value) × SameOrder xs ys

module _ (kh : Khash Instance) (kg : Khash Gap) (P : Accepted → Type 0) where
  new-LearnerValid : (n : ℕ) → LearnerValid kh kg P (learner_new kh kg n true)
  unfolding learner_new
  new-LearnerValid n key inst e = absurd (cc (sym (ap (λ f. f key) kh.get-init) ∙ e))

  -- What a new learner delivers.
  new_run-InOrder :
      (n : ℕ) (es : List Event) (outs : List Accepted) (l : Learner kh kg)
      → AllReceived kh kg P es
      → run kh kg (learner_new kh kg n true) es ≡ some (outs, l)
      → InOrder kh kg P n 1 outs
  unfolding learner_new
  new_run-InOrder n es outs l h e =
      run-InOrder kh kg P es (learner_new kh kg n true) outs l (new-LearnerValid n) refl h e

module _ (api : StorageApi) (Valid : api.Handle → Type 0) (laws : StorageLaws api Valid)
    (kh kh' : Khash Instance) (kg kg' : Khash Gap) where
  InOrder-SameOrder :
      (n iid : ℕ) (s t : System api) (xs ys : List Accepted)
      → Start api Valid n s
      → Reach api n s t
      → InOrder kh kg (VotedIn api n t) n iid xs
      → InOrder kh' kg' (VotedIn api n t) n iid ys
      → SameOrder xs ys
  InOrder-SameOrder n iid s t [] ys start reach a b = tt
  InOrder-SameOrder n iid s t (x ∷ xs) [] start reach a b = tt
  InOrder-SameOrder n iid s t (x ∷ xs) (y ∷ ys) start reach a b =
      let same = a.0.0 ∙ sym b.0.0 in
      (
        same,
        chosen_agree api Valid laws n s t x y start reach a.0.1 b.0.1 same,
        InOrder-SameOrder n (u32 (iid + 1)) s t xs ys start reach a.1 b.1,
      )

  -- The same of the learners on any reachable state of `System.antt`.
  pub learners_agree :
      (n : ℕ) (s t : System api) (es es' : List Event) (outs outs' : List Accepted)
      (l : Learner kh kg) (l' : Learner kh' kg')
      → Start api Valid n s
      → Reach api n s t
      → AllReceived kh kg (VotedIn api n t) es
      → AllReceived kh' kg' (VotedIn api n t) es'
      → run kh kg (learner_new kh kg n true) es ≡ some (outs, l)
      → run kh' kg' (learner_new kh' kg' n true) es' ≡ some (outs', l')
      → SameOrder outs outs'
  learners_agree n s t es es' outs outs' l l' start reach h h' e e' =
      InOrder-SameOrder n 1 s t outs outs' start reach
        (new_run-InOrder kh kg (VotedIn api n t) n es outs l h e)
        (new_run-InOrder kh' kg' (VotedIn api n t) n es' outs' l' h' e')

-- Acceptors that start empty over a storage that meets its laws and may fail, and new proposers, each with
-- its id, run in any interleaving of messages, losses, repetitions, timeouts, trims and deliveries. Two new
-- learners that receive votes of the acceptors, in any order, with losses and repetitions, and deliver
-- whenever they like, deliver the same values for the same instances in the same order, as far as both go.
-- Ballots have to fit into 16 bits and instance numbers into 32, no value is empty, acceptors repeat only
-- instances above their trim mark, and learners get no repeated record whose acceptor has promised a
-- higher ballot since it voted.
pub campaign_agree :
    (api : StorageApi) (Valid : api.Handle → Type 0) (laws : StorageLaws api Valid)
    (kp : Khash Instances.Instance) (kh kh' : Khash Instance) (kg kg' : Khash Gap) (n : ℕ)
    (c d : Campaign api kp) (es es' : List Event) (outs outs' : List Accepted) (l : Learner kh kg)
    (l' : Learner kh' kg')
    → Opening api kp Valid n c
    → Moves api kp n c d
    → AllReceived kh kg (VotedIn api n d.system) es
    → AllReceived kh' kg' (VotedIn api n d.system) es'
    → run kh kg (learner_new kh kg n true) es ≡ some (outs, l)
    → run kh' kg' (learner_new kh' kg' n true) es' ≡ some (outs', l')
    → SameOrder outs outs'
campaign_agree api Valid laws kp kh kh' kg kg' n c d es es' outs outs' l l' o ms =
    learners_agree api Valid laws kh kh' kg kg' n c.system d.system es es' outs outs' l l' o.start
      (Moves-Reach api Valid laws kp n c d o ms).0
