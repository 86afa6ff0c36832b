-- ===== src/Learner/Recovery.antt =====
-- Phase 1 that a learner runs for a missing instance.
use libpaxos.Prelude.{
  ℕ, zero, suc, ◌+◌, ◌/◌, ◌%◌, ◌^◌, ◌≡◌, ◌<◌, ◌≤◌, inl, inr, refl, ◌↔◌, Bool, true, false, ◌&&◌,
  none, some, List, [], ◌∷◌, arith, ltb, leb, ◌==◌, ==_iff, if◌then◌else◌, Bool-cases, ap, sym, u16,
  u32, subst, ◌∙◌, update-eq,
}
use libpaxos.Types.{Prepare, Promise, Accept}
use libpaxos.Quorum.Majority.{mem, distinct_from, AllBelow}
use libpaxos.Khash.{Khash}
use libpaxos.Learner.Instances.{Instance}
use libpaxos.Learner.{Learner, get_gap_or_create, learner_prepare, learner_receive_promise}
use libpaxos.Learner.Gaps.{
  Gap, gap_to_prepare, is_duplicated, popcount, update_gap, update_accepted_value,
  is_majority_promised, gap_new, gap_reset,
}

-- A test that passes up to a bound.
passes : (ℕ → Bool) → ℕ → Bool
passes test zero = true
passes test (suc bound) = if test bound then passes test bound else false

passes-at : (test : ℕ → Bool) (bound k : ℕ) → k < bound → passes test bound ≡ true → test k ≡ true
unfolding passes
passes-at test zero k lt h = elim lt [ ]
passes-at test (suc bound) k lt h = ground (arith, passes-at test bound k)

-- The bit of an acceptor.
abbrev bit : ℕ → ℕ → ℕ
bit id bitmap = bitmap / 2 ^ id % 2

-- What `is_duplicated` does to one bitmap: at the bit, at another bit, and to the count.
step_right : ℕ → ℕ → ℕ → Bool
step_right bitmap id other =
    let (duplicated, bitmap') = is_duplicated bitmap id in
    ltb bitmap' 256
    && (if duplicated then bit id bitmap == 1 else bit id bitmap == 0)
    && (bit other bitmap' == (if other == id then 1 else bit other bitmap))
    && (popcount bitmap' == popcount bitmap + (if duplicated then 0 else 1))

step_table : passes (λ b. passes (λ i. passes (step_right b i) 8) 8) 256 ≡ true
unfolding passes step_right is_duplicated popcount
step_table = refl

-- What `is_duplicated` does to a byte for an acceptor id below 8: it answers by the id's bit, sets it and
-- no other bit, and counts the id if it is new.
pub record Marked (bitmap id : ℕ) (r : Bool × ℕ) : Type 0 where
  pub in_byte : r.1 < 256
  pub answer : (r.0 ≡ true) ↔ (bit id bitmap ≡ 1)
  pub bits : (other : ℕ) → other < 8 → bit other r.1 ≡ (if other == id then 1 else bit other bitmap)
  pub count : popcount r.1 ≡ popcount bitmap + (if r.0 then 0 else 1)

step_right-true :
    (bitmap id other : ℕ) → bitmap < 256 → id < 8 → other < 8 → step_right bitmap id other ≡ true
step_right-true bitmap id other hb hi ho = passes-at (step_right bitmap id) 8 other ho (
    passes-at (λ i. passes (step_right bitmap i) 8) 8 id hi
      (passes-at (λ b. passes (λ i. passes (step_right b i) 8) 8) 256 bitmap hb step_table))

-- On a byte and an acceptor id below 8, `is_duplicated` answers whether the id's bit is set, sets it and leaves
-- the other bits, and raises the number of set bits by one exactly if the id is new.
is_duplicated-Marked :
    (bitmap id : ℕ) → bitmap < 256 → id < 8 → Marked bitmap id (is_duplicated bitmap id)
unfolding step_right
is_duplicated-Marked bitmap id hb hi =
    let self = step_right-true bitmap id id hb hi hi in
    record {
      in_byte = ground (arith, self);
      answer = ground (arith, self);
      bits = λ other ho. let s = step_right-true bitmap id other hb hi ho in ground (arith, s);
      count = ground (arith, self);
    }

-- The promises that arrive for a gap, as `learner_receive_promise` hands them to it.
unfoldable pub feed : Gap → List Promise → Gap
feed gap [] = gap
feed gap (p ∷ ps) = feed (if gap.reached_majority then gap else (update_gap gap p).1) ps

abbrev pub senders : List Promise → List ℕ
senders [] = []
senders (p ∷ ps) = p.aid ∷ senders ps

-- The bitmap of a gap that waits for promises holds the acceptors in `seen`.
record Waits (gap : Gap) (seen : List ℕ) : Type 0 where
  in_byte : gap.acceptor_bitmap < 256
  bits : (id : ℕ) → id < 8 → (bit id gap.acceptor_bitmap ≡ 1) ↔ (mem id seen ≡ true)
  waiting : gap.reached_majority ≡ false
  few : popcount gap.acceptor_bitmap < gap.majority

feed-reached : (gap : Gap) (ps : List Promise) → gap.reached_majority ≡ true → feed gap ps ≡ gap
unfolding feed
feed-reached gap [] r = refl
feed-reached gap (p ∷ ps) r =
    ap (λ b. feed (if b then gap else (update_gap gap p).1) ps) r ∙ feed-reached gap ps r

-- The gap behind an acceptor's new promise.
abbrev noted : Gap → ℕ → Promise → Gap
noted gap bitmap p = update_accepted_value (record gap { acceptor_bitmap = bitmap }) p

noted-same :
    (gap : Gap) (bitmap : ℕ) (p : Promise)
    → ((noted gap bitmap p).acceptor_bitmap ≡ bitmap)
      × ((noted gap bitmap p).majority ≡ gap.majority)
      × ((noted gap bitmap p).reached_majority ≡ gap.reached_majority)
unfolding update_accepted_value
noted-same gap bitmap p = ground arith

-- What `update_gap` leaves: the gap as it was for a sender that was seen, and else one more sender, and
-- the majority reached or still missing.
data Updated (gap : Gap) (seen : List ℕ) (p : Promise) (g : Gap) : Type 0 where
  again : mem p.aid seen ≡ true → g ≡ gap → Updated gap seen p g
  more :
      mem p.aid seen ≡ false
      → Waits g (p.aid ∷ seen)
      → g.majority ≡ gap.majority
      → popcount g.acceptor_bitmap ≡ popcount gap.acceptor_bitmap + 1
      → Updated gap seen p g
  done :
      mem p.aid seen ≡ false
      → g.reached_majority ≡ true
      → gap.majority ≤ popcount gap.acceptor_bitmap + 1
      → Updated gap seen p g

new_sender-Updated :
    (gap : Gap) (seen : List ℕ) (p : Promise) (bitmap : ℕ)
    → Waits gap seen
    → p.aid < 8
    → mem p.aid seen ≡ false
    → Marked gap.acceptor_bitmap p.aid (false, bitmap)
    → Updated gap seen p (is_majority_promised (noted gap bitmap p)).1
unfolding is_majority_promised
new_sender-Updated gap seen p bitmap w lt new m =
    let (b, mj, r) = noted-same gap bitmap p in
    elim (Bool-cases
      (leb (noted gap bitmap p).majority (popcount (noted gap bitmap p).acceptor_bitmap))) [
        | inl c ↦ rw c (done new refl ground (arith, ap popcount b))
        | inr c ↦ rw c (
            more new
              (record {
                in_byte = rw b m.in_byte;
                bits = λ id h. rw b (ground (arith, m.bits id h, w.bits id h));
                waiting = r ∙ w.waiting;
                few = ground arith;
              })
              mj (rw b (m.count)))
      ]

update_gap-Updated :
    (gap : Gap) (seen : List ℕ) (p : Promise)
    → Waits gap seen
    → p.aid < 8
    → Updated gap seen p (update_gap gap p).1
unfolding update_gap
update_gap-Updated gap seen p w lt = elim (Bool-cases (is_duplicated gap.acceptor_bitmap p.aid).0) [
  | inl d ↦ rw d (again ((w.bits p.aid lt).0 (m.answer.0 d)) refl)
  | inr d ↦ rw d (
      new_sender-Updated gap seen p (is_duplicated gap.acceptor_bitmap p.aid).1 w lt
        (ground (arith, w.bits p.aid lt, m.answer))
        (subst
          (λ f. Marked gap.acceptor_bitmap p.aid (f, (is_duplicated gap.acceptor_bitmap p.aid).1)) d
          m))
]
  where
    m : Marked gap.acceptor_bitmap p.aid (is_duplicated gap.acceptor_bitmap p.aid)
    m = is_duplicated-Marked gap.acceptor_bitmap p.aid w.in_byte lt

feed-count :
    (ps : List Promise) (gap : Gap) (seen : List ℕ)
    → Waits gap seen
    → AllBelow 8 (senders ps)
    → ((feed gap ps).reached_majority ≡ true)
      ↔ (gap.majority ≤ popcount gap.acceptor_bitmap + distinct_from seen (senders ps))
unfolding feed distinct_from
feed-count [] gap seen w h = ground arith
feed-count (p ∷ ps) gap seen w h = elim (update_gap-Updated gap seen p w h.0) [
  | again m e ↦ ground (arith, feed-count ps gap seen w h.1, at (update_gap gap p).1 gap e refl)
  | more m w' mj c ↦ ground (
    arith,
    feed-count ps (update_gap gap p).1 (p.aid ∷ seen) w' h.1,
    at (update_gap gap p).1 (update_gap gap p).1 refl refl,
  )
  | done m r c ↦ ground (
    arith,
    ap (λ g. g.reached_majority) (feed-reached (update_gap gap p).1 ps r),
    at (update_gap gap p).1 (update_gap gap p).1 refl refl,
  )
]
  where
    at :
        (g g' : Gap)
        → g ≡ g'
        → (update_gap gap p).1 ≡ g
        → (feed (if gap.reached_majority then gap else (update_gap gap p).1) ps).reached_majority
          ≡ (feed g' ps).reached_majority
    at g g' e f =
        ap (λ b. (feed (if b then gap else (update_gap gap p).1) ps).reached_majority) w.waiting
        ∙ ap (λ x. (feed x ps).reached_majority) (f ∙ e)

fresh-bit : (id : ℕ) → id < 8 → bit id 0 ≡ 0
fresh-bit id h = (==_iff (bit id 0) 0).0 (passes-at (λ i. bit i 0 == 0) 8 id h fresh_table)
  where
    fresh_table : passes (λ i. bit i 0 == 0) 8 ≡ true
    fresh_table = unfold passes in refl

-- Of the promises that arrive for a new gap, from acceptors with ids below 8, the gap counts
-- each acceptor once, and it reaches its majority exactly if more than half of the acceptors sent one.
feed-majority :
    (iid acceptors : ℕ) (ps : List Promise)
    → AllBelow 8 (senders ps)
    → ((feed (gap_new iid acceptors) ps).reached_majority ≡ true)
      ↔ (acceptors < distinct_from [] (senders ps) + distinct_from [] (senders ps))
unfolding gap_new popcount
feed-majority iid acceptors ps h =
    let f =
      feed-count ps (gap_new iid acceptors) []
        (record {
          in_byte = omega arith;
          bits = λ id lt. ground (arith, fresh-bit id lt);
          waiting = refl;
          few = omega arith;
        })
        h in
    ground (arith, f)

-- A gap that has reached a majority keeps its mark when the learner prepares the instance again.
pub gap_reset-reached : (gap : Gap) → (gap_reset gap).reached_majority ≡ gap.reached_majority
unfolding gap_reset
gap_reset-reached gap = refl

module _ (kh : Khash Instance) (kg : Khash Gap) where
  -- While a gap has its mark, promises for it lead to no accept.
  receive_promise-marked :
      (l : Learner kh kg) (gap : Gap) (p : Promise) (accept : Accept)
      → kg.get l.gaps p.iid ≡ some gap
      → gap.reached_majority ≡ true
      → (learner_receive_promise kh kg l p accept).0 ≡ none
  unfolding learner_receive_promise
  receive_promise-marked l gap p accept at r = rw (at, learner_receive_promise) (rw r refl)

  -- Once a gap has had its majority, `learner_prepare` for its instance starts phase 1 again under a
  -- ballot that is higher by 11, and then no promise for that instance leads to an accept.
  pub learner_prepare-stuck :
      (l : Learner kh kg) (iid : ℕ) (gap : Gap)
      → kg.get l.gaps iid ≡ some gap
      → gap.reached_majority ≡ true
      → (out : Prepare) × (l' : Learner kh kg) × (learner_prepare kh kg l iid ≡ some (out, l'))
        × (out.ballot ≡ u16 (u32 (gap.ballot + 11)))
        × ((p : Promise) (accept : Accept)
            → p.iid ≡ iid
            → (learner_receive_promise kh kg l' p accept).0 ≡ none)
  unfolding learner_prepare get_gap_or_create gap_to_prepare
  learner_prepare-stuck l iid gap at r = (
    gap_to_prepare (gap_reset gap),
    record l { gaps = kg.write l.gaps iid (gap_reset gap) },
    rw (at, get_gap_or_create) refl,
    refl,
    λ p accept e.
        receive_promise-marked _ (gap_reset gap) p accept
          (ap (λ m. m p.iid) (kg.get-write l.gaps iid (gap_reset gap) gap at)
            ∙ update-eq (kg.get l.gaps) iid p.iid _ (sym e))
          r,
  )
