-- ===== src/Evpaxos/Peers/Streams.antt =====
-- What `on_read` makes of a stream of packed messages.
use libpaxos.Prelude.{
  ℕ, zero, suc, ◌+◌, ◌<◌, ◌≡◌, ◌≢◌, refl, Bool, true, false, Option, none, some, List, [], ◌∷◌,
  ◌++◌, map, arith, length, drop, length-drop, ◌==◌, if◌then◌else◌, ap, ◌∙◌,
}
use mathlib.Core.List.{append_assoc}
use libpaxos.Types.{Message}
use libpaxos.Evpaxos.Msgpack.{Msgpack, MsgpackLaws, Unpacked, done, continue, parse_error}
use libpaxos.Evpaxos.Packing.{
  msgpack_pack_paxos_message, msgpack_unpack_paxos_message, Recv, nothing, received, fault,
  recv_unpacked, recv_paxos_message,
}
use libpaxos.Evpaxos.Packing.RoundTrip.{Fits, recv-pack}
use libpaxos.Evpaxos.Peers.{Read, read, faulted, stuck, more_read, on_read_within, on_read}

abbrev pub AllFit : List Message → Type 0
AllFit [] = Unit {0}
AllFit (m ∷ ms) = Fits m × AllFit ms

module _ (mp : Msgpack) where
  -- The bytes of a list of messages.
  abbrev pub packed : List Message → List ℕ
  packed [] = []
  packed (m ∷ ms) = msgpack_pack_paxos_message mp m ++ packed ms

module _ (mp : Msgpack) (laws : MsgpackLaws mp) where
  -- A message that is received leaves a shorter buffer.
  recv_shorter :
      (buffer : List ℕ) (m : Option Message) (rest : List ℕ)
      → recv_paxos_message mp buffer ≡ received m rest
      → length rest < length buffer
  unfolding recv_paxos_message
  recv_shorter buffer m rest e = go (length buffer == 0) (mp.unpack_next buffer) refl e
    where
      taken :
          (o : mp.Object) (offset : ℕ)
          → mp.unpack_next buffer ≡ done o offset
          → (u : Option (Option Message))
          → elim u [ none ↦ fault | some x ↦ received x (drop offset buffer) ] ≡ received m rest
          → length rest < length buffer
      taken o offset u none f = cc
      taken o offset u (some x) f =
          let (pos, le) = laws.unpack-progress buffer o offset u in
          ground (arith, length-drop offset buffer)

      go :
          (b : Bool) (u : Unpacked mp.Object)
          → mp.unpack_next buffer ≡ u
          → (if b then nothing else recv_unpacked mp buffer u) ≡ received m rest
          → length rest < length buffer
      go true u z f = cc
      go false continue z f = absurd (unfold recv_unpacked in cc f)
      go false parse_error z f = absurd (unfold recv_unpacked in cc f)
      go false (done o offset) z f =
          taken o offset z (msgpack_unpack_paxos_message mp o) (unfold recv_unpacked in f)

  more_read-ne-stuck : (m : Option Message) (r : Read) → r ≢ stuck → more_read m r ≢ stuck
  more_read-ne-stuck m (read ms rest) h e = cc
  more_read-ne-stuck m faulted h e = cc
  more_read-ne-stuck m stuck h e = h refl

  on_read_within-ne-stuck :
      (fuel : ℕ) (buffer : List ℕ) → length buffer < fuel → on_read_within mp fuel buffer ≢ stuck
  unfolding on_read_within
  on_read_within-ne-stuck zero buffer lt = elim lt [ ]
  on_read_within-ne-stuck (suc fuel) buffer lt =
      go (recv_paxos_message mp buffer) refl (on_read_within-ne-stuck fuel)
    where
      go :
          (r : Recv)
          → recv_paxos_message mp buffer ≡ r
          → ((b : List ℕ) → length b < fuel → on_read_within mp fuel b ≢ stuck)
          → elim r [
            | nothing ↦ read [] buffer
            | received m rest ↦ more_read m (on_read_within mp fuel rest)
            | fault ↦ faulted
          ]
            ≢ stuck
      go nothing e ih = λ f. cc
      go fault e ih = λ f. cc
      go (received m rest) e ih =
          more_read-ne-stuck m _ (ih rest (omega (arith, recv_shorter buffer m rest e)))

  -- The loop of `on_read` ends on every buffer, well formed or not.
  on_read-ne-stuck : (buffer : List ℕ) → on_read mp buffer ≢ stuck
  unfolding on_read
  on_read-ne-stuck buffer = on_read_within-ne-stuck (length buffer + 1) buffer (omega arith)

  on_read_within-packed :
      (ms : List Message) (rest : List ℕ) (fuel : ℕ)
      → AllFit ms
      → recv_paxos_message mp rest ≡ nothing
      → length (packed mp ms ++ rest) < fuel
      → on_read_within mp fuel (packed mp ms ++ rest) ≡ read (map some ms) rest
  unfolding on_read_within
  on_read_within-packed ms rest zero h e lt = elim lt [ ]
  on_read_within-packed [] rest (suc fuel) h e lt = rw (e, on_read_within) refl
  on_read_within-packed (m ∷ ms) rest (suc fuel) h e lt =
      let whole : recv_paxos_message mp (packed mp (m ∷ ms) ++ rest)
          ≡ received (some m) (packed mp ms ++ rest) =
        ap (recv_paxos_message mp)
          (append_assoc (msgpack_pack_paxos_message mp m) (packed mp ms) rest)
        ∙ recv-pack mp laws m (packed mp ms ++ rest) h.0 in
      rw (whole, on_read_within)
        (ap (more_read (some m)) (
          on_read_within-packed ms rest fuel h.1 e
            (omega (arith, recv_shorter _ (some m) _ whole))))

  -- From the bytes of any messages with fields of the widths of their types, and a rest that holds no whole
  -- message yet, `on_read` dispatches exactly these messages, in their order, and leaves the rest.
  pub on_read-packed :
      (ms : List Message) (rest : List ℕ)
      → AllFit ms
      → recv_paxos_message mp rest ≡ nothing
      → on_read mp (packed mp ms ++ rest) ≡ read (map some ms) rest
  unfolding on_read
  on_read-packed ms rest h e =
      on_read_within-packed ms rest (length (packed mp ms ++ rest) + 1) h e (omega arith)
