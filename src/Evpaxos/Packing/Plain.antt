-- ===== src/Evpaxos/Packing/Plain.antt =====
-- A packing that meets the laws of `Evpaxos/Msgpack.antt`: an array is its length and its elements, and an
-- element is marked 0 for a number and 1 for bytes with their length. Numbers stand for bytes.
use mathlib.Core.List.{append_assoc}
use libpaxos.Prelude.{
  ℕ, zero, suc, ◌+◌, ◌<◌, ◌≤◌, ◌≡◌, refl, true, Option, none, some, List, [], ◌∷◌, ◌++◌, arith,
  length, length-append, length-drop, take, drop, get_elem?, leb, if◌then◌else◌, Bool-cases, inl,
  inr, ap, ◌∙◌, ◌>>=◌, some->>=,
}
use mathlib.Core.Option.{some-injective}
use libpaxos.Evpaxos.Msgpack.{
  Msgpack, MsgpackLaws, Field, num, bin, Writes, uint16, int16, uint32, binary, AllWritten, Holds,
  Unpacked, done, continue, joined,
}

-- `n` elements, and how many numbers they take.
unfoldable pub read_fields : ℕ → List ℕ → Option (List Field × ℕ)
read_fields zero bs = some ([], 0)
read_fields (suc n) [] = none
read_fields (suc n) (mark ∷ []) = none
read_fields (suc n) (zero ∷ v ∷ bs) = read_fields n bs >>= λ r. some (num v ∷ r.0, r.1 + 2)
read_fields (suc n) (suc mark ∷ size ∷ bs) =
    let rest = read_fields n (drop size bs) in
    if leb size (length bs)
    then (rest >>= λ r. some (bin (take size bs) ∷ r.0, r.1 + size + 2))
    else none

abbrev pub num_of : Option Field → Option ℕ
num_of (some (num n)) = some n
num_of _ = none

abbrev pub bin_of : Option Field → Option (List ℕ)
bin_of (some (bin bs)) = some bs
bin_of _ = none

unfoldable pub read_array : List ℕ → Unpacked (List Field)
unfolding read_fields
read_array [] = continue
read_array (n ∷ bs) = elim (read_fields n bs) [ none ↦ continue | some r ↦ done r.0 (r.1 + 1) ]

abbrev pub plain : Msgpack
plain = record {
  Object = List Field;
  pack_array = λ n. n ∷ [];
  pack_uint16 = λ n. 0 ∷ n ∷ [];
  pack_int16 = λ n. 0 ∷ n ∷ [];
  pack_uint32 = λ n. 0 ∷ n ∷ [];
  pack_bin = λ size. 1 ∷ size ∷ [];
  pack_bin_body = λ bs. bs;
  unpack_next = read_array;
  u64_at = λ fs i. num_of (get_elem? fs i);
  bin_at = λ fs i. bin_of (get_elem? fs i);
}

drop-append : (xs ys : List ℕ) → drop (length xs) (xs ++ ys) ≡ ys
drop-append [] ys = refl
drop-append (x ∷ xs) ys = drop-append xs ys

take-append : (xs ys : List ℕ) → take (length xs) (xs ++ ys) ≡ xs
take-append [] ys = refl
take-append (x ∷ xs) ys = ap (◌∷◌ x) (take-append xs ys)

-- One element, before others.
read_fields-num :
    (n v : ℕ) (bs : List ℕ) (fs : List Field) (k : ℕ)
    → read_fields n bs ≡ some (fs, k)
    → read_fields (suc n) (0 ∷ v ∷ bs) ≡ some (num v ∷ fs, k + 2)
unfolding read_fields
read_fields-num n v bs fs k e = rw e refl

read_fields-bin :
    (n : ℕ) (xs bs : List ℕ) (fs : List Field) (k : ℕ)
    → read_fields n bs ≡ some (fs, k)
    → read_fields (suc n) (1 ∷ length xs ∷ (xs ++ bs)) ≡ some (bin xs ∷ fs, k + length xs + 2)
unfolding read_fields
read_fields-bin n xs bs fs k e =
    let fits : leb (length xs) (length (xs ++ bs)) ≡ true = ground (arith, length-append xs bs) in
    rw (fits, drop-append xs bs, take-append xs bs, e) refl

read_fields-written :
    (fs : List Field) (ws : List (List ℕ)) (rest : List ℕ)
    → AllWritten plain fs ws
    → read_fields (length fs) (joined ws ++ rest) ≡ some (fs, length (joined ws))
read_fields-written [] [] rest h = unfold read_fields in refl
read_fields-written [] (w ∷ ws) rest h = absurd h
read_fields-written (f ∷ fs) [] rest h = absurd h
read_fields-written (f ∷ fs) (w ∷ ws) rest (h, hs) = go f w h (read_fields-written fs ws rest hs)
  where
    number :
        (v : ℕ)
        → read_fields (length fs) (joined ws ++ rest) ≡ some (fs, length (joined ws))
        → read_fields (suc (length fs)) (0 ∷ v ∷ (joined ws ++ rest))
          ≡ some (num v ∷ fs, suc (suc (length (joined ws))))
    number v ih =
        read_fields-num (length fs) v (joined ws ++ rest) fs (length (joined ws)) ih
        ∙ ap (λ k. some (num v ∷ fs, k)) (omega arith)

    go :
        (f : Field) (w : List ℕ)
        → Writes plain f w
        → read_fields (length fs) (joined ws ++ rest) ≡ some (fs, length (joined ws))
        → read_fields (suc (length fs)) ((w ++ joined ws) ++ rest)
          ≡ some (f ∷ fs, length (w ++ joined ws))
    go f w (uint16 n lt) ih = number n ih
    go f w (int16 n lt) ih = number n ih
    go f w (uint32 n lt) ih = number n ih
    go f w (binary bs lt) ih =
        ap (λ xs. read_fields (suc (length fs)) (1 ∷ length bs ∷ xs))
          (append_assoc bs (joined ws) rest)
        ∙ read_fields-bin (length fs) bs (joined ws ++ rest) fs (length (joined ws)) ih
        ∙ ap (λ k. some (bin bs ∷ fs, k)) (omega (arith, length-append bs (joined ws)))

-- The elements of an array are those at its indices.
Holds-from :
    (o fs : List Field) (i : ℕ)
    → ((k : ℕ) (f : Field) → get_elem? fs k ≡ some f → get_elem? o (i + k) ≡ some f)
    → Holds plain o i fs
Holds-from o [] i h = tt
Holds-from o (num n ∷ fs) i h = (
  ap num_of (ap (get_elem? o) (omega arith) ∙ h 0 (num n) refl),
  Holds-from o fs (i + 1) (λ k f e. ap (get_elem? o) (omega arith) ∙ h (suc k) f e),
)
Holds-from o (bin bs ∷ fs) i h = (
  ap bin_of (ap (get_elem? o) (omega arith) ∙ h 0 (bin bs) refl),
  Holds-from o fs (i + 1) (λ k f e. ap (get_elem? o) (omega arith) ∙ h (suc k) f e),
)

read_fields-within :
    (n : ℕ) (bs : List ℕ) (r : List Field × ℕ) → read_fields n bs ≡ some r → r.1 ≤ length bs
unfolding read_fields
read_fields-within zero bs r e = ground arith
read_fields-within (suc n) [] r e = cc
read_fields-within (suc n) (mark ∷ []) r e = cc
read_fields-within (suc n) (zero ∷ v ∷ bs) r e =
    let (a, f, g) = some->>= (read_fields n bs) _ r e in
    omega
      (arith, read_fields-within n bs a f, ap (λ (x : List Field × ℕ). x.1) (some-injective _ r g))
read_fields-within (suc n) (suc mark ∷ size ∷ bs) r e = elim (Bool-cases (leb size (length bs))) [
  | inr short ↦ absurd (cc (rw short at e))
  | inl fits ↦
      let (a, f, g) = some->>= (read_fields n (drop size bs)) _ r (rw fits at e) in
      ground (
        arith,
        read_fields-within n (drop size bs) a f,
        length-drop size bs,
        ap (λ (x : List Field × ℕ). x.1) (some-injective _ r g),
      )
]

read_array-progress :
    (bs : List ℕ) (o : List Field) (offset : ℕ)
    → read_array bs ≡ done o offset
    → (0 < offset) × (offset ≤ length bs)
unfolding read_array
read_array-progress [] o offset e = absurd (cc e)
read_array-progress (n ∷ bs) o offset e = go (read_fields n bs) refl e
  where
    go :
        (r : Option (List Field × ℕ))
        → read_fields n bs ≡ r
        → ◌≡◌ {A = Unpacked (List Field)}
            (elim r [ none ↦ continue | some x ↦ done x.0 (x.1 + 1) ])
            (done o offset)
        → (0 < offset) × (offset ≤ suc (length bs))
    go none f g = absurd (cc g)
    go (some x) f g = ground (arith, read_fields-within n bs x f)

read_array-written :
    (fs : List Field) (ws : List (List ℕ)) (rest : List ℕ)
    → AllWritten plain fs ws
    → read_array (((length fs ∷ []) ++ joined ws) ++ rest)
      ≡ done fs (length ((length fs ∷ []) ++ joined ws))
unfolding read_array
read_array-written fs ws rest h =
    rw (read_fields-written fs ws rest h, read_array) (ap (done fs) (omega arith))

pub plain_laws : MsgpackLaws plain
plain_laws = record {
  unpack-pack = λ fs ws rest few h. (
    fs,
    read_array-written fs ws rest h,
    Holds-from fs fs 0 (λ k f e. ap (get_elem? fs) (omega arith) ∙ e),
  );
  unpack-progress = read_array-progress;
}
