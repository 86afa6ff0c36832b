-- ===== src/Storage/Records.antt =====
-- paxos/storage_utils.c: a record as the bytes of its struct with the bytes of its value behind them. How
-- the compiler lays out `struct paxos_accepted` and `iid_t` is a parameter. The pointer in the struct is
-- stored with it and never followed.
use libpaxos.Prelude.{
  ℕ, ◌<◌, ◌≡◌, refl, true, Option, none, some, List, [], ◌∷◌, ◌++◌, arith, length, length-append,
  take, drop, leb, if◌then◌else◌, ap, sym, ◌∙◌,
}
use libpaxos.Types.{Accepted}

-- `struct paxos_accepted` but for the pointer to the value.
pub record Header : Type 0 where
  pub iid : ℕ
  pub ballot : ℕ
  pub value_ballot : ℕ
  pub aid : ℕ
  pub value_len : ℕ

-- The fields fit into their types.
abbrev pub Narrow : Header → Type 0
Narrow h =
    (h.iid < 4294967296)
    × (h.ballot < 65536)
    × (h.value_ballot < 65536)
    × (h.aid < 65536)
    × (h.value_len < 2147483648)

abbrev pub header : Accepted → Header
header acc = record {
  iid = acc.iid;
  ballot = acc.ballot;
  value_ballot = acc.value_ballot;
  aid = acc.aid;
  value_len = length acc.value;
}

-- The bytes of a struct and of an id, and what they stand for. Reading a struct from fewer bytes
-- than it has is not allowed; `iid_of` is `none` there.
pub record Layout : Type 0 where
  pub sizeof : ℕ
  pub image : Header → List ℕ
  pub header_of : List ℕ → Header
  pub iid_image : ℕ → List ℕ
  pub iid_of : List ℕ → Option ℕ
  pub length-image : (h : Header) → length (image h) ≡ sizeof
  pub header_of-image : (h : Header) → Narrow h → header_of (image h) ≡ h
  pub iid_of-image : (iid : ℕ) → iid < 4294967296 → iid_of (iid_image iid) ≡ some iid

drop-append : (xs ys : List ℕ) → drop (length xs) (xs ++ ys) ≡ ys
drop-append [] ys = refl
drop-append (x ∷ xs) ys = drop-append xs ys

take-append : (xs ys : List ℕ) → take (length xs) (xs ++ ys) ≡ xs
take-append [] ys = refl
take-append (x ∷ xs) ys = ap (◌∷◌ x) (take-append xs ys)

take-length : (xs : List ℕ) → take (length xs) xs ≡ xs
take-length [] = refl
take-length (x ∷ xs) = ap (◌∷◌ x) (take-length xs)

module _ (lay : Layout) where
  unfoldable pub paxos_accepted_to_buffer : Accepted → List ℕ
  paxos_accepted_to_buffer acc = lay.image (header acc) ++ acc.value

  -- The record that a struct and the bytes behind it stand for; `none` where bytes are missing.
  unfoldable pub with_value : Header → List ℕ → Option Accepted
  with_value h bytes =
      if leb h.value_len (length bytes)
      then some (record {
        iid = h.iid;
        ballot = h.ballot;
        value_ballot = h.value_ballot;
        aid = h.aid;
        value = take h.value_len bytes;
      })
      else none

  with_value_lem : (a : Accepted) → with_value (header a) a.value ≡ some a
  unfolding with_value
  with_value_lem a =
      let enough : leb (length a.value) (length a.value) ≡ true = ground arith in
      rw enough (ap (λ v. some (record a { value = v })) (take-length a.value))

  unfoldable pub paxos_accepted_from_buffer : List ℕ → Option Accepted
  unfolding with_value
  paxos_accepted_from_buffer buffer =
      if leb lay.sizeof (length buffer)
      then with_value (lay.header_of (take lay.sizeof buffer)) (drop lay.sizeof buffer)
      else none

  -- For a record whose fields fit into their types, `paxos_accepted_from_buffer` gets back what
  -- `paxos_accepted_to_buffer` wrote, the value included, without a read behind the buffer.
  pub from_buffer-to_buffer :
      (acc : Accepted)
      → Narrow (header acc)
      → paxos_accepted_from_buffer (paxos_accepted_to_buffer acc) ≡ some acc
  unfolding paxos_accepted_from_buffer paxos_accepted_to_buffer
  from_buffer-to_buffer acc n =
      let size = lay.length-image (header acc) in
      let whole : leb lay.sizeof (length (lay.image (header acc) ++ acc.value)) ≡ true =
        ground (arith, length-append (lay.image (header acc)) acc.value) in
      let front : lay.header_of (take lay.sizeof (lay.image (header acc) ++ acc.value))
          ≡ header acc =
        ap (λ k. lay.header_of (take k (lay.image (header acc) ++ acc.value))) (sym size)
        ∙ ap lay.header_of (take-append (lay.image (header acc)) acc.value)
        ∙ lay.header_of-image (header acc) n in
      let behind : drop lay.sizeof (lay.image (header acc) ++ acc.value) ≡ acc.value =
        ap (λ k. drop k (lay.image (header acc) ++ acc.value)) (sym size)
        ∙ drop-append (lay.image (header acc)) acc.value in
      ap
        (λ b.
          if b
          then with_value (lay.header_of (take lay.sizeof (lay.image (header acc) ++ acc.value)))
              (drop lay.sizeof (lay.image (header acc) ++ acc.value))
          else none)
        whole
      ∙ ap (λ h. with_value h (drop lay.sizeof (lay.image (header acc) ++ acc.value))) front
      ∙ ap (with_value (header acc)) behind
      ∙ with_value_lem acc
