-- ===== src/SdcHelper/Bytes.antt =====
-- The byte conversions of common/sdcHelper.cpp copy, and compose to the identity.
use sepm_group.Prelude.{
  ℕ, zero, suc, ◌+◌, ◌≤◌, ◌≡◌, refl, ap, sym, ◌∙◌, none, some, Option-cases, inl, inr, [], ◌∷◌,
  ◌++◌, Text, get_elem?, take, drop, set, length, ◌<◌, take_all, append-nil, append_assoc,
  get_elem?-append, set-append, length-append, length-take, take-append-drop, arith,
}
use sepm_group.Prelude.Effects.{ok}
use sepm_group.SdcHelper.{
  ByteSeq, int_max, byte_at, with_byte, copy_bytes, next_int, b_string_to_byte_seq, fresh_bytes,
  store_bytes, byte_seq_to_byte_array, append_bytes, get_binary_string, byte_array_to_byte_seq,
}

next_int_lem : (i : ℕ) → suc i ≤ int_max → next_int i ≡ some (i + 1)
unfolding next_int
next_int_lem i h = ground arith

next_int-eq : (i j : ℕ) → next_int i ≡ some j → j ≡ i + 1
unfolding next_int
next_int-eq i j h = ground arith

get_elem?-lt : (xs : Text) (i c : ℕ) → get_elem? xs i ≡ some c → i < length xs
get_elem?-lt [] i c h = cc
get_elem?-lt (x ∷ xs) zero c h = omega arith
get_elem?-lt (x ∷ xs) (suc i) c h = omega (arith, get_elem?-lt xs i c h)

length-snoc : (pre : Text) (v : ℕ) → length (pre ++ (v ∷ [])) ≡ length pre + 1
length-snoc pre v = length-append pre (v ∷ [])

module _ (arr : Text) where
  elem_at :
      (i : ℕ) (pre : Text) (v : ℕ) (post : Text)
      → arr ≡ pre ++ (v ∷ post)
      → i ≡ length pre
      → get_elem? arr i ≡ some v
  elem_at i pre v post e k = rw (e, k) (get_elem?-append pre v post)

  copy_bytes-append :
      (i : ℕ) (pre mid post : Text) (vec : ByteSeq)
      → arr ≡ pre ++ (mid ++ post)
      → i ≡ length pre
      → i + length mid ≤ int_max
      → copy_bytes arr (length mid) i vec ≡ some (vec ++ mid)
  unfolding copy_bytes
  copy_bytes-append i pre [] post vec e k h = ap some (sym (append-nil vec))
  copy_bytes-append i pre (v ∷ mid) post vec e k h =
      rw (elem_at i pre v (mid ++ post) e k, next_int_lem i (omega arith))
        (copy_bytes-append (i + 1) (pre ++ (v ∷ [])) mid post (vec ++ (v ∷ []))
            (e ∙ sym (append_assoc pre (v ∷ []) (mid ++ post))) (omega (arith, length-snoc pre v))
            (omega arith)
          ∙ ap some (append_assoc vec (v ∷ []) mid))

-- `bStringToByteSeq` copies the first `len` bytes, if there are so many and an `int` can count them.
pub b_string_to_byte_seq-take :
    (arr : Text) (len : ℕ)
    → len ≤ length arr
    → len ≤ int_max
    → b_string_to_byte_seq arr len ≡ some (take len arr)
unfolding b_string_to_byte_seq
b_string_to_byte_seq-take arr len h b =
    ap (λ n. copy_bytes arr n 0 []) (sym taken)
    ∙ copy_bytes-append arr 0 [] (take len arr) (drop len arr) [] (sym (take-append-drop len arr))
        refl (omega (arith, taken))
  where
    taken : length (take len arr) ≡ len
    taken = omega (arith, length-take len arr)

-- Reading past the memory that is there is undefined.
copy_bytes-none :
    (arr : Text) (n i : ℕ) (vec : ByteSeq)
    → length arr < i + n
    → i ≤ length arr
    → copy_bytes arr n i vec ≡ none
unfolding copy_bytes
copy_bytes-none arr zero i vec h k = absurd (omega arith)
copy_bytes-none arr (suc n) i vec h k = elim (Option-cases (get_elem? arr i)) [
  | inl e ↦ rw e
  | inr (c, e) ↦ rw e (elim (Option-cases (next_int i)) [
    | inl f ↦ rw f
    | inr (j, f) ↦ rw f (
        copy_bytes-none arr n j (vec ++ (c ∷ [])) (omega (arith, next_int-eq i j f))
          (omega (arith, next_int-eq i j f, get_elem?-lt arr i c e)))
  ])
]

-- So a longer `len` than there is memory is undefined behaviour.
pub b_string_to_byte_seq-none :
    (arr : Text) (len : ℕ) → length arr < len → b_string_to_byte_seq arr len ≡ none
unfolding b_string_to_byte_seq
b_string_to_byte_seq-none arr len h = copy_bytes-none arr len 0 [] (omega arith) (omega arith)

length-fresh_bytes : (junk : ℕ → ℕ) (n : ℕ) → length (fresh_bytes junk n) ≡ n
unfolding fresh_bytes
length-fresh_bytes junk zero = refl
length-fresh_bytes junk (suc n) = ap suc (length-fresh_bytes junk n)

module _ (bytes : ByteSeq) where
  byte_at-eq : (i v : ℕ) → get_elem? bytes i ≡ some v → byte_at bytes i ≡ ok v
  byte_at-eq i v e = rw (byte_at, e) refl

  store_bytes-append :
      (i : ℕ) (pre suf old : Text)
      → bytes ≡ pre ++ suf
      → i ≡ length pre
      → length old ≡ length suf
      → store_bytes bytes (length suf) i (pre ++ old) ≡ ok bytes
  unfolding store_bytes
  store_bytes-append i pre [] [] e k h = ap ok (sym e)
  store_bytes-append i pre [] (o ∷ old) e k h = absurd (omega arith)
  store_bytes-append i pre (v ∷ suf) [] e k h = absurd (omega arith)
  store_bytes-append i pre (v ∷ suf) (o ∷ old) e k h =
      ap
        (λ r.
          with_byte r (λ b. store_bytes bytes (length suf) (i + 1) (set (pre ++ (o ∷ old)) i b)))
        (byte_at-eq i v (elem_at bytes i pre v suf e k))
      ∙ (ap (store_bytes bytes (length suf) (i + 1)) written
          ∙ store_bytes-append (i + 1) (pre ++ (v ∷ [])) suf old
              (e ∙ sym (append_assoc pre (v ∷ []) suf)) (omega (arith, length-snoc pre v))
              (omega arith))
    where
      written : set (pre ++ (o ∷ old)) i v ≡ (pre ++ (v ∷ [])) ++ old
      written = rw k (set-append pre o v old ∙ sym (append_assoc pre (v ∷ []) old))

-- `byteSeqToByteArray` copies every byte, whatever `resize` left in the array.
pub byte_seq_to_byte_array-eq :
    (junk : ℕ → ℕ) (bytes : ByteSeq)
    → length bytes ≤ int_max
    → byte_seq_to_byte_array junk bytes ≡ ok bytes
unfolding byte_seq_to_byte_array
byte_seq_to_byte_array-eq junk bytes h = ground (
  arith,
  store_bytes-append bytes 0 [] bytes (fresh_bytes junk (length bytes)) refl refl
      (length-fresh_bytes junk (length bytes)),
)

append_bytes-append : (bytes : ByteSeq) (ret : Text) → append_bytes bytes ret ≡ ret ++ bytes
unfolding append_bytes
append_bytes-append [] ret = sym (append-nil ret)
append_bytes-append (b ∷ rest) ret =
    append_bytes-append rest (ret ++ (b ∷ [])) ∙ append_assoc ret (b ∷ []) rest

-- `getBinaryString` has the bytes of the sequence in their order, zero bytes included.
pub get_binary_string-eq : (bytes : ByteSeq) → get_binary_string bytes ≡ bytes
unfolding get_binary_string
get_binary_string-eq bytes = append_bytes-append bytes []

pub byte_array_to_byte_seq-eq :
    (arr : Text) → length arr ≤ int_max → byte_array_to_byte_seq arr ≡ some arr
unfolding byte_array_to_byte_seq
byte_array_to_byte_seq-eq arr h =
    b_string_to_byte_seq-take arr (length arr) (omega arith) h ∙ ap some (take_all arr)

-- A sequence goes into a `QByteArray` and back unchanged, and a `QByteArray` into a sequence and back.
pub byte_array_round_trip :
    (junk : ℕ → ℕ) (bytes : ByteSeq)
    → length bytes ≤ int_max
    → (byte_seq_to_byte_array junk bytes ≡ ok bytes) × (byte_array_to_byte_seq bytes ≡ some bytes)
byte_array_round_trip junk bytes h =
    (byte_seq_to_byte_array-eq junk bytes h, byte_array_to_byte_seq-eq bytes h)
