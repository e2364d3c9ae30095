-- ===== src/SdcHelper.antt =====
-- common/sdcHelper.h and common/sdcHelper.cpp: the conversions between the three byte containers,
-- and the parts of an ID `name@server`. Strings, `QByteArray` and `sdc::ByteSeq` are all lists of
-- byte values, so that the casts between `char` and `Ice::Byte` change nothing.
pub mod Bytes
pub mod Ids
use sepm_group.Prelude.{
  ℕ, zero, suc, ◌+◌, Bool, true, false, ◌||◌, not, Option, none, some, List, [], ◌∷◌, ◌++◌, Text,
  get_elem?, set, take, drop, length, ltb, ◌==◌, same, if◌then◌else◌,
}
use mathlib.Core.Option
use sepm_group.Prelude.Effects.{Result, ok, err}

-- `std::vector<Ice::Byte>`, the mapping of the Slice type `ByteSeq`.
abbrev pub ByteSeq : Type 0
ByteSeq = List ℕ

-- INT_MAX of a 32-bit `int`.
abbrev pub int_max : ℕ
int_max = 2_147_483_647

-- `none` stands for undefined behaviour.
infixl 5 ◌>>=◌
abbrev ◌>>=◌ : {A B : Type 0} → Option A → (A → Option B) → Option B
m >>= f = elim m [ none ↦ none | some a ↦ f a ]

-- `i++` on an `int`, which must not overflow.
next_int : ℕ → Option ℕ
next_int i = if i == int_max then none else some (i + 1)

-- The loop of `bStringToByteSeq`, by the rounds that are left.
copy_bytes : Text → ℕ → ℕ → ByteSeq → Option ByteSeq
copy_bytes arr zero i vec = some vec
copy_bytes arr (suc n) i vec = do
  c ← get_elem? arr i
  j ← next_int i
  copy_bytes arr n j (vec ++ (c ∷ []))

-- `arr` is the memory that the pointer gives access to; a read past it is undefined.
unfoldable pub b_string_to_byte_seq : Text → ℕ → Option ByteSeq
unfolding copy_bytes next_int
b_string_to_byte_seq arr len = copy_bytes arr len 0 []

-- `QByteArray::resize` leaves the new bytes undefined: they are `junk i` here.
fresh_bytes : (ℕ → ℕ) → ℕ → Text
fresh_bytes junk zero = []
fresh_bytes junk (suc n) = junk n ∷ fresh_bytes junk n

-- Why there is no array: `resize` was given a size that does not fit its `int`, or `at` has thrown
-- `std::out_of_range`.
pub data Fault : Type 0 where
  size_overflow index_out_of_range : Fault

-- `bytes.at(i)`
abbrev pub byte_at : ByteSeq → ℕ → Result Fault ℕ
byte_at bytes i = elim (get_elem? bytes i) [ none ↦ err index_out_of_range | some v ↦ ok v ]

-- What follows `bytes.at(i)`, which it does not when `at` throws.
abbrev pub with_byte : {A : Type 0} → Result Fault ℕ → (ℕ → Result Fault A) → Result Fault A
with_byte (err fault) k = err fault
with_byte (ok v) k = k v

-- The loop of `byteSeqToByteArray`.
store_bytes : ByteSeq → ℕ → ℕ → Text → Result Fault Text
store_bytes bytes zero i arr = ok arr
store_bytes bytes (suc n) i arr =
    with_byte (byte_at bytes i) (λ v. store_bytes bytes n (i + 1) (set arr i v))

-- A size that does not fit the `int` of `resize` is outside what the code can handle.
pub byte_seq_to_byte_array : (ℕ → ℕ) → ByteSeq → Result Fault Text
unfolding store_bytes fresh_bytes
byte_seq_to_byte_array junk bytes =
    if ltb int_max (length bytes)
    then err size_overflow
    else store_bytes bytes (length bytes) 0 (fresh_bytes junk (length bytes))

-- The loop of `getBinaryString`, over the iterator's remaining range.
append_bytes : ByteSeq → Text → Text
append_bytes [] ret = ret
append_bytes (b ∷ rest) ret = append_bytes rest (ret ++ (b ∷ []))

pub get_binary_string : ByteSeq → Text
unfolding append_bytes
get_binary_string bytes = append_bytes bytes []

pub byte_array_to_byte_seq : Text → Option ByteSeq
unfolding b_string_to_byte_seq
byte_array_to_byte_seq arr = b_string_to_byte_seq arr (length arr)

-- `std::string::find` of one character; `none` is `npos`.
pub find_char : ℕ → Text → Option ℕ
find_char c [] = none
find_char c (x ∷ s) = let rest = find_char c s in if x == c then some 0 else Option.map suc rest

unfoldable pub get_server_from_id : Text → Text
unfolding find_char
get_server_from_id id = elim (find_char b'@' id) [
  | some seperator ↦ drop (seperator + 1) id
  | none ↦ []
]

unfoldable pub get_name_from_id : Text → Text
unfolding find_char
get_name_from_id id = elim (find_char b'@' id) [ some seperator ↦ take seperator id | none ↦ [] ]

unfoldable pub is_valid_id : Text → Bool
unfolding get_name_from_id get_server_from_id
is_valid_id id =
    if same (get_name_from_id id) [] || same (get_server_from_id id) [] then false else true
