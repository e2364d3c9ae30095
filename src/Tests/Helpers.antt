-- ===== src/Tests/Helpers.antt =====
-- The conversions and the IDs of common/sdcHelper.cpp at concrete data.
use sepm_group.Prelude.{◌≡◌, ◌↔◌, refl, true, false, none, some, [], ◌∷◌, codes, same, arith}
use sepm_group.Prelude.Effects.{ok}
use sepm_group.SdcHelper.{
  b_string_to_byte_seq, byte_seq_to_byte_array, byte_array_to_byte_seq, get_name_from_id,
  get_server_from_id, is_valid_id,
}
use sepm_group.SdcHelper.Ids.{id_parts, IsId, is_valid_id_iff}
use sepm_group.SdcHelper.Bytes.{
  b_string_to_byte_seq-take, b_string_to_byte_seq-none, byte_array_round_trip,
}

names : (is_valid_id (codes "hello@host") ≡ true) × (is_valid_id (codes "@host") ≡ false)
unfolding is_valid_id same
names = (refl, refl)

-- Only the first `@` counts.
two_signs : get_server_from_id (codes "a@b@c") ≡ codes "b@c"
unfolding get_server_from_id
two_signs = refl

over_the_end : b_string_to_byte_seq (1 ∷ 2 ∷ []) 3 ≡ none
unfolding b_string_to_byte_seq
over_the_end = refl

byte_array_round_trip_test :
    (byte_seq_to_byte_array (λ i. i) (3 ∷ 0 ∷ 255 ∷ []) ≡ ok (3 ∷ 0 ∷ 255 ∷ []))
    × (byte_array_to_byte_seq (3 ∷ 0 ∷ 255 ∷ []) ≡ some (3 ∷ 0 ∷ 255 ∷ []))
byte_array_round_trip_test = byte_array_round_trip (λ i. i) (3 ∷ 0 ∷ 255 ∷ []) (omega arith)

b_string_to_byte_seq-take_test : b_string_to_byte_seq (5 ∷ 6 ∷ 7 ∷ []) 2 ≡ some (5 ∷ 6 ∷ [])
b_string_to_byte_seq-take_test =
    b_string_to_byte_seq-take (5 ∷ 6 ∷ 7 ∷ []) 2 (omega arith) (omega arith)

is_valid_id_iff_example : (is_valid_id (codes "a@b") ≡ true) ↔ IsId (codes "a@b")
is_valid_id_iff_example = is_valid_id_iff (codes "a@b")

id_parts_test :
    (get_name_from_id (codes "a@b@c") ≡ codes "a")
    × (get_server_from_id (codes "a@b@c") ≡ codes "b@c")
id_parts_test = id_parts (codes "a") (codes "b@c") (omega arith)

b_string_to_byte_seq-none_test : b_string_to_byte_seq (1 ∷ 2 ∷ []) 3 ≡ none
b_string_to_byte_seq-none_test = b_string_to_byte_seq-none (1 ∷ 2 ∷ []) 3 (omega arith)
