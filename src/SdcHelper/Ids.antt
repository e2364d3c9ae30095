-- ===== src/SdcHelper/Ids.antt =====
-- IDs `name@server`: what common/sdcHelper.cpp takes for their two parts, and which IDs it accepts.
use native.Mathlib.Numerals.{add-one}
use sepm_group.Prelude.{
  ℕ, suc, ◌+◌, ◌≡◌, ◌≢◌, ◌↔◌, ◌⊎◌, inl, inr, refl, ap, true, false, Bool-cases, none, some, [], ◌∷◌,
  ◌++◌, Text, ◌==◌, ==_iff, drop, length, take-append, same, same_iff, same_refl, sym, not, ◌||◌,
  arith,
}
use sepm_group.SdcHelper.{find_char, get_server_from_id, get_name_from_id, is_valid_id}

-- The character does not occur.
abbrev pub Lacks : ℕ → Text → Type 0
Lacks c [] = Unit {0}
Lacks c (x ∷ s) = (x ≢ c) × Lacks c s

pub find_char-append :
    (c : ℕ) (pre post : Text) → Lacks c pre → find_char c (pre ++ (c ∷ post)) ≡ some (length pre)
unfolding find_char
find_char-append c [] post h = ground (arith, ==_iff c c)
find_char-append c (x ∷ pre) post h = ground (arith, ==_iff x c, find_char-append c pre post h.1)

pub find_char-none : (c : ℕ) (s : Text) → Lacks c s → find_char c s ≡ none
unfolding find_char
find_char-none c [] h = refl
find_char-none c (x ∷ s) h = ground (arith, ==_iff x c, find_char-none c s h.1)

-- A text lacks the character or splits at its first occurrence.
abbrev pub Split : ℕ → Text → Type 0
Split c s = Lacks c s ⊎ ((pre : Text) × (post : Text) × (s ≡ pre ++ (c ∷ post)) × Lacks c pre)

Split-cons : (c x : ℕ) (s : Text) → x ≢ c → Split c s → Split c (x ∷ s)
Split-cons c x s ne (inl h) = inl (ne, h)
Split-cons c x s ne (inr (pre, post, e, h)) = inr (x ∷ pre, post, ap (◌∷◌ x) e, (ne, h))

pub Split-first : (c : ℕ) (s : Text) → Split c s
Split-first c [] = inl tt
Split-first c (x ∷ s) = elim (Bool-cases (x == c)) [
  | inl e ↦ inr ([], s, ap (λ (y : ℕ). y ∷ s) ((==_iff x c).0 e), tt)
  | inr e ↦ Split-cons c x s (λ p. ground (arith, ==_iff x c)) (Split-first c s)
]

drop-suc : (pre : Text) (c : ℕ) (post : Text) → drop (suc (length pre)) (pre ++ (c ∷ post)) ≡ post
drop-suc [] c post = refl
drop-suc (x ∷ pre) c post = drop-suc pre c post

drop_past : (pre : Text) (c : ℕ) (post : Text) → drop (length pre + 1) (pre ++ (c ∷ post)) ≡ post
drop_past pre c post = rw add-one (drop-suc pre c post)

-- The two parts of an ID are the texts before and after its first `@`.
pub id_parts :
    (name server : Text)
    → Lacks b'@' name
    → (get_name_from_id (name ++ (b'@' ∷ server)) ≡ name)
      × (get_server_from_id (name ++ (b'@' ∷ server)) ≡ server)
unfolding get_name_from_id get_server_from_id
id_parts name server h = ground (
  arith,
  find_char-append b'@' name server h,
  take-append name (b'@' ∷ server),
  drop_past name b'@' server,
)

-- Without an `@` both parts are empty.
pub id_parts_none :
    (id : Text) → Lacks b'@' id → (get_name_from_id id ≡ []) × (get_server_from_id id ≡ [])
unfolding get_name_from_id get_server_from_id
id_parts_none id h = ground (arith, find_char-none b'@' id h)

abbrev pub IsId : Text → Type 0
IsId id =
    (name : Text) × (server : Text) × (id ≡ name ++ (b'@' ∷ server))
    × Lacks b'@' name
    × (name ≢ [])
    × (server ≢ [])

is_valid_id-eq :
    (name server : Text)
    → Lacks b'@' name
    → is_valid_id (name ++ (b'@' ∷ server)) ≡ not (same name [] || same server [])
unfolding is_valid_id
is_valid_id-eq name server h = ground (arith, id_parts name server h)

IsId-is_valid_id : (id : Text) → IsId id → is_valid_id id ≡ true
IsId-is_valid_id id (name, server, e, h, n, s) =
    rw e (ground (arith, is_valid_id-eq name server h, same_iff name [], same_iff server []))

is_valid_id-IsId : (id : Text) → is_valid_id id ≡ true → IsId id
unfolding is_valid_id
is_valid_id-IsId id v = elim (Split-first b'@' id) [
  | inl h ↦ absurd (ground (arith, id_parts_none id h, same_refl []))
  | inr (name, server, e, h) ↦
      let w : is_valid_id (name ++ (b'@' ∷ server)) ≡ true = rw (sym e) v in
      (
        name,
        server,
        e,
        h,
        λ p. ground (arith, w, is_valid_id-eq name server h, same_iff name []),
        λ p. ground (arith, w, is_valid_id-eq name server h, same_iff server []),
      )
]

-- Exactly the texts with an `@`, something before the first one and something after it are valid.
pub is_valid_id_iff : (id : Text) → (is_valid_id id ≡ true) ↔ IsId id
is_valid_id_iff id = (is_valid_id-IsId id, IsId-is_valid_id id)

-- The name of a valid ID is not empty and holds no `@`, so it is no valid ID itself.
pub get_name_from_id-Lacks : (id : Text) → Lacks b'@' (get_name_from_id id)
get_name_from_id-Lacks id = elim (Split-first b'@' id) [
  | inl h ↦ rw ((id_parts_none id h).0) tt
  | inr (name, server, e, h) ↦ rw e (rw ((id_parts name server h).0) h)
]

pub is_valid_id-get_name_from_id : (id : Text) → is_valid_id (get_name_from_id id) ≡ false
unfolding is_valid_id
is_valid_id-get_name_from_id id =
    ground (arith, id_parts_none (get_name_from_id id) (get_name_from_id-Lacks id), same_refl [])
