-- ===== src/QMap.antt =====
-- Qt's QMap with string keys, of which common/PluginManager.cpp uses six operations and
-- common/ViewRefresher.cpp two, one of them an iterator. QMap is not
-- part of the repository: it is a parameter, and what its manual promises are the laws `IsOrdered`.
use sepm_group.Prelude.{
  ◌≡◌, refl, ap, Bool, true, false, Option, none, some, List, map, [], ◌∷◌, ◌++◌, Text, same,
  same_iff, same_refl, inl, inr, ltb, ◌||◌, ◌==◌, if◌then◌else◌, Bool-cases, arith,
}

pub record QMap : Type 1 where
  pub Map : Type 0 → Type 0
  pub empty : {A : Type 0} → Map A
  pub contains : {A : Type 0} → Text → Map A → Bool
  -- `m[k]` of a key that is there
  pub at : {A : Type 0} → Text → Map A → Option A
  -- `m[k] = v`
  pub insert : {A : Type 0} → Text → A → Map A → Map A
  pub remove : {A : Type 0} → Text → Map A → Map A
  pub values : {A : Type 0} → Map A → List A
  -- What a `QMapIterator` passes.
  pub items : {A : Type 0} → Map A → List (Text × A)

-- The `operator<` of strings.
unfoldable pub text_less : Text → Text → Bool
text_less [] [] = false
text_less [] (b ∷ t) = true
text_less (a ∷ s) [] = false
text_less (a ∷ s) (b ∷ t) =
    let rest = text_less s t in if ltb a b then true else (if a == b then rest else false)

module _ {A : Type 0} where
  unfoldable pub has : Text → List (Text × A) → Bool
  has k [] = false
  has k ((k', v) ∷ m) = same k k' || has k m

  unfoldable pub find : Text → List (Text × A) → Option A
  find k [] = none
  find k ((k', v) ∷ m) = let rest = find k m in if same k k' then some v else rest

  unfoldable pub put : Text → A → List (Text × A) → List (Text × A)
  put k v [] = (k, v) ∷ []
  put k v ((k', v') ∷ m) =
      let rest = put k v m in
      if same k k'
      then (k, v) ∷ m
      else (if text_less k k' then (k, v) ∷ (k', v') ∷ m else (k', v') ∷ rest)

  unfoldable pub erase : Text → List (Text × A) → List (Text × A)
  erase k [] = []
  erase k ((k', v) ∷ m) = let rest = erase k m in if same k k' then m else (k', v) ∷ rest

  abbrev pub seconds : List (Text × A) → List A
  seconds [] = []
  seconds ((k, v) ∷ m) = v ∷ seconds m

-- A map is a list of its entries in the order of the keys.
pub record IsOrdered (Q : QMap) : Type 1 where
  pub entries : {A : Type 0} → Q.Map A → List (Text × A)
  pub entries-empty : {A : Type 0} → entries (Q.empty {A = A}) ≡ []
  pub contains-has : {A : Type 0} (k : Text) (m : Q.Map A) → Q.contains k m ≡ has k (entries m)
  pub at-find : {A : Type 0} (k : Text) (m : Q.Map A) → Q.at k m ≡ find k (entries m)
  pub entries-insert :
      {A : Type 0} (k : Text) (v : A) (m : Q.Map A) → entries (Q.insert k v m) ≡ put k v (entries m)
  pub entries-remove :
      {A : Type 0} (k : Text) (m : Q.Map A) → entries (Q.remove k m) ≡ erase k (entries m)
  pub values-entries : {A : Type 0} (m : Q.Map A) → Q.values m ≡ seconds (entries m)
  pub items-entries : {A : Type 0} (m : Q.Map A) → Q.items m ≡ entries m

same_sym : (s t : Text) → same s t ≡ false → same t s ≡ false
unfolding same
same_sym [] [] h = h
same_sym [] (b ∷ t) h = refl
same_sym (a ∷ s) [] h = refl
same_sym (a ∷ s) (b ∷ t) h = let rest = same_sym s t in ground (arith, rest, h)

-- The entries with every value under `f`.
module _ {A : Type 0} {B : Type 0} (f : A → B) where
  abbrev pub map_values : List (Text × A) → List (Text × B)
  map_values [] = []
  map_values ((k, v) ∷ m) = (k, f v) ∷ map_values m

  pub has-map_values : (k : Text) (m : List (Text × A)) → has k (map_values m) ≡ has k m
  unfolding has
  has-map_values k [] = refl
  has-map_values k ((k', v) ∷ m) = ap (λ r. same k k' || r) (has-map_values k m)

  pub seconds-map_values : (m : List (Text × A)) → seconds (map_values m) ≡ map f (seconds m)
  seconds-map_values [] = refl
  seconds-map_values ((k, v) ∷ m) = ap (λ t. f v ∷ t) (seconds-map_values m)

  pub put-map_values :
      (k : Text) (v : A) (m : List (Text × A)) → put k (f v) (map_values m) ≡ map_values (put k v m)
  unfolding put
  put-map_values k v [] = refl
  put-map_values k v ((k', v') ∷ m) = ground (arith, put-map_values k v m)

  pub find-map_values :
      (k : Text) (v : A) (m : List (Text × A))
      → find k m ≡ some v
      → find k (map_values m) ≡ some (f v)
  unfolding find
  find-map_values k v [] e = absurd (ground (arith, e))
  find-map_values k v ((k', w) ∷ m) e = elim (Bool-cases (same k k')) [
    | inl t ↦ rw t (ground (arith, e, t))
    | inr t ↦ rw t (find-map_values k v m (ground (arith, e, t)))
  ]

  pub erase-map_values :
      (k : Text) (m : List (Text × A)) → erase k (map_values m) ≡ map_values (erase k m)
  unfolding erase
  erase-map_values k [] = refl
  erase-map_values k ((k', v) ∷ m) = ground (arith, erase-map_values k m)

module _ {A : Type 0} where
  pub seconds-append : (a b : List (Text × A)) → seconds (a ++ b) ≡ seconds a ++ seconds b
  seconds-append [] b = refl
  seconds-append ((k, v) ∷ a) b = ap (λ t. v ∷ t) (seconds-append a b)

  -- No two entries have one key.
  abbrev pub Distinct : List (Text × A) → Type 0
  Distinct [] = Unit {0}
  Distinct ((k, v) ∷ m) = (has k m ≡ false) × Distinct m

  -- A new key is put between two parts.
  pub put-Split :
      (k : Text) (v : A) (m : List (Text × A))
      → has k m ≡ false
      → (a : List (Text × A)) × (b : List (Text × A)) × (m ≡ a ++ b)
        × (put k v m ≡ a ++ ((k, v) ∷ b))
  unfolding put has
  put-Split k v [] h = ([], [], refl, refl)
  put-Split k v ((k', v') ∷ m) h =
      let (a, b, x, y) = put-Split k v m (ground (arith, h)) in
      elim (Bool-cases (same k k')) [
        | inl e ↦ absurd (ground (arith, e, h))
        | inr e ↦ elim (Bool-cases (text_less k k')) [
          | inl f ↦ ([], (k', v') ∷ m, refl, rw (e, f))
          | inr f ↦
              ((k', v') ∷ a, b, ap (λ t. (k', v') ∷ t) x, rw (e, f) (ap (λ t. (k', v') ∷ t) y))
        ]
      ]

  -- A present key is found between two parts, which are left when it is erased.
  pub erase-Split :
      (k : Text) (m : List (Text × A))
      → has k m ≡ true
      → (a : List (Text × A)) × (v : A) × (b : List (Text × A)) × (k' : Text) × (m
          ≡ a ++ ((k', v) ∷ b))
        × (erase k m ≡ a ++ b)
        × (find k m ≡ some v)
  unfolding erase has find
  erase-Split k [] h = absurd (ground (arith, h))
  erase-Split k ((k', v) ∷ m) h = elim (Bool-cases (same k k')) [
    | inl e ↦ ([], v, m, k', refl, rw e, rw e)
    | inr e ↦
        let (a, w, b, l, x, y, z) = erase-Split k m (ground (arith, e, h)) in
        ((k', v) ∷ a, w, b, l, ap (λ t. (k', v) ∷ t) x, rw e (ap (λ t. (k', v) ∷ t) y), rw e z)
  ]

  has-erase_other :
      (k k' : Text) (m : List (Text × A)) → has k' m ≡ false → has k' (erase k m) ≡ false
  unfolding erase has
  has-erase_other k k' [] h = h
  has-erase_other k k' ((l, v) ∷ m) h = let rest = has-erase_other k k' m in ground (arith, rest)

  pub has-erase : (k : Text) (m : List (Text × A)) → Distinct m → has k (erase k m) ≡ false
  unfolding erase has
  has-erase k [] d = refl
  has-erase k ((k', v) ∷ m) d = elim (Bool-cases (same k k')) [
    | inl e ↦ rw (e, (same_iff k k').0 e) d.0
    | inr e ↦ rw (e) (rw e (has-erase k m d.1))
  ]

  pub erase-Distinct : (k : Text) (m : List (Text × A)) → Distinct m → Distinct (erase k m)
  unfolding erase has
  erase-Distinct k [] d = d
  erase-Distinct k ((k', v) ∷ m) d = elim (Bool-cases (same k k')) [
    | inl e ↦ rw e d.1
    | inr e ↦ rw e (has-erase_other k k' m d.0, erase-Distinct k m d.1)
  ]

  pub has-put : (k : Text) (v : A) (m : List (Text × A)) → has k (put k v m) ≡ true
  unfolding put has
  has-put k v [] = rw (same_refl k)
  has-put k v ((k', v') ∷ m) = let rest = has-put k v m in ground (arith, rest, same_refl k)

  has-put_other :
      (k k' : Text) (v : A) (m : List (Text × A))
      → same k' k ≡ false
      → has k' m ≡ false
      → has k' (put k v m) ≡ false
  unfolding put has
  has-put_other k k' v [] e h = rw e
  has-put_other k k' v ((l, w) ∷ m) e h =
      let rest = has-put_other k k' v m e in ground (arith, rest, e, h)

  pub put-Distinct :
      (k : Text) (v : A) (m : List (Text × A)) → has k m ≡ false → Distinct m → Distinct (put k v m)
  unfolding put has
  put-Distinct k v [] h d = (refl, tt)
  put-Distinct k v ((k', v') ∷ m) h d = elim (Bool-cases (same k k')) [
    | inl e ↦ absurd (ground (arith, e, h))
    | inr e ↦ elim (Bool-cases (text_less k k')) [
      | inl f ↦ rw (e, f) (h, d)
      | inr f ↦
          rw (e, f)
            (
              has-put_other k k' v m (same_sym k k' e) d.0,
              put-Distinct k v m (ground (arith, h)) d.1,
            )
    ]
  ]
