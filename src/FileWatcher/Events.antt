-- ===== src/FileWatcher/Events.antt =====
-- The buffer that inotify fills, and what the loop over it reads there.
use sepm_group.Prelude.{
  ℕ, zero, suc, ◌+◌, ◌/◌, ◌%◌, ◌^◌, ◌<◌, ◌≡◌, ◌≢◌, refl, ap, ◌∙◌, Bool, true, false, Option, none,
  some, List, [], ◌∷◌, ◌++◌, Text, length, append_assoc, arith,
}
use sepm_group.FileWatcher.{
  Change, FileEvent, create, deleted, modified, InotifyEvent, read_word, event_at, event_of,
  string_at, kind, advance, is_dir,
}

-- A little-endian `uint32_t`.
abbrev pub word : ℕ → Text
word n = (n % 256) ∷ (n / 256 % 256) ∷ (n / 65536 % 256) ∷ (n / 16777216) ∷ []

read_word-word : (n : ℕ) (t : Text) → read_word (word n ++ t) ≡ some n
unfolding read_word
read_word-word n t = ap some (omega arith)

-- An event as the kernel writes it: the name, if there is one, ends by a zero and `padding` more.
pub record Sent : Type 0 where
  pub wd : ℕ
  -- another kind of event, as `IN_IGNORED`, is none of the three
  pub what : Option FileEvent
  pub of_directory : Bool
  pub cookie : ℕ
  pub name : Option Text
  pub padding : ℕ

abbrev pub bit_of : Option FileEvent → ℕ
bit_of none = 32768
bit_of (some create) = 256
bit_of (some deleted) = 512
bit_of (some modified) = 2

abbrev pub directory_bit : Bool → ℕ
directory_bit true = 1073741824
directory_bit false = 0

abbrev pub mask_of : Sent → ℕ
mask_of e = bit_of e.what + directory_bit e.of_directory

mask_reads :
    (w : Option FileEvent) (d : Bool)
    → (kind (bit_of w + directory_bit d) ≡ w) × (is_dir (bit_of w + directory_bit d) ≡ d)
unfolding kind
mask_reads none true = (refl, refl)
mask_reads none false = (refl, refl)
mask_reads (some create) true = (refl, refl)
mask_reads (some create) false = (refl, refl)
mask_reads (some deleted) true = (refl, refl)
mask_reads (some deleted) false = (refl, refl)
mask_reads (some modified) true = (refl, refl)
mask_reads (some modified) false = (refl, refl)

pub kind-mask_of : (e : Sent) → kind (mask_of e) ≡ e.what
kind-mask_of e = (mask_reads e.what e.of_directory).0

pub is_dir-mask_of : (e : Sent) → is_dir (mask_of e) ≡ e.of_directory
is_dir-mask_of e = (mask_reads e.what e.of_directory).1

abbrev pub zeros : ℕ → Text
zeros zero = []
zeros (suc n) = 0 ∷ zeros n

abbrev pub name_field : Option Text → ℕ → Text
name_field none padding = []
name_field (some name) padding = name ++ (0 ∷ zeros padding)

abbrev pub field : Sent → Text
field e = name_field e.name e.padding

abbrev pub encode : Sent → Text
encode e =
    word e.wd ++ (word (mask_of e) ++ (word e.cookie ++ (word (length (field e)) ++ field e)))

abbrev pub encode_all : List Sent → Text
encode_all [] = []
encode_all (e ∷ es) = encode e ++ encode_all es

-- No zero is inside a name.
abbrev pub NoZero : Text → Type 0
NoZero [] = Unit {0}
NoZero (c ∷ s) = (c ≢ 0) × NoZero s

abbrev pub HasName : Option Text → Type 0
HasName none = Unit {0}
HasName (some name) = NoZero name

abbrev pub AreNamed : List Sent → Type 0
AreNamed [] = Unit {0}
AreNamed (e ∷ es) = HasName e.name × AreNamed es

-- The event that is read there.
abbrev pub seen : Sent → Text → InotifyEvent
seen e t = record { mask = mask_of e; len = length (field e); name = field e ++ t }

pub event_at-encode : (e : Sent) (t : Text) → event_at (encode e ++ t) ≡ some (seen e t)
unfolding event_at
event_at-encode e t =
    ap (λ m. event_of m (read_word (word (length (field e)) ++ (field e ++ t))) (field e ++ t))
      (read_word-word (mask_of e) (word e.cookie ++ (word (length (field e)) ++ (field e ++ t))))
    ∙ ap (λ l. event_of (some (mask_of e)) l (field e ++ t))
        (read_word-word (length (field e)) (field e ++ t))

string_at-name : (name t : Text) → NoZero name → string_at (name ++ (0 ∷ t)) ≡ some name
unfolding string_at
string_at-name [] t h = refl
string_at-name (zero ∷ name) t h = absurd (ground (arith, h))
string_at-name (suc c ∷ name) t h = rw (string_at-name name t h.1) refl

pub string_at-field :
    (name : Text) (padding : ℕ) (t : Text)
    → NoZero name
    → string_at (name_field (some name) padding ++ t) ≡ some name
string_at-field name padding t h =
    ap string_at (append_assoc name (0 ∷ zeros padding) t)
    ∙ string_at-name name (zeros padding ++ t) h

pub length-encode : (e : Sent) → length (encode e) ≡ 16 + length (field e)
length-encode e = omega arith

pub advance-eq : (i len : ℕ) → i + (16 + len) < 2 ^ 31 → advance i len ≡ some (i + (16 + len))
unfolding advance
advance-eq i len h = ground (arith, h)

-- What an event tells: nothing, if it has no name or is of another kind.
abbrev pub told : Option Text → Option FileEvent → Bool → Option Change
told (some name) (some e) of_directory = some (name, of_directory, e)
told _ _ of_directory = none

abbrev pub change_of : Sent → Option Change
change_of e = told e.name e.what e.of_directory

abbrev pub changes_of : List Sent → List (Option Change)
changes_of [] = []
changes_of (e ∷ es) = change_of e ∷ changes_of es
