-- ===== src/FileWatcher.antt =====
-- common/FileWatcher.h and common/FileWatcher.cpp. The answers of `select` and `read` are a list of
-- rounds, so that a run is a sequence of what the system does. The thread that QtConcurrent starts
-- runs `watch`.
pub mod Events
pub mod Delivery
pub mod Stopping
pub mod Owner
pub mod Finishing
use sepm_group.Prelude.{
  ℕ, zero, suc, ◌+◌, ◌*◌, ◌/◌, ◌%◌, ◌^◌, Bool, true, false, Option, none, some, List, [], ◌∷◌, ◌++◌,
  Text, codes, length, take, drop, ◌==◌, ltb, if◌then◌else◌,
}
use sepm_group.Prelude.Effects.{Eff, ◌>>=◌, ◌>>◌, pure, throw}
use sepm_group.Sdc.{Exception, watch_exception, undefined}

-- `FileWatcher::FileEvent`
pub data FileEvent : Type 0 where
  create modified deleted : FileEvent

-- A notification: a name, whether it is a directory, and what happened to it.
abbrev pub Change : Type 0
Change = Text × Bool × FileEvent

-- `EVENT_SIZE`, where an `int` and a `uint32_t` have four bytes
abbrev pub event_size : ℕ
event_size = 16

-- `BUF_LEN`
abbrev pub buf_len : ℕ
buf_len = 1024 * (event_size + 16)

-- A little-endian `uint32_t` at the start of some memory.
unfoldable pub read_word : Text → Option ℕ
read_word (a ∷ b ∷ c ∷ d ∷ _) = some (a + 256 * (b + 256 * (c + 256 * d)))
read_word _ = none

-- What is read of a `struct inotify_event`; `name` is the memory from the name on.
pub record InotifyEvent : Type 0 where
  pub mask : ℕ
  pub len : ℕ
  pub name : Text

abbrev pub event_of : Option ℕ → Option ℕ → Text → Option InotifyEvent
event_of (some mask) (some len) name = some (record { mask = mask; len = len; name = name })
event_of _ _ name = none

-- The event at the start of some memory: `wd`, `mask`, `cookie`, `len` and the name.
unfoldable pub event_at : Text → Option InotifyEvent
event_at t = event_of (read_word (drop 4 t)) (read_word (drop 12 t)) (drop event_size t)

-- The string at the start of some memory, if a zero ends it there.
unfoldable pub string_at : Text → Option Text
string_at [] = none
string_at (zero ∷ t) = some []
string_at (suc c ∷ t) = elim (string_at t) [ none ↦ none | some s ↦ some (suc c ∷ s) ]

-- `mask & (1 << bit)`
abbrev pub has_bit : ℕ → ℕ → Bool
has_bit bit mask = ((mask / 2 ^ bit) % 2) == 1

-- `mask & IN_ISDIR`
abbrev pub is_dir : ℕ → Bool
is_dir mask = has_bit 30 mask

-- `IN_CREATE`, `IN_DELETE` and `IN_MODIFY`, the first that is set.
unfoldable pub kind : ℕ → Option FileEvent
kind mask =
    if has_bit 8 mask
    then some create
    else (if has_bit 9 mask then some deleted else (if has_bit 1 mask then some modified else none))

-- `i += EVENT_SIZE + event->len`, a `size_t` that is stored in an `int`; a negative index is none.
unfoldable pub advance : ℕ → ℕ → Option ℕ
advance i len =
    if ltb ((i + (event_size + len)) % 2 ^ 32) (2 ^ 31)
    then some ((i + (event_size + len)) % 2 ^ 32)
    else none

-- What `read` gives: an error, or some bytes.
pub data Incoming : Type 0 where
  read_failed : Incoming
  received : Text → Incoming

-- What `select` gives: -1, 0, or which of the two descriptors are ready.
pub data Selected : Type 0 where
  failed timed_out : Selected
  -- the pipe, and inotify with what it has
  ready : Bool → Option Incoming → Selected

-- One turn of the loop: `running`, and the answer of `select`.
pub record Round : Type 0 where
  pub running : Bool
  pub selected : Selected

-- How the loop ended: left, waiting for another answer, or never, in one buffer.
pub data Ending : Type 0 where
  left waiting diverged : Ending

module _ {S : Type 0} (callback : Change → Eff S Exception (Unit {0})) where
  abbrev pub defined : {A : Type 0} → Option A → Eff S Exception A
  defined none = throw undefined
  defined (some a) = pure a

  abbrev pub call_with : Option FileEvent → InotifyEvent → Eff S Exception (Unit {0})
  call_with none event = pure tt
  call_with (some e) event = do
    name ← defined (string_at event.name)
    callback (name, is_dir event.mask, e)

  -- The body of `if ( event->len )`, under that test.
  unfoldable pub report : InotifyEvent → Eff S Exception (Unit {0})
  report event = elim (event.len == 0) [
    | true ↦ pure tt
    | false ↦ call_with (kind event.mask) event
  ]

  -- `while(i < length)`; whether it ended within the fuel.
  unfoldable pub read_events : ℕ → ℕ → ℕ → Text → Eff S Exception Bool
  read_events zero i size buffer = pure false
  read_events (suc fuel) i size buffer = elim (ltb i size) [
    | false ↦ pure true
    | true ↦ do
      event ← defined (event_at (drop i buffer))
      report event
      next ← defined (advance i event.len)
      read_events fuel next size buffer
  ]

  -- `read( fd, buffer, BUF_LEN )` writes the start of the buffer.
  abbrev pub fill : Text → Text → Text
  fill bytes buffer = bytes ++ drop (length bytes) buffer

  -- What a turn of `while(running)` leads to: another turn with this buffer, the end of the loop,
  -- or no end of the inner loop.
  pub data Turn : Type 0 where
    again : Text → Turn
    stop spin : Turn

  abbrev turn_with : Text → Bool → Turn
  turn_with buffer true = again buffer
  turn_with buffer false = spin

  abbrev pub take_in : Text → Text → Eff S Exception Turn
  take_in bytes buffer = do
    finished ← read_events (suc (length bytes)) 0 (length bytes) (fill bytes buffer)
    pure (turn_with (fill bytes buffer) finished)

  unfoldable pub turn : Bool → Selected → Text → Eff S Exception Turn
  turn false _ buffer = pure stop
  turn true failed buffer = throw (watch_exception (codes "select failed"))
  turn true timed_out buffer = throw (watch_exception (codes "select should never timeout"))
  turn true (ready true events) buffer = pure stop
  turn true (ready false none) buffer = throw (watch_exception (codes "unexpected fd"))
  turn true (ready false (some read_failed)) buffer =
      throw (watch_exception (codes "failed to read() events"))
  turn true (ready false (some (received bytes))) buffer = take_in (take buf_len bytes) buffer

  abbrev pub proceed : (Text → Eff S Exception Ending) → Turn → Eff S Exception Ending
  proceed go (again buffer) = go buffer
  proceed go stop = pure left
  proceed go spin = pure diverged

  unfoldable pub watch_loop : List Round → Text → Eff S Exception Ending
  watch_loop [] buffer = pure waiting
  watch_loop (round ∷ rounds) buffer = do
    t ← turn round.running round.selected buffer
    proceed (watch_loop rounds) t

  -- After the loop, `inotify_rm_watch` and `close`.
  abbrev pub clean_up : Eff S Exception (Unit {0}) → Ending → Eff S Exception Ending
  clean_up close_watch left = do close_watch; pure left
  clean_up close_watch e = pure e

  -- `opened` says whether `inotify_init` gave a descriptor; `buffer` is the memory of the buffer.
  unfoldable pub watch :
      Bool → Eff S Exception (Unit {0}) → Text → List Round → Eff S Exception Ending
  watch false close_watch buffer rounds = throw (watch_exception (codes "failed to init inotify"))
  watch true close_watch buffer rounds = do e ← watch_loop rounds buffer; clean_up close_watch e
