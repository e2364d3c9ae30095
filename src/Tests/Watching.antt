-- ===== src/Tests/Watching.antt =====
-- common/FileWatcher.cpp with a callback that keeps a list.
use sepm_group.Prelude.{
  ◌≡◌, refl, inr, true, false, some, none, List, [], ◌∷◌, ◌++◌, Text, codes, arith,
}
use sepm_group.Prelude.Effects.{Eff, ok, ◌>>◌, pure, modify}
use sepm_group.Sdc.{Exception}
use sepm_group.FileWatcher.{
  Change, create, deleted, watch_loop, watch, Ending, left, kind, event_at, read_word, string_at,
  report, advance, read_events,
}
use sepm_group.FileWatcher.Finishing.{HasShortNames, Finishes, read_events-Finishes}
use sepm_group.FileWatcher.Events.{Sent}
use sepm_group.FileWatcher.Stopping.{Ended, watch_loop-Ended}
use sepm_group.FileWatcher.Delivery.{AreBatches, rounds_of, signalled, tell_batches, watch-Told}

abbrev pub keep : Change → Eff (List Change) Exception (Unit {0})
keep c = modify (λ s. s ++ (c ∷ []))

abbrev close_it : Eff (List Change) Exception (Unit {0})
close_it = pure tt

abbrev leave : Eff (List Change) Exception Ending
leave = pure left

abbrev new_file : Sent
new_file = record {
  wd = 1;
  what = some create;
  of_directory = false;
  cookie = 0;
  name = some (codes "a.so");
  padding = 11;
}

abbrev new_directory : Sent
new_directory = record {
  wd = 1;
  what = some create;
  of_directory = true;
  cookie = 0;
  name = some (codes "sub");
  padding = 12;
}

abbrev gone : Sent
gone = record {
  wd = 1;
  what = some deleted;
  of_directory = false;
  cookie = 0;
  name = some (codes "a.so");
  padding = 11;
}

-- The watch itself is removed.
abbrev ignored : Sent
ignored = record { wd = 1; what = none; of_directory = false; cookie = 0; name = none; padding = 0 }

abbrev pub batches : List (List Sent)
batches = (new_file ∷ new_directory ∷ []) ∷ (ignored ∷ gone ∷ []) ∷ []

pub batches-AreBatches : AreBatches batches
batches-AreBatches = omega arith

-- The creation of a file in both forms of a mask.
create_bits : (kind 256 ≡ some create) × (kind 1073742336 ≡ some deleted) × (kind 32768 ≡ none)
unfolding kind
create_bits = (refl, refl, refl)

watch-Told_example :
    watch keep true close_it [] (rounds_of batches ++ (signalled none ∷ [])) []
    ≡ (tell_batches keep batches >> (close_it >> leave)) []
watch-Told_example = watch-Told keep batches none close_it [] [] batches-AreBatches

heard : tell_batches keep batches [] ≡ (
  ok tt,
  (codes "a.so", false, create) ∷ (codes "sub", true, create) ∷ (codes "a.so", false, deleted) ∷ [],
)
heard = refl

watch_loop-Ended_test :
    Ended keep (watch_loop keep (rounds_of batches ++ (signalled none ∷ rounds_of batches)) [] [])
watch_loop-Ended_test =
    watch_loop-Ended keep (rounds_of batches) (rounds_of batches) (signalled none) [] []
      (inr (none, refl))

-- An event of 32 bytes, with a name in 16 of them.
abbrev one_event : Text
one_event =
    1 ∷ 0 ∷ 0 ∷ 0 ∷ 0 ∷ 1 ∷ 0 ∷ 0 ∷ 0 ∷ 0 ∷ 0 ∷ 0 ∷ 16 ∷ 0 ∷ 0 ∷ 0 ∷ codes "plugin-1.so"
    ++ (0 ∷ 0 ∷ 0 ∷ 0 ∷ 0 ∷ [])

one_event-HasShortNames : HasShortNames 33 0 32 one_event
unfolding event_at read_word
one_event-HasShortNames = (omega arith, tt)

read_events-Finishes_example : Finishes keep (read_events keep 33 0 32 one_event [])
read_events-Finishes_example =
    read_events-Finishes keep 33 0 32 one_event [] one_event-HasShortNames (omega arith)
      (omega arith)

run_event :
    read_events keep 33 0 32 one_event [] ≡ (ok true, (codes "plugin-1.so", false, create) ∷ [])
unfolding read_events report event_at read_word string_at kind advance
run_event = refl
