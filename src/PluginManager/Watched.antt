-- ===== src/PluginManager/Watched.antt =====
-- A manager whose notifications come from its FileWatcher: `fileChanged` is the callback of the loop of
-- common/FileWatcher.cpp, which turns the bytes that inotify gives into notifications.
use sepm_group.Prelude.{
  ◌≡◌, refl, sym, ap, ◌∙◌, true, Option, none, some, List, [], ◌∷◌, ◌++◌, Text,
}
use sepm_group.Prelude.Effects.{Eff, Result, ok, err, bind_result, ◌>>◌, pure}
use sepm_group.Sdc.{Exception}
use sepm_group.QMap.{QMap}
use sepm_group.FileWatcher.{Change, Incoming, Ending, left, watch}
use sepm_group.FileWatcher.Events.{Sent, changes_of}
use sepm_group.FileWatcher.Delivery.{
  AreBatches, rounds_of, signalled, tell_all, tell_batches, watch-Told,
}
use sepm_group.PluginManager.{Platform, PluginManager, notified, for_each, destruct, Done}

abbrev somes {ℓ} : {A : Type ℓ} → List (Option A) → List A
somes [] = []
somes (none ∷ xs) = somes xs
somes (some x ∷ xs) = x ∷ somes xs

-- The notifications that the batches of events make.
abbrev pub heard : List (List Sent) → List Change
heard [] = []
heard (es ∷ batches) = somes (changes_of es) ++ heard batches

then_eq :
    {S A B : Type 0} (r : Result Exception A × S) (k k' : Eff S Exception B)
    → ((s : S) → k s ≡ k' s)
    → bind_result r (λ _. k) ≡ bind_result r (λ _. k')
then_eq (ok a, s) k k' h = h s
then_eq (err e, s) k k' h = refl

then_assoc :
    {S A B C : Type 0} (r : Result Exception A × S) (k : Eff S Exception B) (l : Eff S Exception C)
    → bind_result (bind_result r (λ _. k)) (λ _. l) ≡ bind_result r (λ _. k >> l)
then_assoc (ok a, s) k l = refl
then_assoc (err e, s) k l = refl

module _ (Q : QMap) (P : Platform) where
  abbrev each : List Change → Done Q P
  each = for_each Q P (notified Q P)

  each-append :
      (xs ys : List Change) (s : PluginManager Q P) → each (xs ++ ys) s ≡ (each xs >> each ys) s
  each-append [] ys s = refl
  each-append (x ∷ xs) ys s =
      then_eq (notified Q P x s) (each (xs ++ ys)) (each xs >> each ys) (each-append xs ys)
      ∙ sym (then_assoc (notified Q P x s) (each xs) (each ys))

  tell_all-each :
      (cs : List (Option Change)) (s : PluginManager Q P)
      → tell_all (notified Q P) cs s ≡ each (somes cs) s
  tell_all-each [] s = refl
  tell_all-each (none ∷ cs) s = tell_all-each cs s
  tell_all-each (some c ∷ cs) s =
      then_eq (notified Q P c s) (tell_all (notified Q P) cs) (each (somes cs)) (tell_all-each cs)

  tell_batches-each :
      (batches : List (List Sent)) (s : PluginManager Q P)
      → tell_batches (notified Q P) batches s ≡ each (heard batches) s
  tell_batches-each [] s = refl
  tell_batches-each (es ∷ batches) s =
      then_eq (tell_all (notified Q P) (changes_of es) s) (tell_batches (notified Q P) batches)
        (each (heard batches)) (tell_batches-each batches)
      ∙ ap (λ r. bind_result r (λ _. each (heard batches))) (tell_all-each (changes_of es) s)
      ∙ sym (each-append (somes (changes_of es)) (heard batches) s)

  -- The loop of the watcher that the constructor has made, on the manager.
  abbrev pub watching :
      Text → List (List Sent) → Option Incoming → Eff (PluginManager Q P) Exception Ending
  watching buffer batches events =
      watch (notified Q P) true (pure tt) buffer (rounds_of batches ++ (signalled events ∷ []))

  pub watching-each :
      (buffer : Text) (batches : List (List Sent)) (events : Option Incoming)
      (s : PluginManager Q P)
      → AreBatches batches
      → watching buffer batches events s ≡ (each (heard batches) >> pure left) s
  watching-each buffer batches events s h =
      watch-Told (notified Q P) batches events (pure tt) buffer s h
      ∙ ap (λ r. bind_result r (λ _. pure left)) (tell_batches-each batches s)

  -- What `waitForFinished` of the thread that ran the loop gives: nothing, or what it threw.
  abbrev pub finished : Result Exception Ending → Result Exception (Unit {0})
  finished (ok _) = ok tt
  finished (err e) = err e

  -- The destructor, after the loop of the watcher has ended like this.
  abbrev pub destruct_after :
      Result Exception Ending × PluginManager Q P → Result Exception (Unit {0}) × PluginManager Q P
  destruct_after told = destruct Q P (finished told.0) told.1
