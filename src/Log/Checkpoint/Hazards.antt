-- ===== src/Log/Checkpoint/Hazards.antt =====
-- A checkpoint whose last unlink() is not reached: the next process empties its database.
use omni_events.Prelude.{
  ==_refl, ℕ, ◌+◌, ◌<◌, ◌≡◌, refl, sym, ap, ◌∙◌, ◌==◌, map, Bool, ◌||◌, true, false, Option, none,
  some, List, [], ◌∷◌, ◌++◌, arith,
}
use mathlib.Core.List.{append_assoc, append-nil}
use omni_events.Prelude.Text.{Str}
use omni_events.Log.{
  Log, incarnate_factory, new_process, Reply, killed, system, write_file, write_checkpoint, Round,
  prepare, commit, checkpoint_round,
}
use omni_events.Log.Checkpoint.Writes.{IsOpen, running}
use omni_events.Log.Checkpoint.Phases.{
  phases, after_prepare, after_write, after_commit, after_write-value, bound_commit, phases-opened,
}
use omni_events.Log.Checkpoint.Completion.{typed, write_works}

typed-same :
    (i c next : ℕ) (b : Option ℕ) (needed : Bool) (text : Str) (texts : ℕ → Str)
    → typed i c next b needed text texts c ≡ texts c ++ text
typed-same i c next b needed [] texts = sym (append-nil (texts c))
typed-same i c next b needed (x ∷ text) texts =
    typed-same i c next b needed text (write_file c (texts c ++ x ∷ []) texts)
    ∙ rw (==_refl c) (append_assoc (texts c) (x ∷ []) text)

typed-other :
    (i c next : ℕ) (b : Option ℕ) (needed : Bool) (text : Str) (texts : ℕ → Str)
    → (i == c) ≡ false
    → typed i c next b needed text texts i ≡ texts i
typed-other i c next b needed [] texts h = refl
typed-other i c next b needed (x ∷ text) texts h =
    typed-other i c next b needed text (write_file c (texts c ++ x ∷ []) texts) h ∙ rw h refl

-- All calls work up to the last unlink(), where the process is killed.
abbrev pub works_to_unlink : Str → List Bool
works_to_unlink text = true ∷ (map (λ _. true) text ++ true ∷ true ∷ true ∷ true ∷ true ∷ [])

commit_stops :
    (i c next : ℕ) (b : Option ℕ) (needed : Bool) (texts : ℕ → Str)
    → after_commit (
        commit
          (running (some i) b (some c) texts next (some i) needed (true ∷ true ∷ true ∷ true ∷ [])))
      ≡ (killed, running (some c) (some i) (some c) texts next none needed [])
unfolding commit system
commit_stops i c next none needed texts = refl
commit_stops i c next (some g) needed texts = refl

phases_stop :
    (i next : ℕ) (b : Option ℕ) (texts : ℕ → Str) (needed : Bool) (text : Str)
    → phases text (running (some i) b none texts next (some i) needed (works_to_unlink text)) ≡ (
      killed,
      running
          (some next)
          (some i)
          (some next)
          (typed i next (next + 1) b needed text (write_file next [] texts))
          (next + 1)
          none
          needed
          [],
    )
unfolding system
phases_stop i next b texts needed text =
    let four = true ∷ true ∷ true ∷ true ∷ [] in
    let more = map (λ _. true) text ++ true ∷ four in
    let written = typed i next (next + 1) b needed text (write_file next [] texts) in
    let k = running (some i) b (some next) written (next + 1) (some i) needed four in
    phases-opened text (running (some i) b none texts next (some i) needed (works_to_unlink text))
      (running (some i) b (some next) (write_file next [] texts) (next + 1) (some i) needed more)
      refl
    ∙ ap (λ r. after_prepare (after_write r))
        (write_works i next (next + 1) b needed text (write_file next [] texts) four)
    ∙ ap after_prepare (after_write-value k)
    ∙ bound_commit (commit k) k
    ∙ commit_stops i next (next + 1) b needed written

stopped_lem :
    (i next : ℕ) (b : Option ℕ) (texts : ℕ → Str) (needed first : Bool) (text : Str)
    → (needed || first) ≡ true
    → let l : Log = record {
      disk = record { active = some i; backup = b; checkpoint = none; texts = texts; next = next };
      logstream = some i;
      checkpoint_needed = needed;
      first_checkpoint = first;
      script = works_to_unlink text;
    } in
      checkpoint_round text l ≡ (
        killed,
        running
            (some next)
            (some i)
            (some next)
            (typed i next (next + 1) b needed text (write_file next [] texts))
            (next + 1)
            none
            needed
            [],
      )
unfolding checkpoint_round
stopped_lem i next b texts false false text h = cc
stopped_lem i next b texts needed true text h = phases_stop i next b texts needed text
stopped_lem i next b texts true false text h = phases_stop i next b texts true text

-- The next process opens the log and begins its first checkpoint, in which it is killed.
abbrev pub restarted : Str → Log → Reply Round × Log
restarted text l = checkpoint_round text ((incarnate_factory (new_process (true ∷ true ∷ []) l)).1)

restarted_lem :
    (c i next : ℕ) (texts : ℕ → Str) (needed : Bool) (text : Str)
    → restarted text (running (some c) (some i) (some c) texts next none needed [])
      ≡ (killed, running (some c) (some i) (some c) (write_file c [] texts) next (some c) true [])
unfolding checkpoint_round incarnate_factory prepare system write_checkpoint
restarted_lem c i next texts needed [] = refl
restarted_lem c i next texts needed (x ∷ text) = refl

stopped_log :
    (i : ℕ) (new : Str) (l : Log)
    → IsOpen i l
    → l.disk.checkpoint ≡ none
    → (l.checkpoint_needed || l.first_checkpoint) ≡ true
    → l.script ≡ works_to_unlink new
    → let c = l.disk.next in
      (checkpoint_round new l).1
      ≡ running
          (some c)
          (some i)
          (some c)
          (typed i c
            (c + 1)
            (l.disk.backup)
            (l.checkpoint_needed)
            new
            (write_file c [] (l.disk.texts)))
          (c + 1)
          none
          (l.checkpoint_needed)
          []
stopped_log i new l (a, s, n, u) h f w =
    ap (λ x. (checkpoint_round new x).1)
      (λ j. record {
        disk = record {
          active = a j;
          backup = l.disk.backup;
          checkpoint = h j;
          texts = l.disk.texts;
          next = l.disk.next;
        };
        logstream = s j;
        checkpoint_needed = l.checkpoint_needed;
        first_checkpoint = l.first_checkpoint;
        script = w j;
      })
    ∙ ap (λ r. r.1)
        (stopped_lem i (l.disk.next) (l.disk.backup) (l.disk.texts) (l.checkpoint_needed)
          (l.first_checkpoint) new f)

-- A process is killed in a checkpoint when the new database is the active file and only the
-- checkpoint file's name is still to be unlinked. The next process opens the log and is killed when
-- it has opened the checkpoint file of its own first checkpoint. Then the active file is empty: both
-- names were the same file. The backup still has the database from before both checkpoints.
pub restarted-empty :
    (i : ℕ) (new newer : Str) (l : Log)
    → IsOpen i l
    → l.disk.checkpoint ≡ none
    → (l.checkpoint_needed || l.first_checkpoint) ≡ true
    → l.script ≡ works_to_unlink new
    → let stopped = (checkpoint_round new l).1.disk in
      let lost = (restarted newer ((checkpoint_round new l).1)).1.disk in
      ((c : ℕ) × (stopped.active ≡ some c)
        × (stopped.texts c ≡ new)
        × (lost.active ≡ some c)
        × (lost.texts c ≡ []))
      × (lost.backup ≡ some i)
      × (lost.texts i ≡ l.disk.texts i)
restarted-empty i new newer l o h f w =
    let c = l.disk.next in
    let before = write_file c [] (l.disk.texts) in
    let written = typed i c (c + 1) (l.disk.backup) (l.checkpoint_needed) new before in
    let below : i < c = o.2 in
    let apart : (i == c) ≡ false = ground (arith, below) in
    let here : (c == c) ≡ true = ground arith in
    let empty : before c ≡ [] = rw here refl in
    let kept : before i ≡ l.disk.texts i = rw apart refl in
    let old : written i ≡ l.disk.texts i =
      typed-other i c (c + 1) (l.disk.backup) (l.checkpoint_needed) new before apart ∙ kept in
    let stop = stopped_log i new l o h f w in
    let lost =
      ap (λ x. (restarted newer x).1) stop
      ∙ ap (λ r. r.1) (restarted_lem c i (c + 1) written (l.checkpoint_needed) newer) in
    let truncated : write_file c [] written c ≡ [] = rw here refl in
    let still : write_file c [] written i ≡ written i = rw apart refl in
    (
      (
        c,
        ap (λ x. x.disk.active) stop,
        ap (λ x. x.disk.texts c) stop
            ∙ typed-same i c (c + 1) (l.disk.backup) (l.checkpoint_needed) new before
            ∙ ap (λ t. t ++ new) empty,
        ap (λ x. x.disk.active) lost,
        ap (λ x. x.disk.texts c) lost ∙ truncated,
      ),
      ap (λ x. x.disk.backup) lost,
      ap (λ x. x.disk.texts i) lost ∙ still ∙ old,
    )
