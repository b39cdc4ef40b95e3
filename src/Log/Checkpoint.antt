-- ===== src/Log/Checkpoint.antt =====
-- What a checkpoint leaves on the disk: checkpoint() of src/omniEventsLog.cc, whatever its calls come to
-- and wherever the process ends.
mod Writes
mod Phases
mod Tests
mod Completion
mod Hazards
mod Durability
use omni_events.Prelude.{
  ℕ, suc, ◌+◌, ◌<◌, ◌≡◌, refl, sym, ap, subst, ◌∙◌, ◌==◌, map, Option-cases, Bool, true, false, not,
  ◌&&◌, Option, none, some, List, [], ◌∷◌, ◌++◌, if◌then◌else◌, arith, ◌⊎◌, inl, inr,
}
use mathlib.Core.List.{append_assoc, append-nil}
use omni_events.Prelude.Text.{Str, codes}
use omni_events.Log.{
  Disk, Log, Reply, value, io_error, exited, killed, Action, ◌>>=◌, ◌>>◌, system, write_file,
  put_char, truncate_checkpoint, write_checkpoint, unlink_checkpoint, unlink_backup, unlink_active,
  link_backup, link_active, open_logstream, ignored, or_exit, close_logstream, Round, idle,
  abandoned, completed, prepare, commit, checkpoint_round,
}
use Writes.{IsOpen, running, writing}
use Phases.{Comes, phases_lem}

round_lem :
    (i next : ℕ) (b ck : Option ℕ) (texts : ℕ → Str) (needed first : Bool) (script : List Bool)
    (old new : Str)
    → i < next
    → ((c : ℕ) → ck ≡ some c → ((i == c) ≡ false) × (c < next))
    → texts i ≡ old
    → let l : Log = record {
      disk = record { active = some i; backup = b; checkpoint = ck; texts = texts; next = next };
      logstream = some i;
      checkpoint_needed = needed;
      first_checkpoint = first;
      script = script;
    } in
      Comes i old new l (checkpoint_round new l)
unfolding checkpoint_round
round_lem i next b ck texts false false script old new h d o = refl
round_lem i next b ck texts needed true script old new h d o =
    phases_lem i next b ck texts needed script old new _ h d o refl refl
round_lem i next b ck texts true false script old new h d o =
    phases_lem i next b ck texts true script old new _ h d o refl refl

-- A round of the checkpoint loop, on a log whose active file is open and is not the checkpoint file,
-- whatever calls of the system fail and wherever the process is killed. A completed round leaves the
-- new database as the active file, open for the log, the old one as the backup, no checkpoint file
-- and no checkpoint needed. An abandoned round leaves the active file, the backup and the mark that a
-- checkpoint is needed as they were. Where the process ends, the old database or the new one is whole
-- as the active file, or the old one as the backup where no active file is left. An error goes no
-- further. The log stays open on an active file that is not the checkpoint file.
pub checkpoint_round-Comes :
    (i : ℕ) (new : Str) (l : Log)
    → IsOpen i l
    → Comes i (l.disk.texts i) new l (checkpoint_round new l)
checkpoint_round-Comes i new l (a, s, n, c) =
    subst (λ x. Comes i (l.disk.texts i) new x (checkpoint_round new x))
      (λ j. record {
        disk = record {
          active = sym a j;
          backup = l.disk.backup;
          checkpoint = l.disk.checkpoint;
          texts = l.disk.texts;
          next = l.disk.next;
        };
        logstream = sym s j;
        checkpoint_needed = l.checkpoint_needed;
        first_checkpoint = l.first_checkpoint;
        script = l.script;
      })
      (round_lem i (l.disk.next) (l.disk.backup) (l.disk.checkpoint) (l.disk.texts)
        (l.checkpoint_needed) (l.first_checkpoint) (l.script) (l.disk.texts i) new n c refl)
