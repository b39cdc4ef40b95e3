-- ===== src/Log/Checkpoint/Completion.antt =====
-- Checkpoints whose calls all work.
use omni_events.Prelude.{
  ℕ, ◌+◌, ◌≡◌, refl, sym, ap, subst, ◌∙◌, map, Bool, ◌||◌, true, false, Option, none, some, List,
  [], ◌∷◌, ◌++◌,
}
use omni_events.Prelude.Text.{Str}
use omni_events.Log.{
  Log, value, system, write_file, write_checkpoint, completed, commit, checkpoint_round,
}
use omni_events.Log.Checkpoint.{checkpoint_round-Comes}
use omni_events.Log.Checkpoint.Writes.{IsOpen, running}
use omni_events.Log.Checkpoint.Phases.{
  Comes, phases, after_prepare, after_write, after_commit, after_write-value, bound_commit,
  phases-opened,
}

-- The calls of a round work: one opens the file, one writes each character, one closes it, and six
-- commit it.
abbrev pub works : Str → List Bool → List Bool
works text rest =
    true ∷ (map (λ _. true) text ++ true ∷ true ∷ true ∷ true ∷ true ∷ true ∷ true ∷ rest)

commit_works :
    (i c next : ℕ) (b : Option ℕ) (needed : Bool) (texts : ℕ → Str) (rest : List Bool)
    → (after_commit (
        commit (
          running
            (some i)
            b
            (some c)
            texts
            next
            (some i)
            needed
            (true ∷ true ∷ true ∷ true ∷ true ∷ true ∷ rest)))).0
      ≡ value completed
unfolding commit system
commit_works i c next none needed texts rest = refl
commit_works i c next (some g) needed texts rest = refl

module _ (i c next : ℕ) (b : Option ℕ) (needed : Bool) where
  abbrev pub typed : Str → (ℕ → Str) → ℕ → Str
  typed [] texts = texts
  typed (x ∷ text) texts = typed text (write_file c (texts c ++ x ∷ []) texts)

  pub write_works :
      (text : Str) (texts : ℕ → Str) (rest : List Bool)
      → write_checkpoint text (
          running
            (some i)
            b
            (some c)
            texts
            next
            (some i)
            needed
            (map (λ _. true) text ++ true ∷ rest))
        ≡ (value tt, running (some i) b (some c) (typed text texts) next (some i) needed rest)
  unfolding write_checkpoint system
  write_works [] texts rest = refl
  write_works (x ∷ text) texts rest = write_works text (write_file c (texts c ++ x ∷ []) texts) rest

  completes :
      (texts : ℕ → Str) (rest : List Bool) (l : Log)
      → let k =
          running
            (some i)
            b
            (some c)
            texts
            next
            (some i)
            needed
            (true ∷ true ∷ true ∷ true ∷ true ∷ true ∷ rest) in
        (after_prepare (value true, k)).0 ≡ value completed
  completes texts rest l =
      let k =
        running (some i) b (some c) texts next (some i) needed
          (true ∷ true ∷ true ∷ true ∷ true ∷ true ∷ rest) in
      ap (λ r. r.0) (bound_commit (commit k) k) ∙ commit_works i c next b needed texts rest

  written_works :
      (text : Str) (texts : ℕ → Str) (rest : List Bool)
      → (after_prepare (
          after_write (
            write_checkpoint text (
              running (some i) b (some c) texts next (some i) needed (
                map (λ _. true) text ++ true ∷ true ∷ true ∷ true ∷ true ∷ true ∷ true ∷ rest))))).0
        ≡ value completed
  written_works text texts rest =
      let six = true ∷ true ∷ true ∷ true ∷ true ∷ true ∷ rest in
      let k = running (some i) b (some c) (typed text texts) next (some i) needed six in
      ap (λ r. (after_prepare (after_write r)).0) (write_works text texts six)
      ∙ ap (λ r. (after_prepare r).0) (after_write-value k)
      ∙ completes (typed text texts) rest k

phases-works :
    (i next : ℕ) (b ck : Option ℕ) (texts : ℕ → Str) (needed : Bool) (text : Str) (rest : List Bool)
    → (phases text (running (some i) b ck texts next (some i) needed (works text rest))).0
      ≡ value completed
unfolding system
phases-works i next b none texts needed text rest =
    let script = works text rest in
    let more = map (λ _. true) text ++ true ∷ true ∷ true ∷ true ∷ true ∷ true ∷ true ∷ rest in
    ap (λ r. r.0)
      (phases-opened text (running (some i) b none texts next (some i) needed script)
        (running (some i) b (some next) (write_file next [] texts) (next + 1) (some i) needed more)
        refl)
    ∙ written_works i next (next + 1) b needed text (write_file next [] texts) rest
phases-works i next b (some c) texts needed text rest =
    let script = works text rest in
    let more = map (λ _. true) text ++ true ∷ true ∷ true ∷ true ∷ true ∷ true ∷ true ∷ rest in
    ap (λ r. r.0)
      (phases-opened text (running (some i) b (some c) texts next (some i) needed script)
        (running (some i) b (some c) (write_file c [] texts) next (some i) needed more) refl)
    ∙ written_works i c next b needed text (write_file c [] texts) rest

round_works :
    (i next : ℕ) (b ck : Option ℕ) (texts : ℕ → Str) (needed first : Bool) (text : Str)
    (rest : List Bool)
    → (needed || first) ≡ true
    → let l : Log = record {
      disk = record { active = some i; backup = b; checkpoint = ck; texts = texts; next = next };
      logstream = some i;
      checkpoint_needed = needed;
      first_checkpoint = first;
      script = works text rest;
    } in
      (checkpoint_round text l).0 ≡ value completed
unfolding checkpoint_round
round_works i next b ck texts false false text rest h = cc
round_works i next b ck texts needed true text rest h =
    phases-works i next b ck texts needed text rest
round_works i next b ck texts true false text rest h = phases-works i next b ck texts true text rest

-- A round whose calls of the system all work completes, if it is the first one or a checkpoint is
-- needed: the log then is open on a new active file that has the new database.
pub checkpoint_round-works :
    (i : ℕ) (new : Str) (l : Log) (rest : List Bool)
    → IsOpen i l
    → (l.checkpoint_needed || l.first_checkpoint) ≡ true
    → l.script ≡ works new rest
    → let r = checkpoint_round new l in
      (r.0 ≡ value completed) × ((c : ℕ) × IsOpen c (r.1) × (r.1.disk.texts c ≡ new))
checkpoint_round-works i new l rest o h w =
    let (a, s, n, c) = o in
    let done : (checkpoint_round new l).0 ≡ value completed =
      subst (λ x. (checkpoint_round new x).0 ≡ value completed)
        (λ j. record {
          disk = record {
            active = sym a j;
            backup = l.disk.backup;
            checkpoint = l.disk.checkpoint;
            texts = l.disk.texts;
            next = l.disk.next;
          };
          logstream = sym s j;
          checkpoint_needed = l.checkpoint_needed;
          first_checkpoint = l.first_checkpoint;
          script = sym w j;
        })
        (round_works i (l.disk.next) (l.disk.backup) (l.disk.checkpoint) (l.disk.texts)
          (l.checkpoint_needed) (l.first_checkpoint) new rest h) in
    (
      done,
      (subst (λ x. Comes i (l.disk.texts i) new l (x, (checkpoint_round new l).1)) done
          (checkpoint_round-Comes i new l o)).0,
    )
