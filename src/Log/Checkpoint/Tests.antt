-- ===== src/Log/Checkpoint/Tests.antt =====
-- Checkpoints of a small log.
use omni_events.Prelude.{
  ℕ, ◌≡◌, ◌==◌, refl, true, false, Bool, none, some, List, [], ◌∷◌, arith, if◌then◌else◌,
}
use omni_events.Prelude.Text.{Str, codes}
use omni_events.Log.{Log, value, completed, checkpoint_round}
use omni_events.Log.Checkpoint.{checkpoint_round-Comes}
use omni_events.Log.Checkpoint.Writes.{IsOpen}
use omni_events.Log.Checkpoint.Phases.{Comes}
use omni_events.Log.Checkpoint.Completion.{works, checkpoint_round-works}
use omni_events.Log.Checkpoint.Hazards.{works_to_unlink, restarted, restarted-empty}

abbrev old : Str
old = codes "ecf ;;"

abbrev new : Str
new = codes "ecf a=1 ;;"

abbrev server : List Bool → Log
server script = record {
  disk = record {
    active = some 0;
    backup = none;
    checkpoint = none;
    texts = λ n. if n == 0 then old else [];
    next = 1;
  };
  logstream = some 0;
  checkpoint_needed = true;
  first_checkpoint = false;
  script = script;
}

server-IsOpen : (script : List Bool) → IsOpen 0 (server script)
server-IsOpen script = (refl, refl, omega arith, λ c e. cc)

-- The third character is not written.
checkpoint_round-Comes_example :
    Comes 0 old new
      (server (true ∷ true ∷ true ∷ false ∷ true ∷ []))
      (checkpoint_round new (server (true ∷ true ∷ true ∷ false ∷ true ∷ [])))
checkpoint_round-Comes_example =
    checkpoint_round-Comes 0 new (server (true ∷ true ∷ true ∷ false ∷ true ∷ []))
      (server-IsOpen (true ∷ true ∷ true ∷ false ∷ true ∷ []))

checkpoint_round-works_example :
    let r = checkpoint_round new (server (works new [])) in
    (r.0 ≡ value completed) × ((c : ℕ) × IsOpen c (r.1) × (r.1.disk.texts c ≡ new))
checkpoint_round-works_example =
    checkpoint_round-works 0 new (server (works new [])) [] (server-IsOpen (works new [])) refl refl

restarted-empty_example :
    let stopped = (checkpoint_round new (server (works_to_unlink new))).1.disk in
    let lost = (restarted old ((checkpoint_round new (server (works_to_unlink new))).1)).1.disk in
    ((c : ℕ) × (stopped.active ≡ some c)
      × (stopped.texts c ≡ new)
      × (lost.active ≡ some c)
      × (lost.texts c ≡ []))
    × (lost.backup ≡ some 0)
    × (lost.texts 0 ≡ old)
restarted-empty_example =
    restarted-empty 0 new old (server (works_to_unlink new)) (server-IsOpen (works_to_unlink new))
      refl refl refl
