-- ===== src/Log/Checkpoint/Writes.antt =====
-- The two phases of a checkpoint, one after the other, with every way in which their calls can end.
use omni_events.Prelude.{
  ==_refl, ℕ, ◌<◌, ◌≡◌, refl, sym, ap, subst, ◌∙◌, ◌==◌, Bool, true, false, Option, none, some,
  List, [], ◌∷◌, ◌++◌, ◌⊎◌, inl, inr,
}
use mathlib.Core.List.{append_assoc, append-nil}
use omni_events.Prelude.Text.{Str}
use omni_events.Log.{
  Disk, Log, Reply, value, io_error, exited, killed, system, write_file, write_checkpoint, commit,
}

-- The disk has a whole database under a name that an operator restarts from: the active file with the
-- old state or the new one, or no active file and the old state as the backup.
abbrev pub Survives : Str → Str → Disk → Type 0
Survives old new d =
    ((f : ℕ) × (d.active ≡ some f) × ((d.texts f ≡ old) ⊎ (d.texts f ≡ new)))
    ⊎ ((d.active ≡ none) × ((f : ℕ) × (d.backup ≡ some f) × (d.texts f ≡ old)))

-- The log is open on the active file `i`, which the checkpoint file is not.
abbrev pub IsOpen : ℕ → Log → Type 0
IsOpen i l =
    (l.disk.active ≡ some i)
    × (l.logstream ≡ some i)
    × (i < l.disk.next)
    × ((c : ℕ) → l.disk.checkpoint ≡ some c → ((i == c) ≡ false) × (c < l.disk.next))

-- What holds of how an action ends, case by case.
abbrev pub Ends :
    {A : Type 0} → (A → Log → Type 0) → (Log → Type 0) → (Log → Type 0) → Reply A × Log → Type 0
Ends V X S (value a, l) = V a l
Ends V X S (io_error, l) = X l
Ends V X S (exited, l) = S l
Ends V X S (killed, l) = S l

abbrev pub Impossible : Log → Type 0
Impossible l = ⊥

-- The log while a checkpoint runs.
abbrev pub running :
    Option ℕ → Option ℕ → Option ℕ → (ℕ → Str) → ℕ → Option ℕ → Bool → List Bool → Log
running a b c texts next stream needed script = record {
  disk = record { active = a; backup = b; checkpoint = c; texts = texts; next = next };
  logstream = stream;
  checkpoint_needed = needed;
  first_checkpoint = false;
  script = script;
}

module _ (i c next : ℕ) (old new : Str) (needed : Bool) (texts : ℕ → Str) where
  abbrev pub Safe : Log → Type 0
  Safe l = Survives old new (l.disk)

  -- The checkpoint is the active file, and the old one the backup.
  abbrev pub Committed : Log → Type 0
  Committed l = (s : List Bool) × (l ≡ running (some c) (some i) none texts next (some c) false s)

  link_lem :
      (script : List Bool)
      → texts i ≡ old
      → texts c ≡ new
      → Ends
          (λ (_ : Unit {0}) l. Committed l)
          Impossible
          Safe
          (commit (running (some i) none (some c) texts next (some i) needed (false ∷ script)))
  unfolding commit system
  link_lem [] o n = inl (i, refl, inl o)
  link_lem (false ∷ s) o n = inl (i, refl, inl o)
  link_lem (true ∷ []) o n = inl (i, refl, inl o)
  link_lem (true ∷ false ∷ s) o n = inl (i, refl, inl o)
  link_lem (true ∷ true ∷ []) o n = inr (refl, (i, refl, o))
  link_lem (true ∷ true ∷ false ∷ s) o n = inr (refl, (i, refl, o))
  link_lem (true ∷ true ∷ true ∷ []) o n = inl (c, refl, inr n)
  link_lem (true ∷ true ∷ true ∷ false ∷ s) o n = inl (c, refl, inr n)
  link_lem (true ∷ true ∷ true ∷ true ∷ []) o n = inl (c, refl, inr n)
  link_lem (true ∷ true ∷ true ∷ true ∷ false ∷ s) o n = inl (c, refl, inr n)
  link_lem (true ∷ true ∷ true ∷ true ∷ true ∷ s) o n = (s, refl)

  pub commit_lem :
      (b : Option ℕ) (script : List Bool)
      → texts i ≡ old
      → texts c ≡ new
      → Ends
          (λ (_ : Unit {0}) l. Committed l)
          Impossible
          Safe
          (commit (running (some i) b (some c) texts next (some i) needed script))
  unfolding commit system
  commit_lem b [] o n = inl (i, refl, inl o)
  commit_lem none (false ∷ s) o n = link_lem s o n
  commit_lem none (true ∷ s) o n = link_lem s o n
  commit_lem (some g) (true ∷ s) o n = link_lem s o n
  commit_lem (some g) (false ∷ []) o n = inl (i, refl, inl o)
  commit_lem (some g) (false ∷ true ∷ s) o n = inl (i, refl, inl o)
  commit_lem (some g) (false ∷ false ∷ s) o n = inl (i, refl, inl o)

module _ (i c next : ℕ) (b : Option ℕ) (old new : Str) (needed : Bool) where
  abbrev pub writing : (ℕ → Str) → List Bool → Log
  writing texts s = running (some i) b (some c) texts next (some i) needed s

  -- The checkpoint file has some text, the active file its old one.
  abbrev pub Writes : Str → Log → Type 0
  Writes text l =
      (texts : ℕ → Str) × ((s : List Bool) × (l ≡ writing texts s)
        × (texts i ≡ old)
        × (texts c ≡ text))

  abbrev pub Stopped : Log → Type 0
  Stopped l = (text : Str) × Writes text l

  pub write_lem :
      (done text : Str) (texts : ℕ → Str) (script : List Bool)
      → (i == c) ≡ false
      → texts i ≡ old
      → texts c ≡ done
      → Ends
          (λ (_ : Unit {0}). Writes (done ++ text))
          Stopped
          (λ l. Survives old new (l.disk))
          (write_checkpoint text (writing texts script))
  unfolding write_checkpoint system
  write_lem done [] texts [] d o w = inl (i, refl, inl o)
  write_lem done [] texts (false ∷ s) d o w = (done, (texts, (s, refl, o, w)))
  write_lem done [] texts (true ∷ s) d o w = (texts, (s, refl, o, w ∙ sym (append-nil done)))
  write_lem done (x ∷ text) texts [] d o w = inl (i, refl, inl o)
  write_lem done (x ∷ text) texts (false ∷ s) d o w = (done, (texts, (s, refl, o, w)))
  write_lem done (x ∷ text) texts (true ∷ s) d o w =
      let more = write_file c (texts c ++ x ∷ []) texts in
      let kept : more i ≡ old = rw d o in
      let put : more c ≡ done ++ x ∷ [] = rw (==_refl c) (ap (λ t. t ++ x ∷ []) w) in
      subst
        (λ t.
          Ends (λ (_ : Unit {0}). Writes t) Stopped (λ l. Survives old new (l.disk))
            (write_checkpoint text (writing more s)))
        (append_assoc done (x ∷ []) text) (write_lem (done ++ x ∷ []) text more s d kept put)
