-- ===== src/Log/Checkpoint/Phases.antt =====
-- How a round of the checkpoint loop puts its phases together.
use omni_events.Prelude.{
  ==_refl, some-injective, ℕ, ◌+◌, ◌<◌, ◌≡◌, refl, sym, ap, subst, ◌∙◌, ◌==◌, Bool, true, false,
  Option, none, some, List, [], ◌∷◌, if◌then◌else◌, arith, inl,
}
use omni_events.Prelude.Text.{Str}
use omni_events.Log.{
  Log, Reply, value, io_error, exited, killed, Action, ◌>>=◌, ◌>>◌, system, write_file,
  truncate_checkpoint, write_checkpoint, unlink_checkpoint, ignored, Round, idle, abandoned,
  completed, prepare, commit,
}
use omni_events.Log.Checkpoint.Writes.{
  Survives, IsOpen, Ends, Impossible, running, Committed, commit_lem, writing, Writes, Stopped,
  write_lem,
}

-- What the checkpoint comes to, for a log that is open on the file `i`.
abbrev pub Comes : ℕ → Str → Str → Log → Reply Round × Log → Type 0
Comes i old new l (value idle, k) = k ≡ l
Comes i old new l (value abandoned, k) =
    IsOpen i k
    × (k.disk.texts i ≡ old)
    × (k.disk.backup ≡ l.disk.backup)
    × (k.checkpoint_needed ≡ l.checkpoint_needed)
Comes i old new l (value completed, k) =
    ((c : ℕ) × IsOpen c k × (k.disk.texts c ≡ new))
    × (k.disk.backup ≡ some i)
    × (k.disk.texts i ≡ old)
    × (k.disk.checkpoint ≡ none)
    × (k.checkpoint_needed ≡ false)
Comes i old new l (io_error, k) = ⊥
Comes i old new l (exited, k) = Survives old new (k.disk)
Comes i old new l (killed, k) = Survives old new (k.disk)

-- The rest of a round when phase 1 is over.
abbrev pub after_prepare : Reply Bool × Log → Reply Round × Log
after_prepare (value true, l) = (commit >>= λ _. λ k. (value completed, k)) l
after_prepare (value false, l) = (value abandoned, l)
after_prepare (io_error, l) = (io_error, l)
after_prepare (exited, l) = (exited, l)
after_prepare (killed, l) = (killed, l)

abbrev pub after_commit : Reply (Unit {0}) × Log → Reply Round × Log
after_commit (value a, l) = (value completed, l)
after_commit (io_error, l) = (io_error, l)
after_commit (exited, l) = (exited, l)
after_commit (killed, l) = (killed, l)

abbrev pub after_write : Reply (Unit {0}) × Log → Reply Bool × Log
unfolding system
after_write (value a, l) = (value true, l)
after_write (io_error, l) = (ignored (system unlink_checkpoint) >>= λ _. λ k. (value false, k)) l
after_write (exited, l) = (exited, l)
after_write (killed, l) = (killed, l)

pub bound_commit :
    (r : Reply (Unit {0}) × Log) (l : Log)
    → ((λ (_ : Log). r) >>= (λ _. λ k. (value completed, k))) l ≡ after_commit r
bound_commit (value a, k) l = refl
bound_commit (io_error, k) l = refl
bound_commit (exited, k) l = refl
bound_commit (killed, k) l = refl

-- The rest of a round, as checkpoint_round() has it.
abbrev pub rest_of_round : Bool → Action Round
rest_of_round written =
    if written then (commit >>= λ _. λ k. (value completed, k)) else λ k. (value abandoned, k)

bound_prepare :
    (r : Reply Bool × Log) (l : Log) → ((λ (_ : Log). r) >>= rest_of_round) l ≡ after_prepare r
bound_prepare (value true, k) l = refl
bound_prepare (value false, k) l = refl
bound_prepare (io_error, k) l = refl
bound_prepare (exited, k) l = refl
bound_prepare (killed, k) l = refl

abbrev pub caught_write : Reply (Unit {0}) × Log → Reply Bool × Log
unfolding system
caught_write p =
    let (r, next) = p in
    elim r [
      | value a ↦ (value true, next)
      | io_error ↦ (ignored (system unlink_checkpoint) >>= λ _. λ k. (value false, k)) next
      | exited ↦ (exited, next)
      | killed ↦ (killed, next)
    ]

bound_write : (r : Reply (Unit {0}) × Log) → caught_write r ≡ after_write r
unfolding system
bound_write (value a, k) = refl
bound_write (io_error, k) = refl
bound_write (exited, k) = refl
bound_write (killed, k) = refl

pub after_write-value : (l : Log) → after_write (value tt, l) ≡ (value true, l)
unfolding after_write
after_write-value l = refl

module _ (i c next : ℕ) (b : Option ℕ) (old new : Str) (needed : Bool) (l : Log) where
  committed :
      (texts : ℕ → Str) (r : Reply (Unit {0}) × Log)
      → c < next
      → texts i ≡ old
      → texts c ≡ new
      → Ends
          (λ (_ : Unit {0}) k. Committed i c next old new needed texts k)
          Impossible
          (λ k. Survives old new (k.disk))
          r
      → Comes i old new l (after_commit r)
  committed texts (value a, k) h o w (s, e) =
      subst (λ x. Comes i old new l (value completed, x)) (sym e)
        ((c, (refl, refl, h, λ d f. cc), w), refl, o, refl, refl)
  committed texts (io_error, k) h o w e = elim e [ ]
  committed texts (exited, k) h o w e = e
  committed texts (killed, k) h o w e = e

  gave_up :
      (texts : ℕ → Str) (s : List Bool)
      → i < next
      → c < next
      → (i == c) ≡ false
      → l.disk.backup ≡ b
      → l.checkpoint_needed ≡ needed
      → texts i ≡ old
      → Comes i old new l
          (after_prepare (after_write (io_error, writing i c next b old new needed texts s)))
  unfolding system
  gave_up texts [] h hc d eb en o = inl (i, refl, inl o)
  gave_up texts (false ∷ s) h hc d eb en o = (
    (
      refl,
      refl,
      h,
      λ x f. subst (λ y. ((i == y) ≡ false) × (y < next)) (some-injective c x f) (d, hc),
    ),
    o,
    sym eb,
    sym en,
  )
  gave_up texts (true ∷ s) h hc d eb en o = ((refl, refl, h, λ x f. cc), o, sym eb, sym en)

  written_lem :
      (r : Reply (Unit {0}) × Log)
      → i < next
      → c < next
      → (i == c) ≡ false
      → l.disk.backup ≡ b
      → l.checkpoint_needed ≡ needed
      → Ends
          (λ (_ : Unit {0}). Writes i c next b old new needed new)
          (Stopped i c next b old new needed)
          (λ k. Survives old new (k.disk))
          r
      → Comes i old new l (after_prepare (after_write r))
  unfolding system
  written_lem (value a, k) h hc d eb en (texts, (s, e, o, w)) =
      subst (λ x. Comes i old new l (after_prepare (value true, x))) (sym e)
        (subst (λ x. Comes i old new l x)
          (sym (bound_commit (commit (writing i c next b old new needed texts s)) l))
          (committed texts (commit (writing i c next b old new needed texts s)) hc o w
            (commit_lem i c next old new needed texts b s o w)))
  written_lem (io_error, k) h hc d eb en (text, (texts, (s, e, o, w))) =
      subst (λ x. Comes i old new l (after_prepare (after_write (io_error, x)))) (sym e)
        (gave_up texts s h hc d eb en o)
  written_lem (exited, k) h hc d eb en e = e
  written_lem (killed, k) h hc d eb en e = e

-- Both phases, from the opening of the checkpoint file.
abbrev pub phases : Str → Action Round
phases text = prepare text >>= rest_of_round

pub phases-opened :
    (text : Str) (l : Log) (k : Log)
    → (system truncate_checkpoint >> write_checkpoint text) l ≡ write_checkpoint text k
    → phases text l ≡ after_prepare (after_write (write_checkpoint text k))
unfolding prepare
phases-opened text l k e =
    bound_prepare (prepare text l) l
    ∙ ap (λ r. after_prepare (caught_write r)) e
    ∙ ap after_prepare (bound_write (write_checkpoint text k))

opened :
    (i c next : ℕ) (b : Option ℕ) (texts : ℕ → Str) (needed : Bool) (script : List Bool)
    (old new : Str) (l : Log)
    → i < next
    → c < next
    → (i == c) ≡ false
    → texts i ≡ old
    → l.disk.backup ≡ b
    → l.checkpoint_needed ≡ needed
    → Comes i old new l (
        after_prepare (
          after_write (
            write_checkpoint new
              (running (some i) b (some c) (write_file c [] texts) next (some i) needed script))))
opened i c next b texts needed script old new l h hc d o eb en =
    let kept : write_file c [] texts i ≡ old = rw d o in
    let empty : write_file c [] texts c ≡ [] = rw (==_refl c) refl in
    written_lem i c next b old new needed l _ h hc d eb en
      (write_lem i c next b old new needed [] new (write_file c [] texts) script d kept empty)

pub phases_lem :
    (i next : ℕ) (b ck : Option ℕ) (texts : ℕ → Str) (needed : Bool) (script : List Bool)
    (old new : Str) (l : Log)
    → i < next
    → ((c : ℕ) → ck ≡ some c → ((i == c) ≡ false) × (c < next))
    → texts i ≡ old
    → l.disk.backup ≡ b
    → l.checkpoint_needed ≡ needed
    → Comes i old new l (phases new (running (some i) b ck texts next (some i) needed script))
unfolding prepare system
phases_lem i next b ck texts needed [] old new l h d o eb en = inl (i, refl, inl o)
phases_lem i next b none texts needed (false ∷ []) old new l h d o eb en = inl (i, refl, inl o)
phases_lem i next b none texts needed (false ∷ false ∷ s) old new l h d o eb en =
    ((refl, refl, h, λ x f. cc), o, sym eb, sym en)
phases_lem i next b none texts needed (false ∷ true ∷ s) old new l h d o eb en =
    ((refl, refl, h, λ x f. cc), o, sym eb, sym en)
phases_lem i next b (some c) texts needed (false ∷ s) old new l h d o eb en =
    let e = d c refl in
    let start = running (some i) b (some c) texts next (some i) needed (false ∷ s) in
    subst (λ x. Comes i old new l x) (sym (bound_prepare (prepare new start) start))
      (gave_up i c next b old new needed l texts s h e.1 e.0 eb en o)
phases_lem i next b none texts needed (true ∷ s) old new l h d o eb en =
    subst (λ x. Comes i old new l x)
      (sym (
        phases-opened new (running (some i) b none texts next (some i) needed (true ∷ s))
          (running (some i) b (some next) (write_file next [] texts) (next + 1) (some i) needed s)
          refl))
      (opened i next (next + 1) b texts needed s old new l (omega (arith, h)) (omega arith)
        (ground (arith, h)) o eb en)
phases_lem i next b (some c) texts needed (true ∷ s) old new l h d o eb en =
    let e = d c refl in
    subst (λ x. Comes i old new l x)
      (sym (
        phases-opened new (running (some i) b (some c) texts next (some i) needed (true ∷ s))
          (running (some i) b (some c) (write_file c [] texts) next (some i) needed s) refl))
      (opened i c next b texts needed s old new l h e.1 e.0 o eb en)
