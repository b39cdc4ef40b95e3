-- ===== src/Log/Checkpoint/Durability.antt =====
-- The database of a running server: the lines of WriteLocks and the checkpoints between them
-- (src/omniEventsLog.cc, src/omniEventsLog.h), one after the other, until the process ends.
mod Tests
use omni_events.Prelude.{
  ==_refl, ℕ, ◌≡◌, refl, sym, ap, subst, ◌∙◌, Option, none, some, List, [], ◌∷◌, ◌++◌, ◌⊎◌, inl,
  inr,
}
use omni_events.Prelude.Text.{Str}
use omni_events.PersistNode.{PersistNode, empty_node}
use omni_events.PersistNode.Text.{parse}
use omni_events.Journal.{Line, line_text, journal_text, apply_line, apply_lines}
use omni_events.Journal.Append.{
  journal_text-snoc, apply_lines-snoc, apply_lines-append, GoodLines-snoc,
}
use omni_events.Journal.Replay.{GoodLine, GoodLines}
use omni_events.Journal.Settled.{parse-journal_text}
use omni_events.Log.{
  Disk, Log, Reply, value, io_error, exited, killed, Round, idle, abandoned, completed, write_file,
  write_lock, checkpoint_round,
}
use omni_events.Log.Checkpoint.{checkpoint_round-Comes}
use omni_events.Log.Checkpoint.Phases.{Comes}
use omni_events.Log.Checkpoint.Writes.{IsOpen, Survives}

-- A WriteLock that writes a line, and a round of the checkpoint loop in which output() gives lines.
pub data Event : Type 0 where
  write : Line → Event
  round : List Line → Event

-- What comes after a round: the rest of the events, or nothing where the process has ended.
abbrev pub after_round : (Log → List Line × Log) → Reply Round × Log → List Line × Log
after_round rest (value a, l) = rest l
after_round rest (io_error, l) = ([], l)
after_round rest (exited, l) = ([], l)
after_round rest (killed, l) = ([], l)

-- The lines that were written, and the log where the events or the process ended.
unfoldable pub run : List Event → Log → List Line × Log
unfolding write_lock checkpoint_round line_text journal_text
run [] l = ([], l)
run (write x ∷ es) l = let (xs, k) = run es (write_lock (line_text x []) l) in (x ∷ xs, k)
run (round ds ∷ es) l = after_round (run es) (checkpoint_round (journal_text ds []) l)

-- In each round output() writes the state that the lines up to then have made.
abbrev pub Faithful : PersistNode → List Event → Type 0
Faithful root [] = Unit {0}
Faithful root (write x ∷ es) = GoodLine x × Faithful (apply_line x root) es
Faithful root (round ds ∷ es) = GoodLines ds × (apply_lines ds empty_node ≡ root) × Faithful root es

-- The file that a server is started from, the active one or else the backup, is read as the tree.
abbrev pub Holds : PersistNode → Disk → Type 0
Holds root d =
    ((f : ℕ) × (d.active ≡ some f) × (parse (d.texts f) ≡ some root))
    ⊎ ((d.active ≡ none) × ((f : ℕ) × (d.backup ≡ some f) × (parse (d.texts f) ≡ some root)))

-- The log is open on a file whose text is a journal of the tree.
abbrev Keeps : PersistNode → Log → Type 0
Keeps root l =
    (i : ℕ) × ((ls : List Line) × IsOpen i l
      × (l.disk.texts i ≡ journal_text ls [])
      × GoodLines ls
      × (apply_lines ls empty_node ≡ root))

parse-lines :
    (ls : List Line) (root : PersistNode) (s : Str)
    → GoodLines ls
    → apply_lines ls empty_node ≡ root
    → s ≡ journal_text ls []
    → parse s ≡ some root
parse-lines ls root s g t e = ap parse e ∙ parse-journal_text ls g ∙ ap some t

Keeps-Holds : (root : PersistNode) (l : Log) → Keeps root l → Holds root (l.disk)
Keeps-Holds root l (i, (ls, o, e, g, t)) = inl (i, o.0, parse-lines ls root _ g t e)

Survives-Holds :
    (root : PersistNode) (ls ds : List Line) (d : Disk)
    → GoodLines ls
    → apply_lines ls empty_node ≡ root
    → GoodLines ds
    → apply_lines ds empty_node ≡ root
    → Survives (journal_text ls []) (journal_text ds []) d
    → Holds root d
Survives-Holds root ls ds d g t h u (inl (f, a, inl old)) =
    inl (f, a, parse-lines ls root _ g t old)
Survives-Holds root ls ds d g t h u (inl (f, a, inr new)) =
    inl (f, a, parse-lines ds root _ h u new)
Survives-Holds root ls ds d g t h u (inr (a, (f, b, old))) =
    inr (a, (f, b, parse-lines ls root _ g t old))

write_lock-Keeps :
    (root : PersistNode) (x : Line) (l : Log)
    → GoodLine x
    → Keeps root l
    → Keeps (apply_line x root) (write_lock (line_text x []) l)
unfolding write_lock
write_lock-Keeps root x l h (i, (ls, o, e, g, t)) = rw (o.1) (
  i,
  (
    ls ++ x ∷ [],
    (o.0, o.1, o.2, o.3),
    rw (==_refl i) (ap (λ s. s ++ line_text x []) e ∙ journal_text-snoc ls x),
    GoodLines-snoc ls x g h,
    apply_lines-snoc ls x empty_node ∙ ap (apply_line x) t,
  ),
)

-- After the events, the disk has the tree that the written lines make of `root`.
abbrev Ending : PersistNode → List Line × Log → Type 0
Ending root (xs, k) = Holds (apply_lines xs root) (k.disk)

round-Ending :
    (root : PersistNode) (ls ds : List Line) (i : ℕ) (l : Log) (rest : Log → List Line × Log)
    (r : Reply Round × Log)
    → ((k : Log) → Keeps root k → Ending root (rest k))
    → Keeps root l
    → GoodLines ls
    → apply_lines ls empty_node ≡ root
    → GoodLines ds
    → apply_lines ds empty_node ≡ root
    → Comes i (journal_text ls []) (journal_text ds []) l r
    → Ending root (after_round rest r)
unfolding apply_lines
round-Ending root ls ds i l rest (value idle, k) ih h g t m u c =
    ih k (subst (λ x. Keeps root x) (sym c) h)
round-Ending root ls ds i l rest (value abandoned, k) ih h g t m u c =
    ih k (i, (ls, c.0, c.1, g, t))
round-Ending root ls ds i l rest (value completed, k) ih h g t m u c =
    let (j, o, e) = c.0 in ih k (j, (ds, o, e, m, u))
round-Ending root ls ds i l rest (io_error, k) ih h g t m u c = elim c [ ]
round-Ending root ls ds i l rest (exited, k) ih h g t m u c =
    Survives-Holds root ls ds (k.disk) g t m u c
round-Ending root ls ds i l rest (killed, k) ih h g t m u c =
    Survives-Holds root ls ds (k.disk) g t m u c

run-Ending :
    (es : List Event) (root : PersistNode) (l : Log)
    → Keeps root l
    → Faithful root es
    → Ending root (run es l)
unfolding run apply_lines
run-Ending [] root l h f = Keeps-Holds root l h
run-Ending (write x ∷ es) root l h f =
    run-Ending es (apply_line x root) (write_lock (line_text x []) l)
      (write_lock-Keeps root x l (f.0) h) (f.1)
run-Ending (round ds ∷ es) root l (i, (ls, o, e, g, t)) f =
    round-Ending root ls ds i l (run es) (checkpoint_round (journal_text ds []) l)
      (λ k h. run-Ending es root k h f.2) (i, (ls, o, e, g, t)) g t f.0 f.1
      (subst (λ s. Comes i s (journal_text ds []) l (checkpoint_round (journal_text ds []) l)) e
        (checkpoint_round-Comes i (journal_text ds []) l o))

-- A log that is open on an active file that is not the checkpoint file and holds a journal, as
-- WriteLocks append lines to it and checkpoints run between them whose output() is lines of the state that
-- the writes up to then have made. All lines, of nodes of one line and of several, have names, keys
-- and values without separators of the format. Whatever calls of the checkpoints fail, and wherever in one
-- the process ends, the active file, or the backup where there is no active file, is read back as
-- the tree of the journal with all the lines that were written.
pub run-Holds :
    (i : ℕ) (ls : List Line) (es : List Event) (l : Log)
    → IsOpen i l
    → l.disk.texts i ≡ journal_text ls []
    → GoodLines ls
    → Faithful (apply_lines ls empty_node) es
    → let (xs, k) = run es l in Holds (apply_lines (ls ++ xs) empty_node) (k.disk)
run-Holds i ls es l o e g f =
    let (xs, k) = run es l in
    subst (λ root. Holds root (k.disk)) (sym (apply_lines-append ls xs empty_node))
      (run-Ending es (apply_lines ls empty_node) l (i, (ls, o, e, g, refl)) f)
