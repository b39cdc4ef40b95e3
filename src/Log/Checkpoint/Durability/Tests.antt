-- ===== src/Log/Checkpoint/Durability/Tests.antt =====
-- A server that writes a node, gives up a checkpoint, erases the node and ends in the next checkpoint.
use omni_events.Prelude.{
  ◌≡◌, ◌==◌, refl, true, false, Bool, none, some, List, [], ◌∷◌, ◌++◌, arith, if◌then◌else◌,
}
use omni_events.Prelude.Text.{codes, compare_str}
use omni_events.PersistNode.{
  addattr, empty_node, find_child, set_child, erase_child, split_name, delnode, delete_path,
}
use omni_events.PersistNode.Paths.{update_path}
use omni_events.PersistNode.Text.{output_attrs}
use omni_events.Journal.{
  Line, put, block, drop, blank, journal_text, line_text, line_attrs, apply_line, apply_lines,
}
use omni_events.Journal.Replay.{GoodLine}
use omni_events.Log.{Log, system, checkpoint_round, prepare, commit, write_checkpoint, write_lock}
use omni_events.Log.Checkpoint.Writes.{IsOpen}
use omni_events.Log.Checkpoint.Durability.{Event, write, round, run, Faithful, Holds, run-Holds}

abbrev first : List Line
first = block (codes "e") ((codes "p", codes "5") ∷ []) ∷ []

abbrev events : List Event
events =
    write (put (codes "e/b") [])
    ∷ round (first ++ put (codes "e/b") [] ∷ blank ∷ [])
    ∷ write (drop (codes "e/b"))
    ∷ round (first ++ blank ∷ [])
    ∷ write (put (codes "e/c") [])
    ∷ []

abbrev server : List Bool → Log
server script = record {
  disk = record {
    active = some 0;
    backup = none;
    checkpoint = none;
    texts = λ n. if n == 0 then codes "e\n p=5\n ;;\n" else [];
    next = 1;
  };
  logstream = some 0;
  checkpoint_needed = true;
  first_checkpoint = true;
  script = script;
}

-- The first checkpoint fails at its second character. The second writes its twelve characters, and is
-- killed when it has removed the active name.
abbrev calls : List Bool
calls =
    true ∷ true ∷ false ∷ true ∷ true ∷ true ∷ true ∷ true ∷ true ∷ true ∷ true ∷ true ∷ true ∷ true
    ∷ true ∷ true ∷ true ∷ true ∷ false ∷ true ∷ true ∷ []

server-IsOpen : IsOpen 0 (server calls)
server-IsOpen = (refl, refl, omega arith, λ c e. cc)

first-GoodLine : GoodLine (block (codes "e") ((codes "p", codes "5") ∷ []))
first-GoodLine = ((refl, refl, refl), (refl, tt), ((refl, tt), refl, (refl, tt), tt))

child-GoodLine : GoodLine (put (codes "e/b") [])
child-GoodLine = ((refl, refl, refl), (refl, (refl, (refl, tt))), tt)

events-Faithful : Faithful (apply_lines first empty_node) events
unfolding apply_lines apply_line split_name update_path find_child set_child erase_child compare_str
    delnode delete_path addattr
events-Faithful = (
  child-GoodLine,
  (
    (first-GoodLine, (child-GoodLine, (tt, tt))),
    refl,
    ((refl, (refl, (refl, tt))), ((first-GoodLine, (tt, tt)), refl, (child-GoodLine, tt))),
  ),
)

-- The last write is not reached, and the backup is what is left.
run_lem :
    let (xs, k) = run events (server calls) in
    (xs ≡ put (codes "e/b") [] ∷ drop (codes "e/b") ∷ [])
    × (k.disk.active ≡ none)
    × (k.disk.backup ≡ some 0)
unfolding run checkpoint_round prepare commit system write_checkpoint write_lock line_text
    line_attrs journal_text output_attrs
run_lem = (refl, refl, refl)

run-Holds_example :
    let (xs, k) = run events (server calls) in Holds (apply_lines (first ++ xs) empty_node) (k.disk)
unfolding journal_text line_text line_attrs output_attrs
run-Holds_example =
    run-Holds 0 first events (server calls) server-IsOpen refl (first-GoodLine, tt) events-Faithful
