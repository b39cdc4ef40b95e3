-- ===== src/Journal/Settled/Tests.antt =====
-- A journal that begins as a server's does, with the factory's record and a channel's, and then writes and
-- erases a proxy's, with an empty line between them.
use omni_events.Prelude.{◌≡◌, refl, some, List, [], ◌∷◌, arith}
use omni_events.Prelude.Text.{codes}
use omni_events.PersistNode.{empty_node}
use omni_events.PersistNode.Text.{parse}
use omni_events.Journal.{Line, put, block, drop, blank, journal_text, apply_lines}
use omni_events.Journal.Replay.{GoodLine}
use omni_events.Journal.Settled.{parse-journal_text}

abbrev lines : List Line
lines =
    put (codes "ecf") ((codes "port", codes "1") ∷ (codes "endPointNoListen", codes "x") ∷ [])
    ∷ block (codes "ecf/ch") ((codes "CyclePeriod_ns", codes "9") ∷ [])
    ∷ blank
    ∷ put (codes "ecf/ch/a") []
    ∷ drop (codes "ecf/ch/a")
    ∷ []

factory_line-GoodLine :
    GoodLine
      (put (codes "ecf") ((codes "port", codes "1") ∷ (codes "endPointNoListen", codes "x") ∷ []))
factory_line-GoodLine = (
  (refl, refl, refl),
  ground arith,
  (ground arith, refl, ground arith, (ground arith, refl, ground arith, tt)),
)

channel_block-GoodLine :
    GoodLine (block (codes "ecf/ch") ((codes "CyclePeriod_ns", codes "9") ∷ []))
channel_block-GoodLine = ((refl, refl, refl), ground arith, (ground arith, refl, ground arith, tt))

parse-journal_text_example : parse (journal_text lines []) ≡ some (apply_lines lines empty_node)
parse-journal_text_example = parse-journal_text lines (
  factory_line-GoodLine,
  (channel_block-GoodLine, (tt, (((refl, refl, refl), ground arith, tt), (ground arith, tt)))),
)
