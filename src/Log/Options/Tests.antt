-- ===== src/Log/Options/Tests.antt =====
-- A first start with an end point and the usual port, and later ones.
use omni_events.Prelude.{ℕ, ◌≡◌, refl, Bool, false, Option, some}
use omni_events.Prelude.Text.{Str, codes}
use omni_events.Log.{bootstrap}
use omni_events.Log.Options.{missing, holds, starts, initial_state, later, initial_state-later}

initial_state-later_example :
    (initial_state 0 (some (codes "giop:tcp::9")) missing false
      ≡ starts 11169 (codes "giop:tcp::9"))
    × ((q : ℕ) (e : Option Str) (backup : Bool)
        → initial_state q e (holds (bootstrap 11169 (codes "giop:tcp::9"))) backup
          ≡ later 11169 (codes "giop:tcp::9") q e)
initial_state-later_example = initial_state-later 0 (some (codes "giop:tcp::9")) refl
