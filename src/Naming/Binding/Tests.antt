-- ===== src/Naming/Binding/Tests.antt =====
-- A name of two components in a naming service without bindings.
use omni_events.Prelude.{◌≡◌, none, some, [], ◌∷◌}
use omni_events.Prelude.Text.{codes}
use omni_events.Naming.{NameComponent}
use omni_events.Naming.Binding.{Ends, returned, bind_name_2_object, bind_name_2_object-Ends}
use omni_events.Naming.Binding.Examples.{Table, tables, tables_lawful}

abbrev events : NameComponent
events = record { id = codes "events"; kind = [] }

abbrev factory : NameComponent
factory = record { id = codes "EventChannelFactory"; kind = codes "EventChannelFactory" }

abbrev nothing : Table
nothing = record { at = λ x n. none; next = 1 }

bind_name_2_object-Ends_example :
    Ends tables tables_lawful 0 events
      (factory ∷ [])
      7
      nothing
      (bind_name_2_object tables (some 0) (events ∷ factory ∷ []) 7 nothing)
    × (bind_name_2_object tables none (events ∷ factory ∷ []) 7 nothing ≡ (returned 1, nothing))
bind_name_2_object-Ends_example =
    bind_name_2_object-Ends tables tables_lawful 0 events (factory ∷ []) 7 nothing
