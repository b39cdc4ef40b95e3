-- ===== src/EventChannel/Examples.antt =====
-- The administration objects that the channels of the tests have.
use omni_events.Prelude.{ℕ, List, [], ◌∷◌, ◌++◌}
use omni_events.Prelude.Text.{codes}
use omni_events.Proxy.{ok}
use omni_events.EventChannel.{Admins}

-- Admins that keep the events that wait, and those that were sent.
abbrev pub admins : Admins (List ℕ) (List ℕ) ℕ
admins = record {
  new_consumer_admin = λ n. [];
  new_supplier_admin = λ n. 4 ∷ [];
  reincarnate_suppliers = λ n s. s;
  reincarnate_consumers = λ n c. c;
  collect = λ s. (s, []);
  send = λ c es. c ++ es;
  disconnect_suppliers = λ s. (ok tt, s);
  disconnect_consumers = λ c. (ok tt, c);
  output_properties = λ n name. name ++ codes " ;;\n";
  output_suppliers = λ s. [];
  output_consumers = λ c. [];
}
