-- ===== src/Factory/Channels/Tests.antt =====
-- A factory that has just started, on an ORB without POAs.
use omni_events.Prelude.{ℕ, ◌≡◌, refl, some, inr, List, [], ◌∷◌}
use omni_events.Prelude.Text.{codes, str_eq}
use omni_events.PersistNode.{leaf}
use omni_events.EventChannel.Examples.{admins}
use omni_events.Factory.Channels.{
  the_factory, Factory, channel, channel_key, named, create_object, create_channel, join_channel,
  new_factory, restore,
}
use omni_events.Factory.Channels.Pointers.{Mapped}
use omni_events.Factory.Channels.Reachable.{here, next, created, join_channel-Mapped}
use omni_events.Factory.Channels.Names.{Refused, create_channel-taken}
use omni_events.Factory.Channels.Examples.{Tables, tables, tables_lawful}

abbrev running : Factory (List ℕ) (List ℕ) Tables
running = record {
  orb = record { poas = []; ids = (codes "omniEvents", the_factory) ∷ [] };
  count = 0;
  allocated = 0;
  channels = [];
}

new_factory_test : new_factory admins tables leaf (record { poas = []; ids = [] }) ≡ some running
unfolding new_factory restore
new_factory_test = refl

create_channel-taken_example :
    Refused tables_lawful
      (codes "omniEvents")
      running
      (create_channel admins tables 42 1000 (codes "omniEvents") running)
unfolding str_eq
create_channel-taken_example =
    create_channel-taken admins tables tables_lawful 42 1000 b'o' (codes "mniEvents") running
      (inr (the_factory, refl))

abbrev with_news : Factory (List ℕ) (List ℕ) Tables
with_news = (create_object admins tables 42 1000 channel_key (named (codes "news")) running).1

join_channel-Mapped_example :
    (join_channel tables (codes "news") with_news ≡ channel 0
      → Mapped (codes "news") 0 (with_news.channels))
    × (Mapped (codes "news") 0 (with_news.channels)
        → join_channel tables (codes "news") with_news ≡ channel 0)
join_channel-Mapped_example =
    join_channel-Mapped admins tables tables_lawful leaf (record { poas = []; ids = [] }) running
      with_news (λ id. refl) new_factory_test
      (next running with_news here (created 42 1000 channel_key (named (codes "news")) running))
      (codes "news") 0
