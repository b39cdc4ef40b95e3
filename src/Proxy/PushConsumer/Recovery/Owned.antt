-- ===== src/Proxy/PushConsumer/Recovery/Owned.antt =====
-- The connections of one proxy: each stands under its own object id and has the proxy's channel.
use omni_events.Prelude.{◌≡◌, sym, subst, ◌∙◌, some, inl, inr}
use omni_events.Prelude.Text.{Str, compare_str-of_eq, compare_str-cases}
use omni_events.PersistNode.Parse.Tokens.{Spaceless}
use omni_events.Proxy.PushConsumer.Table.{
  Connection, Connections, no_connection, entry, find, insert, change, erase, find-here, find-below,
  find-above,
}
use omni_events.Proxy.PushConsumer.Recovery.Lines.{IsPiece}

abbrev pub Mine : Str → Str → Connection → Type 0
Mine channel k c =
    (c.channel_name ≡ channel) × (c.oidstr ≡ k) × Spaceless (c.target_sior) × IsPiece k

abbrev pub Own : Str → Connections → Type 0
Own channel no_connection = Unit {0}
Own channel (entry k c cs) = Mine channel k c × Own channel cs

pub insert-Own :
    (channel k : Str) (c : Connection) (cs : Connections)
    → Mine channel k c
    → Own channel cs
    → Own channel (insert k c cs)
unfolding insert
insert-Own channel k c no_connection m o = (m, tt)
insert-Own channel k c (entry j d cs) m o = elim (compare_str-cases k j) [
  | inl lt ↦ rw (lt, insert) (m, o)
  | inr (inl e) ↦ rw (compare_str-of_eq k j e, insert) o
  | inr (inr gt) ↦ rw (gt, insert) (o.0, insert-Own channel k c cs m o.1)
]

pub change-Own :
    (channel k : Str) (c : Connection) (cs : Connections)
    → Mine channel k c
    → Own channel cs
    → Own channel (change k c cs)
unfolding change
change-Own channel k c no_connection m o = tt
change-Own channel k c (entry j d cs) m o = elim (compare_str-cases k j) [
  | inl lt ↦ rw (lt, change) (o.0, change-Own channel k c cs m o.1)
  | inr (inl e) ↦ rw (compare_str-of_eq k j e, change) (subst (λ x. Mine channel x c) e m, o.1)
  | inr (inr gt) ↦ rw (gt, change) (o.0, change-Own channel k c cs m o.1)
]

pub erase-Own : (channel k : Str) (cs : Connections) → Own channel cs → Own channel (erase k cs)
unfolding erase
erase-Own channel k no_connection o = tt
erase-Own channel k (entry j d cs) o = elim (compare_str-cases k j) [
  | inl lt ↦ rw (lt, erase) (o.0, erase-Own channel k cs o.1)
  | inr (inl e) ↦ rw (compare_str-of_eq k j e, erase) o.1
  | inr (inr gt) ↦ rw (gt, erase) (o.0, erase-Own channel k cs o.1)
]

pub find-Mine :
    (channel k : Str) (c : Connection) (cs : Connections)
    → Own channel cs
    → find k cs ≡ some c
    → Mine channel k c
unfolding find
find-Mine channel k c no_connection o h = cc
find-Mine channel k c (entry j d cs) o h = elim (compare_str-cases k j) [
  | inl lt ↦ find-Mine channel k c cs o.1 (sym (find-below k j d cs lt) ∙ h)
  | inr (inl e) ↦
      let same : d ≡ c = cc (find-here k j d cs e, h) in
      subst (λ x. Mine channel k x) same (subst (λ x. Mine channel x d) (sym e) o.0)
  | inr (inr gt) ↦ find-Mine channel k c cs o.1 (sym (find-above k j d cs gt) ∙ h)
]
