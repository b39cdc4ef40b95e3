-- ===== src/Proxy/PushConsumer/Recovery/Restart.antt =====
-- reincarnate() of a ProxyPushConsumer over the nodes of its connections.
use omni_events.Prelude.{
  ◌≡◌, refl, sym, ap, subst, ◌∙◌, Bool, true, false, Option, none, some, List, Ordering,
}
use omni_events.Prelude.Text.{Str, compare_str, compare_str-lt_gt}
use omni_events.PersistNode.{attr_string}
use omni_events.PersistNode.Maps.{find_attr}
use omni_events.PersistNode.Longs.{attr_long}
use omni_events.PersistNode.Longs.Digits.{atol, value_of}
use omni_events.Queue.{EventQueue}
use omni_events.Proxy.{Ref, Result, ok, throw, Env}
use omni_events.Proxy.PushConsumer.{State, caught, reincarnate_one, reincarnate}
use omni_events.Proxy.PushConsumer.Table.{
  Connection, Connections, no_connection, entry, find, insert, Sorted, Below, find-above,
}
use omni_events.Proxy.PushConsumer.Recovery.Lines.{node_of, tree_of}
use omni_events.Proxy.PushConsumer.Recovery.Owned.{Own, Mine}

abbrev pub joined : Connections → Connections → Connections
joined no_connection cs = cs
joined (entry k c bs) cs = entry k c (joined bs cs)

-- Every stored target resolves to its object.
abbrev pub Resolve : (Str → Option Ref) → Connections → Type 0
Resolve resolve no_connection = Unit {0}
Resolve resolve (entry k c cs) =
    (resolve (c.target_sior) ≡ some (c.target_sior)) × Resolve resolve cs

pub joined-entry :
    (bs : Connections) (k : Str) (c : Connection) (cs : Connections)
    → joined (joined bs (entry k c no_connection)) cs ≡ joined bs (entry k c cs)
joined-entry no_connection k c cs = refl
joined-entry (entry j d bs) k c cs = ap (entry j d) (joined-entry bs k c cs)

pub joined-no_connection : (bs : Connections) → joined bs no_connection ≡ bs
joined-no_connection no_connection = refl
joined-no_connection (entry j d bs) = ap (entry j d) (joined-no_connection bs)

Below-joined :
    (j : Str) (bs : Connections) (k : Str) (c : Connection) (cs : Connections)
    → Below j (joined bs (entry k c cs))
    → compare_str k j ≡ Ordering.gt
Below-joined j no_connection k c cs b = compare_str-lt_gt j k b.0
Below-joined j (entry i d bs) k c cs b = Below-joined j bs k c cs b.1

pub find-behind :
    (bs : Connections) (k : Str) (c : Connection) (cs : Connections)
    → Sorted (joined bs (entry k c cs))
    → find k bs ≡ none
unfolding find
find-behind no_connection k c cs s = refl
find-behind (entry j d bs) k c cs s =
    find-above k j d bs (Below-joined j bs k c cs s.0) ∙ find-behind bs k c cs s.1

pub insert-behind :
    (bs : Connections) (k : Str) (c : Connection) (cs : Connections)
    → Sorted (joined bs (entry k c cs))
    → insert k c bs ≡ joined bs (entry k c no_connection)
unfolding insert
insert-behind no_connection k c cs s = refl
insert-behind (entry j d bs) k c cs s =
    rw (Below-joined j bs k c cs s.0, insert) (ap (entry j d) (insert-behind bs k c cs s.1))

connection_of :
    (channel k : Str) (c : Connection)
    → Mine channel k c
    → c ≡ record {
      channel_name = channel;
      oidstr = k;
      target_sior = c.target_sior;
      target_is_proxy = c.target_is_proxy;
    }
connection_of channel k c m = λ i. record {
  channel_name = m.0 i;
  oidstr = m.1 i;
  target_sior = c.target_sior;
  target_is_proxy = c.target_is_proxy;
}

module _ {E : Type 0} (resolve : Str → Option Ref) (reconnect : Ref → Result (Unit {0})) where
  -- A proxy with these connections.
  abbrev pub proxy_with : Str → Connections → Bool → List E → EventQueue E → Env E → State E
  proxy_with channel bs local queue consumers env = record {
    self = record { channel_name = channel; connections = bs; use_local_queue = local };
    queue = queue;
    consumers = consumers;
    env = env;
  }

  one_connection :
      (channel k sior : Str) (proxy : Bool) (bs : Connections) (local : Bool) (queue : List E)
      (consumers : EventQueue E) (env : Env E)
      → resolve sior ≡ some sior
      → ((r : Str) → caught (reconnect r) ≡ ok tt)
      → find k bs ≡ none
      → let c : Connection = record {
        channel_name = channel;
        oidstr = k;
        target_sior = sior;
        target_is_proxy = proxy;
      } in
        reincarnate_one resolve reconnect k
          (node_of c)
          (proxy_with channel bs local queue consumers env)
        ≡ (ok tt, proxy_with channel (insert k c bs) local queue consumers env)
  unfolding reincarnate_one attr_long attr_string atol value_of find_attr compare_str insert
  one_connection channel k sior true bs local queue consumers env r h f =
      rw (f, reincarnate_one) (rw (r, reincarnate_one) (rw (h sior)))
  one_connection channel k sior false bs local queue consumers env r h f =
      rw (f, reincarnate_one) (rw (r, reincarnate_one) refl)

  one_node :
      (channel k : Str) (c : Connection) (bs : Connections) (local : Bool) (queue : List E)
      (consumers : EventQueue E) (env : Env E)
      → resolve (c.target_sior) ≡ some (c.target_sior)
      → ((r : Str) → caught (reconnect r) ≡ ok tt)
      → Mine channel k c
      → find k bs ≡ none
      → reincarnate_one resolve reconnect k
          (node_of c)
          (proxy_with channel bs local queue consumers env)
        ≡ (ok tt, proxy_with channel (insert k c bs) local queue consumers env)
  one_node channel k c bs local queue consumers env r h m f =
      subst
        (λ d.
          reincarnate_one resolve reconnect k (node_of d)
            (proxy_with channel bs local queue consumers env)
          ≡ (ok tt, proxy_with channel (insert k d bs) local queue consumers env))
        (sym (connection_of channel k c m))
        (one_connection channel k (c.target_sior) (c.target_is_proxy) bs local queue consumers env r
          h f)

  pub reincarnate-joined :
      (channel : Str) (bs cs : Connections) (local : Bool) (queue : List E)
      (consumers : EventQueue E) (env : Env E)
      → Resolve resolve cs
      → ((r : Str) → caught (reconnect r) ≡ ok tt)
      → Own channel cs
      → Sorted (joined bs cs)
      → reincarnate resolve reconnect (tree_of cs) (proxy_with channel bs local queue consumers env)
        ≡ (ok tt, proxy_with channel (joined bs cs) local queue consumers env)
  unfolding reincarnate
  reincarnate-joined channel bs no_connection local queue consumers env r h o s =
      ap (λ x. (ok tt, proxy_with channel x local queue consumers env))
        (sym (joined-no_connection bs))
  reincarnate-joined channel bs (entry k c cs) local queue consumers env r h o s =
      let next = joined bs (entry k c no_connection) in
      let one =
        one_node channel k c bs local queue consumers env r.0 h o.0 (find-behind bs k c cs s)
        ∙ ap (λ x. (ok tt, proxy_with channel x local queue consumers env))
            (insert-behind bs k c cs s) in
      let rest : Result (Unit {0}) × State E → Result (Unit {0}) × State E = λ p. elim (p.0) [
        | ok a ↦ reincarnate resolve reconnect (tree_of cs) (p.1)
        | throw e ↦ (throw e, p.1)
      ] in
      ap rest one
      ∙ (reincarnate-joined channel next cs local queue consumers env r.1 h o.1
            (subst (λ x. Sorted x) (sym (joined-entry bs k c cs)) s)
          ∙ ap (λ x. (ok tt, proxy_with channel x local queue consumers env))
              (joined-entry bs k c cs))
