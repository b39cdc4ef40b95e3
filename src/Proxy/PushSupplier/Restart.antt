-- ===== src/Proxy/PushSupplier/Restart.antt =====
-- What a ProxyPushSupplier writes to the log before and after a restart of the server.
mod Tests
use omni_events.Prelude.{
  List, ◌≡◌, refl, ap, ◌∙◌, Bool, true, false, Option, none, some, [], ◌++◌, if◌then◌else◌,
}
use omni_events.Prelude.Text.{Str, codes}
use omni_events.Queue.{EventQueue, new_reader}
use omni_events.Proxy.{
  Ref, Result, ok, Core, Env, Request, State, send_deferred, activate_object_with_id, write_output,
  basic_text, key_text,
}
use omni_events.Proxy.PushSupplier.{
  PushSupplier, St, new_push_supplier, connect_push_consumer, reincarnate, output, attributes,
  key_name,
}

-- A new servant, not yet known to the POA or activated by it.
abbrev pub fresh : {E : Type 0} → Str → Str → Bool → EventQueue E → Env E → St E
fresh channel oid active q env = record {
  core = record { channel = channel; oid = oid; active = active };
  self = new_push_supplier q;
  env = env;
}

abbrev pub proxy_text : Bool → Str
proxy_text true = codes " proxy=1"
proxy_text false = []

module _ {E : Type 0} (channel oid : Str) (q : EventQueue E) where
  abbrev pub connects : Str → Str → Env E → St E
  connects consumer_id ior env =
      (connect_push_consumer consumer_id (some ior) (fresh channel oid true q env)).1

  abbrev pub restarts : (Str → Option Ref) → Str → Bool → Env E → St E
  restarts resolve ior proxy env =
      (reincarnate resolve oid ior proxy (fresh channel [] false q env)).1

  abbrev pub key : Str
  key = key_text (record { channel = channel; oid = oid; active = true }) key_name

  connects-output :
      (consumer_id ior : Str) (log : Option Str) (sent : List (Request E))
      → let before = connects consumer_id ior (record { log = log; sent = sent }) in
        (before.self.target ≡ some ior)
        × (output before ≡ some (key ++ ((codes " IOR=" ++ (ior ++ [])) ++ codes " ;;\n")))
  unfolding new_push_supplier connect_push_consumer output attributes send_deferred write_output
      basic_text
  connects-output consumer_id ior none sent = (refl, refl)
  connects-output consumer_id ior (some text) sent = (refl, refl)

  -- The servant that reincarnate() leaves.
  abbrev pub reborn : Str → Bool → Env E → St E
  reborn ior proxy env = record {
    core = record { channel = channel; oid = oid; active = true };
    self = record {
      reader = new_reader q;
      target = some ior;
      target_sior = [];
      req = false;
      target_is_proxy = proxy;
    };
    env = env;
  }

  restarts-reborn :
      (resolve : Str → Option Ref) (ior : Str) (proxy : Bool) (env : Env E)
      → resolve ior ≡ some ior
      → restarts resolve ior proxy env ≡ reborn ior proxy env
  unfolding new_push_supplier reincarnate activate_object_with_id
  restarts-reborn resolve ior proxy env h = rw (h, restarts, reincarnate)

  reborn-output :
      (ior : Str) (proxy : Bool) (env : Env E)
      → output (reborn ior proxy env)
        ≡ some (key ++ ((codes " IOR=" ++ ([] ++ proxy_text proxy)) ++ codes " ;;\n"))
  unfolding output attributes basic_text
  reborn-output ior true env = refl
  reborn-output ior false env = refl

  -- A servant that a client connects writes its target's IOR. A servant that is reincarnated from
  -- the log with the same target is connected to it as well, but writes an empty IOR, whatever the
  -- IOR was.
  pub output-reincarnate :
      (resolve : Str → Option Ref) (consumer_id ior : Str) (proxy : Bool) (env : Env E)
      → resolve ior ≡ some ior
      → let before = connects consumer_id ior env in
        let after = restarts resolve ior proxy env in
        (before.self.target ≡ some ior)
        × (output before ≡ some (key ++ ((codes " IOR=" ++ (ior ++ [])) ++ codes " ;;\n")))
        × (after.self.target ≡ some ior)
        × (output after
            ≡ some (key ++ ((codes " IOR=" ++ ([] ++ proxy_text proxy)) ++ codes " ;;\n")))
  output-reincarnate resolve consumer_id ior proxy env h =
      let a = connects-output consumer_id ior env.log env.sent in
      let b = restarts-reborn resolve ior proxy env h in
      (a.0, a.1, ap (λ s. s.self.target) b, ap output b ∙ reborn-output ior proxy env)
