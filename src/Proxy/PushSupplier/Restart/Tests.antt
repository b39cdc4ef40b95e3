-- ===== src/Proxy/PushSupplier/Restart/Tests.antt =====
-- A consumer that is connected before a restart and after it.
use omni_events.Prelude.{ℕ, ◌≡◌, refl, true, Option, none, some, [], ◌∷◌, ◌++◌}
use omni_events.Prelude.Text.{Str, codes}
use omni_events.Queue.{EventQueue}
use omni_events.Proxy.{Env, Ref}
use omni_events.Proxy.PushSupplier.{output}
use omni_events.Proxy.PushSupplier.Restart.{connects, restarts, key, proxy_text, output-reincarnate}

abbrev empty_queue : EventQueue ℕ
empty_queue = record { next = 0; size = 2; queue = none ∷ none ∷ []; filter = none }

abbrev env : Env ℕ
env = record { log = some []; sent = [] }

abbrev ior : Str
ior = codes "IOR:01"

-- An ORB that reads every string as a reference.
abbrev resolve : Str → Option Ref
resolve s = some s

output-reincarnate_example :
    let before = connects (codes "c") (codes "o") empty_queue (codes "IDL:C:1.0") ior env in
    let after = restarts (codes "c") (codes "o") empty_queue resolve ior true env in
    (before.self.target ≡ some ior)
    × (output before
        ≡ some (
            key (codes "c") (codes "o") empty_queue
            ++ ((codes " IOR=" ++ (ior ++ [])) ++ codes " ;;\n")))
    × (after.self.target ≡ some ior)
    × (output after
        ≡ some (
            key (codes "c") (codes "o") empty_queue
            ++ ((codes " IOR=" ++ ([] ++ proxy_text true)) ++ codes " ;;\n")))
output-reincarnate_example =
    output-reincarnate (codes "c") (codes "o") empty_queue resolve (codes "IDL:C:1.0") ior true env
      refl
