-- ===== src/Proxy/PullSupplierManager/Eviction.antt =====
-- Which servant makes room for a new one.
mod Tests
use omni_events.Prelude.{
  some-injective, ℕ, zero, suc, ◌+◌, ◌≤◌, ◌<◌, ◌≡◌, refl, ap, ap₂, subst, sym, ◌∙◌, ◌⊎◌, Bool, true,
  false, Option, none, some, List, [], ◌∷◌, ◌++◌, if◌then◌else◌, ltb, leb, length, get_elem?, set,
  arith, Bool-cases, inl, inr, ltb→lt,
}
use omni_events.Prelude.Text.{Str}
use omni_events.Queue.{EventQueue, Reader}
use omni_events.Proxy.{
  Result, ok, throw, object_not_exist, Env, Core, Ref, Request, erase_key, deactivate_object,
  send_deferred,
}
use omni_events.Proxy.PullSupplier.{PullSupplier, disconnect_pull_supplier, touch}
use omni_events.Proxy.PullSupplierManager.{
  Servant, Manager, find_oldest, state_of, disconnect_quietly, evict, new_servant, insert_servant,
  incarnate,
}

-- No servant of the list is older.
abbrev pub NoneOlder : ℕ → List Servant → Type 0
NoneOlder age [] = Unit {0}
NoneOlder age (s ∷ ss) = (age ≤ s.self.timestamp) × NoneOlder age ss

NoneOlder-weaken : (a b : ℕ) (ss : List Servant) → a ≤ b → NoneOlder b ss → NoneOlder a ss
NoneOlder-weaken a b [] h k = tt
NoneOlder-weaken a b (s ∷ ss) h k = (omega (arith, k.0), NoneOlder-weaken a b ss h k.1)

-- The result is the best so far or a servant of the list, and as old as either.
find_oldest-some :
    (i j age : ℕ) (ss : List Servant)
    → (k : ℕ) × (least : ℕ) × (find_oldest i (some (j, age)) ss ≡ some (k, least))
      × NoneOlder least ss
      × (least ≤ age)
      × (((k ≡ j) × (least ≡ age))
          ⊎ ((n : ℕ) × (s : Servant) × (k ≡ i + n)
              × (get_elem? ss n ≡ some s)
              × (s.self.timestamp ≡ least)))
unfolding find_oldest
find_oldest-some i j age [] = (j, age, refl, tt, omega arith, inl (refl, refl))
find_oldest-some i j age (s ∷ ss) = elim (Bool-cases (ltb (s.self.timestamp) age)) [
  | inl y ↦
      let (k, least, e, none_older, le, at) = find_oldest-some (i + 1) i (s.self.timestamp) ss in
      (
        k,
        least,
        rw y e,
        (le, none_older),
        omega (arith, le, ltb→lt (s.self.timestamp) age y),
        elim at [
          | inl (p, q) ↦ inr (zero, s, omega (arith, p), refl, sym q)
          | inr (n, t, p, g, q) ↦ inr (suc n, t, omega (arith, p), g, q)
        ],
      )
  | inr f ↦
      let (k, least, e, none_older, le, at) = find_oldest-some (i + 1) j age ss in
      (
        k,
        least,
        rw f e,
        (ground (arith, le, f), none_older),
        le,
        elim at [
          | inl (p, q) ↦ inl (p, q)
          | inr (n, t, p, g, q) ↦ inr (suc n, t, omega (arith, p), g, q)
        ],
      )
]

oldest :
    (s : Servant) (ss : List Servant)
    → (k : ℕ) × (t : Servant) × (find_oldest 0 none (s ∷ ss) ≡ some (k, t.self.timestamp))
      × (get_elem? (s ∷ ss) k ≡ some t)
      × NoneOlder t.self.timestamp (s ∷ ss)
unfolding find_oldest
oldest s ss =
    let (k, least, e, none_older, le, at) = find_oldest-some 1 0 s.self.timestamp ss in
    elim at [
      | inl (p, q) ↦ (
        0,
        s,
        e ∙ ap₂ (λ a b. some (a, b)) p q,
        refl,
        subst (λ a. NoneOlder a (s ∷ ss)) q (le, none_older),
      )
      | inr (n, t, p, g, q) ↦
          let p' : k ≡ suc n = omega (arith, p) in
          (
            suc n,
            t,
            e ∙ ap₂ (λ a b. some (a, b)) p' (sym q),
            g,
            subst (λ a. NoneOlder a (s ∷ ss)) (sym q) (le, none_older),
          )
    ]

-- No servant has left its POA.
abbrev pub AllActive : List Servant → Type 0
AllActive [] = Unit {0}
AllActive (s ∷ ss) = (s.core.active ≡ true) × AllActive ss

AllActive-get :
    (ss : List Servant) (k : ℕ) (s : Servant)
    → AllActive ss
    → get_elem? ss k ≡ some s
    → s.core.active ≡ true
AllActive-get [] k s a e = cc
AllActive-get (t ∷ ss) zero s a e =
    let same : t ≡ s = some-injective t s e in
    subst (λ (x : Servant). x.core.active ≡ true) same a.0
AllActive-get (t ∷ ss) (suc k) s a e = AllActive-get ss k s a.1 e

module _ {E : Type 0} where
  quiet_explicit :
      (now : ℕ) (channel oid : Str) (reader : Reader) (timestamp : ℕ) (req : Bool)
      (connected : Bool) (target : Option Ref) (log : Option Str) (sent : List (Request E))
      → let s : Servant = record {
        core = record { channel = channel; oid = oid; active = true };
        self = record {
          reader = reader;
          target = target;
          connected = connected;
          timestamp = timestamp;
          req = req;
        };
      } in
        let out = disconnect_quietly now s (record { log = log; sent = sent }) in
        (out.0 ≡ ok tt) × (out.1.core.active ≡ false)
  unfolding disconnect_quietly disconnect_pull_supplier touch erase_key deactivate_object
      send_deferred
  quiet_explicit now channel oid reader timestamp req false target none sent = (refl, refl)
  quiet_explicit now channel oid reader timestamp req true none none sent = (refl, refl)
  quiet_explicit now channel oid reader timestamp req true (some c) none sent = (refl, refl)
  quiet_explicit now channel oid reader timestamp req false target (some l) sent = (refl, refl)
  quiet_explicit now channel oid reader timestamp req true none (some l) sent = (refl, refl)
  quiet_explicit now channel oid reader timestamp req true (some c) (some l) sent = (refl, refl)

  quiet_lem :
      (now : ℕ) (s : Servant) (log : Option Str) (sent : List (Request E))
      → s.core.active ≡ true
      → let out = disconnect_quietly now s (record { log = log; sent = sent }) in
        (out.0 ≡ ok tt) × (out.1.core.active ≡ false)
  quiet_lem now s log sent a =
      subst
        (λ c.
          let t : Servant = record {
            core = record { channel = s.core.channel; oid = s.core.oid; active = c };
            self = s.self;
          } in
          let out = disconnect_quietly now t (record { log = log; sent = sent }) in
          (out.0 ≡ ok tt) × (out.1.core.active ≡ false))
        (sym a)
        (quiet_explicit now s.core.channel s.core.oid s.self.reader s.self.timestamp s.self.req
          s.self.connected s.self.target log sent)

  evict_at :
      (now k least : ℕ) (servants : List Servant) (s : Servant) (env : Env E)
      → find_oldest 0 none servants ≡ some (k, least)
      → get_elem? servants k ≡ some s
      → let out = disconnect_quietly now s env in
        evict now (record { servants = servants; env = env })
        ≡ (out.0, record { servants = set servants k out.1; env = out.2 })
  unfolding evict
  evict_at now k least servants s env e g = rw (e, evict) (rw (g, evict) refl)

  -- A manager that has its maximum of servants, and at least one, all of them active, evicts one when
  -- it makes a new servant, with a log or without: it is as old as any, it has left the POA afterwards
  -- even if it was not connected, no other servant changes, and incarnate() returns the new one.
  pub incarnate-evicts :
      (channel : Str) (now max_num_proxies : ℕ) (q : EventQueue E) (first : Servant)
      (others : List Servant) (log : Option Str) (sent : List (Request E))
      → max_num_proxies ≤ length (first ∷ others)
      → AllActive (first ∷ others)
      → let servants = first ∷ others in
        (k : ℕ) × (old : Servant) × (gone : Servant) × (env : Env E) × (get_elem? servants k
          ≡ some old)
        × NoneOlder old.self.timestamp servants
        × (gone.core.active ≡ false)
        × (incarnate channel now max_num_proxies q
              (record { servants = servants; env = record { log = log; sent = sent } })
            ≡ (
              ok tt,
              record {
                servants = set servants k gone ++ new_servant channel now q ∷ [];
                env = env;
              },
            ))
  unfolding incarnate insert_servant
  incarnate-evicts channel now max_num_proxies q first others log sent h a =
      let (k, old, e, g, least) = oldest first others in
      let start : Env E = record { log = log; sent = sent } in
      let out = disconnect_quietly now old start in
      let (done, inactive) =
        quiet_lem now old log sent (AllActive-get (first ∷ others) k old a g) in
      let full : leb max_num_proxies (length (first ∷ others)) ≡ true = ground (arith, h) in
      (
        k,
        old,
        out.1,
        out.2,
        g,
        least,
        inactive,
        rw full (
            ap (insert_servant (new_servant channel now q))
              (evict_at now k old.self.timestamp (first ∷ others) old start e g)
            ∙ ap
                (λ r.
                  insert_servant (new_servant channel now q)
                    (r, record { servants = set (first ∷ others) k out.1; env = out.2 }))
                done),
      )
