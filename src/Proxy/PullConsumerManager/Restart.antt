-- ===== src/Proxy/PullConsumerManager/Restart.antt =====
-- The pull consumers after a restart of the server.
use omni_events.Prelude.{
  ◌≡◌, refl, ap, sym, ◌∙◌, true, Option, Option-cases, inl, inr, none, some, List, [], ◌∷◌, ◌++◌,
}
use mathlib.Core.List.{append-nil, append_assoc}
use omni_events.Prelude.Text.{Str, codes}
use omni_events.PersistNode.{PersistNode, Children, leaf, branch, attr_string}
use omni_events.Proxy.{
  Ref, Request, Result, ok, throw, bad_param, activate_object_with_id, write_output, basic_text,
  target_text,
}
use omni_events.Proxy.PullConsumer.{St, new_pull_consumer, connect_pull_supplier, key_name}
use omni_events.Proxy.PullConsumerManager.{
  Servant, Manager, servant_of, state_of, new_servant, reincarnate_one, keep_servant, reincarnate,
  output, output_all,
}

abbrev pub connected : Str → Str → Ref → Servant
connected channel oid supplier = record {
  core = record { channel = channel; oid = oid; active = true };
  self = record new_pull_consumer { target = some supplier };
}

abbrev pub line : Str → Str → Ref → Str
line channel oid supplier =
    basic_text (connected channel oid supplier).core key_name (target_text (some supplier) [])

abbrev pub with_line : Option Str → Str → Option Str
with_line none text = none
with_line (some log) text = some (log ++ text)

abbrev pub if_found : {A : Type 0} → Option Ref → (Ref → A → A) → A → A
if_found none f a = a
if_found (some supplier) f a = f supplier a

abbrev pub ior_of : PersistNode → Str
ior_of n = attr_string (codes "IOR") [] n

-- A connected servant for each child whose IOR gives a supplier, and their lines in the log.
abbrev pub restored : (Str → Option Ref) → Str → Children → List Servant
restored resolve channel leaf = []
restored resolve channel (branch oid n cs) =
    if_found (resolve (ior_of n)) (λ t ss. connected channel oid t ∷ ss)
      (restored resolve channel cs)

abbrev pub lines : (Str → Option Ref) → Str → Children → Str
lines resolve channel leaf = []
lines resolve channel (branch oid n cs) =
    if_found (resolve (ior_of n)) (λ t text. line channel oid t ++ text) (lines resolve channel cs)

module _ {E : Type 0} (resolve : Str → Option Ref) (channel : Str) where
  reincarnate_one-none :
      (oid : Str) (n : PersistNode) (s : St E)
      → resolve (ior_of n) ≡ none
      → reincarnate_one resolve oid n s ≡ (throw bad_param, s)
  unfolding reincarnate_one
  reincarnate_one-none oid n s h = rw (h, reincarnate_one) refl

  reincarnate_one-some :
      (oid : Str) (n : PersistNode) (supplier : Ref) (log : Option Str) (sent : List (Request E))
      → resolve (ior_of n) ≡ some supplier
      → reincarnate_one resolve oid n
          (state_of (new_servant channel) (record { log = log; sent = sent }))
        ≡ (
          ok tt,
          state_of
              (connected channel oid supplier)
              (record { log = with_line log (line channel oid supplier); sent = sent }),
        )
  unfolding reincarnate_one connect_pull_supplier new_servant new_pull_consumer
      activate_object_with_id write_output
  reincarnate_one-some oid n supplier none sent h = rw (h, reincarnate_one) refl
  reincarnate_one-some oid n supplier (some text) sent h = rw (h, reincarnate_one) refl

with_line-nil : (log : Option Str) → log ≡ with_line log []
with_line-nil none = refl
with_line-nil (some text) = ap some (sym (append-nil text))

with_line-append :
    (log : Option Str) (s t : Str) → with_line (with_line log s) t ≡ with_line log (s ++ t)
with_line-append none s t = refl
with_line-append (some text) s t = ap some (append_assoc text s t)

module _ {E : Type 0} (resolve : Str → Option Ref) (channel : Str) where
  -- The manager with servants and lines more.
  abbrev pub grown : Manager E → List Servant → Str → Manager E
  grown m ss text = record {
    servants = m.servants ++ ss;
    queue = m.queue;
    env = record { log = with_line m.env.log text; sent = m.env.sent };
  }

  abbrev go_on : Children → Manager E → Result (Unit {0}) × St E → Result (Unit {0}) × Manager E
  go_on cs m (r, s) =
      let (kept, after) = keep_servant r (servant_of s) s.env m in
      let later = reincarnate resolve channel cs after in
      elim kept [ ok a ↦ later | throw x ↦ (throw x, after) ]

  reincarnate-branch :
      (oid : Str) (n : PersistNode) (cs : Children) (m : Manager E)
      → reincarnate resolve channel (branch oid n cs) m
        ≡ go_on cs m (reincarnate_one resolve oid n (state_of (new_servant channel) m.env))
  unfolding reincarnate
  reincarnate-branch oid n cs m = refl

  grown-nil : (m : Manager E) → m ≡ grown m [] []
  grown-nil m =
      ap (λ ss. record m { servants = ss }) (sym (append-nil m.servants))
      ∙ ap (λ l. record m { servants = m.servants ++ []; env = record (m.env) { log = l } })
          (with_line-nil m.env.log)

  grown-grown :
      (m : Manager E) (ss ts : List Servant) (s t : Str)
      → grown (grown m ss s) ts t ≡ grown m (ss ++ ts) (s ++ t)
  grown-grown m ss ts s t =
      ap (λ us. record (grown (grown m ss s) ts t) { servants = us })
        (append_assoc m.servants ss ts)
      ∙ ap
          (λ l. record (grown m (ss ++ ts) (s ++ t)) {
            env = record { log = l; sent = m.env.sent };
          })
          (with_line-append m.env.log s t)

  pub reincarnate-grown :
      (cs : Children) (m : Manager E)
      → reincarnate resolve channel cs m
        ≡ (ok tt, grown m (restored resolve channel cs) (lines resolve channel cs))
  unfolding reincarnate keep_servant
  reincarnate-grown leaf m = ap (λ x. (ok tt, x)) (grown-nil m)
  reincarnate-grown (branch oid n cs) m =
      let expected : Option Ref → Result (Unit {0}) × Manager E = λ o. (
        ok tt,
        grown m (if_found o (λ t ss. connected channel oid t ∷ ss) (restored resolve channel cs))
            (if_found o (λ t text. line channel oid t ++ text) (lines resolve channel cs)),
      ) in
      elim (Option-cases (resolve (ior_of n))) [
        | inl h ↦
            reincarnate-branch oid n cs m
            ∙ ap (go_on cs m) (
                reincarnate_one-none resolve channel oid n (state_of (new_servant channel) m.env) h)
            ∙ reincarnate-grown cs m
            ∙ ap expected (sym h)
        | inr (t, h) ↦
            reincarnate-branch oid n cs m
            ∙ ap (go_on cs m) (reincarnate_one-some resolve channel oid n t m.env.log m.env.sent h)
            ∙ reincarnate-grown cs (grown m (connected channel oid t ∷ []) (line channel oid t))
            ∙ ap (λ x. (ok tt, x))
                (grown-grown m (connected channel oid t ∷ []) (restored resolve channel cs)
                  (line channel oid t) (lines resolve channel cs))
            ∙ ap expected (sym h)
      ]

output_all-cons :
    (channel oid : Str) (t : Ref) (ss : List Servant) (text : Str)
    → output_all ss ≡ (ok tt, text)
    → output_all (connected channel oid t ∷ ss) ≡ (ok tt, line channel oid t ++ text)
unfolding output_all output
output_all-cons channel oid t ss text h = ap (λ p. (p.0, line channel oid t ++ p.1)) h

output_all-if_found :
    (channel oid : Str) (o : Option Ref) (ss : List Servant) (text : Str)
    → output_all ss ≡ (ok tt, text)
    → output_all (if_found o (λ t us. connected channel oid t ∷ us) ss)
      ≡ (ok tt, if_found o (λ t more. line channel oid t ++ more) text)
output_all-if_found channel oid none ss text h = h
output_all-if_found channel oid (some t) ss text h = output_all-cons channel oid t ss text h

output_all-restored :
    (resolve : Str → Option Ref) (channel : Str) (cs : Children)
    → output_all (restored resolve channel cs) ≡ (ok tt, lines resolve channel cs)
unfolding output_all
output_all-restored resolve channel leaf = refl
output_all-restored resolve channel (branch oid n cs) =
    output_all-if_found channel oid (resolve (ior_of n)) (restored resolve channel cs)
      (lines resolve channel cs) (output_all-restored resolve channel cs)

-- Reincarnating a new manager from stored connections returns, whatever their IORs are. If there is a log
-- it then has a line for each connection whose IOR gives a supplier, in their order, with the stored id
-- and the supplier's reference, and none for the others. The next checkpoint writes the same lines.
-- No request is sent, and no event is queued.
pub output_all-reincarnate :
    {E : Type 0} (resolve : Str → Option Ref) (channel : Str) (cs : Children) (m : Manager E)
    → m.servants ≡ []
    → let (r, g) = reincarnate resolve channel cs m in
      (r ≡ ok tt)
      × (output_all g.servants ≡ (ok tt, lines resolve channel cs))
      × (g.env.log ≡ with_line m.env.log (lines resolve channel cs))
      × (g.env.sent ≡ m.env.sent)
      × (g.queue ≡ m.queue)
output_all-reincarnate resolve channel cs m h =
    let e = reincarnate-grown resolve channel cs m in
    (
      ap (λ p. p.0) e,
      ap (λ p. output_all (p.1.servants)) e
          ∙ ap (λ ss. output_all (ss ++ restored resolve channel cs)) h
          ∙ output_all-restored resolve channel cs,
      ap (λ p. p.1.env.log) e,
      ap (λ p. p.1.env.sent) e,
      ap (λ p. p.1.queue) e,
    )
