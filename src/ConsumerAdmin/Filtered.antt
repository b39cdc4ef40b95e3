-- ===== src/ConsumerAdmin/Filtered.antt =====
-- The filter that a channel's properties ask for, and the events that pass it.
mod Tests
use omni_events.Prelude.{
  some-injective, ℕ, ◌+◌, ◌%◌, set, ltb, replicate, ◌≡◌, refl, sym, ap, subst, ◌∙◌, Bool, true,
  false, Bool-cases, ◌⊎◌, Option, none, some, List, [], ◌∷◌, if◌then◌else◌, inl, inr,
}
use mathlib.Core.Bool.{false≢true}
use omni_events.Prelude.Text.{Str, codes}
use omni_events.PersistNode.{PersistNode}
use omni_events.Queue.{EventQueue, new_queue, set_filter, append}
use omni_events.Queue.Filter.{AnyType, TcKind, Filter, keep, Admits, keep-Admits}
use omni_events.ConsumerAdmin.{
  ConsumerAdmin, max_queue_length, chosen_filter, new_consumer_admin, append_all, send_all,
}

-- The events that a filter lets through.
abbrev pub kept : {E : Type 0} → (E → Bool) → List E → List E
kept f [] = []
kept f (e ∷ es) = if f e then e ∷ kept f es else kept f es

-- The second list has those events of the first that the filter admits, in their order.
abbrev pub Selected : {E : Type 0} → AnyType E → Filter → List E → List E → Type 0
Selected any f [] [] = Unit {0}
Selected any f [] (x ∷ xs) = ⊥
Selected any f (e ∷ es) [] = (¬ Admits any f e) × Selected any f es []
Selected any f (e ∷ es) (x ∷ xs) =
    (Admits any f e × (e ≡ x) × Selected any f es xs)
    ⊎ ((¬ Admits any f e) × Selected any f es (x ∷ xs))

Selected-skip :
    {E : Type 0} (any : AnyType E) (f : Filter) (e : E) (es xs : List E)
    → (¬ Admits any f e)
    → Selected any f es xs
    → Selected any f (e ∷ es) xs
Selected-skip any f e es [] n s = (n, s)
Selected-skip any f e es (x ∷ xs) n s = inr (n, s)

kept-Selected :
    {E : Type 0} (any : AnyType E) (f : Filter) (es : List E)
    → Selected any f es (kept (keep any f) es)
kept-Selected any f [] = tt
kept-Selected any f (e ∷ es) = elim (Bool-cases (keep any f e)) [
  | inl y ↦ rw y (inl ((keep-Admits any f e).0 y, refl, kept-Selected any f es))
  | inr n ↦ rw n (
      Selected-skip any f e es (kept (keep any f) es)
        (λ a. false≢true (sym n ∙ (keep-Admits any f e).1 a)) (kept-Selected any f es))
]

append_all-set_filter :
    {E : Type 0} (f : E → Bool) (next size : ℕ) (slots : List (Option E)) (es : List E)
    → let q : EventQueue E = record { next = next; size = size; queue = slots; filter = none } in
      append_all (set_filter f q) es ≡ set_filter f (append_all q (kept f es))
unfolding append_all append set_filter
append_all-set_filter f next size slots [] = refl
append_all-set_filter f next size slots (e ∷ es) = elim (Bool-cases (f e)) [
  | inl y ↦ rw y (append_all-set_filter f ((next + 1) % size) size (set slots next (some e)) es)
  | inr n ↦ rw n (append_all-set_filter f next size slots es)
]

new_queue-filter : {E : Type 0} (n : ℕ) (q : EventQueue E) → new_queue n ≡ some q → q.filter ≡ none
unfolding new_queue
new_queue-filter {E} n q h = elim (Bool-cases (ltb 1 (n + 1))) [
  | inl y ↦
      let p : new_queue n
          ≡ some
              (record { next = 0; size = n + 1; queue = replicate (n + 1) none; filter = none }) =
        rw (y, new_queue) refl in
      ap (λ (x : EventQueue E). x.filter) (some-injective q _ (sym h ∙ p))
  | inr k ↦ let p : new_queue {E = E} n ≡ none = rw (k, new_queue) refl in cc
]

-- A channel whose properties ask for a filter, and whose queue the constructor can make: of the events
-- that are sent, the queue takes those whose type the filter admits, in their order, as a queue
-- without a filter takes them alone.
pub send_all-chosen_filter :
    {P L E : Type 0} (any : AnyType E) (kind_of : ℕ → TcKind) (properties : PersistNode)
    (f : Filter) (es : List E) (a : ConsumerAdmin P L E) (q : EventQueue E)
    → chosen_filter kind_of properties ≡ some f
    → new_queue (max_queue_length properties) ≡ some q
    → new_consumer_admin any kind_of properties ≡ some a
    → let admitted = kept (keep any f) es in
      ((send_all es a).queue ≡ set_filter (keep any f) (append_all q admitted))
      × Selected any f es admitted
unfolding send_all new_consumer_admin
send_all-chosen_filter {P} {L} {E} any kind_of properties f es a q c h e =
    let made : new_consumer_admin any kind_of properties
        ≡ some (record {
          queue = set_filter (keep any f) q;
          push_supplier = none;
          pull_supplier = none;
        }) =
      rw (h, new_consumer_admin) (rw (c, new_consumer_admin) refl) in
    let queue : a.queue ≡ set_filter (keep any f) q =
      ap (λ (x : ConsumerAdmin P L E). x.queue) (some-injective a _ (sym e ∙ made)) in
    (
      ap (λ x. append_all x es) queue
          ∙ subst
              (λ x.
                append_all (set_filter (keep any f) x) es
                ≡ set_filter (keep any f) (append_all x (kept (keep any f) es)))
              (λ j. record {
                next = q.next;
                size = q.size;
                queue = q.queue;
                filter = sym (new_queue-filter (max_queue_length properties) q h) j;
              })
              (append_all-set_filter (keep any f) (q.next) (q.size) (q.queue) es),
      kept-Selected any f es,
    )
