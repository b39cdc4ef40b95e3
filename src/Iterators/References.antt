-- ===== src/Iterators/References.antt =====
-- The references that a GCServantLocator holds on its servants.
mod Tests
use omni_events.Prelude.{
  ℕ, zero, suc, ◌+◌, ◌-◌, ◌==◌, ◌≡◌, ◌<◌, refl, sym, ap, subst, ◌∙◌, Bool, true, false, Option,
  none, some, List, [], ◌∷◌, arith, ltb, if◌then◌else◌, get_elem?, Bool-cases, Option-cases, inl,
  inr,
}
use omni_events.Prelude.Text.{Str, str_eq}
use omni_events.Iterators.{
  Entry, Locator, add_ref, remove_ref, find, erase, touch, preinvoke, postinvoke, register_servant,
  sweep, gc_sweep, release_all,
}

-- What happens to a locator: the index of `complete` is that of the request that ends.
pub data Step : Type 0 where
  register : ℕ → Str → ℕ → ℕ → Str → Step
  invoke : ℕ → Str → Str → Step
  complete : ℕ → Step
  collect : (ℕ → ℕ) → Step

pub record State : Type 0 where
  pub locator : Locator
  -- The servants of the requests that have not ended.
  pub requests : List ℕ

abbrev remove_at : List ℕ → ℕ → List ℕ
remove_at [] i = []
remove_at (s ∷ ss) zero = ss
remove_at (s ∷ ss) (suc i) = s ∷ remove_at ss i

abbrev answered : Option ℕ × Locator → State → State
answered (none, l) s = record s { locator = l }
answered (some t, l) s = record { locator = l; requests = t ∷ s.requests }

unfoldable pub after : Step → State → State
after (register now oid servant ttl destroy) s =
    elim (register_servant now oid servant ttl destroy s.locator) [
      | none ↦ s
      | some l ↦ record s { locator = l }
    ]
after (invoke now oid operation) s = answered (preinvoke now oid operation s.locator) s
after (complete i) s = elim (get_elem? s.requests i) [
  | none ↦ s
  | some t ↦ record { locator = postinvoke t s.locator; requests = remove_at s.requests i }
]
after (collect clock) s = record s { locator = gc_sweep clock s.locator }

abbrev pub after_all : List Step → State → State
after_all [] s = s
after_all (step ∷ steps) s = after_all steps (after step s)

abbrev pub is : ℕ → ℕ → ℕ
is t s = if t == s then 1 else 0

abbrev pub tracked : ℕ → List Entry → ℕ
tracked t [] = 0
tracked t (e ∷ es) = is t (e.servant) + tracked t es

abbrev pub invoked : ℕ → List ℕ → ℕ
invoked t [] = 0
invoked t (s ∷ ss) = is t s + invoked t ss

tracked-erase :
    (t : ℕ) (oid : Str) (es : List Entry) (e : Entry)
    → find oid es ≡ some e
    → tracked t es ≡ is t (e.servant) + tracked t (erase oid es)
unfolding find erase
tracked-erase t oid [] e h = ground (arith, h)
tracked-erase t oid (f ∷ es) e h = elim (Bool-cases (str_eq oid f.oid)) [
  | inl y ↦ ground (arith, h, y)
  | inr n ↦ ground (arith, h, n, tracked-erase t oid es e)
]

tracked-touch :
    (t : ℕ) (oid : Str) (now : ℕ) (es : List Entry) → tracked t (touch oid now es) ≡ tracked t es
unfolding touch
tracked-touch t oid now [] = refl
tracked-touch t oid now (e ∷ es) = ground (arith, tracked-touch t oid now es)

invoked-remove_at :
    (t : ℕ) (ss : List ℕ) (i s : ℕ)
    → get_elem? ss i ≡ some s
    → invoked t ss ≡ is t s + invoked t (remove_at ss i)
invoked-remove_at t [] i s h = ground (arith, h)
invoked-remove_at t (r ∷ ss) zero s h = ground (arith, h)
invoked-remove_at t (r ∷ ss) (suc i) s h = ground (arith, invoked-remove_at t ss i s h)

tracked-sweep :
    (t k : ℕ) (clock : ℕ → ℕ) (i : ℕ) (es : List Entry) (refs : ℕ → ℕ)
    → refs t ≡ k + tracked t es
    → (sweep clock i es refs).1 t ≡ k + tracked t (sweep clock i es refs).0
unfolding sweep
tracked-sweep t k clock i [] refs h = h
tracked-sweep t k clock i (e ∷ es) refs h =
    elim (Bool-cases (ltb (e.last_access + e.ttl) (clock i))) [
      | inl y ↦
          rw y
            (tracked-sweep t k clock (suc i) es (remove_ref (e.servant) refs) (ground (arith, h)))
      | inr n ↦ rw n (
          omega (
            arith,
            tracked-sweep t (k + is t (e.servant)) clock (suc i) es refs (omega (arith, h)),
          ))
    ]

release_all-tracked :
    (t k : ℕ) (es : List Entry) (refs : ℕ → ℕ)
    → refs t ≡ k + tracked t es
    → release_all es refs t ≡ k
unfolding release_all
release_all-tracked t k [] refs h = omega (arith, h)
release_all-tracked t k (e ∷ es) refs h =
    release_all-tracked t k es (remove_ref (e.servant) refs) (ground (arith, h))

-- Each servant has the references of others, one for its entry and one for each of its requests.
abbrev pub Counted : (ℕ → ℕ) → ℕ → State → Type 0
Counted others t s =
    s.locator.refs t ≡ others t + tracked t s.locator.active_map + invoked t s.requests

after-Counted :
    (others : ℕ → ℕ) (t : ℕ) (step : Step) (s : State)
    → Counted others t s
    → Counted others t (after step s)
unfolding after preinvoke postinvoke register_servant gc_sweep
after-Counted others t (register now oid servant ttl destroy) s h =
    elim (Option-cases (find oid s.locator.active_map)) [
      | inl e ↦ rw (e, after, register_servant) (ground (arith, h))
      | inr (e, f) ↦ rw (f, after, register_servant) h
    ]
after-Counted others t (invoke now oid operation) s h =
    let l = s.locator in
    elim (Option-cases (find oid l.active_map)) [
      | inl e ↦
          let p : preinvoke now oid operation l ≡ (none, l) = rw (e, preinvoke) refl in
          subst (λ r. Counted others t (answered r s)) (sym p) h
      | inr (e, f) ↦ elim (Bool-cases (str_eq (e.destroy) operation)) [
        | inl y ↦
            let rest : Locator = record l { active_map = erase oid l.active_map } in
            let p : preinvoke now oid operation l ≡ (some (e.servant), rest) =
              rw (f, preinvoke) (rw y refl) in
            subst (λ r. Counted others t (answered r s)) (sym p)
              (omega (arith, h, tracked-erase t oid l.active_map e f))
        | inr n ↦
            let used : Locator = record {
              active_map = touch oid now l.active_map;
              refs = add_ref (e.servant) l.refs;
            } in
            let p : preinvoke now oid operation l ≡ (some (e.servant), used) =
              rw (f, preinvoke) (rw n refl) in
            subst (λ r. Counted others t (answered r s)) (sym p)
              (ground (arith, h, tracked-touch t oid now l.active_map))
      ]
    ]
after-Counted others t (complete i) s h = elim (Option-cases (get_elem? s.requests i)) [
  | inl e ↦ rw (e, after) h
  | inr (r, f) ↦ rw (f, after) (ground (arith, h, invoked-remove_at t s.requests i r f))
]
after-Counted others t (collect clock) s h = omega (
  arith,
  tracked-sweep t (others t + invoked t s.requests) clock 0 s.locator.active_map s.locator.refs
      (omega (arith, h)),
)

after_all-Counted :
    (others : ℕ → ℕ) (t : ℕ) (steps : List Step) (s : State)
    → Counted others t s
    → Counted others t (after_all steps s)
after_all-Counted others t [] s h = h
after_all-Counted others t (step ∷ steps) s h =
    after_all-Counted others t steps (after step s) (after-Counted others t step s h)

abbrev pub empty : (ℕ → ℕ) → State
empty others = record { locator = record { active_map = []; refs = others }; requests = [] }

-- After any sequence of registrations, requests that begin and end, and sweeps, a servant has the
-- references that others hold, one for each of its entries in the active map, and one for each of
-- its requests that have not ended: so it is not deleted while a request runs. The destructor then
-- gives back exactly the references of the entries.
pub after_all-references :
    (others : ℕ → ℕ) (t : ℕ) (steps : List Step)
    → let s = after_all steps (empty others) in
      (s.locator.refs t ≡ others t + tracked t s.locator.active_map + invoked t s.requests)
      × (release_all s.locator.active_map s.locator.refs t ≡ others t + invoked t s.requests)
after_all-references others t steps =
    let s = after_all steps (empty others) in
    let c = after_all-Counted others t steps (empty others) (omega arith) in
    (
      c,
      release_all-tracked t (others t + invoked t s.requests) s.locator.active_map s.locator.refs
          (omega (arith, c)),
    )
