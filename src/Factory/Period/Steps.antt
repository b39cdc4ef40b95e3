-- ===== src/Factory/Period/Steps.antt =====
-- What each criterion does to the pull retry period of a channel.
use omni_events.Prelude.{
  ℕ, ◌*◌, ◌%◌, ◌^◌, ◌≡◌, refl, ap, sym, ◌∙◌, ◌⊎◌, subst, true, false, Option, none, some, List, [],
  ◌∷◌, ◌==◌, if◌then◌else◌, Bool-cases, Option-cases, inl, inr,
}
use omni_events.Prelude.Text.{Str, codes, compare_str, is_eq}
use omni_events.PersistNode.{PersistNode, node, empty_node, attrs, addattr, has_attr, split_attr}
use omni_events.PersistNode.Maps.{find_attr, find_attr-set_attr, find_attr-set_attr_other}
use omni_events.PersistNode.Longs.{addattr_long, int_text}
use omni_events.Factory.{
  Value, ulong, text, other, Criterion, Outcome, parsed, invalid_criteria, cannot_meet_criteria,
  Setting, pull_retry_period_ms, pull_retry_period, max_queue_length, max_num_proxies,
  cycle_period_ns, ins_name, filter_id, ignored, setting_of, apply_setting, set_period, set_size,
  set_text, extract,
}

-- The attribute's text.
abbrev pub period_of : PersistNode → Option Str
period_of n = find_attr (codes "PullRetryPeriod_ms") (attrs n)

abbrev pub or_else {ℓ} : {A : Type ℓ} → Option A → Option A → Option A
or_else none later = later
or_else (some a) later = some a

-- The number in a criterion that is the given setting.
abbrev pub number_in : Setting → Value → Option ℕ × Option ℕ
number_in pull_retry_period_ms (ulong v) = (some v, none)
number_in pull_retry_period (ulong v) = (none, some v)
number_in _ _ = (none, none)

abbrev pub last_ms : List Criterion → Option ℕ
last_ms [] = none
last_ms (c ∷ cs) = or_else (last_ms cs) (number_in (setting_of (c.name)) (c.value)).0

abbrev pub first_seconds : List Criterion → Option ℕ
first_seconds [] = none
first_seconds (c ∷ cs) = or_else (number_in (setting_of (c.name)) (c.value)).1 (first_seconds cs)

-- The specification: the last PullRetryPeriod_ms, wherever it stands, else the first
-- PullRetryPeriod, a thousand times as much in 32 bits.
abbrev pub period : Option ℕ → Option ℕ → Option Str
period (some ms) seconds = some (int_text ms)
period none (some s) = some (int_text (s * 1000 % 2 ^ 32))
period none none = none

-- What the rest of the criteria make of the attribute.
abbrev pub finally : Option ℕ → Option Str → Option ℕ → Option Str
finally (some ms) now seconds = some (int_text ms)
finally none (some t) seconds = some t
finally none none seconds = period none seconds

-- What one criterion makes of it.
abbrev pub next : Option ℕ × Option ℕ → Option Str → Option Str
next (some ms, seconds) now = some (int_text ms)
next (none, seconds) (some t) = some t
next (none, seconds) none = period none seconds

pub finally-next :
    (later : Option ℕ) (found : Option ℕ × Option ℕ) (now : Option Str) (seconds : Option ℕ)
    → finally later (next found now) seconds
      ≡ finally (or_else later found.0) now (or_else found.1 seconds)
finally-next (some ms) found now seconds = refl
finally-next none (some ms, s) now seconds = refl
finally-next none (none, s) (some t) seconds = refl
finally-next none (none, none) none seconds = refl
finally-next none (none, some s) none seconds = refl

abbrev pub tree_of : Outcome → PersistNode
tree_of (parsed n) = n
tree_of _ = empty_node

set_own :
    (v : ℕ) (n : PersistNode)
    → period_of (addattr_long (codes "PullRetryPeriod_ms") v n) ≡ some (int_text v)
unfolding addattr_long
set_own v (node cs ats) = find_attr-set_attr (codes "PullRetryPeriod_ms") (int_text v) ats

set_other :
    (key : Str) (v : ℕ) (n : PersistNode)
    → is_eq (compare_str (codes "PullRetryPeriod_ms") key) ≡ false
    → period_of (addattr_long key v n) ≡ period_of n
unfolding addattr_long
set_other key v (node cs ats) h =
    find_attr-set_attr_other (codes "PullRetryPeriod_ms") key (int_text v) ats h

set_size-period :
    (key : Str) (value : Value) (all : List Criterion) (n m : PersistNode)
    → is_eq (compare_str (codes "PullRetryPeriod_ms") key) ≡ false
    → set_size key value all n ≡ parsed m
    → period_of m ≡ period_of n
unfolding set_size
set_size-period key (ulong v) all n m h e =
    ap (λ o. period_of (tree_of o)) (sym e)
    ∙ (elim (Bool-cases (v == 0)) [ inl y ↦ rw y refl | inr f ↦ rw f (set_other key v n h) ])
set_size-period key (text s) all n m h e = cc
set_size-period key other all n m h e = cc

set_period-period :
    (name : Str) (v stored : ℕ) (all : List Criterion) (n m : PersistNode)
    → set_period name v stored all n ≡ parsed m
    → period_of m ≡ some (int_text stored)
unfolding set_period
set_period-period name v stored all n m e = elim (Bool-cases (v == 0)) [
  | inl y ↦
      let p : set_period name v stored all n ≡ cannot_meet_criteria (extract name all) =
        rw (y, set_period) refl in
      let wrong = sym p ∙ e in cc
  | inr f ↦
      let p : set_period name v stored all n
          ≡ parsed (addattr_long (codes "PullRetryPeriod_ms") stored n) =
        rw (f, set_period) refl in
      ap (λ o. period_of (tree_of o)) (sym e ∙ p) ∙ set_own stored n
]

ins_name-period :
    (value : Value) (all : List Criterion) (n m : PersistNode)
    → set_text (codes "InsName") value all n ≡ parsed m
    → period_of m ≡ period_of n
unfolding set_text addattr split_attr compare_str
ins_name-period (ulong v) all n m e = cc
ins_name-period other all n m e = cc
ins_name-period (text []) all n m e = ap (λ o. period_of (tree_of o)) (sym e)
ins_name-period (text (c ∷ s)) all (node cs ats) m e =
    ap (λ o. period_of (tree_of o)) (sym e)
    ∙ find_attr-set_attr_other (codes "PullRetryPeriod_ms") (codes "InsName") (c ∷ s) ats refl

filter_id-period :
    (value : Value) (all : List Criterion) (n m : PersistNode)
    → set_text (codes "FilterId") value all n ≡ parsed m
    → period_of m ≡ period_of n
unfolding set_text addattr split_attr compare_str
filter_id-period (ulong v) all n m e = cc
filter_id-period other all n m e = cc
filter_id-period (text []) all n m e = ap (λ o. period_of (tree_of o)) (sym e)
filter_id-period (text (c ∷ s)) all (node cs ats) m e =
    ap (λ o. period_of (tree_of o)) (sym e)
    ∙ find_attr-set_attr_other (codes "PullRetryPeriod_ms") (codes "FilterId") (c ∷ s) ats refl

next-none : (now : Option Str) → next (none, none) now ≡ now
next-none none = refl
next-none (some t) = refl

-- has_attr() by the attribute's text.
has_attr-period :
    (n : PersistNode)
    → ((period_of n ≡ none) × (has_attr (codes "PullRetryPeriod_ms") n ≡ false))
      ⊎ ((t : Str) × (period_of n ≡ some t) × (has_attr (codes "PullRetryPeriod_ms") n ≡ true))
unfolding has_attr
has_attr-period n = elim (Option-cases (period_of n)) [
  | inl e ↦ inl (e, rw (e, has_attr) refl)
  | inr (t, e) ↦ inr (t, e, rw (e, has_attr) refl)
]

seconds-period :
    (v : ℕ) (all : List Criterion) (n m : PersistNode)
    → apply_setting pull_retry_period (ulong v) all n ≡ parsed m
    → period_of m ≡ next (none, some v) (period_of n)
unfolding apply_setting
seconds-period v all n m e = elim (has_attr-period n) [
  | inl (p, h) ↦
      let q : apply_setting pull_retry_period (ulong v) all n
          ≡ set_period (codes "PullRetryPeriod") v (v * 1000 % 2 ^ 32) all n =
        rw (h, apply_setting) refl in
      set_period-period (codes "PullRetryPeriod") v (v * 1000 % 2 ^ 32) all n m (sym q ∙ e)
      ∙ sym (ap (next (none, some v)) p)
  | inr (t, p, h) ↦
      let q : apply_setting pull_retry_period (ulong v) all n ≡ parsed n =
        rw (h, apply_setting) refl in
      ap (λ o. period_of (tree_of o)) (sym e ∙ q) ∙ p ∙ sym (ap (next (none, some v)) p)
]

no_seconds-period :
    (value : Value) (all : List Criterion) (n m : PersistNode)
    → (if has_attr (codes "PullRetryPeriod_ms") n
        then parsed n
        else invalid_criteria (extract (codes "PullRetryPeriod") all))
      ≡ parsed m
    → period_of m ≡ period_of n
no_seconds-period value all n m e = elim (has_attr-period n) [
  | inl (p, h) ↦
      let wrong =
        subst
          (λ b.
            (if b then parsed n else invalid_criteria (extract (codes "PullRetryPeriod") all))
            ≡ parsed m)
          h e in
      cc
  | inr (t, p, h) ↦
      let right =
        subst
          (λ b.
            (if b then parsed n else invalid_criteria (extract (codes "PullRetryPeriod") all))
            ≡ parsed m)
          h e in
      ap (λ o. period_of (tree_of o)) (sym right)
]

pub apply_setting-period :
    (s : Setting) (value : Value) (all : List Criterion) (n m : PersistNode)
    → apply_setting s value all n ≡ parsed m
    → period_of m ≡ next (number_in s value) (period_of n)
unfolding apply_setting compare_str
apply_setting-period pull_retry_period_ms (ulong v) all n m e =
    set_period-period (codes "PullRetryPeriod_ms") v v all n m e
apply_setting-period pull_retry_period_ms (text s) all n m e = cc
apply_setting-period pull_retry_period_ms other all n m e = cc
apply_setting-period pull_retry_period (ulong v) all n m e = seconds-period v all n m e
apply_setting-period pull_retry_period (text s) all n m e =
    no_seconds-period other all n m e ∙ sym (next-none (period_of n))
apply_setting-period pull_retry_period other all n m e =
    no_seconds-period other all n m e ∙ sym (next-none (period_of n))
apply_setting-period max_queue_length value all n m e =
    set_size-period (codes "MaxQueueLength") value all n m refl e ∙ sym (next-none (period_of n))
apply_setting-period max_num_proxies value all n m e =
    set_size-period (codes "MaxNumProxies") value all n m refl e ∙ sym (next-none (period_of n))
apply_setting-period cycle_period_ns value all n m e =
    set_size-period (codes "CyclePeriod_ns") value all n m refl e ∙ sym (next-none (period_of n))
apply_setting-period ins_name value all n m e =
    ins_name-period value all n m e ∙ sym (next-none (period_of n))
apply_setting-period filter_id value all n m e =
    filter_id-period value all n m e ∙ sym (next-none (period_of n))
apply_setting-period ignored value all n m e =
    ap (λ o. period_of (tree_of o)) (sym e) ∙ sym (next-none (period_of n))
