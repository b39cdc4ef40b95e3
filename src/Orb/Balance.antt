-- ===== src/Orb/Balance.antt =====
-- References to callbacks, and requests, are given back.
mod Tests
use omni_events.Prelude.{
  ℕ, ◌+◌, ◌≡◌, refl, sym, ap, ◌∙◌, ◌==◌, Bool, true, false, Bool-cases, Option, none, some, List,
  [], ◌∷◌, ◌++◌, if◌then◌else◌, arith, inl, inr,
}
use omni_events.Orb.{
  Deferred, Answer, pending, returned, raised, Effect, ref_added, ref_removed, called, released,
  Orb, added, removed, calls, Polled, settle, deferred_request, poll, poll_round, request_shutdown,
  clean_up_all, clean_up,
}

abbrev one_if : Bool → ℕ
one_if true = 1
one_if false = 0

-- How often something is done.
abbrev pub tally : (Effect → ℕ) → List Effect → ℕ
tally w [] = 0
tally w (e ∷ es) = w e + tally w es

abbrev pub adds : ℕ → Effect → ℕ
adds c (ref_added d) = one_if (d == c)
adds c _ = 0

abbrev pub removes : ℕ → Effect → ℕ
removes c (ref_removed d) = one_if (d == c)
removes c _ = 0

abbrev pub releases : ℕ → Effect → ℕ
releases r (released s) = one_if (s == r)
releases r _ = 0

tally-append : (w : Effect → ℕ) (xs ys : List Effect) → tally w (xs ++ ys) ≡ tally w xs + tally w ys
tally-append w [] ys = omega arith
tally-append w (x ∷ xs) ys = omega (arith, tally-append w xs ys)

-- The waiting requests with a callback, and those of a number.
abbrev holds_one : ℕ → Option ℕ → ℕ
holds_one c none = 0
holds_one c (some d) = one_if (d == c)

abbrev holds : ℕ → List Deferred → ℕ
holds c [] = 0
holds c (d ∷ ds) = holds_one c (d.callback) + holds c ds

abbrev waits : ℕ → List Deferred → ℕ
waits r [] = 0
waits r (d ∷ ds) = one_if (d.request == r) + waits r ds

holds-append : (c : ℕ) (xs ys : List Deferred) → holds c (xs ++ ys) ≡ holds c xs + holds c ys
holds-append c [] ys = omega arith
holds-append c (x ∷ xs) ys = omega (arith, holds-append c xs ys)

waits-append : (r : ℕ) (xs ys : List Deferred) → waits r (xs ++ ys) ≡ waits r xs + waits r ys
waits-append r [] ys = omega arith
waits-append r (x ∷ xs) ys = omega (arith, waits-append r xs ys)

tally-added :
    (c r : ℕ) (k : Option ℕ)
    → (tally (adds c) (added k) ≡ holds_one c k)
      × (tally (removes c) (added k) ≡ 0)
      × (tally (releases r) (added k) ≡ 0)
tally-added c r none = (refl, refl, refl)
tally-added c r (some d) = (omega arith, refl, refl)

tally-removed :
    (c r : ℕ) (k : Option ℕ)
    → (tally (adds c) (removed k) ≡ 0)
      × (tally (removes c) (removed k) ≡ holds_one c k)
      × (tally (releases r) (removed k) ≡ 0)
tally-removed c r none = (refl, refl, refl)
tally-removed c r (some d) = (refl, omega arith, refl)

tally-calls :
    (c r s : ℕ) (k : Option ℕ)
    → (tally (adds c) (calls k s) ≡ 0)
      × (tally (removes c) (calls k s) ≡ 0)
      × (tally (releases r) (calls k s) ≡ 0)
tally-calls c r s none = (refl, refl, refl)
tally-calls c r s (some d) = (refl, refl, refl)

-- What a poll adds, removes and releases, and what it leaves waiting.
abbrev Balanced : ℕ → ℕ → Polled → ℕ → ℕ → Type 0
Balanced c r (left, effects, used) held waited =
    (tally (adds c) effects + tally (adds c) used ≡ 0)
    × (tally (removes c) effects + tally (removes c) used + holds c left ≡ held)
    × (tally (releases r) effects + tally (releases r) used + waits r left ≡ waited)

settle-Balanced :
    (c r : ℕ) (a : Answer) (d : Deferred) (p : Polled) (held waited : ℕ)
    → Balanced c r p held waited
    → Balanced c r
        (settle a d p)
        (holds_one c (d.callback) + held)
        (one_if (d.request == r) + waited)
unfolding settle
settle-Balanced c r pending d (left, effects, used) held waited (x, y, z) =
    (x, omega (arith, y), omega (arith, z))
settle-Balanced c r returned d (left, effects, used) held waited (x, y, z) =
    let (ca, cr, cl) = tally-calls c r (d.request) (d.callback) in
    let (ra, rr, rl) = tally-removed c r (d.callback) in
    let k = calls (d.callback) (d.request) in
    let rest = released (d.request) ∷ effects in
    let u = removed (d.callback) in
    (
      omega (arith, x, ca, ra, tally-append (adds c) k rest, tally-append (adds c) u used),
      omega (arith, y, cr, rr, tally-append (removes c) k rest, tally-append (removes c) u used),
      omega (arith, z, cl, rl, tally-append (releases r) k rest, tally-append (releases r) u used),
    )
settle-Balanced c r raised d (left, effects, used) held waited (x, y, z) =
    let (ra, rr, rl) = tally-removed c r (d.callback) in
    let u = removed (d.callback) in
    (
      omega (arith, x, ra, tally-append (adds c) u used),
      omega (arith, y, rr, tally-append (removes c) u used),
      omega (arith, z, rl, tally-append (releases r) u used),
    )

poll-Balanced :
    (answers : ℕ → Answer) (c r : ℕ) (ds : List Deferred)
    → Balanced c r (poll answers ds) (holds c ds) (waits r ds)
unfolding poll
poll-Balanced answers c r [] = (omega arith, omega arith, omega arith)
poll-Balanced answers c r (d ∷ ds) =
    settle-Balanced c r (answers (d.request)) d (poll answers ds) (holds c ds) (waits r ds)
      (poll-Balanced answers c r ds)

clean_up_all-tally :
    (c r : ℕ) (ds : List Deferred)
    → (tally (adds c) (clean_up_all ds) ≡ 0)
      × (tally (removes c) (clean_up_all ds) ≡ holds c ds)
      × (tally (releases r) (clean_up_all ds) ≡ waits r ds)
unfolding clean_up_all
clean_up_all-tally c r [] = (refl, refl, refl)
clean_up_all-tally c r (d ∷ ds) =
    let (x, y, z) = clean_up_all-tally c r ds in
    let (ra, rr, rl) = tally-removed c r (d.callback) in
    let u = removed (d.callback) in
    let rest = clean_up_all ds in
    (
      omega (arith, x, ra, tally-append (adds c) u rest),
      omega (arith, y, rr, tally-append (removes c) u rest),
      omega (arith, z, rl, tally-append (releases r) u rest),
    )

-- What happens to the Orb.
pub data Op : Type 0 where
  submit : ℕ → Option ℕ → Op
  round : (ℕ → Answer) → Op
  shut_down : Op

abbrev pub apply : Op → Orb → Orb
apply (submit r k) o = deferred_request r k o
apply (round answers) o = poll_round answers o
apply shut_down o = request_shutdown o

abbrev pub apply_all : List Op → Orb → Orb
apply_all [] o = o
apply_all (op ∷ ops) o = apply_all ops (apply op o)

-- How often a request was submitted.
abbrev pub submits : ℕ → List Op → ℕ
submits r [] = 0
submits r (submit s k ∷ ops) = one_if (s == r) + submits r ops
submits r (round answers ∷ ops) = submits r ops
submits r (shut_down ∷ ops) = submits r ops

abbrev Even : ℕ → ℕ → ℕ → Orb → Type 0
Even c r n o =
    (tally (adds c) (o.effects) ≡ tally (removes c) (o.effects) + holds c (o.deferred_requests))
    × (n ≡ tally (releases r) (o.effects) + waits r (o.deferred_requests))

submit-Even :
    (c r n s : ℕ) (k : Option ℕ) (o : Orb)
    → Even c r n o
    → Even c r (one_if (s == r) + n) (deferred_request s k o)
unfolding deferred_request
submit-Even c r n s k o (x, y) =
    let used = if o.shutdown_requested then none else k in
    let d : Deferred = record { request = s; callback = used } in
    let (aa, ar, al) = tally-added c r used in
    (
      omega (
        arith,
        x,
        aa,
        ar,
        tally-append (adds c) (o.effects) (added used),
        tally-append (removes c) (o.effects) (added used),
        holds-append c (o.deferred_requests) (d ∷ []),
      ),
      omega (
        arith,
        y,
        al,
        tally-append (releases r) (o.effects) (added used),
        waits-append r (o.deferred_requests) (d ∷ []),
      ),
    )

round-Even :
    (c r n : ℕ) (answers : ℕ → Answer) (o : Orb) → Even c r n o → Even c r n (poll_round answers o)
unfolding poll_round
round-Even c r n answers o (x, y) = elim (Bool-cases (o.shutdown_requested)) [
  | inl s ↦ rw (s, poll_round) (x, y)
  | inr s ↦
      let p = poll answers (o.deferred_requests) in
      let (a, b, z) = poll-Balanced answers c r (o.deferred_requests) in
      rw (s, poll_round)
        (
          omega (
            arith,
            x,
            a,
            b,
            tally-append (adds c) (o.effects) (p.1 ++ p.2),
            tally-append (adds c) (p.1) (p.2),
            tally-append (removes c) (o.effects) (p.1 ++ p.2),
            tally-append (removes c) (p.1) (p.2),
          ),
          omega (
            arith,
            y,
            z,
            tally-append (releases r) (o.effects) (p.1 ++ p.2),
            tally-append (releases r) (p.1) (p.2),
          ),
        )
]

apply_all-Even :
    (c r n : ℕ) (ops : List Op) (o : Orb)
    → Even c r n o
    → Even c r (n + submits r ops) (apply_all ops o)
unfolding request_shutdown
apply_all-Even c r n [] o e = (e.0, omega (arith, e.1))
apply_all-Even c r n (submit s k ∷ ops) o e =
    let (x, y) =
      apply_all-Even c r (one_if (s == r) + n) ops (deferred_request s k o)
        (submit-Even c r n s k o e) in
    (x, omega (arith, y))
apply_all-Even c r n (round answers ∷ ops) o e =
    apply_all-Even c r n ops (poll_round answers o) (round-Even c r n answers o e)
apply_all-Even c r n (shut_down ∷ ops) o e = apply_all-Even c r n ops (request_shutdown o) e

-- Requests are submitted, polled in any number of rounds with any answers, and a shutdown may be asked
-- for, in any order; then run() cleans up. Every callback has then been given back as often as a
-- reference to it was taken, every request has been released as often as it was submitted, and none
-- is left.
pub clean_up-apply_all :
    (c r : ℕ) (ops : List Op) (o : Orb)
    → o.deferred_requests ≡ []
    → o.effects ≡ []
    → let t = clean_up (apply_all ops o) in
      (tally (removes c) (t.effects) ≡ tally (adds c) (t.effects))
      × (tally (releases r) (t.effects) ≡ submits r ops)
      × (t.deferred_requests ≡ [])
unfolding clean_up
clean_up-apply_all c r ops o d e =
    let start : Even c r 0 o = (
      ap (tally (adds c)) e ∙ sym (omega (arith, ap (tally (removes c)) e, ap (holds c) d)),
      sym (omega (arith, ap (tally (releases r)) e, ap (waits r) d)),
    ) in
    let u = apply_all ops o in
    let (x, y) = apply_all-Even c r 0 ops o start in
    let (a, b, z) = clean_up_all-tally c r (u.deferred_requests) in
    let last = clean_up_all (u.deferred_requests) in
    (
      omega (
        arith,
        x,
        a,
        b,
        tally-append (adds c) (u.effects) last,
        tally-append (removes c) (u.effects) last,
      ),
      omega (arith, y, z, tally-append (releases r) (u.effects) last),
      refl,
    )
