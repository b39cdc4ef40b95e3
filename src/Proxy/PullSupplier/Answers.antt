-- ===== src/Proxy/PullSupplier/Answers.antt =====
-- What a consumer gets from a ProxyPullSupplier while the channel writes to the queue.
mod Tests
use omni_events.Prelude.{
  ℕ, suc, ◌+◌, ◌≡◌, refl, ap, ap₂, ◌∙◌, inl, inr, Bool, true, false, Option, none, some, List, [],
  ◌∷◌, if◌then◌else◌, Bool-cases, ==_iff, not, ◌==◌,
}
use omni_events.Prelude.Text.{Str}
use omni_events.Queue.{EventQueue, Reader, append, more_events, next_event}
use omni_events.Queue.Refinement.{Refines, unread_append, append-Refines, append_keeps}
use omni_events.Queue.Refinement.Walk.{IsValid, append-IsValid}
use omni_events.Queue.Reading.{unread_next, unread_none}
use omni_events.Proxy.{Ref, ◌>>=◌, Result, ok, throw, disconnected, transient, Core, Env, State}
use omni_events.Proxy.PullSupplier.{PullSupplier, St, pull, try_pull, touch, take_event}

pub data Step (E : Type 0) : Type 0 where
  write : E → Step E
  pull_at try_pull_at : ℕ → Step E

module _ {E : Type 0} where
  -- The answers of the servant; the one of pull() is put like the one of a try_pull().
  abbrev present : Result E → Result (Option E)
  present (ok e) = ok (some e)
  present (throw x) = throw x

  abbrev pub answers : EventQueue E → St E → List (Step E) → List (Result (Option E))
  answers q s [] = []
  answers q s (write e ∷ steps) = answers (append q e) s steps
  answers q s (pull_at now ∷ steps) = let (r, t) = pull now q s in present r ∷ answers q t steps
  answers q s (try_pull_at now ∷ steps) = let (r, t) = try_pull now q s in r ∷ answers q t steps

  -- The specification: a client that is not connected is told so, and another gets the oldest event
  -- that it has not got. Where there is none, pull() raises TRANSIENT.
  abbrev answer : Bool → Result (Option E) → List E → Result (Option E)
  answer false empty u = throw disconnected
  answer true empty [] = empty
  answer true empty (e ∷ u) = ok (some e)

  abbrev left : Bool → List E → List E
  left false u = u
  left true [] = []
  left true (e ∷ u) = u

  abbrev pub answers_unread :
      Bool → ℕ → Option (E → Bool) → List E → List (Step E) → List (Result (Option E))
  answers_unread c size filter u [] = []
  answers_unread c size filter u (write e ∷ steps) =
      answers_unread c size filter (unread_append size filter u e) steps
  answers_unread c size filter u (pull_at now ∷ steps) =
      answer c (throw transient) u ∷ answers_unread c size filter (left c u) steps
  answers_unread c size filter u (try_pull_at now ∷ steps) =
      answer c (ok none) u ∷ answers_unread c size filter (left c u) steps

  -- What a step of the client needs of the queue and its reader.
  abbrev serve : Bool → Core → Option Ref → ℕ → Bool → Env E → Reader → St E
  serve c core target time req env r = record {
    core = core;
    self = record { reader = r; target = target; connected = c; timestamp = time; req = req };
    env = env;
  }

  pull-Refines :
      (c : Bool) (core : Core) (target : Option Ref) (time : ℕ) (req : Bool) (env : Env E)
      (q : EventQueue E) (r : Reader) (u : List E) (now : ℕ)
      → Refines q r u
      → let got = pull now q (serve c core target time req env r) in
        (present got.0 ≡ answer c (throw transient) u)
        × (r' : Reader) × (time' : ℕ) × (got.1 ≡ serve c core target time' req env r')
        × Refines q r' (left c u)
  unfolding pull touch take_event
  pull-Refines false core target time req env q r u now f = (refl, r, time, refl, f)
  pull-Refines true core target time req env q r [] now f =
      let m = unread_none q r f in (rw m refl, r, now, rw m refl, f)
  pull-Refines true core target time req env q r (e ∷ u) now f =
      let m = unread_next q r e u f in
      (
        rw m.0 (rw (m.1, present, take_event) refl),
        (next_event r q).1,
        now,
        rw m.0 (rw (m.1, take_event) refl),
        m.2,
      )

  try_pull-Refines :
      (c : Bool) (core : Core) (target : Option Ref) (time : ℕ) (req : Bool) (env : Env E)
      (q : EventQueue E) (r : Reader) (u : List E) (now : ℕ)
      → Refines q r u
      → let got = try_pull now q (serve c core target time req env r) in
        (got.0 ≡ answer c (ok none) u)
        × (r' : Reader) × (time' : ℕ) × (got.1 ≡ serve c core target time' req env r')
        × Refines q r' (left c u)
  unfolding try_pull touch take_event
  try_pull-Refines false core target time req env q r u now f = (refl, r, time, refl, f)
  try_pull-Refines true core target time req env q r [] now f =
      let m = unread_none q r f in (rw m refl, r, now, rw m refl, f)
  try_pull-Refines true core target time req env q r (e ∷ u) now f =
      let m = unread_next q r e u f in
      (
        rw m.0 (rw (m.1, ◌>>=◌, take_event) refl),
        (next_event r q).1,
        now,
        rw m.0 (rw (m.1, ◌>>=◌, take_event) (rw (m.1, take_event) refl)),
        m.2,
      )

  answers-refine :
      (c : Bool) (core : Core) (target : Option Ref) (time : ℕ) (req : Bool) (env : Env E)
      (q : EventQueue E) (r : Reader) (u : List E) (steps : List (Step E)) (size : ℕ)
      (filter : Option (E → Bool))
      → IsValid q
      → Refines q r u
      → q.size ≡ size
      → q.filter ≡ filter
      → answers q (serve c core target time req env r) steps ≡ answers_unread c size filter u steps
  answers-refine c core target time req env q r u [] size filter v f es ef = refl
  answers-refine c core target time req env q r u (write e ∷ steps) size filter v f es ef =
      answers-refine c core target time req env (append q e) r (unread_append size filter u e) steps
        size filter (append-IsValid q e v) (rw (← es, ← ef) (append-Refines q r u e v f))
        ((append_keeps q e).0 ∙ es) ((append_keeps q e).1 ∙ ef)
  answers-refine c core target time req env q r u (pull_at now ∷ steps) size filter v f es ef =
      let (a, r', time', e, g) = pull-Refines c core target time req env q r u now f in
      ap₂ ◌∷◌ a (
        ap (λ s. answers q s steps) e
        ∙ answers-refine c core target time' req env q r' (left c u) steps size filter v g es ef)
  answers-refine c core target time req env q r u (try_pull_at now ∷ steps) size filter v f es ef =
      let (a, r', time', e, g) = try_pull-Refines c core target time req env q r u now f in
      ap₂ ◌∷◌ a (
        ap (λ s. answers q s steps) e
        ∙ answers-refine c core target time' req env q r' (left c u) steps size filter v g es ef)

  -- While the channel writes to a valid queue, the answers that a ProxyPullSupplier gives to any
  -- schedule of pull() and try_pull() are those of a list of the events that its reader has not
  -- read: a proxy that is not connected raises Disconnected and hands out nothing, a connected one
  -- hands out the oldest, and where there is none, pull() raises TRANSIENT and try_pull() has no event.
  pub answers-eq-unread :
      (s : St E) (q : EventQueue E) (u : List E) (steps : List (Step E))
      → IsValid q
      → Refines q s.self.reader u
      → answers q s steps ≡ answers_unread s.self.connected q.size q.filter u steps
  answers-eq-unread s q u steps v f =
      answers-refine s.self.connected s.core s.self.target s.self.timestamp s.self.req s.env q
        s.self.reader u steps q.size q.filter v f refl refl
