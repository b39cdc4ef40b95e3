-- ===== src/Orb.antt =====
-- The deferred requests that the server polls: Orb::deferredRequest() and Orb::run(), src/Orb.cc.
--
-- A request and a callback object are numbers. What poll_response() and the environment of a request
-- say in a round is an argument. What the code does to callbacks and requests is a list of effects,
-- in their order. The locks and the sleep of five seconds are left out.
mod Balance
use omni_events.Prelude.{
  ℕ, Bool, true, false, Option, none, some, List, [], ◌∷◌, ◌++◌, map, if◌then◌else◌,
}

pub record Deferred : Type 0 where
  pub request : ℕ
  pub callback : Option ℕ

pub data Answer : Type 0 where
  pending returned raised : Answer

pub data Effect : Type 0 where
  ref_added ref_removed : ℕ → Effect
  -- A callback is called with a request.
  called : ℕ → ℕ → Effect
  released : ℕ → Effect

pub record Orb : Type 0 where
  pub shutdown_requested : Bool
  pub deferred_requests : List Deferred
  pub effects : List Effect

abbrev pub added : Option ℕ → List Effect
added none = []
added (some c) = ref_added c ∷ []

abbrev pub removed : Option ℕ → List Effect
removed none = []
removed (some c) = ref_removed c ∷ []

abbrev pub calls : Option ℕ → ℕ → List Effect
calls none r = []
calls (some c) r = called c r ∷ []

unfoldable pub deferred_request : ℕ → Option ℕ → Orb → Orb
deferred_request req callback o =
    let used = if o.shutdown_requested then none else callback in
    record o {
      deferred_requests = o.deferred_requests ++ record { request = req; callback = used } ∷ [];
      effects = o.effects ++ added used;
    }

-- A request in the poll: the requests that are left, what is done, and the callbacks to be released,
-- in front of those of the requests behind it.
abbrev pub Polled : Type 0
Polled = List Deferred × List Effect × List Effect

unfoldable pub settle : Answer → Deferred → Polled → Polled
settle pending d (left, effects, used) = (d ∷ left, effects, used)
settle returned d (left, effects, used) =
    (left, calls d.callback d.request ++ released d.request ∷ effects, removed d.callback ++ used)
settle raised d (left, effects, used) =
    (left, released d.request ∷ effects, removed d.callback ++ used)

unfoldable pub poll : (ℕ → Answer) → List Deferred → Polled
unfolding settle
poll answers [] = ([], [], [])
poll answers (d ∷ ds) = settle (answers d.request) d (poll answers ds)

-- A round of run()'s loop.
unfoldable pub poll_round : (ℕ → Answer) → Orb → Orb
unfolding poll
poll_round answers o =
    if o.shutdown_requested
    then o
    else (let (left, effects, used) = poll answers o.deferred_requests in
        record o { deferred_requests = left; effects = o.effects ++ (effects ++ used) })

unfoldable pub request_shutdown : Orb → Orb
request_shutdown o = record o { shutdown_requested = true }

-- What run() does with the outstanding requests behind its loop.
unfoldable pub clean_up_all : List Deferred → List Effect
clean_up_all [] = []
clean_up_all (d ∷ ds) = released d.request ∷ (removed d.callback ++ clean_up_all ds)

unfoldable pub clean_up : Orb → Orb
unfolding clean_up_all
clean_up o = record o {
  deferred_requests = [];
  effects = o.effects ++ clean_up_all o.deferred_requests;
}
