-- ===== src/Naming/Binding.antt =====
-- bindName2Object() of src/naming.cc.
--
-- The naming service is the CORBA Naming Service: `Service` are the calls of it that the code makes, on a
-- state `W`, with contexts `X` and objects `O`. A reply `failed` is any exception but AlreadyBound. The
-- name of a context is one component. The exception fatalException, which the function passes on, is left
-- out.
mod Tests
mod Examples
use omni_events.Prelude.{
  ℕ, ◌≡◌, refl, ap, sym, ◌∙◌, subst, ◌⊎◌, inl, inr, Option, none, some, List, [], ◌∷◌,
}
use omni_events.Naming.{NameComponent}

pub data Bound (X O : Type 0) : Type 0 where
  context : X → Bound X O
  object : O → Bound X O

pub data Reply (A : Type 0) : Type 0 where
  done : A → Reply A
  already_bound failed : Reply A

pub record Service (X O W : Type 0) : Type 0 where
  pub bind_new_context : X → NameComponent → W → Reply X × W
  pub resolve : X → NameComponent → W → Reply (Bound X O) × W
  pub bind : X → NameComponent → O → W → Reply (Unit {0}) × W
  pub rebind : X → NameComponent → O → W → Reply (Unit {0}) × W

-- The function returns a number, ends the process with 1, or, for a name without components, reads
-- components that are not there.
pub data Ending : Type 0 where
  returned : ℕ → Ending
  exited undefined : Ending

abbrev pub after_rebind : Reply (Unit {0}) → Ending
after_rebind (done a) = returned 0
after_rebind already_bound = exited
after_rebind failed = exited

-- The context that _narrow() gives of what a component is bound to, `none` for an object.
abbrev pub narrow : {X O : Type 0} → Bound X O → Option X
narrow (context x) = some x
narrow (object o) = none

-- The context of a component, a new one if there is none; `failed` is an exception.
abbrev pub resolved : {X O : Type 0} → Reply (Bound X O) → Reply (Option X)
resolved (done b) = done (narrow b)
resolved already_bound = failed
resolved failed = failed

module _ {X O W : Type 0} (service : Service X O W) where
  -- The catch of AlreadyBound behind bind().
  unfoldable pub after_bind : X → NameComponent → O → Reply (Unit {0}) → W → Ending × W
  after_bind x n o (done a) w = (returned 0, w)
  after_bind x n o failed w = (exited, w)
  after_bind x n o already_bound w = let (r, v) = service.rebind x n o w in (after_rebind r, v)

  unfoldable pub bind_object : X → NameComponent → O → W → Ending × W
  unfolding after_bind
  bind_object x n o w = let (r, v) = service.bind x n o w in after_bind x n o r v

  unfoldable pub after_context : X → NameComponent → Reply X → W → Reply (Option X) × W
  after_context x n (done y) w = (done (some y), w)
  after_context x n failed w = (failed, w)
  after_context x n already_bound w = let (r, v) = service.resolve x n w in (resolved r, v)

  unfoldable pub enter : X → NameComponent → W → Reply (Option X) × W
  unfolding after_context
  enter x n w = let (r, v) = service.bind_new_context x n w in after_context x n r v

  -- The loop and what follows it, for a name with at least one component.
  unfoldable pub bind_in : X → NameComponent → List NameComponent → O → W → Ending × W
  unfolding enter bind_object
  bind_in x n [] o w = bind_object x n o w
  bind_in x n (m ∷ ms) o w =
      let (r, v) = enter x n w in
      elim r [
        | done c ↦ elim c [ none ↦ (returned 2, v) | some y ↦ bind_in y m ms o v ]
        | already_bound ↦ (exited, v)
        | failed ↦ (exited, v)
      ]

  unfoldable pub bind_name_2_object : Option X → List NameComponent → O → W → Ending × W
  unfolding bind_in
  bind_name_2_object none name o w = (returned 1, w)
  bind_name_2_object (some x) [] o w = (undefined, w)
  bind_name_2_object (some x) (n ∷ ns) o w = bind_in x n ns o w

-- What the naming service says of the calls: what a component is bound to in a context, and that a
-- binding to a context stays when another is made.
pub record IsService {X O W : Type 0} (service : Service X O W) : Type 0 where
  pub find : X → NameComponent → W → Option (Bound X O)
  pub context_bound :
      (x y : X) (n : NameComponent) (w v : W)
      → service.bind_new_context x n w ≡ (done y, v)
      → (find x n v ≡ some (context y))
        × ((z u : X) (m : NameComponent)
            → find z m w ≡ some (context u)
            → find z m v ≡ some (context u))
  pub context_refused :
      (x : X) (n : NameComponent) (w v : W)
      → service.bind_new_context x n w ≡ (already_bound, v)
      → v ≡ w
  pub resolve_finds :
      (x : X) (n : NameComponent) (b : Bound X O) (w v : W)
      → service.resolve x n w ≡ (done b, v)
      → (find x n w ≡ some b) × (v ≡ w)
  pub object_bound :
      (x : X) (n : NameComponent) (o : O) (w v : W)
      → service.bind x n o w ≡ (done tt, v)
      → (find x n v ≡ some (object o))
        × ((z u : X) (m : NameComponent)
            → find z m w ≡ some (context u)
            → find z m v ≡ some (context u))
  pub object_refused :
      (x : X) (n : NameComponent) (o : O) (w v : W)
      → service.bind x n o w ≡ (already_bound, v)
      → v ≡ w
  pub object_rebound :
      (x : X) (n : NameComponent) (o : O) (w v : W)
      → service.rebind x n o w ≡ (done tt, v)
      → (find x n v ≡ some (object o))
        × ((z u : X) (m : NameComponent)
            → find z m w ≡ some (context u)
            → find z m v ≡ some (context u))

-- A reply that the function does not handle: an exception, AlreadyBound included.
abbrev pub Unhandled : {A : Type 0} → Reply A → Type 0
Unhandled r = (r ≡ failed) ⊎ (r ≡ already_bound)

module _ {X O W : Type 0} (service : Service X O W) where
  -- The call of bind() fails, or it says AlreadyBound and the rebind() behind it fails.
  abbrev pub BindFails : X → NameComponent → O → W → Type 0
  BindFails x n o w =
      let (r, v) = service.bind x n o w in
      (r ≡ failed) ⊎ ((r ≡ already_bound) × Unhandled (service.rebind x n o v).0)

  -- The same for bind_new_context() and the resolve() behind it.
  abbrev pub EnterFails : X → NameComponent → W → Type 0
  EnterFails x n w =
      let (r, v) = service.bind_new_context x n w in
      (r ≡ failed) ⊎ ((r ≡ already_bound) × Unhandled (service.resolve x n v).0)

  -- One of the calls for the name fails, when those before it have led to its context and state.
  abbrev pub Trouble : X → NameComponent → List NameComponent → O → W → Type 0
  Trouble x n [] o w = BindFails x n o w
  Trouble x n (m ∷ ms) o w =
      EnterFails x n w
      ⊎ ((y : X) × (v : W) × (enter service x n w ≡ (done (some y), v)) × Trouble y m ms o v)

module _ {X O W : Type 0} (service : Service X O W) (laws : IsService service) where
  -- Every binding to a context is still there.
  abbrev pub Keeps : W → W → Type 0
  Keeps w v =
      (z u : X) (m : NameComponent)
      → laws.find z m w ≡ some (context u)
      → laws.find z m v ≡ some (context u)

  -- A name resolves to the object; or a component in front of its last is bound to an object.
  abbrev pub Leads : X → NameComponent → List NameComponent → O → W → Type 0
  Leads x n [] o w = laws.find x n w ≡ some (object o)
  Leads x n (m ∷ ms) o w = (y : X) × (laws.find x n w ≡ some (context y)) × Leads y m ms o w

  abbrev pub Blocked : X → NameComponent → List NameComponent → W → Type 0
  Blocked x n [] w = ⊥
  Blocked x n (m ∷ ms) w =
      ((o : O) × (laws.find x n w ≡ some (object o)))
      ⊎ ((y : X) × (laws.find x n w ≡ some (context y)) × Blocked y m ms w)

  abbrev pub Ends : X → NameComponent → List NameComponent → O → W → Ending × W → Type 0
  Ends x n ns o w (returned k, v) =
      Keeps w v × (((k ≡ 0) × Leads x n ns o v) ⊎ ((k ≡ 2) × Blocked x n ns v))
  Ends x n ns o w (exited, v) = Trouble service x n ns o w
  Ends x n ns o w (undefined, v) = ⊥

  abbrev Entered : X → NameComponent → W → Reply (Option X) × W → Type 0
  Entered x n w (done none, v) = Keeps w v × (p : O) × (laws.find x n v ≡ some (object p))
  Entered x n w (done (some y), v) = Keeps w v × (laws.find x n v ≡ some (context y))
  Entered x n w (already_bound, v) = EnterFails service x n w
  Entered x n w (failed, v) = EnterFails service x n w

  bind_object-Ends :
      (x : X) (n : NameComponent) (o : O) (w : W) → Ends x n [] o w (bind_object service x n o w)
  unfolding bind_object after_bind
  bind_object-Ends x n o w = by_bind (service.bind x n o w).0 (service.bind x n o w).1 refl
    where
      unhandled :
          (r : Reply (Unit {0})) (v u : W)
          → service.bind x n o w ≡ (already_bound, v)
          → service.rebind x n o v ≡ (r, u)
          → (service.rebind x n o (service.bind x n o w).1).0 ≡ r
      unhandled r v u e d = ap (λ q. (service.rebind x n o q.1).0) e ∙ ap (λ q. q.0) d

      by_rebind :
          (r : Reply (Unit {0})) (v u : W)
          → service.bind x n o w ≡ (already_bound, v)
          → service.rebind x n o v ≡ (r, u)
          → Ends x n [] o w (after_rebind r, u)
      by_rebind (done a) v u e d =
          let (there, kept) = laws.object_rebound x n o v u d in
          (subst (λ y. Keeps y u) (laws.object_refused x n o w v e) kept, inl (refl, there))
      by_rebind already_bound v u e d = inr (ap (λ q. q.0) e, inr (unhandled already_bound v u e d))
      by_rebind failed v u e d = inr (ap (λ q. q.0) e, inl (unhandled failed v u e d))

      by_bind :
          (r : Reply (Unit {0})) (v : W)
          → service.bind x n o w ≡ (r, v)
          → Ends x n [] o w (after_bind service x n o r v)
      by_bind (done a) v e =
          let (there, kept) = laws.object_bound x n o w v e in (kept, inl (refl, there))
      by_bind already_bound v e =
          by_rebind (service.rebind x n o v).0 v (service.rebind x n o v).1 e refl
      by_bind failed v e = inl (ap (λ q. q.0) e)

  enter-Entered : (x : X) (n : NameComponent) (w : W) → Entered x n w (enter service x n w)
  unfolding enter after_context
  enter-Entered x n w =
      by_context (service.bind_new_context x n w).0 (service.bind_new_context x n w).1 refl
    where
      unhandled :
          (r : Reply (Bound X O)) (v u : W)
          → service.bind_new_context x n w ≡ (already_bound, v)
          → service.resolve x n v ≡ (r, u)
          → (service.resolve x n (service.bind_new_context x n w).1).0 ≡ r
      unhandled r v u e d = ap (λ q. (service.resolve x n q.1).0) e ∙ ap (λ q. q.0) d

      by_resolve :
          (r : Reply (Bound X O)) (v u : W)
          → service.bind_new_context x n w ≡ (already_bound, v)
          → service.resolve x n v ≡ (r, u)
          → Entered x n w (resolved r, u)
      by_resolve (done (context y)) v u e d =
          let (there, same) = laws.resolve_finds x n (context y) v u d in
          let back = same ∙ laws.context_refused x n w v e in
          (
            subst (λ t. Keeps w t) (sym back) (λ z t m h. h),
            subst (λ t. laws.find x n t ≡ some (context y)) (sym same) there,
          )
      by_resolve (done (object p)) v u e d =
          let (there, same) = laws.resolve_finds x n (object p) v u d in
          let back = same ∙ laws.context_refused x n w v e in
          (
            subst (λ t. Keeps w t) (sym back) (λ z t m h. h),
            p,
            subst (λ t. laws.find x n t ≡ some (object p)) (sym same) there,
          )
      by_resolve already_bound v u e d =
          inr (ap (λ q. q.0) e, inr (unhandled already_bound v u e d))
      by_resolve failed v u e d = inr (ap (λ q. q.0) e, inl (unhandled failed v u e d))

      by_context :
          (r : Reply X) (v : W)
          → service.bind_new_context x n w ≡ (r, v)
          → Entered x n w (after_context service x n r v)
      by_context (done y) v e = let (there, kept) = laws.context_bound x y n w v e in (kept, there)
      by_context already_bound v e =
          by_resolve (service.resolve x n v).0 v (service.resolve x n v).1 e refl
      by_context failed v e = inl (ap (λ q. q.0) e)

  bind_in-Ends :
      (x : X) (n : NameComponent) (ns : List NameComponent) (o : O) (w : W)
      → Ends x n ns o w (bind_in service x n ns o w)
  unfolding bind_in
  bind_in-Ends x n [] o w = bind_object-Ends x n o w
  bind_in-Ends x n (m ∷ ms) o w =
      by_enter (λ y v. bind_in-Ends y m ms o v) (enter service x n w).0 (enter service x n w).1 refl
        (enter-Entered x n w)
    where
      by_ending :
          (y : X) (v : W) (r : Ending) (u : W)
          → enter service x n w ≡ (done (some y), v)
          → Entered x n w (done (some y), v)
          → Ends y m ms o v (r, u)
          → Ends x n (m ∷ ms) o w (r, u)
      by_ending y v (returned k) u q (kept, there) (more, inl (e, l)) =
          (λ z t i h. more z t i (kept z t i h), inl (e, (y, more x y n there, l)))
      by_ending y v (returned k) u q (kept, there) (more, inr (e, l)) =
          (λ z t i h. more z t i (kept z t i h), inr (e, inr (y, more x y n there, l)))
      by_ending y v exited u q h k = inr (y, v, q, k)
      by_ending y v undefined u q h k = k

      by_enter :
          ((y : X) (v : W) → Ends y m ms o v (bind_in service y m ms o v))
          → (r : Reply (Option X)) (v : W) → enter service x n w ≡ (r, v)
          → Entered x n w (r, v)
          → Ends x n (m ∷ ms) o w (elim r as (λ _. Ending × W) [
            | done c ↦ elim c as (λ _. Ending × W) [
              | none ↦ (returned 2, v)
              | some y ↦ bind_in service y m ms o v
            ]
            | already_bound ↦ (exited, v)
            | failed ↦ (exited, v)
          ])
      by_enter again (done none) v q (kept, blocker, there) =
          (kept, inr (refl, inl (blocker, there)))
      by_enter again (done (some y)) v q h =
          by_ending y v (bind_in service y m ms o v).0 (bind_in service y m ms o v).1 q h
            (again y v)
      by_enter again already_bound v q h = inl h
      by_enter again failed v q h = inl h

-- A naming context and a name with a component, and a naming service that does what its calls are
-- specified to do: if bindName2Object() returns, it returns 0 and the name then resolves to the object,
-- or 2 and a component in front of the last is bound to an object; and what was bound to a context still
-- is. It ends the process only if one of the calls that it made for the name, in the context and state
-- that the calls before it led to, was answered by an exception that it does not handle. Without a
-- naming context it returns 1 and calls nothing.
pub bind_name_2_object-Ends :
    {X O W : Type 0} (service : Service X O W) (laws : IsService service) (x : X)
    (n : NameComponent) (ns : List NameComponent) (o : O) (w : W)
    → Ends service laws x n ns o w (bind_name_2_object service (some x) (n ∷ ns) o w)
      × (bind_name_2_object service none (n ∷ ns) o w ≡ (returned 1, w))
unfolding bind_name_2_object
bind_name_2_object-Ends service laws x n ns o w = (bind_in-Ends service laws x n ns o w, refl)
