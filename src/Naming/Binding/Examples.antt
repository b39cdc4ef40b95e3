-- ===== src/Naming/Binding/Examples.antt =====
-- A naming service for the tests: a table of bindings, and the number of the next context.
use omni_events.Prelude.{
  ℕ, ◌+◌, ◌≡◌, ◌≢◌, refl, ap, sym, ◌∙◌, subst, ◌==◌, ==_refl, Bool, true, false, ◌&&◌, Bool-cases,
  Option, none, some, if◌then◌else◌, arith, inl, inr,
}
use omni_events.Prelude.Text.{str_eq, str_eq→eq, str_eq_refl}
use omni_events.Naming.{NameComponent}
use omni_events.Naming.Binding.{
  Bound, context, object, Reply, done, already_bound, failed, Service, IsService,
}

pub record Table : Type 0 where
  pub at : ℕ → NameComponent → Option (Bound ℕ ℕ)
  pub next : ℕ

abbrev same : NameComponent → NameComponent → Bool
same m n = str_eq (m.id) (n.id) && str_eq (m.kind) (n.kind)

abbrev hits : ℕ → NameComponent → ℕ → NameComponent → Bool
hits x n z m = z == x && same m n

abbrev set : ℕ → NameComponent → Bound ℕ ℕ → Table → Table
set x n b w = record { at = λ z m. if hits x n z m then some b else w.at z m; next = w.next + 1 }

abbrev found : Option (Bound ℕ ℕ) → Table → Reply (Bound ℕ ℕ) × Table
found none w = (failed, w)
found (some b) w = (done b, w)

abbrev made : ℕ → NameComponent → Option (Bound ℕ ℕ) → Table → Reply ℕ × Table
made x n none w = (done w.next, set x n (context w.next) w)
made x n (some b) w = (already_bound, w)

abbrev put : ℕ → NameComponent → ℕ → Option (Bound ℕ ℕ) → Table → Reply (Unit {0}) × Table
put x n o none w = (done tt, set x n (object o) w)
put x n o (some b) w = (already_bound, w)

abbrev replaced : ℕ → NameComponent → ℕ → Option (Bound ℕ ℕ) → Table → Reply (Unit {0}) × Table
replaced x n o (some (context y)) w = (failed, w)
replaced x n o _ w = (done tt, set x n (object o) w)

abbrev pub tables : Service ℕ ℕ Table
tables = record {
  bind_new_context = λ x n w. made x n (w.at x n) w;
  resolve = λ x n w. found (w.at x n) w;
  bind = λ x n o w. put x n o (w.at x n) w;
  rebind = λ x n o w. replaced x n o (w.at x n) w;
}

hits_refl : (x : ℕ) (n : NameComponent) → hits x n x n ≡ true
hits_refl x n =
    ap (λ b. b && same n n) (==_refl x)
    ∙ ap (λ b. b && str_eq (n.kind) (n.kind)) (str_eq_refl (n.id))
    ∙ str_eq_refl (n.kind)

both : (a b : Bool) → (a && b) ≡ true → (a ≡ true) × (b ≡ true)
both true b h = (refl, h)
both false b h = let wrong = h in cc

hits→eq :
    {A : Type 0} (f : ℕ → NameComponent → A) (x z : ℕ) (n m : NameComponent)
    → hits x n z m ≡ true
    → f z m ≡ f x n
hits→eq f x z n m h =
    let (numbers, names) = both (z == x) (same m n) h in
    let (ids, kinds) = both (str_eq (m.id) (n.id)) (str_eq (m.kind) (n.kind)) names in
    let z_x : z ≡ x = ground (arith, numbers) in
    ap (λ i. f i m) z_x
    ∙ ap (λ i. f x (record { id = i; kind = m.kind })) (str_eq→eq (m.id) (n.id) ids)
    ∙ ap (λ k. f x (record { id = n.id; kind = k })) (str_eq→eq (m.kind) (n.kind) kinds)

set_here : (x : ℕ) (n : NameComponent) (b : Bound ℕ ℕ) (w : Table) → (set x n b w).at x n ≡ some b
set_here x n b w = ap (λ h. if h then some b else w.at x n) (hits_refl x n)

-- What is set where no context is bound leaves the contexts.
set_keeps :
    (x : ℕ) (n : NameComponent) (b : Bound ℕ ℕ) (w : Table)
    → ((u : ℕ) → w.at x n ≢ some (context u))
    → (z u : ℕ) (m : NameComponent) → w.at z m ≡ some (context u)
    → (set x n b w).at z m ≡ some (context u)
set_keeps x n b w free z u m h = elim (Bool-cases (hits x n z m)) [
  | inl y ↦ absurd (free u (sym (hits→eq w.at x z n m y) ∙ h))
  | inr f ↦ ap (λ k. if k then some b else w.at z m) f ∙ h
]

none_is_free : (o : Option (Bound ℕ ℕ)) → o ≡ none → (u : ℕ) → o ≢ some (context u)
none_is_free o h u e = let wrong : none ≡ some (context u) = sym h ∙ e in cc

object_is_free :
    (o : Option (Bound ℕ ℕ)) (p : ℕ) → o ≡ some (object p) → (u : ℕ) → o ≢ some (context u)
object_is_free o p h u e = let wrong : some (object p) ≡ some (context u) = sym h ∙ e in cc

abbrev Stays : Table → Table → Type 0
Stays w v =
    (z u : ℕ) (m : NameComponent) → w.at z m ≡ some (context u) → v.at z m ≡ some (context u)

-- What the laws say of a reply.
abbrev MadeWell : ℕ → NameComponent → Table → Reply ℕ × Table → Type 0
MadeWell x n w (done y, v) = (v.at x n ≡ some (context y)) × Stays w v
MadeWell x n w (already_bound, v) = v ≡ w
MadeWell x n w (failed, v) = Unit {0}

abbrev PutWell : ℕ → NameComponent → ℕ → Table → Reply (Unit {0}) × Table → Type 0
PutWell x n o w (done a, v) = (v.at x n ≡ some (object o)) × Stays w v
PutWell x n o w (already_bound, v) = v ≡ w
PutWell x n o w (failed, v) = Unit {0}

abbrev FoundWell : ℕ → NameComponent → Table → Reply (Bound ℕ ℕ) × Table → Type 0
FoundWell x n w (done b, v) = (w.at x n ≡ some b) × (v ≡ w)
FoundWell x n w (already_bound, v) = Unit {0}
FoundWell x n w (failed, v) = Unit {0}

made-MadeWell :
    (x : ℕ) (n : NameComponent) (w : Table) (o : Option (Bound ℕ ℕ))
    → w.at x n ≡ o
    → MadeWell x n w (made x n o w)
made-MadeWell x n w none h =
    (set_here x n (context w.next) w, set_keeps x n (context w.next) w (none_is_free (w.at x n) h))
made-MadeWell x n w (some b) h = refl

put-PutWell :
    (x : ℕ) (n : NameComponent) (p : ℕ) (w : Table) (o : Option (Bound ℕ ℕ))
    → w.at x n ≡ o
    → PutWell x n p w (put x n p o w)
put-PutWell x n p w none h =
    (set_here x n (object p) w, set_keeps x n (object p) w (none_is_free (w.at x n) h))
put-PutWell x n p w (some b) h = refl

replaced-PutWell :
    (x : ℕ) (n : NameComponent) (p : ℕ) (w : Table) (o : Option (Bound ℕ ℕ))
    → w.at x n ≡ o
    → PutWell x n p w (replaced x n p o w)
replaced-PutWell x n p w none h =
    (set_here x n (object p) w, set_keeps x n (object p) w (none_is_free (w.at x n) h))
replaced-PutWell x n p w (some (object q)) h =
    (set_here x n (object p) w, set_keeps x n (object p) w (object_is_free (w.at x n) q h))
replaced-PutWell x n p w (some (context y)) h = tt

found-FoundWell :
    (x : ℕ) (n : NameComponent) (w : Table) (o : Option (Bound ℕ ℕ))
    → w.at x n ≡ o
    → FoundWell x n w (found o w)
found-FoundWell x n w none h = tt
found-FoundWell x n w (some b) h = (h, refl)

pub tables_lawful : IsService tables
tables_lawful = record {
  find = λ x n w. w.at x n;
  context_bound = λ x y n w v e. subst (MadeWell x n w) e (made-MadeWell x n w (w.at x n) refl);
  context_refused = λ x n w v e. subst (MadeWell x n w) e (made-MadeWell x n w (w.at x n) refl);
  resolve_finds = λ x n b w v e. subst (FoundWell x n w) e (found-FoundWell x n w (w.at x n) refl);
  object_bound = λ x n o w v e. subst (PutWell x n o w) e (put-PutWell x n o w (w.at x n) refl);
  object_refused = λ x n o w v e. subst (PutWell x n o w) e (put-PutWell x n o w (w.at x n) refl);
  object_rebound =
      λ x n o w v e. subst (PutWell x n o w) e (replaced-PutWell x n o w (w.at x n) refl);
}
