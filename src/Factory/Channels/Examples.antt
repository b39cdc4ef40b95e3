-- ===== src/Factory/Channels/Examples.antt =====
-- An ORB for the tests of the factory: the names of the POAs, and the ids of the INSPOA.
use omni_events.Prelude.{
  ◌≡◌, refl, ap, sym, ◌∙◌, Bool, true, false, not, ◌&&◌, ◌||◌, Option, none, some, some-injective,
  List, [], ◌∷◌, if◌then◌else◌, Bool-cases, Option-cases, inl, inr,
}
use omni_events.Prelude.Text.{Str, str_eq, str_eq→eq}
use omni_events.Factory.Channels.{Target, Adapters}
use omni_events.Factory.Channels.Names.{IsAdapters}

pub record Tables : Type 0 where
  pub poas : List Str
  pub ids : List (Str × Target)

abbrev member : Str → List Str → Bool
member n [] = false
member n (m ∷ ms) = str_eq n m || member n ms

abbrev remove : Str → List Str → List Str
remove n [] = []
remove n (m ∷ ms) = if str_eq n m then remove n ms else m ∷ remove n ms

abbrev look : Str → List (Str × Target) → Option Target
look i [] = none
look i ((j, t) ∷ rest) = if str_eq i j then some t else look i rest

abbrev without : Str → List (Str × Target) → List (Str × Target)
without i [] = []
without i ((j, t) ∷ rest) = if str_eq i j then without i rest else (j, t) ∷ without i rest

abbrev with_id : Str → Target → Tables → Option Target → Option Tables
with_id i t w none = some (record w { ids = (i, t) ∷ w.ids })
with_id i t w (some u) = none

abbrev with_poa : Str → Tables → Bool → Option Tables
with_poa n w true = none
with_poa n w false = some (record w { poas = n ∷ w.poas })

abbrev pub tables : Adapters Tables
tables = record {
  create_poa = λ n w. with_poa n w (member n w.poas);
  destroy_poa = λ n w. record w { poas = remove n w.poas };
  activate_id = λ i t w. with_id i t w (look i w.ids);
  deactivate_id = λ i w. record w { ids = without i w.ids };
  find_id = λ i w. look i w.ids;
}

none_some : {A : Type 0} {a : A} → none ≡ some a → {P : Type 0} → P
none_some e = cc

made :
    (n : Str) (w v : Tables) → tables.create_poa n w ≡ some v → v ≡ record w { poas = n ∷ w.poas }
made n w v e = elim (Bool-cases (member n w.poas)) [
  | inl y ↦ none_some (sym (ap (with_poa n w) y) ∙ e)
  | inr f ↦ sym (some-injective _ _ (sym (ap (with_poa n w) f) ∙ e))
]

activated :
    (i : Str) (t : Target) (w v : Tables)
    → tables.activate_id i t w ≡ some v
    → v ≡ record w { ids = (i, t) ∷ w.ids }
activated i t w v e = elim (Option-cases (look i w.ids)) [
  | inl y ↦ sym (some-injective _ _ (sym (ap (with_id i t w) y) ∙ e))
  | inr (u, y) ↦ none_some (sym (ap (with_id i t w) y) ∙ e)
]

member-remove :
    (n m : Str) (ms : List Str) → member m (remove n ms) ≡ (not (str_eq m n) && member m ms)
member-remove n m [] = elim (Bool-cases (str_eq m n)) [ inl y ↦ rw y refl | inr f ↦ rw f refl ]
member-remove n m (k ∷ ks) = elim (Bool-cases (str_eq n k)) [
  | inl y ↦ rw y (
      member-remove n m ks ∙ (elim (Bool-cases (str_eq m n)) [
        | inl e ↦ rw e refl
        | inr d ↦ rw d (rw (sym (ap (str_eq m) (str_eq→eq n k y)) ∙ d) refl)
      ]))
  | inr f ↦ rw f (
      ap (λ b. str_eq m k || b) (member-remove n m ks) ∙ (elim (Bool-cases (str_eq m n)) [
        | inl e ↦ rw e (rw (ap (λ x. str_eq x k) (str_eq→eq m n e) ∙ f) refl)
        | inr d ↦ rw d refl
      ]))
]

look-without :
    (i j : Str) (ids : List (Str × Target))
    → look j (without i ids) ≡ (if str_eq j i then none else look j ids)
look-without i j [] = elim (Bool-cases (str_eq j i)) [ inl y ↦ rw y refl | inr f ↦ rw f refl ]
look-without i j ((k, t) ∷ rest) = elim (Bool-cases (str_eq i k)) [
  | inl y ↦ rw y (
      look-without i j rest ∙ (elim (Bool-cases (str_eq j i)) [
        | inl e ↦ rw e refl
        | inr d ↦ rw d (rw (sym (ap (str_eq j) (str_eq→eq i k y)) ∙ d) refl)
      ]))
  | inr f ↦ rw f (
      ap (λ o. if str_eq j k then some t else o) (look-without i j rest)
      ∙ (elim (Bool-cases (str_eq j i)) [
        | inl e ↦ rw e (rw (ap (λ x. str_eq x k) (str_eq→eq j i e) ∙ f) refl)
        | inr d ↦ rw d refl
      ]))
]

pub tables_lawful : IsAdapters tables
tables_lawful = record {
  has_poa = λ n w. member n w.poas;
  poa_taken = λ n w h. ap (with_poa n w) h;
  poa_free = λ n w h. (record w { poas = n ∷ w.poas }, ap (with_poa n w) h);
  poa_made = λ n w v e m.
      (ap (λ x. member m x.poas) (made n w v e), ap (λ x. look m x.ids) (made n w v e));
  id_taken = λ i t u w h. ap (with_id i t w) h;
  id_free = λ i t w h. (record w { ids = (i, t) ∷ w.ids }, ap (with_id i t w) h);
  id_made = λ i t w v e j. (
    ap (λ x. look j x.ids) (activated i t w v e),
    ap (λ x. member j x.poas) (activated i t w v e),
  );
  poa_ended = λ n w m. (member-remove n m (w.poas), refl);
  id_ended = λ i w j. (look-without i j (w.ids), refl);
}

pub no_poas : (n : Str) (w : Tables) → w.poas ≡ [] → tables_lawful.has_poa n w ≡ false
unfolding tables_lawful
no_poas n w h = ap (member n) h
