-- ===== src/SupplierAdmin/Restart/Suppliers.antt =====
-- Which supplier a pull consumer's id leads to, in a database and after a restart.
use omni_events.Prelude.{
  ◌≡◌, ◌≢◌, refl, sym, ap, subst, ◌∙◌, true, false, Bool-cases, Option, Option-cases, Ordering,
  none, some, List, [], ◌∷◌, inl, inr,
}
use omni_events.Prelude.Text.{Str, compare_str, compare_str-of_eq, str_eq, str_eq→eq, str_eq_refl}
use omni_events.PersistNode.{
  PersistNode, Children, leaf, branch, find_child, set_child, empty_node, attr_string, addattr,
  split_attr,
}
use omni_events.PersistNode.Maps.{set_attr, find_attr}
use omni_events.PersistNode.Paths.{
  find_child-set_child, find_child-set_other, find_child-here, find_child-skip,
}
use omni_events.PersistNode.Parse.Wellformed.{BelowChildren}
use omni_events.PersistNode.Parse.Records.{attrs_effect}
use omni_events.Proxy.{Ref}
use omni_events.Proxy.PullConsumerManager.{Servant}
use omni_events.Proxy.PullConsumerManager.Restart.{restored, ior_of}
use omni_events.PersistNode.Ordered.{OrderedChildren, find_child-below}
use omni_events.SupplierAdmin.Restart.Entries.{put_all}
use omni_events.SupplierAdmin.Restart.Pulling.{
  target_attrs, pull_entries, Resolves, AllResolve, Absent, Distinct, supplier_or, supplier_of,
  supplier_or-Absent,
}

abbrev resolved : (Str → Option Ref) → Option PersistNode → Option Ref
resolved resolve none = none
resolved resolve (some n) = resolve (ior_of n)

-- What the database has for an id.
abbrev pub stored_supplier : (Str → Option Ref) → Str → Children → Option Ref
stored_supplier resolve oid cs = resolved resolve (find_child oid cs)

str_eq-false : (s t : Str) → str_eq s t ≡ false → s ≢ t
str_eq-false s t h e =
    let same : str_eq s t ≡ true = subst (λ x. str_eq s x ≡ true) e (str_eq_refl s) in
    let p : true ≡ false = sym same ∙ h in cc

str_eq-below : (k j : Str) → compare_str j k ≡ Ordering.gt → str_eq k j ≡ false
str_eq-below k j h = elim (Bool-cases (str_eq k j)) [
  | inr other ↦ other
  | inl same ↦ let p = compare_str-of_eq j k (sym (str_eq→eq k j same)) in cc
]

module _ (resolve : Str → Option Ref) where
  resolve-target_attrs :
      (t : Option Ref)
      → Resolves resolve t
      → resolve (ior_of (attrs_effect (target_attrs t) empty_node)) ≡ t
  unfolding attr_string find_attr compare_str addattr split_attr set_attr
  resolve-target_attrs none h = h
  resolve-target_attrs (some t) h = h

  pub stored_supplier-put_all :
      (oid : Str) (ss : List Servant) (cs : Children)
      → Distinct ss
      → AllResolve resolve ss
      → stored_supplier resolve oid (put_all (pull_entries ss) cs)
        ≡ supplier_or (stored_supplier resolve oid cs) oid ss
  stored_supplier-put_all oid [] cs d r = refl
  stored_supplier-put_all oid (s ∷ ss) cs d r =
      let k = s.core.oid in
      let n = attrs_effect (target_attrs s.self.target) empty_node in
      stored_supplier-put_all oid ss (set_child k n cs) d.1 r.1 ∙ elim (Bool-cases (str_eq oid k)) [
        | inl same ↦
            let e = str_eq→eq oid k same in
            rw same (
              supplier_or-Absent (stored_supplier resolve oid (set_child k n cs)) oid ss
                (subst (λ x. Absent x ss) (sym e) d.0)
              ∙ ap (resolved resolve)
                  (ap (λ x. find_child x (set_child k n cs)) e ∙ find_child-set_child k n cs)
              ∙ resolve-target_attrs s.self.target r.0)
        | inr other ↦ rw other (
            ap (λ o. supplier_or (resolved resolve o) oid ss)
              (find_child-set_other oid k n cs (str_eq-false oid k other)))
      ]

  pub supplier_of-restored :
      (channel oid : Str) (cs : Children)
      → OrderedChildren cs
      → supplier_of oid (restored resolve channel cs) ≡ stored_supplier resolve oid cs
  unfolding find_child
  supplier_of-restored channel oid leaf s = refl
  supplier_of-restored channel oid (branch k n cs) s =
      let ih = supplier_of-restored channel oid cs s.2 in
      elim (Bool-cases (str_eq oid k)) [
        | inl same ↦
            let e = str_eq→eq oid k same in
            let here = ap (resolved resolve) (find_child-here oid k n cs e) in
            elim (Option-cases (resolve (ior_of n))) [
              | inl none' ↦
                  rw (none', restored)
                    (ih
                      ∙ ap (resolved resolve)
                          (ap (λ x. find_child x cs) e ∙ find_child-below k cs s.0)
                      ∙ sym none'
                      ∙ sym here)
              | inr (t, found) ↦ rw (found, restored) (rw same (sym found ∙ sym here))
            ]
        | inr other ↦
            let skip =
              ap (resolved resolve) (find_child-skip oid k n cs (str_eq-false oid k other)) in
            elim (Option-cases (resolve (ior_of n))) [
              | inl none' ↦ rw (none', restored) (ih ∙ sym skip)
              | inr (t, found) ↦ rw (found, restored) (rw other (ih ∙ sym skip))
            ]
      ]

  Absent-restored :
      (channel k : Str) (cs : Children)
      → BelowChildren k cs
      → Absent k (restored resolve channel cs)
  Absent-restored channel k leaf b = tt
  Absent-restored channel k (branch j n cs) b = elim (Option-cases (resolve (ior_of n))) [
    | inl none' ↦ rw (none', restored) (Absent-restored channel k cs b.1)
    | inr (t, found) ↦ rw (found, restored) (str_eq-below k j b.0, Absent-restored channel k cs b.1)
  ]

  -- Servants that are made from a sorted node have ids of their own.
  pub restored-Distinct :
      (channel : Str) (cs : Children) → OrderedChildren cs → Distinct (restored resolve channel cs)
  restored-Distinct channel leaf s = tt
  restored-Distinct channel (branch j n cs) s = elim (Option-cases (resolve (ior_of n))) [
    | inl none' ↦ rw (none', restored) (restored-Distinct channel cs s.2)
    | inr (t, found) ↦
        rw (found, restored) (Absent-restored channel j cs s.0, restored-Distinct channel cs s.2)
  ]
