-- ===== src/PersistNode/Longs.antt =====
-- Numbers in attributes: addattr(const string&,long) and attrLong() of src/PersistNode.cc. A long has
-- 64 bits and an int 32; both are given by their value modulo 2 ^ 64. atol() is the library's, as the C
-- standard describes it, for numbers that a long can hold.
pub mod Digits
mod Tests
use omni_events.Prelude.{
  ℕ, zero, suc, ◌+◌, ◌-◌, ◌*◌, ◌/◌, ◌%◌, ◌^◌, ◌<◌, ◌≡◌, refl, ap, sym, ◌∙◌, Bool, true, false, ◌==◌,
  ◌&&◌, ltb, leb, Option, none, some, List, [], ◌∷◌, ◌++◌, if◌then◌else◌, arith, Bool-cases, inl,
  inr,
}
use omni_events.Prelude.Text.{Str, codes}
use omni_events.PersistNode.{PersistNode, node, attrs, attr_string, has_attr}
use omni_events.PersistNode.Maps.{Attrs, set_attr, find_attr, find_attr-set_attr}
use Digits.{digits, atol, atol-digits, atol-minus}

-- What `sprintf(buf,"%i",value)` writes.
unfoldable pub int_text : ℕ → Str
int_text value =
    let v = value % 2 ^ 32 in
    if ltb v (2 ^ 31) then digits 10 v [] else b'-' ∷ digits 10 (2 ^ 32 - v) []

unfoldable pub addattr_long : Str → ℕ → PersistNode → PersistNode
addattr_long key value (node cs ats) = node cs (set_attr key (int_text value) ats)

unfoldable pub attr_long : Str → ℕ → PersistNode → ℕ
attr_long key fallback n = elim (find_attr key (attrs n)) [ none ↦ fallback | some v ↦ atol v ]

atol-int_text :
    (v : ℕ) → v < 2 ^ 32 → atol (int_text v) ≡ (if ltb v (2 ^ 31) then v else 2 ^ 64 - (2 ^ 32 - v))
unfolding int_text
atol-int_text v h =
    let e : v % 2 ^ 32 ≡ v = omega (arith, h) in
    rw e (elim (Bool-cases (ltb v (2 ^ 31))) [
      | inl y ↦ rw y (atol-digits 9 v (omega (arith, h)))
      | inr n ↦
          rw n (atol-minus 9 (2 ^ 32 - v) (omega (arith, h)) (omega (arith, h)) (omega (arith, h)))
    ])

-- A value below 2 ^ 31 that is stored as an attribute is read back as it is, whatever the tree had
-- before. A CORBA::ULong that is not below is read back as the negative number that it is as an int:
-- as an unsigned long, close to 2 ^ 64.
pub attr_long-addattr_long :
    (key : Str) (v fallback : ℕ) (n : PersistNode)
    → v < 2 ^ 32
    → attr_long key fallback (addattr_long key v n)
      ≡ (if ltb v (2 ^ 31) then v else 2 ^ 64 - (2 ^ 32 - v))
unfolding attr_long addattr_long
attr_long-addattr_long key v fallback (node cs ats) h =
    rw (find_attr-set_attr key (int_text v) ats, attr_long) (atol-int_text v h)
