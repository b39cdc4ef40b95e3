-- ===== src/Log/Startup.antt =====
-- What a server starts with: the names of its files, and the first state.
use omni_events.Prelude.{
  ℕ, ◌-◌, ◌^◌, ◌<◌, ◌≡◌, ◌≢◌, refl, sym, ap, ◌∙◌, ◌==◌, ltb, true, false, ◌&&◌, Bool-cases, Option,
  none, some, [], ◌∷◌, ◌++◌, if◌then◌else◌, arith, inl, inr,
}
use omni_events.Prelude.Text.{Str, codes, compare_str, str_eq}
use omni_events.PersistNode.{
  PersistNode, empty_node, child, attr_string, find_child, set_child, addattr, split_attr, or_empty,
}
use omni_events.PersistNode.Maps.{set_attr, find_attr}
use omni_events.PersistNode.Longs.{addattr_long, attr_long, attr_long-addattr_long}
use omni_events.Log.{bootstrap, has_factory, file_names, names_in, last_char}

abbrev pub ecf : PersistNode → PersistNode
ecf root = or_empty (child (codes "ecf") root)

-- The number that a stored port is read back as.
abbrev as_long : ℕ → ℕ
as_long port = if ltb port (2 ^ 31) then port else 2 ^ 64 - (2 ^ 32 - port)

as_long-positive :
    (port : ℕ)
    → port < 2 ^ 32
    → (ltb 0 (as_long port) && ltb (as_long port) (2 ^ 63)) ≡ (ltb 0 port && ltb port (2 ^ 31))
as_long-positive port h = elim (Bool-cases (ltb port (2 ^ 31))) [
  | inl y ↦ rw y (ground (arith, y))
  | inr n ↦ rw n (ground (arith, n, h))
]

pub bootstrap_port :
    (port fallback : ℕ) (endpoint : Str)
    → attr_long (codes "port") fallback (ecf (bootstrap port endpoint))
      ≡ attr_long (codes "port") fallback (addattr_long (codes "port") port empty_node)
unfolding bootstrap child find_child set_child addattr addattr_long split_attr set_attr attr_long
    find_attr compare_str
bootstrap_port port fallback [] = refl
bootstrap_port port fallback (c ∷ s) = refl

bootstrap-has_child :
    (port : ℕ) (endpoint : Str)
    → has_factory (bootstrap port endpoint) ≡ (
        let v = attr_long (codes "port") (2 ^ 64 - 1) (ecf (bootstrap port endpoint)) in
        ltb 0 v && ltb v (2 ^ 63))
unfolding has_factory bootstrap child find_child set_child compare_str
bootstrap-has_child port [] = refl
bootstrap-has_child port (c ∷ s) = refl

-- The first state that the server makes for a port below 2 ^ 32 is one that parse() accepts exactly if
-- the port is not 0 and fits in 31 bits; the text of the end point is in it as it was given.
pub has_factory-bootstrap :
    (port : ℕ) (endpoint : Str)
    → port < 2 ^ 32
    → let root = bootstrap port endpoint in
      (has_factory root ≡ (ltb 0 port && ltb port (2 ^ 31)))
      × (attr_string (codes "endPointNoListen") [] (ecf root) ≡ endpoint)
unfolding bootstrap child find_child set_child addattr addattr_long split_attr set_attr attr_string
    find_attr compare_str
has_factory-bootstrap port endpoint h =
    let e =
      bootstrap_port port (2 ^ 64 - 1) endpoint
      ∙ attr_long-addattr_long (codes "port") port (2 ^ 64 - 1) empty_node h in
    (
      bootstrap-has_child port endpoint
          ∙ ap (λ v. ltb 0 v && ltb v (2 ^ 63)) e
          ∙ as_long-positive port h,
      text endpoint,
    )
  where
    text : (s : Str) → attr_string (codes "endPointNoListen") [] (ecf (bootstrap port s)) ≡ s
    text [] = refl
    text (c ∷ s) = refl

abbrev tail_of : ℕ → Str → Str
tail_of c [] = []
tail_of c (d ∷ s) = s

append_cancel : (base s t : Str) → base ++ s ≡ base ++ t → s ≡ t
append_cancel [] s t e = e
append_cancel (c ∷ base) s t e = append_cancel base s t (ap (tail_of c) e)

abbrev names_of : Str → Str × Str × Str
names_of base = (base ++ codes ".log", base ++ codes ".bak", base ++ codes ".ckp")

same_names : (x y : Str × Str × Str) → some x ≡ some y → x ≡ y
same_names x y e = cc

log_bak : codes ".log" ≢ codes ".bak"
unfolding str_eq
log_bak e = let p : true ≡ false = ap (str_eq (codes ".log")) e in cc

bak_ckp : codes ".bak" ≢ codes ".ckp"
unfolding str_eq
bak_ckp e = let p : true ≡ false = ap (str_eq (codes ".bak")) e in cc

log_ckp : codes ".log" ≢ codes ".ckp"
unfolding str_eq
log_ckp e = let p : true ≡ false = ap (str_eq (codes ".log")) e in cc

three_names :
    (base a b c : Str)
    → ◌≡◌ {A = Option (Str × Str × Str)} (some (names_of base)) (some (a, b, c))
    → (a ≢ b) × (b ≢ c) × (a ≢ c)
three_names base a b c e =
    let p = same_names (names_of base) (a, b, c) e in
    (
      λ q.
          elim (log_bak (
            append_cancel base (codes ".log") (codes ".bak")
              (ap (λ n. n.0) p ∙ q ∙ sym (ap (λ n. n.1) p)))) [ ],
      λ q.
          elim (bak_ckp (
            append_cancel base (codes ".bak") (codes ".ckp")
              (ap (λ n. n.1) p ∙ q ∙ sym (ap (λ n. n.2) p)))) [ ],
      λ q.
          elim (log_ckp (
            append_cancel base (codes ".log") (codes ".ckp")
              (ap (λ n. n.0) p ∙ q ∙ sym (ap (λ n. n.2) p)))) [ ],
    )

names_in-distinct :
    (dir host a b c : Str) → names_in dir host ≡ some (a, b, c) → (a ≢ b) × (b ≢ c) × (a ≢ c)
unfolding names_in
names_in-distinct [] host a b c h = cc
names_in-distinct (x ∷ s) host a b c h = elim (Bool-cases (x == b'/')) [
  | inl y ↦
      let sep = if last_char s x == b'/' then [] else codes "/" in
      let base = x ∷ s ++ (sep ++ (codes "omnievents-" ++ host)) in
      let p : names_in (x ∷ s) host ≡ some (names_of base) = rw (y, names_in) refl in
      three_names base a b c (sym p ∙ h)
  | inr n ↦ let p : names_in (x ∷ s) host ≡ none = rw (n, names_in) refl in cc
]

-- The three files of the log have different names, wherever the directory comes from.
pub file_names-distinct :
    (argument variable host : Option Str) (fallback a b c : Str)
    → file_names argument variable fallback host ≡ some (a, b, c)
    → (a ≢ b) × (b ≢ c) × (a ≢ c)
unfolding file_names
file_names-distinct argument variable none fallback a b c h = cc
file_names-distinct (some dir) variable (some host) fallback a b c h =
    names_in-distinct dir host a b c h
file_names-distinct none (some dir) (some host) fallback a b c h =
    names_in-distinct dir host a b c h
file_names-distinct none none (some host) fallback a b c h = names_in-distinct fallback host a b c h
