-- ===== src/Iterators.antt =====
-- The iterators over long lists and the servant locator that owns them: src/Iterator.h and
-- src/IteratorSupport.cc.
pub mod Fetch
pub mod References
use Prim.Native.Nat.{min}
use omni_events.Prelude.{
  ℕ, zero, suc, ◌+◌, ◌-◌, ◌==◌, ltb, leb, Bool, true, false, Option, none, some, List, [], ◌∷◌,
  if◌then◌else◌, length, take, drop, get_elem?,
}
use omni_events.Prelude.Text.{Str, str_eq}

-- An Iterator and the sequence that it walks.
pub record Iterator (A : Type 0) : Type 0 where
  pub list : List A
  pub offset : ℕ

module _ {A : Type 0} where
  -- `none` is the new Item that stands for no item, with the result false.
  unfoldable pub next_one : Iterator A → Option A × Iterator A
  next_one it =
      if leb (length it.list) it.offset
      then (none, it)
      else (get_elem? it.list it.offset, record it { offset = it.offset + 1 })

  -- The result, the items, and the iterator afterwards.
  unfoldable pub next_n : ℕ → Iterator A → Bool × List A × Iterator A
  next_n how_many it =
      let n = min how_many (length it.list - it.offset) in
      if leb (length it.list) it.offset
      then (false, [], it)
      else (true, take n (drop it.offset it.list), record it { offset = it.offset + n })

  -- list(): the items that are returned at once, and the iterator over all, nil if they are all.
  unfoldable pub list : ℕ → List A → List A × Option (Iterator A)
  list count items =
      let it : Iterator A = record { list = items; offset = 0 } in
      let (found, first, rest) = next_n count it in
      if leb (length items) count then (items, none) else (first, some rest)

-- An entry of `activeMap_`. Times are counts of the clock's unit since its epoch.
pub record Entry : Type 0 where
  pub oid : Str
  pub servant : ℕ
  pub ttl : ℕ
  pub last_access : ℕ
  pub destroy : Str

-- A GCServantLocator, and the reference counts of the servants, which are numbers.
pub record Locator : Type 0 where
  pub active_map : List Entry
  pub refs : ℕ → ℕ

abbrev pub add_ref : ℕ → (ℕ → ℕ) → ℕ → ℕ
add_ref s refs t = if t == s then refs t + 1 else refs t

abbrev pub remove_ref : ℕ → (ℕ → ℕ) → ℕ → ℕ
remove_ref s refs t = if t == s then refs t - 1 else refs t

unfoldable pub find : Str → List Entry → Option Entry
find oid [] = none
find oid (e ∷ es) = let later = find oid es in if str_eq oid e.oid then some e else later

-- The entry that find() gives, erased.
unfoldable pub erase : Str → List Entry → List Entry
erase oid [] = []
erase oid (e ∷ es) = let later = erase oid es in if str_eq oid e.oid then es else e ∷ later

-- `iter->second.last_access = now`.
unfoldable pub touch : Str → ℕ → List Entry → List Entry
touch oid now [] = []
touch oid now (e ∷ es) =
    let later = touch oid now es in
    if str_eq oid e.oid then record e { last_access = now } ∷ es else e ∷ later

-- The servant of a request, `none` for OBJECT_NOT_EXIST.
unfoldable pub preinvoke : ℕ → Str → Str → Locator → Option ℕ × Locator
preinvoke now oid operation l = elim (find oid l.active_map) [
  | none ↦ (none, l)
  | some e ↦ (
    some (e.servant),
    (if str_eq (e.destroy) operation
        then record l { active_map = erase oid l.active_map }
        else record { active_map = touch oid now l.active_map; refs = add_ref (e.servant) l.refs }),
  )
]

unfoldable pub postinvoke : ℕ → Locator → Locator
postinvoke servant l = record l { refs = remove_ref servant l.refs }

-- `none` is ObjectAlreadyActive.
unfoldable pub register_servant : ℕ → Str → ℕ → ℕ → Str → Locator → Option Locator
register_servant now oid servant ttl destroy l = elim (find oid l.active_map) [
  | some e ↦ none
  | none ↦ some (record {
    active_map =
        record { oid = oid; servant = servant; ttl = ttl; last_access = now; destroy = destroy }
        ∷ l.active_map;
    refs = add_ref servant l.refs;
  })
]

-- The clock is read at each entry, whose number it gets. The age of an entry is a signed duration.
unfoldable pub sweep : (ℕ → ℕ) → ℕ → List Entry → (ℕ → ℕ) → List Entry × (ℕ → ℕ)
sweep clock i [] refs = ([], refs)
sweep clock i (e ∷ es) refs =
    let released = sweep clock (suc i) es (remove_ref (e.servant) refs) in
    let (rest, refs') = sweep clock (suc i) es refs in
    if ltb (e.last_access + e.ttl) (clock i) then released else (e ∷ rest, refs')

unfoldable pub gc_sweep : (ℕ → ℕ) → Locator → Locator
unfolding sweep
gc_sweep clock l =
    let (kept, refs) = sweep clock 0 l.active_map l.refs in
    record { active_map = kept; refs = refs }

-- The destructor's loop.
unfoldable pub release_all : List Entry → (ℕ → ℕ) → ℕ → ℕ
release_all [] refs = refs
release_all (e ∷ es) refs = release_all es (remove_ref (e.servant) refs)
