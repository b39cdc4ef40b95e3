-- ===== src/Queue/Filter.antt =====
-- The event filters: src/Filter.h and src/Filter.cc, as they are compiled for omniORB 4.
-- A CORBA::Any belongs to the ORB: of an event the filters read its type's kind and repository id,
-- the methods `type()->kind()` and `type()->id()` that `AnyType` has as parameters. The kinds are
-- the cases of the source's switch, less omniORB's internal `_np_tk_indirect`, which an Any that an
-- application receives never has.
use omni_events.Prelude.{
  ◌+◌, ◌%◌, ◌≡◌, refl, Bool, true, false, ◌↔◌, ◌⊎◌, sym, ◌∙◌, inl, inr, Bool-cases, some, set,
}
use mathlib.Core.Bool.{decide, decide_iff, false≢true}
use omni_events.Prelude.Text.{Str, str_eq, str_eq→eq, str_eq_refl}
use omni_events.Queue.{EventQueue, append, set_filter}

pub data TcKind : Type 0 where
  tk_objref tk_struct tk_union tk_enum tk_alias tk_except : TcKind
  tk_sequence tk_array : TcKind
  tk_null tk_void tk_short tk_long tk_ushort tk_ulong tk_float tk_double tk_boolean tk_char : TcKind
  tk_octet tk_any tk_type_code tk_principal tk_string tk_longlong tk_ulonglong : TcKind
  tk_longdouble tk_wchar tk_wstring tk_fixed tk_value tk_value_box tk_native : TcKind
  tk_abstract_interface tk_local_interface : TcKind

pub TcKind-discrete : Discrete TcKind
TcKind-discrete = hlevel

pub record AnyType (E : Type 0) : Type 0 where
  pub kind : E → TcKind
  pub id : E → Str

pub data Filter : Type 0 where
  by_tc_kind : TcKind → Filter
  by_repository_id : Str → Filter

-- The switch of FilterByRepositoryId::keep().
keep_id : Str → Str → TcKind → Bool
keep_id rid id tk_objref = str_eq rid id
keep_id rid id tk_struct = str_eq rid id
keep_id rid id tk_union = str_eq rid id
keep_id rid id tk_enum = str_eq rid id
keep_id rid id tk_alias = str_eq rid id
keep_id rid id tk_except = str_eq rid id
keep_id rid id _ = false

pub keep : {E : Type 0} → AnyType E → Filter → E → Bool
unfolding keep_id TcKind-discrete
keep any (by_tc_kind kind) event = decide (TcKind-discrete (any.kind event) kind)
keep any (by_repository_id rid) event = keep_id rid (any.id event) (any.kind event)

-- The kinds whose type codes carry a repository id.
pub data HasId : TcKind → Type 0 where
  objref_id : HasId tk_objref
  struct_id : HasId tk_struct
  union_id : HasId tk_union
  enum_id : HasId tk_enum
  alias_id : HasId tk_alias
  except_id : HasId tk_except

-- What a filter means: the type has this kind, or it is of a kind with a repository id, and has
-- this one.
abbrev pub Admits : {E : Type 0} → AnyType E → Filter → E → Type 0
Admits any (by_tc_kind kind) event = any.kind event ≡ kind
Admits any (by_repository_id rid) event = HasId (any.kind event) × (rid ≡ any.id event)

keep_id_sound : (rid id : Str) (k : TcKind) → keep_id rid id k ≡ true → HasId k × (rid ≡ id)
unfolding keep_id
keep_id_sound rid id tk_objref h = (objref_id, str_eq→eq rid id h)
keep_id_sound rid id tk_struct h = (struct_id, str_eq→eq rid id h)
keep_id_sound rid id tk_union h = (union_id, str_eq→eq rid id h)
keep_id_sound rid id tk_enum h = (enum_id, str_eq→eq rid id h)
keep_id_sound rid id tk_alias h = (alias_id, str_eq→eq rid id h)
keep_id_sound rid id tk_except h = (except_id, str_eq→eq rid id h)
keep_id_sound rid id _ h = cc

keep_id_complete : (id : Str) (k : TcKind) → HasId k → keep_id id id k ≡ true
unfolding keep_id
keep_id_complete id _ objref_id = str_eq_refl id
keep_id_complete id _ struct_id = str_eq_refl id
keep_id_complete id _ union_id = str_eq_refl id
keep_id_complete id _ enum_id = str_eq_refl id
keep_id_complete id _ alias_id = str_eq_refl id
keep_id_complete id _ except_id = str_eq_refl id

pub keep-Admits :
    {E : Type 0} (any : AnyType E) (f : Filter) (e : E) → (keep any f e ≡ true) ↔ Admits any f e
unfolding keep
keep-Admits any (by_tc_kind kind) e = decide_iff (TcKind-discrete (any.kind e) kind)
keep-Admits any (by_repository_id rid) e = (
  keep_id_sound rid (any.id e) (any.kind e),
  λ h. rw h.1 (keep_id_complete (any.id e) (any.kind e) h.0),
)

-- A queue with a filter takes an event whose type has the filter's kind or repository id into the
-- slot that it writes next, and moves on; of any other event it stays as it is.
pub append-Admits :
    {E : Type 0} (any : AnyType E) (f : Filter) (q : EventQueue E) (e : E)
    → let r = append (set_filter (keep any f) q) e in
      (Admits any f e × (r.queue ≡ set q.queue q.next (some e)) × (r.next ≡ (q.next + 1) % q.size))
      ⊎ ((¬ Admits any f e) × (r.queue ≡ q.queue) × (r.next ≡ q.next))
unfolding append set_filter
append-Admits any f q e = elim (Bool-cases (keep any f e)) [
  | inl yes_ ↦ inl ((keep-Admits any f e).0 yes_, rw yes_ refl, rw yes_ refl)
  | inr no_ ↦ inr (λ a. false≢true (sym no_ ∙ (keep-Admits any f e).1 a), rw no_ refl, rw no_ refl)
]
