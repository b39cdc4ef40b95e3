-- ===== src/SupplierAdmin/Restart/Pulling.antt =====
-- The servants of the pull consumers in a database.
use omni_events.Prelude.{
  ◌≡◌, refl, ap, ◌∙◌, true, false, Option, none, some, List, [], ◌∷◌, ◌++◌, if◌then◌else◌,
}
use mathlib.Core.List.{append-nil}
use omni_events.Prelude.Text.{Str, codes, str_eq}
use omni_events.PersistNode.Maps.{Attrs}
use omni_events.PersistNode.Parse.Tokens.{Spaceless}
use omni_events.PersistNode.Parse.Wellformed.{GoodAttrs}
use omni_events.Journal.{put, line_text, line_attrs, journal_text}
use omni_events.Journal.Append.{line_text-append}
use omni_events.Proxy.{Ref, ok, Core, basic_text, key_text, target_text}
use omni_events.Proxy.PullConsumer.{key_name}
use omni_events.Proxy.PullConsumerManager.{Servant, output, output_all}
use omni_events.Proxy.PushConsumer.Recovery.Lines.{IsPiece, attrs-GoodAttrs}
use omni_events.SupplierAdmin.Restart.Entries.{Entries, GoodEntries, key, lines_of}

abbrev pub pull_kind : Str
pull_kind = codes "ProxyPullConsumer"

abbrev pub target_attrs : Option Ref → Attrs
target_attrs none = []
target_attrs (some t) = (codes "IOR", t) ∷ []

abbrev pub pull_entries : List Servant → Entries
pull_entries [] = []
pull_entries (s ∷ ss) = (s.core.oid, target_attrs s.self.target) ∷ pull_entries ss

abbrev pub SpacelessTarget : Option Ref → Type 0
SpacelessTarget none = Unit {0}
SpacelessTarget (some t) = Spaceless t

-- A servant that the POA knows, under an id and with a target that can stand in the database.
abbrev pub IsStored : Str → Servant → Type 0
IsStored channel s =
    (s.core.channel ≡ channel)
    × (s.core.active ≡ true)
    × IsPiece s.core.oid
    × SpacelessTarget s.self.target

abbrev pub AllStored : Str → List Servant → Type 0
AllStored channel [] = Unit {0}
AllStored channel (s ∷ ss) = IsStored channel s × AllStored channel ss

-- The IOR that is stored for a servant is that of its target, and that of no target is none.
abbrev pub Resolves : (Str → Option Ref) → Option Ref → Type 0
Resolves resolve none = resolve [] ≡ none
Resolves resolve (some t) = resolve t ≡ some t

abbrev pub AllResolve : (Str → Option Ref) → List Servant → Type 0
AllResolve resolve [] = Unit {0}
AllResolve resolve (s ∷ ss) = Resolves resolve s.self.target × AllResolve resolve ss

abbrev pub Absent : Str → List Servant → Type 0
Absent oid [] = Unit {0}
Absent oid (s ∷ ss) = (str_eq oid s.core.oid ≡ false) × Absent oid ss

-- No two servants have one id.
abbrev pub Distinct : List Servant → Type 0
Distinct [] = Unit {0}
Distinct (s ∷ ss) = Absent s.core.oid ss × Distinct ss

-- The supplier of the proxy with an id, and `other` where there is no such proxy.
abbrev pub supplier_or : Option Ref → Str → List Servant → Option Ref
supplier_or other oid [] = other
supplier_or other oid (s ∷ ss) =
    if str_eq oid s.core.oid then s.self.target else supplier_or other oid ss

abbrev pub supplier_of : Str → List Servant → Option Ref
supplier_of oid ss = supplier_or none oid ss

pub supplier_or-Absent :
    (other : Option Ref) (oid : Str) (ss : List Servant)
    → Absent oid ss
    → supplier_or other oid ss ≡ other
supplier_or-Absent other oid [] a = refl
supplier_or-Absent other oid (s ∷ ss) a = rw a.0 (supplier_or-Absent other oid ss a.1)

pub pull_entries-Good :
    (channel : Str) (ss : List Servant) → AllStored channel ss → GoodEntries (pull_entries ss)
pull_entries-Good channel [] g = tt
pull_entries-Good channel (s ∷ ss) g =
    (g.0.2, attrs_good s.self.target g.0.3, pull_entries-Good channel ss g.1)
  where
    attrs_good : (t : Option Ref) → SpacelessTarget t → GoodAttrs (target_attrs t)
    attrs_good none h = tt
    attrs_good (some t) h = attrs-GoodAttrs t false h

basic_text-line :
    (c : Core) (channel : Str) (t : Option Ref)
    → c.channel ≡ channel
    → basic_text c key_name (target_text t [])
      ≡ line_text (put (key pull_kind channel c.oid) (target_attrs t)) []
unfolding basic_text key_text line_text line_attrs
basic_text-line c channel none h = ap (λ x. key pull_kind x c.oid ++ codes " ;;\n") h
basic_text-line c channel (some t) h =
    ap (λ x. key pull_kind x c.oid ++ (codes " IOR=" ++ ((t ++ []) ++ codes " ;;\n"))) h
    ∙ ap (λ x. key pull_kind channel c.oid ++ (codes " IOR=" ++ (x ++ codes " ;;\n")))
        (append-nil t)

output-line :
    (channel : Str) (s : Servant)
    → IsStored channel s
    → output s
      ≡ ok (line_text (put (key pull_kind channel s.core.oid) (target_attrs s.self.target)) [])
unfolding output basic_text key_text
output-line channel s g = rw g.1 (ap ok (basic_text-line s.core channel s.self.target g.0))

pub output_all-lines_of :
    (channel : Str) (ss : List Servant)
    → AllStored channel ss
    → output_all ss ≡ (ok tt, journal_text (lines_of pull_kind channel (pull_entries ss)) [])
unfolding output_all journal_text
output_all-lines_of channel [] g = refl
output_all-lines_of channel (s ∷ ss) g =
    let l = put (key pull_kind channel s.core.oid) (target_attrs s.self.target) in
    let rest = journal_text (lines_of pull_kind channel (pull_entries ss)) [] in
    rw (output-line channel s g.0, output_all)
      (ap (λ p. (p.0, line_text l [] ++ p.1)) (output_all-lines_of channel ss g.1)
        ∙ ap (λ t. (ok tt, t)) (line_text-append l [] rest))
