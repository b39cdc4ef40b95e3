-- ===== src/Factory.antt =====
-- The criteria that a client creates a channel with: supports(), parseCriteria() and extract() of
-- src/EventChannelFactory.cc. The value of a criterion is a CORBA::Any, of which the code extracts a
-- CORBA::ULong or a string that is not null.
pub mod Period
pub mod Channels
pub mod Listing
use omni_events.Prelude.{
  ℕ, ◌*◌, ◌%◌, ◌^◌, ◌==◌, Bool, true, false, ◌&&◌, List, [], ◌∷◌, ◌++◌, if◌then◌else◌,
}
use omni_events.Prelude.Text.{Str, codes, str_eq}
use omni_events.PersistNode.{PersistNode, empty_node, addattr, has_attr}
use omni_events.PersistNode.Longs.{addattr_long}

pub data Value : Type 0 where
  ulong : ℕ → Value
  text : Str → Value
  other : Value

pub record Criterion : Type 0 where
  pub name : Str
  pub value : Value

-- A component of a CosLifeCycle::Key.
pub record KeyPart : Type 0 where
  pub id : Str
  pub kind : Str

-- The tree that parseCriteria() makes, or what it throws.
pub data Outcome : Type 0 where
  parsed : PersistNode → Outcome
  invalid_criteria cannot_meet_criteria : List Criterion → Outcome

unfoldable pub supports : List KeyPart → Bool
supports (k ∷ []) =
    str_eq (k.id) (codes "EventChannel") && str_eq (k.kind) (codes "object interface")
supports _ = false

-- The first criterion with the name, if there is one.
unfoldable pub extract : Str → List Criterion → List Criterion
extract name [] = []
extract name (c ∷ cs) =
    let later = extract name cs in if str_eq (c.name) name then c ∷ [] else later

-- The branches of the chain of strcmp() calls.
pub data Setting : Type 0 where
  pull_retry_period_ms pull_retry_period max_queue_length max_num_proxies : Setting
  cycle_period_ns ins_name filter_id ignored : Setting

-- MaxEventsPerConsumer is obsolete and ignored like an unknown criterion.
unfoldable pub setting_of : Str → Setting
setting_of name =
    if str_eq name (codes "PullRetryPeriod_ms")
    then pull_retry_period_ms
    else (if str_eq name (codes "PullRetryPeriod")
        then pull_retry_period
        else (if str_eq name (codes "MaxQueueLength")
            then max_queue_length
            else (if str_eq name (codes "MaxNumProxies")
                then max_num_proxies
                else (if str_eq name (codes "CyclePeriod_ns")
                    then cycle_period_ns
                    else (if str_eq name (codes "InsName")
                        then ins_name
                        else (if str_eq name (codes "FilterId") then filter_id else ignored))))))

-- A number that must not be 0, and one that is ignored if it is.
set_period : Str → ℕ → ℕ → List Criterion → PersistNode → Outcome
set_period name v stored all n =
    if v == 0
    then cannot_meet_criteria (extract name all)
    else parsed (addattr_long (codes "PullRetryPeriod_ms") stored n)

set_size : Str → Value → List Criterion → PersistNode → Outcome
set_size key (ulong v) all n = parsed (if v == 0 then n else addattr_long key v n)
set_size key _ all n = invalid_criteria (extract key all)

set_text : Str → Value → List Criterion → PersistNode → Outcome
set_text key (text []) all n = parsed n
set_text key (text (c ∷ s)) all n = parsed (addattr (key ++ (codes "=" ++ (c ∷ s))) n)
set_text key _ all n = invalid_criteria (extract key all)

-- The body of the loop.
unfoldable pub apply_setting : Setting → Value → List Criterion → PersistNode → Outcome
unfolding set_period set_size set_text
apply_setting pull_retry_period_ms (ulong v) all n =
    set_period (codes "PullRetryPeriod_ms") v v all n
apply_setting pull_retry_period_ms _ all n =
    invalid_criteria (extract (codes "PullRetryPeriod_ms") all)
apply_setting pull_retry_period (ulong v) all n =
    if has_attr (codes "PullRetryPeriod_ms") n
    then parsed n
    else set_period (codes "PullRetryPeriod") v (v * 1000 % 2 ^ 32) all n
apply_setting pull_retry_period _ all n =
    if has_attr (codes "PullRetryPeriod_ms") n
    then parsed n
    else invalid_criteria (extract (codes "PullRetryPeriod") all)
apply_setting max_queue_length value all n = set_size (codes "MaxQueueLength") value all n
apply_setting max_num_proxies value all n = set_size (codes "MaxNumProxies") value all n
apply_setting cycle_period_ns value all n = set_size (codes "CyclePeriod_ns") value all n
apply_setting ins_name value all n = set_text (codes "InsName") value all n
apply_setting filter_id value all n = set_text (codes "FilterId") value all n
apply_setting ignored value all n = parsed n

unfoldable pub parse_rest : List Criterion → List Criterion → PersistNode → Outcome
parse_rest all [] n = parsed n
parse_rest all (c ∷ cs) n = elim (apply_setting (setting_of (c.name)) (c.value) all n) [
  | parsed m ↦ parse_rest all cs m
  | invalid_criteria found ↦ invalid_criteria found
  | cannot_meet_criteria found ↦ cannot_meet_criteria found
]

unfoldable pub parse_criteria : List Criterion → Outcome
parse_criteria criteria = parse_rest criteria criteria empty_node
