-- ===== src/Log/Options.antt =====
-- What main() of src/main.cc makes of the options -p and -a and of the files that it finds, in front of
-- daemonize(), with parse() of src/omniEventsLog.cc.
--
-- A port is an int that is not negative; 0 is no option -p, which refuses other ports that are not
-- positive.
mod Tests
use omni_events.Prelude.{
  ℕ, ◌-◌, ◌%◌, ◌^◌, ◌<◌, ◌≡◌, refl, sym, ap, ◌∙◌, ◌==◌, ==_refl, ltb, Bool, true, false, not, ◌&&◌,
  ◌||◌, Bool-cases, Option, none, some, [], if◌then◌else◌, arith, inl, inr,
}
use omni_events.Prelude.Text.{Str, codes, str_eq}
use omni_events.PersistNode.{PersistNode, empty_node, attr_string}
use omni_events.PersistNode.Longs.{attr_long, addattr_long, attr_long-addattr_long}
use omni_events.Log.{bootstrap, has_factory}
use omni_events.Log.Startup.{ecf, bootstrap_port, has_factory-bootstrap}

-- The active file: stat() does not find it, it cannot be opened, or it holds a tree.
pub data ActiveFile : Type 0 where
  missing unreadable : ActiveFile
  holds : PersistNode → ActiveFile

-- The port and the end point that the ORB is given, or the reason why the process ends with 1.
pub data Choice : Type 0 where
  starts : ℕ → Str → Choice
  cannot_read invalid_database port_conflict end_point_conflict backup_exists : Choice

abbrev pub differs : Option Str → Str → Bool
differs none stored = false
differs (some e) stored = not (str_eq e stored)

abbrev pub text_of : Option Str → Str
text_of none = []
text_of (some e) = e

unfoldable pub start_with : ℕ → PersistNode → Choice
start_with port root =
    starts (attr_long (codes "port") port (ecf root) % 2 ^ 32)
      (attr_string (codes "endPointNoListen") [] (ecf root))

unfoldable pub initial_state : ℕ → Option Str → ActiveFile → Bool → Choice
unfolding start_with
initial_state port end_point missing backup =
    if backup
    then backup_exists
    else start_with port (bootstrap (if port == 0 then 11169 else port) (text_of end_point))
initial_state port end_point unreadable backup = cannot_read
initial_state port end_point (holds root) backup =
    if has_factory root
    then (if not (port == 0) && not (port == attr_long (codes "port") 0 (ecf root))
        then port_conflict
        else (if differs end_point (attr_string (codes "endPointNoListen") [] (ecf root))
            then end_point_conflict
            else start_with port root))
    else invalid_database

module _ (port : ℕ) (end_point : Str) (positive : ltb 0 port ≡ true)
    (small : ltb port (2 ^ 31) ≡ true) where
  stored_port :
      (fallback : ℕ) → attr_long (codes "port") fallback (ecf (bootstrap port end_point)) ≡ port
  stored_port fallback =
      bootstrap_port port fallback end_point
      ∙ attr_long-addattr_long (codes "port") port fallback empty_node (ground (arith, small))
      ∙ rw small refl

  start_with-bootstrap :
      (option : ℕ) → start_with option (bootstrap port end_point) ≡ starts port end_point
  unfolding start_with
  start_with-bootstrap option =
      let e : attr_long (codes "port") option (ecf (bootstrap port end_point)) % 2 ^ 32 ≡ port =
        ap (λ v. v % 2 ^ 32) (stored_port option) ∙ ground (arith, small) in
      ap
        (λ v. starts v (attr_string (codes "endPointNoListen") [] (ecf (bootstrap port end_point))))
        e
      ∙ ap (starts port) ((has_factory-bootstrap port end_point (ground (arith, small))).1)

-- The choice for a database, by what is asked of it.
abbrev decided : ℕ → Option Str → Bool → ℕ → Str → Choice → Choice
decided port end_point valid stored_port stored choice =
    if valid
    then (if not (port == 0) && not (port == stored_port)
        then port_conflict
        else (if differs end_point stored then end_point_conflict else choice))
    else invalid_database

-- What the options -p and -a of a later start give, if the first was for a port and an end point.
abbrev pub later : ℕ → Str → ℕ → Option Str → Choice
later port end_point q e = decided q e true port end_point (starts port end_point)

initial_state-holds :
    (port : ℕ) (end_point : Str)
    → ltb 0 port ≡ true
    → ltb port (2 ^ 31) ≡ true
    → (q : ℕ) (e : Option Str) (backup : Bool)
    → initial_state q e (holds (bootstrap port end_point)) backup ≡ later port end_point q e
unfolding initial_state
initial_state-holds port end_point positive small q e backup =
    let root = bootstrap port end_point in
    let (valid, stored) = has_factory-bootstrap port end_point (ground (arith, small)) in
    let accepted : has_factory root ≡ true =
      valid ∙ ap (λ b. b && ltb port (2 ^ 31)) positive ∙ small in
    let number = attr_long (codes "port") 0 (ecf root) in
    let name = attr_string (codes "endPointNoListen") [] (ecf root) in
    ap (λ b. decided q e b number name (start_with q root)) accepted
    ∙ ap (λ n. decided q e true n name (start_with q root))
        (stored_port port end_point positive small 0)
    ∙ ap (λ s. decided q e true port s (start_with q root)) stored
    ∙ ap (decided q e true port end_point) (start_with-bootstrap port end_point positive small q)

abbrev pub chosen : ℕ → ℕ
chosen port = if port == 0 then 11169 else port

chosen-positive : (port : ℕ) → ltb 0 (chosen port) ≡ true
chosen-positive port = elim (Bool-cases (port == 0)) [
  | inl y ↦ rw y (ground arith)
  | inr n ↦ rw n (ground (arith, n))
]

chosen-small : (port : ℕ) → ltb port (2 ^ 31) ≡ true → ltb (chosen port) (2 ^ 31) ≡ true
chosen-small port h = elim (Bool-cases (port == 0)) [ inl y ↦ rw y (ground arith) | inr n ↦ rw n h ]

-- A first start with a port below 2 ^ 31 or none, and with an end point or none, uses that port or
-- 11169, and that end point. Every later start on the state that it makes, with any options, uses the
-- same two, unless -p gives another port or -a another end point: then it ends with the message on the
-- first of the two.
pub initial_state-later :
    (port : ℕ) (end_point : Option Str)
    → ltb port (2 ^ 31) ≡ true
    → (initial_state port end_point missing false ≡ starts (chosen port) (text_of end_point))
      × ((q : ℕ) (e : Option Str) (backup : Bool)
          → initial_state q e (holds (bootstrap (chosen port) (text_of end_point))) backup
            ≡ later (chosen port) (text_of end_point) q e)
unfolding initial_state
initial_state-later port end_point small =
    let p = chosen-positive port in
    let s = chosen-small port small in
    (
      start_with-bootstrap (chosen port) (text_of end_point) p s port,
      initial_state-holds (chosen port) (text_of end_point) p s,
    )
