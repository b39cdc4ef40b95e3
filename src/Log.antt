-- ===== src/Log.antt =====
-- The transaction log on disk: class omniEventsLog, src/omniEventsLog.cc and src/omniEventsLog.h.
--
-- The directory has three names; each is bound to a file or to none. link() binds a second name to the
-- same file, so a file is its number, and its text stands apart. What the system does to the calls of
-- a process is a script: a call that works, a call that fails, and where the script ends, the process
-- is killed. Characters reach a file one by one, in their order. The build is one with link() and
-- unlink(), and with fstream's open(). _logstream is the number of the file that it is open on.
pub mod Checkpoint
pub mod Startup
mod Options
use omni_events.Prelude.{
  ℕ, ◌+◌, ◌-◌, ◌^◌, ltb, ◌==◌, Bool, true, false, not, ◌&&◌, Option, none, some, List, [], ◌∷◌,
  ◌++◌, if◌then◌else◌,
}
use omni_events.Prelude.Text.{Str, codes}
use omni_events.PersistNode.{PersistNode, empty_node, node, leaf, child, addattr, set_child}
use omni_events.PersistNode.Longs.{addattr_long, attr_long}

pub record Disk : Type 0 where
  pub active : Option ℕ
  pub backup : Option ℕ
  pub checkpoint : Option ℕ
  pub texts : ℕ → Str
  pub next : ℕ

pub record Log : Type 0 where
  pub disk : Disk
  pub logstream : Option ℕ
  pub checkpoint_needed : Bool
  pub first_checkpoint : Bool
  pub script : List Bool

-- How a call ends: with a value, with an IOError or an error code, by exit(1), or not at all.
pub data Reply (A : Type 0) : Type 0 where
  value : A → Reply A
  io_error exited killed : Reply A

abbrev pub Action : Type 0 → Type 0
Action A = Log → Reply A × Log

infixl 5 ◌>>=◌ ◌>>◌
abbrev pub ◌>>=◌ : {A B : Type 0} → Action A → (A → Action B) → Action B
◌>>=◌ m k l =
    let (r, next) = m l in
    elim r [
      | value a ↦ k a next
      | io_error ↦ (io_error, next)
      | exited ↦ (exited, next)
      | killed ↦ (killed, next)
    ]

abbrev pub ◌>>◌ : {A B : Type 0} → Action A → Action B → Action B
m >> k = m >>= λ _. k

-- A system call: what it does to the disk, or `none` where it cannot.
unfoldable pub system : (Disk → Option Disk) → Action (Unit {0})
system f l = elim l.script [
  | [] ↦ (killed, l)
  | false ∷ rest ↦ (io_error, record l { script = rest })
  | true ∷ rest ↦ elim (f l.disk) [
    | none ↦ (io_error, record l { script = rest })
    | some d ↦ (value tt, record l { disk = d; script = rest })
  ]
]

abbrev pub write_file : ℕ → Str → (ℕ → Str) → ℕ → Str
write_file file text texts n = if n == file then text else texts n

-- open() of the checkpoint file with ios::trunc, which empties a file that is there.
abbrev pub truncate_checkpoint : Disk → Option Disk
truncate_checkpoint d = elim d.checkpoint [
  | some c ↦ some (record d { texts = write_file c [] d.texts })
  | none ↦ some (record d {
    checkpoint = some d.next;
    texts = write_file d.next [] d.texts;
    next = d.next + 1;
  })
]

abbrev pub put_char : ℕ → Disk → Option Disk
put_char c d = elim d.checkpoint [
  | none ↦ none
  | some f ↦ some (record d { texts = write_file f (d.texts f ++ c ∷ []) d.texts })
]

unfoldable pub write_checkpoint : Str → Action (Unit {0})
write_checkpoint [] = system some
write_checkpoint (c ∷ text) = do system (put_char c); write_checkpoint text

abbrev pub unlink_checkpoint : Disk → Option Disk
unlink_checkpoint d = elim d.checkpoint [
  | none ↦ none
  | some f ↦ some (record d { checkpoint = none })
]

abbrev pub unlink_backup : Disk → Option Disk
unlink_backup d = elim d.backup [ none ↦ none | some f ↦ some (record d { backup = none }) ]

abbrev pub unlink_active : Disk → Option Disk
unlink_active d = elim d.active [ none ↦ none | some f ↦ some (record d { active = none }) ]

-- link() fails where the new name exists.
abbrev pub link_backup : Disk → Option Disk
link_backup d = elim d.active [
  | none ↦ none
  | some f ↦ elim d.backup [ some g ↦ none | none ↦ some (record d { backup = some f }) ]
]

abbrev pub link_active : Disk → Option Disk
link_active d = elim d.checkpoint [
  | none ↦ none
  | some f ↦ elim d.active [ some g ↦ none | none ↦ some (record d { active = some f }) ]
]

-- open() with ios::app, for a name that exists.
abbrev pub open_logstream : Action (Unit {0})
open_logstream l = elim l.script [
  | [] ↦ (killed, l)
  | false ∷ rest ↦ (io_error, record l { script = rest })
  | true ∷ rest ↦ (value tt, record l { logstream = l.disk.active; script = rest })
]

abbrev pub close_logstream : Action (Unit {0})
close_logstream l = (value tt, record l { logstream = none })

-- A call whose result is not looked at, and a call whose failure ends the process.
abbrev pub ignored : Action (Unit {0}) → Action (Unit {0})
ignored m l =
    let (r, next) = m l in
    elim r [
      | value a ↦ (value tt, next)
      | io_error ↦ (value tt, next)
      | exited ↦ (exited, next)
      | killed ↦ (killed, next)
    ]

abbrev pub or_exit : Action (Unit {0}) → Action (Unit {0})
or_exit m l =
    let (r, next) = m l in
    elim r [
      | value a ↦ (value tt, next)
      | io_error ↦ (exited, next)
      | exited ↦ (exited, next)
      | killed ↦ (killed, next)
    ]

-- incarnateFactory(), up to the factory: the log is opened, and where that fails its file is removed.
unfoldable pub incarnate_factory : Action (Unit {0})
unfolding system
incarnate_factory l =
    let (r, next) = open_logstream l in
    elim r [
      | value a ↦ (value tt, next)
      | io_error ↦
          (ignored (system unlink_active) >>= λ _. λ k. (exited, record k { logstream = none }))
            next
      | exited ↦ (exited, next)
      | killed ↦ (killed, next)
    ]

-- A new process over the same disk.
abbrev pub new_process : List Bool → Log → Log
new_process script l = record {
  disk = l.disk;
  logstream = none;
  checkpoint_needed = true;
  first_checkpoint = true;
  script = script;
}

-- What a round of the loop in checkpoint() comes to.
pub data Round : Type 0 where
  idle abandoned completed : Round

-- Phase 1. The value says that the file is written.
unfoldable pub prepare : Str → Action Bool
unfolding system write_checkpoint
prepare text l =
    let (r, next) = (system truncate_checkpoint >> write_checkpoint text) l in
    elim r [
      | value a ↦ (value true, next)
      | io_error ↦ (ignored (system unlink_checkpoint) >>= λ _. λ k. (value false, k)) next
      | exited ↦ (exited, next)
      | killed ↦ (killed, next)
    ]

-- Phase 2.
unfoldable pub commit : Action (Unit {0})
unfolding system
commit = do
  close_logstream
  ignored (system unlink_backup)
  or_exit (system link_backup)
  or_exit (system unlink_active)
  or_exit (system link_active)
  or_exit (system unlink_checkpoint)
  or_exit open_logstream
  λ l. (value tt, record l { checkpoint_needed = false })

-- A round, with the text that output() gives for the state of the server.
unfoldable pub checkpoint_round : Str → Action Round
unfolding prepare commit
checkpoint_round text l =
    if not l.first_checkpoint && not l.checkpoint_needed
    then (value idle, l)
    else (prepare text >>= λ written.
          if written then (commit >>= λ _. λ k. (value completed, k)) else λ k.
          (value abandoned, k))
        (record l { first_checkpoint = false })

-- What a WriteLock writes: the text goes to the file of _logstream.
unfoldable pub write_lock : Str → Log → Log
write_lock text l =
    let written : Log = elim l.logstream [
      | none ↦ l
      | some f ↦ record l {
        disk = record (l.disk) { texts = write_file f (l.disk.texts f ++ text) l.disk.texts };
      }
    ] in
    record written { checkpoint_needed = true }

-- bootstrap(): the state of a server without a database. A null pointer and an empty text are the
-- same to it.
unfoldable pub bootstrap : ℕ → Str → PersistNode
bootstrap port [] =
    node (set_child (codes "ecf") (addattr_long (codes "port") port empty_node) leaf) []
bootstrap port (c ∷ s) =
    let ecf =
      addattr (codes "endPointNoListen=" ++ c ∷ s) (addattr_long (codes "port") port empty_node) in
    node (set_child (codes "ecf") ecf leaf) []

-- What parse() asks of the state that it has read, before it returns it: an `ecf` node whose port, a
-- signed long, is positive.
unfoldable pub has_factory : PersistNode → Bool
has_factory root = elim (child (codes "ecf") root) [
  | none ↦ false
  | some ecf ↦
      let port = attr_long (codes "port") (2 ^ 64 - 1) ecf in ltb 0 port && ltb port (2 ^ 63)
]

abbrev pub last_char : Str → ℕ → ℕ
last_char [] c = c
last_char (d ∷ s) c = last_char s d

-- initializeFileNames(), with the argument, the value of OMNIEVENTS_LOGDIR, the default location and
-- the name of the host, `none` where gethostname() fails. A result `none` ends the process.
unfoldable pub names_in : Str → Str → Option (Str × Str × Str)
names_in [] host = none
names_in (c ∷ s) host =
    let sep = if last_char s c == b'/' then [] else codes "/" in
    let base = c ∷ s ++ (sep ++ (codes "omnievents-" ++ host)) in
    if c == b'/'
    then some (base ++ codes ".log", base ++ codes ".bak", base ++ codes ".ckp")
    else none

unfoldable pub file_names : Option Str → Option Str → Str → Option Str → Option (Str × Str × Str)
unfolding names_in
file_names argument variable fallback none = none
file_names (some dir) variable fallback (some host) = names_in dir host
file_names none (some dir) fallback (some host) = names_in dir host
file_names none none fallback (some host) = names_in fallback host
