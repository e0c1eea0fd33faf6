-- ===== src/PreloadIo.antt =====
-- frontrun/_preload_io.py: the lines of the preload library's pipe, and the dispatcher that turns
-- them into events. Bytes and characters are numbers. The pipe, `select` and the environment are not
-- part of it; what `os.read` gives is an input.
pub mod Lines
pub mod Chunks
pub mod Format
mod Tests
use frontrun.Prelude.{
  ℕ, zero, suc, ◌+◌, Bool, true, false, ◌&&◌, ◌||◌, not, Option, none, some, List, [], ◌∷◌, ◌++◌,
  nat_eq, ◌==◌, if◌then◌else◌, length, is_some,
}

-- The codes of the tab and of the end of a line.
abbrev pub tab : ℕ
tab = 9

abbrev pub newline : ℕ
newline = 10

abbrev pub Text : Type 0
Text = List ℕ

-- PreloadIOEvent, with the numbers that `int` reads
pub record Event (Number : Type 0) : Type 0 where
  pub kind : Text
  pub resource_id : Text
  pub fd : Number
  pub pid : Number
  pub tid : Number

abbrev pub is_empty : Text → Bool
is_empty [] = true
is_empty (c ∷ cs) = false

-- `line.rstrip("\n")`
abbrev pub strip_here : ℕ → Text → Text
strip_here c rest = if is_empty rest && c == newline then [] else c ∷ rest

unfoldable pub rstrip : Text → Text
rstrip [] = []
rstrip (c ∷ cs) = strip_here c (rstrip cs)

abbrev pub cons_head : ℕ → List Text → List Text
cons_head c [] = (c ∷ []) ∷ []
cons_head c (p ∷ ps) = (c ∷ p) ∷ ps

-- `line.split("\t")`
unfoldable pub split_tab : Text → List Text
split_tab [] = [] ∷ []
split_tab (c ∷ cs) = if c == tab then [] ∷ split_tab cs else cons_head c (split_tab cs)

-- `b"\n" in buf` with `buf.split(b"\n", 1)`: the first line and what follows it.
abbrev pub longer : ℕ → Option (Text × Text) → Option (Text × Text)
longer c none = none
longer c (some (line, rest)) = some (c ∷ line, rest)

unfoldable pub cut_line : Text → Option (Text × Text)
cut_line [] = none
cut_line (c ∷ cs) = if c == newline then some ([], cs) else longer c (cut_line cs)

abbrev pub then_lines : Text → List Text × Text → List Text × Text
then_lines line (lines, rest) = (line ∷ lines, rest)

-- The loop over the lines of the buffer, and what is left; the fuel is the length of the buffer.
unfoldable pub take_lines : ℕ → Text → List Text × Text
take_lines zero buf = ([], buf)
take_lines (suc n) buf = elim (cut_line buf) [
  | none ↦ ([], buf)
  | some (line, rest) ↦ then_lines line (take_lines n rest)
]

-- IOEventDispatcher; a listener is a number, and `told` what the listeners were called with.
pub record Dispatcher (Number : Type 0) : Type 0 where
  pub listeners : List ℕ
  pub buf : Text
  pub started : Bool
  pub stopped : Bool
  pub events : List (Event Number)
  pub told : List (ℕ × Event Number)

unfoldable pub new : {Number : Type 0} → Dispatcher Number
new = record { listeners = []; buf = []; started = false; stopped = false; events = []; told = [] }

abbrev pub without : ℕ → List ℕ → Option (List ℕ)
without k [] = none
without k (j ∷ js) =
    if j == k then some js else elim (without k js) [ none ↦ none | some ks ↦ some (j ∷ ks) ]

unfoldable pub add_listener : {Number : Type 0} → ℕ → Dispatcher Number → Dispatcher Number
add_listener k d = record d { listeners = d.listeners ++ (k ∷ []) }

-- `none` is ValueError.
unfoldable pub remove_listener :
    {Number : Type 0} → ℕ → Dispatcher Number → Option (Dispatcher Number)
remove_listener k d = elim (without k d.listeners) [
  | none ↦ none
  | some ks ↦ some (record d { listeners = ks })
]

unfoldable pub start : {Number : Type 0} → Dispatcher Number → Dispatcher Number
start d = record d { started = true }

unfoldable pub stop : {Number : Type 0} → Dispatcher Number → Dispatcher Number
stop d = record d { stopped = true }

abbrev pub to_each {ℓ} : {A : Type ℓ} → A → List ℕ → List (ℕ × A)
to_each e [] = []
to_each e (k ∷ ks) = (k, e) ∷ to_each e ks

-- The events are stored and told to the listeners, one by one.
unfoldable pub dispatch :
    {Number : Type 0} → List (Event Number) → Dispatcher Number → Dispatcher Number
dispatch [] d = d
dispatch (e ∷ es) d =
    dispatch es (record d { events = d.events ++ (e ∷ []); told = d.told ++ to_each e d.listeners })

-- `self._buf += chunk` for what `os.read` gives until it would block, fails or is at the end
abbrev pub joined : List Text → Text
joined [] = []
joined (c ∷ cs) = c ++ joined cs

abbrev pub any_data : List Text → Bool
any_data [] = false
any_data (c ∷ cs) = true

-- `int`, with none for ValueError, and `bytes.decode("utf-8", errors="replace")`
module _ {Number : Type 0} (int : Text → Option Number) (decode : Text → Text) where
  abbrev pub with_numbers :
      Text → Text → Option Number → Option Number → Option Number → Option (Event Number)
  with_numbers kind resource (some fd) (some pid) (some tid) =
      some (record { kind = kind; resource_id = resource; fd = fd; pid = pid; tid = tid })
  with_numbers kind resource _ _ _ = none

  abbrev pub of_parts : List Text → Option (Event Number)
  of_parts (kind ∷ resource ∷ fd ∷ pid ∷ tid ∷ rest) =
      with_numbers kind resource (int fd) (int pid) (int tid)
  of_parts _ = none

  unfoldable pub parse_event_line : Text → Option (Event Number)
  parse_event_line line =
      if is_empty (rstrip line) then none else of_parts (split_tab (rstrip line))

  abbrev pub keep_event : Option (Event Number) → List (Event Number) → List (Event Number)
  keep_event none es = es
  keep_event (some e) es = e ∷ es

  -- The events of the lines, and of a log file's lines without decoding; malformed ones are skipped.
  unfoldable pub parse_lines : List Text → List (Event Number)
  parse_lines [] = []
  parse_lines (line ∷ lines) = keep_event (parse_event_line (decode line)) (parse_lines lines)

  abbrev pub after_lines :
      Dispatcher Number → List Text × Text → List (Event Number) × Dispatcher Number
  after_lines d (lines, rest) =
      (parse_lines lines, dispatch (parse_lines lines) (record d { buf = rest }))

  -- `_read_parse_dispatch` under the pipe's lock: the events, whether there was data, and the new state.
  unfoldable pub read_parse_dispatch :
      List Text → Dispatcher Number → (List (Event Number) × Bool) × Dispatcher Number
  read_parse_dispatch chunks d =
      let received = d.buf ++ joined chunks in
      let (es, d') = after_lines d (take_lines (length received) received) in
      ((es, any_data chunks), d')

  -- `poll`, where `ready` is the answer of `select`
  unfoldable pub poll : Bool → List Text → Dispatcher Number → Dispatcher Number
  poll ready chunks d =
      if not d.started || d.stopped
      then d
      else if ready
      then (read_parse_dispatch chunks d).1
      else d

  abbrev pub no_events : List (Event Number) → Bool
  no_events [] = true
  no_events (e ∷ es) = false

  abbrev pub after_read :
      (List (Event Number) × Bool) × Dispatcher Number → Bool × Dispatcher Number
  after_read ((es, got), d) = (no_events es && not got && d.stopped, d)

  -- One round of the reader's loop: whether the loop ends, and the new state.
  unfoldable pub reader_round : Bool → List Text → Dispatcher Number → Bool × Dispatcher Number
  reader_round ready chunks d =
      if ready then after_read (read_parse_dispatch chunks d) else (false, d)
