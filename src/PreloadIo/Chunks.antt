-- ===== src/PreloadIo/Chunks.antt =====
-- frontrun/_preload_io.py: the reads of the pipe's data, against its lines.
use frontrun.Prelude.{
  ℕ, ◌≡◌, refl, sym, ap, ◌∙◌, Bool, true, false, not, ◌&&◌, ◌||◌, Option, none, some, List, [], ◌∷◌,
  ◌++◌, nat_eq, ◌==◌, if◌then◌else◌, length, arith, Bool-cases, inl, inr,
}
use mathlib.Core.List.{append_assoc, append-nil}
use mathlib.Core.Path.{subst}
use frontrun.PreloadIo.{
  Text, newline, Event, Dispatcher, new, then_lines, take_lines, dispatch, joined, keep_event,
  parse_event_line, parse_lines, read_parse_dispatch, to_each, add_listener, remove_listener,
  without, start, stop, poll, reader_round,
}
use frontrun.PreloadIo.Lines.{lines_of, extend_first, take_lines-lines_of}

-- Lines before other lines.
abbrev pub lines_then : List Text × Text → (Text → List Text × Text) → List Text × Text
lines_then (lines, rest) f = (lines ++ (f rest).0, (f rest).1)

lines_of-append :
    (xs ys : Text) → lines_of (xs ++ ys) ≡ lines_then (lines_of xs) (λ rest. lines_of (rest ++ ys))
unfolding lines_of
lines_of-append [] ys = refl
lines_of-append (c ∷ xs) ys = elim (Bool-cases (c == newline)) [
  | inl e ↦ rw e (ap (then_lines []) (lines_of-append xs ys) ∙ ends (lines_of xs))
  | inr e ↦ rw e (ap (extend_first c) (lines_of-append xs ys) ∙ extends (lines_of xs) e)
]
  where
    ends :
        (l : List Text × Text)
        → then_lines [] (lines_then l (λ rest. lines_of (rest ++ ys)))
          ≡ lines_then (then_lines [] l) (λ rest. lines_of (rest ++ ys))
    ends (lines, rest) = refl

    extends :
        (l : List Text × Text)
        → (c == newline) ≡ false
        → extend_first c (lines_then l (λ rest. lines_of (rest ++ ys)))
          ≡ lines_then (extend_first c l) (λ rest. lines_of (rest ++ ys))
    extends ([], rest) e = rw e refl
    extends (line ∷ lines, rest) e = refl

-- Whether a call of `poll` reads.
abbrev pub polls : {Number : Type 0} → Bool → Dispatcher Number → Bool
polls ready d = not (not d.started || d.stopped) && ready

module _ {Number : Type 0} (int : Text → Option Number) (decode : Text → Text) where
  -- The dispatcher after all that was received.
  pub record HasRead (received : Text) (d : Dispatcher Number) : Type 0 where
    pub buf : d.buf ≡ (lines_of received).1
    pub events : d.events ≡ parse_lines int decode (lines_of received).0

  parse_lines-append :
      (xs ys : List Text)
      → parse_lines int decode (xs ++ ys) ≡ parse_lines int decode xs ++ parse_lines int decode ys
  unfolding parse_lines
  parse_lines-append [] ys = refl
  parse_lines-append (x ∷ xs) ys =
      ap (keep_event int decode (parse_event_line int decode (decode x))) (parse_lines-append xs ys)
      ∙ by (parse_event_line int decode (decode x))
    where
      by :
          (o : Option (Event Number))
          → keep_event int decode o (parse_lines int decode xs ++ parse_lines int decode ys)
            ≡ keep_event int decode o (parse_lines int decode xs) ++ parse_lines int decode ys
      by none = refl
      by (some e) = refl

  dispatch-fields :
      (es : List (Event Number)) (d : Dispatcher Number)
      → ((dispatch es d).events ≡ d.events ++ es) × ((dispatch es d).buf ≡ d.buf)
  unfolding dispatch
  dispatch-fields [] d = (sym (append-nil d.events), refl)
  dispatch-fields (e ∷ es) d =
      let (events, buf) =
        dispatch-fields es
          (record d { events = d.events ++ (e ∷ []); told = d.told ++ to_each e d.listeners }) in
      (events ∙ append_assoc d.events (e ∷ []) es, buf)

  read-HasRead :
      (received : Text) (chunks : List Text) (d : Dispatcher Number)
      → HasRead received d
      → HasRead (received ++ joined chunks) (read_parse_dispatch int decode chunks d).1
  unfolding read_parse_dispatch
  read-HasRead received chunks d h =
      let new_lines : take_lines (length (d.buf ++ joined chunks)) (d.buf ++ joined chunks)
          ≡ lines_of ((lines_of received).1 ++ joined chunks) =
        take_lines-lines_of (length (d.buf ++ joined chunks)) (d.buf ++ joined chunks) (omega arith)
        ∙ ap (λ b. lines_of (b ++ joined chunks)) h.buf in
      let all_lines = lines_of-append received (joined chunks) in
      let (events, buf) =
        dispatch-fields
          (parse_lines int decode
            (take_lines (length (d.buf ++ joined chunks)) (d.buf ++ joined chunks)).0)
          (record d {
            buf = (take_lines (length (d.buf ++ joined chunks)) (d.buf ++ joined chunks)).1;
          }) in
      record {
        buf =
            buf
            ∙ ap (λ (l : List Text × Text). l.1) new_lines
            ∙ sym (ap (λ (l : List Text × Text). l.1) all_lines);
        events =
            events
            ∙ ap
                (λ es.
                  es
                  ++ parse_lines int decode
                      (take_lines (length (d.buf ++ joined chunks)) (d.buf ++ joined chunks)).0)
                h.events
            ∙ ap
                (λ (l : List Text × Text).
                  parse_lines int decode (lines_of received).0 ++ parse_lines int decode l.0)
                new_lines
            ∙ sym (
                parse_lines-append (lines_of received).0
                  (lines_of ((lines_of received).1 ++ joined chunks)).0)
            ∙ sym (ap (λ (l : List Text × Text). parse_lines int decode l.0) all_lines);
      }

  poll-HasRead :
      (received : Text) (ready : Bool) (chunks : List Text) (d : Dispatcher Number)
      → HasRead received d
      → HasRead
          (received ++ (if polls ready d then joined chunks else []))
          (poll int decode ready chunks d)
  unfolding poll
  poll-HasRead received ready chunks d h = by (not d.started || d.stopped) ready
    where
      by :
          (off ready : Bool)
          → HasRead
              (received ++ (if not off && ready then joined chunks else []))
              (if off then d else if ready then (read_parse_dispatch int decode chunks d).1 else d)
      by true ready = subst (λ r. HasRead r d) (sym (append-nil received)) h
      by false true = read-HasRead received chunks d h
      by false false = subst (λ r. HasRead r d) (sym (append-nil received)) h

  reader_round-HasRead :
      (received : Text) (ready : Bool) (chunks : List Text) (d : Dispatcher Number)
      → HasRead received d
      → HasRead
          (received ++ (if ready then joined chunks else []))
          (reader_round int decode ready chunks d).1
  unfolding reader_round
  reader_round-HasRead received true chunks d h = read-HasRead received chunks d h
  reader_round-HasRead received false chunks d h =
      subst (λ r. HasRead r d) (sym (append-nil received)) h

  -- What a dispatcher received, in any order of its operations.
  pub data Run : Text → Dispatcher Number → Type 0 where
    created : Run [] new
    listened :
        {received : Text} {d : Dispatcher Number} (k : ℕ)
        → Run received d
        → Run received (add_listener k d)
    unlistened :
        {received : Text} {d d' : Dispatcher Number} (k : ℕ)
        → remove_listener k d ≡ some d'
        → Run received d
        → Run received d'
    started : {received : Text} {d : Dispatcher Number} → Run received d → Run received (start d)
    stopped : {received : Text} {d : Dispatcher Number} → Run received d → Run received (stop d)
    polled :
        {received : Text} {d : Dispatcher Number} (ready : Bool) (chunks : List Text)
        → Run received d
        → Run
            (received ++ (if polls ready d then joined chunks else []))
            (poll int decode ready chunks d)
    looped :
        {received : Text} {d : Dispatcher Number} (ready : Bool) (chunks : List Text)
        → Run received d
        → Run
            (received ++ (if ready then joined chunks else []))
            (reader_round int decode ready chunks d).1

  removed :
      (k : ℕ) (received : Text) (d d' : Dispatcher Number)
      → remove_listener k d ≡ some d'
      → HasRead received d
      → HasRead received d'
  unfolding remove_listener
  removed k received d d' e h = by (without k d.listeners) e
    where
      some_inj : {a b : Dispatcher Number} → some a ≡ some b → a ≡ b
      some_inj e = cc e

      by :
          (o : Option (List ℕ))
          → elim o [ none ↦ none | some ks ↦ some (record d { listeners = ks }) ] ≡ some d'
          → HasRead received d'
      by none e = cc e
      by (some ks) e =
          subst (HasRead received) (some_inj e) (record { buf = h.buf; events = h.events })

  Run-HasRead : {received : Text} {d : Dispatcher Number} → Run received d → HasRead received d
  unfolding new add_listener start stop lines_of parse_lines
  Run-HasRead created = record { buf = refl; events = refl }
  Run-HasRead (listened k r) = let h = Run-HasRead r in record { buf = h.buf; events = h.events }
  Run-HasRead (unlistened {received} {d} {d'} k e r) = removed k received d d' e (Run-HasRead r)
  Run-HasRead (started r) = let h = Run-HasRead r in record { buf = h.buf; events = h.events }
  Run-HasRead (stopped r) = let h = Run-HasRead r in record { buf = h.buf; events = h.events }
  Run-HasRead (polled {received} {d} ready chunks r) =
      poll-HasRead received ready chunks d (Run-HasRead r)
  Run-HasRead (looped {received} {d} ready chunks r) =
      reader_round-HasRead received ready chunks d (Run-HasRead r)

  -- In every run, however the data of the pipe was cut into reads, the stored events are those of the
  -- lines of all that was received, in order, and the buffer is what follows the last of its ends of
  -- line.
  pub Run-events :
      {received : Text} {d : Dispatcher Number}
      → Run received d
      → (d.events ≡ parse_lines int decode (lines_of received).0) × (d.buf ≡ (lines_of received).1)
  Run-events r = let h = Run-HasRead r in (h.events, h.buf)
