-- ===== src/PreloadIo/Format.antt =====
-- frontrun/_preload_io.py: the format of the events' lines, as its documentation gives it.
use frontrun.Prelude.{
  ℕ, ◌<◌, ◌≡◌, refl, ap, ◌∙◌, Bool, true, false, ◌&&◌, Option, none, some, List, [], ◌∷◌, ◌++◌, All,
  nat_eq, ◌==◌, if◌then◌else◌, arith,
}
use frontrun.PreloadIo.{
  Text, tab, newline, Event, Dispatcher, is_empty, strip_here, rstrip, cons_head, split_tab,
  then_lines, with_numbers, of_parts, keep_event, parse_event_line, parse_lines,
}
use frontrun.PreloadIo.Lines.{lines_of, extend_first}
use frontrun.PreloadIo.Chunks.{Run, Run-events}

-- A character of a field: of ASCII, neither a tab nor the end of a line.
abbrev pub IsPlain : ℕ → Type 0
IsPlain c = (c < 128) × ((c == tab) ≡ false) × ((c == newline) ≡ false)

-- A character of a line.
abbrev pub IsInline : ℕ → Type 0
IsInline c = (c < 128) × ((c == newline) ≡ false)

IsInline-plain : (t : Text) → All IsPlain t → All IsInline t
IsInline-plain [] h = tt
IsInline-plain (c ∷ cs) h = ((h.0.0, h.0.2), IsInline-plain cs h.1)

inline_ascii : (t : Text) → All IsInline t → All (λ c. c < 128) t
inline_ascii [] h = tt
inline_ascii (c ∷ cs) h = (h.0.0, inline_ascii cs h.1)

split_tab-field :
    (p rest : Text) → All IsPlain p → split_tab (p ++ (tab ∷ rest)) ≡ p ∷ split_tab rest
unfolding split_tab
split_tab-field [] rest h = refl
split_tab-field (c ∷ p) rest h = rw h.0.1 (ap (cons_head c) (split_tab-field p rest h.1))

split_tab-last : (p : Text) → All IsPlain p → split_tab p ≡ p ∷ []
unfolding split_tab
split_tab-last [] h = refl
split_tab-last (c ∷ p) h = rw h.0.1 (ap (cons_head c) (split_tab-last p h.1))

rstrip-IsInline : (t : Text) → All IsInline t → rstrip t ≡ t
unfolding rstrip
rstrip-IsInline [] h = refl
rstrip-IsInline (c ∷ t) h = ap (strip_here c) (rstrip-IsInline t h.1) ∙ by (is_empty t)
  where
    by : (b : Bool) → (if b && c == newline then [] else c ∷ t) ≡ c ∷ t
    by true = rw h.0.1 refl
    by false = refl

lines_of-line :
    (t rest : Text)
    → All IsInline t
    → lines_of (t ++ (newline ∷ rest)) ≡ then_lines t (lines_of rest)
unfolding lines_of
lines_of-line [] rest h = refl
lines_of-line (c ∷ t) rest h = rw h.0.1 (ap (extend_first c) (lines_of-line t rest h.1))

is_empty-field : (p rest : Text) → is_empty (p ++ (tab ∷ rest)) ≡ false
is_empty-field [] rest = refl
is_empty-field (c ∷ p) rest = refl

field-IsInline :
    (p rest : Text) → All IsPlain p → All IsInline rest → All IsInline (p ++ (tab ∷ rest))
field-IsInline [] rest h k = ((omega arith, refl), k)
field-IsInline (c ∷ p) rest h k = ((h.0.0, h.0.2), field-IsInline p rest h.1 k)

module _ {Number : Type 0} (show : Number → Text) where
  -- `<kind>\t<resource_id>\t<fd>\t<pid>\t<tid>`
  abbrev pub line_of : Event Number → Text
  line_of e =
      e.kind
      ++ (tab
          ∷ (e.resource_id ++ (tab ∷ (show e.fd ++ (tab ∷ (show e.pid ++ (tab ∷ show e.tid)))))))

  abbrev pub formatted : List (Event Number) → Text
  formatted [] = []
  formatted (e ∷ es) = line_of e ++ (newline ∷ formatted es)

  -- The text fields of the event fit in a line.
  abbrev pub IsWritable : Event Number → Type 0
  IsWritable e = All IsPlain e.kind × All IsPlain e.resource_id

  -- Numbers are written in plain characters, and read back as they were; ASCII is decoded as it is.
  module _ (int : Text → Option Number) (decode : Text → Text)
      (show-IsPlain : (n : Number) → All IsPlain (show n))
      (int-show : (n : Number) → int (show n) ≡ some n)
      (decode_ascii : (t : Text) → All (λ c. c < 128) t → decode t ≡ t) where
    line_of-IsInline : (e : Event Number) → IsWritable e → All IsInline (line_of e)
    line_of-IsInline e h = field-IsInline e.kind _ h.0 (
        field-IsInline e.resource_id _ h.1 (
          field-IsInline (show e.fd) _ (show-IsPlain e.fd) (
            field-IsInline (show e.pid) _ (show-IsPlain e.pid)
              (IsInline-plain (show e.tid) (show-IsPlain e.tid)))))

    split_tab-line_of :
        (e : Event Number)
        → IsWritable e
        → split_tab (line_of e) ≡ e.kind ∷ e.resource_id ∷ show e.fd ∷ show e.pid ∷ show e.tid ∷ []
    split_tab-line_of e h =
        split_tab-field e.kind _ h.0
        ∙ ap (λ l. e.kind ∷ l)
            (split_tab-field e.resource_id _ h.1
              ∙ ap (λ l. e.resource_id ∷ l)
                  (split_tab-field (show e.fd) _ (show-IsPlain e.fd)
                    ∙ ap (λ l. show e.fd ∷ l)
                        (split_tab-field (show e.pid) _ (show-IsPlain e.pid)
                          ∙ ap (λ l. show e.pid ∷ l)
                              (split_tab-last (show e.tid) (show-IsPlain e.tid)))))

    parse-line_of :
        (e : Event Number)
        → IsWritable e
        → parse_event_line int decode (decode (line_of e)) ≡ some e
    unfolding parse_event_line
    parse-line_of e h =
        ap (parse_event_line int decode)
          (decode_ascii (line_of e) (inline_ascii (line_of e) (line_of-IsInline e h)))
        ∙ ap (λ t. if is_empty t then none else of_parts int decode (split_tab t))
            (rstrip-IsInline (line_of e) (line_of-IsInline e h))
        ∙ ap (λ b. if b then none else of_parts int decode (split_tab (line_of e)))
            (is_empty-field e.kind _)
        ∙ ap (of_parts int decode) (split_tab-line_of e h)
        ∙ ap
            (λ o.
              with_numbers int decode e.kind e.resource_id o (int (show e.pid)) (int (show e.tid)))
            (int-show e.fd)
        ∙ ap (λ o. with_numbers int decode e.kind e.resource_id (some e.fd) o (int (show e.tid)))
            (int-show e.pid)
        ∙ ap (λ o. with_numbers int decode e.kind e.resource_id (some e.fd) (some e.pid) o)
            (int-show e.tid)

    lines_of-formatted :
        (es : List (Event Number))
        → All IsWritable es
        → (parse_lines int decode (lines_of (formatted es)).0 ≡ es)
          × ((lines_of (formatted es)).1 ≡ [])
    unfolding parse_lines lines_of
    lines_of-formatted [] h = (refl, refl)
    lines_of-formatted (e ∷ es) h =
        let first = lines_of-line (line_of e) (formatted es) (line_of-IsInline e h.0) in
        let (events, rest) = lines_of-formatted es h.1 in
        (
          ap (λ (l : List Text × Text). parse_lines int decode l.0) first
              ∙ ap
                  (λ o.
                    keep_event int decode o (parse_lines int decode (lines_of (formatted es)).0))
                  (parse-line_of e h.0)
              ∙ ap (λ l. e ∷ l) events,
          ap (λ (l : List Text × Text). l.1) first ∙ rest,
        )

    -- Where the pipe carried the lines of some events, each of whose text fields is plain, the
    -- dispatcher has stored these events, in order, and its buffer is empty, however the lines were
    -- cut into reads.
    pub Run-formatted :
        {received : Text} {d : Dispatcher Number} (es : List (Event Number))
        → Run int decode received d
        → received ≡ formatted es
        → All IsWritable es
        → (d.events ≡ es) × (d.buf ≡ [])
    Run-formatted es r e h =
        let (events, buf) = Run-events int decode r in
        let (same, rest) = lines_of-formatted es h in
        (
          events ∙ ap (λ t. parse_lines int decode (lines_of t).0) e ∙ same,
          buf ∙ ap (λ t. (lines_of t).1) e ∙ rest,
        )
