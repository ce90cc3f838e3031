-- ===== src/Transport/Progress/Lines.antt =====
-- The chunks of git/transport/progress.rs against the lines that they make up.
use mathlib.Core.List.{append_assoc, append-nil}
use git_ramus.Base.Tests.{
  ℕ, ◌≤◌, ◌≡◌, refl, sym, ap, ◌∙◌, true, false, not, ◌&&◌, Option, some, List, [], ◌∷◌, ◌++◌, arith,
  leb, ◌==◌, if◌then◌else◌, Bool-cases, Option-cases, inl, inr,
}
use git_ramus.Base.Lists.{length, length-append}
use git_ramus.Base.Text.{Text, is_empty, cons_head, split_where, split_where-cons}
use git_ramus.Transport.Progress.{GitProgressEvent, Panics, option_bind, parse_progress_line}
use git_ramus.Transport.Progress.Framing.{
  max_incomplete_line_bytes, GitProgressParser, fresh, is_line_end, Pushed, event_list, and_push,
  end_line, push_byte, push,
}

-- The parser that has read the bytes of an unfinished line.
unfoldable pub reading : List ℕ → GitProgressParser
reading line =
    if leb (length line) max_incomplete_line_bytes
    then record { pending = line; dropping_oversized_line = false }
    else record { pending = []; dropping_oversized_line = true }

longer_fits :
    (line : List ℕ) (byte m : ℕ)
    → leb (length (line ++ byte ∷ [])) m ≡ (leb (length line) m && not (length line == m))
longer_fits line byte m = rw (length-append line (byte ∷ [])) (ground arith)

module _ (scaled : Text → ℕ → Option ℕ) where
  -- The event of a finished line: one that is empty or too long has none.
  unfoldable pub line_events : List ℕ → Panics (List GitProgressEvent)
  unfolding is_empty
  line_events line =
      if leb (length line) max_incomplete_line_bytes && not (is_empty line)
      then option_bind (parse_progress_line scaled line) (λ event. some (event_list event))
      else some []

  abbrev pub ended : List ℕ → Pushed
  ended line = option_bind (line_events line) λ events. some (events, fresh)

  -- The lines but the last, which is unfinished.
  unfoldable pub read_lines : List ℕ → List (List ℕ) → Pushed
  unfolding line_events reading
  read_lines line [] = some ([], reading line)
  read_lines line (next ∷ later) =
      let rest = read_lines next later in and_push (ended line) λ q. rest

  abbrev pub read_all : List ℕ → List (List ℕ) → Pushed
  read_all before [] = some ([], reading before)
  read_all before (line ∷ later) = read_lines (before ++ line) later

  end_line-reading : (line : List ℕ) → end_line scaled (reading line) ≡ ended line
  unfolding end_line reading line_events
  end_line-reading line = elim (Bool-cases (leb (length line) max_incomplete_line_bytes)) [
    | inr long ↦ rw long refl
    | inl short ↦ rw short (elim (Bool-cases (is_empty line)) [
      | inl none_yet ↦ rw none_yet refl
      | inr some_yet ↦ rw some_yet (elim (Option-cases (parse_progress_line scaled line)) [
        | inl e ↦ rw e refl
        | inr (event, e) ↦ rw e refl
      ])
    ])
  ]

  push_byte-reading :
      (line : List ℕ) (byte : ℕ)
      → is_line_end byte ≡ false
      → push_byte scaled (reading line) byte ≡ some ([], reading (line ++ byte ∷ []))
  unfolding push_byte reading
  push_byte-reading line byte h =
      let m = max_incomplete_line_bytes in
      elim (Bool-cases (leb (length line) m)) [
        | inr long ↦ rw (h, longer_fits line byte m, long) refl
        | inl short ↦ elim (Bool-cases (length line == m)) [
          | inl full ↦ rw (h, longer_fits line byte m, short) (rw full refl)
          | inr room ↦ rw (h, longer_fits line byte m, short) (rw room refl)
        ]
      ]

  and_push-ended :
      (line : List ℕ) (k : GitProgressParser → Pushed)
      → and_push (ended line) k ≡ and_push (ended line) (λ q. k fresh)
  and_push-ended line k = elim (Option-cases (line_events line)) [
    | inl e ↦ rw e refl
    | inr (events, e) ↦ rw e refl
  ]

  push_byte-ends :
      (line : List ℕ) (byte : ℕ)
      → is_line_end byte ≡ true
      → push_byte scaled (reading line) byte ≡ ended line
  unfolding push_byte
  push_byte-ends line byte h = rw h (end_line-reading line)

  fresh-reading : reading [] ≡ fresh
  unfolding reading
  fresh-reading = refl

  push-cons :
      (byte : ℕ) (bytes : List ℕ) (p : GitProgressParser)
      → push scaled (byte ∷ bytes) p ≡ and_push (push_byte scaled p byte) (λ q. push scaled bytes q)
  unfolding push
  push-cons byte bytes p = refl

  read_all-line_end :
      (line : List ℕ) (byte : ℕ) (bytes : List ℕ)
      → is_line_end byte ≡ true
      → read_all line (split_where is_line_end (byte ∷ bytes))
        ≡ and_push (ended line) (λ q. read_all [] (split_where is_line_end bytes))
  unfolding split_where read_lines
  read_all-line_end line byte bytes h =
      let (w, ws, e) = split_where-cons is_line_end bytes in rw (h, e, append-nil) refl

  read_all-other :
      (line : List ℕ) (byte : ℕ) (bytes : List ℕ)
      → is_line_end byte ≡ false
      → read_all line (split_where is_line_end (byte ∷ bytes))
        ≡ read_all (line ++ byte ∷ []) (split_where is_line_end bytes)
  unfolding split_where cons_head
  read_all-other line byte bytes h =
      let (w, ws, e) = split_where-cons is_line_end bytes in rw (h, e) (rw (append_assoc) refl)

  and_push-nothing : (m : Pushed) → option_bind m (λ after. some ([] ++ after.0, after.1)) ≡ m
  and_push-nothing m = elim (Option-cases m) [ inl e ↦ rw e refl | inr (a, e) ↦ rw e refl ]

  push-reading :
      (bytes line : List ℕ)
      → push scaled bytes (reading line) ≡ read_all line (split_where is_line_end bytes)
  push-reading [] line = unfold push split_where read_lines in rw append-nil refl
  push-reading (byte ∷ bytes) line =
      let k : GitProgressParser → Pushed = λ q. push scaled bytes q in
      let blank = push-reading bytes [] in
      let longer = push-reading bytes (line ++ byte ∷ []) in
      push-cons byte bytes (reading line) ∙ elim (Bool-cases (is_line_end byte)) [
        | inl ends ↦
            ap (λ m. and_push m k) (push_byte-ends line byte ends)
            ∙ and_push-ended line k
            ∙ ap (λ (r : Pushed). and_push (ended line) (λ q. r)) (ap k (sym fresh-reading) ∙ blank)
            ∙ sym (read_all-line_end line byte bytes ends)
        | inr goes_on ↦
            ap (λ m. and_push m k) (push_byte-reading line byte goes_on)
            ∙ and_push-nothing (k (reading (line ++ byte ∷ [])))
            ∙ longer
            ∙ sym (read_all-other line byte bytes goes_on)
      ]

  -- On any bytes, `push` on a new parser gives the events of the finished lines that are not empty and
  -- have at most 8 KiB, in order, and keeps the unfinished line, or, if that is already longer, only the
  -- note to drop it. It panics exactly if one of those finished lines makes the line parser panic.
  pub push-lines :
      (bytes : List ℕ) → push scaled bytes fresh ≡ read_all [] (split_where is_line_end bytes)
  push-lines bytes = ap (λ p. push scaled bytes p) (sym fresh-reading) ∙ push-reading bytes []

  and_push-and_push :
      (m : Pushed) (k j : GitProgressParser → Pushed)
      → and_push m (λ q. and_push (k q) j) ≡ and_push (and_push m k) j
  and_push-and_push m k j = elim (Option-cases m) [
    | inl e ↦ rw e refl
    | inr ((before, q), e) ↦ rw e (elim (Option-cases (k q)) [
      | inl f ↦ rw f refl
      | inr ((middle, r), f) ↦ rw f (elim (Option-cases (j r)) [
        | inl g ↦ rw g refl
        | inr ((after, t), g) ↦ rw g (rw append_assoc refl)
      ])
    ])
  ]

  -- To push two chunks one after the other is to push them as one, from any state of the parser: the
  -- events do not depend on where the pipe cuts, and neither does the parser that is left.
  pub push-append :
      (first second : List ℕ) (p : GitProgressParser)
      → push scaled (first ++ second) p ≡ and_push (push scaled first p) (λ q. push scaled second q)
  unfolding push
  push-append [] second p = sym (and_push-nothing (push scaled second p))
  push-append (byte ∷ first) second p =
      let rest = push-append first second in
      ap (λ (k : GitProgressParser → Pushed). and_push (push_byte scaled p byte) k)
        (λ i q. rest q i)
      ∙ and_push-and_push (push_byte scaled p byte) (λ q. push scaled first q)
          (λ q. push scaled second q)

  same_parser :
      {es fs : List GitProgressEvent} {p q : GitProgressParser}
      → ◌≡◌ {A = Pushed} (some (es, p)) (some (fs, q))
      → p ≡ q
  same_parser h = cc

  reading_fits : (line : List ℕ) → length (reading line).pending ≤ max_incomplete_line_bytes
  unfolding reading
  reading_fits line = elim (Bool-cases (leb (length line) max_incomplete_line_bytes)) [
    | inl short ↦ let fits : length line ≤ max_incomplete_line_bytes = ground arith in rw short fits
    | inr long ↦ let fits : 0 ≤ max_incomplete_line_bytes = omega arith in rw long fits
  ]

  read_lines-fits :
      (line : List ℕ) (later : List (List ℕ)) {events : List GitProgressEvent}
      {q : GitProgressParser}
      → read_lines line later ≡ some (events, q)
      → length q.pending ≤ max_incomplete_line_bytes
  unfolding read_lines
  read_lines-fits line [] h = rw (← same_parser h) (reading_fits line)
  read_lines-fits line (next ∷ later) h = elim (Option-cases (line_events line)) [
    | inl e ↦ let k = rw e at h in cc
    | inr (events, e) ↦
        let k = rw e at h in
        elim (Option-cases (read_lines next later)) [
          | inl f ↦ let l = rw f at k in cc
          | inr ((more, r), f) ↦
              let fits = read_lines-fits next later f in
              let l = rw f at k in rw (← same_parser l) fits
        ]
  ]

  -- After any bytes pushed into a new parser without a panic, it buffers at most 8 KiB.
  pub buffered_bounded :
      (bytes : List ℕ) {events : List GitProgressEvent} {q : GitProgressParser}
      → push scaled bytes fresh ≡ some (events, q)
      → length q.pending ≤ max_incomplete_line_bytes
  buffered_bounded bytes h =
      let (w, ws, e) = split_where-cons is_line_end bytes in
      read_lines-fits w ws (sym (push-lines bytes ∙ ap (λ pieces. read_all [] pieces) e) ∙ h)
