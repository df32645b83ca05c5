-- ===== src/Protocol/Frame/Stream.antt =====
-- `FrameCodec::push` over a stream: how the input is cut into calls does not matter.
use rnetlib.Prelude.{
  ℕ, zero, suc, ◌+◌, ◌≤◌, ◌<◌, ◌^◌, ◌≡◌, refl, sym, ap, ◌∙◌, inl, inr, List, [], ◌∷◌, ◌++◌, Option,
  none, some, Result, ok, err, ErrorCode, arith, length, take, drop, Result-cases, length-append,
  length-drop, take-append, drop-append,
}
use rnetlib.Protocol.Frame.{FrameHeader, Frame, parse_header, next_frame, cons_frame, drain_frames}

-- When a frame is complete, and what it is.
next_frame-parts :
    (m : ℕ) (buf : List ℕ) {frame : Frame} {rest : List ℕ}
    → next_frame m buf ≡ ok (some (frame, rest))
    → (20 ≤ length buf)
      × (parse_header (take 20 buf) m ≡ ok frame.header)
      × (20 + frame.header.body_len < 2 ^ 64)
      × (20 + frame.header.body_len ≤ length buf)
      × (frame.body ≡ drop 20 (take (20 + frame.header.body_len) buf))
      × (rest ≡ drop (20 + frame.header.body_len) buf)
unfolding next_frame
next_frame-parts m buf e = ground arith

pub next_frame_complete :
    (m : ℕ) (buf : List ℕ) (header : FrameHeader)
    → 20 ≤ length buf
    → parse_header (take 20 buf) m ≡ ok header
    → 20 + header.body_len < 2 ^ 64
    → 20 + header.body_len ≤ length buf
    → next_frame m buf
      ≡ ok (
          some (
            record { header = header; body = drop 20 (take (20 + header.body_len) buf) },
            drop (20 + header.body_len) buf,
          ))
unfolding next_frame
next_frame_complete m buf header long parsed small fits = ground arith

next_frame-shrinks :
    (m : ℕ) (buf : List ℕ) {frame : Frame} {rest : List ℕ}
    → next_frame m buf ≡ ok (some (frame, rest))
    → length rest < length buf
next_frame-shrinks m buf {frame} {rest} e =
    let (long, parsed, small, fits, body, left) = next_frame-parts m buf e in
    omega (arith, ap length left, length-drop (20 + frame.header.body_len) buf)

-- Later input changes no complete frame at the front of the buffer, and no error.
next_frame-append :
    (m : ℕ) (buf more : List ℕ) {frame : Frame} {rest : List ℕ}
    → next_frame m buf ≡ ok (some (frame, rest))
    → next_frame m (buf ++ more) ≡ ok (some (frame, rest ++ more))
next_frame-append m buf more {frame} {rest} e =
    let (long, parsed, small, fits, body, left) = next_frame-parts m buf e in
    next_frame_complete m (buf ++ more) frame.header (omega (arith, length-append buf more))
      (ap (λ h. parse_header h m) (take-append 20 buf more long) ∙ parsed) small
      (omega (arith, length-append buf more))
    ∙ rw
        (
          take-append (20 + frame.header.body_len) buf more fits,
          drop-append (20 + frame.header.body_len) buf more fits,
          ← body,
          ← left,
        )
        refl

next_frame-long :
    (m : ℕ) (buf : List ℕ) {e : ErrorCode} → next_frame m buf ≡ err e → 20 ≤ length buf
unfolding next_frame
next_frame-long m buf h = ground arith

next_frame-append_err :
    (m : ℕ) (buf more : List ℕ) {e : ErrorCode}
    → next_frame m buf ≡ err e
    → next_frame m (buf ++ more) ≡ err e
unfolding next_frame
next_frame-append_err m buf more h =
    let long = next_frame-long m buf h in
    elim (Result-cases (parse_header (take 20 buf) m)) [
      | inl (header, parsed) ↦ ground (
        arith,
        length-append buf more,
        ap (λ (b : List ℕ). parse_header b m) (take-append 20 buf more long),
      )
      | inr (code, failed) ↦ ground (
        arith,
        length-append buf more,
        ap (λ (b : List ℕ). parse_header b m) (take-append 20 buf more long),
      )
    ]

-- Frames found earlier, in front of the later ones.
abbrev pub prepend : List Frame → Result (List Frame) × List ℕ → Result (List Frame) × List ℕ
prepend frames (ok later, rest) = (ok (frames ++ later), rest)
prepend frames (err e, rest) = (err e, rest)

prepend-cons_frame :
    (frame : Frame) (frames : List Frame) (r : Result (List Frame) × List ℕ)
    → prepend (frame ∷ frames) r ≡ cons_frame frame (prepend frames r)
prepend-cons_frame frame frames (ok later, rest) = refl
prepend-cons_frame frame frames (err e, rest) = refl

pub prepend-nil : (r : Result (List Frame) × List ℕ) → prepend [] r ≡ r
prepend-nil (ok later, rest) = refl
prepend-nil (err e, rest) = refl

pub drain_frames-zero : (m : ℕ) → drain_frames zero m [] ≡ (ok [], [])
unfolding drain_frames
drain_frames-zero m = refl

pub next_frame-nil : (m : ℕ) → next_frame m [] ≡ ok none
unfolding next_frame
next_frame-nil m = refl

-- A round of the loop, on what `next_frame` returned.
abbrev pub round :
    (List ℕ → Result (List Frame) × List ℕ)
    → List ℕ
    → Result (Option (Frame × List ℕ))
    → Result (List Frame) × List ℕ
round again buf (err e) = (err e, buf)
round again buf (ok none) = (ok [], buf)
round again buf (ok (some (frame, rest))) = cons_frame frame (again rest)

drain_frames-suc :
    (f m : ℕ) (buf : List ℕ)
    → drain_frames (suc f) m buf ≡ round (drain_frames f m) buf (next_frame m buf)
unfolding drain_frames
drain_frames-suc f m buf = go (next_frame m buf) refl
  where
    go :
        (r : Result (Option (Frame × List ℕ)))
        → next_frame m buf ≡ r
        → drain_frames (suc f) m buf ≡ round (drain_frames f m) buf (next_frame m buf)
    go (err e) h = rw (h, drain_frames) refl
    go (ok none) h = rw (h, drain_frames) refl
    go (ok (some (frame, rest))) h = rw (h, drain_frames) refl

-- Rounds agree when the calls that they make agree.
round-eq :
    (m : ℕ) (f g : List ℕ → Result (List Frame) × List ℕ) (buf : List ℕ)
    (r : Result (Option (Frame × List ℕ)))
    → next_frame m buf ≡ r
    → ((rest : List ℕ) → length rest < length buf → f rest ≡ g rest)
    → round f buf r ≡ round g buf r
round-eq m f g buf (err e) h same = refl
round-eq m f g buf (ok none) h same = refl
round-eq m f g buf (ok (some (frame, rest))) h same =
    ap (cons_frame frame) (same rest (next_frame-shrinks m buf h))

-- Fuel for the length of the buffer is enough: more changes nothing.
drain_frames-fuel :
    (f g m : ℕ) (buf : List ℕ)
    → length buf ≤ f
    → length buf ≤ g
    → drain_frames f m buf ≡ drain_frames g m buf
drain_frames-fuel zero zero m buf p q = refl
drain_frames-fuel zero (suc g) m [] p q =
    rw (drain_frames-suc g m [], next_frame-nil m) (drain_frames-zero m)
drain_frames-fuel zero (suc g) m (b ∷ buf) p q = absurd (omega arith)
drain_frames-fuel (suc f) zero m [] p q =
    rw (drain_frames-suc f m [], next_frame-nil m) (sym (drain_frames-zero m))
drain_frames-fuel (suc f) zero m (b ∷ buf) p q = absurd (omega arith)
drain_frames-fuel (suc f) (suc g) m buf p q =
    rw (drain_frames-suc f m buf, drain_frames-suc g m buf)
      (round-eq m _ _ buf (next_frame m buf) refl
        (λ rest less. drain_frames-fuel f g m rest (omega arith) (omega arith)))

-- The loop with the fuel that `push` gives it.
abbrev pub drain : ℕ → List ℕ → Result (List Frame) × List ℕ
drain m buf = drain_frames (length buf) m buf

pub drain-step : (m : ℕ) (buf : List ℕ) → drain m buf ≡ round (drain m) buf (next_frame m buf)
drain-step m buf =
    drain_frames-fuel (length buf) (suc (length buf)) m buf (omega arith) (omega arith)
    ∙ drain_frames-suc (length buf) m buf
    ∙ round-eq m _ _ buf (next_frame m buf) refl (λ rest less.
      drain_frames-fuel (length buf) (length rest) m rest (omega arith) (omega arith))

-- What more input makes of a result of the loop.
abbrev pub resume : ℕ → Result (List Frame) × List ℕ → List ℕ → Result (List Frame) × List ℕ
resume m (ok frames, rest) more = prepend frames (drain m (rest ++ more))
resume m (err e, rest) more = (err e, rest ++ more)

resume-cons_frame :
    (m : ℕ) (frame : Frame) (r : Result (List Frame) × List ℕ) (more : List ℕ)
    → resume m (cons_frame frame r) more ≡ cons_frame frame (resume m r more)
resume-cons_frame m frame (ok frames, rest) more =
    prepend-cons_frame frame frames (drain m (rest ++ more))
resume-cons_frame m frame (err e, rest) more = refl

-- Input that comes later gives what it would have given in the same call.
module _ (m : ℕ) (more : List ℕ) where
  drain-append_of :
      (buf : List ℕ) (r : Result (Option (Frame × List ℕ)))
      → next_frame m buf ≡ r
      → ((rest : List ℕ)
          → length rest < length buf
          → drain m (rest ++ more) ≡ resume m (drain m rest) more)
      → drain m (buf ++ more) ≡ resume m (drain m buf) more
  drain-append_of buf (err e) h ih =
      rw (drain-step m buf, h, drain-step m (buf ++ more), next_frame-append_err m buf more h) refl
  drain-append_of buf (ok none) h ih =
      rw (drain-step m buf, h) (sym (prepend-nil (drain m (buf ++ more))))
  drain-append_of buf (ok (some (frame, rest))) h ih =
      rw (drain-step m buf, h, drain-step m (buf ++ more), next_frame-append m buf more h)
        (ap (cons_frame frame) (ih rest (next_frame-shrinks m buf h))
          ∙ sym (resume-cons_frame m frame (drain m rest) more))

  drain-append_fuel :
      (f : ℕ) (buf : List ℕ) → length buf < f → drain m (buf ++ more) ≡ resume m (drain m buf) more
  drain-append_fuel zero buf h = absurd (omega arith)
  drain-append_fuel (suc f) buf h =
      drain-append_of buf (next_frame m buf) refl
        (λ rest less. drain-append_fuel f rest (omega arith))

  pub drain-append : (buf : List ℕ) → drain m (buf ++ more) ≡ resume m (drain m buf) more
  drain-append buf = drain-append_fuel (suc (length buf)) buf (omega arith)

IsRest : ℕ → Result (List Frame) × List ℕ → Type 0
IsRest m (ok frames, rest) = next_frame m rest ≡ ok none
IsRest m (err e, rest) = Unit

-- What a successful loop leaves holds no complete frame.
module _ (m : ℕ) where
  cons_frame-IsRest :
      (frame : Frame) (r : Result (List Frame) × List ℕ)
      → IsRest m r
      → IsRest m (cons_frame frame r)
  unfolding IsRest
  cons_frame-IsRest frame (ok frames, rest) h = h
  cons_frame-IsRest frame (err e, rest) h = h

  round-IsRest :
      (buf : List ℕ) (r : Result (Option (Frame × List ℕ)))
      → next_frame m buf ≡ r
      → ((rest : List ℕ) → length rest < length buf → IsRest m (drain m rest))
      → IsRest m (round (drain m) buf r)
  unfolding IsRest
  round-IsRest buf (err e) h ih = tt
  round-IsRest buf (ok none) h ih = h
  round-IsRest buf (ok (some (frame, rest))) h ih =
      cons_frame-IsRest frame (drain m rest) (ih rest (next_frame-shrinks m buf h))

  drain-IsRest : (f : ℕ) (buf : List ℕ) → length buf < f → IsRest m (drain m buf)
  drain-IsRest zero buf h = absurd (omega arith)
  drain-IsRest (suc f) buf h =
      rw (drain-step m buf)
        (round-IsRest buf (next_frame m buf) refl (λ rest less. drain-IsRest f rest (omega arith)))

  pub drain-rest :
      (buf : List ℕ) {frames : List Frame} {rest : List ℕ}
      → drain m buf ≡ (ok frames, rest)
      → next_frame m rest ≡ ok none
  unfolding IsRest
  drain-rest buf h = rw h at (drain-IsRest (suc (length buf)) buf (omega arith))
