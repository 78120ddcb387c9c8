-- ===== src/Framer/Chunks.antt =====
-- What the framer does with one chunk and its delimiter.
use rust_telemetry_logger.Prelude.{
  ℕ, zero, suc, ◌+◌, ◌-◌, ◌≤◌, ◌<◌, ◌≡◌, ◌∙◌, ap, sym, refl, subst, arith, List, [], ◌∷◌, ◌++◌,
  some, ret, leb, ◌==◌, false, le→leb, leb→le, gt→leb, leb→gt, ge→ltb, Bool-cases, Option-cases,
  inl, inr, length, append_assoc, replicate, take, drop, length-append, length-drop, length-take_le,
  List-cases, All-append_left, All-append_right, take-append-drop, All, All-imp, IsU8,
  saturating_add_u32, is_empty-pos,
}
use rust_telemetry_logger.External.Cobs.{Cobs, CobsLaws, IsNonzeroU8}
use rust_telemetry_logger.External.Heapless.{ByteVec, ByteVecLaws}
use rust_telemetry_logger.Frame.{raw_len}
use rust_telemetry_logger.Framer.{
  Framer, collecting, discarding, FrameOutput, incomplete, complete, overflow, cobs_error,
  parse_error, feed_collecting, feed_discarding, process, feed, feed_all, check_decoded,
}
use rust_telemetry_logger.Framer.Decoded.{check_decoded_cases}
use rust_telemetry_logger.Framer.Description.{
  IsDecodedAs, not_cobs, frame, no_frame, IsAnswer, nothing, too_long, decoded, outputs, resyncs,
  IsBetween,
}
use rust_telemetry_logger.Framer.Invariant.{feed_collects, feed_discards}
use rust_telemetry_logger.Framer.Parse.{check_decoded-frame_bytes}
use rust_telemetry_logger.Framer.Stream.{feed_all_cons, feed_all-append, feed_block}

module _ {v : ByteVec} (vl : ByteVecLaws v) {cobs : Cobs} (k : CobsLaws cobs) (N : ℕ) where
  -- What `process` answers to the chunk in the buffer.
  Processes : Framer → Type 0
  Processes f =
      (o : FrameOutput) × (f' : Framer) × (process v cobs f ≡ ret (o, f'))
      × IsDecodedAs cobs N f.buf o
      × (f'.state ≡ f.state)
      × (f'.resync_count ≡ resyncs f.resync_count (o ∷ []))

  processes : (f : Framer) → All IsU8 f.buf → Processes f
  unfolding Processes process resyncs
  processes f bytes =
      let buf = (cobs.decode_in_place f.buf).1 in
      elim (Option-cases (cobs.decode_in_place f.buf).0) [
        | inl fails ↦ (
          cobs_error,
          record f { buf = buf; resync_count = saturating_add_u32 f.resync_count 1 },
          rw (fails, process) refl,
          not_cobs fails,
          refl,
          refl,
        )
        | inr (n, decodes) ↦
            elim (check_decoded_cases vl cobs buf n (k.decode-IsU8 f.buf bytes)
              (omega (arith, k.decode-le f.buf n decodes, k.length-decode f.buf))) [
                | inl d ↦ (
                  complete d.frame,
                  record f { buf = buf },
                  rw (decodes, process) (rw d.output refl),
                  frame d.frame d.tail (decodes ∙ ap some d.decoded_len) d.bytes d.valid,
                  refl,
                  refl,
                )
                | inr refused ↦ (
                  parse_error,
                  record f { buf = buf },
                  rw (decodes, process) (rw refused refl),
                  no_frame n decodes (λ g tail h len bytes_of. cc (
                    refused,
                    ap (check_decoded v cobs buf) len,
                    ap (λ b. check_decoded v cobs b (raw_len g)) bytes_of,
                    check_decoded-frame_bytes vl cobs g tail h,
                  )),
                  refl,
                  refl,
                )
              ]
      ]

  -- A chunk in the buffer, and its delimiter.
  delimits :
      (f : Framer)
      → f.state ≡ collecting
      → 0 < length f.buf
      → All IsU8 f.buf
      → (o : FrameOutput) × (f' : Framer) × (feed v cobs N f 0 ≡ ret (o, f'))
        × IsDecodedAs cobs N f.buf o
        × IsBetween f.resync_count (o ∷ []) f'
  unfolding feed_collecting Processes
  delimits f s pos bytes =
      let (o, f', run, answer, same, count) = processes f bytes in
      (
        o,
        record f' { buf = [] },
        feed_collects v cobs N f 0 s ∙ rw (is_empty-pos f.buf pos, run) refl,
        answer,
        record { collects = same ∙ s; empty = refl; counted = count },
      )

  -- The byte behind a full buffer.
  overflows :
      (f : Framer) (b : ℕ)
      → f.state ≡ collecting
      → length f.buf ≡ N
      → 0 < b
      → feed v cobs N f b
        ≡ ret (
          overflow,
          record f {
            state = discarding;
            resync_count = saturating_add_u32 f.resync_count 1;
            buf = [];
          },
        )
  unfolding feed_collecting
  overflows f b s full pos =
      let e : (b == 0) ≡ false = ground arith in
      let no_room = vl.push_lem N f.buf b in
      feed_collects v cobs N f b s
      ∙ rw e (rw no_room (rw (ge→ltb (length f.buf) N (omega (arith, full))) refl))

  drops_bytes :
      (f : Framer) (bytes : List ℕ)
      → f.state ≡ discarding
      → All IsNonzeroU8 bytes
      → feed_all v cobs N f bytes ≡ ret (replicate (length bytes) incomplete, f)
  drops_bytes f [] s h = unfold feed_all in refl
  drops_bytes f (b ∷ bytes) s ((small, pos), h) =
      let e : (b == 0) ≡ false = ground arith in
      let stays : feed v cobs N f b ≡ ret (incomplete, f) =
        feed_discards v cobs N f b s ∙ unfold feed_discarding in rw e refl in
      feed_all_cons v cobs N f f f b bytes incomplete (replicate (length bytes) incomplete) stays
        (drops_bytes f bytes s h)

  resynchronises :
      (f : Framer)
      → f.state ≡ discarding
      → feed_all v cobs N f (0 ∷ [])
        ≡ ret (incomplete ∷ [], record f { buf = []; state = collecting })
  resynchronises f s =
      let g : Framer = record f { buf = []; state = collecting } in
      feed_all_cons v cobs N f g g 0 [] incomplete []
        (feed_discards v cobs N f 0 s ∙ unfold feed_discarding in refl) (unfold feed_all in refl)

  -- A chunk and its delimiter, from between chunks.
  abbrev pub Answered : Framer → List ℕ → Type 0
  Answered f c =
      (o : FrameOutput) × (f' : Framer) × (feed_all v cobs N f (c ++ (0 ∷ []))
        ≡ ret (outputs cobs N c o, f'))
      × IsAnswer cobs N c o
      × IsBetween f.resync_count (o ∷ []) f'

  empty_chunk : (f : Framer) → f.state ≡ collecting → f.buf ≡ [] → Answered f []
  unfolding feed_collecting resyncs
  empty_chunk f s e = (
    incomplete,
    f,
    rw (le→leb 0 N (omega arith)) (
        feed_all_cons v cobs N f f f 0 [] incomplete [] (feed_collects v cobs N f 0 s ∙ rw e refl)
          (unfold feed_all in refl)),
    nothing refl,
    record { collects = s; empty = e; counted = refl },
  )

  short_chunk :
      (f : Framer) (c : List ℕ)
      → f.state ≡ collecting
      → f.buf ≡ []
      → All IsNonzeroU8 c
      → 0 < length c
      → length c ≤ N
      → Answered f c
  short_chunk f c s e h pos fits =
      let g : Framer = record f { buf = c } in
      let quiet = replicate (length c) incomplete in
      let (o, f', run, answer, between) =
        delimits g s pos (All-imp IsNonzeroU8 IsU8 c (λ b p. p.0) h) in
      (
        o,
        f',
        rw (le→leb (length c) N fits) (
            feed_all-append v cobs N f g f' c (0 ∷ []) quiet (o ∷ [])
              (feed_block vl cobs N f c s h (omega (arith, fits, ap length e))
                ∙ ap (λ l. ret (quiet, record f { buf = l ++ c })) e)
              (feed_all_cons v cobs N g f' f' 0 [] o [] run (unfold feed_all in refl))),
        decoded pos fits answer,
        between,
      )

  -- The outputs for `n` bytes that are dropped, and their delimiter.
  dropped_outputs :
      (n : ℕ) → replicate n incomplete ++ (incomplete ∷ []) ≡ replicate (suc n) incomplete
  dropped_outputs zero = refl
  dropped_outputs (suc n) = ap (λ l. incomplete ∷ l) (dropped_outputs n)

  long_chunk :
      (f : Framer) (xs ys : List ℕ) (y : ℕ)
      → f.state ≡ collecting
      → f.buf ≡ []
      → All IsNonzeroU8 (xs ++ (y ∷ ys))
      → length xs ≡ N
      → Answered f (xs ++ (y ∷ ys))
  unfolding resyncs
  long_chunk f xs ys y s e h full =
      let g : Framer = record f { buf = xs } in
      let d : Framer = record f {
        state = discarding;
        resync_count = saturating_add_u32 f.resync_count 1;
        buf = [];
      } in
      let done : Framer = record d { state = collecting } in
      let c = xs ++ (y ∷ ys) in
      let size : length c ≡ N + (length ys + 1) = length-append xs (y ∷ ys) ∙ omega (arith, full) in
      let ((_, pos), behind) = All-append_right IsNonzeroU8 xs (y ∷ ys) h in
      let front : feed_all v cobs N f xs ≡ ret (replicate (length xs) incomplete, g) =
        feed_block vl cobs N f xs s (All-append_left IsNonzeroU8 xs (y ∷ ys) h)
          (omega (arith, full, ap length e))
        ∙ ap (λ l. ret (replicate (length xs) incomplete, record f { buf = l ++ xs })) e in
      let quiet = replicate (length ys) incomplete in
      let back : feed_all v cobs N g ((y ∷ ys) ++ (0 ∷ []))
          ≡ ret (overflow ∷ (quiet ++ (incomplete ∷ [])), done) =
        feed_all_cons v cobs N g d done y (ys ++ (0 ∷ [])) overflow (quiet ++ (incomplete ∷ []))
          (overflows g y s full pos)
          (feed_all-append v cobs N d d done ys (0 ∷ []) quiet (incomplete ∷ [])
            (drops_bytes d ys refl behind) (resynchronises d refl)) in
      let shape : replicate (length xs) incomplete ++ (overflow ∷ (quiet ++ (incomplete ∷ [])))
          ≡ replicate N incomplete ++ (overflow ∷ replicate (length c - N) incomplete) =
        ap (λ n. replicate n incomplete ++ (overflow ∷ (quiet ++ (incomplete ∷ [])))) full
        ∙ ap (λ l. replicate N incomplete ++ (overflow ∷ l))
            (dropped_outputs (length ys)
              ∙ ap (λ n. replicate n incomplete) {x = suc (length ys)} {y = length c - N}
                  (omega (arith, size))) in
      (
        overflow,
        done,
        ap (feed_all v cobs N f) (append_assoc xs (y ∷ ys) (0 ∷ []))
            ∙ feed_all-append v cobs N f g done xs ((y ∷ ys) ++ (0 ∷ [])) _ _ front back
            ∙ ap (λ l. ret (l, done)) shape
            ∙ rw (gt→leb (length c) N (omega (arith, size))) refl,
        too_long (omega (arith, size)),
        record { collects = refl; empty = refl; counted = refl },
      )

  pub feed_chunk :
      (f : Framer) (c : List ℕ)
      → f.state ≡ collecting
      → f.buf ≡ []
      → All IsNonzeroU8 c
      → Answered f c
  feed_chunk f [] s e h = empty_chunk f s e
  feed_chunk f (b ∷ bs) s e h =
      let c = b ∷ bs in
      elim (Bool-cases (leb (length c) N)) [
        | inl fits ↦ short_chunk f c s e h (omega arith) (leb→le (length c) N fits)
        | inr long ↦
            let more = leb→gt (length c) N long in
            let split = take-append-drop N c in
            elim (List-cases (drop N c)) [
              | inl none_left ↦ absurd (omega (arith, more, length-drop N c, ap length none_left))
              | inr (y, ys, rest) ↦
                  let whole : take N c ++ (y ∷ ys) ≡ c =
                    ap (λ l. take N c ++ l) (sym rest) ∙ split in
                  subst (Answered f) whole (
                    long_chunk f (take N c) ys y s e (subst (All IsNonzeroU8) (sym whole) h)
                      (length-take_le N c (omega (arith, more))))
            ]
      ]
