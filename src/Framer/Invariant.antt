-- ===== src/Framer/Invariant.antt =====
-- The framer's invariant. No byte makes it panic, and every complete frame is well formed.
use rust_telemetry_logger.Prelude.{
  ℕ, ◌+◌, ◌≤◌, ◌≡◌, ◌∙◌, ap, refl, subst, arith, min, true, false, ◌⊎◌, ◌≢◌, ◌-◌, if◌then◌else◌,
  List, [], ◌∷◌, ◌++◌, some, none, Option-cases, ret, ltb, ltb→lt, ==_iff, ◌==◌, inl, inr,
  Bool-cases, length, length-append, All, All-append, All-imp, IsU8, IsU32, is_empty, ◌^◌,
}
use rust_telemetry_logger.External.Heapless.{ByteVec, ByteVecLaws}
use rust_telemetry_logger.External.Cobs.{Cobs, CobsLaws, IsNonzeroU8}
use rust_telemetry_logger.Frame.{IsFrame}
use rust_telemetry_logger.Framer.{
  Framer, FramerState, collecting, discarding, FrameOutput, incomplete, complete, overflow,
  cobs_error, parse_error, process, feed_discarding, feed_collecting, feed, new,
}
use rust_telemetry_logger.Framer.Decoded.{check_decoded_cases}

pub record IsFramer (N : ℕ) (f : Framer) : Type 0 where
  pub fits : length f.buf ≤ N
  pub nonzero : All IsNonzeroU8 f.buf
  pub resync : IsU32 f.resync_count
  pub discards : (f.state ≡ collecting) ⊎ (f.buf ≡ [])

abbrev pub IsOutput : FrameOutput → Type 0
IsOutput (complete f) = IsFrame f
IsOutput _ = Unit

pub IsFramer-new : (N : ℕ) → IsFramer N new
IsFramer-new N = record {
  fits = omega arith;
  nonzero = tt;
  resync = omega arith;
  discards = inl refl;
}

is_empty→nil : (xs : List ℕ) → is_empty xs ≡ true → xs ≡ []
is_empty→nil [] h = refl
is_empty→nil (x ∷ xs) h = cc

module _ (v : ByteVec) (cobs : Cobs) (N : ℕ) where
  pub feed_collects :
      (f : Framer) (byte : ℕ)
      → f.state ≡ collecting
      → feed v cobs N f byte ≡ feed_collecting v cobs N f byte
  unfolding feed
  feed_collects f byte s = λ i. elim (s i) [
    | discarding ↦ feed_discarding v cobs N f byte
    | collecting ↦ feed_collecting v cobs N f byte
  ]

  pub feed_discards :
      (f : Framer) (byte : ℕ)
      → f.state ≡ discarding
      → feed v cobs N f byte ≡ feed_discarding v cobs N f byte
  unfolding feed
  feed_discards f byte s = rw s

module _ {v : ByteVec} (vl : ByteVecLaws v) {cobs : Cobs} (k : CobsLaws cobs) where
  -- The step returned `out`, and left a framer with the same state whose count is in range.
  abbrev Processed : Framer → Type 0
  Processed f =
      (out : FrameOutput) × (f' : Framer) × (process v cobs f ≡ ret (out, f'))
      × IsOutput out
      × (f'.state ≡ f.state)
      × IsU32 f'.resync_count

  process_total : (f : Framer) → All IsU8 f.buf → IsU32 f.resync_count → Processed f
  unfolding process
  process_total f bytes count =
      let buf = (cobs.decode_in_place f.buf).1 in
      elim (Option-cases (cobs.decode_in_place f.buf).0) [
        | inl fails ↦ (
          cobs_error,
          record f { buf = buf; resync_count = min (f.resync_count + 1) (2 ^ 32 - 1) },
          rw (fails, process),
          tt,
          refl,
          omega arith,
        )
        | inr (n, decodes) ↦
            elim (check_decoded_cases vl cobs buf n (k.decode-IsU8 f.buf bytes)
              (omega (arith, k.decode-le f.buf n decodes, k.length-decode f.buf))) [
                | inl d ↦ (
                  complete d.frame,
                  record f { buf = buf },
                  rw (decodes, process) (rw d.output),
                  d.valid,
                  refl,
                  count,
                )
                | inr refused ↦ (
                  parse_error,
                  record f { buf = buf },
                  rw (decodes, process) (rw refused),
                  tt,
                  refl,
                  count,
                )
              ]
      ]

  module _ (N : ℕ) where
    abbrev pub Fed : Framer → ℕ → Type 0
    Fed f byte =
        (out : FrameOutput) × (f' : Framer) × (feed v cobs N f byte ≡ ret (out, f'))
        × IsOutput out
        × IsFramer N f'
        × (byte ≡ 0 → (f'.state ≡ collecting) × (f'.buf ≡ []))

    push_lt :
        (f : Framer) (byte : ℕ) (buf : List ℕ)
        → IsFramer N f
        → IsU8 byte
        → byte ≢ 0
        → v.push N f.buf byte ≡ some buf
        → (length buf ≤ N) × All IsNonzeroU8 buf
    push_lt f byte buf h b ne pushed = elim (Bool-cases (ltb (length f.buf) N)) [
      | inl room ↦
          let e : f.buf ++ (byte ∷ []) ≡ buf = cc (
            vl.push_lem N f.buf byte,
            pushed,
            ap (λ t. if t then some (f.buf ++ (byte ∷ [])) else none) room,
          ) in
          (
            subst (λ l. length l ≤ N) e (rw length-append (omega (arith, ltb→lt _ _ room))),
            subst (All IsNonzeroU8) e
                (All-append IsNonzeroU8 f.buf (byte ∷ []) h.nonzero ((b, omega arith), tt)),
          )
      | inr full ↦ cc (
        vl.push_lem N f.buf byte,
        pushed,
        ap (λ t. if t then some (f.buf ++ (byte ∷ [])) else none) full,
      )
    ]

    collect_total :
        (f : Framer) (byte : ℕ)
        → IsFramer N f
        → f.state ≡ collecting
        → IsU8 byte
        → byte ≢ 0
        → Fed f byte
    unfolding feed_collecting
    collect_total f byte h s b ne =
        let ne' : (byte == 0) ≡ false = ground arith in
        elim (Option-cases (v.push N f.buf byte)) [
          | inl full ↦ (
            overflow,
            record f {
              state = discarding;
              resync_count = min (f.resync_count + 1) (2 ^ 32 - 1);
              buf = [];
            },
            feed_collects v cobs N f byte s ∙ rw (ne', full),
            tt,
            record { fits = omega arith; nonzero = tt; resync = omega arith; discards = inr refl },
            λ z. absurd (ne z),
          )
          | inr (buf, pushed) ↦
              let (fits, nonzero) = push_lt f byte buf h b ne pushed in
              (
                incomplete,
                record f { buf = buf },
                feed_collects v cobs N f byte s ∙ rw (ne', pushed),
                tt,
                record { fits = fits; nonzero = nonzero; resync = h.resync; discards = inl s },
                λ z. absurd (ne z),
              )
        ]

    delimit_total : (f : Framer) → IsFramer N f → f.state ≡ collecting → Fed f 0
    unfolding feed_collecting
    delimit_total f h s = elim (Bool-cases (is_empty f.buf)) [
      | inl empty ↦ (
        incomplete,
        f,
        feed_collects v cobs N f 0 s ∙ rw empty,
        tt,
        h,
        λ z. (s, is_empty→nil f.buf empty),
      )
      | inr more ↦
          let (out, f', e, good, same, count) =
            process_total f (All-imp IsNonzeroU8 IsU8 f.buf (λ x p. p.0) h.nonzero) h.resync in
          (
            out,
            record f' { buf = [] },
            feed_collects v cobs N f 0 s ∙ rw (more, e),
            good,
            record { fits = omega arith; nonzero = tt; resync = count; discards = inr refl },
            λ z. (same ∙ s, refl),
          )
    ]

    discard_total : (f : Framer) (byte : ℕ) → IsFramer N f → f.state ≡ discarding → Fed f byte
    unfolding feed_discarding
    discard_total f byte h s = elim (Bool-cases (byte == 0)) [
      | inl zero_byte ↦ (
        incomplete,
        record f { buf = []; state = collecting },
        feed_discards v cobs N f byte s ∙ rw zero_byte,
        tt,
        record { fits = omega arith; nonzero = tt; resync = h.resync; discards = inr refl },
        λ z. (refl, refl),
      )
      | inr other ↦ (
        incomplete,
        f,
        feed_discards v cobs N f byte s ∙ rw other,
        tt,
        h,
        λ z. cc (other, ap (λ b. b == 0) z),
      )
    ]

    pub state_cases : (s : FramerState) → (s ≡ collecting) ⊎ (s ≡ discarding)
    state_cases collecting = inl refl
    state_cases discarding = inr refl

    -- From a framer that satisfies its invariant every byte is taken without a panic, the next
    -- framer satisfies the invariant, and a complete frame is well formed. After a zero byte the
    -- framer collects, with an empty buffer.
    pub feed_total : (f : Framer) (byte : ℕ) → IsFramer N f → IsU8 byte → Fed f byte
    feed_total f byte h b = elim (state_cases f.state) [
      | inl collects ↦ elim (Bool-cases (byte == 0)) [
        | inl zero_byte ↦ rw ((==_iff byte 0).0 zero_byte) (delimit_total f h collects)
        | inr other ↦ collect_total f byte h collects b (ground arith)
      ]
      | inr discards ↦ discard_total f byte h discards
    ]
