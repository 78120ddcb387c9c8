-- ===== src/Pipeline/Ingest.antt =====
-- `ingest` as the framer's outputs, handled one by one.
use rust_telemetry_logger.Prelude.{
  ℕ, All, IsU8, ◌+◌, ◌≡◌, ◌∙◌, ap, refl, List, [], ◌∷◌, ◌++◌, append-nil, append_assoc, length,
  length-append, subst, sym, arith, ret, >>=-eq-ret, ret-injective, Bool-cases, inl, inr, is_ok,
}
use rust_telemetry_logger.Error.{Outcome, accepted, rejected}
use rust_telemetry_logger.Frame.{Frame}
use rust_telemetry_logger.Framer.{
  Framer, FrameOutput, incomplete, complete, overflow, cobs_error, parse_error, feed_all, feed,
}
use rust_telemetry_logger.Filter.{allow}
use rust_telemetry_logger.RingBuf.{push}
use rust_telemetry_logger.Validator.{check}
use rust_telemetry_logger.Pipeline.{
  Crates, Pipeline, record_of, enqueue, settle, handle, ingest_byte, ingest_from,
}
use rust_telemetry_logger.Traits.{Clock}
use rust_telemetry_logger.External.Cobs.{CobsLaws}
use rust_telemetry_logger.External.Heapless.{ByteVecLaws}
use rust_telemetry_logger.Framer.Invariant.{IsFramer, IsOutput}
use rust_telemetry_logger.Framer.Resync.{feed_all_total}

module _ (x : Crates) (MAX_FRAME QUEUE_DEPTH : ℕ) where
  -- The outputs of the bytes from place `i` on, each handled at the instant of its byte.
  unfoldable pub handles : ℕ → Clock → Pipeline → List FrameOutput → Pipeline
  handles i clock p [] = p
  handles i clock p (o ∷ os) =
      handles (i + 1) clock (handle x MAX_FRAME QUEUE_DEPTH (clock.now i) p o) os

  handles_keep :
      (I : Pipeline → Type 0) (clock : Clock) (os : List FrameOutput) (i : ℕ) (p : Pipeline)
      → ((n : ℕ) (q : Pipeline) (o : FrameOutput)
          → IsOutput o
          → I q
          → I (handle x MAX_FRAME QUEUE_DEPTH (clock.now n) q o))
      → All IsOutput os
      → I p
      → I (handles i clock p os)
  unfolding handles
  handles_keep I clock [] i p step ho h = h
  handles_keep I clock (o ∷ os) i p step (ho, hos) h =
      handles_keep I clock os (i + 1) (handle x MAX_FRAME QUEUE_DEPTH (clock.now i) p o) step hos
        (step i p o ho h)

  -- What may depend on the outputs so far, one for each instant from `start` on.
  pub handles_follow :
      (I : List FrameOutput → Pipeline → Type 0) (clock : Clock) (start : ℕ)
      → ((us : List FrameOutput) (q : Pipeline) (o : FrameOutput)
          → IsOutput o
          → I us q
          → I (us ++ (o ∷ [])) (handle x MAX_FRAME QUEUE_DEPTH (clock.now (start + length us)) q o))
      → (os us : List FrameOutput) (i : ℕ) (p : Pipeline) → i ≡ start + length us
      → All IsOutput os
      → I us p
      → I (us ++ os) (handles i clock p os)
  unfolding handles
  handles_follow I clock start step [] us i p e ho h = subst (λ l. I l p) (sym (append-nil us)) h
  handles_follow I clock start step (o ∷ os) us i p e (ho, hos) h =
      subst (λ l. I l (handles i clock p (o ∷ os))) (append_assoc us (o ∷ []) os)
        (handles_follow I clock start step os (us ++ (o ∷ [])) (i + 1)
          (handle x MAX_FRAME QUEUE_DEPTH (clock.now i) p o)
          (omega (arith, e, length-append us (o ∷ []))) hos
          (subst (λ n. I (us ++ (o ∷ [])) (handle x MAX_FRAME QUEUE_DEPTH (clock.now n) p o))
            (sym e) (step us p o ho h)))

  enqueue-framer :
      (now : ℕ) (p : Pipeline) (fr : Framer) (f : Frame)
      → enqueue x MAX_FRAME QUEUE_DEPTH now (record p { framer = fr }) f
        ≡ record (enqueue x MAX_FRAME QUEUE_DEPTH now p f) { framer = fr }
  unfolding enqueue
  enqueue-framer now p fr f = elim (Bool-cases (allow p.filter f)) [
    | inl passes ↦
        elim (Bool-cases (is_ok (push x.deque QUEUE_DEPTH p.ringbuf (record_of now f)).0)) [
          | inl room ↦ rw (passes, room)
          | inr full ↦ rw (passes, full)
        ]
    | inr stops ↦ rw stops
  ]

  settle-framer :
      (now : ℕ) (p : Pipeline) (fr : Framer) (o : Outcome Frame)
      → settle x MAX_FRAME QUEUE_DEPTH now (record p { framer = fr }) o
        ≡ record (settle x MAX_FRAME QUEUE_DEPTH now p o) { framer = fr }
  unfolding settle
  settle-framer now p fr (accepted f) = enqueue-framer now p fr f
  settle-framer now p fr (rejected r) = refl

  -- The handler neither reads nor writes the framer.
  pub handle-framer :
      (now : ℕ) (p : Pipeline) (fr : Framer) (o : FrameOutput)
      → handle x MAX_FRAME QUEUE_DEPTH now (record p { framer = fr }) o
        ≡ record (handle x MAX_FRAME QUEUE_DEPTH now p o) { framer = fr }
  unfolding handle
  handle-framer now p fr incomplete = refl
  handle-framer now p fr (complete f) =
      let (o, v) = check x.crc16 p.validator f in
      settle-framer now (record p { validator = v }) fr o
  handle-framer now p fr overflow = refl
  handle-framer now p fr cobs_error = refl
  handle-framer now p fr parse_error = refl

  handles-framer :
      (os : List FrameOutput) (i : ℕ) (clock : Clock) (p : Pipeline) (fr : Framer)
      → handles i clock (record p { framer = fr }) os
        ≡ record (handles i clock p os) { framer = fr }
  unfolding handles
  handles-framer [] i clock p fr = refl
  handles-framer (o ∷ os) i clock p fr =
      ap (λ q. handles (i + 1) clock q os) (handle-framer (clock.now i) p fr o)
      ∙ handles-framer os (i + 1) clock (handle x MAX_FRAME QUEUE_DEPTH (clock.now i) p o) fr

  ingest_byte_step :
      (now : ℕ) (p : Pipeline) (b : ℕ) (o : FrameOutput) (fr : Framer)
      → feed x.vec x.cobs MAX_FRAME p.framer b ≡ ret (o, fr)
      → ingest_byte x MAX_FRAME QUEUE_DEPTH now p b
        ≡ ret (record (handle x MAX_FRAME QUEUE_DEPTH now p o) { framer = fr })
  unfolding ingest_byte
  ingest_byte_step now p b o fr e = rw e (ap {A = Pipeline} (λ q. ret q) (handle-framer now p fr o))

  pub ingest_from_step :
      (i : ℕ) (clock : Clock) (p p' : Pipeline) (b : ℕ) (bs : List ℕ)
      → ingest_byte x MAX_FRAME QUEUE_DEPTH (clock.now i) p b ≡ ret p'
      → ingest_from x MAX_FRAME QUEUE_DEPTH i clock p (b ∷ bs)
        ≡ ingest_from x MAX_FRAME QUEUE_DEPTH (i + 1) clock p' bs
  unfolding ingest_from
  ingest_from_step i clock p p' b bs e = rw e

  -- When the framer turns the bytes into outputs, `ingest` handles these outputs in order, and
  -- keeps the framer's last state.
  pub ingest_from-feed_all :
      (bytes : List ℕ) (i : ℕ) (clock : Clock) (p : Pipeline) (os : List FrameOutput) (fr : Framer)
      → feed_all x.vec x.cobs MAX_FRAME p.framer bytes ≡ ret (os, fr)
      → ingest_from x MAX_FRAME QUEUE_DEPTH i clock p bytes
        ≡ ret (record (handles i clock p os) { framer = fr })
  unfolding feed_all handles
  ingest_from-feed_all [] i clock p os fr e =
      let done = ret-injective e in
      unfold ingest_from in
      (ap {A = List FrameOutput × Framer}
        (λ r. ret (record (handles i clock p r.0) { framer = r.1 })) done)
  ingest_from-feed_all (b ∷ bs) i clock p os fr e =
      let ((o, g), step, later) = >>=-eq-ret (feed x.vec x.cobs MAX_FRAME p.framer b) _ e in
      let ((ps, h), tail, done) = >>=-eq-ret (feed_all x.vec x.cobs MAX_FRAME g bs) _ later in
      let q = handle x MAX_FRAME QUEUE_DEPTH (clock.now i) p o in
      ingest_from_step i clock p (record q { framer = g }) b bs
        (ingest_byte_step (clock.now i) p b o g step)
      ∙ ingest_from-feed_all bs (i + 1) clock (record q { framer = g }) ps h tail
      ∙ ap {A = Pipeline} (λ r. ret (record r { framer = h })) (handles-framer ps (i + 1) clock q g)
      ∙ ap {A = List FrameOutput × Framer}
          (λ r. ret (record (handles i clock p r.0) { framer = r.1 })) (ret-injective done)

  -- What every step of the handler keeps, `ingest` keeps: it takes any bytes without a panic, and
  -- the framer keeps its invariant.
  pub ingest_from-keeps :
      (I : Pipeline → Type 0) (vl : ByteVecLaws x.vec) (k : CobsLaws x.cobs) (i : ℕ) (clock : Clock)
      (bytes : List ℕ) (p : Pipeline)
      → ((n : ℕ) (q : Pipeline) (o : FrameOutput)
          → IsOutput o
          → I q
          → I (handle x MAX_FRAME QUEUE_DEPTH (clock.now n) q o))
      → ((q : Pipeline) (fr : Framer) → I q → I (record q { framer = fr }))
      → All IsU8 bytes
      → IsFramer MAX_FRAME p.framer
      → I p
      → (p' : Pipeline) × (ingest_from x MAX_FRAME QUEUE_DEPTH i clock p bytes ≡ ret p')
        × IsFramer MAX_FRAME p'.framer
        × I p'
  ingest_from-keeps I vl k i clock bytes p step moved b hf h =
      let (os, fr, run, _, outputs, hf') = feed_all_total vl k MAX_FRAME bytes p.framer hf b in
      (
        _,
        ingest_from-feed_all bytes i clock p os fr run,
        hf',
        moved _ fr (handles_keep I clock os i p step outputs h),
      )
