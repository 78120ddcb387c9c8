-- ===== src/Pipeline/Delivery.antt =====
-- From the wire to the queue: frames in order are delivered as records.
use rust_telemetry_logger.Prelude.{
  ℕ, zero, suc, ◌+◌, ◌≤◌, ◌<◌, ◌^◌, ◌≡◌, ◌∙◌, ap, refl, sym, arith, Option, some, List, [], ◌∷◌,
  ◌++◌, ret, append_assoc, append-nil, length, All, length-append, true, is_ok, lt→ltb, >>=-eq-ret,
  ret-injective, replicate,
}
use rust_telemetry_logger.External.Cobs.{CobsLaws}
use rust_telemetry_logger.External.Crc.{CrcLaws}
use rust_telemetry_logger.External.Heapless.{DequeLaws, ByteVecLaws}
use rust_telemetry_logger.Filter.{FilterConfig, allow}
use rust_telemetry_logger.Frame.{Frame, IsFrame}
use rust_telemetry_logger.Frame.Wire.{body}
use rust_telemetry_logger.Framer.{collecting, FrameOutput, incomplete, complete}
use rust_telemetry_logger.Framer.RoundTrip.{stamped, wire, wires, feed_all-wire}
use rust_telemetry_logger.Record.{StoredRecord}
use rust_telemetry_logger.RingBuf.{push}
use rust_telemetry_logger.RingBuf.Queue.{push_lem}
use rust_telemetry_logger.Validator.Accept.{
  IsNext, IsKnownType, IsKnownSeverity, check_in_order, stamped-IsSound,
}
use rust_telemetry_logger.Pipeline.{
  Crates, Pipeline, record_of, count_ok, enqueue, settle, handle, ingest_byte, ingest_from,
}
use rust_telemetry_logger.Pipeline.Ingest.{handles, ingest_from_step, ingest_from-feed_all}
use rust_telemetry_logger.Traits.{Clock}

-- Sequence numbers that follow one another, the first one behind `last`.
abbrev pub InOrder : Option ℕ → List Frame → Type 0
InOrder last [] = Unit
InOrder last (f ∷ fs) = IsNext last f.header.sequence × InOrder (some f.header.sequence) fs

-- The last sequence number behind some frames.
unfoldable pub last_number : Option ℕ → List Frame → Option ℕ
last_number last [] = last
last_number last (f ∷ fs) = last_number (some f.header.sequence) fs

module _ (x : Crates) (k : CobsLaws x.cobs) (MAX_FRAME QUEUE_DEPTH : ℕ) where
  -- A frame that a sender may produce, which the framer's buffer holds and the filter lets through.
  pub record IsDeliverable (filter : FilterConfig) (f : Frame) : Type 0 where
    pub frame : IsFrame f
    pub known_type : IsKnownType f.header.packet_type
    pub known_severity : IsKnownSeverity f.header.severity
    pub room : length (body x.crc16 k f) ≤ MAX_FRAME
    pub allowed : allow filter f ≡ true

  -- The records of frames whose first byte is at place `i`, each stamped at its delimiter.
  unfoldable pub arrivals : ℕ → Clock → List Frame → List StoredRecord
  arrivals i clock [] = []
  arrivals i clock (f ∷ fs) =
      let n = i + length (body x.crc16 k f) in
      record_of (clock.now n) (stamped x.crc16 f) ∷ arrivals (n + 1) clock fs

  pub ingest_from-append :
      (xs ys : List ℕ) (i : ℕ) (clock : Clock) (p p' : Pipeline)
      → ingest_from x MAX_FRAME QUEUE_DEPTH i clock p xs ≡ ret p'
      → ingest_from x MAX_FRAME QUEUE_DEPTH i clock p (xs ++ ys)
        ≡ ingest_from x MAX_FRAME QUEUE_DEPTH (i + length xs) clock p' ys
  unfolding ingest_from
  ingest_from-append [] ys i clock p p' e =
      ap (λ q. ingest_from x MAX_FRAME QUEUE_DEPTH i clock q ys) (ret-injective e)
      ∙ ap (λ n. ingest_from x MAX_FRAME QUEUE_DEPTH n clock p' ys) (omega arith)
  ingest_from-append (b ∷ xs) ys i clock p p' e =
      let (q, step, later) =
        >>=-eq-ret (ingest_byte x MAX_FRAME QUEUE_DEPTH (clock.now i) p b) _ e in
      ingest_from_step x MAX_FRAME QUEUE_DEPTH i clock p q b (xs ++ ys) step
      ∙ ingest_from-append xs ys (i + 1) clock q p' later
      ∙ ap (λ n. ingest_from x MAX_FRAME QUEUE_DEPTH n clock p' ys) (omega arith)

  handles-quiet :
      (n i : ℕ) (clock : Clock) (p : Pipeline) (o : FrameOutput)
      → handles x MAX_FRAME QUEUE_DEPTH i clock p (replicate n incomplete ++ (o ∷ []))
        ≡ handle x MAX_FRAME QUEUE_DEPTH (clock.now (i + n)) p o
  unfolding handles handle
  handles-quiet zero i clock p o =
      ap (λ n. handle x MAX_FRAME QUEUE_DEPTH (clock.now n) p o) (omega arith)
  handles-quiet (suc n) i clock p o =
      handles-quiet n (i + 1) clock p o
      ∙ ap (λ m. handle x MAX_FRAME QUEUE_DEPTH (clock.now m) p o) (omega arith)

  module _ (crcl : CrcLaws (2 ^ 16) x.crc16) (vl : ByteVecLaws x.vec) (dl : DequeLaws x.deque)
      (small : QUEUE_DEPTH < 2 ^ 32) where
    -- The pipeline behind an accepted frame.
    abbrev pub delivered : ℕ → Pipeline → Frame → Pipeline
    delivered now p f =
        let rb = (push x.deque QUEUE_DEPTH p.ringbuf (record_of now (stamped x.crc16 f))).1 in
        record p {
          validator = record { last_seq = some f.header.sequence };
          ringbuf = rb;
          stats = count_ok p.stats rb;
        }

    pub allow-stamped :
        (c : FilterConfig) (f : Frame) → allow c f ≡ true → allow c (stamped x.crc16 f) ≡ true
    unfolding allow
    allow-stamped c f h = h

    pub queued :
        (now : ℕ) (p : Pipeline) (f : Frame)
        → length p.ringbuf.queue < QUEUE_DEPTH
        → (is_ok (push x.deque QUEUE_DEPTH p.ringbuf (record_of now (stamped x.crc16 f))).0 ≡ true)
          × ((delivered now p f).ringbuf.queue
              ≡ p.ringbuf.queue ++ (record_of now (stamped x.crc16 f) ∷ []))
    queued now p f room =
        let r = record_of now (stamped x.crc16 f) in
        rw (push_lem dl QUEUE_DEPTH p.ringbuf r small) (rw (lt→ltb _ _ room) (refl, refl))

    pub handle_delivers :
        (now : ℕ) (p : Pipeline) (f : Frame)
        → IsDeliverable p.filter f
        → IsNext p.validator.last_seq f.header.sequence
        → length p.ringbuf.queue < QUEUE_DEPTH
        → handle x MAX_FRAME QUEUE_DEPTH now p (complete (stamped x.crc16 f)) ≡ delivered now p f
    unfolding handle settle enqueue
    handle_delivers now p f h n room =
        let g = stamped x.crc16 f in
        let sound = stamped-IsSound x.crc16 crcl f h.frame h.known_type h.known_severity in
        rw (check_in_order x.crc16 p.validator g sound n)
          (rw (allow-stamped p.filter f h.allowed) (rw ((queued now p f room).0) refl))

    -- The bytes of a frame, for the pipeline `q` behind the handler.
    pub ingest_from-wire :
        (i : ℕ) (clock : Clock) (p q : Pipeline) (f : Frame)
        → IsDeliverable p.filter f
        → handle x MAX_FRAME QUEUE_DEPTH
            (clock.now (i + length (body x.crc16 k f)))
            p
            (complete (stamped x.crc16 f))
          ≡ q
        → p.framer.state ≡ collecting
        → p.framer.buf ≡ []
        → ingest_from x MAX_FRAME QUEUE_DEPTH i clock p (wire x.crc16 k f)
          ≡ ret (record q { framer = record p.framer { buf = [] } })
    ingest_from-wire i clock p q f h e s empty =
        let b = length (body x.crc16 k f) in
        ingest_from-feed_all x MAX_FRAME QUEUE_DEPTH (wire x.crc16 k f) i clock p
          (replicate b incomplete ++ (complete (stamped x.crc16 f) ∷ []))
          (record p.framer { buf = [] })
          (feed_all-wire x.crc16 k vl MAX_FRAME p.framer f h.frame s empty h.room)
        ∙ ap {A = Pipeline} (λ q. ret (record q { framer = record p.framer { buf = [] } }))
            (handles-quiet b i clock p (complete (stamped x.crc16 f)) ∙ e)

    -- Deliverable frames whose sequence numbers follow one another, one behind the other on the
    -- wire, are all queued, in order, stamped with the clock at their delimiters, when the framer
    -- is between frames and the queue has room. The framer is between frames again, the filter is
    -- the same, and the last frame's sequence number is remembered.
    pub ingest_from-wires :
        (fs : List Frame) (i : ℕ) (clock : Clock) (p : Pipeline)
        → All (IsDeliverable p.filter) fs
        → InOrder p.validator.last_seq fs
        → length p.ringbuf.queue + length fs ≤ QUEUE_DEPTH
        → p.framer.state ≡ collecting
        → p.framer.buf ≡ []
        → (p' : Pipeline) × (ingest_from x MAX_FRAME QUEUE_DEPTH i clock p (wires x.crc16 k fs)
            ≡ ret p')
          × (p'.ringbuf.queue ≡ p.ringbuf.queue ++ arrivals i clock fs)
          × (p'.framer.state ≡ collecting)
          × (p'.framer.buf ≡ [])
          × (p'.filter ≡ p.filter)
          × (p'.validator.last_seq ≡ last_number p.validator.last_seq fs)
    unfolding wires arrivals last_number
    ingest_from-wires [] i clock p h n room s e =
        (p, unfold ingest_from in refl, sym (append-nil p.ringbuf.queue), s, e, refl, refl)
    ingest_from-wires (f ∷ fs) i clock p (h, hs) (n, ns) room s e =
        let b = length (body x.crc16 k f) in
        let now = clock.now (i + b) in
        let r = record_of now (stamped x.crc16 f) in
        let q : Pipeline = record (delivered now p f) { framer = record p.framer { buf = [] } } in
        let grown = (queued now p f (omega arith)).1 in
        let (p', run, queue, s', e', filter, last) =
          ingest_from-wires fs (i + b + 1) clock q hs ns
            (omega (arith, ap length grown, length-append p.ringbuf.queue (r ∷ []))) s refl in
        (
          p',
          ingest_from-append (wire x.crc16 k f) (wires x.crc16 k fs) i clock p q (
                ingest_from-wire i clock p (delivered now p f) f h
                  (handle_delivers now p f h n (omega arith)) s e)
              ∙ ap (λ m. ingest_from x MAX_FRAME QUEUE_DEPTH m clock q (wires x.crc16 k fs))
                  (omega (arith, length-append (body x.crc16 k f) (0 ∷ [])))
              ∙ run,
          queue
              ∙ ap (λ l. l ++ arrivals (i + b + 1) clock fs) grown
              ∙ append_assoc p.ringbuf.queue (r ∷ []) (arrivals (i + b + 1) clock fs),
          s',
          e',
          filter,
          last,
        )
