-- ===== src/Pipeline/Overflow.antt =====
-- Frames that arrive while the queue is full.
use rust_telemetry_logger.Prelude.{
  ℕ, ◌+◌, ◌-◌, ◌%◌, ◌≤◌, ◌<◌, ◌^◌, ◌≡◌, ◌∙◌, ap, refl, sym, arith, some, List, [], ◌∷◌, ◌++◌, ret,
  append_assoc, append-nil, length, All, length-append, take, take-append_eq, take_all, ltb, ge→ltb,
  lt→ltb, ltb→lt, ltb→ge, IsU64, add_u64, Bool-cases, inl, inr,
}
use rust_telemetry_logger.External.Cobs.{CobsLaws}
use rust_telemetry_logger.External.Crc.{CrcLaws}
use rust_telemetry_logger.External.Heapless.{DequeLaws, ByteVecLaws}
use rust_telemetry_logger.Frame.{Frame}
use rust_telemetry_logger.Frame.Wire.{body}
use rust_telemetry_logger.Framer.{collecting, complete}
use rust_telemetry_logger.Framer.RoundTrip.{stamped, wire, wires}
use rust_telemetry_logger.Pipeline.{
  Crates, Pipeline, record_of, count_ok, enqueue, settle, handle, ingest_from,
}
use rust_telemetry_logger.Pipeline.Delivery.{
  InOrder, IsDeliverable, arrivals, allow-stamped, queued, delivered, handle_delivers,
  ingest_from-append, ingest_from-wire,
}
use rust_telemetry_logger.RingBuf.Queue.{push_lem}
use rust_telemetry_logger.Traits.{Clock}
use rust_telemetry_logger.Validator.Accept.{IsNext, check_in_order, stamped-IsSound}

module _ (x : Crates) (k : CobsLaws x.cobs) (MAX_FRAME N : ℕ) (crcl : CrcLaws (2 ^ 16) x.crc16)
    (vl : ByteVecLaws x.vec) (dl : DequeLaws x.deque) (small : N < 2 ^ 32) where
  -- The pipeline behind an accepted frame that finds the queue full.
  abbrev refused : Pipeline → Frame → Pipeline
  refused p f = record p {
    validator = record { last_seq = some f.header.sequence };
    ringbuf = record p.ringbuf { overflow_count = add_u64 p.ringbuf.overflow_count 1 };
    stats = record p.stats { dropped = add_u64 p.stats.dropped 1 };
  }

  handle_refuses :
      (now : ℕ) (p : Pipeline) (f : Frame)
      → IsDeliverable x k MAX_FRAME N p.filter f
      → IsNext p.validator.last_seq f.header.sequence
      → N ≤ length p.ringbuf.queue
      → handle x MAX_FRAME N now p (complete (stamped x.crc16 f)) ≡ refused p f
  unfolding handle settle enqueue
  handle_refuses now p f h n full =
      let g = stamped x.crc16 f in
      let sound = stamped-IsSound x.crc16 crcl f h.frame h.known_type h.known_severity in
      let pushed = push_lem dl N p.ringbuf (record_of now g) small in
      rw (check_in_order x.crc16 p.validator g sound n) (
        rw (allow-stamped x k MAX_FRAME N crcl vl dl small p.filter f h.allowed)
          (rw pushed (rw (ge→ltb (length p.ringbuf.queue) N full) refl)))

  -- How many of `n` records do not fit behind `m` others.
  abbrev pub excess : ℕ → ℕ → ℕ
  excess m n = (m + n) - N

  -- What frames leave behind, of which the queue had no room for the last ones.
  pub record Truncates (i : ℕ) (clock : Clock) (fs : List Frame) (p p' : Pipeline) : Type 0 where
    pub queue : p'.ringbuf.queue ≡ take N (p.ringbuf.queue ++ arrivals x k MAX_FRAME N i clock fs)
    pub dropped :
        p'.stats.dropped ≡ (p.stats.dropped + excess (length p.ringbuf.queue) (length fs)) % 2 ^ 64
    pub overflows :
        p'.ringbuf.overflow_count
        ≡ (p.ringbuf.overflow_count + excess (length p.ringbuf.queue) (length fs)) % 2 ^ 64
    pub counted :
        p'.stats.ok
        ≡ (p.stats.ok + (length fs - excess (length p.ringbuf.queue) (length fs))) % 2 ^ 64

  -- The bytes of the frame `f` bring the pipeline from `p` to `q`, between frames again, and the
  -- rest does what it does.
  continues :
      (i : ℕ) (clock : Clock) (p q p' : Pipeline) (f : Frame) (fs : List Frame)
      → ingest_from x MAX_FRAME N i clock p (wire x.crc16 k f) ≡ ret q
      → ingest_from x MAX_FRAME N (i + length (body x.crc16 k f) + 1) clock q (wires x.crc16 k fs)
        ≡ ret p'
      → ingest_from x MAX_FRAME N i clock p (wires x.crc16 k (f ∷ fs)) ≡ ret p'
  unfolding wires
  continues i clock p q p' f fs first rest =
      ingest_from-append x k MAX_FRAME N (wire x.crc16 k f) (wires x.crc16 k fs) i clock p q first
      ∙ ap (λ m. ingest_from x MAX_FRAME N m clock q (wires x.crc16 k fs))
          (omega (arith, length-append (body x.crc16 k f) (0 ∷ [])))
      ∙ rest

  kept_count :
      (now : ℕ) (p : Pipeline) (f : Frame)
      → length p.ringbuf.queue < N
      → (delivered x k MAX_FRAME N crcl vl dl small now p f).ringbuf.overflow_count
        ≡ p.ringbuf.overflow_count
  kept_count now p f room =
      rw (push_lem dl N p.ringbuf (record_of now (stamped x.crc16 f)) small)
        (rw (lt→ltb (length p.ringbuf.queue) N room) refl)

  grows :
      (i : ℕ) (clock : Clock) (p p' : Pipeline) (f : Frame) (fs : List Frame)
      → let now = clock.now (i + length (body x.crc16 k f)) in
        let q = delivered x k MAX_FRAME N crcl vl dl small now p f in
        length p.ringbuf.queue < N
        → Truncates (i + length (body x.crc16 k f) + 1) clock fs q p'
        → Truncates i clock (f ∷ fs) p p'
  unfolding arrivals count_ok
  grows i clock p p' f fs room t =
      let now = clock.now (i + length (body x.crc16 k f)) in
      let r = record_of now (stamped x.crc16 f) in
      let rest = arrivals x k MAX_FRAME N (i + length (body x.crc16 k f) + 1) clock fs in
      let grown = (queued x k MAX_FRAME N crcl vl dl small now p f room).1 in
      let longer = ap length grown ∙ length-append p.ringbuf.queue (r ∷ []) in
      record {
        queue =
            t.queue
            ∙ ap (λ l. take N (l ++ rest)) grown
            ∙ ap (take N) (append_assoc p.ringbuf.queue (r ∷ []) rest);
        dropped = omega (arith, t.dropped, longer);
        overflows = omega (arith, t.overflows, longer, kept_count now p f room);
        counted = omega (arith, t.counted, longer);
      }

  overflows_by :
      (i : ℕ) (clock : Clock) (p p' : Pipeline) (f : Frame) (fs : List Frame)
      → length p.ringbuf.queue ≡ N
      → Truncates (i + length (body x.crc16 k f) + 1) clock fs (refused p f) p'
      → Truncates i clock (f ∷ fs) p p'
  unfolding arrivals
  overflows_by i clock p p' f fs full t = record {
    queue =
        t.queue
        ∙ take-append_eq p.ringbuf.queue _ N (sym full)
        ∙ sym (take-append_eq p.ringbuf.queue _ N (sym full));
    dropped = omega (arith, t.dropped, full);
    overflows = omega (arith, t.overflows, full);
    counted = omega (arith, t.counted, full);
  }

  -- Deliverable frames whose sequence numbers follow one another, one behind the other on the wire
  -- and any number of them: when the framer is between frames and the queue within its bound, the
  -- queue then holds the first `N` of its records and the frames' records, in order. The frames that
  -- found it full are lost, and `dropped` and `overflow_count` count each of them, while `ok` counts
  -- the others, all modulo 2 ^ 64.
  pub ingest_from-take :
      (fs : List Frame) (i : ℕ) (clock : Clock) (p : Pipeline)
      → All (IsDeliverable x k MAX_FRAME N p.filter) fs
      → InOrder p.validator.last_seq fs
      → length p.ringbuf.queue ≤ N
      → p.framer.state ≡ collecting
      → p.framer.buf ≡ []
      → IsU64 p.stats.dropped
      → IsU64 p.stats.ok
      → IsU64 p.ringbuf.overflow_count
      → (p' : Pipeline) × (ingest_from x MAX_FRAME N i clock p (wires x.crc16 k fs) ≡ ret p')
        × Truncates i clock fs p p'
  unfolding wires arrivals count_ok
  ingest_from-take [] i clock p h n fits s e d o v = (
    p,
    unfold ingest_from in refl,
    record {
      queue = sym (ap (take N) (append-nil p.ringbuf.queue) ∙ take_all N p.ringbuf.queue fits);
      dropped = omega arith;
      overflows = omega arith;
      counted = omega arith;
    },
  )
  ingest_from-take (f ∷ fs) i clock p (h, hs) (n, ns) fits s e d o v =
      let now = clock.now (i + length (body x.crc16 k f)) in
      elim (Bool-cases (ltb (length p.ringbuf.queue) N)) [
        | inl below ↦
            let room = ltb→lt (length p.ringbuf.queue) N below in
            let q = delivered x k MAX_FRAME N crcl vl dl small now p f in
            let step = handle_delivers x k MAX_FRAME N crcl vl dl small now p f h n room in
            let grown = (queued x k MAX_FRAME N crcl vl dl small now p f room).1 in
            let longer = ap length grown ∙ length-append p.ringbuf.queue _ in
            let w : Pipeline = record q { framer = record p.framer { buf = [] } } in
            let (p', rest, t) =
              ingest_from-take fs (i + length (body x.crc16 k f) + 1) clock w hs ns
                (omega (arith, longer)) s refl d (omega arith)
                (omega (arith, v, kept_count now p f room)) in
            (
              p',
              continues i clock p w p' f fs
                  (ingest_from-wire x k MAX_FRAME N crcl vl dl small i clock p q f h step s e) rest,
              grows i clock p p' f fs room (record {
                queue = t.queue;
                dropped = t.dropped;
                overflows = t.overflows;
                counted = t.counted;
              }),
            )
        | inr above ↦
            let full = ltb→ge (length p.ringbuf.queue) N above in
            let q = refused p f in
            let step = handle_refuses now p f h n full in
            let w : Pipeline = record q { framer = record p.framer { buf = [] } } in
            let (p', rest, t) =
              ingest_from-take fs (i + length (body x.crc16 k f) + 1) clock w hs ns fits s refl
                (omega arith) o (omega arith) in
            (
              p',
              continues i clock p w p' f fs
                  (ingest_from-wire x k MAX_FRAME N crcl vl dl small i clock p q f h step s e) rest,
              overflows_by i clock p p' f fs (omega arith) (record {
                queue = t.queue;
                dropped = t.dropped;
                overflows = t.overflows;
                counted = t.counted;
              }),
            )
      ]
