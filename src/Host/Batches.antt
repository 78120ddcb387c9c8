-- ===== src/Host/Batches.antt =====
-- A round of `run_loop` with whole frames.
use rust_telemetry_logger.Prelude.{
  ℕ, suc, ◌+◌, ◌≤◌, ◌≡◌, ◌∙◌, ◌^◌, ap, refl, sym, subst, arith, Bool, Option, some, List, [], ◌∷◌,
  ◌++◌, ret, inl, inr, All, IsU64, length, length-append, ok, List-cases,
}
use rust_telemetry_logger.External.Cobs.{CobsLaws}
use rust_telemetry_logger.External.Crc.{CrcLaws}
use rust_telemetry_logger.External.Heapless.{DequeLaws, ByteVecLaws}
use rust_telemetry_logger.Pipeline.Stored.{arrivals-IsStoredRecord}
use rust_telemetry_logger.Frame.{Frame}
use rust_telemetry_logger.Framer.{collecting}
use rust_telemetry_logger.Framer.RoundTrip.{wires, stamped}
use rust_telemetry_logger.Frame.Wire.{body}
use rust_telemetry_logger.Host.{HostState, print_round, round, run_loop}
use rust_telemetry_logger.Host.Loop.{print_round_keeps, run_loop_gives}
use rust_telemetry_logger.Pipeline.{
  Crates, Pipeline, record_of, default_max_frame, host_queue_depth,
}
use rust_telemetry_logger.Pipeline.Delivery.{
  IsDeliverable, InOrder, arrivals, last_number, ingest_from-wires,
}
use rust_telemetry_logger.Pipeline.Bytes.{stored_all}
use rust_telemetry_logger.Pipeline.Rounds.{with_queue}
use rust_telemetry_logger.Pipeline.Drain.{drain-capturing}
use rust_telemetry_logger.Record.{StoredRecord, IsStoredRecord}
use rust_telemetry_logger.Record.Format.{PostcardLaws}
use rust_telemetry_logger.Traits.{PacketSource, Clock, CapturingStorage, capturing}

pub InOrder-append :
    (fs gs : List Frame) (last : Option ℕ)
    → InOrder last (fs ++ gs)
    → InOrder last fs × InOrder (last_number last fs) gs
unfolding last_number
InOrder-append [] gs last h = (tt, h)
InOrder-append (f ∷ fs) gs last (h, hs) =
    let (front, back) = InOrder-append fs gs (some f.header.sequence) hs in ((h, front), back)

module _ (x : Crates) (k : CobsLaws x.cobs) where
  -- The records of frames that the host receives.
  abbrev pub arrived : Clock → ℕ → List Frame → List StoredRecord
  arrived clock i fs = arrivals x k default_max_frame host_queue_depth i clock fs

  pub arrived-append :
      (clock : Clock) (fs gs : List Frame) (i : ℕ)
      → arrived clock i (fs ++ gs)
        ≡ arrived clock i fs ++ arrived clock (i + length (wires x.crc16 k fs)) gs
  unfolding arrivals wires
  arrived-append clock [] gs i = ap (λ n. arrived clock n gs) (omega arith)
  arrived-append clock (f ∷ fs) gs i =
      let b = body x.crc16 k f in
      ap (λ l. record_of (clock.now (i + length b)) (stamped x.crc16 f) ∷ l)
        (arrived-append clock fs gs (i + length b + 1)
          ∙ ap (λ n. arrived clock (i + length b + 1) fs ++ arrived clock n gs)
              (omega (
                arith,
                length-append b (0 ∷ []),
                length-append (b ++ (0 ∷ [])) (wires x.crc16 k fs),
              )))

module _ (x : Crates) (k : CobsLaws x.cobs) {S E : Type 0} (packets : PacketSource S E) where
  -- A source that gives the wires of some batches of frames, one batch with each read, and then the
  -- end of its input.
  pub data IsFeeding : List (List Frame) → S → Type 0 where
    ends : {s : S} (s' : S) → packets.read s 4096 ≡ (ok [], s') → IsFeeding [] s
    gives :
        {s : S} {fss : List (List Frame)} {f : Frame} {fs : List Frame} (s' : S)
        → packets.read s 4096 ≡ (ok (wires x.crc16 k (f ∷ fs)), s')
        → length (f ∷ fs) ≤ host_queue_depth
        → IsFeeding fss s'
        → IsFeeding ((f ∷ fs) ∷ fss) s

-- Between frames, with an empty queue.
pub record IsWaiting (p : Pipeline) : Type 0 where
  pub collects : p.framer.state ≡ collecting
  pub nothing : p.framer.buf ≡ []
  pub queue : p.ringbuf.queue ≡ []

module _ (x : Crates) (k : CobsLaws x.cobs) (pl : PostcardLaws x.postcard) (dl : DequeLaws x.deque)
    {S E : Type 0} (packets : PacketSource S E) (clock : Clock) (stats_interval : ℕ) where
  -- A round with the wires of some frames that fit in the queue stores them.
  pub round_stores :
      (crc16l : CrcLaws (2 ^ 16) x.crc16) (vl : ByteVecLaws x.vec) (fs : List Frame)
      (h : HostState S CapturingStorage)
      → ((n : ℕ) → IsU64 (clock.now n))
      → All (IsDeliverable x k default_max_frame host_queue_depth h.pipeline.filter) fs
      → InOrder h.pipeline.validator.last_seq fs
      → length fs ≤ host_queue_depth
      → IsWaiting h.pipeline
      → (h' : HostState S CapturingStorage) × (round x packets capturing clock stats_interval h
            (wires x.crc16 k fs)
          ≡ ret h')
        × (h'.source ≡ h.source)
        × IsWaiting h'.pipeline
        × (h'.pipeline.filter ≡ h.pipeline.filter)
        × (h'.pipeline.validator.last_seq ≡ last_number h.pipeline.validator.last_seq fs)
        × (h'.storage.written
            ≡ h.storage.written ++ stored_all x k pl (arrived x k clock h.instant fs))
        × (h'.instant ≡ h.instant + length (wires x.crc16 k fs))
  unfolding round
  round_stores crc16l vl fs h c d n room w =
      let (p, run, queue, s, e, filter, last) =
        ingest_from-wires x k default_max_frame host_queue_depth crc16l vl dl (omega arith) fs
          h.instant clock h.pipeline d n (omega (arith, ap length w.queue)) w.collects w.nothing in
      let arrives : p.ringbuf.queue ≡ arrived x k clock h.instant fs =
        queue ∙ ap (λ l. l ++ arrived x k clock h.instant fs) w.queue in
      let good =
        arrivals-IsStoredRecord x k default_max_frame host_queue_depth h.pipeline.filter fs
          h.instant clock c d in
      let stores =
        drain-capturing x k pl dl default_max_frame host_queue_depth p h.storage
          (subst (All IsStoredRecord) (sym arrives) good) in
      let g : HostState S CapturingStorage = record h {
        pipeline = with_queue x k pl p [];
        storage = record h.storage {
          written = h.storage.written ++ stored_all x k pl p.ringbuf.queue;
          flush_count = h.storage.flush_count + 1;
        };
        instant = h.instant + length (wires x.crc16 k fs);
      } in
      let (source, pipeline, storage, instant) =
        print_round_keeps x k pl dl packets capturing clock stats_interval g in
      (
        print_round x packets capturing clock stats_interval g,
        rw (run, stores) refl,
        source,
        rw pipeline (record { collects = s; nothing = e; queue = refl }),
        rw pipeline filter,
        rw pipeline last,
        rw storage (ap (λ q. h.storage.written ++ stored_all x k pl q) arrives),
        instant,
      )

  pub wires_cons :
      (f : Frame) (fs : List Frame) → (b : ℕ) × (bs : List ℕ) × (wires x.crc16 k (f ∷ fs) ≡ b ∷ bs)
  unfolding wires
  wires_cons f fs =
      let body_f = body x.crc16 k f in
      elim (List-cases (wires x.crc16 k (f ∷ fs))) [
        | inl e ↦ absurd (
            omega (
              arith,
              ap length e,
              length-append (body_f ++ (0 ∷ [])) (wires x.crc16 k fs),
              length-append body_f (0 ∷ []),
            ))
        | inr found ↦ found
      ]

  -- A round of the loop for a batch, with its read.
  pub feeds_round :
      (is_end : E → Bool) (fuel : ℕ) (f : Frame) (fs : List Frame) (s' : S)
      (h h' : HostState S CapturingStorage)
      → packets.read h.source 4096 ≡ (ok (wires x.crc16 k (f ∷ fs)), s')
      → round x packets capturing clock stats_interval
          (record h { source = s' })
          (wires x.crc16 k (f ∷ fs))
        ≡ ret h'
      → run_loop x packets capturing clock stats_interval is_end (suc fuel) h
        ≡ run_loop x packets capturing clock stats_interval is_end fuel h'
  feeds_round is_end fuel f fs s' h h' e r =
      let (b, bs, bytes) = wires_cons f fs in
      run_loop_gives x k pl dl packets capturing clock stats_interval is_end fuel b bs h h' s'
        (e ∙ ap (λ l. (ok l, s')) bytes)
        (sym (ap (round x packets capturing clock stats_interval (record h { source = s' })) bytes)
          ∙ r)
