-- ===== src/Host/Follows.antt =====
-- What the host has made of the bytes of its source, between two rounds of `run_loop`.
use rust_telemetry_logger.Prelude.{
  ℕ, ◌+◌, ◌%◌, ◌^◌, ◌≡◌, ◌∙◌, ap, sym, subst, refl, arith, List, [], ◌++◌, Option, ret, length,
  length-append, append-nil, All, All-append_right, IsU8, IsU64,
}
use rust_telemetry_logger.External.Cobs.{CobsLaws}
use rust_telemetry_logger.External.Heapless.{DequeLaws, ByteVecLaws}
use rust_telemetry_logger.Filter.{FilterConfig}
use rust_telemetry_logger.Framer
use rust_telemetry_logger.Framer.{Framer, FrameOutput, feed_all}
use rust_telemetry_logger.Framer.Invariant.{IsFramer, IsFramer-new}
use rust_telemetry_logger.Host.{HostState}
use rust_telemetry_logger.Pipeline
use rust_telemetry_logger.Pipeline.{
  Crates, Pipeline, default_max_frame, host_queue_depth, ingest_from,
}
use rust_telemetry_logger.Pipeline.Admits.{Admits, ingest_from-Admits}
use rust_telemetry_logger.Pipeline.History.{History, History-IsStoredRecord}
use rust_telemetry_logger.Pipeline.Rounds.{with_queue}
use rust_telemetry_logger.Record.{StoredRecord, IsStoredRecord}
use rust_telemetry_logger.Record.Format.{PostcardLaws}
use rust_telemetry_logger.Traits.{Clock}

-- A new framer makes of `bytes` some outputs; in their history, from the instant `start` on, exactly
-- the frames of the records `rs` are queued, and the counters of `p` count the frames that were
-- queued and those that the full queue dropped.
pub record Accounts (x : Crates) (filter : FilterConfig) (clock : Clock) (start : ℕ)
    (bytes : List ℕ) (rs : List StoredRecord) (p : Pipeline) : Type 0 where
  pub outputs : List FrameOutput
  pub framer : Framer
  pub fed : feed_all x.vec x.cobs default_max_frame Framer.new bytes ≡ ret (outputs, framer)
  pub dropped : ℕ
  pub last : Option ℕ
  pub history : History x.crc16 filter clock host_queue_depth start outputs rs dropped last 0
  pub ok_counts : p.stats.ok ≡ length rs % 2 ^ 64
  pub dropped_counts : p.stats.dropped ≡ dropped % 2 ^ 64

module _ (x : Crates) (filter : FilterConfig) (clock : Clock) (start : ℕ) where
  abbrev AdmitsAt : List StoredRecord → ℕ → List FrameOutput → Pipeline → Type 0
  AdmitsAt = Admits x filter clock start host_queue_depth

  -- Behind the bytes `bytes`, of which the records `rs` have left the queue, which is empty.
  pub record Follows {S T : Type 0} (failures : ℕ) (rs : List StoredRecord) (bytes : List ℕ)
      (h : HostState S T) : Type 0 where
    pub framer : IsFramer default_max_frame h.pipeline.framer
    pub outputs : List FrameOutput
    pub fed :
        feed_all x.vec x.cobs default_max_frame Framer.new bytes ≡ ret (outputs, h.pipeline.framer)
    pub len : length outputs ≡ length bytes
    pub instant : h.instant ≡ start + length bytes
    pub empty : h.pipeline.ringbuf.queue ≡ []
    pub admits : AdmitsAt rs failures outputs h.pipeline

  pub Follows-new :
      {S T : Type 0} (h : HostState S T)
      → h.pipeline ≡ Pipeline.new filter
      → h.instant ≡ start
      → Follows 0 [] [] h
  Follows-new h fresh at = record {
    framer =
        subst (λ p. IsFramer default_max_frame p.framer) (sym fresh)
          (IsFramer-new default_max_frame);
    outputs = [];
    fed =
        subst (λ p. feed_all x.vec x.cobs default_max_frame Framer.new [] ≡ ret ([], p.framer))
          (sym fresh) (unfold feed_all in refl);
    len = refl;
    instant = omega (arith, at);
    empty = ap (λ p. p.ringbuf.queue) fresh;
    admits = subst (AdmitsAt [] 0 []) (sym fresh) (record {
      policy = refl;
      fits = omega arith;
      dropped = 0;
      history = History.no_outputs;
      counted = refl;
      drops = refl;
      failed = refl;
    });
  }

  -- What is left of the source, the storage and what is printed do not matter.
  pub Follows-same :
      {S T : Type 0} (failures : ℕ) (rs : List StoredRecord) (bytes : List ℕ) (h h' : HostState S T)
      → h'.pipeline ≡ h.pipeline
      → h'.instant ≡ h.instant
      → Follows failures rs bytes h
      → Follows failures rs bytes h'
  Follows-same failures rs bytes h h' e at w = record {
    framer = rw e w.framer;
    outputs = w.outputs;
    fed = rw e w.fed;
    len = w.len;
    instant = at ∙ w.instant;
    empty = rw e w.empty;
    admits = rw e w.admits;
  }

  -- What `ingest` makes of the bytes of a round.
  pub record Ingests (failures : ℕ) (rs : List StoredRecord) (bytes : List ℕ) (p : Pipeline)
      : Type 0 where
    pub framer : IsFramer default_max_frame p.framer
    pub outputs : List FrameOutput
    pub fed : feed_all x.vec x.cobs default_max_frame Framer.new bytes ≡ ret (outputs, p.framer)
    pub len : length outputs ≡ length bytes
    pub admits : AdmitsAt rs failures outputs p

  pub ingest_from-Ingests :
      {S T : Type 0} (dl : DequeLaws x.deque) (vl : ByteVecLaws x.vec) (k : CobsLaws x.cobs)
      (failures : ℕ) (rs : List StoredRecord) (before bytes : List ℕ) (h : HostState S T)
      → All IsU8 bytes
      → Follows failures rs before h
      → (p : Pipeline) × (ingest_from x default_max_frame host_queue_depth h.instant clock
            h.pipeline bytes
          ≡ ret p)
        × Ingests failures rs (before ++ bytes) p
  ingest_from-Ingests dl vl k failures rs before bytes h b w =
      let (p, run, framer, os, fed, len, admits) =
        ingest_from-Admits x filter clock start dl default_max_frame host_queue_depth (omega arith)
          rs failures vl k before bytes w.outputs Framer.new h.pipeline w.fed w.len b w.framer
          w.admits in
      (
        p,
        ap (λ i. ingest_from x default_max_frame host_queue_depth i clock h.pipeline bytes)
              w.instant
            ∙ run,
        record { framer = framer; outputs = os; fed = fed; len = len; admits = admits },
      )

  -- Behind a drain that emptied the queue.
  pub Ingests-Follows :
      {S T : Type 0} (k : CobsLaws x.cobs) (pl : PostcardLaws x.postcard) (failures : ℕ)
      (rs : List StoredRecord) (before bytes : List ℕ) (h g : HostState S T) (p : Pipeline)
      → g.pipeline ≡ with_queue x k pl p []
      → g.instant ≡ h.instant + length bytes
      → h.instant ≡ start + length before
      → Ingests failures rs (before ++ bytes) p
      → Follows failures (rs ++ p.ringbuf.queue) (before ++ bytes) g
  Ingests-Follows k pl failures rs before bytes h g p same at was w =
      let all = append-nil (rs ++ p.ringbuf.queue) in
      record {
        framer = rw same w.framer;
        outputs = w.outputs;
        fed = rw same w.fed;
        len = w.len;
        instant = omega (arith, at, was, length-append before bytes);
        empty = rw same refl;
        admits = subst (AdmitsAt (rs ++ p.ringbuf.queue) failures w.outputs) (sym same) (record {
          policy = w.admits.policy;
          fits = omega arith;
          dropped = w.admits.dropped;
          history =
              subst
                (λ l.
                  History x.crc16 filter clock host_queue_depth start w.outputs l w.admits.dropped
                    p.validator.last_seq 0)
                (sym all) (History.emptied w.admits.history);
          counted = w.admits.counted ∙ ap (λ l. length l % 2 ^ 64) (sym all);
          drops = w.admits.drops;
          failed = w.admits.failed;
        });
      }

  -- The records in the queue can be encoded.
  pub queue-IsStoredRecord :
      (failures : ℕ) (rs : List StoredRecord) (bytes : List ℕ) (p : Pipeline)
      → ((n : ℕ) → IsU64 (clock.now n))
      → Ingests failures rs bytes p
      → All IsStoredRecord p.ringbuf.queue
  queue-IsStoredRecord failures rs bytes p c w =
      All-append_right IsStoredRecord rs p.ringbuf.queue
        (History-IsStoredRecord x.crc16 filter clock host_queue_depth start c w.admits.history)

  pub Follows-Accounts :
      {S T : Type 0} (failures : ℕ) (rs : List StoredRecord) (bytes : List ℕ) (h : HostState S T)
      → Follows failures rs bytes h
      → Accounts x filter clock start bytes rs h.pipeline
  Follows-Accounts failures rs bytes h w =
      let all : rs ++ h.pipeline.ringbuf.queue ≡ rs = ap (λ l. rs ++ l) w.empty ∙ append-nil rs in
      record {
        outputs = w.outputs;
        framer = h.pipeline.framer;
        fed = w.fed;
        dropped = w.admits.dropped;
        last = h.pipeline.validator.last_seq;
        history =
            subst
              (λ l.
                History x.crc16 filter clock host_queue_depth start w.outputs l w.admits.dropped
                  h.pipeline.validator.last_seq 0)
              all (History.emptied w.admits.history);
        ok_counts = w.admits.counted ∙ ap (λ l. length l % 2 ^ 64) all;
        dropped_counts = w.admits.drops;
      }

  pub Accounts-IsStoredRecord :
      (rs : List StoredRecord) (bytes : List ℕ) (p : Pipeline)
      → ((n : ℕ) → IsU64 (clock.now n))
      → Accounts x filter clock start bytes rs p
      → All IsStoredRecord rs
  Accounts-IsStoredRecord rs bytes p c w =
      History-IsStoredRecord x.crc16 filter clock host_queue_depth start c w.history
