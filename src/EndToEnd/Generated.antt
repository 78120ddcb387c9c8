-- ===== src/EndToEnd/Generated.antt =====
-- The packet generator and the host: what the one sends, the other stores.
use mathlib.Core.List.{flatten}
use rust_telemetry_logger.Prelude.{
  ℕ, suc, ◌^◌, ◌≡◌, ◌∙◌, ap, refl, sym, subst, arith, Bool, true, Option, some, List, [], ◌∷◌, map,
  ret, ok, All, IsU32, IsU64, length, append-nil, wrapping_add_u32, ret-injective,
}
use rust_telemetry_logger.External.Cobs.{CobsLaws}
use rust_telemetry_logger.External.Crc.{CrcLaws}
use rust_telemetry_logger.External.Heapless.{ByteVecLaws, DequeLaws}
use rust_telemetry_logger.Filter.{FilterConfig, allow}
use rust_telemetry_logger.Frame.{Frame}
use rust_telemetry_logger.Frame.Wire.{length-body}
use rust_telemetry_logger.Framer.RoundTrip.{wire, wires}
use rust_telemetry_logger.Generator.{Rng, GenState, generate}
use rust_telemetry_logger.Generator.Frames.{RngLaws, Numbered}
use rust_telemetry_logger.Generator.Rounds.{IsGenState}
use rust_telemetry_logger.Generator.Stream.{generate-wires}
use rust_telemetry_logger.Host.{HostState, run_loop}
use rust_telemetry_logger.Host.Batches.{IsFeeding, IsWaiting, arrived}
use rust_telemetry_logger.Host.Delivery.{read_segment-run_loop}
use rust_telemetry_logger.Pipeline.{Crates, default_max_frame, host_queue_depth}
use rust_telemetry_logger.Pipeline.Delivery.{IsDeliverable, InOrder}
use rust_telemetry_logger.Record.Format.{PostcardLaws}
use rust_telemetry_logger.Segment.{read_segment}
use rust_telemetry_logger.Traits.{PacketSource, Clock, CapturingStorage, capturing}
use rust_telemetry_logger.Validator.Accept.{IsNext}

-- A source that gives these chunks, one with each read, and then the end of its input: datagrams.
pub data IsGiving {S E : Type 0} (packets : PacketSource S E) : List (List ℕ) → S → Type 0 where
  ends : {s : S} (s' : S) → packets.read s 4096 ≡ (ok [], s') → IsGiving packets [] s
  gives :
      {s : S} {chunk : List ℕ} {chunks : List (List ℕ)} (s' : S)
      → packets.read s 4096 ≡ (ok chunk, s')
      → IsGiving packets chunks s'
      → IsGiving packets (chunk ∷ chunks) s

-- Every frame on its own.
abbrev singly : List Frame → List (List Frame)
singly fs = map (λ f. f ∷ []) fs

flatten-singly : (fs : List Frame) → flatten (singly fs) ≡ fs
unfolding flatten
flatten-singly [] = refl
flatten-singly (f ∷ fs) = ap (λ l. f ∷ l) (flatten-singly fs)

length-singly : (fs : List Frame) → length (singly fs) ≡ length fs
length-singly [] = refl
length-singly (f ∷ fs) = ap suc (length-singly fs)

module _ {G : Type 0} {rng : Rng G} (laws : RngLaws rng) where
  InOrder-Numbered :
      (fs : List Frame) (last : Option ℕ) (seq : ℕ)
      → IsNext last seq
      → Numbered laws seq fs
      → InOrder last fs
  InOrder-Numbered [] last seq n h = tt
  InOrder-Numbered (f ∷ fs) last seq n (h, hs) = (
    subst (IsNext last) (sym h.sequence) n,
    InOrder-Numbered fs (some f.header.sequence) (wrapping_add_u32 seq 1)
        (ap (λ m. wrapping_add_u32 m 1) (sym h.sequence)) hs,
  )

module _ (x : Crates) (k : CobsLaws x.cobs) {S E : Type 0} (packets : PacketSource S E) where
  giving-IsFeeding :
      (fs : List Frame) (s : S)
      → IsGiving packets (map (wire x.crc16 k) fs) s
      → IsFeeding x k packets (singly fs) s
  unfolding wires
  giving-IsFeeding [] s (IsGiving.ends s' e) = IsFeeding.ends s' e
  giving-IsFeeding (f ∷ fs) s (IsGiving.gives s' e g) =
      IsFeeding.gives s' (e ∙ ap (λ l. (ok l, s')) (sym (append-nil (wire x.crc16 k f))))
        (omega arith) (giving-IsFeeding fs s' g)

  generated-IsDeliverable :
      {G : Type 0} {rng : Rng G} (laws : RngLaws rng) (filter : FilterConfig) (fs : List Frame)
      (seq : ℕ)
      → ((f : Frame) → allow filter f ≡ true)
      → Numbered laws seq fs
      → All (IsDeliverable x k default_max_frame host_queue_depth filter) fs
  generated-IsDeliverable laws filter [] seq lets h = tt
  generated-IsDeliverable laws filter (f ∷ fs) seq lets (h, hs) = (
    record {
      frame = h.frame;
      known_type = h.known_type;
      known_severity = h.known_severity;
      room = omega (arith, length-body x.crc16 k f h.frame.fits);
      allowed = lets f;
    },
    generated-IsDeliverable laws filter fs (wrapping_add_u32 seq 1) lets hs,
  )

  module _ (pl : PostcardLaws x.postcard) (dl : DequeLaws x.deque) (clock : Clock)
      (stats_interval : ℕ) where
    -- What the generator emits without corruption modes, sent as one datagram for each chunk to a
    -- host whose filter lets all frames through and which expects the generator's first sequence
    -- number, or any, is all stored: the loop of the host ends without an error, and reading what
    -- the storage got gives one record for each of the `count` frames, in order.
    pub read_segment-generate :
        {G : Type 0} {rng : Rng G} (laws : RngLaws rng) (crc16l : CrcLaws (2 ^ 16) x.crc16)
        (crc32l : CrcLaws (2 ^ 32) x.crc32) (vl : ByteVecLaws x.vec) (is_end : E → Bool)
        (count burst_size : ℕ) (st st' : GenState G) (emitted : List (List ℕ))
        (h : HostState S CapturingStorage)
        → IsGenState st
        → IsU32 st.stats.valid
        → generate rng x.vec x.crc16 x.cobs count [] burst_size st ≡ ret (emitted, st')
        → IsGiving packets emitted h.source
        → ((n : ℕ) → IsU64 (clock.now n))
        → ((f : Frame) → allow h.pipeline.filter f ≡ true)
        → IsNext h.pipeline.validator.last_seq st.seq
        → IsWaiting h.pipeline
        → h.storage.written ≡ []
        → (fs : List Frame) × (h' : HostState S CapturingStorage) × Numbered laws st.seq fs
          × (length fs ≡ count)
          × (emitted ≡ map (wire x.crc16 k) fs)
          × (run_loop x packets capturing clock stats_interval is_end (suc count) h
              ≡ ret (ok tt, h'))
          × (read_segment x.postcard x.crc32 x.cobs h'.storage.written
              ≡ ret (map (λ r. ok r) (arrived x k clock h.instant fs)))
    read_segment-generate laws crc16l crc32l vl is_end count burst_size st st' emitted h hg u run
          giving c lets next w new =
        let (fs, _, runs, numbered, len, _) =
          generate-wires laws vl x.crc16 k count burst_size st hg u in
        let same : emitted ≡ map (wire x.crc16 k) fs =
          ap (λ r. r.0) (ret-injective (sym run ∙ runs)) in
        let feeding =
          giving-IsFeeding fs h.source (subst (λ l. IsGiving packets l h.source) same giving) in
        let flat = flatten-singly fs in
        let deliverable = generated-IsDeliverable laws h.pipeline.filter fs st.seq lets numbered in
        let ordered = InOrder-Numbered laws fs h.pipeline.validator.last_seq st.seq next numbered in
        let (h', looped, reads) =
          read_segment-run_loop x k pl dl packets clock stats_interval crc16l crc32l vl is_end
            (singly fs) h c feeding
            (subst (All (IsDeliverable x k default_max_frame host_queue_depth h.pipeline.filter))
              (sym flat) deliverable)
            (subst (InOrder h.pipeline.validator.last_seq) (sym flat) ordered) w new in
        (
          fs,
          h',
          numbered,
          len,
          same,
          ap (λ n. run_loop x packets capturing clock stats_interval is_end (suc n) h)
                (sym (length-singly fs ∙ len))
              ∙ looped,
          reads ∙ ap (λ l. ret (map (λ r. ok r) (arrived x k clock h.instant l))) flat,
        )
