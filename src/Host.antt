-- ===== src/Host.antt =====
-- crates/telemetry-host/src/main.rs: the filter of the command line, and the loop of the host.
pub mod Allowlist
pub mod Loop
pub mod Follows
pub mod Batches
pub mod Kept
pub mod Archive
pub mod Logged
pub mod Reliable
pub mod Delivery
pub mod Main
pub mod Total
use rust_telemetry_logger.Prelude.{
  ℕ, zero, suc, ◌+◌, ◌&&◌, Bool, true, false, List, [], ◌∷◌, ◌++◌, none, some, Run, ret, diverge,
  ◌>>=◌, ltb, leb, length, if◌then◌else◌, is_empty, add_u64, Result, ok, err,
}
use rust_telemetry_logger.External.Heapless.{ByteVec}
use rust_telemetry_logger.Filter.{FilterConfig, max_filter_types}
use rust_telemetry_logger.Pipeline.{
  Crates, Pipeline, default_max_frame, host_queue_depth, ingest_from, drain,
}
use rust_telemetry_logger.Stats.{Stats}
use rust_telemetry_logger.Traits.{PacketSource, Storage, Clock}

module _ (v : ByteVec) where
  -- The loop over `--allow-type`: the first type that does not fit ends it.
  unfoldable pub push_types : List ℕ → List ℕ → List ℕ
  push_types list [] = list
  push_types list (t ∷ types) = elim (v.push max_filter_types list t) [
    | none ↦ list
    | some list ↦ push_types list types
  ]

  unfoldable pub build_filter : ℕ → List ℕ → FilterConfig
  build_filter min_severity allow_types =
      if is_empty allow_types
      then record { min_severity = min_severity; type_allowlist = none }
      else record { min_severity = min_severity; type_allowlist = some (push_types [] allow_types) }

-- `ReadSource`: `inner` is `std::io::Read::read` of what it wraps.
unfoldable pub read_source : {S E : Type 0} → (S → ℕ → Result (List ℕ) E × S) → PacketSource S E
read_source inner = record { read = inner }

-- `UdpSource`: a datagram and the address of its sender, which is dropped.
unfoldable pub udp_source :
    {S E A : Type 0} → (S → ℕ → Result (List ℕ × A) E × S) → PacketSource S E
udp_source recv_from = record {
  read = λ socket size.
      let (received, socket') = recv_from socket size in
      elim received [ err e ↦ (err e, socket') | ok datagram ↦ (ok datagram.0, socket') ];
}

-- How `run_loop` fails.
pub data HostError (E W : Type 0) : Type 0 where
  read_failed : E → HostError E W
  flush_failed : W → HostError E W

-- The loop's variables: the source, the pipeline, the storage, the instant of the next byte, the
-- `ok` counter at the last print, and the statistics printed so far.
pub record HostState (S T : Type 0) : Type 0 where
  pub source : S
  pub pipeline : Pipeline
  pub storage : T
  pub instant : ℕ
  pub last_print_ok : ℕ
  pub printed : List Stats

module _ (x : Crates) {S T E W : Type 0} (packets : PacketSource S E) (backend : Storage T W)
    (clock : Clock) (stats_interval : ℕ) where
  -- The rate-limited print at the end of a round.
  unfoldable pub print_round : HostState S T → HostState S T
  print_round h =
      let count = h.pipeline.stats.ok in
      if ltb 0 stats_interval && leb (add_u64 h.last_print_ok stats_interval) count
      then record h { last_print_ok = count; printed = h.printed ++ (h.pipeline.stats ∷ []) }
      else h

  -- A round with bytes: `ingest`, and `drain`, whose error is only printed.
  unfoldable pub round : HostState S T → List ℕ → Run (HostState S T)
  round h bytes = do
    p ← ingest_from x default_max_frame host_queue_depth h.instant clock h.pipeline bytes
    (drained, q, t) ← drain x default_max_frame host_queue_depth backend p h.storage
    ret (print_round (record h { pipeline = q; storage = t; instant = h.instant + length bytes }))

  -- The flush and the print behind the loop.
  unfoldable pub end_loop : HostState S T → Result (Unit {0}) (HostError E W) × HostState S T
  end_loop h =
      let (flushed, t) = backend.flush h.storage in
      let h' : HostState S T = record h { storage = t } in
      elim flushed [
        | err e ↦ (err (flush_failed e), h')
        | ok _ ↦ (ok tt, record h' { printed = h'.printed ++ (h'.pipeline.stats ∷ []) })
      ]

  -- The loop, on fuel: a source need not end. `is_end` tells the errors that end it like the end
  -- of the input: `ConnectionReset` and `UnexpectedEof`.
  unfoldable pub run_loop :
      (E → Bool) → ℕ → HostState S T → Run (Result (Unit {0}) (HostError E W) × HostState S T)
  run_loop is_end zero h = diverge
  run_loop is_end (suc fuel) h =
      let (got, source) = packets.read h.source 4096 in
      let h' : HostState S T = record h { source = source } in
      elim got [
        | err e ↦ if is_end e then ret (end_loop h') else ret (err (read_failed e), h')
        | ok bytes ↦ elim (is_empty bytes) [
          | true ↦ ret (end_loop h')
          | false ↦ round h' bytes >>= λ h''. run_loop is_end fuel h''
        ]
      ]
