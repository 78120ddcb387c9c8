-- ===== src/Examples/Checksums.antt =====
-- Reflected CRCs, bit by bit, with the parameters of `CRC_16_IBM_SDLC` and `CRC_32_ISO_HDLC`.
use Prim.Native.Nat.{bit_xor}
use rust_telemetry_logger.Prelude.{
  ℕ, ◌/◌, ◌%◌, ◌^◌, ◌≡◌, refl, arith, List, [], ◌∷◌, ◌++◌, ◌==◌, if◌then◌else◌,
}
use rust_telemetry_logger.External.Crc.{Crc, CrcLaws}

shift : ℕ → ℕ → ℕ
shift poly s = if s % 2 == 1 then bit_xor (s / 2) poly else s / 2

crc_byte : ℕ → ℕ → ℕ → ℕ
unfolding shift
crc_byte poly s b = let f = shift poly in f (f (f (f (f (f (f (f (bit_xor s b))))))))

unfoldable pub crc_bytes : ℕ → ℕ → List ℕ → ℕ
unfolding crc_byte
crc_bytes poly s [] = s
crc_bytes poly s (b ∷ bs) = crc_bytes poly (crc_byte poly s b) bs

crc_bytes-append :
    (poly s : ℕ) (xs ys : List ℕ)
    → crc_bytes poly (crc_bytes poly s xs) ys ≡ crc_bytes poly s (xs ++ ys)
unfolding crc_bytes
crc_bytes-append poly s [] ys = refl
crc_bytes-append poly s (x ∷ xs) ys = crc_bytes-append poly (crc_byte poly s x) xs ys

abbrev pub crc16_ibm_sdlc : Crc
crc16_ibm_sdlc = record {
  Digest = ℕ;
  digest = 0xFFFF;
  update = crc_bytes 0x8408;
  finalize = λ s. bit_xor s 0xFFFF % 2 ^ 16;
  checksum = λ xs. bit_xor (crc_bytes 0x8408 0xFFFF xs) 0xFFFF % 2 ^ 16;
}

pub crc16_ibm_sdlc-laws : CrcLaws (2 ^ 16) crc16_ibm_sdlc
crc16_ibm_sdlc-laws = record {
  update-update = λ s xs ys. crc_bytes-append 0x8408 s xs ys;
  checksum_lem = λ xs. refl;
  finalize-lt = λ s. omega arith;
}

abbrev pub crc32_iso_hdlc : Crc
crc32_iso_hdlc = record {
  Digest = ℕ;
  digest = 0xFFFFFFFF;
  update = crc_bytes 0xEDB88320;
  finalize = λ s. bit_xor s 0xFFFFFFFF % 2 ^ 32;
  checksum = λ xs. bit_xor (crc_bytes 0xEDB88320 0xFFFFFFFF xs) 0xFFFFFFFF % 2 ^ 32;
}

pub crc32_iso_hdlc-laws : CrcLaws (2 ^ 32) crc32_iso_hdlc
crc32_iso_hdlc-laws = record {
  update-update = λ s xs ys. crc_bytes-append 0xEDB88320 s xs ys;
  checksum_lem = λ xs. refl;
  finalize-lt = λ s. omega arith;
}

abbrev digits : List ℕ
digits = 0x31 ∷ 0x32 ∷ 0x33 ∷ 0x34 ∷ 0x35 ∷ 0x36 ∷ 0x37 ∷ 0x38 ∷ 0x39 ∷ []

-- The documented check values, of the digits 1 to 9.
crc16_check : crc16_ibm_sdlc.checksum digits ≡ 0x906E
unfolding crc_bytes
crc16_check = refl

crc32_check : crc32_iso_hdlc.checksum digits ≡ 0xCBF43926
unfolding crc_bytes
crc32_check = refl
