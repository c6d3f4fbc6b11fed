-- ===== src/Arch.antt =====
-- libs/arch/detect.hpp: the level of SIMD that the processor has. What the processor answers is an
-- argument of every definition that uses it.
use asn1pp.Prelude.{Bool, if◌then◌else◌}

pub data SimdLevel : Type 0 where
  scalar sse42 avx2 neon : SimdLevel

pub record CpuFeatures : Type 0 where
  pub has_sse42 : Bool
  pub has_avx2 : Bool
  pub has_neon : Bool

-- `available_simd_level`, over what `detect_cpu` returns.
unfoldable pub available_simd_level : CpuFeatures → SimdLevel
available_simd_level f =
    if f.has_avx2
    then SimdLevel.avx2
    else if f.has_sse42
    then SimdLevel.sse42
    else if f.has_neon
    then SimdLevel.neon
    else SimdLevel.scalar
