-- ===== src/BitOps/Transfer.antt =====
-- Numbers through a buffer in libs/buffer/bit_ops.hpp: written at a bit and read back from there.
use asn1pp.Prelude.{
  ℕ, ◌+◌, ◌*◌, ◌^◌, ◌≤◌, ◌<◌, ◌≡◌, sym, subst, List, ◌++◌, All, IsByte, arith, length, take, drop,
  take-append-drop, length-take_le, length-drop,
}
use asn1pp.Result.{ok, returns, Op}
use asn1pp.BitOps.Defs.{BitStream, stream, write_bits, read_bits}
use asn1pp.BitOps.Laws.{bits_of, length-bits_of, BitPuts, BitGets, Holds}
use asn1pp.BitOps.Numbers.{number_bits, length-number_bits, write_bits-BitPuts, read_bits-BitGets}

-- From the bit `k` of a buffer on, `m` puts the bits `bs` in the place of as many, keeps the others,
-- and `d`, started where `m` was, answers `a` and ends where `m` ended.
abbrev pub BitCarried {ℓ} :
    {A : Type ℓ} → Op BitStream (Unit {0}) → Op BitStream A → List ℕ → A → List ℕ → ℕ → Type ℓ
BitCarried m d bs a cells k =
    (cells' : List ℕ) × Holds
      (take k (bits_of cells) ++ (bs ++ drop (length bs) (drop k (bits_of cells)))) cells'
    × (m (stream cells k) ≡ returns (ok tt) (stream cells' (k + length bs)))
    × (d (stream cells' k) ≡ returns (ok a) (stream cells' (k + length bs)))

pub BitPuts-BitCarried {ℓ} :
    {A : Type ℓ} (m : Op BitStream (Unit {0})) (d : Op BitStream A) (bs : List ℕ) (a : A)
    → BitPuts m bs
    → BitGets d bs a
    → (cells : List ℕ) (k : ℕ) → All IsByte cells
    → k + length bs ≤ length cells * 8
    → BitCarried m d bs a cells k
BitPuts-BitCarried m d bs a p g cells k all h =
    let pre : List ℕ = take k (bits_of cells) in
    let c : List ℕ = drop k (bits_of cells) in
    let here : length pre ≡ k =
      length-take_le k (bits_of cells) (omega (arith, length-bits_of cells)) in
    let room : length bs ≤ length c =
      omega (arith, length-bits_of cells, length-drop k (bits_of cells)) in
    let (cells', held, wrote) =
      p cells pre c (record { octets = all; bits = sym (take-append-drop k (bits_of cells)) })
        room in
    (
      cells',
      held,
      subst (λ (j : ℕ). m (stream cells j) ≡ returns (ok tt) (stream cells' (j + length bs))) here
          wrote,
      subst (λ (j : ℕ). d (stream cells' j) ≡ returns (ok a) (stream cells' (j + length bs))) here
          (g cells' pre (drop (length bs) c) held),
    )

-- A number of at most 64 bits, written by `write_bits` at any bit of a buffer of octets with
-- room for it, is read back by `read_bits`, started where it was written; both stop behind the
-- bits that were written, and no other bit of the buffer changes.
pub number-BitCarried :
    (n width : ℕ) (cells : List ℕ) (k : ℕ)
    → width ≤ 64
    → n < 2 ^ width
    → All IsByte cells
    → k + width ≤ length cells * 8
    → BitCarried (write_bits n width) (read_bits width) (number_bits width n) n cells k
number-BitCarried n width cells k w f all room =
    BitPuts-BitCarried (write_bits n width) (read_bits width) (number_bits width n) n
      (write_bits-BitPuts n width w) (read_bits-BitGets width n w f) cells k all
      (omega (arith, length-number_bits width n))
