-- ===== src/Bytes.antt =====
-- libdevcore/CommonData.h: big-endian byte strings and the numbers that they spell.
use native.Mathlib.Nat.{pow-suc, pow-zero, mod-one, div-div-eq-div-mul, mul_comm, div-add-mod'}
use cpp_aec.Base.{
  ℕ, zero, suc, ◌+◌, ◌*◌, ◌/◌, ◌%◌, ◌^◌, ◌<◌, ◌≡◌, refl, sym, ap, ◌∙◌, List, [], ◌∷◌, ◌++◌, arith,
  length, length-append, take, drop, set, length-set, get_or, get_or-set_other, get_or-set_self,
  ◌≤◌,
}

abbrev pub IsByte : ℕ → Type 0
IsByte b = b < 256

unfoldable pub from_loop : ℕ → List ℕ → ℕ
from_loop ret [] = ret
from_loop ret (b ∷ bs) = from_loop (ret * 256 + b) bs

-- fromBigEndian at bigint. A byte falls into the eight zero bits of the shifted number.
unfoldable pub from_big_endian : List ℕ → ℕ
unfolding from_loop
from_big_endian bs = from_loop 0 bs

-- toBigEndian into `size` bytes, filled from the last one backwards; higher bytes are cut.
unfoldable pub to_big_endian : (size : ℕ) → ℕ → List ℕ
to_big_endian zero v = []
to_big_endian (suc n) v = to_big_endian n (v / 256) ++ v % 256 ∷ []

pub length-to_big_endian : (n v : ℕ) → length (to_big_endian n v) ≡ n
unfolding to_big_endian
length-to_big_endian zero v = refl
length-to_big_endian (suc n) v = omega (
  arith,
  length-append (to_big_endian n (v / 256)) (v % 256 ∷ []),
  length-to_big_endian n (v / 256),
)

from_loop-append : (r : ℕ) (xs ys : List ℕ) → from_loop r (xs ++ ys) ≡ from_loop (from_loop r xs) ys
unfolding from_loop
from_loop-append r [] ys = refl
from_loop-append r (x ∷ xs) ys = from_loop-append (r * 256 + x) xs ys

split_byte : (v n : ℕ) → v % 256 ^ suc n ≡ v / 256 % 256 ^ n * 256 + v % 256
split_byte v n = omega (
  arith,
  div-add-mod' v 256,
  div-add-mod' v (256 ^ suc n),
  div-add-mod' (v / 256) (256 ^ n),
  ap (λ (t : ℕ). v / 256 ^ suc n * t) (pow-suc 256 n),
  ap (λ (t : ℕ). t * (256 ^ n * 256)) quotient,
)
  where
    quotient : v / 256 ^ suc n ≡ v / 256 / 256 ^ n
    quotient =
        ap (λ (t : ℕ). v / t) (pow-suc 256 n ∙ mul_comm (256 ^ n) 256)
        ∙ sym (div-div-eq-div-mul v 256 (256 ^ n))

-- fromBigEndian of the n bytes of toBigEndian is the number modulo 256 ^ n.
pub from-to_big_endian : (n v : ℕ) → from_big_endian (to_big_endian n v) ≡ v % 256 ^ n
unfolding from_big_endian to_big_endian
from-to_big_endian zero v = rw pow-zero (sym (mod-one v))
from-to_big_endian (suc n) v =
    from_loop-append 0 (to_big_endian n (v / 256)) (v % 256 ∷ [])
    ∙ ap (λ (t : ℕ). t * 256 + v % 256) (from-to_big_endian n (v / 256))
    ∙ sym (split_byte v n)

-- memcpy into a byte array at an offset; a byte past the end is lost.
unfoldable pub write_at : List ℕ → ℕ → List ℕ → List ℕ
write_at mem offset [] = mem
write_at mem offset (b ∷ bs) = write_at (set mem offset b) (suc offset) bs

pub length-write_at :
    (mem : List ℕ) (offset : ℕ) (bs : List ℕ) → length (write_at mem offset bs) ≡ length mem
unfolding write_at
length-write_at mem offset [] = refl
length-write_at mem offset (b ∷ bs) =
    length-write_at (set mem offset b) (suc offset) bs ∙ length-set mem offset b

-- What a copy leaves alone, and what it writes.
pub write_at-before :
    (mem : List ℕ) (offset : ℕ) (bs : List ℕ) (p : ℕ)
    → p < offset
    → get_or (write_at mem offset bs) p 0 ≡ get_or mem p 0
unfolding write_at
write_at-before mem offset [] p h = refl
write_at-before mem offset (b ∷ bs) p h =
    write_at-before (set mem offset b) (suc offset) bs p (omega arith)
    ∙ get_or-set_other mem offset p b 0 (ground arith)

pub write_at-after :
    (mem : List ℕ) (offset : ℕ) (bs : List ℕ) (p : ℕ)
    → offset + length bs ≤ p
    → get_or (write_at mem offset bs) p 0 ≡ get_or mem p 0
unfolding write_at
write_at-after mem offset [] p h = refl
write_at-after mem offset (b ∷ bs) p h =
    write_at-after (set mem offset b) (suc offset) bs p (ground arith)
    ∙ get_or-set_other mem offset p b 0 (ground arith)

pub write_at-in :
    (mem : List ℕ) (offset : ℕ) (bs : List ℕ) (i : ℕ)
    → i < length bs
    → offset + length bs ≤ length mem
    → get_or (write_at mem offset bs) (offset + i) 0 ≡ get_or bs i 0
unfolding write_at
write_at-in mem offset [] i h l = absurd (ground arith)
write_at-in mem offset (b ∷ bs) zero h l =
    let e : offset + 0 ≡ offset = omega arith in
    rw e (
      write_at-before (set mem offset b) (suc offset) bs offset (omega arith)
      ∙ get_or-set_self mem offset b 0 (ground arith))
write_at-in mem offset (b ∷ bs) (suc i) h l =
    let e : offset + suc i ≡ suc offset + i = omega arith in
    let s = length-set mem offset b in
    rw e (write_at-in (set mem offset b) (suc offset) bs i (ground arith) (ground arith))

-- The bytes from an offset on.
abbrev pub slice : List ℕ → ℕ → ℕ → List ℕ
slice bs offset size = take size (drop offset bs)
