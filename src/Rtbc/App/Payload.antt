-- ===== src/Rtbc/App/Payload.antt =====
-- What `extract_app_payload` finds in what `package_app` built, and where it fails.
use mathlib.Core.List.{append_assoc}
use native.Mathlib.Nat.{pow-suc}
use raytask.Prelude.{
  ℕ, zero, suc, ◌+◌, ◌-◌, ◌/◌, ◌%◌, ◌^◌, ◌<◌, ◌≤◌, ◌≡◌, refl, sym, ap, ◌∙◌, true, false, ◌&&◌, List,
  ◌++◌, arith, ltb, leb, length, length-append, take, drop, take-append, drop-append,
}
use raytask.Prelude.Text.{same_bytes}
use raytask.Rtbc.Writer.{le_bytes}
use raytask.Rtbc.Reader.{from_le_bytes}
use raytask.Rtbc.App.{
  panicked, payload, app_magic, package_app, slice, cut_payload, extract_app_payload,
}

from_le_bytes-le_bytes : (n v : ℕ) → v < 256 ^ n → from_le_bytes (le_bytes n v) ≡ v
unfolding from_le_bytes le_bytes
from_le_bytes-le_bytes zero v h = omega arith
from_le_bytes-le_bytes (suc n) v h =
    omega (arith, from_le_bytes-le_bytes n (v / 256) (omega (arith, pow-suc 256 n)))

length-le_bytes : (n v : ℕ) → length (le_bytes n v) ≡ n
unfolding le_bytes
length-le_bytes zero v = refl
length-le_bytes (suc n) v = ap suc (length-le_bytes n (v / 256))

-- A file that ends in a trailer.
abbrev with_trailer : List ℕ → ℕ → List ℕ
with_trailer front len = front ++ (le_bytes 8 len ++ app_magic)

module _ (front : List ℕ) (len : ℕ) where
  length-with_trailer : length (with_trailer front len) ≡ length front + 16
  length-with_trailer = omega (
    arith,
    length-append front (le_bytes 8 len ++ app_magic),
    length-append (le_bytes 8 len) app_magic,
    length-le_bytes 8 len,
  )

  drop-trailer :
      drop (length (with_trailer front len) - 16) (with_trailer front len)
      ≡ le_bytes 8 len ++ app_magic
  drop-trailer = drop-append _ front _ (omega (arith, length-with_trailer))

  drop-magic : drop (length (with_trailer front len) - 8) (with_trailer front len) ≡ app_magic
  drop-magic = rw (← append_assoc) (
      drop-append _ (front ++ le_bytes 8 len) app_magic (
        omega (
          arith,
          length-with_trailer,
          length-append front (le_bytes 8 len),
          length-le_bytes 8 len,
          length-regrouped,
        )))
    where
      length-regrouped : length ((front ++ le_bytes 8 len) ++ app_magic) ≡ length front + 16
      length-regrouped = omega (
        arith,
        length-append (front ++ le_bytes 8 len) app_magic,
        length-append front (le_bytes 8 len),
        length-le_bytes 8 len,
      )

  -- The length in the trailer decides.
  extract_app_payload-with_trailer :
      len < 2 ^ 64
      → extract_app_payload (with_trailer front len) ≡ cut_payload (with_trailer front len) len
  unfolding extract_app_payload same_bytes
  extract_app_payload-with_trailer word =
      let long : ltb (length (with_trailer front len)) 16 ≡ false =
        ground (arith, length-with_trailer) in
      let size : from_le_bytes
            (take 8 (drop (length (with_trailer front len) - 16) (with_trailer front len)))
          ≡ len =
        rw (drop-trailer, take-append 8 (le_bytes 8 len) app_magic (length-le_bytes 8 len))
          (from_le_bytes-le_bytes 8 len (omega arith)) in
      rw (long, drop-magic, size) refl

package_app-with_trailer :
    (stub bytecode : List ℕ)
    → package_app stub bytecode ≡ with_trailer (stub ++ bytecode) (length bytecode)
unfolding package_app
package_app-with_trailer stub bytecode = sym (append_assoc stub bytecode _)

module _ (stub bytecode : List ℕ) where
  length-package_app : length (package_app stub bytecode) ≡ length stub + length bytecode + 16
  length-package_app =
      ap length (package_app-with_trailer stub bytecode)
      ∙ omega (
        arith,
        length-with_trailer (stub ++ bytecode) (length bytecode),
        length-append stub bytecode,
      )

  slice-package_app :
      (b : ℕ)
      → b ≡ length bytecode
      → slice (package_app stub bytecode) (length stub) (length stub + b) ≡ payload bytecode
  unfolding slice package_app
  slice-package_app b e =
      rw (inside, drop-append (length stub) stub _ refl, minus, take-append b bytecode _ (sym e))
        refl
    where
      inside :
          (leb (length stub) (length stub + b)
            && leb (length stub + b) (length (package_app stub bytecode)))
          ≡ true
      inside = ground (arith, length-package_app)

      minus : length stub + b - length stub ≡ b
      minus = omega arith

  cut_payload-package_app :
      length stub + length bytecode + 16 < 2 ^ 64
      → cut_payload (package_app stub bytecode) (length bytecode) ≡ payload bytecode
  unfolding cut_payload
  cut_payload-package_app h = rw (fits, start, end) (slice-package_app (length bytecode) refl)
    where
      fits : ltb (length (package_app stub bytecode)) ((16 + length bytecode) % 2 ^ 64) ≡ false
      fits = ground (arith, length-package_app)

      start :
          (length (package_app stub bytecode) - 16 + 2 ^ 64 - length bytecode) % 2 ^ 64
          ≡ length stub
      start = omega (arith, length-package_app)

      end : (length stub + length bytecode) % 2 ^ 64 ≡ length stub + length bytecode
      end = omega arith

-- `extract_app_payload` gives back the bytecode that `package_app` appended to any stub.
pub extract_app_payload-package_app :
    (stub bytecode : List ℕ)
    → length stub + length bytecode + 16 < 2 ^ 64
    → extract_app_payload (package_app stub bytecode) ≡ payload bytecode
extract_app_payload-package_app stub bytecode h =
    let e = package_app-with_trailer stub bytecode in
    ap extract_app_payload e
    ∙ extract_app_payload-with_trailer (stub ++ bytecode) (length bytecode) (omega arith)
    ∙ ap (λ f. cut_payload f (length bytecode)) (sym e)
    ∙ cut_payload-package_app stub bytecode h

-- A trailer whose length field is within 16 of 2^64 makes the function panic, where it is meant to
-- answer `None`: the check of the length adds 16 to it, and the sum wraps.
pub extract_app_payload_panics :
    (front : List ℕ) (len : ℕ)
    → length front + 16 < 2 ^ 64
    → 2 ^ 64 ≤ len + 16
    → len < 2 ^ 64
    → extract_app_payload (front ++ (le_bytes 8 len ++ app_magic)) ≡ panicked
extract_app_payload_panics front len h big word =
    extract_app_payload-with_trailer front len word
    ∙ unfold cut_payload slice in ground (arith, length-with_trailer front len)
