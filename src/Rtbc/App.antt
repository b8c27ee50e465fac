-- ===== src/Rtbc/App.antt =====
-- Standalone applications: `package_app` and `extract_app_payload` of src/bytecode_format.rs, over
-- 64-bit sizes whose sums wrap as they do in a release build.
pub mod Payload
use raytask.Prelude.{
  ℕ, ◌+◌, ◌-◌, ◌%◌, ◌^◌, Bool, true, false, ◌&&◌, List, [], ◌∷◌, ◌++◌, ltb, leb, ◌==◌,
  if◌then◌else◌, length, take, drop,
}
use raytask.Prelude.Text.{same_bytes}
use raytask.Rtbc.Writer.{le_bytes}
use raytask.Rtbc.Reader.{from_le_bytes}

-- b"RTBCAP\x01\0"
abbrev pub app_magic : List ℕ
app_magic = b'R' ∷ b'T' ∷ b'B' ∷ b'C' ∷ b'A' ∷ b'P' ∷ 1 ∷ 0 ∷ []

unfoldable pub package_app : (stub bytecode : List ℕ) → List ℕ
package_app stub bytecode = stub ++ (bytecode ++ (le_bytes 8 (length bytecode) ++ app_magic))

-- `None`, `Some`, and a panic of the slice at the end.
pub data Extracted : Type 0 where
  absent panicked : Extracted
  payload : List ℕ → Extracted

-- `&bytes[start..end]`
unfoldable pub slice : List ℕ → (start end : ℕ) → Extracted
slice bytes start end =
    if leb start end && leb end (length bytes)
    then payload (take (end - start) (drop start bytes))
    else panicked

-- From the length in the trailer on.
unfoldable pub cut_payload : List ℕ → ℕ → Extracted
cut_payload exe len =
    let n = length exe in
    let start = (n - 16 + 2 ^ 64 - len) % 2 ^ 64 in
    if ltb n ((16 + len) % 2 ^ 64) then absent else slice exe start ((start + len) % 2 ^ 64)

unfoldable pub extract_app_payload : List ℕ → Extracted
extract_app_payload exe =
    let n = length exe in
    let found = same_bytes (drop (n - 8) exe) app_magic in
    let len = from_le_bytes (take 8 (drop (n - 16) exe)) in
    if ltb n 16 then absent else if found then cut_payload exe len else absent
