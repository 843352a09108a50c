-- ===== src/Reader.antt =====
-- `io.Reader`s over bytes in memory: a reader is the bytes that it has not given yet.
use shardstore.Common.{ℕ, ◌≤◌, ◌≡◌, Bytes, ◌++◌, length, take, drop, leb, ◌==◌, arith}
use shardstore.Common.{
  if◌then◌else◌, le_bytes, from_le, length-le_bytes, from_le-le_bytes, ◌^◌, ◌<◌,
}
use shardstore.Common.{take-append, drop-append, length-append}
use shardstore.Errors.{Result, ok, err, eof, message, ◌>>=◌}

-- `io.ReadFull(r, buf)` with `len(buf) == n`.
unfoldable pub read_full : ℕ → Bytes → Result (Bytes × Bytes)
read_full n r =
    if leb n (length r)
    then ok (take n r, drop n r)
    else err (if length r == 0 then eof else message "unexpected EOF")

-- `binary.Read(r, binary.LittleEndian, &v)` for an unsigned `v` of `w` bytes.
unfoldable pub read_uint : ℕ → Bytes → Result (ℕ × Bytes)
unfolding read_full
read_uint w r = do (bs, rest) ← read_full w r; ok (from_le bs, rest)

pub read_full-append :
    (n : ℕ) (xs rest : Bytes) → length xs ≡ n → read_full n (xs ++ rest) ≡ ok (xs, rest)
unfolding read_full
read_full-append n xs rest h =
    let fits : n ≤ length (xs ++ rest) = omega (arith, length-append xs rest) in
    rw (← h) (ground (arith, take-append xs rest, drop-append xs rest, length-append xs rest))

pub read_uint-le_bytes :
    (w n : ℕ) (rest : Bytes) → n < 256 ^ w → read_uint w (le_bytes w n ++ rest) ≡ ok (n, rest)
unfolding read_uint
read_uint-le_bytes w n rest h =
    rw (read_full-append w (le_bytes w n) rest (length-le_bytes w n), from_le-le_bytes w n h)
