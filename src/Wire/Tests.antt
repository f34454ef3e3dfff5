-- ===== src/Wire/Tests.antt =====
-- The framing at concrete inputs, and its theorems there.
use go_sqlite_rsync.Common.{
  ◌⊎◌, ℕ, if◌then◌else◌, ◌≡◌, refl, none, some, List, [], ◌∷◌, ◌++◌, length, ltb, arith, ◌<◌,
}
use go_sqlite_rsync.Common.Act.{ok, err}
use go_sqlite_rsync.Common.Int.{pos, negsuc}
use go_sqlite_rsync.Wire.{origin_msg, broken, message_too_long, bad_page_size, bad_exponent}
use go_sqlite_rsync.Wire.Uint32.{bytes_of_uint32, uint32_of_bytes, uint32_of_bytes-bytes_of_uint32}
use go_sqlite_rsync.Wire.Reader.{
  Reader, closed, read_message, read_uint32, read_bytes, read_full, read_pow2, short_read,
}
use go_sqlite_rsync.Wire.RoundTrip.{
  read_message-frame, read_message_too_long, read_message_cut, after_read,
}
use go_sqlite_rsync.Wire.PageSize.{write_pow2-Sends, write_pow2_refuses, read_pow2-write_pow2}
use go_sqlite_rsync.Wire.Writer.{
  Writer, Sink, write, write_loop, write_bytes, write_uint32, write_message, write_pow2, flush,
}
use go_sqlite_rsync.Wire.Writer.Loop.{Wrote, write-Wrote}
use go_sqlite_rsync.Wire.Writer.Sends.{Sends, frame, write_message_delivers}

-- A stream that takes everything, and one that breaks after three bytes.
abbrev open_sink : Sink
open_sink sent chunk = none

abbrev short_sink : Sink
short_sink sent chunk = if ltb 3 (length (sent ++ chunk)) then some (3, 7) else none

abbrev fresh : Sink → Writer
fresh k = record { sink = k; delivered = []; buf = []; fault = none; bytes_written = 0 }

abbrev source : List ℕ → Reader
source bs = record { input = bs; ending = closed; bytes_read = 0 }

-- The type byte is delivered and not counted.
message_delivered :
    (write_message origin_msg (1 ∷ 2 ∷ []) (fresh open_sink)).1
    ≡ record (fresh open_sink) { delivered = 0x46 ∷ 0 ∷ 0 ∷ 0 ∷ 2 ∷ 1 ∷ 2 ∷ []; bytes_written = 6 }
unfolding write_message write write_loop write_uint32 write_bytes bytes_of_uint32 flush
message_delivered = refl

message_broken :
    (write_message origin_msg (1 ∷ 2 ∷ []) (fresh short_sink)).1.delivered ≡ 0x46 ∷ 0 ∷ 0 ∷ []
unfolding write_message write write_loop write_uint32 write_bytes bytes_of_uint32 flush
message_broken = refl

message_read :
    read_message (source (0 ∷ 0 ∷ 0 ∷ 2 ∷ 1 ∷ 2 ∷ 9 ∷ []))
    ≡ (ok (1 ∷ 2 ∷ []), record (source (9 ∷ [])) { bytes_read = 6 })
unfolding read_message read_uint32 read_bytes read_full uint32_of_bytes
message_read = refl

uint32_of_bytes-bytes_of_uint32_example : uint32_of_bytes (bytes_of_uint32 1_000_000) ≡ 1_000_000
uint32_of_bytes-bytes_of_uint32_example = uint32_of_bytes-bytes_of_uint32 1_000_000 (omega arith)

write-Wrote_example : Wrote (fresh short_sink) (1 ∷ 2 ∷ []) (write (1 ∷ 2 ∷ []) (fresh short_sink))
write-Wrote_example = write-Wrote (1 ∷ 2 ∷ []) (fresh short_sink) (omega arith)

write_message_delivers_example :
    let r = write_message origin_msg (1 ∷ []) (fresh short_sink) in
    ((r.0 ≡ ok tt) × (r.1.delivered ≡ frame origin_msg (1 ∷ [])))
    ⊎ ((e : ℕ) × (lost : List ℕ) × (r.0 ≡ err (broken e))
        × (r.1.delivered ++ lost ≡ frame origin_msg (1 ∷ [])))
write_message_delivers_example =
    write_message_delivers origin_msg (1 ∷ []) (fresh short_sink) refl (omega arith)

abbrev framed : Reader
framed = source (bytes_of_uint32 2 ++ (1 ∷ 2 ∷ 9 ∷ []))

read_message-frame_example :
    read_message framed
    ≡ (ok (1 ∷ 2 ∷ []), after_read (after_read framed 4 (1 ∷ 2 ∷ 9 ∷ [])) 2 (9 ∷ []))
read_message-frame_example = read_message-frame framed (1 ∷ 2 ∷ []) (9 ∷ []) (omega arith) refl

abbrev oversized : Reader
oversized = source (bytes_of_uint32 2_000_000 ++ (5 ∷ []))

read_message_too_long_example :
    read_message oversized ≡ (err (message_too_long 2_000_000), after_read oversized 4 (5 ∷ []))
read_message_too_long_example =
    read_message_too_long oversized 2_000_000 (5 ∷ []) (omega arith) (omega arith) refl

read_message_cut_example :
    (skipped came : List ℕ) × (skipped ++ came ≡ 0 ∷ 0 ∷ 0 ∷ 2 ∷ 7 ∷ [])
    × ((read_message (source (0 ∷ 0 ∷ 0 ∷ 2 ∷ 7 ∷ []))).0 ≡ err (short_read closed came))
    × ((read_message (source (0 ∷ 0 ∷ 0 ∷ 2 ∷ 7 ∷ []))).1.input ≡ [])
unfolding bytes_of_uint32
read_message_cut_example =
    read_message_cut (source (0 ∷ 0 ∷ 0 ∷ 2 ∷ 7 ∷ [])) (7 ∷ 8 ∷ []) (0 ∷ 0 ∷ 0 ∷ 2 ∷ 7 ∷ [])
      (8 ∷ []) (omega arith) refl (omega arith) refl

write_pow2-Sends_example :
    Wrote (fresh open_sink) (12 ∷ []) (write_pow2 (pos 4096) (fresh open_sink))
write_pow2-Sends_example = write_pow2-Sends 12 (omega arith) (fresh open_sink) refl (omega arith)

write_pow2_refuses_example :
    write_pow2 (negsuc 0) (fresh open_sink) ≡ (err bad_page_size, fresh open_sink)
write_pow2_refuses_example =
    write_pow2_refuses (negsuc 0) (λ e. ground (arith, e)) (λ k h e. ground (arith, e))
      (fresh open_sink)

read_pow2-write_pow2_example :
    let r = source (12 ∷ 3 ∷ []) in
    ((16 < 12) × (read_pow2 r ≡ (err (bad_exponent 12), after_read r 1 (3 ∷ []))))
    ⊎ ((v : ℕ) × (read_pow2 r ≡ (ok v, after_read r 1 (3 ∷ [])))
        × Sends (write_pow2 (pos v)) (12 ∷ []))
read_pow2-write_pow2_example = read_pow2-write_pow2 (source (12 ∷ 3 ∷ [])) 12 (3 ∷ []) refl
