-- ===== src/Proto/RoundTrip.antt =====
-- proto/proto.go: JSON frames, written and read back.
use caochuan.Base.{
  ℕ, ◌%◌, ◌^◌, ◌<◌, ◌≡◌, refl, false, ◌++◌, some, arith, ◌==◌, if◌then◌else◌, length, length-append,
  take-append, drop-append,
}
use caochuan.Proto.{
  Bytes, ok, err, unexpected_eof, Codec, Writer, read_full, put_uint16, uint16, read_json_frame,
  write_json_frame, ◌>>=◌, decode_body,
}

pub read_full-append :
    (n : ℕ) (xs ys : Bytes) → length xs ≡ n → read_full n (xs ++ ys) ≡ ok (xs, ys)
unfolding read_full
read_full-append n xs ys e =
    rw (← e) (ground (arith, length-append xs ys, take-append xs ys, drop-append xs ys))

pub uint16-put_uint16 : (n : ℕ) → n < 2 ^ 16 → uint16 (put_uint16 n) ≡ n
uint16-put_uint16 n h = omega arith

module _ {V : Type 0} (json : Codec V) where
  read-body :
      (n : ℕ) (b rest : Bytes) (v : V)
      → length b ≡ n
      → 0 < n
      → json.unmarshal b ≡ some v
      → ((if n == 0 then err unexpected_eof else read_full n (b ++ rest)) >>= λ p.
          decode_body json p.0 p.1)
        ≡ ok (v, rest)
  unfolding decode_body
  read-body n b rest v e pos parsed = ground (arith, read_full-append n b rest e)

  pub read-frame :
      (b rest : Bytes) (v : V)
      → 0 < length b
      → length b < 2 ^ 16
      → json.unmarshal b ≡ some v
      → read_json_frame json (put_uint16 (length b % 2 ^ 16) ++ (b ++ rest)) ≡ ok (v, rest)
  unfolding read_json_frame
  read-frame b rest v pos small e = ground (
    arith,
    read_full-append 2 (put_uint16 (length b % 2 ^ 16)) (b ++ rest) refl,
    read-body (length b) b rest v refl pos e,
    uint16-put_uint16 (length b % 2 ^ 16),
  )

  -- Whenever JSON gives a body of 1 to 65535 bytes which it also parses back, the frame is written to
  -- a working writer in one piece, and a reader gets the value back and keeps the rest of the stream.
  pub read-write_json_frame :
      (w : Writer) (b rest : Bytes) (v : V)
      → json.marshal v ≡ some b
      → json.unmarshal b ≡ some v
      → 0 < length b
      → length b < 2 ^ 16
      → w.is_broken ≡ false
      → (frame : Bytes) × (write_json_frame json w v ≡ ok (record w { sent = w.sent ++ frame }))
        × (read_json_frame json (frame ++ rest) ≡ ok (v, rest))
  unfolding write_json_frame
  read-write_json_frame w b rest v m u pos small works =
      (put_uint16 (length b % 2 ^ 16) ++ b, ground arith, read-frame b rest v pos small u)

  -- A body of exactly 65536 bytes passes the size check, and its length does not fit the header: the
  -- write succeeds, and the reader refuses the frame.
  pub write_json_frame_full :
      (w : Writer) (b rest : Bytes) (v : V)
      → json.marshal v ≡ some b
      → length b ≡ 2 ^ 16
      → w.is_broken ≡ false
      → (frame : Bytes) × (write_json_frame json w v ≡ ok (record w { sent = w.sent ++ frame }))
        × (read_json_frame json (frame ++ rest) ≡ err unexpected_eof)
  unfolding write_json_frame read_json_frame
  write_json_frame_full w b rest v m full works = (
    put_uint16 (length b % 2 ^ 16) ++ b,
    ground arith,
    rw full (ground (arith, read_full-append 2 (put_uint16 0) (b ++ rest) refl)),
  )
