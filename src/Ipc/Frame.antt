-- ===== src/Ipc/Frame.antt =====
-- crates/aegis-ipc/src/frame.rs. A byte is a number below 256. serde_json is a parameter, a `Codec`;
-- the transport is a stream of bytes with the way it ends, and a writer that may refuse.
pub mod Bytes
pub mod Sequence
use aegis_private_browser.Prelude.{
  ℕ, zero, suc, ◌+◌, ◌*◌, ◌/◌, ◌%◌, ltb, Bool, Option, none, some, List, [], ◌∷◌, ◌++◌, length,
  Result, ok, err, if◌then◌else◌,
}
use aegis_private_browser.Ipc.Frame.Bytes.{to_be_bytes, from_be_bytes, split_at}

abbrev pub max_frame_len : ℕ
max_frame_len = 16777216

pub data FrameError : Type 0 where
  closed io decode : FrameError
  too_large : (len max : ℕ) → FrameError

-- How a stream ends: the peer closed it, or the transport fails.
pub data End : Type 0 where
  eof broken : End

pub record Stream : Type 0 where
  pub bytes : List ℕ
  pub end : End

pub record Codec (T : Type 0) : Type 0 where
  pub to_vec : T → Option (List ℕ)
  pub from_slice : List ℕ → Option T

-- `refuses` is `none` where all the bytes after those already written are accepted, and `some` where
-- the write fails after these; `flushes` is whether the flush after those written succeeds.
pub record Writer : Type 0 where
  pub refuses : (written bytes : List ℕ) → Option (List ℕ)
  pub flushes : (written : List ℕ) → Bool

-- The error of a `read_exact` that met the end.
abbrev pub header_error : End → FrameError
header_error End.eof = FrameError.closed
header_error End.broken = FrameError.io

module _ {T : Type 0} (codec : Codec T) where
  abbrev pub decoded : Option T → Result T FrameError
  decoded none = err FrameError.decode
  decoded (some v) = ok v

  abbrev pub read_body : End → Option (List ℕ × List ℕ) → Result T FrameError × Stream
  read_body end none = (err FrameError.io, record { bytes = []; end = end })
  read_body end (some (body, rest)) =
      (decoded (codec.from_slice body), record { bytes = rest; end = end })

  abbrev pub read_after_header : End → ℕ → List ℕ → Result T FrameError × Stream
  read_after_header end len rest =
      if ltb max_frame_len len
      then (err (FrameError.too_large len max_frame_len), record { bytes = rest; end = end })
      else read_body end (split_at len rest)

  unfoldable pub read_frame : Stream → Result T FrameError × Stream
  unfolding split_at
  read_frame s = elim (split_at 4 s.bytes) [
    | none ↦ (err (header_error s.end), record s { bytes = [] })
    | some (header, rest) ↦ read_after_header s.end (from_be_bytes header) rest
  ]

  abbrev pub write_all : Writer → List ℕ → List ℕ → Result (List ℕ) (List ℕ)
  write_all w bytes written = elim (w.refuses written bytes) [
    | none ↦ ok (written ++ bytes)
    | some part ↦ err (written ++ part)
  ]

  abbrev pub flush : Writer → List ℕ → Result (Unit {0}) FrameError × List ℕ
  flush w written = (if w.flushes written then ok tt else err FrameError.io, written)

  abbrev pub write_body :
      Writer → List ℕ → Result (List ℕ) (List ℕ) → Result (Unit {0}) FrameError × List ℕ
  write_body w body (err written) = (err FrameError.io, written)
  write_body w body (ok written) = elim (write_all w body written) [
    | ok all ↦ flush w all
    | err part ↦ (err FrameError.io, part)
  ]

  -- The length of the body as a `u32`.
  abbrev pub write_encoded :
      Writer → Option (List ℕ) → List ℕ → Result (Unit {0}) FrameError × List ℕ
  write_encoded w none written = (err FrameError.decode, written)
  write_encoded w (some body) written =
      if ltb max_frame_len (length body)
      then (err (FrameError.too_large (length body) max_frame_len), written)
      else write_body w body (write_all w (to_be_bytes (length body % 4294967296)) written)

  unfoldable pub write_frame : Writer → T → List ℕ → Result (Unit {0}) FrameError × List ℕ
  write_frame w v written = write_encoded w (codec.to_vec v) written
