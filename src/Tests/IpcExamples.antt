-- ===== src/Tests/IpcExamples.antt =====
-- The frames' theorems at concrete inputs.
use aegis_private_browser.Prelude.{
  ◌≡◌, refl, sym, ℕ, true, false, none, some, List, [], ◌∷◌, ◌++◌, ok, err, arith,
}
use aegis_private_browser.Ipc.Frame.{Codec, End, Writer, FrameError, read_frame, write_frame}
use aegis_private_browser.Ipc.Frame.Sequence.{
  IsFaithful, short_error, read_frame-write_frame, read_frame-short,
}

-- Bytes that encode themselves.
abbrev raw : Codec (List ℕ)
raw = record { to_vec = λ v. some v; from_slice = λ body. some body }

raw-IsFaithful : IsFaithful raw
raw-IsFaithful v body h = sym h

abbrev accepting : Writer
accepting = record { refuses = λ written bytes. none; flushes = λ written. true }

written_test :
    write_frame raw accepting (1 ∷ 2 ∷ 3 ∷ []) (9 ∷ [])
    ≡ (ok tt, 9 ∷ 0 ∷ 0 ∷ 0 ∷ 3 ∷ 1 ∷ 2 ∷ 3 ∷ [])
unfolding write_frame
written_test = refl

-- A flush that fails is an error after the whole frame was written.
unflushed_test :
    write_frame raw (record accepting { flushes = λ written. false }) (1 ∷ []) []
    ≡ (err FrameError.io, 0 ∷ 0 ∷ 0 ∷ 1 ∷ 1 ∷ [])
unfolding write_frame
unflushed_test = refl

read_frame-write_frame_example :
    (added : List ℕ) × (9 ∷ 0 ∷ 0 ∷ 0 ∷ 3 ∷ 1 ∷ 2 ∷ 3 ∷ [] ≡ (9 ∷ []) ++ added)
    × (read_frame raw (record { bytes = added ++ (7 ∷ []); end = End.eof })
        ≡ (ok (1 ∷ 2 ∷ 3 ∷ []), record { bytes = 7 ∷ []; end = End.eof }))
read_frame-write_frame_example =
    read_frame-write_frame raw accepting (1 ∷ 2 ∷ 3 ∷ []) (9 ∷ [])
      (9 ∷ 0 ∷ 0 ∷ 0 ∷ 3 ∷ 1 ∷ 2 ∷ 3 ∷ []) (7 ∷ []) End.eof raw-IsFaithful written_test

-- Three of the four bytes of a header count as a closed connection.
read_frame-short_example :
    (read_frame raw (record { bytes = 0 ∷ 0 ∷ 0 ∷ []; end = End.eof })).0
    ≡ err (short_error 3 End.eof)
read_frame-short_example =
    read_frame-short raw (1 ∷ 2 ∷ 3 ∷ []) (0 ∷ 0 ∷ 0 ∷ []) (3 ∷ 1 ∷ 2 ∷ 3 ∷ []) End.eof refl
      (omega arith) refl
