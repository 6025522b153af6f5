-- ===== src/Ipc/Frame/Sequence.antt =====
-- What was written as a frame is read back, and a frame that is cut short is not.
use mathlib.Core.List.{append_assoc}
use aegis_private_browser.Prelude.{
  ◌≡◌, refl, sym, ap, ◌∙◌, ℕ, suc, ◌%◌, ◌<◌, ◌≤◌, ltb, Bool, true, false, Option, none, some, List,
  [], ◌∷◌, ◌++◌, length, length-append, Result, ok, err, if◌then◌else◌, arith,
}
use aegis_private_browser.Ipc.Frame.{
  Codec, End, Writer, FrameError, max_frame_len, read_frame, read_after_header, read_body, decoded,
  write_frame, write_encoded, write_body, write_all, header_error,
}
use aegis_private_browser.Ipc.Frame.Bytes.{
  to_be_bytes, from_be_bytes, split_at, from_be_bytes-to_be_bytes, split_at-append, split_at-short,
}

-- What was written comes back: the documented round trip of serde_json.
abbrev pub IsFaithful : {T : Type 0} → Codec T → Type 0
IsFaithful {T} codec =
    (v : T) (body : List ℕ) → codec.to_vec v ≡ some body → codec.from_slice body ≡ some v

-- The bytes of a frame.
abbrev pub frame : List ℕ → List ℕ
frame body = to_be_bytes (length body % 4294967296) ++ body

fits : (n : ℕ) → ltb max_frame_len n ≡ false → n ≤ max_frame_len
fits n h = ground arith

header_of : (n : ℕ) → ltb max_frame_len n ≡ false → from_be_bytes (to_be_bytes (n % 4294967296)) ≡ n
header_of n h =
    let small : n ≤ max_frame_len = fits n h in
    from_be_bytes-to_be_bytes (n % 4294967296) (omega arith) ∙ omega (arith, small)

module _ {T : Type 0} (codec : Codec T) where
  after_header :
      (body rest : List ℕ) (end : End) (n : ℕ)
      → n ≡ length body
      → ltb max_frame_len (length body) ≡ false
      → read_after_header codec end n (body ++ rest)
        ≡ (decoded codec (codec.from_slice body), record { bytes = rest; end = end })
  after_header body rest end n e h =
      ap (λ m. read_after_header codec end m (body ++ rest)) e
      ∙ ap
          (λ b.
            if b
            then (
              err (FrameError.too_large (length body) max_frame_len),
              record { bytes = body ++ rest; end = end },
            )
            else read_body codec end (split_at (length body) (body ++ rest)))
          h
      ∙ ap (read_body codec end) (split_at-append body rest)

  read_frame-frame :
      (body rest : List ℕ) (end : End)
      → ltb max_frame_len (length body) ≡ false
      → read_frame codec (record { bytes = frame body ++ rest; end = end })
        ≡ (decoded codec (codec.from_slice body), record { bytes = rest; end = end })
  unfolding read_frame split_at
  read_frame-frame body rest end h = after_header body rest end _ (header_of (length body) h) h

  -- A write that returns has written a frame of an encoding that fits.
  Written : Writer → T → List ℕ → List ℕ → Type 0
  Written w v written sent =
      (body : List ℕ) × (codec.to_vec v ≡ some body)
      × (ltb max_frame_len (length body) ≡ false)
      × (sent ≡ written ++ frame body)

  write_all-ok :
      (w : Writer) (bytes written all : List ℕ)
      → write_all codec w bytes written ≡ ok all
      → all ≡ written ++ bytes
  write_all-ok w bytes written all h = ground arith

  write_body-ok :
      (w : Writer) (body sent : List ℕ) (r : Result (List ℕ) (List ℕ))
      → write_body codec w body r ≡ (ok tt, sent)
      → (mid : List ℕ) × (r ≡ ok mid) × (sent ≡ mid ++ body)
  write_body-ok w body sent (err part) h = absurd cc (ap (λ q. q.0) h)
  write_body-ok w body sent (ok mid) h = (mid, refl, ended (write_all codec w body mid) refl h)
    where
      ended :
          (r : Result (List ℕ) (List ℕ))
          → write_all codec w body mid ≡ r
          → write_body codec w body (ok mid) ≡ (ok tt, sent)
          → sent ≡ mid ++ body
      ended r e k = ground (arith, write_all-ok w body mid sent)

  write_encoded-Written :
      (w : Writer) (v : T) (written sent : List ℕ) (o : Option (List ℕ))
      → codec.to_vec v ≡ o
      → write_encoded codec w o written ≡ (ok tt, sent)
      → Written w v written sent
  unfolding Written
  write_encoded-Written w v written sent none e h = absurd cc (ap (λ q. q.0) h)
  write_encoded-Written w v written sent (some body) e h =
      by_size (ltb max_frame_len (length body)) refl
    where
      header : List ℕ
      header = to_be_bytes (length body % 4294967296)

      outcome : Bool → Result (Unit {0}) FrameError × List ℕ
      outcome b =
          if b
          then (err (FrameError.too_large (length body) max_frame_len), written)
          else write_body codec w body (write_all codec w header written)

      by_size : (b : Bool) → ltb max_frame_len (length body) ≡ b → Written w v written sent
      by_size true k = absurd cc (ap (λ q. q.0) (sym (ap outcome k) ∙ h))
      by_size false k =
          let (mid, first, last) =
            write_body-ok w body sent (write_all codec w header written) (sym (ap outcome k) ∙ h) in
          (
            body,
            e,
            k,
            last
                ∙ ap (λ m. m ++ body) (write_all-ok w header written mid first)
                ∙ append_assoc written header body,
          )

-- A value that was written as a frame, behind whatever was written before, is read back from the
-- bytes that were added, whatever follows them and however the stream ends, and exactly the bytes
-- that follow are left; on the condition that the codec decodes what it encodes.
pub read_frame-write_frame :
    {T : Type 0} (codec : Codec T) (w : Writer) (v : T) (written sent rest : List ℕ) (end : End)
    → IsFaithful codec
    → write_frame codec w v written ≡ (ok tt, sent)
    → (added : List ℕ) × (sent ≡ written ++ added)
      × (read_frame codec (record { bytes = added ++ rest; end = end })
          ≡ (ok v, record { bytes = rest; end = end }))
unfolding write_frame Written
read_frame-write_frame codec w v written sent rest end faithful h =
    let (body, encoded, small, sent_is) =
      write_encoded-Written codec w v written sent (codec.to_vec v) refl h in
    (
      frame body,
      sent_is,
      read_frame-frame codec body rest end small
          ∙ ap (λ o. (decoded codec o, record { bytes = rest; end = end }))
              (faithful v body encoded),
    )

-- The error of a stream that ends inside a frame, after `n` bytes of it.
abbrev pub short_error : ℕ → End → FrameError
short_error n end = if ltb n 4 then header_error end else FrameError.io

not_short : (n : ℕ) → ltb (suc (suc (suc (suc n)))) 4 ≡ false
not_short n = ground arith

body_short :
    {T : Type 0} (codec : Codec T) (n : ℕ) (body part : List ℕ) (end : End)
    → n ≡ length body
    → ltb max_frame_len (length body) ≡ false
    → length part < length body
    → (read_after_header codec end n part).0 ≡ err FrameError.io
body_short codec n body part end e small short =
    ap (λ m. (read_after_header codec end m part).0) e
    ∙ ap
        (λ b.
          (if b
            then (
              err (FrameError.too_large (length body) max_frame_len),
              record { bytes = part; end = end },
            )
            else read_body codec end (split_at (length body) part)).0)
        small
    ∙ ap (λ o. (read_body codec end o).0) (split_at-short (length body) part short)

-- A stream that ends inside a frame gives no value: after fewer than the four bytes of the header
-- the answer is that of the end (`Closed` for a peer that closed, as between two frames), and
-- inside the body it is an input error; for any body whose size is allowed.
pub read_frame-short :
    {T : Type 0} (codec : Codec T) (body bytes lost : List ℕ) (end : End)
    → ltb max_frame_len (length body) ≡ false
    → 0 < length lost
    → bytes ++ lost ≡ frame body
    → (read_frame codec (record { bytes = bytes; end = end })).0
      ≡ err (short_error (length bytes) end)
unfolding read_frame split_at
read_frame-short codec body [] lost end small some_lost h = refl
read_frame-short codec body (a ∷ []) lost end small some_lost h = refl
read_frame-short codec body (a ∷ b ∷ []) lost end small some_lost h = refl
read_frame-short codec body (a ∷ b ∷ c ∷ []) lost end small some_lost h = refl
read_frame-short codec body (a ∷ b ∷ c ∷ d ∷ part) lost end small some_lost h =
    body_short codec _ body part end (ap from_be_bytes header ∙ header_of (length body) small) small
      (omega (arith, some_lost, length-append part lost, ap length tail_is))
    ∙ sym (ap (λ b. err (if b then header_error end else FrameError.io)) (not_short (length part)))
  where
    header : a ∷ b ∷ c ∷ d ∷ [] ≡ to_be_bytes (length body % 4294967296)
    header = cc

    tail_is : part ++ lost ≡ body
    tail_is = cc
