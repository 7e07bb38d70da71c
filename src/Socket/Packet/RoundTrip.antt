-- ===== src/Socket/Packet/RoundTrip.antt =====
-- A packet that src/device/socket/vsock.rs sends is read back by its peer.
use virtio_drivers_and_devic.Prelude.{
  ℕ, zero, suc, ◌+◌, ◌/◌, ◌^◌, ◌<◌, ◌≤◌, ◌≡◌, refl, sym, ◌⊎◌, inl, inr, Bool-cases, ap, ◌∙◌, arith,
  ltb, leb, some, false, List, [], ◌∷◌, ◌++◌, length, take, drop, slice, length-append, length-take,
  none, le→not_ltb, slice-some,
}
use native.Mathlib.Nat.{pow-suc}
use virtio_drivers_and_devic.Error.{buffer_too_short}
use virtio_drivers_and_devic.Socket.Protocol.{VirtioVsockHdr, Parsed, accepted, rejected}
use virtio_drivers_and_devic.Socket.Packet.{
  to_bytes, from_bytes, as_bytes, field_at, read_from_prefix, read_header_and_body, read_body,
  with_body,
}

length-to_bytes : (width n : ℕ) → length (to_bytes width n) ≡ width
length-to_bytes zero n = refl
length-to_bytes (suc width) n = ap suc (length-to_bytes width (n / 256))

from_bytes-to_bytes : (width n : ℕ) → n < 256 ^ width → from_bytes (to_bytes width n) ≡ n
from_bytes-to_bytes zero n h = omega (arith, h)
from_bytes-to_bytes (suc width) n h =
    omega (arith, from_bytes-to_bytes width (n / 256) (omega (arith, pow-suc 256 width)))

-- Every field of the header fits its width.
pub record Fits (h : VirtioVsockHdr) : Type 0 where
  pub src_cid : h.src_cid < 256 ^ 8
  pub dst_cid : h.dst_cid < 256 ^ 8
  pub src_port : h.src_port < 256 ^ 4
  pub dst_port : h.dst_port < 256 ^ 4
  pub len : h.len < 256 ^ 4
  pub socket_type : h.socket_type < 256 ^ 2
  pub op : h.op < 256 ^ 2
  pub flags : h.flags < 256 ^ 4
  pub buf_alloc : h.buf_alloc < 256 ^ 4
  pub fwd_cnt : h.fwd_cnt < 256 ^ 4

-- the header as it is read back, field by field
abbrev reread : VirtioVsockHdr → VirtioVsockHdr
reread h = record {
  src_cid = from_bytes (to_bytes 8 h.src_cid);
  dst_cid = from_bytes (to_bytes 8 h.dst_cid);
  src_port = from_bytes (to_bytes 4 h.src_port);
  dst_port = from_bytes (to_bytes 4 h.dst_port);
  len = from_bytes (to_bytes 4 h.len);
  socket_type = from_bytes (to_bytes 2 h.socket_type);
  op = from_bytes (to_bytes 2 h.op);
  flags = from_bytes (to_bytes 4 h.flags);
  buf_alloc = from_bytes (to_bytes 4 h.buf_alloc);
  fwd_cnt = from_bytes (to_bytes 4 h.fwd_cnt);
}

reread_lem : (h : VirtioVsockHdr) → Fits h → reread h ≡ h
reread_lem h f =
    rw
      (
        from_bytes-to_bytes 8 h.src_cid f.src_cid,
        from_bytes-to_bytes 8 h.dst_cid f.dst_cid,
        from_bytes-to_bytes 4 h.src_port f.src_port,
        from_bytes-to_bytes 4 h.dst_port f.dst_port,
        from_bytes-to_bytes 4 h.len f.len,
        from_bytes-to_bytes 2 h.socket_type f.socket_type,
        from_bytes-to_bytes 2 h.op f.op,
        from_bytes-to_bytes 4 h.flags f.flags,
        from_bytes-to_bytes 4 h.buf_alloc f.buf_alloc,
        from_bytes-to_bytes 4 h.fwd_cnt f.fwd_cnt,
      )
      refl

prefix-reread :
    (h : VirtioVsockHdr) (rest : List ℕ)
    → read_from_prefix (as_bytes h ++ rest) ≡ accepted (reread h)
unfolding read_from_prefix as_bytes
prefix-reread h rest = rw (le→not_ltb (length (as_bytes h ++ rest)) 44 (omega arith)) refl

take-append : (xs ys : List ℕ) → take (length xs) (xs ++ ys) ≡ xs
take-append [] ys = refl
take-append (x ∷ xs) ys = ap (λ l. x ∷ l) (take-append xs ys)

-- The part of a packet behind its header.
body_slice :
    (h : VirtioVsockHdr) (body rest : List ℕ)
    → slice (as_bytes h ++ (body ++ rest)) 44 (44 + length body) ≡ some body
unfolding as_bytes
body_slice h body rest =
    slice-some (as_bytes h ++ (body ++ rest)) 44 (44 + length body) (omega arith)
      (omega (arith, length-append body rest))
    ∙ ap (λ (n : ℕ). some (take n (body ++ rest))) (omega arith)
    ∙ ap some (take-append body rest)

-- A packet whose header fits, with as many bytes of data as the header says, is read back, whatever
-- follows it.
pub read_header_and_body-as_bytes :
    (h : VirtioVsockHdr) (body rest : List ℕ)
    → Fits h
    → length body ≡ h.len
    → read_header_and_body (as_bytes h ++ (body ++ rest)) ≡ accepted (h, body)
unfolding read_header_and_body
read_header_and_body-as_bytes h body rest f e =
    ap (read_body (as_bytes h ++ (body ++ rest)))
      (prefix-reread h (body ++ rest) ∙ ap accepted (reread_lem h f))
    ∙ rw small (
        ap (λ (n : ℕ). with_body h (slice (as_bytes h ++ (body ++ rest)) 44 (44 + n))) (sym e)
        ∙ ap (with_body h) (body_slice h body rest))
  where
    small : leb (2 ^ 64) (44 + h.len) ≡ false
    small = ground (arith, f.len)

-- a list of bytes
abbrev pub AreBytes : List ℕ → Type 0
AreBytes [] = Unit
AreBytes (b ∷ bs) = (b < 256) × AreBytes bs

take-AreBytes : (n : ℕ) (bs : List ℕ) → AreBytes bs → AreBytes (take n bs)
take-AreBytes zero bs h = tt
take-AreBytes (suc n) [] h = tt
take-AreBytes (suc n) (b ∷ bs) (h, hs) = (h, take-AreBytes n bs hs)

drop-AreBytes : (n : ℕ) (bs : List ℕ) → AreBytes bs → AreBytes (drop n bs)
drop-AreBytes zero bs h = h
drop-AreBytes (suc n) [] h = tt
drop-AreBytes (suc n) (b ∷ bs) (h, hs) = drop-AreBytes n bs hs

from_bytes-lt :
    (width : ℕ) (bs : List ℕ) → AreBytes bs → length bs ≤ width → from_bytes bs < 256 ^ width
from_bytes-lt zero [] h l = omega arith
from_bytes-lt zero (b ∷ bs) h l = absurd (omega arith)
from_bytes-lt (suc width) [] h l =
    omega (arith, from_bytes-lt width [] h (omega arith), pow-suc 256 width)
from_bytes-lt (suc width) (b ∷ bs) h l =
    omega (arith, from_bytes-lt width bs h.1 (omega arith), pow-suc 256 width)

-- the length that a header announces
len_at : (bytes : List ℕ) → AreBytes bytes → field_at 24 4 bytes < 256 ^ 4
len_at bytes h =
    from_bytes-lt 4 (take 4 (drop 24 bytes))
      (take-AreBytes 4 (drop 24 bytes) (drop-AreBytes 24 bytes h))
      (omega (arith, length-take 4 (drop 24 bytes)))

abbrev pub Within : List ℕ → Parsed (VirtioVsockHdr × List ℕ) → Type 0
Within bytes r =
    (r ≡ rejected buffer_too_short)
    ⊎ ((h : VirtioVsockHdr) × (r ≡ accepted (h, take h.len (drop 44 bytes)))
        × (44 + h.len ≤ length bytes))

read_body-Within :
    (bytes : List ℕ) (h : VirtioVsockHdr)
    → h.len < 256 ^ 4
    → Within bytes (read_body bytes (accepted h))
read_body-Within bytes h l = elim (Bool-cases (leb (44 + h.len) (length bytes))) [
  | inl fits ↦ inr (
    h,
    rw small (
        ap (with_body h) (
          slice-some bytes 44 (44 + h.len) (omega arith) (ground arith)
          ∙ ap (λ (n : ℕ). some (take n (drop 44 bytes))) (omega arith))),
    ground arith,
  )
  | inr short ↦ inl (rw (small, no_slice short) refl)
]
  where
    small : leb (2 ^ 64) (44 + h.len) ≡ false
    small = ground arith

    no_slice : leb (44 + h.len) (length bytes) ≡ false → slice bytes 44 (44 + h.len) ≡ none
    no_slice short = ground arith

-- Whatever the bytes are, they are refused as too short, or what is read lies within them: the
-- header in front, and behind it as much data as it says.
pub read_header_and_body-Within :
    (bytes : List ℕ) → AreBytes bytes → Within bytes (read_header_and_body bytes)
unfolding read_header_and_body read_from_prefix
read_header_and_body-Within bytes b = elim (Bool-cases (ltb (length bytes) 44)) [
  | inl short ↦ inl (rw short refl)
  | inr enough ↦ rw enough (read_body-Within bytes _ (len_at bytes b))
]
