-- ===== src/Server/Headers.antt =====
-- The length in front of a message, and the buffer behind it: htonl, ntohl, resize and the bytes of
-- recv in server/Protocol.cpp.
use yolo_server.Prelude.{
  drop_long, ◌⊎◌, ℕ, zero, suc, ◌+◌, ◌-◌, ◌*◌, ◌≤◌, ◌<◌, ◌≡◌, ◌||◌, refl, ap, true, false, Text, [],
  ◌∷◌, ◌++◌, arith, ltb, ◌==◌, length, take, length-append, length-take, append-nil,
}
use yolo_server.Server.Protocol.{htonl, ntohl, resize, overwrite, zeros}

-- The bytes of a message on the wire.
abbrev pub frame : Text → Text
frame msg = htonl (length msg) ++ msg

pub ntohl-htonl : (n : ℕ) → n < 4294967296 → ntohl (htonl n) ≡ n
unfolding ntohl htonl
ntohl-htonl n h = omega arith

-- The number that four received bytes stand for.
pub ntohl_four : (a b c d : ℕ) → ntohl (a ∷ b ∷ c ∷ d ∷ []) ≡ ((a * 256 + b) * 256 + c) * 256 + d
unfolding ntohl
ntohl_four a b c d = omega arith

length-zeros : (n : ℕ) → length (zeros n) ≡ n
length-zeros zero = refl
length-zeros (suc n) = ap suc (length-zeros n)

pub length-resize : (len : ℕ) (out : Text) → length (resize len out) ≡ len
unfolding resize
length-resize len out = omega (
  arith,
  length-append (take len out) (zeros (len - length out)),
  length-take len out,
  length-zeros (len - length out),
)

-- A buffer of the right size is overwritten as a whole.
pub overwrite_all : (out msg : Text) → overwrite (resize (length msg) out) msg ≡ msg
unfolding overwrite
overwrite_all out msg =
    rw
      (drop_long (length msg) (resize (length msg) out)
        (omega (arith, length-resize (length msg) out)))
      (append-nil msg)

pub nonzero : (n : ℕ) → 1 ≤ n → (n == 0) ≡ false
nonzero n h = ground arith

pub allowed : (n : ℕ) → 1 ≤ n → n ≤ 1048576 → ((n == 0) || ltb 1048576 n) ≡ false
allowed n low high = ground arith

pub forbidden : (n : ℕ) → (n ≡ 0) ⊎ (1048576 < n) → ((n == 0) || ltb 1048576 n) ≡ true
forbidden n bad = ground arith

pub length-htonl : (n : ℕ) → length (htonl n) ≡ 4
unfolding htonl
length-htonl n = refl
