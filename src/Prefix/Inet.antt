-- ===== src/Prefix/Inet.antt =====
-- `inet_pton` and `inet_ntop` of the system, with the byte order that the wrappers of
-- src/prefix/prefix.cpp undo: an IPv4 address is a number in host order, an IPv6 address 16 bytes.
use asnprefix_map.Base.{ℕ, ◌^◌, ◌<◌, ◌≡◌, true, false, Option, some, length, Bytes}
use asnprefix_map.Base.Text.{free_of, has_byte}
use asnprefix_map.Prefix.Mask.{AreBytes}

-- `none` is a text that is no address, and a call of `inet_ntop` that fails.
pub record Inet : Type 0 where
  pub pton_v4 : Bytes → Option ℕ
  pub ntop_v4 : ℕ → Option Bytes
  pub pton_v6 : Bytes → Option Bytes
  pub ntop_v6 : Bytes → Option Bytes

-- The texts of one family: addresses are printed, a printed one has the family's mark and none of
-- the bytes that would end it, and it is read back.
pub record IsInet (i : Inet) : Type 0 where
  pub reads_v4 : (text : Bytes) (n : ℕ) → i.pton_v4 text ≡ some n → n < 2 ^ 32
  pub reads_v6 :
      (text bytes : Bytes) → i.pton_v6 text ≡ some bytes → (length bytes ≡ 16) × AreBytes bytes
  pub prints_v4 :
      (n : ℕ)
      → n < 2 ^ 32
      → (text : Bytes) × (i.ntop_v4 n ≡ some text)
        × (i.pton_v4 text ≡ some n)
        × (free_of b'/' text ≡ true)
        × (free_of 0 text ≡ true)
        × (has_byte b':' text ≡ false)
        × (has_byte b'.' text ≡ true)
  pub prints_v6 :
      (bytes : Bytes)
      → length bytes ≡ 16
      → AreBytes bytes
      → (text : Bytes) × (i.ntop_v6 bytes ≡ some text)
        × (i.pton_v6 text ≡ some bytes)
        × (free_of b'/' text ≡ true)
        × (free_of 0 text ≡ true)
        × (has_byte b':' text ≡ true)
