-- ===== src/Prefix.antt =====
-- src/prefix/prefix.h and src/prefix/prefix.cpp: the prefix types, their equality, and families.
pub mod Mask
pub mod Inet
pub mod Cidr
pub mod RoundTrip
pub mod Tests
use asnprefix_map.Base.{
  ℕ, ◌≡◌, refl, ◌↔◌, Bool, true, false, ◌&&◌, Option, none, some, List, arith, Eq, ◌==◌, ==-iff,
  nat_eq, bytes_eq, nat_beq, bytes_beq, nat_beq_iff, bytes_beq_iff, Bytes,
}

-- `network` is a `uint32_t` in host order.
pub record PrefixV4 : Type 0 where
  pub network : ℕ
  pub length : ℕ

-- `network` has 16 bytes.
pub record PrefixV6 : Type 0 where
  pub network : Bytes
  pub length : ℕ

pub data BinaryPrefix : Type 0 where
  v4 : PrefixV4 → BinaryPrefix
  v6 : PrefixV6 → BinaryPrefix

pub data PrefixFamily : Type 0 where
  family_v4 family_v6 : PrefixFamily

abbrev pub v4_beq : PrefixV4 → PrefixV4 → Bool
v4_beq a b = nat_beq a.network b.network && nat_beq a.length b.length

abbrev pub v6_beq : PrefixV6 → PrefixV6 → Bool
v6_beq a b = bytes_beq a.network b.network && nat_beq a.length b.length

pub v4_beq_iff : (a b : PrefixV4) → (v4_beq a b ≡ true) ↔ (a ≡ b)
v4_beq_iff a b = ground arith

pub v6_beq_iff : (a b : PrefixV6) → (v6_beq a b ≡ true) ↔ (a ≡ b)
v6_beq_iff a b = ground (arith, bytes_beq_iff a.network b.network)

instance abbrev pub v4_eq : Eq PrefixV4
v4_eq = record { beq = v4_beq; beq_iff = v4_beq_iff }

instance abbrev pub v6_eq : Eq PrefixV6
v6_eq = record { beq = v6_beq; beq_iff = v6_beq_iff }

unfoldable pub family_of : BinaryPrefix → PrefixFamily
family_of (v4 p) = family_v4
family_of (v6 p) = family_v6

-- The equality of `std::variant`: the same alternative, with equal values.
abbrev pub binary_beq : BinaryPrefix → BinaryPrefix → Bool
binary_beq (v4 a) (v4 b) = v4_beq a b
binary_beq (v6 a) (v6 b) = v6_beq a b
binary_beq _ _ = false

pub binary_beq_iff : (a b : BinaryPrefix) → (binary_beq a b ≡ true) ↔ (a ≡ b)
binary_beq_iff (v4 a) (v4 b) = ground (arith, v4_beq_iff a b)
binary_beq_iff (v6 a) (v6 b) = ground (arith, v6_beq_iff a b)
binary_beq_iff (v4 a) (v6 b) = ground arith
binary_beq_iff (v6 a) (v4 b) = ground arith

instance abbrev pub binary_eq : Eq BinaryPrefix
binary_eq = record { beq = binary_beq; beq_iff = binary_beq_iff }
