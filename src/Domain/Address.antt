-- ===== src/Domain/Address.antt =====
-- core-domain/src/webhooks.rs: `is_public_ip`, with the tests on addresses of the standard library. A
-- mask of the leading bits is a division by the power of two below them.
pub mod Blocks
use dian_service.Base.{
  ℕ, ◌*◌, ◌+◌, ◌/◌, ◌%◌, ◌^◌, Bool, true, false, ◌&&◌, ◌||◌, not, Option, none, some, nat_eq, leb,
  ltb, if◌then◌else◌,
}

pub record Ipv4Addr : Type 0 where
  pub a : ℕ
  pub b : ℕ
  pub c : ℕ
  pub d : ℕ

-- The eight segments.
pub record Ipv6Addr : Type 0 where
  pub s0 : ℕ
  pub s1 : ℕ
  pub s2 : ℕ
  pub s3 : ℕ
  pub s4 : ℕ
  pub s5 : ℕ
  pub s6 : ℕ
  pub s7 : ℕ

pub data IpAddr : Type 0 where
  v4 : Ipv4Addr → IpAddr
  v6 : Ipv6Addr → IpAddr

abbrev octets_are : Ipv4Addr → ℕ → ℕ → ℕ → ℕ → Bool
octets_are ip a b c d = nat_eq ip.a a && nat_eq ip.b b && nat_eq ip.c c && nat_eq ip.d d

abbrev is_private : Ipv4Addr → Bool
is_private ip =
    nat_eq ip.a 10
    || (nat_eq ip.a 172 && (leb 16 ip.b && leb ip.b 31))
    || (nat_eq ip.a 192 && nat_eq ip.b 168)

abbrev is_documentation : Ipv4Addr → Bool
is_documentation ip =
    (nat_eq ip.a 192 && nat_eq ip.b 0 && nat_eq ip.c 2)
    || (nat_eq ip.a 198 && nat_eq ip.b 51 && nat_eq ip.c 100)
    || (nat_eq ip.a 203 && nat_eq ip.b 0 && nat_eq ip.c 113)

unfoldable pub is_public_v4 : Ipv4Addr → Bool
is_public_v4 ip = not (
    octets_are ip 0 0 0 0
    || nat_eq ip.a 127
    || is_private ip
    || (nat_eq ip.a 169 && nat_eq ip.b 254)
    || octets_are ip 255 255 255 255
    || (leb 224 ip.a && leb ip.a 239)
    || is_documentation ip
    || nat_eq ip.a 0
    || (nat_eq ip.a 100 && (leb 64 ip.b && ltb ip.b 128))
    || (nat_eq ip.a 192 && nat_eq ip.b 0 && nat_eq ip.c 0)
    || (nat_eq ip.a 198 && (nat_eq ip.b 18 || nat_eq ip.b 19))
    || leb 240 ip.a)

abbrev starts_with_zeros : Ipv6Addr → Bool
starts_with_zeros ip =
    nat_eq ip.s0 0 && nat_eq ip.s1 0 && nat_eq ip.s2 0 && nat_eq ip.s3 0 && nat_eq ip.s4 0

unfoldable pub is_public_v6 : Ipv6Addr → Bool
is_public_v6 ip = not (
    (starts_with_zeros ip && nat_eq ip.s5 0 && nat_eq ip.s6 0 && nat_eq ip.s7 0)
    || (starts_with_zeros ip && nat_eq ip.s5 0 && nat_eq ip.s6 0 && nat_eq ip.s7 1)
    || nat_eq (ip.s0 / 2 ^ 8) 255
    || nat_eq (ip.s0 / 2 ^ 9) 126
    || nat_eq (ip.s0 / 2 ^ 6) 1018
    || (nat_eq ip.s0 8193 && nat_eq ip.s1 3512)
    || (nat_eq ip.s0 100 && nat_eq ip.s1 65435))

-- `::ffff:a.b.c.d`
unfoldable pub to_ipv4_mapped : Ipv6Addr → Option Ipv4Addr
to_ipv4_mapped ip =
    if starts_with_zeros ip && nat_eq ip.s5 65535
    then some
        (record { a = ip.s6 / 2 ^ 8; b = ip.s6 % 2 ^ 8; c = ip.s7 / 2 ^ 8; d = ip.s7 % 2 ^ 8 })
    else none

unfoldable pub is_public_ip : IpAddr → Bool
is_public_ip (v4 ip) = is_public_v4 ip
is_public_ip (v6 ip) = elim (to_ipv4_mapped ip) [
  | some ip ↦ is_public_v4 ip
  | none ↦ is_public_v6 ip
]
