-- ===== src/Udp/Addresses.antt =====
-- How `process_udp` passes an IPv4 address to the external firewall.
use rustwall.Base.{ℕ, ◌<◌, ◌≡◌, ◌+◌, ◌*◌, ◌^◌, arith}
use rustwall.Smoltcp.{Ipv4Address}
use rustwall.Udp.{transmute_u32}

-- Each octet is a `u8`.
pub record IsAddress (a : Ipv4Address) : Type 0 where
  pub octet_0 : a.octet_0 < 2 ^ 8
  pub octet_1 : a.octet_1 < 2 ^ 8
  pub octet_2 : a.octet_2 < 2 ^ 8
  pub octet_3 : a.octet_3 < 2 ^ 8

-- What src/externs.rs says: the first octet is the most significant byte.
abbrev pub documented_u32 : Ipv4Address → ℕ
documented_u32 a = 2 ^ 24 * a.octet_0 + 2 ^ 16 * a.octet_1 + 2 ^ 8 * a.octet_2 + a.octet_3

-- Read the same from both ends.
abbrev pub IsPalindrome : Ipv4Address → Type 0
IsPalindrome a = (a.octet_0 ≡ a.octet_3) × (a.octet_1 ≡ a.octet_2)

same_address :
    (a b : Ipv4Address)
    → a.octet_0 ≡ b.octet_0
    → a.octet_1 ≡ b.octet_1
    → a.octet_2 ≡ b.octet_2
    → a.octet_3 ≡ b.octet_3
    → a ≡ b
same_address a b e f g h =
    λ i. record { octet_0 = e i; octet_1 = f i; octet_2 = g i; octet_3 = h i }

-- The number that the external firewall gets for an address is a `u32` and determines the address,
-- but it is the number that src/externs.rs documents only for an address that reads the same from
-- both ends.
pub transmute_u32-Reversed :
    (a b : Ipv4Address)
    → IsAddress a
    → IsAddress b
    → (transmute_u32 a < 2 ^ 32)
      × (transmute_u32 a ≡ transmute_u32 b → a ≡ b)
      × (transmute_u32 a ≡ documented_u32 a → IsPalindrome a)
      × (IsPalindrome a → transmute_u32 a ≡ documented_u32 a)
unfolding transmute_u32
transmute_u32-Reversed a b h k = (
  omega (arith, h.octet_0, h.octet_1, h.octet_2, h.octet_3),
  λ e.
      same_address a b
        (omega (
          arith, e, h.octet_0, h.octet_1, h.octet_2, h.octet_3, k.octet_0, k.octet_1, k.octet_2,
          k.octet_3,
        ))
        (omega (
          arith, e, h.octet_0, h.octet_1, h.octet_2, h.octet_3, k.octet_0, k.octet_1, k.octet_2,
          k.octet_3,
        ))
        (omega (
          arith, e, h.octet_0, h.octet_1, h.octet_2, h.octet_3, k.octet_0, k.octet_1, k.octet_2,
          k.octet_3,
        ))
        (omega (
          arith, e, h.octet_0, h.octet_1, h.octet_2, h.octet_3, k.octet_0, k.octet_1, k.octet_2,
          k.octet_3,
        )),
  λ e. (
    omega (arith, e, h.octet_0, h.octet_1, h.octet_2, h.octet_3),
    omega (arith, e, h.octet_0, h.octet_1, h.octet_2, h.octet_3),
  ),
  λ e. omega (arith, e.0, e.1),
)
