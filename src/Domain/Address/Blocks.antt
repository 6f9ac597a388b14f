-- ===== src/Domain/Address/Blocks.antt =====
-- The blocks of addresses that are not public, in the notation of the registries.
use dian_service.Base.{
  ℕ, ◌*◌, ◌+◌, ◌-◌, ◌/◌, ◌^◌, ◌<◌, ◌≤◌, ◌≡◌, ◌≢◌, ◌↔◌, true, List, [], ◌∷◌, All, arith,
}
use dian_service.Domain.Address.{Ipv4Addr, is_public_v4}

abbrev number : ℕ → ℕ → ℕ → ℕ → ℕ
number a b c d = a * 2 ^ 24 + b * 2 ^ 16 + c * 2 ^ 8 + d

-- The 32 bits of the address.
abbrev pub bits : Ipv4Addr → ℕ
bits ip = number ip.a ip.b ip.c ip.d

-- `a.b.c.d/length`, by the first address and the size: an address lies outside.
pub record Block : Type 0 where
  pub first : ℕ
  pub size : ℕ

abbrev block : ℕ → ℕ → ℕ → ℕ → ℕ → Block
block a b c d length = record { first = number a b c d; size = 2 ^ (32 - length) }

abbrev pub Avoids : ℕ → Block → Type 0
Avoids n x = n / x.size ≢ x.first / x.size

abbrev pub special_blocks : List Block
special_blocks =
    block 0 0 0 0 8
    ∷ block 10 0 0 0 8
    ∷ block 100 64 0 0 10
    ∷ block 127 0 0 0 8
    ∷ block 169 254 0 0 16
    ∷ block 172 16 0 0 12
    ∷ block 192 0 0 0 24
    ∷ block 192 0 2 0 24
    ∷ block 192 168 0 0 16
    ∷ block 198 18 0 0 15
    ∷ block 198 51 100 0 24
    ∷ block 203 0 113 0 24
    ∷ block 224 0 0 0 4
    ∷ block 240 0 0 0 4
    ∷ []

-- What that means for the octets.
record Spared (a b c : ℕ) : Type 0 where
  this_network : a ≢ 0
  ten : a ≢ 10
  shared : a ≡ 100 → 64 ≤ b → b < 128 → ⊥
  loopback : a ≢ 127
  link_local : a ≡ 169 → b ≢ 254
  private_172 : a ≡ 172 → 16 ≤ b → b < 32 → ⊥
  protocol : a ≡ 192 → b ≡ 0 → c ≢ 0
  documentation : a ≡ 192 → b ≡ 0 → c ≢ 2
  private_192 : a ≡ 192 → b ≢ 168
  benchmark : a ≡ 198 → 18 ≤ b → b < 20 → ⊥
  documentation_198 : a ≡ 198 → b ≡ 51 → c ≢ 100
  documentation_203 : a ≡ 203 → b ≡ 0 → c ≢ 113
  below : a < 224

module _ (a b c d : ℕ) (ha : a < 256) (hb : b < 256) (hc : c < 256) (hd : d < 256) where
  Avoids-Spared : All (Avoids (number a b c d)) special_blocks → Spared a b c
  Avoids-Spared h = record {
    this_network = λ e. h.0 (omega (arith, e, hb, hc, hd));
    ten = λ e. h.1.0 (omega (arith, e, hb, hc, hd));
    shared = λ e f g. h.1.1.0 (omega (arith, e, f, g, hb, hc, hd));
    loopback = λ e. h.1.1.1.0 (omega (arith, e, hb, hc, hd));
    link_local = λ e f. h.1.1.1.1.0 (omega (arith, e, f, hc, hd));
    private_172 = λ e f g. h.1.1.1.1.1.0 (omega (arith, e, f, g, hc, hd));
    protocol = λ e f g. h.1.1.1.1.1.1.0 (omega (arith, e, f, g, hd));
    documentation = λ e f g. h.1.1.1.1.1.1.1.0 (omega (arith, e, f, g, hd));
    private_192 = λ e f. h.1.1.1.1.1.1.1.1.0 (omega (arith, e, f, hc, hd));
    benchmark = λ e f g. h.1.1.1.1.1.1.1.1.1.0 (omega (arith, e, f, g, hc, hd));
    documentation_198 = λ e f g. h.1.1.1.1.1.1.1.1.1.1.0 (omega (arith, e, f, g, hd));
    documentation_203 = λ e f g. h.1.1.1.1.1.1.1.1.1.1.1.0 (omega (arith, e, f, g, hd));
    below =
        omega (arith, h.1.1.1.1.1.1.1.1.1.1.1.1.0, h.1.1.1.1.1.1.1.1.1.1.1.1.1.0, ha, hb, hc, hd);
  }

  Spared-Avoids : Spared a b c → All (Avoids (number a b c d)) special_blocks
  Spared-Avoids h = (
    λ e. h.this_network (omega (arith, e)),
    (
      λ e. h.ten (omega (arith, e, hb, hc, hd)),
      (
        λ e.
            h.shared (omega (arith, e, hb, hc, hd)) (omega (arith, e, hb, hc, hd))
              (omega (arith, e, hb, hc, hd)),
        (
          λ e. h.loopback (omega (arith, e, hb, hc, hd)),
          (
            λ e. h.link_local (omega (arith, e, hb, hc, hd)) (omega (arith, e, hb, hc, hd)),
            (
              λ e.
                  h.private_172 (omega (arith, e, hb, hc, hd)) (omega (arith, e, hb, hc, hd))
                    (omega (arith, e, hb, hc, hd)),
              (
                λ e.
                    h.protocol (omega (arith, e, hb, hc, hd)) (omega (arith, e, hb, hc, hd))
                      (omega (arith, e, hb, hc, hd)),
                (
                  λ e.
                      h.documentation (omega (arith, e, hb, hc, hd)) (omega (arith, e, hb, hc, hd))
                        (omega (arith, e, hb, hc, hd)),
                  (
                    λ e.
                        h.private_192 (omega (arith, e, hb, hc, hd)) (omega (arith, e, hb, hc, hd)),
                    (
                      λ e.
                          h.benchmark (omega (arith, e, hb, hc, hd)) (omega (arith, e, hb, hc, hd))
                            (omega (arith, e, hb, hc, hd)),
                      (
                        λ e.
                            h.documentation_198 (omega (arith, e, hb, hc, hd))
                              (omega (arith, e, hb, hc, hd)) (omega (arith, e, hb, hc, hd)),
                        (
                          λ e.
                              h.documentation_203 (omega (arith, e, hb, hc, hd))
                                (omega (arith, e, hb, hc, hd)) (omega (arith, e, hb, hc, hd)),
                          (
                            λ e. omega (arith, e, h.below, hb, hc, hd),
                            (λ e. omega (arith, e, h.below, hb, hc, hd), tt),
                          ),
                        ),
                      ),
                    ),
                  ),
                ),
              ),
            ),
          ),
        ),
      ),
    ),
  )

public_iff : (ip : Ipv4Addr) → (is_public_v4 ip ≡ true) ↔ Spared ip.a ip.b ip.c
unfolding is_public_v4
public_iff ip = (
  λ h. record {
    this_network = λ e. ground (arith, h, e);
    ten = λ e. ground (arith, h, e);
    shared = λ e f g. ground (arith, h, e, f, g);
    loopback = λ e. ground (arith, h, e);
    link_local = λ e f. ground (arith, h, e, f);
    private_172 = λ e f g. ground (arith, h, e, f, g);
    protocol = λ e f g. ground (arith, h, e, f, g);
    documentation = λ e f g. ground (arith, h, e, f, g);
    private_192 = λ e f. ground (arith, h, e, f);
    benchmark = λ e f g. ground (arith, h, e, f, g);
    documentation_198 = λ e f g. ground (arith, h, e, f, g);
    documentation_203 = λ e f g. ground (arith, h, e, f, g);
    below = ground (arith, h);
  },
  λ h. ground (
    arith, h.this_network, h.ten, h.shared, h.loopback, h.link_local, h.private_172, h.protocol,
    h.documentation, h.private_192, h.benchmark, h.documentation_198, h.documentation_203, h.below,
  ),
)

-- An IPv4 address counts as public exactly when it lies in none of the special blocks.
pub is_public_v4_iff :
    (ip : Ipv4Addr)
    → ip.a < 256
    → ip.b < 256
    → ip.c < 256
    → ip.d < 256
    → (is_public_v4 ip ≡ true) ↔ All (Avoids (bits ip)) special_blocks
is_public_v4_iff ip ha hb hc hd = (
  λ h. Spared-Avoids ip.a ip.b ip.c ip.d ha hb hc hd ((public_iff ip).0 h),
  λ h. (public_iff ip).1 (Avoids-Spared ip.a ip.b ip.c ip.d ha hb hc hd h),
)
