-- ===== src/Transport/Ble/Mac.antt =====
-- src/transport/ble_transport.rs: random addresses are local and unicast, and are kept for an interval.
use Prim.Native.Nat.{bit_and, bit_or}
use stellarconduit_core.Prelude.{
  ℕ, all_below, all_below_lem, ◌<◌, ◌%◌, ◌/◌, ◌∷◌, Bytes, true, ◌&&◌, ◌≡◌, refl, arith, ◌==◌,
}
use stellarconduit_core.Transport.Ble.{generate}

abbrev first_byte : ℕ → ℕ
first_byte b = bit_and (bit_or b 2) 254

first_bytes :
    all_below 256
      (λ b. (first_byte b / 2 % 2 == 1) && (first_byte b % 2 == 0) && (first_byte b / 4 == b / 4))
    ≡ true
unfolding all_below
first_bytes = refl

-- A generated address has the locally-administered bit and not the multicast bit; the other bits are
-- the random ones.
pub generate_lem :
    (b : ℕ) (bs : Bytes)
    → b < 256
    → (a : ℕ) × (generate (b ∷ bs) ≡ a ∷ bs) × (a / 2 % 2 ≡ 1) × (a % 2 ≡ 0) × (a / 4 ≡ b / 4)
unfolding generate
generate_lem b bs h =
    let t = all_below_lem 256 _ b first_bytes h in
    (first_byte b, refl, ground (arith, t), ground (arith, t), ground (arith, t))
