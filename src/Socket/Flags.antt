-- ===== src/Socket/Flags.antt =====
-- The non-blocking flag, on a system that keeps it.
use Prim.Native.Nat.{bit_and, bit_or}
use sockpp.Prelude.{
  ℤ, pos, ℕ, ◌-◌, ◌*◌, ◌/◌, ◌%◌, ◌^◌, ◌<◌, ◌≡◌, List, ◌∷◌, Bool, true, false, if◌then◌else◌, arith,
  pos_part, ltb_ℤ,
}
use sockpp.Prelude.Bits.{bit_and_bit, bit_and_split, bit_or_bit, bit_and_mask, bit_and-zero}
use sockpp.Result.{is_ok}
use sockpp.System.{Os, World, Call, Event, Reply, SetsErrno}
use sockpp.Socket.Options.{
  o_nonblock, with_flag, get_flags, set_flags, set_flag, is_non_blocking, set_non_blocking,
}

-- What fcntl(2) says of the flag: after a successful `F_SETFL`, `F_GETFL` succeeds and has it as it
-- was set; flags are a non-negative `int`.
pub record KeepsFlag (os : Os) : Type 0 where
  pub kept :
      (h : List Event) (fd : ℤ) (flags : ℕ) (r : Reply)
      → ltb_ℤ r.ret (pos 0) ≡ false
      → let answer =
          os.reply (record { call = Call.setfl fd flags; reply = r } ∷ h) (Call.getfl fd) in
        (ltb_ℤ answer.ret (pos 0) ≡ false)
        × (bit_and (pos_part answer.ret) o_nonblock ≡ bit_and flags o_nonblock)
  pub fits : (h : List Event) (fd : ℤ) → pos_part (os.reply h (Call.getfl fd)).ret < 2 ^ 31

-- The flag is the one bit of the word that changes.
with_flag-on : (flags : ℕ) → bit_and (with_flag flags o_nonblock true) o_nonblock ≡ o_nonblock
with_flag-on flags = ground (arith, bit_or_bit 11 flags, bit_and_bit 11 (bit_or flags (2 ^ 11)))

with_flag-off :
    (flags : ℕ) → flags < 2 ^ 31 → bit_and (with_flag flags o_nonblock false) o_nonblock ≡ 0
with_flag-off flags h =
    let high = flags / 2 ^ 11 in
    ground (
      arith,
      bit_and_split 11 high (flags % 2 ^ 11) ((2 ^ 20 - 1) * 2) (2 ^ 11 - 1) (omega arith)
          (omega arith),
      bit_and_split 1 (high / 2) (high % 2) (2 ^ 20 - 1) 0 (omega arith) (omega arith),
      bit_and-zero (high % 2),
      bit_and_mask 11 (flags % 2 ^ 11),
      bit_and_mask 20 (high / 2),
      bit_and_bit 11 (bit_and flags (2 ^ 32 - 1 - 2 ^ 11)),
    )

with_flag_bit :
    (flags : ℕ) (on : Bool)
    → flags < 2 ^ 31
    → bit_and (with_flag flags o_nonblock on) o_nonblock ≡ (if on then o_nonblock else 0)
with_flag_bit flags true h = with_flag-on flags
with_flag_bit flags false h = with_flag-off flags h

-- After a successful `set_non_blocking` the socket is non-blocking exactly if that was asked for.
pub set_non_blocking_lem :
    ⦃os : Os⦄ (keeps : KeepsFlag os) (sets : SetsErrno os) (handle : ℤ) (on : Bool) (w : World)
    → let (res, w') = set_non_blocking handle on w in
      is_ok res ≡ true → (is_non_blocking handle w').0 ≡ on
unfolding set_non_blocking set_flag set_flags get_flags is_non_blocking
set_non_blocking_lem ⦃os⦄ keeps sets handle on w =
    let r₀ = os.reply w.history (Call.getfl handle) in
    let h₁ = record { call = Call.getfl handle; reply = r₀ } ∷ w.history in
    let flags = with_flag (pos_part r₀.ret) o_nonblock on in
    let r₁ = os.reply h₁ (Call.setfl handle flags) in
    ground (
      arith,
      with_flag_bit (pos_part r₀.ret) on (keeps.fits w.history handle),
      keeps.kept h₁ handle flags r₁,
      sets w.history (Call.getfl handle),
      sets h₁ (Call.setfl handle flags),
    )
