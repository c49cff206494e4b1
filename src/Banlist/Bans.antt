-- ===== src/Banlist/Bans.antt =====
-- How long a ban lasts (internal/p2p/banlist.go).
use shadowledger.Prelude.{
  ℕ, zero, suc, ◌+◌, ◌-◌, ◌*◌, ◌^◌, ◌≤◌, ◌<◌, ◌≡◌, refl, true, false, [], none, some, Bytes, ltb,
  if◌then◌else◌, bytes_eq, bytes_eq_iff, get_or, arith,
}
use shadowledger.Prelude.Map.{lookup, lookup-insert_self, lookup-erase, bytes_key}
use shadowledger.Banlist.{Banlist, after, shifted, strike, banned}

-- A base that no backoff overflows.
abbrev pub IsShort : Banlist → Type 0
IsShort b = (0 < b.base) × (b.base < 2 ^ 57)

shifted_bounds :
    (base exp : ℕ)
    → base < 2 ^ 57
    → exp ≤ 6
    → (base ≤ shifted base exp) × (shifted base exp ≤ base * 64)
shifted_bounds base zero h e = omega arith
shifted_bounds base (suc zero) h e = omega arith
shifted_bounds base (suc (suc zero)) h e = omega arith
shifted_bounds base (suc (suc (suc zero))) h e = omega arith
shifted_bounds base (suc (suc (suc (suc zero)))) h e = omega arith
shifted_bounds base (suc (suc (suc (suc (suc zero))))) h e = omega arith
shifted_bounds base (suc (suc (suc (suc (suc (suc zero)))))) h e = omega arith
shifted_bounds base (suc (suc (suc (suc (suc (suc (suc exp))))))) h e = absurd (omega arith)

after_bounds :
    (now base exp : ℕ)
    → base < 2 ^ 57
    → exp ≤ 6
    → (now + base ≤ after now (shifted base exp)) × (after now (shifted base exp) ≤ now + 64 * base)
unfolding after
after_bounds now base exp h e = let b = shifted_bounds base exp h e in ground (arith, b)

-- A key that is banned until a time.
record IsBanned (key : Bytes) (now : ℕ) (base : ℕ) (b : Banlist) : Type 0 where
  until : ℕ
  stored : lookup key b.until ≡ some until
  named : bytes_eq key [] ≡ false
  least : now + base ≤ until
  most : until ≤ now + 64 * base

strike-IsBanned :
    (key : Bytes) (now : ℕ) (b struck : Banlist)
    → IsShort b
    → strike key now b ≡ (true, struck)
    → IsBanned key now b.base struck
unfolding strike
strike-IsBanned key now b struck short e =
    let n : ℕ = get_or (lookup key b.strikes) 0 + 1 in
    let exp : ℕ = if ltb 6 (n - b.threshold) then 6 else n - b.threshold in
    let small : exp ≤ 6 = ground arith in
    let (low, high) = after_bounds now b.base exp short.1 small in
    let kept = lookup-insert_self key (after now (shifted b.base exp)) b.until in
    record {
      until = after now (shifted b.base exp);
      stored = ground (arith, kept, e);
      named = ground (arith, e);
      least = low;
      most = high;
    }

-- Where the base time is short enough that no backoff overflows, a key whose strike is answered with a
-- ban is banned for at least the base time, without a change of the list, and from 64 times the base
-- time on it is not banned and its strikes are forgotten.
pub banned-strike :
    (key : Bytes) (now later : ℕ) (b struck : Banlist)
    → IsShort b
    → strike key now b ≡ (true, struck)
    → (later < now + b.base → banned key later struck ≡ (true, struck))
      × (now + 64 * b.base ≤ later
          → ((banned key later struck).0 ≡ false)
            × (lookup key (banned key later struck).1.strikes ≡ none))
unfolding banned
banned-strike key now later b struck short e =
    let ban = strike-IsBanned key now b struck short e in
    let gone = lookup-erase key key struck.strikes in
    let own = (bytes_eq_iff key key).1 refl in
    (
      λ soon. ground (arith, ban.stored, ban.named, ban.least),
      λ late. ground (arith, ban.stored, ban.named, ban.most, gone, own),
    )
