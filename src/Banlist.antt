-- ===== src/Banlist.antt =====
-- Strikes and temporary bans of peers, internal/p2p/banlist.go. A time is in nanoseconds; counts and
-- the threshold are Go ints that are not negative. The clock's reading is an argument.
pub mod Bans
use shadowledger.Prelude.{
  ℕ, ◌+◌, ◌-◌, ◌*◌, ◌%◌, ◌^◌, Bool, true, false, List, [], ◌∷◌, Option, none, some, Bytes, ltb, leb,
  if◌then◌else◌, bytes_eq, get_or,
}
use shadowledger.Prelude.Map.{Map, lookup, insert, erase, bytes_key}

pub record Banlist : Type 0 where
  pub strikes : Map Bytes ℕ
  pub until : Map Bytes ℕ
  pub threshold : ℕ
  pub base : ℕ

-- 10 minutes
abbrev default_base : ℕ
default_base = 600_000_000_000

-- `NewBanlist`; the base is the bit pattern of an int64.
unfoldable pub new_banlist : ℕ → ℕ → Banlist
new_banlist threshold base = record {
  strikes = [];
  until = [];
  threshold = if ltb threshold 1 then 3 else threshold;
  base = if ltb 0 base then if ltb base (2 ^ 63) then base else default_base else default_base;
}

-- `base << exp`
abbrev pub shifted : ℕ → ℕ → ℕ
shifted base exp = (base * 2 ^ exp) % 2 ^ 64

-- `Add` of a duration, which is an int64
unfoldable pub after : ℕ → ℕ → ℕ
after now d = if ltb d (2 ^ 63) then now + d else now - (2 ^ 64 - d)

-- `Strike`: whether the key is banned now, and the list.
unfoldable pub strike : Bytes → ℕ → Banlist → Bool × Banlist
unfolding after
strike key now b =
    let n = get_or (lookup key b.strikes) 0 + 1 in
    let exp = if ltb 6 (n - b.threshold) then 6 else n - b.threshold in
    let struck : Banlist = record b { strikes = insert key n b.strikes } in
    if bytes_eq key []
    then (false, b)
    else if ltb n b.threshold
    then (false, struck)
    else (true, record struck { until = insert key (after now (shifted b.base exp)) b.until })

-- `Banned`, which forgets a ban that has expired.
unfoldable pub banned : Bytes → ℕ → Banlist → Bool × Banlist
banned key now b = if bytes_eq key [] then (false, b) else elim (lookup key b.until) [
  | none ↦ (false, b)
  | some u ↦
      if ltb now u
      then (true, b)
      else (false, record b { until = erase key b.until; strikes = erase key b.strikes })
]

-- `Snapshot`, with the times not printed.
unfoldable pub snapshot : ℕ → Map Bytes ℕ → Map Bytes ℕ
snapshot now [] = []
snapshot now ((k, u) ∷ rest) =
    let later = snapshot now rest in if ltb now u then (k, u) ∷ later else later
