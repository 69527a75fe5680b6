-- ===== src/Auth/KeyCache/History.antt =====
-- The cache against a dictionary that never forgets: the eviction of expired entries is invisible.
use dota_cuck.Prelude.{
  ℕ, ◌+◌, ◌≤◌, ◌≡◌, refl, ◌∙◌, ◌⊎◌, inl, String, List, [], ◌∷◌, Option, none, some, arith, Bytes,
  Dict, empty, put, remove, ltb, if◌then◌else◌, eq_iff,
}
use dota_cuck.Auth.KeyCache.{CacheEntry, KeyCache, new_key_cache, put_key, delete_key, get_key}

pub data Call : Type 0 where
  puts : String → Bytes → Call
  gets : String → Call
  deletes : String → Call

unfoldable pub step : KeyCache → ℕ × Call → KeyCache
unfolding put_key get_key delete_key
step c (now, puts user_id key) = put_key c user_id key now
step c (now, gets user_id) = (get_key c user_id now).0
step c (now, deletes user_id) = delete_key c user_id

abbrev pub run : KeyCache → List (ℕ × Call) → KeyCache
run c [] = c
run c (x ∷ xs) = run (step c x) xs

-- The latest grant to each user that no deletion followed.
abbrev grant_step : ℕ → Dict CacheEntry → ℕ × Call → Dict CacheEntry
grant_step ttl m (now, puts user_id key) = put m user_id (record { key = key; expires = now + ttl })
grant_step ttl m (now, gets user_id) = m
grant_step ttl m (now, deletes user_id) = remove m user_id

abbrev pub granted : ℕ → Dict CacheEntry → List (ℕ × Call) → Dict CacheEntry
granted ttl m [] = m
granted ttl m (x ∷ xs) = granted ttl (grant_step ttl m x) xs

-- What a grant is worth at a time.
abbrev pub valid_key : Option CacheEntry → ℕ → Option Bytes
valid_key none now = none
valid_key (some e) now = if ltb now e.expires then some e.key else none

-- The clock does not run backwards, from one time through the calls to another.
abbrev pub IsOrdered : ℕ → List (ℕ × Call) → ℕ → Type 0
IsOrdered t [] last = t ≤ last
IsOrdered t ((now, x) ∷ xs) last = (t ≤ now) × IsOrdered now xs last

-- An entry and a grant agree, or the grant has expired and the entry is gone.
abbrev Agrees : ℕ → Option CacheEntry → Option CacheEntry → Type 0
Agrees t e g = (e ≡ g) ⊎ ((e ≡ none) × (x : CacheEntry) × (g ≡ some x) × (x.expires ≤ t))

step-ttl : (c : KeyCache) (now : ℕ) (x : Call) → (step c (now, x)).ttl ≡ c.ttl
unfolding step
step-ttl c now (puts user_id key) = refl
step-ttl c now (gets user_id) = ground arith
step-ttl c now (deletes user_id) = refl

step-Agrees :
    (c : KeyCache) (m : Dict CacheEntry) (ttl t now : ℕ) (x : Call) (u : String)
    → c.ttl ≡ ttl
    → t ≤ now
    → Agrees t (c.entries u) (m u)
    → Agrees now ((step c (now, x)).entries u) (grant_step ttl m (now, x) u)
unfolding step
step-Agrees c m ttl t now (puts v key) u e le a = ground (arith, eq_iff v u)
step-Agrees c m ttl t now (gets v) u e le a = ground (arith, eq_iff v u)
step-Agrees c m ttl t now (deletes v) u e le a = ground (arith, eq_iff v u)

run-Agrees :
    (c : KeyCache) (m : Dict CacheEntry) (ttl t now : ℕ) (xs : List (ℕ × Call)) (u : String)
    → c.ttl ≡ ttl
    → IsOrdered t xs now
    → Agrees t (c.entries u) (m u)
    → Agrees now ((run c xs).entries u) (granted ttl m xs u)
run-Agrees c m ttl t now [] u e le a = ground arith
run-Agrees c m ttl t now ((s, x) ∷ xs) u e (le, later) a =
    run-Agrees (step c (s, x)) (grant_step ttl m (s, x)) ttl s now xs u (step-ttl c s x ∙ e) later
      (step-Agrees c m ttl t s x u e le a)

get_key-valid :
    (c : KeyCache) (u : String) (now : ℕ) (g : Option CacheEntry)
    → Agrees now (c.entries u) g
    → (get_key c u now).1 ≡ valid_key g now
unfolding get_key
get_key-valid c u now g a = ground arith

-- After any calls with a clock that does not run backwards, `Get` returns the key that was last put
-- for the user, if it was put less than the TTL ago and not deleted since, and no key otherwise:
-- evicting expired entries changes no answer, and no other user's calls matter.
pub get_key-granted :
    (ttl now : ℕ) (xs : List (ℕ × Call)) (u : String)
    → IsOrdered 0 xs now
    → (get_key (run (new_key_cache ttl) xs) u now).1 ≡ valid_key (granted ttl empty xs u) now
unfolding new_key_cache
get_key-granted ttl now xs u ordered =
    get_key-valid (run (new_key_cache ttl) xs) u now _
      (run-Agrees (new_key_cache ttl) empty ttl 0 now xs u refl ordered (inl refl))
