-- ===== src/Api/Limiter.antt =====
-- internal/api/ratelimit.go: the failures of each address within a window. A map is a list of keys and
-- their times, each key once.
pub mod Window
use aegis_hosting_control_pa.Base.{
  ℕ, suc, ◌+◌, ◌-◌, String, Bool, true, false, Option, none, some, List, [], ◌∷◌, ◌++◌, not, ltb,
  leb, ◌==◌, same, if◌then◌else◌, keep, length,
}

pub record Limiter : Type 0 where
  pub window : ℕ
  pub max : ℕ
  pub hits : List (String × List ℕ)

abbrev pub new_limiter : ℕ → ℕ → Limiter
new_limiter window max = record { window = window; max = max; hits = [] }

-- m[key], with nil for a missing key
unfoldable pub times_of : String → List (String × List ℕ) → List ℕ
times_of key [] = []
times_of key ((k, ts) ∷ m) = if same k key then ts else times_of key m

-- delete(m, key)
unfoldable pub delete_key : String → List (String × List ℕ) → List (String × List ℕ)
delete_key key m = keep (λ e. not (same e.0 key)) m

-- m[key] = ts
unfoldable pub put : String → List ℕ → List (String × List ℕ) → List (String × List ℕ)
put key ts m = (key, ts) ∷ delete_key key m

-- The times after `now.Add(-l.window)`.
unfoldable pub kept : ℕ → ℕ → List ℕ → List ℕ
kept window now ts = keep (λ t. ltb now (t + window)) ts

abbrev pub is_empty : List ℕ → Bool
is_empty [] = true
is_empty (_ ∷ _) = false

-- `prune`: the times left of a key, which goes when none is left.
unfoldable pub prune : String → ℕ → Limiter → List ℕ × Limiter
prune key now l =
    let ts = kept l.window now (times_of key l.hits) in
    (ts, record l { hits = if is_empty ts then delete_key key l.hits else put key ts l.hits })

-- `blocked`
unfoldable pub blocked : String → ℕ → Limiter → Bool × Limiter
blocked key now l = let (ts, l') = prune key now l in (leb l.max (length ts), l')

-- The loop over all keys.
unfoldable pub prune_all : List (String × List ℕ) → ℕ → Limiter → Limiter
prune_all [] now l = l
prune_all ((k, _) ∷ m) now l = prune_all m now (prune k now l).1

abbrev pub max_keys : ℕ
max_keys = 20000

unfoldable pub bound_memory : ℕ → Limiter → Limiter
bound_memory now l =
    if ltb max_keys (length l.hits)
    then (let pruned = prune_all l.hits now l in
        if ltb max_keys (length pruned.hits) then record pruned { hits = [] } else pruned)
    else l

-- `fail`
unfoldable pub fail_once : String → ℕ → Limiter → Limiter
fail_once key now l =
    let bounded = bound_memory now l in
    let (ts, pruned) = prune key now bounded in
    record pruned { hits = put key (ts ++ now ∷ []) pruned.hits }
