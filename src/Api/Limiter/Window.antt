-- ===== src/Api/Limiter/Window.antt =====
-- What the limiter remembers of an address.
use aegis_hosting_control_pa.Base.{
  ◌<◌, ℕ, ◌+◌, ◌≤◌, String, Bool, true, List, [], ◌∷◌, ◌++◌, not, ltb, same, if◌then◌else◌, keep,
  length, ◌≡◌, refl, ◌∙◌, arith, Bool-cases, inl, inr, eq_refl, All, le→leb,
}
use aegis_hosting_control_pa.Api.Limiter.{
  Limiter, is_empty, times_of, delete_key, put, kept, prune, prune_all, blocked, bound_memory,
  fail_once, max_keys,
}

times_of-delete_key :
    (key : String) (m : List (String × List ℕ)) → times_of key (delete_key key m) ≡ []
unfolding times_of delete_key keep
times_of-delete_key key [] = refl
times_of-delete_key key ((k, ts) ∷ m) = ground (arith, times_of-delete_key key m)

times_of-put :
    (key : String) (ts : List ℕ) (m : List (String × List ℕ)) → times_of key (put key ts m) ≡ ts
unfolding times_of put
times_of-put key ts m = rw (eq_refl key)

none_left :
    (key : String) (m : List (String × List ℕ)) (ts : List ℕ)
    → times_of key (if is_empty ts then delete_key key m else put key ts m) ≡ ts
none_left key m [] = times_of-delete_key key m
none_left key m (t ∷ ts) = times_of-put key (t ∷ ts) m

-- A prune leaves for its key the times within the window.
times_of-prune :
    (key : String) (now : ℕ) (l : Limiter)
    → times_of key (prune key now l).1.hits ≡ kept l.window now (times_of key l.hits)
unfolding prune
times_of-prune key now l = none_left key l.hits (kept l.window now (times_of key l.hits))

length-keep : {A : Type 0} (p : A → Bool) (xs : List A) → length (keep p xs) ≤ length xs
unfolding keep
length-keep p [] = omega arith
length-keep p (x ∷ xs) = grind (arith, length-keep p xs)

length-delete_key-put :
    (key : String) (ts : List ℕ) (m : List (String × List ℕ))
    → length (delete_key key (put key ts m)) ≤ length m
unfolding delete_key put keep
length-delete_key-put key ts m = rw (eq_refl key) (
    omega (
      arith,
      length-keep (λ e. not (same e.0 key)) (delete_key key m),
      length-keep (λ e. not (same e.0 key)) m,
    ))

length-delete_key :
    (key : String) (m : List (String × List ℕ)) → length (delete_key key m) ≤ length m
unfolding delete_key
length-delete_key key m = length-keep (λ e. not (same e.0 key)) m

pruned_rest :
    (key : String) (m : List (String × List ℕ)) (ts : List ℕ)
    → length (delete_key key (if is_empty ts then delete_key key m else put key ts m)) ≤ length m
pruned_rest key m [] =
    omega (arith, length-delete_key key (delete_key key m), length-delete_key key m)
pruned_rest key m (t ∷ ts) = length-delete_key-put key (t ∷ ts) m

-- The failure goes behind the times within the window, in a table that has grown by one key at most.
module _ (key : String) (now : ℕ) (l : Limiter) where
  length-bound_memory : length (bound_memory now l).hits ≤ max_keys
  unfolding bound_memory
  length-bound_memory = elim (Bool-cases (ltb max_keys (length l.hits))) [
    | inl over ↦ elim (Bool-cases (ltb max_keys (length (prune_all l.hits now l).hits))) [
      | inl still ↦ rw (over, still) (omega arith)
      | inr down ↦ rw (over, down) (ground arith)
    ]
    | inr under ↦ rw under (ground arith)
  ]

  -- After any failure the table has at most 20001 addresses, whatever it held before.
  pub length-fail_once : length (fail_once key now l).hits ≤ max_keys + 1
  unfolding fail_once prune put
  length-fail_once =
      let b = bound_memory now l in
      omega (
        arith,
        length-bound_memory,
        pruned_rest key b.hits (kept b.window now (times_of key b.hits)),
      )

kept-kept : (w now t : ℕ) (ts : List ℕ) → t ≤ now → kept w now (kept w t ts) ≡ kept w now ts
unfolding kept keep
kept-kept w now t [] h = refl
kept-kept w now t (u ∷ ts) h = ground (arith, kept-kept w now t ts h)

length-kept-snoc :
    (w now t : ℕ) (ts : List ℕ)
    → now < t + w
    → length (kept w now (ts ++ t ∷ [])) ≡ length (kept w now ts) + 1
unfolding kept keep
length-kept-snoc w now t [] h = ground arith
length-kept-snoc w now t (u ∷ ts) h = ground (arith, length-kept-snoc w now t ts h)

bound_memory-room : (t : ℕ) (l : Limiter) → length l.hits ≤ max_keys → bound_memory t l ≡ l
unfolding bound_memory
bound_memory-room t l room = ground arith

-- Failures of one key, at a list of times.
pub fail_all : String → List ℕ → Limiter → Limiter
fail_all key [] l = l
fail_all key (t ∷ ts) l = fail_all key ts (fail_once key t l)

module _ (key : String) (now : ℕ) where
  -- The failures of the key that count now.
  abbrev pub current : Limiter → ℕ
  current l = length (kept l.window now (times_of key l.hits))

  -- A failure at `t` that is still within the window counts, and none of the others is lost.
  current-fail_once :
      (t : ℕ) (l : Limiter)
      → length l.hits ≤ max_keys
      → t ≤ now
      → now < t + l.window
      → current (fail_once key t l) ≡ current l + 1
  unfolding fail_once prune
  current-fail_once t l room past recent = rw (
    bound_memory-room t l room,
    times_of-put key (kept l.window t (times_of key l.hits) ++ t ∷ []),
    length-kept-snoc l.window now t (kept l.window t (times_of key l.hits)) recent,
    kept-kept l.window now t (times_of key l.hits) past,
  )

  settings-fail_once :
      (t : ℕ) (l : Limiter)
      → length l.hits ≤ max_keys
      → ((fail_once key t l).window ≡ l.window)
        × ((fail_once key t l).max ≡ l.max)
        × (length (fail_once key t l).hits ≤ length l.hits + 1)
  unfolding fail_once prune put
  settings-fail_once t l room =
      rw (bound_memory-room t l room)
        (refl, refl, omega (arith, pruned_rest key l.hits (kept l.window t (times_of key l.hits))))

  -- The times lie in the window that ends now.
  abbrev pub AreRecent : ℕ → List ℕ → Type 0
  AreRecent window ts = All (λ t. (t ≤ now) × (now < t + window)) ts

  current-fail_all :
      (ts : List ℕ) (l : Limiter)
      → length l.hits + length ts ≤ max_keys
      → AreRecent l.window ts
      → (current (fail_all key ts l) ≡ current l + length ts) × ((fail_all key ts l).max ≡ l.max)
  unfolding fail_all
  current-fail_all [] l room h = (omega arith, refl)
  current-fail_all (t ∷ ts) l room ((past, recent), h) =
      let (same_window, same_max, grown) = settings-fail_once t l (omega arith) in
      let (count, same_max') =
        current-fail_all ts (fail_once key t l) (omega arith) (rw same_window h) in
      (omega (arith, count, current-fail_once t l (omega arith) past recent), same_max' ∙ same_max)

  -- As many failures of an address within the window as the limit allows block it, whatever the
  -- table held before, if the addresses in the table and those failures are at most 20000
  -- together.
  pub blocked-fail_all :
      (ts : List ℕ) (l : Limiter)
      → length l.hits + length ts ≤ max_keys
      → AreRecent l.window ts
      → l.max ≤ length ts
      → (blocked key now (fail_all key ts l)).0 ≡ true
  unfolding blocked prune
  blocked-fail_all ts l room h enough =
      let (count, same_max) = current-fail_all ts l room h in
      le→leb _ _ (omega (arith, count, same_max))
