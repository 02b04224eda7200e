-- ===== src/Identity/RateLimit/Window.antt =====
-- How many requests a window lets through.
use wheelmatch.Base.{
  ℕ, suc, ◌+◌, ◌<◌, ◌≡◌, refl, subst, sym, ap, ◌∙◌, inl, inr, Bool, true, false, none, some, List,
  [], ◌∷◌, ◌==◌, ltb, if◌then◌else◌, map, any, has, count_where, find, find_sound, find-append_none,
  find-append_some, find-update_where, All, ok, err, arith, Option-cases, Bool-cases,
}
use wheelmatch.Identity.RateLimit.{
  RateLimitRule, RateLimitBucket, auth_rate_limited, has_key, window_end, counted, upsert,
  enforce_database_fallback, from_keys, enforce,
}

-- a request, with its subjects and its time
pub record Request : Type 0 where
  pub now : ℕ
  pub subjects : List ℕ

-- the table after requests that all fall back to it
unfoldable pub requests :
    RateLimitRule → (ℕ → ℕ) → List Request → List RateLimitBucket → List RateLimitBucket
requests rule digest [] rows = rows
requests rule digest (r ∷ rest) rows =
    requests rule digest rest (enforce rule r.now digest none true r.subjects rows).1

abbrev pub is_of : ℕ → Request → Bool
is_of subject r = any (λ s. s == subject) r.subjects

-- a window that has not ended
abbrev pub is_live : ℕ → RateLimitBucket → Bool
is_live now row = ltb now row.window_expires_at

-- how often a hash stands in a list
abbrev occurrences : ℕ → List ℕ → ℕ
occurrences hash = count_where (λ h. h == hash)

module _ (rule : RateLimitRule) (digest : ℕ → ℕ) (subject : ℕ) where
  -- the row of the subject, with its count and the end of its window
  record Counts (rows : List RateLimitBucket) (count end : ℕ) : Type 0 where
    row : RateLimitBucket
    found : find (has_key rule.scope (digest subject)) rows ≡ some row
    counts : row.request_count ≡ count
    ends : row.window_expires_at ≡ end

  upsert-first :
      (now : ℕ) (rows : List RateLimitBucket)
      → has (is_live now) (find (has_key rule.scope (digest subject)) rows) ≡ false
      → Counts (upsert rule now (digest subject) rows).1 1 (window_end rule now)
  unfolding upsert
  upsert-first now rows dead =
      elim (Option-cases (find (has_key rule.scope (digest subject)) rows)) [
        | inl fresh ↦
            let row : RateLimitBucket = record {
              scope = rule.scope;
              subject_hash = digest subject;
              request_count = 1;
              window_expires_at = window_end rule now;
            } in
            record {
              row = row;
              found = rw fresh (
                  find-append_none (has_key rule.scope (digest subject)) rows row fresh
                    (ground arith));
              counts = refl;
              ends = refl;
            }
        | inr (old, found) ↦
            let ended : is_live now old ≡ false = rw (rw found at dead) in
            record {
              row = counted rule now old;
              found = rw found (
                  find-update_where (has_key rule.scope (digest subject))
                    (has_key rule.scope (digest subject)) (counted rule now) rows old
                    (λ x. ground arith) found
                  ∙ rw (find_sound (has_key rule.scope (digest subject)) rows old found) refl);
              counts = ground arith;
              ends = ground arith;
            }
      ]

  upsert-own :
      (now count end : ℕ) (rows : List RateLimitBucket)
      → Counts rows count end
      → now < end
      → Counts (upsert rule now (digest subject) rows).1 (suc count) end
  unfolding upsert
  upsert-own now count end rows c early =
      let n = c.counts in
      let e = c.ends in
      record {
        row = counted rule now c.row;
        found = rw c.found (
            find-update_where (has_key rule.scope (digest subject))
              (has_key rule.scope (digest subject)) (counted rule now) rows c.row
              (λ x. ground arith) c.found
            ∙ rw (find_sound (has_key rule.scope (digest subject)) rows c.row c.found) refl);
        counts = ground arith;
        ends = ground arith;
      }

  -- a row of another hash is counted
  upsert-other :
      (now hash count end : ℕ) (rows : List RateLimitBucket)
      → (hash == digest subject) ≡ false
      → Counts rows count end
      → Counts (upsert rule now hash rows).1 count end
  unfolding upsert
  upsert-other now hash count end rows apart c =
      let mine = find_sound (has_key rule.scope (digest subject)) rows c.row c.found in
      elim (Option-cases (find (has_key rule.scope hash) rows)) [
        | inl fresh ↦ record {
          row = c.row;
          found =
              rw fresh
                (find-append_some (has_key rule.scope (digest subject)) rows _ c.row c.found);
          counts = c.counts;
          ends = c.ends;
        }
        | inr (old, found) ↦
            let differs : has_key rule.scope hash c.row ≡ false = ground arith in
            record {
              row = c.row;
              found = rw found (
                  find-update_where (has_key rule.scope hash) (has_key rule.scope (digest subject))
                    (counted rule now) rows c.row (λ x. ground arith) c.found
                  ∙ rw differs refl);
              counts = c.counts;
              ends = c.ends;
            }
      ]

  fallback-Counts :
      (now : ℕ) (hashes : List ℕ) (count end : ℕ) (rows : List RateLimitBucket)
      → Counts rows count end
      → now < end
      → Counts
          (enforce_database_fallback rule now hashes rows).1
          (occurrences (digest subject) hashes + count)
          end
  unfolding enforce_database_fallback
  fallback-Counts now [] count end rows c early =
      let same : count ≡ 0 + count = omega arith in subst (λ n. Counts rows n end) same c
  fallback-Counts now (hash ∷ hashes) count end rows c early =
      let k = occurrences (digest subject) hashes in
      elim (Bool-cases (hash == digest subject)) [
        | inl own ↦
            let same : hash ≡ digest subject = ground arith in
            let next : Counts (upsert rule now hash rows).1 (suc count) end =
              subst (λ h. Counts (upsert rule now h rows).1 (suc count) end) (sym same)
                (upsert-own now count end rows c early) in
            let swap : k + suc count ≡ suc k + count = ground arith in
            rw own (
              subst
                (λ n.
                  Counts (enforce_database_fallback rule now hashes (upsert rule now hash rows).1).1
                    n end)
                swap (fallback-Counts now hashes (suc count) end _ next early))
        | inr other ↦ rw other (
            fallback-Counts now hashes count end (upsert rule now hash rows).1
              (upsert-other now hash count end rows other c) early)
      ]

  module _ (apart : (x : ℕ) → digest x ≡ digest subject → x ≡ subject) where
    -- A subject stands once among the keys, if at all.
    occurrences-from_keys :
        (seen xs : List ℕ)
        → occurrences (digest subject) (map digest (from_keys seen xs)) ≡ (
            if any (λ y. y == subject) seen then 0 else if any (λ s. s == subject) xs then 1 else 0)
    unfolding from_keys
    occurrences-from_keys seen [] = ground arith
    occurrences-from_keys seen (x ∷ xs) = elim (Bool-cases (any (λ y. y == x) seen)) [
      | inl there ↦ elim (Bool-cases (x == subject)) [
        | inl own ↦
            let same : x ≡ subject = ground arith in
            let had : any (λ y. y == subject) seen ≡ true =
              subst (λ k. any (λ y. y == k) seen ≡ true) same there in
            rw there (ground (arith, occurrences-from_keys seen xs))
        | inr other ↦ rw there (ground (arith, occurrences-from_keys seen xs))
      ]
      | inr new ↦ elim (Bool-cases (digest x == digest subject)) [
        | inl own ↦
            let same : x ≡ subject = apart x (ground arith) in
            let lacks : any (λ y. y == subject) seen ≡ false =
              subst (λ k. any (λ y. y == k) seen ≡ false) same new in
            rw new (ground (arith, occurrences-from_keys (x ∷ seen) xs))
        | inr other ↦
            let differs : (x == subject) ≡ false = elim (Bool-cases (x == subject)) [
              | inl equal ↦
                  let same : x ≡ subject = ground arith in absurd (ground (arith, ap digest same))
              | inr unequal ↦ unequal
            ] in
            rw new (ground (arith, occurrences-from_keys (x ∷ seen) xs))
      ]
    ]

    enforce-Counts :
        (r : Request) (count end : ℕ) (rows : List RateLimitBucket)
        → Counts rows count end
        → r.now < end
        → Counts
            (enforce rule r.now digest none true r.subjects rows).1
            (if is_of subject r then suc count else count)
            end
    unfolding enforce
    enforce-Counts r count end rows c early =
        subst
          (λ n.
            Counts
              (enforce_database_fallback rule r.now (map digest (from_keys [] r.subjects)) rows).1 n
              end)
          (ground (arith, occurrences-from_keys [] r.subjects))
          (fallback-Counts r.now (map digest (from_keys [] r.subjects)) count end rows c early)

    requests-Counts :
        (rest : List Request) (count end : ℕ) (rows : List RateLimitBucket)
        → Counts rows count end
        → All (λ r. r.now < end) rest
        → Counts (requests rule digest rest rows) (count_where (is_of subject) rest + count) end
    unfolding requests
    requests-Counts [] count end rows c early =
        let same : count ≡ 0 + count = omega arith in subst (λ n. Counts rows n end) same c
    requests-Counts (r ∷ rest) count end rows c early =
        let next = enforce-Counts r count end rows c early.0 in
        let more =
          requests-Counts rest (if is_of subject r then suc count else count) end
            (enforce rule r.now digest none true r.subjects rows).1 next early.1 in
        subst (λ n. Counts (requests rule digest (r ∷ rest) rows) n end) (ground arith) more

  upsert-count :
      (now count end : ℕ) (rows : List RateLimitBucket)
      → Counts rows count end
      → now < end
      → (upsert rule now (digest subject) rows).0 ≡ suc count
  unfolding upsert
  upsert-count now count end rows c early =
      let n = c.counts in let e = c.ends in rw c.found (ground arith)

  enforce-last :
      (now count end : ℕ) (rows : List RateLimitBucket)
      → Counts rows count end
      → now < end
      → (enforce rule now digest none true (subject ∷ []) rows).0
        ≡ (if ltb rule.limit (suc count) then err auth_rate_limited else ok tt)
  unfolding enforce enforce_database_fallback from_keys
  enforce-last now count end rows c early =
      rw (upsert-count now count end rows c early) (ground arith)

  enforce-first :
      (now : ℕ) (rows : List RateLimitBucket)
      → has (is_live now) (find (has_key rule.scope (digest subject)) rows) ≡ false
      → Counts (enforce rule now digest none true (subject ∷ []) rows).1 1 (window_end rule now)
  unfolding enforce enforce_database_fallback from_keys
  enforce-first now rows dead = upsert-first now rows dead

-- While Redis fails on every call and the fallback's table can be written: where a subject has no
-- window in force, a first request of it alone opens one, and in that window a further request of it
-- alone is let through exactly as long as the requests that named the subject, the first and this
-- one counted, do not exceed the limit; requests of any other subjects, alone or together with it,
-- come between and do not change that. The keyed hash tells the subject from every other.
pub requests-enforce :
    (rule : RateLimitRule) (digest : ℕ → ℕ) (subject first now : ℕ) (between : List Request)
    (rows : List RateLimitBucket)
    → ((x : ℕ) → digest x ≡ digest subject → x ≡ subject)
    → has (is_live first) (find (has_key rule.scope (digest subject)) rows) ≡ false
    → All (λ r. r.now < window_end rule first) between
    → now < window_end rule first
    → (enforce rule now digest none true (subject ∷ []) (
        requests rule digest between (enforce rule first digest none true (subject ∷ []) rows).1)).0
      ≡ (if ltb rule.limit (suc (count_where (is_of subject) between + 1))
          then err auth_rate_limited
          else ok tt)
requests-enforce rule digest subject first now between rows apart dead early soon =
    enforce-last rule digest subject now (count_where (is_of subject) between + 1)
      (window_end rule first)
      (requests rule digest between (enforce rule first digest none true (subject ∷ []) rows).1)
      (requests-Counts rule digest subject apart between 1 (window_end rule first)
        (enforce rule first digest none true (subject ∷ []) rows).1
        (enforce-first rule digest subject first rows dead) early)
      soon
