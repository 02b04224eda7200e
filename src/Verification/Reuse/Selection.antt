-- ===== src/Verification/Reuse/Selection.antt =====
-- What `select` chooses among all the evidence of a vehicle.
use mathlib.Core.List.{Mem}
use wheelmatch.Base.{
  ℕ, ◌≡◌, refl, ap, ◌∙◌, Bool, true, false, not, Option, none, some, List, arith, find, find_sound,
  ◌==◌, ◌⊎◌, inl, inr, Bool-cases, ltb, ◌&&◌, is_none,
}
use wheelmatch.Verification.Reuse.{
  OwnershipReusePolicy, OwnershipReuseContext, OwnershipEvidence, OwnershipSelection,
  OwnershipReuseDecision, select, select_current, select_reusable, newest_first, newer_conflicting,
  effective_expiry, evaluate, verified_for, verified_elsewhere,
}
use wheelmatch.Verification.Reuse.Eligible.{IsEligible, evaluate-eligible_iff}
use wheelmatch.Verification.Reuse.Ordering.{any-newest_first, find-newest_first}

newer_conflicting-newest_first :
    (e : OwnershipEvidence) (evidence : List OwnershipEvidence)
    → newer_conflicting e (newest_first evidence) ≡ newer_conflicting e evidence
unfolding newer_conflicting
newer_conflicting-newest_first e evidence =
    any-newest_first
      (λ item. ltb e.attempt_number item.attempt_number && is_none item.superseded_at) evidence

module _ (policy : OwnershipReusePolicy) (c : OwnershipReuseContext)
    (evidence : List OwnershipEvidence) (listing : ℕ) where
  -- The evidence `e` that a selection rests on: one of the attempts, eligible against all of
  -- them, counted until its effective expiry, and reused only if it belongs to another listing.
  pub record Rests (s : OwnershipSelection) (e : OwnershipEvidence) : Type 0 where
    pub held : Mem e evidence
    pub eligible :
        IsEligible c e (newer_conflicting e evidence) (effective_expiry policy e s.decision.reused)
    pub until : s.decision.effective_expires_at ≡ effective_expiry policy e s.decision.reused
    pub reuse : s.decision.reused ≡ not (e.listing_id == listing)

  -- `s` is the decision on `e`, which was eligible
  abbrev Chose : Bool → OwnershipEvidence → OwnershipSelection → Type 0
  Chose reuse e s =
      ((evaluate policy c e (newer_conflicting e (newest_first evidence)) reuse).eligible ≡ true)
      × (s.decision ≡ evaluate policy c e (newer_conflicting e (newest_first evidence)) reuse)

  reusable-Chose :
      (found : Option OwnershipEvidence) (e : OwnershipEvidence)
      → (select_reusable policy c (newest_first evidence) found).evidence ≡ some e
      → (found ≡ some e) × Chose true e (select_reusable policy c (newest_first evidence) found)
  unfolding select_reusable
  reusable-Chose none e h = absurd (cc)
  reusable-Chose (some x) e h =
      elim (Bool-cases
        (evaluate policy c x (newer_conflicting x (newest_first evidence)) true).eligible) [
          | inl fine ↦ let same : x ≡ e = ground arith in (ap some same, rw (← same) (fine, refl))
          | inr bad ↦ absurd (ground arith)
        ]

  current-Chose :
      (found other : Option OwnershipEvidence) (e : OwnershipEvidence)
      → (select_current policy c
          (newest_first evidence)
          found
          (select_reusable policy c (newest_first evidence) other)).evidence
        ≡ some e
      → ((found ≡ some e)
          × Chose false e (
              select_current policy c
                (newest_first evidence)
                found
                (select_reusable policy c (newest_first evidence) other)))
        ⊎ ((other ≡ some e)
            × Chose true e (
                select_current policy c
                  (newest_first evidence)
                  found
                  (select_reusable policy c (newest_first evidence) other)))
  unfolding select_current
  current-Chose none other e h = inr (reusable-Chose other e h)
  current-Chose (some x) other e h =
      elim (Bool-cases
        (evaluate policy c x (newer_conflicting x (newest_first evidence)) false).eligible) [
          | inl fine ↦
              let same : x ≡ e = ground arith in inl (ap some same, rw (← same) (fine, rw fine))
          | inr bad ↦ inr (rw bad (reusable-Chose other e (rw bad at h)))
        ]

  evaluated :
      (e : OwnershipEvidence) (newer reuse : Bool)
      → (evaluate policy c e newer reuse).eligible ≡ true
      → ((evaluate policy c e newer reuse).reused ≡ reuse)
        × ((evaluate policy c e newer reuse).effective_expires_at ≡ effective_expiry policy e reuse)
  unfolding evaluate
  evaluated e newer reuse h = (ground arith, ground arith)

  Chose-Rests :
      (s : OwnershipSelection) (e : OwnershipEvidence) (reuse : Bool)
      → Chose reuse e s
      → Mem e evidence
      → reuse ≡ not (e.listing_id == listing)
      → Rests s e
  Chose-Rests s e reuse (fine, decided) held here =
      let newer = newer_conflicting e (newest_first evidence) in
      let (reused, until) = evaluated e newer reuse fine in
      let is_reuse : s.decision.reused ≡ reuse =
        ap (λ (d : OwnershipReuseDecision). d.reused) decided ∙ reused in
      record {
        held = held;
        eligible =
            rw (is_reuse, ← newer_conflicting-newest_first e evidence)
              ((evaluate-eligible_iff policy c e newer reuse).0 fine);
        until =
            rw is_reuse
              (ap (λ (d : OwnershipReuseDecision). d.effective_expires_at) decided ∙ until);
        reuse = is_reuse ∙ here;
      }

  -- Evidence is selected only if it is one of the vehicle's attempts, eligible against all of
  -- them, and counted until its effective expiry; the decision says `reused` exactly if it
  -- belongs to another listing.
  pub select_sound :
      (e : OwnershipEvidence)
      → (select policy c evidence listing).evidence ≡ some e
      → Rests (select policy c evidence listing) e
  unfolding select
  select_sound e h =
      elim (current-Chose (find (verified_for listing) (newest_first evidence))
        (find (verified_elsewhere listing) (newest_first evidence)) e h) [
          | inl (found, chose) ↦
              Chose-Rests _ e false chose
                (find-newest_first (verified_for listing) evidence e found)
                (let test = find_sound (verified_for listing) (newest_first evidence) e found in
                  ground arith)
          | inr (found, chose) ↦
              Chose-Rests _ e true chose
                (find-newest_first (verified_elsewhere listing) evidence e found)
                (let test =
                    find_sound (verified_elsewhere listing) (newest_first evidence) e found in
                  ground arith)
        ]
