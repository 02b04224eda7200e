-- ===== src/Verification/Identity/Projection.antt =====
-- A user's projection shows the row of its current attempt.
use wheelmatch.Base.{
  ℕ, ◌≡◌, refl, sym, ap, subst, ◌∙◌, inl, inr, true, false, some, List, [], ◌∷◌, ◌==◌, Option-cases,
  Bool-cases, arith, find_sound, find-append_ne, find-append_none, find-append_some,
  find-append_new, find_key-update_first, any,
}
use wheelmatch.Core.Events.{add}
use wheelmatch.Verification.Identity.{
  IdentityVerification, UserVerificationState, Store, get_attempt, get_state, write_attempt,
  write_state, get_latest_for_user, next_attempt_number,
}
use wheelmatch.Verification.Identity.Starting.{
  StartCall, fresh_attempt, fresh_state, restarted, supersede, project,
}
use wheelmatch.Verification.Identity.Changes.{
  Agrees, Moves, Change, kept, opened, referenced, moved, unique_ids,
}
use wheelmatch.Verification.Identity.Changes.Rows.{
  get_attempt-supersede, any-supersede, Change-unique,
}
use wheelmatch.Verification.Identity.Changes.Cases.{step-Change}
use wheelmatch.Verification.Identity.Versions.{get_state_key, get_state-write}
use wheelmatch.Verification.Identity.History.{Transaction, step, run}

abbrev pub ShownBy : UserVerificationState → List IdentityVerification → Type 0
ShownBy s attempts =
    (a : IdentityVerification) × (get_attempt s.current_attempt_id attempts ≡ some a) × Agrees s a

-- the projection of the user, if there is one, agrees with the attempt that it names
abbrev pub Shown : ℕ → Store → Type 0
Shown user_id store =
    (s : UserVerificationState) → get_state user_id store.states ≡ some s → ShownBy s store.attempts

-- what `project` leaves to the user and to others
project-own :
    (c : StartCall) (rows : List UserVerificationState) (s : UserVerificationState)
    → get_state c.actor_user_id (project c (get_state c.actor_user_id rows) rows) ≡ some s
    → (number : ℕ) (identifier : ℕ)
    → (s.current_attempt_id ≡ c.attempt_id) × Agrees s (fresh_attempt c identifier number)
project-own c rows s e number identifier = elim (Option-cases (get_state c.actor_user_id rows)) [
  | inl new ↦
      let placed =
        find-append_none (λ row. row.user_id == c.actor_user_id) rows (fresh_state c) new
          (ground arith) in
      let written : get_state c.actor_user_id (add (fresh_state c) rows) ≡ some s =
        rw (rw new at e) in
      let row : fresh_state c ≡ s = ground (arith, placed, written) in (ground arith, ground arith)
  | inr (old, stored) ↦
      let own = find_sound (λ row. row.user_id == c.actor_user_id) rows old stored in
      let key = get_state_key c.actor_user_id rows old stored in
      let written = get_state-write old (restarted c old) c.actor_user_id rows key refl in
      let shown : get_state c.actor_user_id (write_state (restarted c old) rows) ≡ some s =
        rw (rw stored at e) in
      let row : restarted c old ≡ s = ground (arith, written, shown) in (ground arith, ground arith)
]

project-others :
    (c : StartCall) (user_id : ℕ) (rows : List UserVerificationState)
    → (c.actor_user_id == user_id) ≡ false
    → get_state user_id (project c (get_state c.actor_user_id rows) rows) ≡ get_state user_id rows
project-others c user_id rows other = elim (Option-cases (get_state c.actor_user_id rows)) [
  | inl new ↦ rw new (find-append_ne (λ row. row.user_id == user_id) rows (fresh_state c) other)
  | inr (old, stored) ↦
      let own = find_sound (λ row. row.user_id == c.actor_user_id) rows old stored in
      let key = get_state_key c.actor_user_id rows old stored in
      let apart : (old.user_id == user_id) ≡ false = ground arith in
      rw stored (get_state-write old (restarted c old) user_id rows key refl ∙ rw apart refl)
]

opened-Shown :
    (identifier : ℕ) (c : StartCall) (user_id : ℕ) (store next : Store)
    → unique_ids store ≡ true
    → any (λ row. row.id == c.attempt_id) store.attempts ≡ false
    → next.attempts
      ≡ add
          (fresh_attempt c identifier (next_attempt_number c.actor_user_id store.attempts))
          (supersede c.now (get_latest_for_user c.actor_user_id store.attempts) store.attempts)
    → next.states ≡ project c (get_state c.actor_user_id store.states) store.states
    → Shown user_id store
    → Shown user_id next
opened-Shown identifier c user_id store next u free ra rs h s e =
    let rows =
      supersede c.now (get_latest_for_user c.actor_user_id store.attempts) store.attempts in
    let number = next_attempt_number c.actor_user_id store.attempts in
    elim (Bool-cases (c.actor_user_id == user_id)) [
      | inl own ↦
          let key : c.actor_user_id ≡ user_id = ground arith in
          let e' : get_state c.actor_user_id
                (project c (get_state c.actor_user_id store.states) store.states)
              ≡ some s =
            ap (λ k. get_state k (project c (get_state c.actor_user_id store.states) store.states))
              key
            ∙ ap (get_state user_id) (sym rs)
            ∙ e in
          let (current, agrees) = project-own c store.states s e' number identifier in
          (
            fresh_attempt c identifier number,
            rw (ra, current)
                (find-append_new (λ row. row.id == c.attempt_id) rows
                  (fresh_attempt c identifier number)
                  (any-supersede c.now c.actor_user_id c.attempt_id store.attempts ∙ free)
                  (ground arith)),
            agrees,
          )
      | inr other ↦
          let before : get_state user_id store.states ≡ some s =
            sym (project-others c user_id store.states other)
            ∙ ap (get_state user_id) (sym rs)
            ∙ e in
          let (a, found, agrees) = h s before in
          elim (get_attempt-supersede c.now c.actor_user_id s.current_attempt_id store.attempts u) [
            | inl same ↦ (
              a,
              rw ra (
                  find-append_some (λ row. row.id == s.current_attempt_id) rows _ a (same ∙ found)),
              agrees,
            )
            | inr (b, stored, after) ↦
                let row : a ≡ b = ground arith in
                (
                  record b { superseded_at = some c.now },
                  rw ra (find-append_some (λ row. row.id == s.current_attempt_id) rows _ _ after),
                  ground (arith, row, agrees),
                )
          ]
    ]

-- a write of an attempt's row under its id, seen from a projection that named the old row or
-- another
write-ShownBy :
    (a b : IdentityVerification) (s : UserVerificationState) (rows : List IdentityVerification)
    → get_attempt a.id rows ≡ some a
    → b.id ≡ a.id
    → (s.current_attempt_id ≡ a.id → Agrees s a → Agrees s b)
    → ShownBy s rows
    → ShownBy s (write_attempt b rows)
write-ShownBy a b s rows found same keeps (old, shown, agrees) =
    let key : get_attempt b.id rows ≡ some a = ap (λ k. get_attempt k rows) same ∙ found in
    let written = find_key-update_first (λ row. row.id) b rows a s.current_attempt_id key in
    elim (Bool-cases (b.id == s.current_attempt_id)) [
      | inl own ↦
          let at : s.current_attempt_id ≡ a.id = ground arith in
          let row : old ≡ a = ground (arith, ap (λ k. get_attempt k rows) at) in
          (b, written ∙ rw own refl, keeps at (subst (Agrees s) row agrees))
      | inr other ↦ (old, written ∙ rw other shown, agrees)
    ]

moved-Shown :
    (a b : IdentityVerification) (s t : UserVerificationState) (user_id : ℕ) (store next : Store)
    → get_attempt a.id store.attempts ≡ some a
    → get_state a.user_id store.states ≡ some s
    → s.current_attempt_id ≡ a.id
    → Moves a b s t
    → next.attempts ≡ write_attempt b store.attempts
    → next.states ≡ write_state t store.states
    → Shown user_id store
    → Shown user_id next
moved-Shown a b s t user_id store next found state current m ra rs h shown e =
    let key = get_state_key a.user_id store.states s state in
    let written = get_state-write s t user_id store.states key m.owner in
    let e' : get_state user_id (write_state t store.states) ≡ some shown =
      ap (get_state user_id) (sym rs) ∙ e in
    let mine = find_sound (λ row. row.user_id == a.user_id) store.states s state in
    elim (Bool-cases (t.user_id == user_id)) [
      | inl own ↦
          let row : t ≡ shown = ground (arith, written, e') in
          let at : a.user_id ≡ user_id = ground (arith, m.owner) in
          let (old, stored, agrees) = h s (ap (λ k. get_state k store.states) (sym at) ∙ state) in
          let same : old ≡ a = ground (arith, ap (λ k. get_attempt k store.attempts) current) in
          let fits : Agrees t b = m.agrees (subst (Agrees s) same agrees) in
          let wrote =
            find_key-update_first (λ row. row.id) b store.attempts a t.current_attempt_id
              (ap (λ k. get_attempt k store.attempts) m.id ∙ found) in
          subst (λ p. ShownBy p next.attempts) row
            (b, rw (ra) (wrote ∙ ground (arith, fits.current)), fits)
      | inr other ↦
          let before : get_state user_id store.states ≡ some shown = ground (arith, written, e') in
          let theirs = find_sound (λ row. row.user_id == user_id) store.states shown before in
          subst (ShownBy shown) (sym ra) (
            write-ShownBy a b shown store.attempts found m.id
              (λ at agrees. absurd (ground (arith, agrees.user, m.owner))) (h shown before))
    ]

Change-Shown :
    (store next : Store) (user_id : ℕ)
    → Change store next
    → unique_ids store ≡ true
    → Shown user_id store
    → Shown user_id next
Change-Shown store next user_id (kept ra rs) u h =
    λ s e. subst (ShownBy s) (sym ra) (h s (ap (get_state user_id) (sym rs) ∙ e))
Change-Shown store next user_id (opened identifier c fresh idle ra rs) u h =
    opened-Shown identifier c user_id store next u fresh ra rs h
Change-Shown store next user_id (referenced a reference found st ra rs) u h = λ s e.
    subst (ShownBy s) (sym ra) (
      write-ShownBy a (record a { provider_reference = some reference }) s store.attempts found refl
        (λ at agrees. ground (arith, agrees)) (h s (ap (get_state user_id) (sym rs) ∙ e)))
Change-Shown store next user_id (moved a b s t found state current m ra rs) u h =
    moved-Shown a b s t user_id store next found state current m ra rs h

module _ (len : ℕ → ℕ) (identifier : ℕ) where
  -- Where the projection of a user shows the row of the attempt that it names (its status, level,
  -- times and failure code), it still does after any history of transactions. The ids of the
  -- stored attempts differ at the start, as the primary key has it.
  pub run-Shown :
      (user_id : ℕ) (store : Store) (history : List Transaction)
      → unique_ids store ≡ true
      → Shown user_id store
      → Shown user_id (run len identifier store history)
  unfolding run
  run-Shown user_id store [] u h = h
  run-Shown user_id store (t ∷ rest) u h =
      let next = step len identifier store t in
      let change = step-Change len identifier store t u in
      run-Shown user_id next rest (Change-unique store next change u)
        (Change-Shown store next user_id change u h)
