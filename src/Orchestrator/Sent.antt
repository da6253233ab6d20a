-- ===== src/Orchestrator/Sent.antt =====
-- The updates of a run, one after the other, when the lock is free and each write succeeds.
use tab_conductor.Prelude.{
  ℕ, ◌+◌, ◌≡◌, refl, Bool, true, false, Option, some, List, [], ◌∷◌, arith, if◌then◌else◌,
  Bool-cases, inl, inr, length, All, ap, ◌∙◌,
}
use tab_conductor.Prelude.Int.{pos}
use tab_conductor.Prelude.Call.{returns}
use tab_conductor.Cost.Usd.{Money}
use tab_conductor.Store.{
  Document, File, document, Luck, synced, as_is, prepare, read_raw, atomic_write, update,
}
use tab_conductor.Orchestrator.State.{Effect, escalate, interrupt, terminate}
use tab_conductor.Orchestrator.Document.{Body, Stamp, mutate, is_update, send, send_all, replay}
use tab_conductor.Orchestrator.Schema.{fits_body, fits_schema}
use tab_conductor.Orchestrator.Records.{OnPut}
use tab_conductor.Orchestrator.Saved.{IsFit, IsFit-IsKept, mutate-fits}

-- the lock is free in time, and the write succeeds
pub record IsFine (luck : Luck) : Type 0 where
  pub locks : luck.locks ≡ true
  pub writes : luck.writes ≡ synced

abbrev pub holding : {A : Type 0} → ℕ → A → Option (File A)
holding n b = some (document (record { version = some (pos n); body = b }))

update-holding :
    {A : Type 0} (is_valid : Document A → Bool) (luck : Luck) (f : A → A) (n : ℕ) (b : A)
    → IsFine luck
    → is_valid (record { version = some (pos (n + 1)); body = f b }) ≡ true
    → (update is_valid as_is luck (λ d. returns (record d { body = f d.body })) (holding n b)).file
      ≡ holding (n + 1) (f b)
unfolding update read_raw prepare atomic_write
update-holding is_valid luck f n b fine valid = ground (arith, fine.locks, fine.writes, valid)

module _ (m : Money) where
  -- how many of the effects are calls of the store
  unfoldable pub updates : List Effect → ℕ
  updates [] = 0
  updates (e ∷ es) = if is_update m e then updates es + 1 else updates es

  mutate-other :
      (s : Stamp m) (e : Effect) (b : Body m) → is_update m e ≡ false → mutate m s e b ≡ b
  unfolding mutate
  mutate-other s (escalate w) b h = refl
  mutate-other s (interrupt w) b h = refl
  mutate-other s (terminate w) b h = refl
  mutate-other s _ b h = cc h

  fits_schema-body :
      (n : ℕ) (b : Body m)
      → fits_body m b ≡ true
      → fits_schema m (record { version = some (pos n); body = b }) ≡ true
  unfolding fits_schema
  fits_schema-body n b h = ground (arith, h)

  send-holding :
      (luck : Luck) (s : Stamp m) (e : Effect) (n : ℕ) (b : Body m)
      → IsFine luck
      → fits_body m (mutate m s e b) ≡ true
      → send m (fits_schema m) luck s e (holding n b)
        ≡ holding (if is_update m e then n + 1 else n) (mutate m s e b)
  unfolding send
  send-holding luck s e n b fine fits = elim (Bool-cases (is_update m e)) [
    | inl writes ↦ rw writes (
        update-holding (fits_schema m) luck (mutate m s e) n b fine
          (fits_schema-body (n + 1) (mutate m s e b) fits))
    | inr silent ↦ rw (silent, mutate-other s e b silent) refl
  ]

  module _ (luck : ℕ → Luck) (fine : (n : ℕ) → IsFine (luck n)) (stamps : ℕ → Stamp m)
      (sums : (n : ℕ) → Money.le_usd m (Money.zero_usd m) (stamps n).total_usd ≡ true) where
    pub send_all-holding :
        (es : List Effect) (b : Body m)
        → All (OnPut IsFit IsFit-IsKept) es
        → fits_body m b ≡ true
        → (send_all m (fits_schema m) luck stamps es (holding 0 b)
            ≡ holding (updates es) (replay m stamps es b))
          × (fits_body m (replay m stamps es b) ≡ true)
    unfolding send_all updates replay
    send_all-holding [] b puts fits = (refl, fits)
    send_all-holding (e ∷ es) b puts fits =
        let n = length es in
        let (file, fits1) = send_all-holding es b puts.1 fits in
        let fits2 = mutate-fits m (stamps n) e (replay m stamps es b) (sums n) puts.0 fits1 in
        (
          ap (send m (fits_schema m) (luck n) (stamps n) e) file
              ∙ send-holding (luck n) (stamps n) e (updates es) (replay m stamps es b) (fine n)
                  fits2,
          fits2,
        )
