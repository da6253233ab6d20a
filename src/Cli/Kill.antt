-- ===== src/Cli/Kill.antt =====
-- What `kill` does to a state that another process updates.
use tab_conductor.Prelude.{
  ℕ, zero, suc, ◌+◌, ◌≡◌, refl, ◌≢◌, Bool, true, Option, none, some, [], arith, ap, ◌∙◌,
}
use tab_conductor.Prelude.Int.{ℤ, pos, negsuc}
use tab_conductor.Prelude.Call.{Call, returns}
use tab_conductor.Cost.Usd.{Money}
use tab_conductor.Store.{
  Document, File, document, StoreError, Luck, as_is, version_or, next_version, update,
}
use tab_conductor.Store.Serial.{update-Committed}
use tab_conductor.Orchestrator.Document.{Body}
use tab_conductor.Cli.{kill_workers, mark_halting, write_halting, kill}

next_version-≢ : (v : Option ℤ) → v ≢ some (next_version (version_or v))
next_version-≢ none h = cc h
next_version-≢ (some (pos n)) h = let e : n ≡ n + 1 = cc h in absurd (omega (arith, e))
next_version-≢ (some (negsuc zero)) h = cc h
next_version-≢ (some (negsuc (suc n))) h = let e : suc n ≡ n = cc h in absurd (omega (arith, e))

module _ (m : Money) (is_valid : Document (Body m) → Bool) where
  abbrev version_in : Option (File (Body m)) → Option ℤ
  version_in (some (document d)) = d.version
  version_in _ = none

  -- the version of the file's document goes back
  pub record Lost (st d : Document (Body m)) (file : Option (File (Body m))) : Type 0 where
    pub halting : file ≡ some (document (mark_halting m st))
    pub newer : d.version ≡ some (next_version (version_or st.version))
    pub gone : file ≢ some (document d)

  update-newer :
      (luck : Luck) (mutator : Document (Body m) → Call StoreError (Document (Body m)))
      (st d : Document (Body m))
      → (update is_valid as_is luck mutator (some (document st))).result ≡ returns d
      → d.version ≡ some (next_version (version_or st.version))
  update-newer luck mutator st d h =
      let c = update-Committed is_valid as_is luck mutator (some (document st)) d h in
      let was : c.before ≡ st = cc c.was in
      c.follows.version
      ∙ ap (λ (x : Document (Body m)). some (next_version (version_or x.version))) was

  -- If no worker of the state that `kill` has read can be signalled, another process's update returns before
  -- `kill` writes, and the write succeeds, then the file holds what `kill` read, marked as halting: the document
  -- that the update committed, which has the next version, is gone.
  pub kill-Lost :
      (luck : Luck) (mutator : Document (Body m) → Call StoreError (Document (Body m)))
      (alive : ℕ → Bool) (st d : Document (Body m))
      → kill_workers m alive st.body.workers ≡ []
      → (update is_valid as_is luck mutator (some (document st))).result ≡ returns d
      → Lost st d
          (kill m alive true
            (λ file. (update is_valid as_is luck mutator file).file)
            (some (document st))).file
  unfolding kill write_halting
  kill-Lost luck mutator alive st d idle h =
      let newer = update-newer luck mutator st d h in
      rw idle (record {
        halting = refl;
        newer = newer;
        gone = λ e. next_version-≢ st.version (ap version_in e ∙ newer);
      })
