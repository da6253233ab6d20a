-- ===== src/Store/Concurrent.antt =====
-- Calls of `update` by several processes: their steps interleave, and only the lock orders them.
use tab_conductor.Prelude.{
  ℕ, ◌+◌, String, ◌≡◌, refl, ◌≢◌, Bool, false, Option, none, some, List, [], ◌∷◌, arith, ◌==◌,
  eq_iff, length, if◌then◌else◌, Bool-cases, inl, inr, subst, sym,
}
use tab_conductor.Prelude.Call.{Call, returns, ◌>>=◌, >>=-returns}
use tab_conductor.Prelude.Int.{pos}
use tab_conductor.Store.Serial.{prepare-Follows}
use tab_conductor.Store.{Document, File, document, StoreError, prepare, stored}

-- A process waits, holds the lock, has read the file, or has a document to write.
pub data Phase (A : Type 0) : Type 0 where
  waiting holding : Phase A
  loaded : Document A → Phase A
  prepared : (Document A → Call StoreError (Document A)) → Document A → Phase A

pub record System (A : Type 0) : Type 0 where
  pub file : Option (File A)
  pub owner : Option String
  pub phases : String → Phase A
  -- the mutators whose documents were written, the latest first
  pub log : List (Document A → Call StoreError (Document A))

module _ {A : Type 0} where
  abbrev pub enter : String → Phase A → System A → System A
  enter p phase s = record s { phases = λ q. if p == q then phase else s.phases q }

  abbrev pub release : String → System A → System A
  release p s = record (enter p waiting s) { owner = none }

module _ {A : Type 0} (is_valid : Document A → Bool) (reload : A → A) where
  -- A process leaves the lock when it is done, and on every error.
  pub data Step (s : System A) : System A → Type 0 where
    acquires :
        (p : String) → s.owner ≡ none → Step s (record (enter p holding s) { owner = some p })
    loads :
        (p : String) (d : Document A)
        → s.phases p ≡ holding
        → s.file ≡ some (document d)
        → Step s (enter p (loaded d) s)
    mutates :
        (p : String) (m : Document A → Call StoreError (Document A)) (d d' : Document A)
        → s.phases p ≡ loaded d
        → prepare is_valid m d ≡ returns d'
        → Step s (enter p (prepared m d') s)
    replaces :
        (p : String) (m : Document A → Call StoreError (Document A)) (d' : Document A)
        → s.phases p ≡ prepared m d'
        → Step s (record (enter p holding s) {
          file = some (document (stored is_valid reload d'));
          log = m ∷ s.log;
        })
    releases : (p : String) → s.owner ≡ some p → Step s (release p s)

  pub data Steps (s : System A) : System A → Type 0 where
    here : Steps s s
    next : {t u : System A} → Steps s t → Step t u → Steps s u

  -- the mutators one after the other, each on what JSON gives back of the document before
  unfoldable pub run_all :
      List (Document A → Call StoreError (Document A)) → Document A → Call StoreError (Document A)
  run_all [] d = returns d
  run_all (m ∷ ms) d =
      run_all ms d >>= λ d'. prepare is_valid m d' >>= λ e. returns (stored is_valid reload e)

  -- what holds while the process `q` is in a phase
  abbrev pub Fits : Option (File A) → Option String → String → Phase A → Type 0
  Fits file owner q waiting = Unit
  Fits file owner q holding = owner ≡ some q
  Fits file owner q (loaded d) = (owner ≡ some q) × (file ≡ some (document d))
  Fits file owner q (prepared m d') =
      (owner ≡ some q)
      × ((d : Document A) × (file ≡ some (document d)) × (prepare is_valid m d ≡ returns d'))

  -- A process that has not the lock is in no phase that the file matters to.
  Fits-other :
      (file file' : Option (File A)) (owner owner' : Option String) (q : String) (phase : Phase A)
      → owner ≢ some q
      → Fits file owner q phase
      → Fits file' owner' q phase
  Fits-other file file' owner owner' q waiting n f = tt
  Fits-other file file' owner owner' q holding n f = ground (arith, n f)
  Fits-other file file' owner owner' q (loaded d) n f = elim (n f.0) [ ]
  Fits-other file file' owner owner' q (prepared m d') n f = elim (n f.0) [ ]

  Fits-enter :
      (file : Option (File A)) (owner : Option String) (p : String) (phase : Phase A)
      (phases : String → Phase A)
      → Fits file owner p phase
      → ((q : String) → (p == q) ≡ false → Fits file owner q (phases q))
      → (q : String) → Fits file owner q (if p == q then phase else phases q)
  Fits-enter file owner p phase phases f others q = elim (Bool-cases (p == q)) [
    | inl same ↦ rw same (subst (λ r. Fits file owner r phase) ((eq_iff p q).0 same) f)
    | inr other ↦ rw other (others q other)
  ]

  -- Every process is in a phase that fits, and the file holds what the mutators written so far give
  -- one after the other.
  pub record Serial (d0 : Document A) (s : System A) : Type 0 where
    pub fits : (q : String) → Fits s.file s.owner q (s.phases q)
    pub current : Document A
    pub holds : s.file ≡ some (document current)
    pub serial : run_all s.log d0 ≡ returns current

  owner-other :
      (p q : String) (owner : Option String) → owner ≡ some p → (p == q) ≡ false → owner ≢ some q
  owner-other p q owner h n e = ground (arith, h, n, e, eq_iff p q)

  Step-Serial : (d0 : Document A) (s t : System A) → Step s t → Serial d0 s → Serial d0 t
  unfolding run_all
  Step-Serial d0 s _ (acquires p free) i = record {
    fits = Fits-enter s.file (some p) p holding s.phases refl (λ q n.
        Fits-other s.file s.file s.owner (some p) q (s.phases q) (λ e. cc (free, e)) (i.fits q));
    current = i.current;
    holds = i.holds;
    serial = i.serial;
  }
  Step-Serial d0 s _ (loads p d held has) i = record {
    fits =
        Fits-enter s.file s.owner p (loaded d) s.phases
          (subst (Fits s.file s.owner p) held (i.fits p), has) (λ q n. i.fits q);
    current = i.current;
    holds = i.holds;
    serial = i.serial;
  }
  Step-Serial d0 s _ (mutates p m d d' has made) i =
      let f = subst (Fits s.file s.owner p) has (i.fits p) in
      record {
        fits =
            Fits-enter s.file s.owner p (prepared m d') s.phases (f.0, (d, f.1, made))
              (λ q n. i.fits q);
        current = i.current;
        holds = i.holds;
        serial = i.serial;
      }
  Step-Serial d0 s _ (replaces p m d' has) i =
      let f = subst (Fits s.file s.owner p) has (i.fits p) in
      record {
        fits =
            Fits-enter (some (document (stored is_valid reload d'))) s.owner p holding s.phases f.0
              (λ q n.
                Fits-other s.file (some (document (stored is_valid reload d'))) s.owner s.owner q
                  (s.phases q) (owner-other p q s.owner f.0 n) (i.fits q));
        current = stored is_valid reload d';
        holds = refl;
        serial = rw i.serial (cc (i.holds, f.1.1, f.1.2));
      }
  Step-Serial d0 s _ (releases p owns) i = record {
    fits = Fits-enter s.file none p waiting s.phases tt (λ q n.
        Fits-other s.file s.file s.owner none q (s.phases q) (owner-other p q s.owner owns n)
          (i.fits q));
    current = i.current;
    holds = i.holds;
    serial = i.serial;
  }

  pub Steps-Serial : (d0 : Document A) (s t : System A) → Steps s t → Serial d0 s → Serial d0 t
  Steps-Serial d0 s _ here i = i
  Steps-Serial d0 s u (next steps last) i = Step-Serial d0 _ u last (Steps-Serial d0 s _ steps i)

  -- no process at work
  pub record IsQuiet (d0 : Document A) (s : System A) : Type 0 where
    pub file : s.file ≡ some (document d0)
    pub free : s.owner ≡ none
    pub idle : (q : String) → s.phases q ≡ waiting
    pub fresh : s.log ≡ []

  IsQuiet-Serial : (d0 : Document A) (s : System A) → IsQuiet d0 s → Serial d0 s
  unfolding run_all
  IsQuiet-Serial d0 s k = record {
    fits = λ q. subst (Fits s.file s.owner q) (sym (k.idle q)) tt;
    current = d0;
    holds = k.file;
    serial = rw k.fresh refl;
  }

  run_all-version :
      (ms : List (Document A → Call StoreError (Document A))) (n : ℕ) (d0 d : Document A)
      → d0.version ≡ some (pos n)
      → run_all ms d0 ≡ returns d
      → d.version ≡ some (pos (n + length ms))
  unfolding run_all
  run_all-version [] n d0 d v h = ground (arith, v, h)
  run_all-version (m ∷ ms) n d0 d v h =
      let (d1, h1, h2) =
        >>=-returns (run_all ms d0)
          (λ d'. prepare is_valid m d' >>= λ e. returns (stored is_valid reload e)) h in
      let (e, h3, h4) =
        >>=-returns (prepare is_valid m d1) (λ e. returns (stored is_valid reload e)) h2 in
      let before = run_all-version ms n d0 d1 v h1 in
      let after = (prepare-Follows is_valid m d1 e h3).version in ground (arith, before, after, h4)

  -- what the file holds: the result of all the mutators whose documents were written, each applied to
  -- what the one before had written, with one version more for each
  pub record IsNotLost (n : ℕ) (d0 : Document A) (s : System A) : Type 0 where
    pub current : Document A
    pub holds : s.file ≡ some (document current)
    pub serial : run_all s.log d0 ≡ returns current
    pub version : current.version ≡ some (pos (n + length s.log))

  -- If no process is at work and the file holds a document of the version `n`, then after any
  -- interleaving of steps of any processes, in which calls may fail at any step, the file holds the
  -- document that the written mutators give one after the other, each on what JSON gives back of the
  -- document before, and its version counts them.
  pub Steps-IsNotLost :
      (n : ℕ) (d0 : Document A) (s t : System A)
      → d0.version ≡ some (pos n)
      → IsQuiet d0 s
      → Steps s t
      → IsNotLost n d0 t
  Steps-IsNotLost n d0 s t v k steps =
      let i = Steps-Serial d0 s t steps (IsQuiet-Serial d0 s k) in
      record {
        current = i.current;
        holds = i.holds;
        serial = i.serial;
        version = run_all-version t.log n d0 i.current v i.serial;
      }
