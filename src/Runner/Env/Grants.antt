-- ===== src/Runner/Env/Grants.antt =====
-- Which variables reach a worker, and with which values.
use tab_conductor.Prelude.{
  String, ◌≡◌, refl, Bool, true, false, ◌&&◌, ◌||◌, Option, none, some, List, [], ◌∷◌, arith, ◌==◌,
  eq_iff, contains, if◌then◌else◌, Bool-cases, inl, inr, ap,
}
use tab_conductor.Dict.{
  Dict, lookup, insert, lookup-insert, lookup-has, HasDistinctKeys, HasDistinctKeys-insert,
}
use tab_conductor.Runner.Env.{
  env_allow_list, put_some, forward_all, forward_if, update, build_worker_env, is_allowed,
  allow_each, spawn_env,
}

abbrev pub first_of : Option String → Option String → Option String
first_of none second = second
first_of (some v) second = some v

first_of-choices :
    (a b c : Bool) (v : Option String)
    → (let x = if a then first_of v none else none in
        let y = if b then first_of v x else x in if c then first_of v y else y)
      ≡ (if a || b || c then v else none)
first_of-choices a b c none = ground arith
first_of-choices a b c (some w) = ground arith

-- The operations on an environment, by look-ups.

lookup-put_some :
    (k key : String) (val : Option String) (env : Dict String)
    → lookup k (put_some key val env)
      ≡ (if key == k then first_of val (lookup k env) else lookup k env)
lookup-put_some k key none env = ground arith
lookup-put_some k key (some val) env = ground (arith, lookup-insert key k val env)

lookup-forward_all :
    (k : String) (environ : Dict String) (names : List String) (env : Dict String)
    → lookup k (forward_all environ names env)
      ≡ (if contains k names then first_of (lookup k environ) (lookup k env) else lookup k env)
unfolding forward_all contains
lookup-forward_all k environ [] env = refl
lookup-forward_all k environ (key ∷ names) env = ground (
  arith,
  eq_iff key k,
  lookup-put_some k key (lookup key environ) env,
  lookup-forward_all k environ names (put_some key (lookup key environ) env),
)

lookup-forward_if :
    (k : String) (pass : Bool) (environ : Dict String) (key : String) (env : Dict String)
    → lookup k (forward_if pass environ key env)
      ≡ (if pass && key == k then first_of (lookup k environ) (lookup k env) else lookup k env)
lookup-forward_if k pass environ key env =
    ground (arith, eq_iff key k, lookup-put_some k key (lookup key environ) env)

lookup-update :
    (k : String) (env extra : Dict String)
    → HasDistinctKeys extra
    → lookup k (update env extra) ≡ first_of (lookup k extra) (lookup k env)
unfolding update lookup
lookup-update k env [] h = refl
lookup-update k env ((key, val) ∷ extra) h = ground (
  arith,
  h.0,
  eq_iff key k,
  lookup-has k extra,
  lookup-insert key k val env,
  lookup-update k (insert key val env) extra h.1,
)

lookup-allow_each :
    (k : String) (acc env : Dict String)
    → HasDistinctKeys env
    → lookup k (allow_each acc env)
      ≡ (if is_allowed k then first_of (lookup k env) (lookup k acc) else lookup k acc)
unfolding allow_each lookup
lookup-allow_each k acc [] h = ground arith
lookup-allow_each k acc ((key, val) ∷ env) h = elim (Bool-cases (is_allowed key)) [
  | inl allowed ↦ rw allowed (
      ground (
        arith,
        allowed,
        h.0,
        eq_iff key k,
        lookup-has k env,
        lookup-insert key k val acc,
        lookup-allow_each k (insert key val acc) env h.1,
      ))
  | inr denied ↦ rw denied (ground (arith, denied, eq_iff key k, lookup-allow_each k acc env h.1))
]

-- Every environment that is built has distinct keys.

put_some-HasDistinctKeys :
    (key : String) (val : Option String) (env : Dict String)
    → HasDistinctKeys env
    → HasDistinctKeys (put_some key val env)
put_some-HasDistinctKeys key none env h = h
put_some-HasDistinctKeys key (some val) env h = HasDistinctKeys-insert key val env h

forward_all-HasDistinctKeys :
    (environ : Dict String) (names : List String) (env : Dict String)
    → HasDistinctKeys env
    → HasDistinctKeys (forward_all environ names env)
unfolding forward_all
forward_all-HasDistinctKeys environ [] env h = h
forward_all-HasDistinctKeys environ (key ∷ names) env h =
    forward_all-HasDistinctKeys environ names _
      (put_some-HasDistinctKeys key (lookup key environ) env h)

forward_if-HasDistinctKeys :
    (pass : Bool) (environ : Dict String) (key : String) (env : Dict String)
    → HasDistinctKeys env
    → HasDistinctKeys (forward_if pass environ key env)
forward_if-HasDistinctKeys true environ key env h =
    put_some-HasDistinctKeys key (lookup key environ) env h
forward_if-HasDistinctKeys false environ key env h = h

update-HasDistinctKeys :
    (env extra : Dict String) → HasDistinctKeys env → HasDistinctKeys (update env extra)
unfolding update
update-HasDistinctKeys env [] h = h
update-HasDistinctKeys env ((key, val) ∷ extra) h =
    update-HasDistinctKeys (insert key val env) extra (HasDistinctKeys-insert key val env h)

module _ (environ extra : Dict String) (pass_anthropic_key pass_hmac_key : Bool) where
  build_worker_env-HasDistinctKeys :
      HasDistinctKeys (build_worker_env environ extra pass_anthropic_key pass_hmac_key)
  unfolding build_worker_env
  build_worker_env-HasDistinctKeys = update-HasDistinctKeys _ extra (
      forward_if-HasDistinctKeys pass_hmac_key environ "TAB_CONDUCTOR_HMAC_KEY" _ (
        forward_if-HasDistinctKeys pass_anthropic_key environ "ANTHROPIC_API_KEY" _ (
          HasDistinctKeys-insert "LC_ALL" "C.UTF-8" _
            (forward_all-HasDistinctKeys environ env_allow_list [] tt))))

  -- whether the variable of the caller's own environment is handed on
  abbrev pub is_inherited : String → Bool
  is_inherited k =
      contains k env_allow_list
      || (pass_anthropic_key && "ANTHROPIC_API_KEY" == k)
      || (pass_hmac_key && "TAB_CONDUCTOR_HMAC_KEY" == k)

  -- the value of the variable `k` in the worker
  abbrev pub granted : String → Option String
  granted k =
      if k == "LC_ALL"
      then some "C.UTF-8"
      else if is_allowed k
      then first_of (lookup k extra) (if is_inherited k then lookup k environ else none)
      else none

  lookup-build_worker_env :
      (k : String)
      → HasDistinctKeys extra
      → (k == "LC_ALL") ≡ false
      → lookup k (build_worker_env environ extra pass_anthropic_key pass_hmac_key)
        ≡ first_of (lookup k extra) (if is_inherited k then lookup k environ else none)
  unfolding build_worker_env lookup
  lookup-build_worker_env k h other =
      let e1 = forward_all environ env_allow_list [] in
      let e2 = insert "LC_ALL" "C.UTF-8" e1 in
      let e3 = forward_if pass_anthropic_key environ "ANTHROPIC_API_KEY" e2 in
      let e4 = forward_if pass_hmac_key environ "TAB_CONDUCTOR_HMAC_KEY" e3 in
      let apart : ("LC_ALL" == k) ≡ false =
        ground (arith, other, eq_iff "LC_ALL" k, eq_iff k "LC_ALL") in
      rw
        (
          lookup-update k e4 extra h,
          lookup-forward_if k pass_hmac_key environ "TAB_CONDUCTOR_HMAC_KEY" e3,
          lookup-forward_if k pass_anthropic_key environ "ANTHROPIC_API_KEY" e2,
          lookup-insert "LC_ALL" k "C.UTF-8" e1,
          apart,
          lookup-forward_all k environ env_allow_list [],
        )
        (ap (first_of (lookup k extra)) (
          first_of-choices (contains k env_allow_list)
            (pass_anthropic_key && "ANTHROPIC_API_KEY" == k)
            (pass_hmac_key && "TAB_CONDUCTOR_HMAC_KEY" == k) (lookup k environ)))

  -- If the extra variables have distinct names, then the worker that is spawned with the filter gets as each
  -- variable exactly this: LC_ALL is C.UTF-8; any other that the filter knows is the extra variable of this
  -- name or, where there is none, the caller's own variable, if its name is on the allow-list or is that of
  -- a key which is to be passed; and there is no other variable.
  pub spawn_env-granted :
      (k : String)
      → HasDistinctKeys extra
      → lookup k (spawn_env true (build_worker_env environ extra pass_anthropic_key pass_hmac_key))
        ≡ granted k
  unfolding spawn_env lookup
  spawn_env-granted k h =
      let env = build_worker_env environ extra pass_anthropic_key pass_hmac_key in
      ground (
        arith,
        eq_iff "LC_ALL" k,
        eq_iff k "LC_ALL",
        lookup-insert "LC_ALL" k "C.UTF-8" (allow_each [] env),
        lookup-allow_each k [] env build_worker_env-HasDistinctKeys,
        lookup-build_worker_env k h,
      )
