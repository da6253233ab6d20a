-- ===== src/Hmac/Tests.antt =====
-- Instances of the theorems about signatures, with small functions for the digest and the JSON text.
use tab_conductor.Prelude.{
  String, ◌≡◌, refl, true, Option, none, some, contains, ◌==◌, if◌then◌else◌,
}
use tab_conductor.Prelude.Call.{returns, raises}
use tab_conductor.Value.{str, Fields, end, field, get, without}
use tab_conductor.Hmac.{
  HmacSigner, new, append, is_ascii, compare_digest, digest, sign, verify, not_ascii,
}
use tab_conductor.Hmac.Laws.{with_sig, sign-verify, sign-forged}

abbrev signer : HmacSigner
signer = record { env_var = "TAB_CONDUCTOR_HMAC_KEY"; key = some "secret" }

-- the text is the first key
abbrev first_key : Fields → Option String
first_key end = some "{}"
first_key (field k v fs) = some k

abbrev constant : String → String → String
constant key message = "9f86d0"

abbrev payload : Fields
payload = field "worker" (str "w1") (field "_sig" (str "old") end)

abbrev signed : String → Fields
signed sig = field "worker" (str "w1") (field "_sig" (str sig) end)

abbrev other : String → Fields
other sig = field "task" (str "t1") (field "_sig" (str sig) end)

runs : Unit {0}
unfolding get without contains new append is_ascii compare_digest digest sign verify
runs = tt

sign-payload : sign first_key constant signer payload ≡ returns (signed "9f86d0")
unfolding runs
sign-payload = refl

new-environ : new none "KEY" (λ name. some name) ≡ record { env_var = "KEY"; key = some "KEY" }
unfolding runs
new-environ = refl

constant-ascii : (key message : String) → is_ascii (constant key message) ≡ true
unfolding runs
constant-ascii key message = refl

sign-verify_example : verify first_key constant signer (signed "9f86d0") ≡ returns true
sign-verify_example =
    sign-verify first_key constant signer payload (signed "9f86d0") constant-ascii sign-payload

sign-forged_example :
    (own : String) × (get "_sig" (signed "9f86d0") ≡ some (str own))
    × (verify first_key constant signer (with_sig first_key constant "é" (signed "9f86d0"))
        ≡ (if is_ascii "é" then returns (own == "é") else raises not_ascii))
sign-forged_example =
    sign-forged first_key constant signer payload (signed "9f86d0") "é" constant-ascii sign-payload
